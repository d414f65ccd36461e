-- ===== src/Terminal/Shell/Ready.antt =====
-- The history keys of the shell keep its place inside the history.
use byte_space.Prelude.{
  ℕ, zero, suc, ◌+◌, ◌-◌, ◌≤◌, ◌<◌, arith, Bool, true, false, List, [], ◌∷◌, ◌++◌, length, ltb,
  ◌==◌, if◌then◌else◌, Option, none, some, Bool-cases, inl, inr, get_elem?, set, length-append,
  length-set,
}
use byte_space.Terminal.{Text, IsAscii, byte_len_ascii}
use byte_space.Terminal.Shell.{
  Shell, Outcome, recall, before, go_back, up_from, go_forward, down_from,
}

abbrev pub AllAscii : List Text → Type 0
AllAscii [] = Unit {0}
AllAscii (line ∷ lines) = IsAscii line × AllAscii lines

-- While a line of the history is shown, the line that was being typed is the last of the history.
abbrev pub IsPlace : Option ℕ → ℕ → Type 0
IsPlace none n = Unit {0}
IsPlace (some p) n = p + 2 ≤ n

pub record IsReady (s : Shell) : Type 0 where
  pub ascii : IsAscii s.buffer
  pub cursor : s.cursor_position ≤ length s.buffer
  pub lines : AllAscii s.history
  pub place : IsPlace s.pos_in_history (length s.history)

abbrev pub OutcomeIsReady : Outcome → Type 0
OutcomeIsReady none = ⊥
OutcomeIsReady (some (line, s)) = IsAscii line × IsReady s

pub OutcomeIsReady-if :
    (b : Bool) (x y : Outcome)
    → OutcomeIsReady x
    → OutcomeIsReady y
    → OutcomeIsReady (if b then x else y)
OutcomeIsReady-if true x y h k = h
OutcomeIsReady-if false x y h k = k

pub AllAscii-append :
    (h : List Text) (line : Text) → AllAscii h → IsAscii line → AllAscii (h ++ line ∷ [])
AllAscii-append [] line h k = (k, tt)
AllAscii-append (l ∷ ls) line h k = (h.0, AllAscii-append ls line h.1 k)

AllAscii-set :
    (h : List Text) (i : ℕ) (line : Text) → AllAscii h → IsAscii line → AllAscii (set h i line)
AllAscii-set [] i line h k = tt
AllAscii-set (l ∷ ls) zero line h k = (k, h.1)
AllAscii-set (l ∷ ls) (suc i) line h k = (h.0, AllAscii-set ls i line h.1 k)

-- A place inside has a line, which is ASCII.
abbrev IsLineAt : Option Text → Type 0
IsLineAt none = ⊥
IsLineAt (some line) = IsAscii line

get_elem?-IsLineAt : (h : List Text) (i : ℕ) → i < length h → AllAscii h → IsLineAt (get_elem? h i)
get_elem?-IsLineAt [] i h k = omega (arith, h)
get_elem?-IsLineAt (l ∷ ls) zero h k = k.0
get_elem?-IsLineAt (l ∷ ls) (suc i) h k = get_elem?-IsLineAt ls i (omega (arith, h)) k.1

recall-IsReady :
    (found : Option Text) (place : Option ℕ) (s : Shell)
    → IsLineAt found
    → AllAscii s.history
    → IsPlace place (length s.history)
    → OutcomeIsReady (recall found place s)
recall-IsReady none place s h k l = h
recall-IsReady (some line) place s h k l =
    (tt, record { ascii = h; cursor = omega (arith, byte_len_ascii line h); lines = k; place = l })

go_back-IsReady :
    (place : Option ℕ) (s : Shell)
    → IsReady s
    → IsPlace place (length s.history)
    → OutcomeIsReady (go_back place s)
go_back-IsReady none s h k =
    (tt, record { ascii = h.ascii; cursor = h.cursor; lines = h.lines; place = tt })
go_back-IsReady (some p) s h k =
    recall-IsReady (get_elem? s.history p) (some p) s
      (get_elem?-IsLineAt s.history p (omega (arith, k)) h.lines) h.lines k

before-IsPlace : (n m : ℕ) → n + 1 ≤ m → IsPlace (before n) m
before-IsPlace zero m h = tt
before-IsPlace (suc n) m h = omega (arith, h)

IsPlace-le : (place : Option ℕ) (n m : ℕ) → IsPlace place n → n ≤ m → IsPlace place m
IsPlace-le none n m h k = tt
IsPlace-le (some p) n m h k = omega (arith, h, k)

pub up_from-IsReady :
    (place : Option ℕ) (s : Shell)
    → IsReady s
    → IsPlace place (length s.history)
    → OutcomeIsReady (up_from place s)
up_from-IsReady none s h k =
    let longer = s.history ++ s.buffer ∷ [] in
    let length_longer = length-append s.history (s.buffer ∷ []) in
    go_back-IsReady (before (length longer - 1)) (record s { history = longer })
      (record {
        ascii = h.ascii;
        cursor = h.cursor;
        lines = AllAscii-append s.history s.buffer h.lines h.ascii;
        place =
            IsPlace-le s.pos_in_history (length s.history) (length longer) h.place
              (omega (arith, length_longer));
      })
      (before-IsPlace (length longer - 1) (length longer) (omega (arith, length_longer)))
up_from-IsReady (some p) s h k =
    go_back-IsReady (some (p - 1)) (record s { history = set s.history p s.buffer })
      (record {
        ascii = h.ascii;
        cursor = h.cursor;
        lines = AllAscii-set s.history p s.buffer h.lines h.ascii;
        place =
            IsPlace-le s.pos_in_history (length s.history) (length (set s.history p s.buffer))
              h.place (omega (arith, length-set s.history p s.buffer));
      })
      (omega (arith, k, length-set s.history p s.buffer))

go_forward-IsReady :
    (p : ℕ) (s : Shell)
    → AllAscii s.history
    → p + 2 ≤ length s.history
    → OutcomeIsReady (go_forward p s)
go_forward-IsReady p s lines k =
    let q = if ltb (p + 1) (length s.history) then p + 1 else p in
    elim (Bool-cases (p + 2 == length s.history)) [
      | inl e ↦ rw e (
          recall-IsReady (get_elem? s.history (length s.history - 1)) none s
            (get_elem?-IsLineAt s.history (length s.history - 1) (omega (arith, k)) lines) lines tt)
      | inr e ↦ rw e (
          let inside : q + 2 ≤ length s.history = ground (arith, k, e) in
          recall-IsReady (get_elem? s.history q) (some q) s
            (get_elem?-IsLineAt s.history q (omega (arith, inside)) lines) lines inside)
    ]

pub down_from-IsReady :
    (place : Option ℕ) (s : Shell)
    → IsReady s
    → IsPlace place (length s.history)
    → OutcomeIsReady (down_from place s)
down_from-IsReady none s h k = (tt, h)
down_from-IsReady (some p) s h k =
    go_forward-IsReady p (record s { history = set s.history p s.buffer })
      (AllAscii-set s.history p s.buffer h.lines h.ascii)
      (omega (arith, k, length-set s.history p s.buffer))
