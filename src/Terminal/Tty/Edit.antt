-- ===== src/Terminal/Tty/Edit.antt =====
-- The line editor keeps its cursor in the line, and returns what was typed.
use byte_space.Prelude.{
  ℕ, zero, suc, ◌+◌, ◌≤◌, ◌<◌, ◌≡◌, arith, Bool, true, false, ◌&&◌, ◌||◌, not, [], ◌∷◌, ◌++◌,
  length, ltb, ◌==◌, if◌then◌else◌, eq_bytes, codes, Bool-cases, inl, inr, take, drop, length-take,
  length-drop, length-append,
}
use byte_space.Terminal.{
  Text, byte_len, enter, delete, tab, arrow_up, arrow_down, arrow_right, arrow_left, is_ignored,
  is_incomplete, remove_rune, insert_runes, expand, IsAscii, byte_len_ascii,
}
use byte_space.Terminal.Tty.{
  Tty, Step, goes_on, returns, step_panics, echo_key, echo_cursor, echo_text, write_to_client,
  show_rest, delete_key, right_key, left_key, insert_key, edit_key, read_key,
}

-- The cursor stands in the line, which is ASCII.
pub record IsLine (t : Tty) : Type 0 where
  pub ascii : IsAscii t.buffer
  pub cursor : t.cursor_position ≤ length t.buffer

abbrev pub StepIsLine : Step → Type 0
StepIsLine (goes_on t) = IsLine t
StepIsLine (returns text t) = IsLine t
StepIsLine step_panics = ⊥

pub IsAscii-append : (s r : Text) → IsAscii s → IsAscii r → IsAscii (s ++ r)
IsAscii-append [] r h k = k
IsAscii-append (c ∷ s) r h k = (h.0, IsAscii-append s r h.1 k)

pub IsAscii-take : (n : ℕ) (s : Text) → IsAscii s → IsAscii (take n s)
IsAscii-take zero s h = tt
IsAscii-take (suc n) [] h = tt
IsAscii-take (suc n) (c ∷ s) h = (h.0, IsAscii-take n s h.1)

pub IsAscii-drop : (n : ℕ) (s : Text) → IsAscii s → IsAscii (drop n s)
IsAscii-drop zero s h = h
IsAscii-drop (suc n) [] h = tt
IsAscii-drop (suc n) (c ∷ s) h = IsAscii-drop n s h.1

pub IsAscii-expand : (key : Text) → IsAscii key → IsAscii (expand key)
IsAscii-expand key h = elim (Bool-cases (eq_bytes key tab)) [
  | inl e ↦ rw (e, expand) (omega arith)
  | inr e ↦ rw (e, expand) h
]

show_rest-IsLine : (t : Tty) → IsLine t → IsLine (show_rest t)
show_rest-IsLine t h = elim (Bool-cases (t.echo && not t.passwd_mode)) [
  | inl e ↦ rw (e, show_rest) (record { ascii = h.ascii; cursor = h.cursor })
  | inr e ↦ rw (e, show_rest) h
]

pub length-insert_runes :
    (s r : Text) (n : ℕ) → n ≤ length s → length (insert_runes s n r) ≡ length s + length r
length-insert_runes s r n h = omega (
  arith,
  length-append {0} (take n s) (r ++ drop n s),
  length-append {0} r (drop n s),
  length-take {0} n s,
  length-drop {0} n s,
)

pub length-remove_rune :
    (s : Text) (n : ℕ) → n < length s → suc (length (remove_rune s n)) ≡ length s
length-remove_rune s n h = omega (
  arith,
  length-append {0} (take n s) (drop (n + 1) s),
  length-take {0} n s,
  length-drop {0} (n + 1) s,
)

echo_cursor-le : (key : Text) (t : Tty) → echo_cursor key t ≤ t.cursor_position
unfolding echo_cursor
echo_cursor-le key t = ground arith

IsLine-if : (b : Bool) (x y : Tty) → IsLine x → IsLine y → IsLine (if b then x else y)
IsLine-if true x y h k = h
IsLine-if false x y h k = k

pub echo_key-IsLine : (key : Text) (t : Tty) → IsLine t → IsLine (echo_key key t)
unfolding echo_key write_to_client
echo_key-IsLine key t h =
    let masked =
      if t.passwd_mode && not (eq_bytes key enter) && not (eq_bytes key delete)
      then codes "*"
      else echo_text key t in
    IsLine-if t.echo (write_to_client masked (record t { cursor_position = echo_cursor key t })) t
      (record { ascii = h.ascii; cursor = omega (arith, h.cursor, echo_cursor-le key t) }) h

delete_key-IsLine : (pre : ℕ) (t : Tty) → IsLine t → StepIsLine (delete_key pre t)
unfolding delete_key
delete_key-IsLine pre t h =
    elim (Bool-cases (ltb 0 pre && ltb t.cursor_position (length t.buffer))) [
      | inl e ↦ rw e (
          show_rest-IsLine (record t { buffer = remove_rune t.buffer t.cursor_position })
            (record {
              ascii =
                  IsAscii-append (take t.cursor_position t.buffer)
                    (drop (t.cursor_position + 1) t.buffer)
                    (IsAscii-take t.cursor_position t.buffer h.ascii)
                    (IsAscii-drop (t.cursor_position + 1) t.buffer h.ascii);
              cursor = ground (arith, length-remove_rune t.buffer t.cursor_position);
            }))
      | inr e ↦ rw e h
    ]

right_key-IsLine : (t : Tty) → IsLine t → StepIsLine (right_key t)
unfolding right_key
right_key-IsLine t h =
    elim (Bool-cases (t.passwd_mode || (t.cursor_position == byte_len t.buffer))) [
      | inl e ↦ rw e h
      | inr e ↦ rw e (record {
        ascii = h.ascii;
        cursor = ground (arith, h.cursor, byte_len_ascii t.buffer h.ascii);
      })
    ]

left_key-IsLine : (t : Tty) → IsLine t → StepIsLine (left_key t)
unfolding left_key
left_key-IsLine t h = elim (Bool-cases (t.passwd_mode || (t.cursor_position == 0))) [
  | inl e ↦ rw e h
  | inr e ↦ rw e (record { ascii = h.ascii; cursor = omega (arith, h.cursor) })
]

insert_key-IsLine : (key : Text) (t : Tty) → IsAscii key → IsLine t → StepIsLine (insert_key key t)
unfolding insert_key
insert_key-IsLine key t ascii h =
    let inside : ltb (length t.buffer) t.cursor_position ≡ false = ground (arith, h.cursor) in
    rw inside (
      show_rest-IsLine
        (record t {
          buffer = insert_runes t.buffer t.cursor_position (expand key);
          cursor_position = t.cursor_position + length (expand key);
        })
        (record {
          ascii =
              IsAscii-append (take t.cursor_position t.buffer)
                (expand key ++ drop t.cursor_position t.buffer)
                (IsAscii-take t.cursor_position t.buffer h.ascii)
                (IsAscii-append (expand key) (drop t.cursor_position t.buffer)
                  (IsAscii-expand key ascii) (IsAscii-drop t.cursor_position t.buffer h.ascii));
          cursor = omega (
            arith,
            h.cursor,
            length-insert_runes t.buffer (expand key) t.cursor_position h.cursor,
          );
        }))

StepIsLine-if :
    (b : Bool) (x y : Step) → StepIsLine x → StepIsLine y → StepIsLine (if b then x else y)
StepIsLine-if true x y h k = h
StepIsLine-if false x y h k = k

edit_key-IsLine :
    (key : Text) (pre : ℕ) (t : Tty) → IsAscii key → IsLine t → StepIsLine (edit_key key pre t)
unfolding edit_key
edit_key-IsLine key pre t ascii h =
    StepIsLine-if (eq_bytes key enter) _ _ (record { ascii = tt; cursor = omega arith })
      (StepIsLine-if (eq_bytes key delete) _ _ (delete_key-IsLine pre t h) (
        StepIsLine-if (eq_bytes key arrow_right) _ _ (right_key-IsLine t h) (
          StepIsLine-if (eq_bytes key arrow_left) _ _ (left_key-IsLine t h) (
            StepIsLine-if (eq_bytes key arrow_up || eq_bytes key arrow_down || is_ignored key)
              (goes_on t) (insert_key key t) h (insert_key-IsLine key t ascii h)))))

-- On a line of ASCII and a keystroke of ASCII, whatever the modes of the terminal, a round of
-- `Read` does not panic, and leaves the cursor inside a line of ASCII.
pub read_key-IsLine : (key : Text) (t : Tty) → IsAscii key → IsLine t → StepIsLine (read_key key t)
unfolding read_key
read_key-IsLine key t ascii h = StepIsLine-if (is_incomplete key) _ _ h (
    StepIsLine-if (not t.canonical) _ _ (echo_key-IsLine key t h)
      (edit_key-IsLine key t.cursor_position (echo_key key t) ascii (echo_key-IsLine key t h)))
