-- ===== src/Terminal/Shell/History.antt =====
-- The arrows walk up and down the history of the shell, and come back to the line being typed.
use byte_space.Prelude.{
  ℕ, zero, suc, ◌+◌, ◌-◌, ◌<◌, ◌≡◌, refl, ap, sym, ◌∙◌, subst, arith, Bool, true, false, List, [],
  ◌∷◌, ◌++◌, length, ltb, ◌==◌, if◌then◌else◌, none, some, get_elem?, set, length-append,
  has_prefix, eq_bytes,
}
use byte_space.Terminal.{Text, byte_len, arrow_up, arrow_down}
use byte_space.Terminal.Shell.{
  Shell, write, ansi_data, after_echo, Outcome, stay, recall, before, go_back, up_from, up_key,
  go_forward, down_from, down_key, edit_key, canonical_logic,
}

-- A line of the history is shown, unchanged.
pub record Browses (history : List Text) (p : ℕ) (s : Shell) : Type 0 where
  pub history_kept : s.history ≡ history
  pub place : s.pos_in_history ≡ some p
  pub shown : get_elem? history p ≡ some s.buffer

-- The line that is being typed is shown.
pub record Types (history : List Text) (line : Text) (s : Shell) : Type 0 where
  pub history_kept : s.history ≡ history
  pub place : s.pos_in_history ≡ none
  pub shown : s.buffer ≡ line
  pub at_end : s.cursor_position ≡ byte_len line

abbrev pub Goes : (Shell → Type 0) → Outcome → Type 0
Goes P none = ⊥
Goes P (some (line, s)) = (line ≡ []) × P s

set_self : (h : List Text) (p : ℕ) (line : Text) → get_elem? h p ≡ some line → set h p line ≡ h
set_self [] p line e = refl
set_self (l ∷ ls) zero line e = ap (λ t. t ∷ ls) (cc e)
set_self (l ∷ ls) (suc p) line e = ap (λ t. l ∷ t) (set_self ls p line e)

pub get_elem?-inside :
    (h : List Text) (p : ℕ) → p < length h → (line : Text) × (get_elem? h p ≡ some line)
get_elem?-inside [] p k = absurd (omega (arith, k))
get_elem?-inside (l ∷ ls) zero k = (l, refl)
get_elem?-inside (l ∷ ls) (suc p) k = get_elem?-inside ls p (omega (arith, k))

pub get_elem?-append :
    (h : List Text) (line : Text) → get_elem? (h ++ line ∷ []) (length h) ≡ some line
get_elem?-append [] line = refl
get_elem?-append (l ∷ ls) line = get_elem?-append ls line

recall-Browses :
    (history : List Text) (p : ℕ) (s : Shell)
    → s.history ≡ history
    → p < length history
    → Goes (Browses history p) (recall (get_elem? s.history p) (some p) s)
recall-Browses history p s e k =
    let found = get_elem?-inside history p k in
    subst (λ o. Goes (Browses history p) (recall o (some p) s))
      (sym (ap (λ h. get_elem? h p) e ∙ found.1))
      (refl, record { history_kept = e; place = refl; shown = found.1 })

pub Goes-else :
    (P : Shell → Type 0) (b : Bool) (x y : Outcome)
    → b ≡ false
    → Goes P y
    → Goes P (if b then x else y)
Goes-else P true x y e h = ground (arith, e)
Goes-else P false x y e h = h

pub Goes-then :
    (P : Shell → Type 0) (b : Bool) (x y : Outcome)
    → b ≡ true
    → Goes P x
    → Goes P (if b then x else y)
Goes-then P true x y e h = h
Goes-then P false x y e h = ground (arith, e)

-- An arrow is echoed as nothing.
arrow_up-lem : (s : Shell) → canonical_logic arrow_up s ≡ up_key (write [] s)
unfolding canonical_logic edit_key after_echo ansi_data write has_prefix eq_bytes
arrow_up-lem s = refl

arrow_down-lem : (s : Shell) → canonical_logic arrow_down s ≡ down_key (write [] s)
unfolding canonical_logic edit_key after_echo ansi_data write has_prefix eq_bytes
arrow_down-lem s = refl

before-pos : (n : ℕ) → 0 < n → before n ≡ some (n - 1)
before-pos zero h = absurd (omega (arith, h))
before-pos (suc n) h = ap some (omega arith)

-- The first key up puts the line that is typed at the end of the history, and shows the one before.
pub first_up-Browses :
    (s : Shell)
    → s.pos_in_history ≡ none
    → 0 < length s.history
    → Goes
        (Browses (s.history ++ s.buffer ∷ []) (length s.history - 1))
        (canonical_logic arrow_up s)
unfolding up_key write
first_up-Browses s e k =
    let longer = s.history ++ s.buffer ∷ [] in
    let length_longer = length-append s.history (s.buffer ∷ []) in
    let P = Browses longer (length s.history - 1) in
    subst (Goes P) (sym (arrow_up-lem s)) (
      Goes-else P (length s.history == 0) (stay (write [] s))
        (up_from s.pos_in_history (write [] s)) (ground (arith, k))
        (subst (λ o. Goes P (up_from o (write [] s))) (sym e)
          (subst (λ o. Goes P (go_back o (record (write [] s) { history = longer })))
            (sym (
              before-pos (length longer - 1) (omega (arith, k, length_longer))
              ∙ ap some (omega (arith, k, length_longer))))
            (recall-Browses longer (length s.history - 1) (record (write [] s) { history = longer })
              refl (omega (arith, k, length_longer))))))

module _ (history : List Text) where
  pub saved : (p : ℕ) (s : Shell) → Browses history p s → set s.history p s.buffer ≡ history
  saved p s h = ap (λ x. set x p s.buffer) h.history_kept ∙ set_self history p s.buffer h.shown

  pub up_from-Browses :
      (p : ℕ) (s : Shell)
      → Browses history p s
      → p < length history
      → Goes (Browses history (p - 1)) (canonical_logic arrow_up s)
  unfolding up_key write
  up_from-Browses p s h k =
      let P = Browses history (p - 1) in
      subst (Goes P) (sym (arrow_up-lem s)) (
        Goes-else P (length s.history == 0) (stay (write [] s))
          (up_from s.pos_in_history (write [] s)) (ground (arith, k, ap length h.history_kept))
          (subst (λ o. Goes P (up_from o (write [] s))) (sym h.place)
            (recall-Browses history (p - 1)
              (record (write [] s) { history = set s.history p s.buffer }) (saved p s h)
              (omega (arith, k)))))

  -- A key down shows the line that `go_forward` finds.
  pub down_from-Goes :
      (P : Shell → Type 0) (p : ℕ) (s : Shell)
      → Browses history p s
      → p < length history
      → Goes P (go_forward p (record (write [] s) { history = set s.history p s.buffer }))
      → Goes P (canonical_logic arrow_down s)
  unfolding down_key write
  down_from-Goes P p s h k goes = subst (Goes P) (sym (arrow_down-lem s)) (
      Goes-else P (length s.history == 0) (stay (write [] s))
        (down_from s.pos_in_history (write [] s)) (ground (arith, k, ap length h.history_kept))
        (subst (λ o. Goes P (down_from o (write [] s))) (sym h.place) goes))

  pub down_from-Browses :
      (p : ℕ) (s : Shell)
      → Browses history p s
      → p + 2 < length history
      → Goes (Browses history (p + 1)) (canonical_logic arrow_down s)
  unfolding write
  down_from-Browses p s h k =
      let same = saved p s h in
      let t = record (write [] s) { history = set s.history p s.buffer } in
      let q = if ltb (p + 1) (length t.history) then p + 1 else p in
      down_from-Goes (Browses history (p + 1)) p s h (omega (arith, k)) (
        Goes-else (Browses history (p + 1)) (p + 2 == length t.history)
          (recall (get_elem? t.history (length t.history - 1)) none t)
          (recall (get_elem? t.history q) (some q) t) (ground (arith, k, ap length same))
          (let next : q ≡ p + 1 = ground (arith, k, ap length same) in
            subst (λ n. Goes (Browses history (p + 1)) (recall (get_elem? t.history n) (some n) t))
              (sym next) (recall-Browses history (p + 1) t same (omega (arith, k)))))
