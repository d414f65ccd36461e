-- ===== src/Terminal/Shell/Walk.antt =====
-- As many keys down as up come back to the line that was being typed.
use byte_space.Prelude.{
  ℕ, zero, suc, ◌+◌, ◌-◌, ◌<◌, ◌≡◌, refl, ap, sym, ◌∙◌, subst, arith, List, [], ◌∷◌, ◌++◌, length,
  ltb, ◌==◌, if◌then◌else◌, Option, none, some, get_elem?, set, length-append,
}
use byte_space.Terminal.{Text, arrow_up, arrow_down}
use byte_space.Terminal.Shell.{Shell, write, Outcome, stay, recall, canonical_logic}
use byte_space.Terminal.Shell.History.{
  Browses, Types, Goes, Goes-then, first_up-Browses, get_elem?-append, saved, up_from-Browses,
  down_from-Goes, down_from-Browses,
}

recall-Types :
    (history : List Text) (line : Text) (found : Option Text) (s : Shell)
    → s.history ≡ history
    → found ≡ some line
    → Goes (Types history line) (recall found none s)
recall-Types history line found s e k =
    subst (λ o. Goes (Types history line) (recall o none s)) (sym k)
      (refl, record { history_kept = e; place = refl; shown = refl; at_end = refl })

-- The last key down shows the line at the end of the history, as the line that is typed.
last_down-Types :
    (older : List Text) (line : Text) (p : ℕ) (s : Shell)
    → Browses (older ++ line ∷ []) p s
    → p + 1 ≡ length older
    → Goes (Types (older ++ line ∷ []) line) (canonical_logic arrow_down s)
unfolding write
last_down-Types older line p s h k =
    let history = older ++ line ∷ [] in
    let P = Types history line in
    let length_history = length-append older (line ∷ []) in
    let same = saved history p s h in
    let t = record (write [] s) { history = set s.history p s.buffer } in
    let q = if ltb (p + 1) (length t.history) then p + 1 else p in
    down_from-Goes history P p s h (omega (arith, k, length_history)) (
      Goes-then P (p + 2 == length t.history)
        (recall (get_elem? t.history (length t.history - 1)) none t)
        (recall (get_elem? t.history q) (some q) t)
        (ground (arith, k, length_history, ap length same))
        (recall-Types history line (get_elem? t.history (length t.history - 1)) t same (
          ap (λ x. get_elem? x (length x - 1)) same
          ∙ ap (get_elem? history) (omega (arith, length_history))
          ∙ get_elem?-append older line)))

-- A key that is pressed `n` times, and what follows it.
unfoldable pub and_then : Outcome → (Shell → Outcome) → Outcome
and_then none f = none
and_then (some (line, s)) f = f s

unfoldable pub presses : ℕ → Text → Shell → Outcome
unfolding and_then
presses zero key s = stay s
presses (suc n) key s = and_then (canonical_logic key s) (presses n key)

Goes-and_then :
    (P Q : Shell → Type 0) (o : Outcome) (f : Shell → Outcome)
    → Goes P o
    → ((s : Shell) → P s → Goes Q (f s))
    → Goes Q (and_then o f)
unfolding and_then
Goes-and_then P Q none f h k = h
Goes-and_then P Q (some (line, s)) f h k = k s h.1

ups-Browses :
    (history : List Text) (n p : ℕ) (s : Shell)
    → Browses history p s
    → p < length history
    → Goes (Browses history (p - n)) (presses n arrow_up s)
unfolding presses
ups-Browses history zero p s h k = (refl, subst (λ q. Browses history q s) (omega arith) h)
ups-Browses history (suc n) p s h k =
    Goes-and_then (Browses history (p - 1)) (Browses history (p - suc n))
      (canonical_logic arrow_up s) (presses n arrow_up) (up_from-Browses history p s h k)
      (λ t i.
        subst (λ q. Goes (Browses history q) (presses n arrow_up t)) (omega arith)
          (ups-Browses history n (p - 1) t i (omega (arith, k))))

downs-Types :
    (older : List Text) (line : Text) (n p : ℕ) (s : Shell)
    → Browses (older ++ line ∷ []) p s
    → p + suc n ≡ length older
    → Goes (Types (older ++ line ∷ []) line) (presses (suc n) arrow_down s)
unfolding presses
downs-Types older line zero p s h k =
    Goes-and_then (Types (older ++ line ∷ []) line) (Types (older ++ line ∷ []) line)
      (canonical_logic arrow_down s) (presses 0 arrow_down)
      (last_down-Types older line p s h (omega (arith, k))) (λ t i. (refl, i))
downs-Types older line (suc n) p s h k =
    Goes-and_then (Browses (older ++ line ∷ []) (p + 1)) (Types (older ++ line ∷ []) line)
      (canonical_logic arrow_down s) (presses (suc n) arrow_down)
      (down_from-Browses (older ++ line ∷ []) p s h
        (omega (arith, k, length-append older (line ∷ []))))
      (λ t i. downs-Types older line n (p + 1) t i (omega (arith, k)))

-- While a line is typed, `n + 1` keys up show the line of the history at `length - 1 - n`, where
-- there are so many lines, and as many keys down show the typed line again, with the cursor at its
-- end. The line is left at the end of the history.
pub presses_up_down :
    (n : ℕ) (s : Shell)
    → s.pos_in_history ≡ none
    → n < length s.history
    → Goes
        (Browses (s.history ++ s.buffer ∷ []) (length s.history - 1 - n))
        (presses (suc n) arrow_up s)
      × Goes
          (Types (s.history ++ s.buffer ∷ []) s.buffer)
          (and_then (presses (suc n) arrow_up s) (presses (suc n) arrow_down))
unfolding presses
presses_up_down n s e k =
    let longer = s.history ++ s.buffer ∷ [] in
    let P = Browses longer (length s.history - 1 - n) in
    let ups : Goes P (presses (suc n) arrow_up s) =
      Goes-and_then (Browses longer (length s.history - 1)) P (canonical_logic arrow_up s)
        (presses n arrow_up) (first_up-Browses s e (omega (arith, k)))
        (λ t i.
          ups-Browses longer n (length s.history - 1) t i
            (omega (arith, k, length-append s.history (s.buffer ∷ [])))) in
    (
      ups,
      Goes-and_then P (Types longer s.buffer) (presses (suc n) arrow_up s)
          (presses (suc n) arrow_down) ups
          (λ t i.
            downs-Types s.history s.buffer n (length s.history - 1 - n) t i (omega (arith, k))),
    )
