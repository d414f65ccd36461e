-- ===== src/Terminal/Tty/Gap.antt =====
-- The line editor of `Read` is an editor of two texts around a cursor.
use byte_space.Prelude.{
  ℕ, suc, ◌+◌, ◌≡◌, refl, ap, ◌∙◌, arith, Bool, true, false, ◌&&◌, ◌||◌, not, [], ◌∷◌, ◌++◌, length,
  if◌then◌else◌, eq_bytes, take, drop,
}
use byte_space.Terminal.{
  Text, enter, delete, arrow_up, arrow_down, arrow_right, arrow_left, is_ignored, is_incomplete,
  remove_rune, insert_runes, expand, redraw,
}
use byte_space.Terminal.Tty.{Tty, Step, goes_on, returns, show_rest}

-- The text before the cursor, last first, and the text after it.
pub record Gap : Type 0 where
  pub before : Text
  pub after : Text

unfoldable pub onto : Text → Text → Text
onto [] r = r
onto (c ∷ l) r = onto l (c ∷ r)

pub data GapStep : Type 0 where
  moves : Gap → GapStep
  gives : Text → GapStep

abbrev pub gap_delete : Text → Text → Gap
gap_delete [] r = record { before = []; after = r }
gap_delete (c ∷ l) r = record { before = l; after = r }

abbrev pub gap_left : Text → Text → Gap
gap_left [] r = record { before = []; after = r }
gap_left (c ∷ l) r = record { before = l; after = c ∷ r }

abbrev pub gap_right : Text → Text → Gap
gap_right l [] = record { before = l; after = [] }
gap_right l (c ∷ r) = record { before = c ∷ l; after = r }

abbrev pub gap_insert : Text → Text → Text → Gap
gap_insert [] l r = record { before = l; after = r }
gap_insert (c ∷ s) l r = gap_insert s (c ∷ l) r

-- What a key does to the two texts; a password hides the moves of the cursor.
unfoldable pub gap_edit : Bool → Text → Gap → GapStep
unfolding onto
gap_edit passwd key g =
    if eq_bytes key enter
    then gives (onto g.before g.after)
    else if eq_bytes key delete
    then moves (gap_delete g.before g.after)
    else if eq_bytes key arrow_right
    then (if passwd then moves g else moves (gap_right g.before g.after))
    else if eq_bytes key arrow_left
    then (if passwd then moves g else moves (gap_left g.before g.after))
    else if eq_bytes key arrow_up || eq_bytes key arrow_down || is_ignored key
    then moves g
    else moves (gap_insert (expand key) g.before g.after)

unfoldable pub gap_key : Bool → Text → Gap → GapStep
unfolding gap_edit
gap_key passwd key g = if is_incomplete key then moves g else gap_edit passwd key g

-- The terminal edits a line, and the two texts are what it has on both sides of its cursor.
pub record Shows (passwd : Bool) (l r : Text) (t : Tty) : Type 0 where
  pub canonical : t.canonical ≡ true
  pub echo : t.echo ≡ true
  pub passwd_mode : t.passwd_mode ≡ passwd
  pub buffer : t.buffer ≡ onto l r
  pub cursor : t.cursor_position ≡ length l

abbrev pub StepShows : Bool → GapStep → Step → Type 0
StepShows passwd (moves g) (goes_on t) = Shows passwd g.before g.after t
StepShows passwd (gives s) (returns text t) = (text ≡ s) × Shows passwd [] [] t
StepShows passwd _ _ = ⊥

pub length-onto : (l r : Text) → length (onto l r) ≡ length l + length r
unfolding onto
length-onto [] r = omega arith
length-onto (c ∷ l) r = omega (arith, length-onto l (c ∷ r))

take-onto : (l r : Text) (m n : ℕ) → m ≡ length l + n → take m (onto l r) ≡ onto l (take n r)
unfolding onto
take-onto [] r m n e = ap (λ k. take k r) (omega (arith, e))
take-onto (c ∷ l) r m n e = take-onto l (c ∷ r) m (suc n) (omega (arith, e))

drop-onto : (l r : Text) (m n : ℕ) → m ≡ length l + n → drop m (onto l r) ≡ drop n r
unfolding onto
drop-onto [] r m n e = ap (λ k. drop k r) (omega (arith, e))
drop-onto (c ∷ l) r m n e = drop-onto l (c ∷ r) m (suc n) (omega (arith, e))

onto-append : (l r s : Text) → onto l r ++ s ≡ onto l (r ++ s)
unfolding onto
onto-append [] r s = refl
onto-append (c ∷ l) r s = onto-append l (c ∷ r) s

pub insert-onto : (l r s : Text) → insert_runes (onto l r) (length l) s ≡ onto l (s ++ r)
insert-onto l r s =
    let back = drop (length l) (onto l r) in
    ap (λ x. x ++ (s ++ back)) (take-onto l r (length l) 0 (omega arith))
    ∙ onto-append l [] (s ++ back)
    ∙ ap (λ x. onto l (s ++ x)) (drop-onto l r (length l) 0 (omega arith))

pub remove-onto : (c : ℕ) (l r : Text) → remove_rune (onto l (c ∷ r)) (length l) ≡ onto l r
remove-onto c l r =
    let back = drop (length l + 1) (onto l (c ∷ r)) in
    ap (λ x. x ++ back) (take-onto l (c ∷ r) (length l) 0 (omega arith))
    ∙ onto-append l [] back
    ∙ ap (onto l) (drop-onto l (c ∷ r) (length l + 1) 1 (omega arith))

pub onto-gap_insert :
    (s l r : Text) → onto (gap_insert s l r).before (gap_insert s l r).after ≡ onto l (s ++ r)
unfolding onto
onto-gap_insert [] l r = refl
onto-gap_insert (c ∷ s) l r = onto-gap_insert s (c ∷ l) r

pub length-gap_insert : (s l r : Text) → length (gap_insert s l r).before ≡ length l + length s
length-gap_insert [] l r = omega arith
length-gap_insert (c ∷ s) l r = omega (arith, length-gap_insert s (c ∷ l) r)

pub Shows-if :
    (b p : Bool) (l r : Text) (x y : Tty)
    → Shows p l r x
    → Shows p l r y
    → Shows p l r (if b then x else y)
Shows-if true p l r x y h k = h
Shows-if false p l r x y h k = k

pub show_rest-Shows : (p : Bool) (l r : Text) (t : Tty) → Shows p l r t → Shows p l r (show_rest t)
show_rest-Shows p l r t h =
    Shows-if (t.echo && not t.passwd_mode) p l r
      (record t { out = t.out ++ redraw t.buffer t.cursor_position }) t
      (record {
        canonical = h.canonical;
        echo = h.echo;
        passwd_mode = h.passwd_mode;
        buffer = h.buffer;
        cursor = h.cursor;
      })
      h

pub StepShows-if :
    (b p : Bool) (g k : GapStep) (x y : Step)
    → (b ≡ true → StepShows p g x)
    → (b ≡ false → StepShows p k y)
    → StepShows p (if b then g else k) (if b then x else y)
StepShows-if true p g k x y h i = h refl
StepShows-if false p g k x y h i = i refl

pub StepShows-then :
    (b p : Bool) (g : GapStep) (x y : Step)
    → b ≡ true
    → StepShows p g x
    → StepShows p g (if b then x else y)
StepShows-then true p g x y e h = h
StepShows-then false p g x y e h = ground (arith, e)

pub StepShows-else :
    (b p : Bool) (g : GapStep) (x y : Step)
    → b ≡ false
    → StepShows p g y
    → StepShows p g (if b then x else y)
StepShows-else true p g x y e h = ground (arith, e)
StepShows-else false p g x y e h = h

pub Shows-then :
    (b p : Bool) (l r : Text) (x y : Tty)
    → b ≡ true
    → Shows p l r x
    → Shows p l r (if b then x else y)
Shows-then true p l r x y e h = h
Shows-then false p l r x y e h = ground (arith, e)
