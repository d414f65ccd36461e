-- ===== src/Paths/Normal.antt =====
-- The absolute paths that `path.Clean` gives, and that it leaves as they are.
use byte_space.Prelude.{
  ℕ, ◌≡◌, refl, ap, sym, ◌∙◌, arith, Bool, true, false, ◌&&◌, ◌||◌, not, ◌==◌, List, [], ◌∷◌, ◌++◌,
  eq_bytes, is_nil, split_on, add_head, append_assoc, append-nil, Bool-cases, inl, inr,
}
use byte_space.Paths.{
  slash, dot, dot_dot, is_rooted, join_parts, drop_last, back, clean_parts, clean,
}

abbrev no_slash : List ℕ → Bool
no_slash [] = true
no_slash (c ∷ letters) = not (c == slash) && no_slash letters

abbrev all_no_slash : List (List ℕ) → Bool
all_no_slash [] = true
all_no_slash (part ∷ parts) = no_slash part && all_no_slash parts

-- A name that an entry of a directory can have in a path.
abbrev pub is_name : List ℕ → Bool
is_name part =
    not (is_nil part) && not (eq_bytes part dot) && not (eq_bytes part dot_dot) && no_slash part

abbrev pub all_names : List (List ℕ) → Bool
all_names [] = true
all_names (part ∷ parts) = is_name part && all_names parts

-- A slash, and then names with slashes between them.
pub record IsNormal (p : List ℕ) : Type 0 where
  pub parts : List (List ℕ)
  pub names : all_names parts ≡ true
  pub joined : p ≡ slash ∷ join_parts parts

add_head-no_slash :
    (c : ℕ) (words : List (List ℕ))
    → (c == slash) ≡ false
    → all_no_slash words ≡ true
    → all_no_slash (add_head c words) ≡ true
add_head-no_slash c [] ne h = rw ne
add_head-no_slash c (word ∷ words) ne h = rw (ne, h)

split_on-no_slash : (p : List ℕ) → all_no_slash (split_on slash p) ≡ true
unfolding split_on
split_on-no_slash [] = refl
split_on-no_slash (c ∷ letters) = elim (Bool-cases (c == slash)) [
  | inl e ↦ rw (e, split_on-no_slash letters)
  | inr e ↦ rw e (add_head-no_slash c (split_on slash letters) e (split_on-no_slash letters))
]

all_names-append :
    (done : List (List ℕ)) (part : List ℕ)
    → all_names done ≡ true
    → is_name part ≡ true
    → all_names (done ++ part ∷ []) ≡ true
all_names-append [] part h named = rw named
all_names-append (first ∷ done) part h named = ground (arith, all_names-append done part)

all_names-drop_last :
    (done : List (List ℕ)) → all_names done ≡ true → all_names (drop_last done) ≡ true
all_names-drop_last [] h = refl
all_names-drop_last (part ∷ []) h = refl
all_names-drop_last (part ∷ next ∷ parts) h = ground (arith, all_names-drop_last (next ∷ parts))

all_names-back : (done : List (List ℕ)) → all_names done ≡ true → all_names (back true done) ≡ true
unfolding back
all_names-back done h = ground (arith, all_names-drop_last done)

clean_parts-all_names :
    (parts done : List (List ℕ))
    → all_no_slash parts ≡ true
    → all_names done ≡ true
    → all_names (clean_parts true done parts) ≡ true
unfolding clean_parts
clean_parts-all_names [] done h named = named
clean_parts-all_names (part ∷ parts) done h named =
    elim (Bool-cases (is_nil part || eq_bytes part dot)) [
      | inl e ↦ rw e (clean_parts-all_names parts done (ground arith) named)
      | inr skipped ↦ elim (Bool-cases (eq_bytes part dot_dot)) [
        | inl e ↦
            rw (skipped, e)
              (clean_parts-all_names parts (back true done) (ground arith)
                (all_names-back done named))
        | inr e ↦
            rw (skipped, e)
              (clean_parts-all_names parts (done ++ part ∷ []) (ground arith)
                (all_names-append done part named (ground arith)))
      ]
    ]

-- Names are kept as they are.
clean_parts_names :
    (rooted : Bool) (parts done : List (List ℕ))
    → all_names parts ≡ true
    → clean_parts rooted done parts ≡ done ++ parts
unfolding clean_parts
clean_parts_names rooted [] done h = sym (append-nil done)
clean_parts_names rooted (part ∷ parts) done h =
    let kept : (is_nil part || eq_bytes part dot) ≡ false = ground arith in
    let kept_too : eq_bytes part dot_dot ≡ false = ground arith in
    rw (kept, kept_too)
      (clean_parts_names rooted parts (done ++ part ∷ []) (ground arith)
        ∙ append_assoc done (part ∷ []) parts)

split_on-append :
    (part p : List ℕ)
    → no_slash part ≡ true
    → split_on slash (part ++ slash ∷ p) ≡ part ∷ split_on slash p
unfolding split_on
split_on-append [] p h = refl
split_on-append (c ∷ part) p h =
    let differs : (c == slash) ≡ false = ground arith in
    rw differs (ap (add_head c) (split_on-append part p (ground arith)))

split_on_one : (part : List ℕ) → no_slash part ≡ true → split_on slash part ≡ part ∷ []
unfolding split_on
split_on_one [] h = refl
split_on_one (c ∷ part) h =
    let differs : (c == slash) ≡ false = ground arith in
    rw differs (ap (add_head c) (split_on_one part (ground arith)))

split_on-join_parts :
    (part : List ℕ) (parts : List (List ℕ))
    → all_names (part ∷ parts) ≡ true
    → split_on slash (join_parts (part ∷ parts)) ≡ part ∷ parts
unfolding join_parts
split_on-join_parts part [] h = split_on_one part (ground arith)
split_on-join_parts part (next ∷ parts) h =
    split_on-append part (join_parts (next ∷ parts)) (ground arith)
    ∙ ap (λ ps. part ∷ ps) (split_on-join_parts next parts (ground arith))

-- The elements of a normal path.
pub clean_parts_normal :
    (parts : List (List ℕ))
    → all_names parts ≡ true
    → clean_parts true [] (split_on slash (slash ∷ join_parts parts)) ≡ parts
unfolding clean_parts split_on
clean_parts_normal [] h = unfold join_parts in refl
clean_parts_normal (part ∷ parts) h =
    ap (clean_parts true []) (split_on-join_parts part parts h)
    ∙ clean_parts_names true (part ∷ parts) [] h

pub clean-IsNormal : (p : List ℕ) → is_rooted p ≡ true → IsNormal (clean p)
unfolding clean
clean-IsNormal p rooted = record {
  parts = clean_parts true [] (split_on slash p);
  names = clean_parts-all_names (split_on slash p) [] (split_on-no_slash p) refl;
  joined = rw rooted;
}

pub clean_normal : (p : List ℕ) → IsNormal p → clean p ≡ p
unfolding clean
clean_normal p n =
    rw n.joined (ap (λ parts. slash ∷ join_parts parts) (clean_parts_normal n.parts n.names))
