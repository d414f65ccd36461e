-- ===== src/Commands/Bits.antt =====
-- programs/cmds/cmds.go: the permissions that `chmod` reads, as bits.
use byte_space.Prelude.{
  ℕ, ◌+◌, ◌≡◌, refl, ap, sym, ◌∙◌, Bool, true, false, ◌&&◌, ◌||◌, ◌==◌, ==→eq, if◌then◌else◌,
  Option, none, some, List, [], ◌∷◌, Bool-cases, inl, inr, bit_or, subst,
}
use byte_space.Commands.{permission_bit, or_bit, bits_from}

abbrev pub has : ℕ → List ℕ → Bool
has c [] = false
has c (d ∷ letters) = (d == c) || has c letters

abbrev pub is_permission : ℕ → Bool
is_permission c = (c == 114) || (c == 119) || (c == 120)

abbrev pub all_permissions : List ℕ → Bool
all_permissions [] = true
all_permissions (c ∷ perms) = is_permission c && all_permissions perms

abbrev pub flags : Bool → Bool → Bool → ℕ
flags r w x = (if r then 4 else 0) + ((if w then 2 else 0) + (if x then 1 else 0))

-- The bits of permissions, in any order and any number.
abbrev pub bits_of : List ℕ → ℕ
bits_of perms = flags (has 114 perms) (has 119 perms) (has 120 perms)

or_r : (r w x : Bool) → bit_or (flags r w x) 4 ≡ flags true w x
or_r true true true = refl
or_r true true false = refl
or_r true false true = refl
or_r true false false = refl
or_r false true true = refl
or_r false true false = refl
or_r false false true = refl
or_r false false false = refl

or_w : (r w x : Bool) → bit_or (flags r w x) 2 ≡ flags r true x
or_w true true true = refl
or_w true true false = refl
or_w true false true = refl
or_w true false false = refl
or_w false true true = refl
or_w false true false = refl
or_w false false true = refl
or_w false false false = refl

or_x : (r w x : Bool) → bit_or (flags r w x) 1 ≡ flags r w true
or_x true true true = refl
or_x true true false = refl
or_x true false true = refl
or_x true false false = refl
or_x false true true = refl
or_x false true false = refl
or_x false false true = refl
or_x false false false = refl

-- The flags that the permissions add to those so far.
abbrev pub with_flags : List ℕ → Bool → Bool → Bool → Option ℕ
with_flags perms r w x =
    if all_permissions perms
    then some (flags (r || has 114 perms) (w || has 119 perms) (x || has 120 perms))
    else none

add_r : (perms : List ℕ) (r w x : Bool) → with_flags (114 ∷ perms) r w x ≡ with_flags perms true w x
add_r perms true w x = refl
add_r perms false w x = refl

add_w : (perms : List ℕ) (r w x : Bool) → with_flags (119 ∷ perms) r w x ≡ with_flags perms r true x
add_w perms r true x = refl
add_w perms r false x = refl

add_x : (perms : List ℕ) (r w x : Bool) → with_flags (120 ∷ perms) r w x ≡ with_flags perms r w true
add_x perms r w true = refl
add_x perms r w false = refl

module _ (c : ℕ) (no_r : (c == 114) ≡ false) (no_w : (c == 119) ≡ false)
    (no_x : (c == 120) ≡ false) where
  unknown_bit : permission_bit c ≡ none
  unknown_bit = rw (no_r, no_w, no_x)

  unknown : is_permission c ≡ false
  unknown = rw (no_r, no_w, no_x)

pub bits_from-flags :
    (perms : List ℕ) (r w x : Bool) → bits_from (some (flags r w x)) perms ≡ with_flags perms r w x
unfolding bits_from
bits_from-flags [] true true true = refl
bits_from-flags [] true true false = refl
bits_from-flags [] true false true = refl
bits_from-flags [] true false false = refl
bits_from-flags [] false true true = refl
bits_from-flags [] false true false = refl
bits_from-flags [] false false true = refl
bits_from-flags [] false false false = refl
bits_from-flags (c ∷ perms) r w x = elim (Bool-cases (c == 114)) [
  | inl e ↦
      subst (λ c. bits_from (some (flags r w x)) (c ∷ perms) ≡ with_flags (c ∷ perms) r w x)
        (sym (==→eq c 114 e))
        (ap (λ b. bits_from (some b) perms) (or_r r w x)
          ∙ bits_from-flags perms true w x
          ∙ sym (add_r perms r w x))
  | inr no_r ↦ elim (Bool-cases (c == 119)) [
    | inl e ↦
        subst (λ c. bits_from (some (flags r w x)) (c ∷ perms) ≡ with_flags (c ∷ perms) r w x)
          (sym (==→eq c 119 e))
          (ap (λ b. bits_from (some b) perms) (or_w r w x)
            ∙ bits_from-flags perms r true x
            ∙ sym (add_w perms r w x))
    | inr no_w ↦ elim (Bool-cases (c == 120)) [
      | inl e ↦
          subst (λ c. bits_from (some (flags r w x)) (c ∷ perms) ≡ with_flags (c ∷ perms) r w x)
            (sym (==→eq c 120 e))
            (ap (λ b. bits_from (some b) perms) (or_x r w x)
              ∙ bits_from-flags perms r w true
              ∙ sym (add_x perms r w x))
      | inr no_x ↦
          ap (λ p. bits_from (or_bit (flags r w x) p) perms) (unknown_bit c no_r no_w no_x)
          ∙ sym (rw (unknown c no_r no_w no_x))
    ]
  ]
]
