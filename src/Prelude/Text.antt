-- ===== src/Prelude/Text.antt =====
-- Go strings as lists of bytes. Literals are ASCII, so their code points are their bytes.
use Prim.Native.Nat.{ℕ}
use Prim.Native.Char.{code}
use Prim.Native.String.{String}
use mathlib.Core.Path.{◌≡◌, refl}
use mathlib.Core.Bool.{Bool, true, false, ◌&&◌}
use mathlib.Core.List.{List, [], ◌∷◌}
use native.Mathlib.Omega.{arith}
use byte_space.Prelude.Tests.{◌==◌, if◌then◌else◌}

abbrev pub codes : String → List ℕ
codes String.[] = []
codes (String.◌∷◌ letter letters) = code letter ∷ codes letters

-- `s == t`
unfoldable pub eq_bytes : List ℕ → List ℕ → Bool
eq_bytes [] [] = true
eq_bytes (x ∷ xs) (y ∷ ys) = x == y && eq_bytes xs ys
eq_bytes _ _ = false

pub eq_bytes→eq : (xs ys : List ℕ) → eq_bytes xs ys ≡ true → xs ≡ ys
unfolding eq_bytes
eq_bytes→eq [] [] h = refl
eq_bytes→eq [] (y ∷ ys) h = ground arith
eq_bytes→eq (x ∷ xs) [] h = ground arith
eq_bytes→eq (x ∷ xs) (y ∷ ys) h = ground (arith, eq_bytes→eq xs ys)

pub eq_bytes_refl : (xs : List ℕ) → eq_bytes xs xs ≡ true
unfolding eq_bytes
eq_bytes_refl [] = refl
eq_bytes_refl (x ∷ xs) = ground (arith, eq_bytes_refl xs)

-- `strings.HasPrefix(s, p)`
unfoldable pub has_prefix : List ℕ → List ℕ → Bool
has_prefix xs [] = true
has_prefix [] (y ∷ ys) = false
has_prefix (x ∷ xs) (y ∷ ys) = x == y && has_prefix xs ys

abbrev pub is_nil {ℓ} : {A : Type ℓ} → List A → Bool
is_nil [] = true
is_nil (x ∷ xs) = false

abbrev pub add_head : ℕ → List (List ℕ) → List (List ℕ)
add_head c [] = (c ∷ []) ∷ []
add_head c (word ∷ words) = (c ∷ word) ∷ words

-- `strings.Split(s, sep)` for a separator of one byte.
unfoldable pub split_on : ℕ → List ℕ → List (List ℕ)
split_on sep [] = [] ∷ []
split_on sep (c ∷ letters) =
    let words = split_on sep letters in if c == sep then [] ∷ words else add_head c words
