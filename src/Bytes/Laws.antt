-- ===== src/Bytes/Laws.antt =====
-- Reads after writes of the little-endian codes, and the round trip of a string.
use mathlib.Core.Path.{ap₂}
use byte_space.Prelude.{
  ltb, ltb→lt, Bool-cases, ℕ, zero, suc, ◌+◌, ◌^◌, ◌<◌, ◌≤◌, ◌≡◌, refl, ap, arith, fun_ext, ◌∙◌,
  ◌⊎◌, inl, inr, List, [], ◌∷◌, length,
}
use byte_space.Bytes.{Buffer, put_u32, get_u32, slice, of_list, to_list, IsBytes}

pub get_u32-put_u32_self :
    (buf : Buffer) (off v : ℕ) → v < 2 ^ 32 → get_u32 (put_u32 buf off v) off ≡ v
get_u32-put_u32_self buf off v h = ground arith

pub get_u32-put_u32_ne :
    (buf : Buffer) (off v at : ℕ)
    → (at + 4 ≤ off) ⊎ (off + 4 ≤ at)
    → get_u32 (put_u32 buf off v) at ≡ get_u32 buf at
get_u32-put_u32_ne buf off v at (inl h) = ground arith
get_u32-put_u32_ne buf off v at (inr h) = ground arith

-- A code depends on its four bytes only.
pub get_u32_ext :
    (a b : Buffer) (i j : ℕ)
    → a i ≡ b j
    → a (i + 1) ≡ b (j + 1)
    → a (i + 2) ≡ b (j + 2)
    → a (i + 3) ≡ b (j + 3)
    → get_u32 a i ≡ get_u32 b j
get_u32_ext a b i j p q r s = omega arith

pub get_u32-lt : (buf : Buffer) (at : ℕ) → IsBytes buf → get_u32 buf at < 2 ^ 32
get_u32-lt buf at h = omega (arith, h at, h (at + 1), h (at + 2), h (at + 3))

pub put_u32-IsBytes : (buf : Buffer) (off v : ℕ) → IsBytes buf → IsBytes (put_u32 buf off v)
put_u32-IsBytes buf off v h i = ground (arith, h i)

pub slice-slice : (buf : Buffer) (n : ℕ) → slice (slice buf 0 n) 0 n ≡ slice buf 0 n
slice-slice buf n = fun_ext λ i. ground arith

pub slice_ext :
    (a b : Buffer) (i j n : ℕ)
    → ((m : ℕ) → m < n → a (i + m) ≡ b (j + m))
    → slice a i n ≡ slice b j n
slice_ext a b i j n h = fun_ext λ m. elim (Bool-cases (ltb m n)) [
  | inl below ↦ rw below (h m (ltb→lt m n below))
  | inr above ↦ rw above
]

-- A buffer that holds a string's bytes at `off` reads as that string.
pub to_list-eq :
    (xs : List ℕ) (buf : Buffer) (off : ℕ)
    → ((i : ℕ) → i < length xs → buf (off + i) ≡ of_list xs i)
    → to_list buf off (length xs) ≡ xs
unfolding to_list of_list
to_list-eq [] buf off h = refl
to_list-eq (x ∷ xs) buf off h =
    ap₂ ◌∷◌ (ap buf (omega arith) ∙ h 0 (omega arith))
      (to_list-eq xs buf (off + 1) (λ i lt. ap buf (omega arith) ∙ h (suc i) (omega arith)))

-- Two buffers with the same bytes in a range read as the same string there.
pub to_list_ext :
    (n : ℕ) (a b : Buffer) (i j : ℕ)
    → ((m : ℕ) → m < n → a (i + m) ≡ b (j + m))
    → to_list a i n ≡ to_list b j n
unfolding to_list
to_list_ext zero a b i j h = refl
to_list_ext (suc n) a b i j h =
    ap₂ ◌∷◌ (ap a (omega arith) ∙ h 0 (omega arith) ∙ ap b (omega arith)) (
      to_list_ext n a b (i + 1) (j + 1)
        λ m lt. ap a (omega arith) ∙ h (suc m) (omega arith) ∙ ap b (omega arith))

pub length-to_list : (n : ℕ) (buf : Buffer) (off : ℕ) → length (to_list buf off n) ≡ n
unfolding to_list
length-to_list zero buf off = refl
length-to_list (suc n) buf off = ap suc (length-to_list n buf (off + 1))
