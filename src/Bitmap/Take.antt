-- ===== src/Bitmap/Take.antt =====
-- Taking a free bit, and the number of bits that are left.
use mathlib.Core.Path.{ap₂}
use mathlib.Core.Option
use byte_space.Prelude.{
  ℕ, zero, suc, ◌+◌, ◌-◌, ◌*◌, ◌<◌, ◌≡◌, refl, sym, subst, arith, Bool-cases, Option, none, some,
  ◌==◌, inl, inr,
}
use byte_space.Bytes.{Buffer, IsBytes}
use byte_space.Bitmap.{bit, set_bit, find_free_bit, take_bit, count_free}
use byte_space.Bitmap.Search.{find_free_bit-Found, Found}
use byte_space.Bitmap.Change.{IsChanged, set_bit-IsChanged, bit-lt}

pub count_free_same :
    (n : ℕ) (a b : Buffer) → ((j : ℕ) → j < n → bit a j ≡ bit b j) → count_free n a ≡ count_free n b
unfolding count_free
count_free_same zero a b h = refl
count_free_same (suc n) a b h =
    ap₂ (λ x y. x + (1 - y)) (count_free_same n a b (λ j lt. h j (omega arith))) (h n (omega arith))

-- A free bit that is taken is one less.
pub count_free-IsChanged :
    (n : ℕ) (a b : Buffer) (idx : ℕ)
    → IsChanged a idx 1 b
    → idx < n
    → bit a idx ≡ 0
    → suc (count_free n b) ≡ count_free n a
unfolding count_free
count_free-IsChanged zero a b idx c h free = absurd (omega arith)
count_free-IsChanged (suc n) a b idx c h free = elim (Bool-cases (idx == n)) [
  | inl last ↦
      ground (arith, c.bits n, bit-lt a n, count_free_same n a b (λ j lt. ground (arith, c.bits j)))
  | inr below ↦ ground (arith, c.bits n, count_free-IsChanged n a b idx c (ground arith) free)
]

pub count_free_full : (n : ℕ) (a : Buffer) → ((j : ℕ) → j < n → bit a j ≡ 1) → count_free n a ≡ 0
unfolding count_free
count_free_full zero a h = refl
count_free_full (suc n) a h =
    omega (arith, count_free_full n a (λ j lt. h j (omega arith)), h n (omega arith))

-- What a successful `take_bit` gives: the lowest free bit, which alone is set.
pub record Taken (len : ℕ) (bitmap : Buffer) (idx : ℕ) (bitmap' : Buffer) : Type 0 where
  pub inside : idx < 8 * len
  pub free : bit bitmap idx ≡ 0
  pub lowest : (j : ℕ) → j < idx → bit bitmap j ≡ 1
  pub changed : IsChanged bitmap idx 1 bitmap'

-- It fails only where no bit is free.
abbrev pub TakeResult : ℕ → Buffer → Option (ℕ × Buffer) → Type 0
TakeResult len bitmap none = count_free (8 * len) bitmap ≡ 0
TakeResult len bitmap (some (idx, bitmap')) = Taken len bitmap idx bitmap'

take-Found :
    (len : ℕ) (bitmap : Buffer) (o : Option ℕ)
    → IsBytes bitmap
    → Found bitmap 0 len o
    → TakeResult len bitmap
        (Option.bind o λ idx. Option.map (λ bitmap'. (idx, bitmap')) (set_bit len bitmap idx))
unfolding Option.bind
take-Found len bitmap none bytes h =
    count_free_full (8 * len) bitmap (λ j lt. h j (omega arith) (omega arith))
take-Found len bitmap (some idx) bytes h =
    let (bitmap', e, changed) = set_bit-IsChanged len bitmap idx bytes (omega (arith, h.1)) in
    subst (λ o. TakeResult len bitmap (Option.map (λ b. (idx, b)) o)) (sym e)
      (record {
        inside = omega (arith, h.1);
        free = h.2;
        lowest = λ j lt. h.3 j (omega arith) lt;
        changed = changed;
      })

-- In a bitmap of bytes, taking a bit, `findFreeBit` and then `setBit`, takes the lowest one that is 0 and sets it alone; it
-- fails only where no bit of the bitmap is 0.
pub take_bit-TakeResult :
    (len : ℕ) (bitmap : Buffer) → IsBytes bitmap → TakeResult len bitmap (take_bit len bitmap)
unfolding take_bit
take_bit-TakeResult len bitmap bytes =
    take-Found len bitmap (find_free_bit bitmap len) bytes (find_free_bit-Found bitmap len bytes)
