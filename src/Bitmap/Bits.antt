-- ===== src/Bitmap/Bits.antt =====
-- The bits of bytes and words.
use native.Mathlib.Nat.{pow-suc, add_assoc}
use mathlib.Core.Path.{ap₂}
use byte_space.Prelude.{
  ℕ, zero, suc, ◌+◌, ◌-◌, ◌*◌, ◌/◌, ◌%◌, ◌^◌, ◌<◌, ◌≡◌, inl, inr, refl, ap, ◌∙◌, arith, Bool, true,
  ◌==◌, ==→eq, Bool-cases, if◌then◌else◌, bit_or, bit_and, all_below, all_below_sound,
}
use byte_space.Bytes.{Buffer, get_u64, IsBytes}
use byte_space.Bitmap.{test_bit, trailing_zeros}

-- A byte, a bit to change and a bit to look at, coded in one number below 16384.
abbrev or_entry : ℕ → Bool
or_entry c =
    test_bit (bit_or (c / 64) (2 ^ (c / 8 % 8))) (c % 8)
    == (if c % 8 == c / 8 % 8 then 1 else test_bit (c / 64) (c % 8))

abbrev and_entry : ℕ → Bool
and_entry c =
    test_bit (bit_and (c / 64) (255 - 2 ^ (c / 8 % 8))) (c % 8)
    == (if c % 8 == c / 8 % 8 then 0 else test_bit (c / 64) (c % 8))

or_table : all_below 16384 or_entry ≡ true
unfolding all_below test_bit
or_table = refl

and_table : all_below 16384 and_entry ≡ true
unfolding all_below test_bit
and_table = refl

entry_code :
    (b k j : ℕ)
    → k < 8
    → j < 8
    → ((b * 64 + k * 8 + j) / 64 ≡ b)
      × ((b * 64 + k * 8 + j) / 8 % 8 ≡ k)
      × ((b * 64 + k * 8 + j) % 8 ≡ j)
entry_code b k j hk hj = omega arith

-- `b | 1<<k` sets bit `k`, and leaves the others.
pub test_bit-bit_or :
    (b k j : ℕ)
    → b < 256
    → k < 8
    → j < 8
    → test_bit (bit_or b (2 ^ k)) j ≡ (if j == k then 1 else test_bit b j)
test_bit-bit_or b k j hb hk hj =
    let e = entry_code b k j hk hj in
    let h =
      ==→eq _ _ (all_below_sound 16384 or_entry (b * 64 + k * 8 + j) or_table (omega arith)) in
    rw (e.0, e.1, e.2) at h

-- `b &^ 1<<k` clears it.
pub test_bit-bit_and :
    (b k j : ℕ)
    → b < 256
    → k < 8
    → j < 8
    → test_bit (bit_and b (255 - 2 ^ k)) j ≡ (if j == k then 0 else test_bit b j)
test_bit-bit_and b k j hb hk hj =
    let e = entry_code b k j hk hj in
    let h =
      ==→eq _ _ (all_below_sound 16384 and_entry (b * 64 + k * 8 + j) and_table (omega arith)) in
    rw (e.0, e.1, e.2) at h

pub test_bit-lt : (k x : ℕ) → test_bit x k < 2
unfolding test_bit
test_bit-lt zero x = omega arith
test_bit-lt (suc k) x = test_bit-lt k (x / 2)

-- A search from the lowest bit finds the first 1.
pub record IsFirstOne (w x t : ℕ) : Type 0 where
  pub inside : t < w
  pub one : test_bit x t ≡ 1
  pub zeros : (k : ℕ) → k < t → test_bit x k ≡ 0

zeros_below :
    (x t : ℕ)
    → x % 2 ≡ 0
    → ((k : ℕ) → k < t → test_bit (x / 2) k ≡ 0)
    → (k : ℕ) → k < suc t
    → test_bit x k ≡ 0
unfolding test_bit
zeros_below x t even h zero below = even
zeros_below x t even h (suc k) below = h k (omega arith)

pub trailing_zeros-IsFirstOne : (w x : ℕ) → 0 < x → x < 2 ^ w → IsFirstOne w x (trailing_zeros w x)
unfolding trailing_zeros test_bit
trailing_zeros-IsFirstOne zero x h lt = absurd (omega arith)
trailing_zeros-IsFirstOne (suc w) x h lt = elim (Bool-cases (x % 2 == 1)) [
  | inl odd ↦ rw odd (record {
    inside = omega arith;
    one = ==→eq (x % 2) 1 odd;
    zeros = λ k below. absurd (omega arith);
  })
  | inr even ↦
      let rest = trailing_zeros-IsFirstOne w (x / 2) (ground arith) (ground (arith, pow-suc 2 w)) in
      rw even (record {
        inside = omega (arith, rest.inside);
        one = rest.one;
        zeros = zeros_below x (trailing_zeros w (x / 2)) (ground arith) rest.zeros;
      })
]

-- The complement of a number of `w` bits.
pub test_bit_complement :
    (w x k : ℕ) → x < 2 ^ w → k < w → test_bit (2 ^ w - 1 - x) k + test_bit x k ≡ 1
unfolding test_bit
test_bit_complement zero x k lt h = absurd (omega arith)
test_bit_complement (suc w) x zero lt h = ground (arith, pow-suc 2 w)
test_bit_complement (suc w) x (suc k) lt h =
    let e : (2 ^ suc w - 1 - x) / 2 ≡ 2 ^ w - 1 - x / 2 = ground (arith, pow-suc 2 w) in
    rw e (test_bit_complement w (x / 2) k (ground (arith, pow-suc 2 w)) (omega arith))

pub test_bit_zero : (k : ℕ) → test_bit 0 k ≡ 0
unfolding test_bit
test_bit_zero zero = refl
test_bit_zero (suc k) = test_bit_zero k

-- The low `m` bits of `b + 2^m * r` are those of `b`, and the others those of `r`.
pub test_bit_low : (m b r k : ℕ) → b < 2 ^ m → k < m → test_bit (b + 2 ^ m * r) k ≡ test_bit b k
unfolding test_bit
test_bit_low zero b r k lt h = absurd (omega arith)
test_bit_low (suc m) b r zero lt h = omega (arith, ap (λ (t : ℕ). t * r) (pow-suc 2 m))
test_bit_low (suc m) b r (suc k) lt h =
    let e : (b + 2 ^ suc m * r) / 2 ≡ b / 2 + 2 ^ m * r =
      omega (arith, ap (λ (t : ℕ). t * r) (pow-suc 2 m)) in
    rw e (test_bit_low m (b / 2) r k (omega (arith, pow-suc 2 m)) (omega arith))

pub test_bit_high :
    (b r k : ℕ)
    → b < 256
    → test_bit (b + 256 * r) (suc (suc (suc (suc (suc (suc (suc (suc k)))))))) ≡ test_bit r k
unfolding test_bit
test_bit_high b r k lt = ap (λ t. test_bit t k) (omega arith)

-- The number that `n` bytes from `i` code, lowest byte first.
pub le_word : ℕ → Buffer → ℕ → ℕ
le_word zero bitmap i = 0
le_word (suc n) bitmap i = bitmap i + 256 * le_word n bitmap (i + 1)

pub get_u64-eq-le_word : (bitmap : Buffer) (i : ℕ) → get_u64 bitmap i ≡ le_word 8 bitmap i
unfolding le_word
get_u64-eq-le_word bitmap i = simp add_assoc (omega arith)

-- Bit `k` of the word is bit `k % 8` of byte `k / 8`.
pub test_bit-le_word :
    (n : ℕ) (bitmap : Buffer) (i k : ℕ)
    → IsBytes bitmap
    → k < 8 * n
    → test_bit (le_word n bitmap i) k ≡ test_bit (bitmap (i + k / 8)) (k % 8)
unfolding le_word
test_bit-le_word zero bitmap i k bytes h = absurd (omega arith)
test_bit-le_word (suc n) bitmap i (suc (suc (suc (suc (suc (suc (suc (suc k)))))))) bytes h =
    test_bit_high (bitmap i) (le_word n bitmap (i + 1)) k (bytes i)
    ∙ test_bit-le_word n bitmap (i + 1) k bytes (omega arith)
    ∙ ap₂ (λ a b. test_bit (bitmap a) b) (omega arith) (omega arith)
test_bit-le_word (suc n) bitmap i k bytes h =
    test_bit_low 8 (bitmap i) (le_word n bitmap (i + 1)) k (bytes i) (omega arith)
    ∙ ap₂ (λ a b. test_bit (bitmap a) b) (omega arith) (omega arith)
