-- ===== src/Bitmap/Search.antt =====
-- The search for a free bit: the jump over full words finds what a search bit by bit would find.
use mathlib.Core.Path.{ap₂}
use byte_space.Prelude.{
  subst, ℕ, zero, suc, ◌+◌, ◌-◌, ◌*◌, ◌/◌, ◌%◌, ◌^◌, ◌<◌, ◌≤◌, ◌≡◌, refl, ap, sym, ◌∙◌, arith, inl,
  inr, Bool-cases, ==→eq, Option, none, some, ◌==◌, ltb, ltb→lt,
}
use byte_space.Bytes.{Buffer, get_u64, IsBytes}
use byte_space.Bitmap.{
  test_bit, bit, trailing_zeros, find_word, find_byte, search_tail, find_free_bit,
}
use byte_space.Bitmap.Bits.{
  trailing_zeros-IsFirstOne, test_bit_complement, test_bit_zero, test_bit-le_word,
  get_u64-eq-le_word,
}

-- The outcome of a search of the bytes from `lo` up to `hi`: the lowest bit that is 0, or none
-- where all are 1.
abbrev pub Found : Buffer → ℕ → ℕ → Option ℕ → Type 0
Found bitmap lo hi none = (j : ℕ) → lo * 8 ≤ j → j < hi * 8 → bit bitmap j ≡ 1
Found bitmap lo hi (some idx) =
    (lo * 8 ≤ idx)
    × (idx < hi * 8)
    × (bit bitmap idx ≡ 0)
    × ((j : ℕ) → lo * 8 ≤ j → j < idx → bit bitmap j ≡ 1)

-- Two searches in a row.
Found-both :
    (bitmap : Buffer) (lo mid hi : ℕ) (o : Option ℕ)
    → lo ≤ mid
    → ((j : ℕ) → lo * 8 ≤ j → j < mid * 8 → bit bitmap j ≡ 1)
    → Found bitmap mid hi o
    → Found bitmap lo hi o
Found-both bitmap lo mid hi none le full h = λ j a b. elim (Bool-cases (ltb j (mid * 8))) [
  | inl below ↦ full j a (ltb→lt _ _ below)
  | inr above ↦ h j (ground arith) b
]
Found-both bitmap lo mid hi (some idx) le full h = (
  omega (arith, h.0),
  h.1,
  h.2,
  λ j a b. elim (Bool-cases (ltb j (mid * 8))) [
    | inl below ↦ full j a (ltb→lt _ _ below)
    | inr above ↦ h.3 j (ground arith) b
  ],
)

bit_at : (bitmap : Buffer) (i k : ℕ) → k < 8 → bit bitmap (i * 8 + k) ≡ test_bit (bitmap i) k
unfolding bit
bit_at bitmap i k h = ap₂ (λ a b. test_bit (bitmap a) b) (omega arith) (omega arith)

bit_word :
    (bitmap : Buffer) (i k : ℕ)
    → IsBytes bitmap
    → k < 64
    → bit bitmap (i * 8 + k) ≡ test_bit (get_u64 bitmap i) k
unfolding bit
bit_word bitmap i k bytes h =
    ap₂ (λ a b. test_bit (bitmap a) b) (omega arith) (omega arith)
    ∙ sym (test_bit-le_word 8 bitmap i k bytes (omega arith))
    ∙ ap (λ w. test_bit w k) (sym (get_u64-eq-le_word bitmap i))

-- A number of `w` bits that are not all 1 has its first 0 where its complement has its first 1.
first_zero :
    (w x : ℕ)
    → x < 2 ^ w - 1
    → (trailing_zeros w (2 ^ w - 1 - x) < w)
      × (test_bit x (trailing_zeros w (2 ^ w - 1 - x)) ≡ 0)
      × ((k : ℕ) → k < trailing_zeros w (2 ^ w - 1 - x) → test_bit x k ≡ 1)
first_zero w x h =
    let first = trailing_zeros-IsFirstOne w (2 ^ w - 1 - x) (omega arith) (omega arith) in
    let t : ℕ = trailing_zeros w (2 ^ w - 1 - x) in
    (
      first.inside,
      omega (arith, first.one, test_bit_complement w x t (omega arith) first.inside),
      λ k below. omega (
        arith,
        first.zeros k below,
        test_bit_complement w x k (omega arith) (omega (arith, first.inside)),
      ),
    )

all_ones : (w k : ℕ) → k < w → 0 < 2 ^ w → test_bit (2 ^ w - 1) k ≡ 1
all_ones w k h p =
    let e : 2 ^ w - 1 - (2 ^ w - 1) ≡ 0 = omega arith in
    omega (
      arith,
      test_bit_complement w (2 ^ w - 1) k (omega arith) h,
      ap (λ t. test_bit t k) e,
      test_bit_zero k,
    )

get_u64-lt : (bitmap : Buffer) (i : ℕ) → IsBytes bitmap → get_u64 bitmap i < 2 ^ 64
get_u64-lt bitmap i bytes = omega (
  arith,
  bytes i,
  bytes (i + 1),
  bytes (i + 2),
  bytes (i + 3),
  bytes (i + 4),
  bytes (i + 4 + 1),
  bytes (i + 4 + 2),
  bytes (i + 4 + 3),
)

-- A hit in a word or a byte of `w` bits that starts at bit `i * 8`.
Found-hit :
    (bitmap : Buffer) (w x i hi : ℕ)
    → ((k : ℕ) → k < w → bit bitmap (i * 8 + k) ≡ test_bit x k)
    → i * 8 + w ≤ hi * 8
    → x < 2 ^ w - 1
    → Found bitmap i hi (some (i * 8 + trailing_zeros w (2 ^ w - 1 - x)))
Found-hit bitmap w x i hi bits fits h =
    let first = first_zero w x h in
    (
      omega arith,
      omega (arith, first.0),
      bits (trailing_zeros w (2 ^ w - 1 - x)) first.0 ∙ first.1,
      λ j a b.
          ap (bit bitmap) (omega arith)
          ∙ bits (j - i * 8) (omega (arith, first.0))
          ∙ first.2 (j - i * 8) (omega arith),
    )

Full_word :
    (bitmap : Buffer) (w x i n : ℕ)
    → ((k : ℕ) → k < w → bit bitmap (i * 8 + k) ≡ test_bit x k)
    → w ≡ n * 8
    → 0 < 2 ^ w
    → x ≡ 2 ^ w - 1
    → (j : ℕ) → i * 8 ≤ j
    → j < (i + n) * 8
    → bit bitmap j ≡ 1
Full_word bitmap w x i n bits size pos_ h j a b =
    ap (bit bitmap) (omega arith)
    ∙ bits (j - i * 8) (omega arith)
    ∙ ap (λ t. test_bit t (j - i * 8)) h
    ∙ all_ones w (j - i * 8) (omega arith) pos_

find_word-Found :
    (rounds : ℕ) (bitmap : Buffer) (i : ℕ)
    → IsBytes bitmap
    → Found bitmap i (i + 8 * rounds) (find_word rounds bitmap i)
unfolding find_word
find_word-Found zero bitmap i bytes = λ j a b. absurd (omega arith)
find_word-Found (suc rounds) bitmap i bytes = elim (Bool-cases (get_u64 bitmap i == 2 ^ 64 - 1)) [
  | inl full ↦ rw full (
      Found-both bitmap i (i + 8) (i + 8 * suc rounds) (find_word rounds bitmap (i + 8))
        (omega arith)
        (Full_word bitmap 64 (get_u64 bitmap i) i 8 (λ k h. bit_word bitmap i k bytes h) refl
          (omega arith) (==→eq _ _ full))
        (subst (λ e. Found bitmap (i + 8) e (find_word rounds bitmap (i + 8))) (omega arith)
          (find_word-Found rounds bitmap (i + 8) bytes)))
  | inr room ↦ rw room (
      Found-hit bitmap 64 (get_u64 bitmap i) i (i + 8 * suc rounds)
        (λ k h. bit_word bitmap i k bytes h) (omega arith)
        (ground (arith, get_u64-lt bitmap i bytes)))
]

find_byte-Found :
    (rounds : ℕ) (bitmap : Buffer) (i : ℕ)
    → IsBytes bitmap
    → Found bitmap i (i + rounds) (find_byte rounds bitmap i)
unfolding find_byte
find_byte-Found zero bitmap i bytes = λ j a b. absurd (omega arith)
find_byte-Found (suc rounds) bitmap i bytes = elim (Bool-cases (bitmap i == 0xff)) [
  | inl full ↦ rw full (
      Found-both bitmap i (i + 1) (i + suc rounds) (find_byte rounds bitmap (i + 1)) (omega arith)
        (Full_word bitmap 8 (bitmap i) i 1 (λ k h. bit_at bitmap i k h) refl (omega arith)
          (==→eq _ _ full))
        (subst (λ e. Found bitmap (i + 1) e (find_byte rounds bitmap (i + 1))) (omega arith)
          (find_byte-Found rounds bitmap (i + 1) bytes)))
  | inr room ↦ rw room (
      Found-hit bitmap 8 (bitmap i) i (i + suc rounds) (λ k h. bit_at bitmap i k h) (omega arith)
        (ground (arith, bytes i)))
]

search_tail-Found :
    (bitmap : Buffer) (n : ℕ) (o : Option ℕ)
    → IsBytes bitmap
    → Found bitmap 0 (0 + 8 * (n / 8)) o
    → Found bitmap 0 n (search_tail bitmap n o)
search_tail-Found bitmap n none bytes h =
    Found-both bitmap 0 (n / 8 * 8) n (find_byte (n % 8) bitmap (n / 8 * 8)) (omega arith)
      (λ j a b. h j a (omega arith))
      (subst (λ e. Found bitmap (n / 8 * 8) e (find_byte (n % 8) bitmap (n / 8 * 8))) (omega arith)
        (find_byte-Found (n % 8) bitmap (n / 8 * 8) bytes))
search_tail-Found bitmap n (some idx) bytes h = (h.0, omega (arith, h.1), h.2, h.3)

-- `findFreeBit` on a bitmap of `n` bytes, all below 256, returns the lowest bit that is 0, below `8 * n`, and
-- fails only where all of them are 1.
pub find_free_bit-Found :
    (bitmap : Buffer) (n : ℕ) → IsBytes bitmap → Found bitmap 0 n (find_free_bit bitmap n)
unfolding find_free_bit
find_free_bit-Found bitmap n bytes =
    search_tail-Found bitmap n (find_word (n / 8) bitmap 0) bytes
      (find_word-Found (n / 8) bitmap 0 bytes)
