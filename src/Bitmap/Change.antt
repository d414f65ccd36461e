-- ===== src/Bitmap/Change.antt =====
-- Setting and clearing one bit of a bitmap.
use byte_space.Prelude.{
  ℕ, ◌+◌, ◌-◌, ◌*◌, ◌/◌, ◌%◌, ◌^◌, ◌<◌, ◌≤◌, ◌≡◌, refl, arith, none, some, ◌==◌, ltb, if◌then◌else◌,
  bit_or, bit_and, Bool, all_below, all_below_sound, true, ◌&&◌, false,
}
use byte_space.Bytes.{Buffer, IsBytes}
use byte_space.Bitmap.{test_bit, bit, put_byte, set_bit, clear_bit}
use byte_space.Bitmap.Bits.{test_bit-bit_or, test_bit-bit_and, test_bit-lt}

-- Two bits of a bitmap are the same one where byte and place agree.
same_bit : (i j : ℕ) → (j == i) ≡ (if j / 8 == i / 8 then j % 8 == i % 8 else false)
same_bit i j = ground arith

bit-put_byte :
    (bitmap : Buffer) (i j v : ℕ)
    → bit (put_byte bitmap (i / 8) v) j
      ≡ (if j / 8 == i / 8 then test_bit v (j % 8) else bit bitmap j)
unfolding bit
bit-put_byte bitmap i j v = ground arith

module _ (bitmap : Buffer) (bytes : IsBytes bitmap) (len idx : ℕ) (inside : idx < 8 * len) where
  abbrev with_bit_set : Buffer
  with_bit_set = put_byte bitmap (idx / 8) (bit_or (bitmap (idx / 8)) (2 ^ (idx % 8)))

  pub set_bit_inside : set_bit len bitmap idx ≡ some with_bit_set
  unfolding set_bit
  set_bit_inside = ground arith

  pub bit-with_bit_set : (j : ℕ) → bit with_bit_set j ≡ (if j == idx then 1 else bit bitmap j)
  unfolding bit
  bit-with_bit_set j = ground (
    arith,
    test_bit-bit_or (bitmap (idx / 8)) (idx % 8) (j % 8) (bytes (idx / 8)) (omega arith)
        (omega arith),
  )

  abbrev with_bit_clear : Buffer
  with_bit_clear = put_byte bitmap (idx / 8) (bit_and (bitmap (idx / 8)) (255 - 2 ^ (idx % 8)))

  pub clear_bit_inside : clear_bit len bitmap idx ≡ some with_bit_clear
  unfolding clear_bit
  clear_bit_inside = ground arith

  pub bit-with_bit_clear : (j : ℕ) → bit with_bit_clear j ≡ (if j == idx then 0 else bit bitmap j)
  unfolding bit
  bit-with_bit_clear j = ground (
    arith,
    test_bit-bit_and (bitmap (idx / 8)) (idx % 8) (j % 8) (bytes (idx / 8)) (omega arith)
        (omega arith),
  )

abbrev small_entry : ℕ → Bool
small_entry c =
    ltb (bit_or (c / 8) (2 ^ (c % 8))) 256 && ltb (bit_and (c / 8) (255 - 2 ^ (c % 8))) 256

small_table : all_below 2048 small_entry ≡ true
unfolding all_below
small_table = refl

small : (b k : ℕ) → b < 256 → k < 8 → (bit_or b (2 ^ k) < 256) × (bit_and b (255 - 2 ^ k) < 256)
small b k hb hk =
    let h = all_below_sound 2048 small_entry (b * 8 + k) small_table (omega arith) in
    let e : (b * 8 + k) / 8 ≡ b = omega arith in
    let e' : (b * 8 + k) % 8 ≡ k = omega arith in
    let h' : small_entry (b * 8 + k) ≡ true = h in let g = rw (e, e') at h' in ground arith

pub bit-lt : (bitmap : Buffer) (j : ℕ) → bit bitmap j < 2
unfolding bit
bit-lt bitmap j = test_bit-lt (j % 8) (bitmap (j / 8))

-- Every byte of the new bitmap is a byte, and just one bit has the value `v`.
pub record IsChanged (bitmap : Buffer) (idx v : ℕ) (bitmap' : Buffer) : Type 0 where
  pub bytes : IsBytes bitmap'
  pub bits : (j : ℕ) → bit bitmap' j ≡ (if j == idx then v else bit bitmap j)

-- `setBit` on a bit that lies in a bitmap of bytes does not panic, and sets that bit alone.
pub set_bit-IsChanged :
    (len : ℕ) (bitmap : Buffer) (idx : ℕ)
    → IsBytes bitmap
    → idx < 8 * len
    → (bitmap' : Buffer) × (set_bit len bitmap idx ≡ some bitmap') × IsChanged bitmap idx 1 bitmap'
set_bit-IsChanged len bitmap idx bytes inside = (
  with_bit_set bitmap bytes len idx inside,
  set_bit_inside bitmap bytes len idx inside,
  record {
    bytes = λ i.
        ground (arith, bytes i, small (bitmap (idx / 8)) (idx % 8) (bytes (idx / 8)) (omega arith));
    bits = bit-with_bit_set bitmap bytes len idx inside;
  },
)

-- `clearBit` on a bit that lies in a bitmap of bytes does not panic, and clears that bit alone.
pub clear_bit-IsChanged :
    (len : ℕ) (bitmap : Buffer) (idx : ℕ)
    → IsBytes bitmap
    → idx < 8 * len
    → (bitmap' : Buffer) × (clear_bit len bitmap idx ≡ some bitmap')
      × IsChanged bitmap idx 0 bitmap'
clear_bit-IsChanged len bitmap idx bytes inside = (
  with_bit_clear bitmap bytes len idx inside,
  clear_bit_inside bitmap bytes len idx inside,
  record {
    bytes = λ i.
        ground (arith, bytes i, small (bitmap (idx / 8)) (idx % 8) (bytes (idx / 8)) (omega arith));
    bits = bit-with_bit_clear bitmap bytes len idx inside;
  },
)

-- Outside the bitmap both panic.
pub change_outside :
    (len : ℕ) (bitmap : Buffer) (idx : ℕ)
    → 8 * len ≤ idx
    → (set_bit len bitmap idx ≡ none) × (clear_bit len bitmap idx ≡ none)
unfolding set_bit clear_bit
change_outside len bitmap idx h = ground arith
