-- ===== src/Bitmap.antt =====
-- computer/fs_falloc.go: the bitmaps of inodes and of data blocks.
pub mod Bits
pub mod Search
pub mod Change
pub mod Take
use byte_space.Prelude.{
  ℕ, zero, suc, ◌+◌, ◌-◌, ◌*◌, ◌/◌, ◌%◌, ◌^◌, ◌<◌, ◌≡◌, Bool, true, false, Option, none, some, ◌==◌,
  ltb, if◌then◌else◌, bit_or, bit_and,
}
use mathlib.Core.Option
use byte_space.Bytes.{Buffer, get_u64}

-- Bit `k` of a number.
unfoldable pub test_bit : ℕ → ℕ → ℕ
test_bit x zero = x % 2
test_bit x (suc k) = test_bit (x / 2) k

-- Bit `idx` of a bitmap: in a byte the lowest bit comes first.
unfoldable pub bit : Buffer → ℕ → ℕ
bit bitmap idx = test_bit (bitmap (idx / 8)) (idx % 8)

abbrev pub put_byte : Buffer → ℕ → ℕ → Buffer
put_byte bitmap at v i = if i == at then v else bitmap i

-- `bitmap` has `len` bytes; `none` is the panic of an index out of range.
unfoldable pub clear_bit : ℕ → Buffer → ℕ → Option Buffer
clear_bit len bitmap idx =
    if ltb (idx / 8) len
    then some (put_byte bitmap (idx / 8) (bit_and (bitmap (idx / 8)) (255 - 2 ^ (idx % 8))))
    else none

unfoldable pub set_bit : ℕ → Buffer → ℕ → Option Buffer
set_bit len bitmap idx =
    if ltb (idx / 8) len
    then some (put_byte bitmap (idx / 8) (bit_or (bitmap (idx / 8)) (2 ^ (idx % 8))))
    else none

-- `bits.TrailingZeros` of a number of `w` bits.
unfoldable pub trailing_zeros : ℕ → ℕ → ℕ
trailing_zeros zero x = 0
trailing_zeros (suc w) x =
    let more = suc (trailing_zeros w (x / 2)) in if x % 2 == 1 then 0 else more

-- The words of 64 bits from byte `i`, as many as `rounds`.
unfoldable pub find_word : ℕ → Buffer → ℕ → Option ℕ
find_word zero bitmap i = none
find_word (suc rounds) bitmap i =
    let word = get_u64 bitmap i in
    let rest = find_word rounds bitmap (i + 8) in
    if word == 2 ^ 64 - 1 then rest else some (i * 8 + trailing_zeros 64 (2 ^ 64 - 1 - word))

-- The tail bytes.
unfoldable pub find_byte : ℕ → Buffer → ℕ → Option ℕ
find_byte zero bitmap i = none
find_byte (suc rounds) bitmap i =
    let rest = find_byte rounds bitmap (i + 1) in
    if bitmap i == 0xff then rest else some (i * 8 + trailing_zeros 8 (255 - bitmap i))

-- What the words gave, or a search of the bytes behind the last whole word.
abbrev pub search_tail : Buffer → ℕ → Option ℕ → Option ℕ
search_tail bitmap n (some idx) = some idx
search_tail bitmap n none = find_byte (n % 8) bitmap (n / 8 * 8)

-- A bitmap of `n` bytes; `none` is the `false` of the second result.
unfoldable pub find_free_bit : Buffer → ℕ → Option ℕ
find_free_bit bitmap n = search_tail bitmap n (find_word (n / 8) bitmap 0)

-- `idx, status := findFreeBit(b); if !status { panic(...) }; setBit(b, idx)`: the number taken,
-- and the bitmap after it; `none` is the panic.
unfoldable pub take_bit : ℕ → Buffer → Option (ℕ × Buffer)
take_bit len bitmap =
    Option.bind (find_free_bit bitmap len)
      λ idx. Option.map (λ bitmap'. (idx, bitmap')) (set_bit len bitmap idx)

-- How many of the first `n` bits are 0.
unfoldable pub count_free : ℕ → Buffer → ℕ
count_free zero bitmap = 0
count_free (suc n) bitmap = count_free n bitmap + (1 - bit bitmap n)
