-- ===== src/Bytes.antt =====
-- Byte slices and the little-endian codes of encoding/binary, as the filesystem uses them.
-- A `[]byte` or `[n]byte` is the function from an index to the byte there; its length is kept
-- beside it where the code looks at it. `make([]byte, n)` is `zeroed`.
pub mod Laws
use byte_space.Prelude.{ℕ, zero, suc, ◌+◌, ◌-◌, ◌*◌, ◌/◌, ◌%◌, ◌^◌, ◌<◌, Bool, ◌&&◌}
use byte_space.Prelude.{List, [], ◌∷◌, ◌==◌, ltb, leb, if◌then◌else◌}

abbrev pub Buffer : Type 0
Buffer = ℕ → ℕ

abbrev pub zeroed : Buffer
zeroed i = 0

-- `buf[off] = v`, the value cut to a byte.
abbrev pub put_u8 : Buffer → ℕ → ℕ → Buffer
put_u8 buf off v i = if i == off then v % 256 else buf i

-- `binary.LittleEndian.PutUint16(buf[off:off+2], v)`
abbrev pub put_u16 : Buffer → ℕ → ℕ → Buffer
put_u16 buf off v i = if i == off then v % 256 else if i == off + 1 then v / 256 % 256 else buf i

-- `binary.LittleEndian.PutUint32(buf[off:off+4], v)`
abbrev pub put_u32 : Buffer → ℕ → ℕ → Buffer
put_u32 buf off v i =
    if i == off
    then v % 256
    else if i == off + 1
    then v / 256 % 256
    else if i == off + 2
    then v / 65536 % 256
    else if i == off + 3
    then v / 16777216 % 256
    else buf i

-- `binary.LittleEndian.PutUint64(buf[off:off+8], v)`
abbrev pub put_u64 : Buffer → ℕ → ℕ → Buffer
put_u64 buf off v = put_u32 (put_u32 buf off v) (off + 4) (v / 2 ^ 32)

abbrev pub get_u16 : Buffer → ℕ → ℕ
get_u16 buf off = buf off + 256 * buf (off + 1)

abbrev pub get_u32 : Buffer → ℕ → ℕ
get_u32 buf off = buf off + 256 * buf (off + 1) + 65536 * buf (off + 2) + 16777216 * buf (off + 3)

abbrev pub get_u64 : Buffer → ℕ → ℕ
get_u64 buf off = get_u32 buf off + 2 ^ 32 * get_u32 buf (off + 4)

-- `copy(dst[off:off+n], src)` for a `src` of at least `n` bytes.
abbrev pub copy_into : Buffer → ℕ → ℕ → Buffer → Buffer
copy_into dst off n src i = if leb off i && ltb i (off + n) then src (i - off) else dst i

-- `buf[off:off+n]` as a slice of its own; what stands beyond its end is not read.
abbrev pub slice : Buffer → ℕ → ℕ → Buffer
slice buf off n i = if ltb i n then buf (off + i) else 0

-- The bytes of a Go string, and back: `string(buf[off:off+n])`.
unfoldable pub of_list : List ℕ → Buffer
of_list [] i = 0
of_list (x ∷ xs) zero = x
of_list (x ∷ xs) (suc i) = of_list xs i

unfoldable pub to_list : Buffer → ℕ → ℕ → List ℕ
to_list buf off zero = []
to_list buf off (suc n) = buf off ∷ to_list buf (off + 1) n

-- Every byte fits eight bits.
abbrev pub IsBytes : Buffer → Type 0
IsBytes buf = (i : ℕ) → buf i < 256
