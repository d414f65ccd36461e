-- ===== src/Editor/Slices.antt =====
-- Go slices of bytes and `append` on them, and the texts that bytes code in UTF-8.
use byte_space.Prelude.{
  ℕ, zero, suc, ◌+◌, ◌-◌, ◌*◌, ◌/◌, ◌%◌, Bool, false, ◌&&◌, ◌||◌, List, [], ◌∷◌, ◌++◌, length, ltb,
  leb, ◌==◌, if◌then◌else◌,
}
use byte_space.Bytes.{Buffer, copy_into, slice, of_list, to_list}
use byte_space.Terminal.{Text}

-- A slice: its array, where it starts in it, its length, and how far it can grow in place.
pub record Line : Type 0 where
  pub arr : ℕ
  pub off : ℕ
  pub len : ℕ
  pub cap : ℕ

pub record Heap : Type 0 where
  pub array : ℕ → Buffer
  pub next : ℕ

-- The capacities that the Go runtime gives: for a conversion of so many bytes, and for a slice of
-- some capacity that has to hold so many.
pub record Caps : Type 0 where
  pub converted : ℕ → ℕ
  pub grown : ℕ → ℕ → ℕ

unfoldable pub line_bytes : Heap → Line → List ℕ
unfolding to_list
line_bytes heap line = to_list (heap.array line.arr) line.off line.len

abbrev pub with_array : Heap → ℕ → Buffer → Heap
with_array heap arr b = record heap {
  array = λ other. if other == arr then b else heap.array other;
}

-- `[]byte(s)`: a new array.
unfoldable pub fresh : Caps → List ℕ → Heap → Line × Heap
fresh caps bytes heap = (
  record { arr = heap.next; off = 0; len = length bytes; cap = caps.converted (length bytes) },
  record (with_array heap heap.next (of_list bytes)) { next = heap.next + 1 },
)

abbrev pub source : Line → Heap → Buffer
source curr heap = slice (heap.array curr.arr) curr.off curr.len

abbrev pub append_here : Line → Line → Heap → Line × Heap
append_here prev curr heap = (
  record prev { len = prev.len + curr.len },
  with_array heap prev.arr
      (copy_into (heap.array prev.arr) (prev.off + prev.len) curr.len (source curr heap)),
)

abbrev pub append_fresh : Caps → Line → Line → Heap → Line × Heap
append_fresh caps prev curr heap = (
  record {
    arr = heap.next;
    off = 0;
    len = prev.len + curr.len;
    cap = caps.grown prev.cap (prev.len + curr.len);
  },
  record (with_array heap heap.next
      (copy_into (source prev heap) prev.len curr.len (source curr heap))) { next = heap.next + 1 },
)

-- `append(prev, curr...)`: in place where the capacity of `prev` is enough, and else in a new
-- array.
unfoldable pub append : Caps → Line → Line → Heap → Line × Heap
append caps prev curr heap =
    if leb (prev.len + curr.len) prev.cap
    then append_here prev curr heap
    else append_fresh caps prev curr heap

-- The bytes of a rune; a surrogate or a number out of range is U+FFFD.
abbrev pub utf8_rune : ℕ → List ℕ
utf8_rune c =
    if ltb c 128
    then c ∷ []
    else if ltb c 2048
    then (192 + c / 64) ∷ (128 + c % 64) ∷ []
    else if (leb 55296 c && ltb c 57344) || ltb 1114111 c
    then 239 ∷ 191 ∷ 189 ∷ []
    else if ltb c 65536
    then (224 + c / 4096) ∷ (128 + c / 64 % 64) ∷ (128 + c % 64) ∷ []
    else (240 + c / 262144) ∷ (128 + c / 4096 % 64) ∷ (128 + c / 64 % 64) ∷ (128 + c % 64) ∷ []

-- `string(runes)`
unfoldable pub utf8 : Text → List ℕ
utf8 [] = []
utf8 (c ∷ text) = utf8_rune c ++ utf8 text

abbrev pub is_tail : ℕ → Bool
is_tail b = leb 128 b && leb b 191

-- The second byte that a first one allows.
abbrev pub is_second : ℕ → ℕ → Bool
is_second b c =
    if b == 224
    then leb 160 c && leb c 191
    else if b == 237
    then leb 128 c && leb c 159
    else if b == 240
    then leb 144 c && leb c 191
    else if b == 244
    then leb 128 c && leb c 143
    else is_tail c

-- The bytes that a first byte asks for; 1 also for a byte that starts no rune.
abbrev pub width : ℕ → ℕ
width b =
    if leb 194 b && leb b 223
    then 2
    else if leb 224 b && leb b 239
    then 3
    else if leb 240 b && leb b 244
    then 4
    else 1

abbrev pub is_two : ℕ → List ℕ → Bool
is_two b (c ∷ rest) = (width b == 2) && is_second b c
is_two b _ = false

abbrev pub is_three : ℕ → List ℕ → Bool
is_three b (c ∷ d ∷ rest) = (width b == 3) && is_second b c && is_tail d
is_three b _ = false

abbrev pub is_four : ℕ → List ℕ → Bool
is_four b (c ∷ d ∷ e ∷ rest) = (width b == 4) && is_second b c && is_tail d && is_tail e
is_four b _ = false

abbrev pub at : List ℕ → ℕ → ℕ
at [] i = 0
at (b ∷ bytes) zero = b
at (b ∷ bytes) (suc i) = at bytes i

-- `[]rune(string(bytes))`: `skip` bytes belong to the rune before. Any byte that is no part of a
-- rune is U+FFFD.
unfoldable pub runes_from : ℕ → List ℕ → Text
runes_from skip [] = []
runes_from (suc skip) (b ∷ bytes) = runes_from skip bytes
runes_from zero (b ∷ bytes) =
    let one = runes_from 0 bytes in
    let two = runes_from 1 bytes in
    let three = runes_from 2 bytes in
    let four = runes_from 3 bytes in
    if ltb b 128
    then b ∷ one
    else if is_two b bytes
    then ((b - 192) * 64 + (at bytes 0 - 128)) ∷ two
    else if is_three b bytes
    then ((b - 224) * 4096 + (at bytes 0 - 128) * 64 + (at bytes 1 - 128)) ∷ three
    else if is_four b bytes
    then ((b - 240) * 262144
        + (at bytes 0 - 128) * 4096
        + (at bytes 1 - 128) * 64
        + (at bytes 2 - 128))
      ∷ four
    else 65533 ∷ one

unfoldable pub runes : List ℕ → Text
unfolding runes_from
runes bytes = runes_from 0 bytes
