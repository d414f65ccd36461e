-- ===== src/Disk/Laws.antt =====
-- Reads of `MemDisk` after its writes.
use byte_space.Prelude.{
  ℕ, ◌+◌, ◌-◌, ◌≤◌, ◌<◌, ◌≡◌, ◌⊎◌, inl, inr, arith, none, false, min, ltb, leb, pos, fun_ext,
}
use byte_space.Bytes.{Buffer, slice, zeroed}
use byte_space.Disk.{MemDisk, read_at, write_at, truncate, overwrite}

-- A write that fits stores every byte, keeps the length, and reports the count.
pub write_at_fits :
    (d : MemDisk) (b : Buffer) (n off : ℕ)
    → 0 < n
    → off + n ≤ d.len
    → write_at d b n (pos off) ≡ record { disk = overwrite d b n off; count = n; error = none }
unfolding write_at
write_at_fits d b n off h fits = ground arith

-- A read that fits fills the whole buffer.
pub read_at_fits :
    (d : MemDisk) (n off : ℕ)
    → 0 < n
    → off + n ≤ d.len
    → read_at d zeroed n (pos off) ≡ record { out = slice d.byte off n; count = n; error = none }
unfolding read_at
read_at_fits d n off h fits =
    let inside : leb d.len off ≡ false = ground arith in
    let all : min n (d.len - off) ≡ n = omega arith in
    let full : ltb n n ≡ false = ground arith in rw (inside, all, full)

-- What a fitting write left at a place.
pub byte-overwrite_self :
    (d : MemDisk) (b : Buffer) (n off : ℕ) → slice (overwrite d b n off).byte off n ≡ slice b 0 n
unfolding overwrite
byte-overwrite_self d b n off = fun_ext λ i. ground arith

pub byte-overwrite_ne :
    (d : MemDisk) (b : Buffer) (n off m at : ℕ)
    → (at + m ≤ off) ⊎ (off + n ≤ at)
    → slice (overwrite d b n off).byte at m ≡ slice d.byte at m
unfolding overwrite
byte-overwrite_ne d b n off m at (inl h) = fun_ext λ i. ground arith
byte-overwrite_ne d b n off m at (inr h) = fun_ext λ i. ground arith

-- Whatever a write does, it keeps the length and what stands below its offset.
pub len-write_at :
    (d : MemDisk) (b : Buffer) (n off : ℕ) → (write_at d b n (pos off)).disk.len ≡ d.len
unfolding write_at
len-write_at d b n off = ground arith

pub byte-write_at_below :
    (d : MemDisk) (b : Buffer) (n off i : ℕ)
    → i < off
    → (write_at d b n (pos off)).disk.byte i ≡ d.byte i
unfolding write_at
byte-write_at_below d b n off i h = ground arith

pub len-truncate : (d : MemDisk) (size : ℕ) → (truncate d (pos size)).1.len ≡ size
unfolding truncate
len-truncate d size = ground arith

pub truncate_same : (d : MemDisk) (size : ℕ) → d.len ≡ size → truncate d (pos size) ≡ (none, d)
unfolding truncate
truncate_same d size h = ground arith

pub truncate_error : (d : MemDisk) (size : ℕ) → (truncate d (pos size)).0 ≡ none
unfolding truncate
truncate_error d size = ground arith

pub byte-overwrite_inside :
    (d : MemDisk) (b : Buffer) (n off i : ℕ) → i < n → (overwrite d b n off).byte (off + i) ≡ b i
unfolding overwrite
byte-overwrite_inside d b n off i h = ground arith

pub byte-overwrite_outside :
    (d : MemDisk) (b : Buffer) (n off i : ℕ)
    → (i < off) ⊎ (off + n ≤ i)
    → (overwrite d b n off).byte i ≡ d.byte i
unfolding overwrite
byte-overwrite_outside d b n off i (inl h) = ground arith
byte-overwrite_outside d b n off i (inr h) = ground arith
