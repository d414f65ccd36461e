-- ===== src/Disk.antt =====
-- computer/fs.go: the in-memory disk image `MemDisk`, and the interface `Disk` that it fills.
pub mod Laws
use byte_space.Prelude.{
  ℕ, ◌+◌, ◌-◌, ◌≡◌, Bool, ◌&&◌, Option, none, some, ltb, leb, ◌==◌, if◌then◌else◌, min, ℤ, pos,
  negsuc, Error, negative_offset, eof, short_write, negative_size,
}
use byte_space.Bytes.{Buffer, slice}

-- The slice `buf`: its length, and the byte at each index below it.
pub record MemDisk : Type 0 where
  pub len : ℕ
  pub byte : Buffer

-- What a call of `ReadAt(p, off)` leaves in `p`, with its two results.
pub record ReadAt : Type 0 where
  pub out : Buffer
  pub count : ℕ
  pub error : Option Error

-- `p` has `n` bytes.
unfoldable pub read_at : MemDisk → Buffer → ℕ → ℤ → ReadAt
read_at d p n (negsuc k) = record { out = p; count = 0; error = some negative_offset }
read_at d p n (pos off) =
    if leb d.len off
    then record { out = p; count = 0; error = some eof }
    else let m = min n (d.len - off) in
      record {
        out = λ i. if ltb i m then d.byte (off + i) else p i;
        count = m;
        error = if ltb m n then some eof else none;
      }

pub record WriteAt : Type 0 where
  pub disk : MemDisk
  pub count : ℕ
  pub error : Option Error

unfoldable pub overwrite : MemDisk → Buffer → ℕ → ℕ → MemDisk
overwrite d b m off = record d {
  byte = λ i. if leb off i && ltb i (off + m) then b (i - off) else d.byte i;
}

-- `b` has `n` bytes.
unfoldable pub write_at : MemDisk → Buffer → ℕ → ℤ → WriteAt
unfolding overwrite
write_at d b n (negsuc k) = record { disk = d; count = 0; error = some negative_offset }
write_at d b n (pos off) =
    if leb d.len off
    then (if n == 0
        then record { disk = d; count = 0; error = none }
        else record { disk = d; count = 0; error = some short_write })
    else let m = min n (d.len - off) in
      if ltb m n
      then record { disk = overwrite d b m off; count = m; error = some short_write }
      else record { disk = overwrite d b m off; count = n; error = none }

unfoldable pub truncate : MemDisk → ℤ → Option Error × MemDisk
truncate d (negsuc k) = (some negative_size, d)
truncate d (pos size) =
    if ltb size d.len
    then (none, record d { len = size })
    else if ltb d.len size
    then (none, record { len = size; byte = λ i. if ltb i d.len then d.byte i else 0 })
    else (none, d)
