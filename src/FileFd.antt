-- ===== src/FileFd.antt =====
-- computer/fs_fd.go: reading and writing an open regular file. `getInode` of the kernel gives the
-- inode, which the call goes on to change in place, so the state holds the inode beside the disk.
pub mod Read
pub mod Write
pub mod ReadBack
use byte_space.Prelude.{
  ℕ, zero, suc, ◌+◌, ◌-◌, ◌/◌, ◌%◌, ◌^◌, min, true, false, Option, none, some, leb, ltb,
  if◌then◌else◌, Error, eof, Result, ok, err, panics,
}
use byte_space.Bytes.{Buffer, copy_into, slice}
use byte_space.Layout.{blocksize}
use byte_space.FileSystem.{FileSystem, read_data_block, write_data_block}
use byte_space.Inode.{Inode, write_inode}
use byte_space.Places.{block_num_for_virtual}
use byte_space.Falloc.{Target, falloc}

-- `FileFD`: the open file's number, position and flags.
pub record FileFd : Type 0 where
  pub inode_num : ℕ
  pub offset : ℕ
  pub flags : ℕ

-- What a read or a write returns: the count with the error, if any; or a panic.
pub data Count : Type 0 where
  counted : ℕ → Option Error → Count
  count_panics : Count

pub record ReadState : Type 0 where
  pub buf : Buffer
  pub offset : ℕ
  pub count : Count

-- One round of the loop of `Read`, when the block is there: as much of it as is asked for.
abbrev pub chunk_of : ℕ → ℕ → ℕ
chunk_of left offset = min left (blocksize - offset % blocksize)

-- The block that holds a position: its number, and then what it has.
abbrev pub got_block : Buffer × Option Error → Result Buffer
got_block (data', none) = ok data'
got_block (data', some e) = err e

abbrev pub block_of : FileSystem → Result ℕ → Result Buffer
block_of fs (ok n) = got_block (read_data_block fs n)
block_of fs (err e) = err e
block_of fs panics = panics

abbrev pub block_at : FileSystem → Inode → ℕ → Result Buffer
block_at fs ino offset = block_of fs (block_num_for_virtual fs ino (offset / blocksize % 2 ^ 32))

-- The loop of `Read` with `n` bytes done of `to_read`. A round reads at least one byte, so that
-- `to_read` rounds are enough; `fuel` counts them.
unfoldable pub read_loop : ℕ → FileSystem → Inode → Buffer → ℕ → ℕ → ℕ → ReadState
read_loop zero fs ino buf offset n to_read = record {
  buf = buf;
  offset = offset;
  count = counted n none;
}
read_loop (suc fuel) fs ino buf offset n to_read = elim (ltb n to_read) [
  | false ↦ record { buf = buf; offset = offset; count = counted n none }
  | true ↦ elim (block_at fs ino offset) [
    | err e ↦ record { buf = buf; offset = offset; count = counted n (some e) }
    | panics ↦ record { buf = buf; offset = offset; count = count_panics }
    | ok data' ↦
        let chunk = chunk_of (to_read - n) offset in
        read_loop fuel fs ino (copy_into buf n chunk (slice data' (offset % blocksize) chunk))
          (offset + chunk) (n + chunk) to_read
  ]
]

-- `Read` into a buffer of `len` bytes.
unfoldable pub read : FileFd → FileSystem → Inode → Buffer → ℕ → ReadState
read f fs ino buf len =
    if leb ino.size f.offset
    then record { buf = buf; offset = f.offset; count = counted 0 (some eof) }
    else let to_read = min len (ino.size - f.offset) in
      read_loop to_read fs ino buf f.offset 0 to_read

pub record WriteState : Type 0 where
  pub fs : FileSystem
  pub ino : Inode
  pub offset : ℕ
  pub count : Count

abbrev pub block_num_at : FileSystem → Inode → ℕ → Result ℕ
block_num_at fs ino offset = block_num_for_virtual fs ino (offset / blocksize % 2 ^ 32)

-- `copy(blk[blockOff:], data[n:])`: the block read, with the chunk in it.
abbrev pub patched : Buffer → ℕ → ℕ → Buffer → ℕ → Buffer
patched blk off chunk data' n = copy_into blk off chunk (slice data' n chunk)

-- The loop of `Write` with `n` bytes done of `len`: each block is read, changed and written.
unfoldable pub write_loop : ℕ → FileSystem → Inode → Buffer → ℕ → ℕ → ℕ → WriteState
write_loop zero fs ino data' len offset n = record {
  fs = fs;
  ino = ino;
  offset = offset;
  count = counted n none;
}
write_loop (suc fuel) fs ino data' len offset n = elim (ltb n len) [
  | false ↦ record { fs = fs; ino = ino; offset = offset; count = counted n none }
  | true ↦ elim (block_num_at fs ino offset) [
    | err e ↦ record { fs = fs; ino = ino; offset = offset; count = counted n (some e) }
    | panics ↦ record { fs = fs; ino = ino; offset = offset; count = count_panics }
    | ok block_num ↦ elim (read_data_block fs block_num).1 [
      | some e ↦ record { fs = fs; ino = ino; offset = offset; count = counted n (some e) }
      | none ↦
          let chunk = chunk_of (len - n) offset in
          let blk = patched (read_data_block fs block_num).0 (offset % blocksize) chunk data' n in
          let w = write_data_block fs block_num blocksize blk in
          elim w.0 [
            | some e ↦ record { fs = w.1; ino = ino; offset = offset; count = counted n (some e) }
            | none ↦ write_loop fuel w.1 ino data' len (offset + chunk) (n + chunk)
          ]
    ]
  ]
]

abbrev pub saved : Result (Unit {0}) → ℕ → Count
saved (ok _) n = counted n none
saved (err e) n = counted n (some e)
saved panics n = count_panics

-- The inode is written at the end, whatever was done before, unless the loop stopped early.
abbrev pub save : ℕ → WriteState → WriteState
save inode_num s = elim s.count [
  | count_panics ↦ s
  | counted n (some e) ↦ s
  | counted n none ↦
      let w = write_inode s.ino inode_num s.fs in record s { fs = w.1; count = saved w.0 n }
]

abbrev pub write_grown : FileFd → Buffer → ℕ → Result (Unit {0}) × Target → WriteState
write_grown f data' len (ok _, t) =
    save f.inode_num (write_loop len t.fs t.ino data' len f.offset 0)
write_grown f data' len (err e, t) = record {
  fs = t.fs;
  ino = t.ino;
  offset = f.offset;
  count = counted 0 (some e);
}
write_grown f data' len (panics, t) = record {
  fs = t.fs;
  ino = t.ino;
  offset = f.offset;
  count = count_panics;
}

-- `Write` of `len` bytes: past the end of the file its blocks are allocated first.
unfoldable pub write : FileFd → Buffer → ℕ → FileSystem → Inode → WriteState
write f data' len fs ino =
    let new_end = (f.offset + len) % 2 ^ 64 in
    if ltb ino.size new_end
    then write_grown f data' len (falloc (new_end % 2 ^ 32) (record { fs = fs; ino = ino }))
    else write_grown f data' len (ok tt, record { fs = fs; ino = ino })
