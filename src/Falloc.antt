-- ===== src/Falloc.antt =====
-- computer/fs_falloc.go: `Falloc` gives a file as many blocks as its new size needs, or takes the
-- blocks past the new size away.
pub mod View
pub mod Grow
use byte_space.Prelude.{
  ℕ, zero, suc, ◌+◌, ◌-◌, ◌*◌, ◌/◌, ◌%◌, ◌^◌, ◌<◌, ◌≡◌, Bool, true, false, ◌&&◌, not, Option, none,
  some, leb, ltb, ◌==◌, if◌then◌else◌, pos, Error, too_many_blocks, Result, ok, err, panics, Exec,
  ◌>>=◌, ◌>>◌, pure, fail, panic,
}
use byte_space.Bytes.{Buffer, zeroed, put_u32, get_u32}
use byte_space.Disk.{read_at, write_at}
use byte_space.Layout.{blocksize}
use byte_space.Bitmap.{take_bit, clear_bit}
use byte_space.FileSystem.{FileSystem, with_disk, read_data_block, write_data_block}
use byte_space.Inode.{Inode}
use byte_space.Places.{
  Table, first, second, third, Place, in_inode, in_table, same, virtual_to_place_relative, pointer,
  set_pointer, starts,
}

-- What `Falloc` works on: the filesystem, the inode, its copy of the data bitmap, and the tables
-- that it has read (`findBuf`, `sindBuf` and `tindBuf`, `none` for nil).
pub record Alloc : Type 0 where
  pub fs : FileSystem
  pub ino : Inode
  pub bitmap : Buffer
  pub buf : Table → Option Buffer

-- `(size + BLOCKSIZE - 1) / BLOCKSIZE`, on `uint32`.
unfoldable pub blocks_for : ℕ → ℕ
blocks_for size = (size + 4095) % 2 ^ 32 / blocksize

-- A table as it was read, or as the disk has it; the error of the read is discarded.
abbrev pub table : Alloc → Table → Buffer
table a t = elim (a.buf t) [ some b ↦ b | none ↦ (read_data_block a.fs (pointer t a.ino)).0 ]

abbrev pub with_table : Alloc → Table → Buffer → Alloc
with_table a t b = record a { buf = λ u. if same t u then some b else a.buf u }

-- A free bit, or the panic.
abbrev pub taken : Option (ℕ × Buffer) → Exec Alloc ℕ
taken none a = (panics, a)
taken (some (idx, bitmap)) a = (ok idx, record a { bitmap = bitmap })

unfoldable pub take : Exec Alloc ℕ
take a = taken (take_bit blocksize a.bitmap) a

-- `getDataBlock`: a block of zeros; the error of the write is discarded.
unfoldable pub get_data_block : Exec Alloc ℕ
get_data_block = do
  idx ← take
  (λ a. (ok tt, record a { fs = (write_data_block a.fs idx blocksize zeroed).1 }))
  pure idx

-- A new table, if the file begins to use it.
unfoldable pub new_table : ℕ → ℕ → Table → Exec Alloc (Unit {0})
unfolding get_data_block
new_table needed current t =
    if ltb (starts t) needed && leb current (starts t)
    then (do idx ← get_data_block; (λ a. (ok tt, record a { ino = set_pointer t idx a.ino })))
    else pure tt

-- `if buf == nil { buf = ... }`
abbrev pub load : Table → Exec Alloc (Unit {0})
load t a = (ok tt, with_table a t (table a t))

abbrev pub store_direct : ℕ → ℕ → Alloc → Alloc
store_direct rel idx a = record a {
  ino = record a.ino { direct = λ i. if i == rel then idx else a.ino.direct i };
}

-- `PutUint32(buf[rel*4:rel*4+4], idx)`, which panics past the end of the block.
unfoldable pub store_pointer : Table → ℕ → ℕ → Exec Alloc (Unit {0})
store_pointer t rel idx a =
    if leb (rel * 4 + 4) blocksize
    then (ok tt, with_table a t (put_u32 (table a t) (rel * 4) idx))
    else (panics, a)

-- One round of the loop that grows a file, for block `i`.
unfoldable pub grow_place : ℕ → Place → Exec Alloc (Unit {0})
grow_place rel in_inode = do idx ← take; (λ a. (ok tt, store_direct rel idx a))
grow_place rel (in_table t) = do load t; idx ← take; store_pointer t rel idx

unfoldable pub grow_step : ℕ → Exec Alloc (Unit {0})
grow_step i = let at = virtual_to_place_relative i in grow_place at.0 at.1

-- The blocks from `i` on, as many as `rounds`.
unfoldable pub grow_loop : ℕ → ℕ → Exec Alloc (Unit {0})
grow_loop zero i = pure tt
grow_loop (suc rounds) i = grow_step i >>= λ _. grow_loop rounds (i + 1)

abbrev pub max_blocks : ℕ
max_blocks = 12 + 1024 + 1024 + 1024

unfoldable pub grow : ℕ → ℕ → Exec Alloc (Unit {0})
grow needed current = if ltb max_blocks needed then fail too_many_blocks else (do
  new_table needed current third
  new_table needed current second
  new_table needed current first
  grow_loop (needed - current) current)

-- `clearBit(bitmap, idx)`, which panics past the end of the bitmap.
unfoldable pub free : ℕ → Exec Alloc (Unit {0})
free idx a = elim (clear_bit blocksize a.bitmap idx) [
  | none ↦ (panics, a)
  | some bitmap ↦ (ok tt, record a { bitmap = bitmap })
]

unfoldable pub free_pointer : Table → ℕ → Exec Alloc (Unit {0})
free_pointer t rel a =
    if leb (rel * 4 + 4) blocksize then free (get_u32 (table a t) (rel * 4)) a else (panics, a)

unfoldable pub shrink_place : ℕ → Place → Exec Alloc (Unit {0})
shrink_place rel in_inode a = free (a.ino.direct rel) a
shrink_place rel (in_table t) a = (do load t; free_pointer t rel) a

unfoldable pub shrink_step : ℕ → Exec Alloc (Unit {0})
shrink_step i = let at = virtual_to_place_relative i in shrink_place at.0 at.1

unfoldable pub shrink_loop : ℕ → ℕ → Exec Alloc (Unit {0})
shrink_loop zero i = pure tt
shrink_loop (suc rounds) i = shrink_step i >>= λ _. shrink_loop rounds (i + 1)

-- Whether the file no longer uses a table.
abbrev pub drops : ℕ → ℕ → Table → Bool
drops needed current t = ltb (starts t) current && leb needed (starts t)

unfoldable pub drop_table : ℕ → ℕ → Table → Exec Alloc (Unit {0})
drop_table needed current t a =
    if drops needed current t then free (pointer t a.ino) a else (ok tt, a)

unfoldable pub shrink : ℕ → ℕ → Exec Alloc (Unit {0})
shrink needed current = do
  shrink_loop (current - needed) needed
  drop_table needed current third
  drop_table needed current second
  drop_table needed current first

-- The tables that were read and are still used go back to the disk; write errors are discarded.
unfoldable pub flush : (Table → Bool) → Table → Alloc → Alloc
flush freed t a = elim (a.buf t) [
  | none ↦ a
  | some b ↦
      if freed t
      then a
      else record a { fs = (write_data_block a.fs (pointer t a.ino) blocksize b).1 }
]

abbrev pub bitmap_offset : FileSystem → ℕ
bitmap_offset fs = fs.super_blk.data_bitmap_start_block * blocksize

-- The end of `Falloc`: tables, size, bitmap.
unfoldable pub finish : (Table → Bool) → ℕ → Alloc → Alloc
finish freed new_size a =
    let a = flush freed third (flush freed second (flush freed first a)) in
    record a {
      ino = record a.ino { size = new_size };
      fs = with_disk a.fs (write_at a.fs.disk a.bitmap blocksize (pos (bitmap_offset a.fs))).disk;
    }

-- A file's filesystem and its inode, which `Falloc` changes through a pointer.
pub record Target : Type 0 where
  pub fs : FileSystem
  pub ino : Inode

abbrev pub target : Alloc → Target
target a = record { fs = a.fs; ino = a.ino }

abbrev pub close : (Table → Bool) → ℕ → Result (Unit {0}) × Alloc → Result (Unit {0}) × Target
close freed new_size (ok _, a) = (ok tt, target (finish freed new_size a))
close freed new_size (err e, a) = (err e, target a)
close freed new_size (panics, a) = (panics, target a)

-- The state after the data bitmap was read; the error of the read is discarded.
abbrev pub opened : FileSystem → Inode → Alloc
opened fs ino = record {
  fs = fs;
  ino = record ino { dirty = true };
  bitmap = (read_at fs.disk zeroed blocksize (pos (bitmap_offset fs))).out;
  buf = λ t. none;
}

unfoldable pub falloc : ℕ → Exec Target (Unit {0})
falloc new_size s =
    let needed = blocks_for new_size in
    let current = blocks_for s.ino.size in
    if needed == current
    then (ok tt, record s { ino = record s.ino { dirty = true; size = new_size } })
    else if ltb current needed
    then close (λ t. false) new_size (grow needed current (opened s.fs s.ino))
    else close (drops needed current) new_size (shrink needed current (opened s.fs s.ino))
