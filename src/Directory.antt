-- ===== src/Directory.antt =====
-- computer/fs_inode.go (`iterBlocks`) and computer/fs_dir.go: the operations on a directory.
pub mod Entries
pub mod Insert
pub mod Remove
pub mod Unchanged
use byte_space.Prelude.{
  ℕ, zero, suc, ◌+◌, ◌*◌, ◌%◌, ◌^◌, Bool, true, false, Option, none, some, leb, if◌then◌else◌, List,
  [], ◌++◌, Error, no_free_slot, enoent, Result, ok, err, panics, Exec, ◌>>=◌, ◌>>◌, pure, fail,
  lift,
}
use byte_space.Bytes.{Buffer, get_u32}
use byte_space.Layout.{blocksize}
use byte_space.FileSystem.{FileSystem, read_data_block, write_data_block}
use byte_space.Inode.{Inode, empty_inode, read_inode, write_inode}
use byte_space.Places.{Table, Place, in_inode, in_table, same, pointer, virtual_to_place_relative}
use byte_space.Falloc.{Target, blocks_for, falloc}
use byte_space.Dentry.{
  DirEntry, encode_dir_entry, decode_dir_entries, free_slot, named_slot, fill_slot, clear_slot,
}

-- The state of a walk over the blocks of a file: the filesystem, what the callback has gathered,
-- and the tables that were read.
pub record Walk (A : Type 0) : Type 0 where
  pub fs : FileSystem
  pub seen : A
  pub buf : Table → Option Buffer

abbrev loaded : Buffer × Option Error → Result Buffer
loaded (data', some e) = err e
loaded (data', none) = ok data'

module _ {A : Type 0} where
  abbrev keep_table : Walk A → Table → Buffer × Option Error → Result Buffer × Walk A
  keep_table w t (blk, some e) = (err e, w)
  keep_table w t (blk, none) =
      (ok blk, record w { buf = λ u. if same t u then some blk else w.buf u })

  -- `resolve`: a table is read when it is first needed.
  abbrev read_table : Table → ℕ → Option Buffer → Exec (Walk A) Buffer
  read_table t ptr (some blk) w = (ok blk, w)
  read_table t ptr none w = keep_table w t (read_data_block w.fs ptr)

  abbrev address : ℕ → Buffer → Exec (Walk A) ℕ
  address rel blk w =
      if leb (rel * 4 + 4) blocksize then (ok (get_u32 blk (rel * 4)), w) else (panics, w)

  abbrev block_num : Inode → ℕ → Place → Exec (Walk A) ℕ
  block_num ino rel in_inode w = (ok (ino.direct rel), w)
  block_num ino rel (in_table t) w =
      (read_table t (pointer t ino) (w.buf t) >>= λ blk. address rel blk) w

  -- `iterBlocks` from block `i`: the callback gets the number and the bytes of each block, and says
  -- whether to stop.
  unfoldable pub iter_from :
      Inode → (ℕ → Buffer → Exec (Walk A) Bool) → ℕ → ℕ → Exec (Walk A) (Unit {0})
  iter_from ino fn zero i = pure tt
  iter_from ino fn (suc rounds) i = do
    n ← (let at = virtual_to_place_relative i in block_num ino at.0 at.1)
    data' ← (λ w. (loaded (read_data_block w.fs n), w))
    stop ← fn n data'
    if stop then pure tt else iter_from ino fn rounds (i + 1)

  unfoldable pub iter_blocks : Inode → (ℕ → Buffer → Exec (Walk A) Bool) → Exec (Walk A) (Unit {0})
  unfolding iter_from
  iter_blocks ino fn = iter_from ino fn (blocks_for ino.size) 0

-- The walk with nothing gathered yet.
abbrev pub start : {A : Type 0} → A → FileSystem → Walk A
start a fs = record { fs = fs; seen = a; buf = λ t. none }

abbrev pub finished : {A : Type 0} → Result (Unit {0}) × Walk A → Result A × FileSystem
finished (ok _, w) = (ok w.seen, w.fs)
finished (err e, w) = (err e, w.fs)
finished (panics, w) = (panics, w.fs)

-- `writeDataBlock` as the last act of a callback that stops; its error is the callback's.
abbrev wrote : {A : Type 0} → Walk A → Option Error × FileSystem → Result Bool × Walk A
wrote w (some e, fs) = (err e, record w { fs = fs })
wrote w (none, fs) = (ok true, record w { fs = fs })

abbrev write_stop : {A : Type 0} → ℕ → Buffer → Exec (Walk A) Bool
write_stop n data' w = wrote w (write_data_block w.fs n blocksize data')

abbrev insert_at : Buffer → ℕ → Buffer → Option ℕ → Exec (Walk Bool) Bool
insert_at encoded n data' none w = (ok false, w)
insert_at encoded n data' (some i) w =
    write_stop n (fill_slot data' i encoded) (record w { seen = true })

-- `tryInsert` of `addDentry`: whether a free slot was found and filled.
unfoldable pub try_insert : Inode → Buffer → Exec FileSystem Bool
unfolding iter_blocks
try_insert dir_inode encoded fs = finished (
    iter_blocks dir_inode (λ n data'. insert_at encoded n data' (free_slot 64 data' 0))
      (start false fs))

abbrev pub with_target : Result (Unit {0}) × Target → Result Inode × FileSystem
with_target (ok _, s) = (ok s.ino, s.fs)
with_target (err e, s) = (err e, s.fs)
with_target (panics, s) = (panics, s.fs)

abbrev pub falloc_inode : Inode → ℕ → Exec FileSystem Inode
falloc_inode ino new_size fs = with_target (falloc new_size (record { fs = fs; ino = ino }))

abbrev pub got_inode : Option Error × Inode → Result Inode
got_inode (some e, ino) = err e
got_inode (none, ino) = ok ino

-- The directory's inode, read from the disk into a fresh struct.
abbrev pub dir_inode_of : ℕ → Exec FileSystem Inode
dir_inode_of inum fs = (got_inode (read_inode fs empty_inode inum), fs)

-- No slot was free: one block more, and another try. The new size is a `uint32`.
unfoldable pub grow_and_insert : ℕ → Inode → Buffer → Exec FileSystem (Unit {0})
unfolding try_insert
grow_and_insert inode_num dir_inode encoded = do
  grown ← falloc_inode dir_inode ((dir_inode.size + blocksize) % 2 ^ 32)
  write_inode grown inode_num
  inserted ← try_insert grown encoded
  if inserted then pure tt else fail no_free_slot

-- `addDentry` on the directory `inode_num`.
unfoldable pub add_dentry : ℕ → DirEntry → Exec FileSystem (Unit {0})
unfolding try_insert grow_and_insert
add_dentry inode_num dentry = do
  dir_inode ← dir_inode_of inode_num
  encoded ← lift (encode_dir_entry dentry)
  inserted ← try_insert dir_inode encoded
  if inserted then pure tt else grow_and_insert inode_num dir_inode encoded

abbrev remove_at : ℕ → Buffer → Result (Option ℕ) → Exec (Walk Bool) Bool
remove_at n data' (ok none) w = (ok false, w)
remove_at n data' (ok (some i)) w = write_stop n (clear_slot data' i) (record w { seen = true })
remove_at n data' (err e) w = (err e, w)
remove_at n data' panics w = (panics, w)

-- The walk of `removeDentry`: whether an entry of that name was found and cleared.
unfoldable pub try_remove : Inode → List ℕ → Exec FileSystem Bool
unfolding iter_blocks
try_remove dir_inode name fs = finished (
    iter_blocks dir_inode (λ n data'. remove_at n data' (named_slot name 64 data' 0))
      (start false fs))

-- `removeDentry` on the directory `inode_num`.
unfoldable pub remove_dentry : ℕ → List ℕ → Exec FileSystem (Unit {0})
unfolding try_remove
remove_dentry inode_num name = do
  dir_inode ← dir_inode_of inode_num
  found ← try_remove dir_inode name
  if found then pure tt else fail enoent

abbrev gather : Result (List DirEntry) → Exec (Walk (List DirEntry)) Bool
gather (ok entries) w = (ok false, record w { seen = w.seen ++ entries })
gather (err e) w = (err e, w)
gather panics w = (panics, w)

-- `ReadEntries`: the entries of all blocks, in order.
unfoldable pub read_all : Inode → Exec FileSystem (List DirEntry)
unfolding iter_blocks
read_all dir_inode fs =
    finished (iter_blocks dir_inode (λ n data'. gather (decode_dir_entries data')) (start [] fs))

unfoldable pub read_entries : ℕ → Exec FileSystem (List DirEntry)
unfolding read_all
read_entries inode_num = do dir_inode ← dir_inode_of inode_num; read_all dir_inode
