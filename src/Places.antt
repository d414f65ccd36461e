-- ===== src/Places.antt =====
-- computer/fs_falloc.go and computer/fs_fd.go: from a block of a file to where its number stands.
use byte_space.Prelude.{
  ℕ, ◌+◌, ◌-◌, ◌*◌, ◌<◌, ◌≡◌, arith, Bool, true, false, ◌&&◌, Option, none, some, Error, Result, ok,
  err, panics, ltb, leb, if◌then◌else◌,
}
use byte_space.Bytes.{Buffer, get_u32}
use byte_space.Layout.{blocksize}
use byte_space.FileSystem.{FileSystem, read_data_block}
use byte_space.Inode.{Inode}

-- The three tables of pointers outside the inode: `find`, `sind` and `tind`.
pub data Table : Type 0 where
  first second third : Table

-- `place`: 0 is the inode itself, and 1, 2 and 3 are the tables.
pub data Place : Type 0 where
  in_inode : Place
  in_table : Table → Place

abbrev pub same : Table → Table → Bool
same first first = true
same second second = true
same third third = true
same _ _ = false

unfoldable pub virtual_to_place_relative : ℕ → ℕ × Place
virtual_to_place_relative v =
    if ltb 11 v && ltb v 1036
    then (v - 12, in_table first)
    else if leb 1036 v && ltb v 2060
    then (v - 1036, in_table second)
    else if leb 2060 v
    then (v - 2060, in_table third)
    else (v, in_inode)

-- The inode's pointer to a table.
abbrev pub pointer : Table → Inode → ℕ
pointer first ino = ino.find
pointer second ino = ino.sind
pointer third ino = ino.tind

abbrev pub set_pointer : Table → ℕ → Inode → Inode
set_pointer first idx ino = record ino { find = idx }
set_pointer second idx ino = record ino { sind = idx }
set_pointer third idx ino = record ino { tind = idx }

-- The files that use a table have more blocks than this.
abbrev pub starts : Table → ℕ
starts first = 12
starts second = 1036
starts third = 2060

-- The first block of each place, the other way round.
abbrev pub place_start : Place → ℕ
place_start in_inode = 0
place_start (in_table t) = starts t

abbrev pub place_size : Place → ℕ
place_size in_inode = 12
place_size (in_table t) = 1024

pub place_start-virtual_to_place_relative :
    (v : ℕ) → place_start (virtual_to_place_relative v).1 + (virtual_to_place_relative v).0 ≡ v
unfolding virtual_to_place_relative
place_start-virtual_to_place_relative v = ground arith

-- Every block below the limit has one place: its number is the start of the place and the address
-- in it, and the address is within the place. So no two blocks share a place and an address.
pub virtual_to_place_relative_inverse :
    (v : ℕ)
    → v < 3084
    → (place_start (virtual_to_place_relative v).1 + (virtual_to_place_relative v).0 ≡ v)
      × ((virtual_to_place_relative v).0 < place_size (virtual_to_place_relative v).1)
unfolding virtual_to_place_relative
virtual_to_place_relative_inverse v = ground arith

-- `blockNumForVirtual` behind the read of a table; a table has no address past its block.
abbrev pub pointer_in : ℕ → Buffer × Option Error → Result ℕ
pointer_in rel (blk, some e) = err e
pointer_in rel (blk, none) =
    if leb (rel * 4 + 4) blocksize then ok (get_u32 blk (rel * 4)) else panics

abbrev pub number_at : FileSystem → Inode → ℕ → Place → Result ℕ
number_at fs ino rel in_inode = ok (ino.direct rel)
number_at fs ino rel (in_table t) = pointer_in rel (read_data_block fs (pointer t ino))

-- The data block that holds block `v` of a file.
unfoldable pub block_num_for_virtual : FileSystem → Inode → ℕ → Result ℕ
block_num_for_virtual fs ino v = let at = virtual_to_place_relative v in number_at fs ino at.0 at.1
