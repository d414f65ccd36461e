-- ===== src/Examples/Disks.antt =====
-- The filesystem of computer/fs*.go at concrete values.
use byte_space.Prelude.{
  ◌+◌, ◌<◌, ◌≡◌, refl, arith, true, false, none, some, ok, if◌then◌else◌, ◌==◌, ltb,
}
use byte_space.Bytes.{Buffer, zeroed, IsBytes, slice}
use byte_space.Bitmap.{find_word, trailing_zeros, find_free_bit, take_bit}
use byte_space.Bitmap.Search.{Found, find_free_bit-Found}
use byte_space.Bitmap.Take.{TakeResult, take_bit-TakeResult}
use byte_space.Disk.{MemDisk}
use byte_space.Layout.{blocksize, disksize}
use byte_space.SuperBlock.{read_supr_blk, write_supr_blk_to_supr_buf}
use byte_space.SuperBlock.RoundTrip.{read_supr_blk-write_supr_blk}
use byte_space.FileSystem.{FileSystem, fresh_super_blk, read_data_block, write_data_block}
use byte_space.FileSystem.Mount.{fresh-InRange}
use byte_space.FileSystem.Blocks.{HasLayout, read_data_block-write_data_block}
use byte_space.Inode.{
  owner_bytes, empty_inode, root_inode, read_inode, write_inode, new_file_system,
}
use byte_space.Inode.Bitmap.{alloc_inode, free_inode_from_bitmap}
use byte_space.Inode.Codec.{InRange}
use byte_space.Inode.Store.{read_inode-write_inode}
use byte_space.Inode.Boot.{first_boot, new_file_system_twice}
use byte_space.Inode.Bitmap.Laws.{
  AllocResult, FreeResult, alloc_inode-AllocResult, free_inode_from_bitmap-FreeResult,
}
use byte_space.Places.{
  virtual_to_place_relative, place_start, place_size, virtual_to_place_relative_inverse,
}
use byte_space.Falloc.{Alloc, opened}

-- The first eight bytes are full, but for bit 13.
abbrev bitmap : Buffer
bitmap i = if i == 1 then 223 else if ltb i 8 then 255 else 0

bitmap-IsBytes : IsBytes bitmap
bitmap-IsBytes i = ground arith

find_free_bit_13 : find_free_bit bitmap 16 ≡ some 13
unfolding find_free_bit find_word trailing_zeros
find_free_bit_13 = refl

find_free_bit-Found_example : Found bitmap 0 16 (find_free_bit bitmap 16)
find_free_bit-Found_example = find_free_bit-Found bitmap 16 bitmap-IsBytes

take_bit-TakeResult_example : TakeResult 16 bitmap (take_bit 16 bitmap)
take_bit-TakeResult_example = take_bit-TakeResult 16 bitmap bitmap-IsBytes

read_supr_blk-write_supr_blk_example :
    read_supr_blk (write_supr_blk_to_supr_buf bitmap fresh_super_blk) ≡ fresh_super_blk
read_supr_blk-write_supr_blk_example =
    read_supr_blk-write_supr_blk bitmap fresh_super_blk fresh-InRange

-- A disk of full size with the layout of a new one.
abbrev blank : FileSystem
blank = record {
  disk = record { len = disksize; byte = zeroed };
  super_blk = fresh_super_blk;
  fresh_format = false;
}

blank-HasLayout : HasLayout blank
blank-HasLayout = record { super = refl; full = refl }

read_data_block-write_data_block_example :
    ((write_data_block blank 3 blocksize bitmap).0 ≡ none)
    × (read_data_block (write_data_block blank 3 blocksize bitmap).1 3
        ≡ (if 3 == 3 then (slice bitmap 0 blocksize, none) else read_data_block blank 3))
read_data_block-write_data_block_example =
    read_data_block-write_data_block blank 3 3 bitmap blank-HasLayout (omega arith) (omega arith)

abbrev image : MemDisk
image = record { len = 0; byte = zeroed }

new_file_system_twice_example :
    (new_file_system false image 7 ≡ ok (first_boot image 7))
    × ((first_boot image 7).super_blk ≡ fresh_super_blk)
    × (new_file_system true (first_boot image 7).disk 9
        ≡ ok (record (first_boot image 7) { fresh_format = false }))
new_file_system_twice_example = new_file_system_twice image 7 9

root-InRange : InRange (root_inode 7)
unfolding owner_bytes
root-InRange = record {
  size = omega arith;
  f_type = omega arith;
  refs = omega arith;
  owner = refl;
  owner_mode = omega arith;
  other_mode = omega arith;
  direct = λ idx. omega arith;
  find = omega arith;
  sind = omega arith;
  tind = omega arith;
  created_at = omega arith;
  modified_at = omega arith;
}

read_inode-write_inode_example :
    ((write_inode (root_inode 7) 2 blank).0 ≡ ok tt)
    × (read_inode (write_inode (root_inode 7) 2 blank).1 empty_inode 2 ≡ (
        if 2 == 2
        then (
          none,
          record (root_inode 7) {
            dirty = empty_inode.dirty;
            num = 2;
            direct = λ k. if ltb k 12 then (root_inode 7).direct k else empty_inode.direct k;
          },
        )
        else read_inode blank empty_inode 2))
read_inode-write_inode_example =
    read_inode-write_inode blank (root_inode 7) empty_inode 2 2 root-InRange (omega arith)
      (omega arith)

alloc_inode-AllocResult_example : AllocResult blank (alloc_inode blank)
alloc_inode-AllocResult_example = alloc_inode-AllocResult blank blank-HasLayout (λ i. omega arith)

free_inode_from_bitmap-FreeResult_example : FreeResult blank 5 (free_inode_from_bitmap 5 blank)
free_inode_from_bitmap-FreeResult_example =
    free_inode_from_bitmap-FreeResult blank blank-HasLayout (λ i. omega arith) 5

virtual_to_place_relative_inverse_example :
    (place_start (virtual_to_place_relative 2059).1 + (virtual_to_place_relative 2059).0 ≡ 2059)
    × ((virtual_to_place_relative 2059).0 < place_size (virtual_to_place_relative 2059).1)
virtual_to_place_relative_inverse_example = virtual_to_place_relative_inverse 2059 (omega arith)

-- A file of no blocks on the blank disk, with some data blocks in use.
abbrev growing : Alloc
growing = record (opened blank empty_inode) { bitmap = bitmap }
