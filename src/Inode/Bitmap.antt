-- ===== src/Inode/Bitmap.antt =====
-- computer/fs_inode.go: `AllocInode` and `FreeInodeFromBitmap`. Both hold the bitmap's mutex.
pub mod Laws
use mathlib.Core.Option
use byte_space.Prelude.{
  ℕ, ◌+◌, ◌*◌, ◌/◌, ◌%◌, ◌^◌, Option, none, some, ◌==◌, leb, if◌then◌else◌, pos, Error,
  no_space_left, inum_out_of_range, inum_already_free, Result, ok, err, panics, Exec, bit_and,
}
use byte_space.Bytes.{Buffer, zeroed}
use byte_space.Disk.{MemDisk, ReadAt, WriteAt, read_at, write_at}
use byte_space.Layout.{blocksize, inodes}
use byte_space.Bitmap.{find_free_bit, set_bit, clear_bit}
use byte_space.FileSystem.{FileSystem, with_disk}

-- The offset is a product of `uint32`.
abbrev pub inode_bitmap_offset : FileSystem → ℕ
inode_bitmap_offset fs = fs.super_blk.inode_bitmap_start_block * blocksize % 2 ^ 32

abbrev pub read_bitmap : FileSystem → ReadAt
read_bitmap fs = read_at fs.disk zeroed (inodes / 8) (pos (inode_bitmap_offset fs))

-- The bitmap goes back to the disk; `result` is what the call returns if that succeeds.
abbrev pub after_bitmap : {A : Type 0} → A → FileSystem → WriteAt → Result A × FileSystem
after_bitmap result fs w = elim w.error [
  | some e ↦ (err e, with_disk fs w.disk)
  | none ↦ (ok result, with_disk fs w.disk)
]

abbrev pub write_bitmap : {A : Type 0} → Option Buffer → A → Exec FileSystem A
write_bitmap none result fs = (panics, fs)
write_bitmap (some b) result fs =
    after_bitmap result fs (write_at fs.disk b (inodes / 8) (pos (inode_bitmap_offset fs)))

abbrev pub alloc_from : Option ℕ → Buffer → Exec FileSystem ℕ
alloc_from none b fs = (err no_space_left, fs)
alloc_from (some idx) b fs = write_bitmap (set_bit (inodes / 8) b idx) idx fs

unfoldable pub alloc_inode : Exec FileSystem ℕ
alloc_inode fs = elim (read_bitmap fs).error [
  | some e ↦ (err e, fs)
  | none ↦ alloc_from (find_free_bit (read_bitmap fs).out (inodes / 8)) (read_bitmap fs).out fs
]

unfoldable pub free_inode_from_bitmap : ℕ → Exec FileSystem (Unit {0})
free_inode_from_bitmap inum fs =
    if leb inodes inum then (err inum_out_of_range, fs) else elim (read_bitmap fs).error [
      | some e ↦ (err e, fs)
      | none ↦
          if bit_and ((read_bitmap fs).out (inum / 8)) (2 ^ (inum % 8)) == 0
          then (err inum_already_free, fs)
          else write_bitmap (clear_bit (inodes / 8) (read_bitmap fs).out inum) tt fs
    ]
