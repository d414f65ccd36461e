-- ===== src/Inode/Boot.antt =====
-- A machine's first boot and the ones after it.
use byte_space.Prelude.{ℕ, ◌≡◌, ◌∙◌, ap, inl, arith, true, false, pos, ok}
use byte_space.Disk.{MemDisk, truncate, overwrite}
use byte_space.Disk.Laws.{len-truncate, byte-overwrite_outside}
use byte_space.Layout.{disksize}
use byte_space.FileSystem.{FileSystem, fresh_super_blk, format, mount}
use byte_space.FileSystem.Mount.{len-format, header-format, mount_fresh, mount_absent}
use byte_space.Inode.{root_inode, write_inode, new_file_system, after_mount, encode_inode}
use byte_space.Inode.Store.{write_inode_fits, stored}

abbrev formatted : MemDisk → FileSystem
formatted image = record {
  disk = format (truncate image (pos disksize)).1;
  super_blk = fresh_super_blk;
  fresh_format = true;
}

-- The filesystem of the first boot.
abbrev pub first_boot : MemDisk → ℕ → FileSystem
first_boot image now = (write_inode (root_inode now) 2 (formatted image)).1

len_formatted : (image : MemDisk) → (formatted image).disk.len ≡ disksize
len_formatted image = len-format (truncate image (pos disksize)).1 ∙ len-truncate image disksize

first_boot-stored :
    (image : MemDisk) (now : ℕ) → first_boot image now ≡ stored (formatted image) (root_inode now) 2
first_boot-stored image now =
    ap (λ r. r.1)
      (write_inode_fits (formatted image) (root_inode now) 2 (rw len_formatted (omega arith)))

remount :
    (image : MemDisk) (now : ℕ)
    → mount true (stored (formatted image) (root_inode now) 2).disk
      ≡ ok (record (stored (formatted image) (root_inode now) 2) { fresh_format = false })
remount image now =
    mount_fresh (stored (formatted image) (root_inode now) 2).disk
      (unfold overwrite in len_formatted image)
      λ i h.
        byte-overwrite_outside (formatted image).disk (encode_inode (root_inode now)) 128 8448 i
          (inl (omega arith))
        ∙ header-format (truncate image (pos disksize)).1 (len-truncate image disksize) i h

-- Whatever bytes the host gives for a new image, `NewFileSystem` formats it, and mounting the
-- disk that it leaves at any later time gives the same filesystem: the disk is not formatted or
-- changed again, and the superblock read back is the one that was cached.
pub new_file_system_twice :
    (image : MemDisk) (now later : ℕ)
    → (new_file_system false image now ≡ ok (first_boot image now))
      × ((first_boot image now).super_blk ≡ fresh_super_blk)
      × (new_file_system true (first_boot image now).disk later
          ≡ ok (record (first_boot image now) { fresh_format = false }))
unfolding new_file_system
new_file_system_twice image now later = (
  ap (after_mount now) (mount_absent image),
  rw (first_boot-stored image now),
  rw (first_boot-stored image now) (ap (after_mount later) (remount image now)),
)
