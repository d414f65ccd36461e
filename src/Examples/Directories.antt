-- ===== src/Examples/Directories.antt =====
-- The directory blocks of computer/fs_dir.go at concrete values.
use byte_space.Prelude.{◌≤◌, ℕ, zero, suc, ◌+◌, ◌≡◌, refl, arith, ok, codes, false, [], ◌∷◌}
use byte_space.Bytes.{Buffer, zeroed, copy_into, put_u8, put_u32, of_list, to_list}
use byte_space.Dentry.{DirEntry, encode_dir_entry, free_slot, named_slot, fill_slot}
use byte_space.Dentry.Slots.{IsEncoded, encode_dir_entry-IsEncoded}
use byte_space.Dentry.Insert.{SlotsFit, SlotFilled, free_slot-SlotFilled}
use byte_space.Dentry.Remove.{NamedResult, named_slot-NamedResult}
use byte_space.Layout.{disksize}
use byte_space.FileSystem.{FileSystem, fresh_super_blk}
use byte_space.FileSystem.Blocks.{HasLayout}
use byte_space.Inode.{Inode, empty_inode}
use byte_space.Falloc.{blocks_for}
use byte_space.Dentry.{decode_dir_entries, decode_slots, decode_name}
use byte_space.Directory.{read_all, try_insert, try_remove}
use byte_space.Directory.Remove.{RemoveResult, try_remove-RemoveResult}
use byte_space.Directory.Entries.{block_of, HasEntries, all_entries, read_all-all_entries}
use byte_space.Directory.Insert.{AllFit, InsertResult, try_insert-InsertResult}

abbrev home : DirEntry
home = record { inum = 3; name = codes "home" }

encode_dir_entry-IsEncoded_example :
    (encoded : Buffer) × (encode_dir_entry home ≡ ok encoded) × IsEncoded home encoded
encode_dir_entry-IsEncoded_example =
    encode_dir_entry-IsEncoded home (omega arith) (omega arith) (omega arith)

home-IsEncoded : (encoded : Buffer) × (encode_dir_entry home ≡ ok encoded) × IsEncoded home encoded
home-IsEncoded = encode_dir_entry-IsEncoded home (omega arith) (omega arith) (omega arith)

abbrev encoded_home : Buffer
encoded_home = home-IsEncoded.0

zeroed-SlotsFit : (rounds i : ℕ) → SlotsFit rounds zeroed i
zeroed-SlotsFit zero i = tt
zeroed-SlotsFit (suc rounds) i = (λ ne. omega arith, zeroed-SlotsFit rounds (i + 64))

home-SlotFilled : SlotFilled home 64 zeroed (fill_slot zeroed 0 encoded_home) 0
home-SlotFilled =
    free_slot-SlotFilled home encoded_home 64 zeroed 0 0 home-IsEncoded.2 (omega arith)
      (zeroed-SlotsFit 64 0) (unfold free_slot in refl)

free_slot-SlotFilled_example : SlotFilled home 64 zeroed (fill_slot zeroed 0 encoded_home) 0
free_slot-SlotFilled_example =
    free_slot-SlotFilled home encoded_home 64 zeroed 0 0 home-IsEncoded.2 (omega arith)
      (zeroed-SlotsFit 64 0) (unfold free_slot in refl)

named_slot-NamedResult_example :
    NamedResult
      (codes "home")
      64
      (fill_slot zeroed 0 encoded_home)
      0
      (named_slot (codes "home") 64 (fill_slot zeroed 0 encoded_home) 0)
named_slot-NamedResult_example =
    named_slot-NamedResult (codes "home") 64 (fill_slot zeroed 0 encoded_home) 0 (omega arith)
      home-SlotFilled.fit

abbrev home_bytes : Buffer
home_bytes = copy_into (put_u8 (put_u32 zeroed 0 3) 4 4) 8 4 (of_list (codes "home"))

-- A directory of one block, with one entry, on a disk that is otherwise zero.
abbrev pub home_disk : FileSystem
home_disk = record {
  disk = record { len = disksize; byte = copy_into zeroed 1044480 64 home_bytes };
  super_blk = fresh_super_blk;
  fresh_format = false;
}

abbrev pub directory : Inode
directory = record empty_inode { size = 4096; f_type = 1 }

home_disk-HasLayout : HasLayout home_disk
home_disk-HasLayout = record { super = refl; full = refl }

directory-HasEntries : HasEntries home_disk directory (λ v. home ∷ [])
directory-HasEntries = record {
  layout = home_disk-HasLayout;
  small = omega arith;
  pointers = λ v. omega arith;
  decoded = λ v. unfold decode_dir_entries decode_slots decode_name to_list of_list in refl;
}

read_all-all_entries_example :
    read_all directory home_disk
    ≡ (ok (all_entries (λ v. home ∷ []) (blocks_for 4096) 0), home_disk)
read_all-all_entries_example =
    read_all-all_entries home_disk directory (λ v. home ∷ []) directory-HasEntries

-- Behind its first slot the block is zero.
home-SlotsFit : (rounds i v : ℕ) → 64 ≤ i → SlotsFit rounds (block_of home_disk directory v) i
home-SlotsFit zero i v le = tt
home-SlotsFit (suc rounds) i v le =
    (λ ne. absurd (ne (ground arith)), home-SlotsFit rounds (i + 64) v (omega arith))

directory-AllFit : AllFit home_disk directory
directory-AllFit = record { fit = λ v. (λ ne. omega arith, home-SlotsFit 63 64 v (omega arith)) }

try_remove-RemoveResult_example :
    RemoveResult home_disk directory
      (codes "home")
      0
      (blocks_for 4096)
      (try_remove directory (codes "home") home_disk)
try_remove-RemoveResult_example =
    try_remove-RemoveResult home_disk directory (codes "home")
      (record { layout = home_disk-HasLayout; small = omega arith; pointers = λ v. omega arith })
      directory-AllFit

try_insert-InsertResult_example :
    InsertResult home_disk directory home encoded_home 0
      (blocks_for 4096)
      (try_insert directory encoded_home home_disk)
try_insert-InsertResult_example =
    try_insert-InsertResult home_disk directory home encoded_home home-IsEncoded.2
      (record { layout = home_disk-HasLayout; small = omega arith; pointers = λ v. omega arith })
      directory-AllFit
