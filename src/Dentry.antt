-- ===== src/Dentry.antt =====
-- computer/fs_dir.go: directory entries of 64 bytes in the blocks of a directory.
pub mod Slots
pub mod Insert
pub mod Remove
use byte_space.Prelude.{
  ℕ, zero, suc, ◌+◌, ◌-◌, ◌%◌, ◌<◌, ◌≤◌, ◌≡◌, Bool, true, false, ◌||◌, not, Option, none, some,
  ◌==◌, ltb, leb, if◌then◌else◌, List, [], ◌∷◌, length, Result, ok, err, panics, Error,
  name_too_long, invalid_inum, eq_bytes,
}
use byte_space.Bytes.{Buffer, zeroed, put_u8, put_u32, get_u32, copy_into, of_list, to_list}
use byte_space.Layout.{blocksize}

pub record DirEntry : Type 0 where
  pub inum : ℕ
  pub name : List ℕ

unfoldable pub encode_dir_entry : DirEntry → Result Buffer
encode_dir_entry dentry =
    if ltb 55 (length dentry.name)
    then err name_too_long
    else if dentry.inum == 0
    then err invalid_inum
    else let b = put_u32 zeroed 0 dentry.inum in
      let b = put_u8 b 4 (length dentry.name) in
      ok (copy_into b 8 (length dentry.name) (of_list dentry.name))

-- `entry[8 : nameLen+8]` of the slot at `i`: the end is a sum of `uint8`, and the slice reaches to
-- the end of the block at most.
unfoldable pub decode_name : Buffer → ℕ → Result (List ℕ)
decode_name block i =
    let end = (block (i + 4) + 8) % 256 in
    if ltb end 8 || ltb (blocksize - i) end then panics else ok (to_list block (i + 8) (end - 8))

abbrev pub add_entry : ℕ → Result (List ℕ) → Result (List DirEntry) → Result (List DirEntry)
add_entry inum (ok name) (ok rest) = ok (record { inum = inum; name = name } ∷ rest)
add_entry inum (ok name) r = r
add_entry inum (err e) r = err e
add_entry inum panics r = panics

-- The slots from byte `i` on, as many as `rounds`.
unfoldable pub decode_slots : ℕ → Buffer → ℕ → Result (List DirEntry)
decode_slots zero block i = ok []
decode_slots (suc rounds) block i =
    let rest = decode_slots rounds block (i + 64) in
    if get_u32 block i == 0 then rest else add_entry (get_u32 block i) (decode_name block i) rest

unfoldable pub decode_dir_entries : Buffer → Result (List DirEntry)
decode_dir_entries block = decode_slots 64 block 0

-- The first free slot of a block.
unfoldable pub free_slot : ℕ → Buffer → ℕ → Option ℕ
free_slot zero block i = none
free_slot (suc rounds) block i =
    let rest = free_slot rounds block (i + 64) in if get_u32 block i == 0 then some i else rest

-- The first slot that holds `name`. `data[i+8 : i+8+int(nameLen)]` panics past the block.
unfoldable pub named_slot : List ℕ → ℕ → Buffer → ℕ → Result (Option ℕ)
named_slot name zero block i = ok none
named_slot name (suc rounds) block i =
    let rest = named_slot name rounds block (i + 64) in
    if get_u32 block i == 0
    then rest
    else if ltb blocksize (i + 8 + block (i + 4))
    then panics
    else if not (eq_bytes (to_list block (i + 8) (block (i + 4))) name)
    then rest
    else ok (some i)

-- The block with an entry in the slot at `i`, and with that slot cleared.
abbrev pub fill_slot : Buffer → ℕ → Buffer → Buffer
fill_slot block i encoded = copy_into block i 64 encoded

abbrev pub clear_slot : Buffer → ℕ → Buffer
clear_slot block i = copy_into block i 64 zeroed
