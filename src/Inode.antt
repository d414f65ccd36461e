-- ===== src/Inode.antt =====
-- computer/fs_inode.go: the inode, its owner field, and its 128 bytes on disk.
pub mod Codec
pub mod Store
pub mod Boot
pub mod Bitmap
use byte_space.Prelude.{
  ℕ, zero, suc, ◌+◌, ◌-◌, ◌*◌, ◌%◌, ◌^◌, ◌<◌, ◌≡◌, Bool, true, false, not, Option, none, some, List,
  [], ◌∷◌, ◌++◌, length, take, ◌==◌, ltb, if◌then◌else◌, pos, Error, unexpected_eof, short_write,
  Exec, Result, ok, err, panics, codes,
}
use byte_space.Bytes.{
  Buffer, zeroed, put_u8, put_u16, put_u32, put_u64, get_u16, get_u32, get_u64, copy_into, of_list,
  to_list,
}
use byte_space.Disk.{MemDisk, ReadAt, WriteAt, read_at, write_at}
use byte_space.Layout.{blocksize, inodesize}
use byte_space.FileSystem.{FileSystem, with_disk, mount}

abbrev pub s_ifreg : ℕ
s_ifreg = 0

abbrev pub s_ifdir : ℕ
s_ifdir = 1

-- `owner` is a `[14]byte`, `direct` a `[12]uint32`; `ops`, which `getInode` sets from `fType`, is
-- left out here.
pub record Inode : Type 0 where
  pub dirty : Bool
  pub size : ℕ
  pub f_type : ℕ
  pub refs : ℕ
  pub owner : List ℕ
  pub setuid : Bool
  pub owner_mode : ℕ
  pub other_mode : ℕ
  pub direct : ℕ → ℕ
  pub find : ℕ
  pub sind : ℕ
  pub tind : ℕ
  pub created_at : ℕ
  pub modified_at : ℕ
  pub num : ℕ

abbrev pub zeros : ℕ → List ℕ
zeros zero = []
zeros (suc n) = 0 ∷ zeros n

-- `inode{}`
abbrev pub empty_inode : Inode
empty_inode = record {
  dirty = false;
  size = 0;
  f_type = 0;
  refs = 0;
  owner = zeros 14;
  setuid = false;
  owner_mode = 0;
  other_mode = 0;
  direct = zeroed;
  find = 0;
  sind = 0;
  tind = 0;
  created_at = 0;
  modified_at = 0;
  num = 0;
}

-- The bytes before the first NUL.
unfoldable pub owner_string : List ℕ → List ℕ
owner_string [] = []
owner_string (c ∷ owner) = if c == 0 then [] else c ∷ owner_string owner

-- At most 13 bytes of the name, so that a NUL is left.
unfoldable pub owner_bytes : List ℕ → List ℕ
owner_bytes name =
    let capped = if ltb 13 (length name) then take 13 name else name in
    capped ++ zeros (14 - length capped)

unfoldable pub put_direct : ℕ → Buffer → (ℕ → ℕ) → Buffer
put_direct zero buf direct = buf
put_direct (suc idx) buf direct = put_u32 (put_direct idx buf direct) (24 + idx * 4) (direct idx)

-- `inodeBuf` of `writeInode`: the fields before the pointers, and then the rest.
unfoldable pub encode_fields : Inode → Buffer
encode_fields inode =
    let b = put_u32 zeroed 0 inode.size in
    let b = put_u8 b 4 inode.f_type in
    let b = put_u16 b 5 inode.refs in
    let b = copy_into b 7 14 (of_list inode.owner) in
    let b = put_u8 b 21 (if inode.setuid then 1 else 0) in
    let b = put_u8 b 22 inode.owner_mode in put_u8 b 23 inode.other_mode

unfoldable pub encode_inode : Inode → Buffer
encode_inode inode =
    let b = put_direct 12 (encode_fields inode) inode.direct in
    let b = put_u32 b 72 inode.find in
    let b = put_u32 b 76 inode.sind in
    let b = put_u32 b 80 inode.tind in
    let b = put_u64 b 84 inode.created_at in
    let b = put_u64 b 92 inode.modified_at in copy_into b 100 28 zeroed

-- What `readInode` sets in the inode that it is given.
unfoldable pub decode_inode : Buffer → Inode → Inode
decode_inode buf inode = record inode {
  size = get_u32 buf 0;
  f_type = buf 4;
  refs = get_u16 buf 5;
  owner = to_list buf 7 14;
  setuid = buf 21 == 1;
  owner_mode = buf 22;
  other_mode = buf 23;
  direct = λ idx. if ltb idx 12 then get_u32 buf (24 + idx * 4) else inode.direct idx;
  find = get_u32 buf 72;
  sind = get_u32 buf 76;
  tind = get_u32 buf 80;
  created_at = get_u64 buf 84;
  modified_at = get_u64 buf 92;
}

abbrev pub inode_offset : FileSystem → ℕ → ℕ
inode_offset fs idx = fs.super_blk.inode_table_start_block * blocksize + idx * inodesize

-- The checks on what `ReadAt` and `WriteAt` returned.
abbrev pub after_read : ReadAt → Inode → Option Error × Inode
after_read r numbered = elim r.error [
  | some e ↦ (some e, numbered)
  | none ↦
      if not (r.count == inodesize)
      then (some unexpected_eof, numbered)
      else (none, decode_inode r.out numbered)
]

abbrev pub after_write : WriteAt → FileSystem → Result (Unit {0}) × FileSystem
after_write w fs = elim w.error [
  | some e ↦ (err e, with_disk fs w.disk)
  | none ↦
      if not (w.count == inodesize)
      then (err short_write, with_disk fs w.disk)
      else (ok tt, with_disk fs w.disk)
]

-- The error, and the inode, which has its number also after an error.
unfoldable pub read_inode : FileSystem → Inode → ℕ → Option Error × Inode
read_inode fs inode idx =
    after_read (read_at fs.disk zeroed inodesize (pos (inode_offset fs idx)))
      (record inode { num = idx })

unfoldable pub write_inode : Inode → ℕ → Exec FileSystem (Unit {0})
write_inode inode idx fs =
    after_write (write_at fs.disk (encode_inode inode) inodesize (pos (inode_offset fs idx))) fs

-- The root directory's inode on a fresh disk.
abbrev pub root_inode : ℕ → Inode
root_inode now = record empty_inode {
  f_type = s_ifdir;
  owner = owner_bytes (codes "root");
  owner_mode = 7;
  other_mode = 5;
  created_at = now;
  modified_at = now;
}

-- The root inode is written after a format; the error of the write is discarded.
abbrev pub after_mount : ℕ → Result FileSystem → Result FileSystem
after_mount now (ok fs) =
    if fs.fresh_format then ok (write_inode (root_inode now) 2 fs).1 else ok fs
after_mount now (err e) = err e
after_mount now panics = panics

-- `NewFileSystem`; `now` is the clock.
unfoldable pub new_file_system : Bool → MemDisk → ℕ → Result FileSystem
new_file_system found image now = after_mount now (mount found image)
