-- ===== src/FileSystem.antt =====
-- computer/fs.go: `FileSystem` over a disk image, formatting and mounting, and the block calls.
-- A `FileSystem` is used by one goroutine at a time (its mutexes are held over whole operations),
-- so an operation is a function from the state before to the state after.
pub mod Mount
pub mod Blocks
use byte_space.Prelude.{
  ℕ, ◌+◌, ◌-◌, ◌*◌, ◌/◌, ◌%◌, ◌^◌, ◌≡◌, Bool, true, false, ◌&&◌, not, Option, none, some, leb, ltb,
  ◌==◌, if◌then◌else◌, pos, Error, invalid_block_num, invalid_data_blk_idx, bad_length, eq_bytes,
  codes, Result, ok, err, panics, Exec, or_else,
}
use byte_space.Bytes.{Buffer, zeroed, put_u8, slice}
use byte_space.Disk.{MemDisk, ReadAt, WriteAt, read_at, write_at, truncate}
use byte_space.Layout.{latest_version, inodesize, blocksize, disksize, inodes, blocks, totalblocks}
use byte_space.SuperBlock.{SuperBlock, write_supr_blk_to_supr_buf, read_supr_blk}

pub record FileSystem : Type 0 where
  pub disk : MemDisk
  pub super_blk : SuperBlock
  pub fresh_format : Bool

abbrev pub with_disk : FileSystem → MemDisk → FileSystem
with_disk fs d = record fs { disk = d }

-- The block read, and the error; Go returns both.
unfoldable pub read_block : FileSystem → ℕ → Buffer × Option Error
read_block fs block_num =
    if leb fs.super_blk.total_blocks block_num
    then (zeroed, some invalid_block_num)
    else let r = read_at fs.disk zeroed blocksize (pos (block_num * blocksize)) in (r.out, r.error)

-- `data` has `len` bytes.
unfoldable pub write_block : FileSystem → ℕ → ℕ → Buffer → Option Error × FileSystem
write_block fs block_num len data' =
    if leb fs.super_blk.total_blocks block_num
    then (some invalid_block_num, fs)
    else if not (len == blocksize)
    then (some bad_length, fs)
    else let w = write_at fs.disk data' len (pos (block_num * blocksize)) in
      (w.error, with_disk fs w.disk)

-- Data blocks are numbered from `dataBlocksStartBlock`; the sum is one of `uint32`.
unfoldable pub read_data_block : FileSystem → ℕ → Buffer × Option Error
read_data_block fs data_blk_idx =
    if leb fs.super_blk.data_block_count data_blk_idx
    then (zeroed, some invalid_data_blk_idx)
    else read_block fs ((data_blk_idx + fs.super_blk.data_blocks_start_block) % 2 ^ 32)

unfoldable pub write_data_block : FileSystem → ℕ → ℕ → Buffer → Option Error × FileSystem
write_data_block fs data_blk_idx len data' =
    if leb fs.super_blk.data_block_count data_blk_idx
    then (some invalid_data_blk_idx, fs)
    else write_block fs ((data_blk_idx + fs.super_blk.data_blocks_start_block) % 2 ^ 32) len data'

-- The superblock of a fresh disk.
abbrev pub fresh_super_blk : SuperBlock
fresh_super_blk = record {
  magic = codes "BS-EXTFS";
  version = latest_version;
  block_size = blocksize;
  inode_count = inodes;
  inode_size = inodesize;
  inode_bitmap_start_block = 1;
  inode_table_start_block = 2;
  data_block_count = blocks;
  data_blocks_start_block = 255;
  data_bitmap_start_block = 254;
  total_blocks = totalblocks;
}

-- The three lowest inodes are taken; inode 2 is the root.
abbrev pub fresh_inode_bitmap : Buffer
fresh_inode_bitmap = put_u8 zeroed 0 7

-- Bits past the last data block are set, so that a search does not find them.
unfoldable pub fresh_data_bitmap : Buffer
fresh_data_bitmap idx = if leb (blocks / 8) idx && ltb idx blocksize then 0xff else 0

-- The writes of the `!isInitialized` branch; their results are discarded.
unfoldable pub format : MemDisk → MemDisk
format disk =
    let s = fresh_super_blk in
    let super_buf = write_supr_blk_to_supr_buf zeroed s in
    let d = (write_at disk super_buf blocksize (pos 0)).disk in
    let d =
      (write_at d fresh_inode_bitmap blocksize
        (pos (blocksize * s.inode_bitmap_start_block))).disk in
    let d =
      (write_at d zeroed (blocksize * 252) (pos (blocksize * s.inode_table_start_block))).disk in
    let d =
      (write_at d fresh_data_bitmap blocksize (pos (s.data_bitmap_start_block * blocksize))).disk in
    let d =
      (write_at d fresh_data_bitmap blocksize (pos (s.data_bitmap_start_block * blocksize))).disk in
    let d =
      (write_at d zeroed (blocksize * s.data_block_count)
        (pos (s.data_blocks_start_block * blocksize))).disk in
    (write_at d (λ idx. 103) blocksize
      (pos ((s.data_blocks_start_block + blocks) * blocksize))).disk

-- Whether the header is that of a disk of this version.
unfoldable pub is_initialized : Bool → SuperBlock → Bool
is_initialized found header =
    found && eq_bytes header.magic (codes "BS-EXTFS") && (header.version == latest_version)

-- The superblock that was read, or a format.
abbrev pub mount_header : Bool → MemDisk → ReadAt → Result FileSystem
mount_header found disk header = elim header.error [
  | some e ↦ panics
  | none ↦
      if is_initialized found (read_supr_blk header.out)
      then ok (record { disk = disk; super_blk = read_supr_blk header.out; fresh_format = false })
      else ok (record { disk = format disk; super_blk = fresh_super_blk; fresh_format = true })
]

abbrev pub mount_disk : Bool → Option Error × MemDisk → Result FileSystem
mount_disk found (some e, disk) = panics
mount_disk found (none, disk) = mount_header found disk (read_at disk zeroed blocksize (pos 0))

-- `NewFileSystem` up to the root inode: `found` says whether the image was there, and `image` is
-- what the host's `OpenFile` gave. A failure to grow or read the image panics.
unfoldable pub mount : Bool → MemDisk → Result FileSystem
mount found image = mount_disk found (truncate image (pos disksize))
