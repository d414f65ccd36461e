-- ===== src/SuperBlock.antt =====
-- computer/fs_superblock.go, and the part of `NewFileSystem` (computer/fs.go) that reads the
-- superblock back from the first block of the disk.
pub mod RoundTrip
use byte_space.Prelude.{ℕ, ◌+◌, ◌<◌, ◌^◌, List, length, ◌≡◌}
use byte_space.Bytes.{Buffer, put_u32, get_u32, copy_into, of_list, to_list}
use byte_space.Layout.{magiclen}

pub record SuperBlock : Type 0 where
  pub magic : List ℕ
  pub version : ℕ
  pub block_size : ℕ
  pub inode_count : ℕ
  pub inode_size : ℕ
  pub inode_bitmap_start_block : ℕ
  pub inode_table_start_block : ℕ
  pub data_block_count : ℕ
  pub data_blocks_start_block : ℕ
  pub data_bitmap_start_block : ℕ
  pub total_blocks : ℕ

unfoldable pub write_supr_blk_to_supr_buf : Buffer → SuperBlock → Buffer
write_supr_blk_to_supr_buf supr_buf s =
    let b = copy_into supr_buf 0 8 (of_list s.magic) in
    let b = put_u32 b 8 s.version in
    let b = put_u32 b 12 s.block_size in
    let b = put_u32 b 16 s.inode_count in
    let b = put_u32 b 20 s.inode_size in
    let b = put_u32 b 24 s.inode_table_start_block in
    let b = put_u32 b 28 s.inode_bitmap_start_block in
    let b = put_u32 b 32 s.data_block_count in
    let b = put_u32 b 36 s.data_blocks_start_block in
    let b = put_u32 b 40 s.data_bitmap_start_block in put_u32 b 44 s.total_blocks

-- The header, decoded field by field.
unfoldable pub read_supr_blk : Buffer → SuperBlock
read_supr_blk header_buf = record {
  magic = to_list header_buf 0 magiclen;
  version = get_u32 header_buf 8;
  block_size = get_u32 header_buf 12;
  inode_count = get_u32 header_buf 16;
  inode_size = get_u32 header_buf 20;
  inode_table_start_block = get_u32 header_buf 24;
  inode_bitmap_start_block = get_u32 header_buf 28;
  data_block_count = get_u32 header_buf 32;
  data_blocks_start_block = get_u32 header_buf 36;
  data_bitmap_start_block = get_u32 header_buf 40;
  total_blocks = get_u32 header_buf 44;
}

-- The values that the Go struct can hold.
pub record InRange (s : SuperBlock) : Type 0 where
  pub magic : length s.magic ≡ magiclen
  pub version : s.version < 2 ^ 32
  pub block_size : s.block_size < 2 ^ 32
  pub inode_count : s.inode_count < 2 ^ 32
  pub inode_size : s.inode_size < 2 ^ 32
  pub inode_bitmap_start_block : s.inode_bitmap_start_block < 2 ^ 32
  pub inode_table_start_block : s.inode_table_start_block < 2 ^ 32
  pub data_block_count : s.data_block_count < 2 ^ 32
  pub data_blocks_start_block : s.data_blocks_start_block < 2 ^ 32
  pub data_bitmap_start_block : s.data_bitmap_start_block < 2 ^ 32
  pub total_blocks : s.total_blocks < 2 ^ 32
