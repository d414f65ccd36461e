-- ===== src/SuperBlock/RoundTrip.antt =====
-- The superblock survives its encoding.
use byte_space.Prelude.{length, ◌≡◌, arith}
use byte_space.Bytes.{Buffer, to_list}
use byte_space.Bytes.Laws.{to_list-eq}
use byte_space.SuperBlock.{SuperBlock, InRange, write_supr_blk_to_supr_buf, read_supr_blk}

module _ (buf : Buffer) (s : SuperBlock) (r : InRange s) where
  magic_back : to_list (write_supr_blk_to_supr_buf buf s) 0 (length s.magic) ≡ s.magic
  unfolding write_supr_blk_to_supr_buf
  magic_back =
      to_list-eq s.magic (write_supr_blk_to_supr_buf buf s) 0 λ i lt. ground (arith, r.magic)

  -- A superblock whose fields fit their types is decoded from what was encoded, whatever the
  -- buffer held before.
  pub read_supr_blk-write_supr_blk : read_supr_blk (write_supr_blk_to_supr_buf buf s) ≡ s
  unfolding read_supr_blk write_supr_blk_to_supr_buf
  read_supr_blk-write_supr_blk = ground (arith, magic_back, r.magic)
