-- ===== src/FileSystem/Blocks.antt =====
-- Data blocks on a disk of full size with the fresh layout: a block written is read back, and no
-- other block changes.
use byte_space.Prelude.{
  Bool-cases, inl, inr, ◌==◌, ==→eq, if◌then◌else◌, ℕ, ◌+◌, ◌*◌, ◌%◌, ◌^◌, ◌<◌, ◌≤◌, ◌≡◌, ◌≢◌, inl,
  inr, refl, ap, sym, ◌∙◌, arith, none, some, leb, ◌==◌, if◌then◌else◌, invalid_data_blk_idx, false,
  true,
}
use byte_space.Bytes.{Buffer, slice, zeroed}
use byte_space.Disk.{overwrite}
use byte_space.Disk.Laws.{read_at_fits, write_at_fits, byte-overwrite_self, byte-overwrite_ne}
use byte_space.Layout.{blocksize, disksize, blocks}
use byte_space.FileSystem.{
  FileSystem, with_disk, fresh_super_blk, read_block, write_block, read_data_block,
  write_data_block,
}

pub record HasLayout (fs : FileSystem) : Type 0 where
  pub super : fs.super_blk ≡ fresh_super_blk
  pub full : fs.disk.len ≡ disksize

-- The byte at which a data block starts.
abbrev pub data_offset : ℕ → ℕ
data_offset idx = (idx + 255) * blocksize

module _ (fs : FileSystem) (idx : ℕ) (h : HasLayout fs) (lt : idx < blocks) where
  idx_inside : leb fs.super_blk.data_block_count idx ≡ false
  idx_inside = ground (arith, ap (λ s. s.data_block_count) h.super)

  block_num : (idx + fs.super_blk.data_blocks_start_block) % 2 ^ 32 ≡ idx + 255
  block_num = omega (arith, ap (λ s. s.data_blocks_start_block) h.super)

  block_inside : leb fs.super_blk.total_blocks (idx + 255) ≡ false
  block_inside = ground (arith, ap (λ s. s.total_blocks) h.super)

  pub read_data_block_fits :
      read_data_block fs idx ≡ (slice fs.disk.byte (data_offset idx) blocksize, none)
  unfolding read_data_block read_block
  read_data_block_fits =
      rw (idx_inside, block_num, block_inside)
        (ap (λ r. (r.out, r.error))
          (read_at_fits fs.disk blocksize (data_offset idx) (omega arith) (omega (arith, h.full))))

  abbrev pub with_block : Buffer → FileSystem
  with_block b = with_disk fs (overwrite fs.disk b blocksize (data_offset idx))

  pub write_data_block_fits :
      (b : Buffer) → write_data_block fs idx blocksize b ≡ (none, with_block b)
  unfolding write_data_block write_block
  write_data_block_fits b =
      rw (idx_inside, block_num, block_inside)
        (ap (λ w. (w.error, with_disk fs w.disk))
          (write_at_fits fs.disk b blocksize (data_offset idx) (omega arith)
            (omega (arith, h.full))))

  pub with_block-HasLayout : (b : Buffer) → HasLayout (with_block b)
  unfolding overwrite
  with_block-HasLayout b = record { super = h.super; full = h.full }

module _ (fs : FileSystem) (idx : ℕ) (h : HasLayout fs) (lt : idx < blocks) (b : Buffer) where
  pub read_data_block-with_block_self :
      read_data_block (with_block fs idx h lt b) idx ≡ (slice b 0 blocksize, none)
  read_data_block-with_block_self =
      read_data_block_fits (with_block fs idx h lt b) idx (with_block-HasLayout fs idx h lt b) lt
      ∙ ap (λ x. (x, none)) (byte-overwrite_self fs.disk b blocksize (data_offset idx))

  pub read_data_block-with_block_ne :
      (other : ℕ)
      → other < blocks
      → other ≢ idx
      → read_data_block (with_block fs idx h lt b) other ≡ read_data_block fs other
  read_data_block-with_block_ne other lt' ne =
      read_data_block_fits (with_block fs idx h lt b) other (with_block-HasLayout fs idx h lt b) lt'
      ∙ ap (λ x. (x, none))
          (byte-overwrite_ne fs.disk b blocksize (data_offset idx) blocksize (data_offset other)
            (omega arith))
      ∙ sym (read_data_block_fits fs other h lt')

-- On a disk of full size with the fresh layout a data block that is written is read back, and every
-- other data block reads as before.
pub read_data_block-write_data_block :
    (fs : FileSystem) (idx other : ℕ) (b : Buffer)
    → HasLayout fs
    → idx < blocks
    → other < blocks
    → ((write_data_block fs idx blocksize b).0 ≡ none)
      × (read_data_block (write_data_block fs idx blocksize b).1 other
          ≡ (if other == idx then (slice b 0 blocksize, none) else read_data_block fs other))
read_data_block-write_data_block fs idx other b h lt lt' =
    rw (write_data_block_fits fs idx h lt b) (
      refl,
      elim (Bool-cases (other == idx)) [
        | inl e ↦ rw (e, ==→eq other idx e) (read_data_block-with_block_self fs idx h lt b)
        | inr e ↦ rw e (
            read_data_block-with_block_ne fs idx h lt b other lt' (λ same. ground (arith, e, same)))
      ],
    )

-- A block number past the data region is refused by both calls, and nothing is written.
pub data_block_outside :
    (fs : FileSystem) (idx len : ℕ) (b : Buffer)
    → fs.super_blk.data_block_count ≤ idx
    → (read_data_block fs idx ≡ (zeroed, some invalid_data_blk_idx))
      × (write_data_block fs idx len b ≡ (some invalid_data_blk_idx, fs))
unfolding read_data_block write_data_block
data_block_outside fs idx len b h =
    let e : leb fs.super_blk.data_block_count idx ≡ true = ground arith in (rw e, rw e)
