-- ===== src/FileSystem/Mount.antt =====
-- A disk that was formatted is mounted again with the same superblock and nothing formatted.
use byte_space.Prelude.{
  ℕ, ◌<◌, ◌≡◌, refl, ap, ◌∙◌, arith, fun_ext, true, false, none, pos, ok, if◌then◌else◌, eq_bytes,
}
use byte_space.Bytes.{slice, zeroed}
use byte_space.Disk.{MemDisk, read_at, truncate, overwrite}
use byte_space.Disk.Laws.{
  byte-overwrite_inside, truncate_same, truncate_error, write_at_fits, read_at_fits, len-write_at,
  byte-write_at_below, len-truncate,
}
use byte_space.Bytes.Laws.{slice_ext}
use byte_space.Layout.{blocksize, disksize}
use byte_space.SuperBlock.{InRange, write_supr_blk_to_supr_buf}
use byte_space.SuperBlock.RoundTrip.{read_supr_blk-write_supr_blk}
use byte_space.FileSystem.{fresh_super_blk, format, mount, mount_disk, mount_header, is_initialized}

pub len-format : (d : MemDisk) → (format d).len ≡ d.len
unfolding format
len-format d = simp len-write_at

-- The first block holds the superblock.
pub header-format :
    (d : MemDisk)
    → d.len ≡ disksize
    → (i : ℕ) → i < blocksize
    → (format d).byte i ≡ write_supr_blk_to_supr_buf zeroed fresh_super_blk i
unfolding format
header-format d full i h =
    byte-write_at_below _ _ _ _ i (omega arith)
    ∙ byte-write_at_below _ _ _ _ i (omega arith)
    ∙ byte-write_at_below _ _ _ _ i (omega arith)
    ∙ byte-write_at_below _ _ _ _ i (omega arith)
    ∙ byte-write_at_below _ _ _ _ i (omega arith)
    ∙ byte-write_at_below _ _ _ _ i (omega arith)
    ∙ ap (λ w. w.disk.byte i)
        (write_at_fits d (write_supr_blk_to_supr_buf zeroed fresh_super_blk) blocksize 0
          (omega arith) (omega arith))
    ∙ ap (overwrite d (write_supr_blk_to_supr_buf zeroed fresh_super_blk) blocksize 0).byte
        (omega arith)
    ∙ byte-overwrite_inside d (write_supr_blk_to_supr_buf zeroed fresh_super_blk) blocksize 0 i h

super_buf_fits :
    slice (write_supr_blk_to_supr_buf zeroed fresh_super_blk) 0 blocksize
    ≡ write_supr_blk_to_supr_buf zeroed fresh_super_blk
unfolding write_supr_blk_to_supr_buf
super_buf_fits = fun_ext λ i. ground arith

pub fresh-InRange : InRange fresh_super_blk
fresh-InRange = omega arith

header_read :
    (d : MemDisk)
    → d.len ≡ disksize
    → ((i : ℕ) → i < blocksize → d.byte i ≡ write_supr_blk_to_supr_buf zeroed fresh_super_blk i)
    → read_at d zeroed blocksize (pos 0) ≡ record {
      out = write_supr_blk_to_supr_buf zeroed fresh_super_blk;
      count = blocksize;
      error = none;
    }
header_read d full header =
    read_at_fits d blocksize 0 (omega arith) (omega arith)
    ∙ ap (λ b. record { out = b; count = blocksize; error = none })
        (slice_ext d.byte (write_supr_blk_to_supr_buf zeroed fresh_super_blk) 0 0 blocksize (λ i h.
            ap d.byte (omega arith)
            ∙ header i h
            ∙ ap (write_supr_blk_to_supr_buf zeroed fresh_super_blk) (omega arith))
          ∙ super_buf_fits)

-- A disk of full size that starts with the fresh superblock is mounted as it stands.
pub mount_fresh :
    (d : MemDisk)
    → d.len ≡ disksize
    → ((i : ℕ) → i < blocksize → d.byte i ≡ write_supr_blk_to_supr_buf zeroed fresh_super_blk i)
    → mount true d ≡ ok (record { disk = d; super_blk = fresh_super_blk; fresh_format = false })
unfolding mount
mount_fresh d full header =
    ap (mount_disk true) (truncate_same d disksize full)
    ∙ ap (mount_header true d) (header_read d full header)
    ∙ ap
        (λ s.
          if is_initialized true s
          then ok (record { disk = d; super_blk = s; fresh_format = false })
          else ok (record { disk = format d; super_blk = fresh_super_blk; fresh_format = true }))
        (read_supr_blk-write_supr_blk zeroed fresh_super_blk fresh-InRange)
    ∙ unfold is_initialized eq_bytes in refl

pub mount_absent :
    (image : MemDisk)
    → mount false image
      ≡ ok (record {
        disk = format (truncate image (pos disksize)).1;
        super_blk = fresh_super_blk;
        fresh_format = true;
      })
unfolding mount
mount_absent image =
    ap (λ e. mount_disk false (e, (truncate image (pos disksize)).1))
      (truncate_error image disksize)
    ∙ ap (mount_header false (truncate image (pos disksize)).1) (
        read_at_fits (truncate image (pos disksize)).1 blocksize 0 (omega arith)
          (rw len-truncate (omega arith)))
    ∙ unfold is_initialized in refl
