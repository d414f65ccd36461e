-- ===== src/Inode/Bitmap/Laws.antt =====
-- `AllocInode` and `FreeInodeFromBitmap` change one bit of the inode bitmap.
use byte_space.Prelude.{
  ℕ, ◌+◌, ◌*◌, ◌/◌, ◌%◌, ◌^◌, ◌<◌, ◌≤◌, ◌≡◌, ◌⊎◌, inl, inr, refl, ap, sym, subst, ◌∙◌, arith,
  Option, none, some, ◌==◌, leb, if◌then◌else◌, Bool-cases, pos, no_space_left, inum_out_of_range,
  inum_already_free, Result, ok, err, panics, bit_and, Bool, true, all_below, all_below_sound,
}
use byte_space.Bytes.{Buffer, IsBytes, zeroed, slice}
use byte_space.Disk.{read_at, write_at, overwrite}
use byte_space.Disk.Laws.{read_at_fits, write_at_fits, byte-overwrite_self, byte-overwrite_outside}
use byte_space.Layout.{inodes}
use byte_space.Bitmap.{bit, test_bit, find_free_bit, clear_bit}
use byte_space.Bitmap.Search.{Found, find_free_bit-Found}
use byte_space.Bitmap.Change.{IsChanged, set_bit-IsChanged, clear_bit-IsChanged}
use byte_space.FileSystem.{FileSystem, with_disk}
use byte_space.FileSystem.Blocks.{HasLayout}
use byte_space.Inode.Bitmap.{
  read_bitmap, inode_bitmap_offset, write_bitmap, alloc_from, after_bitmap, alloc_inode,
  free_inode_from_bitmap,
}

-- Whether inode `j` is marked on the disk: bit `j` of block 1.
pub inode_bit : FileSystem → ℕ → ℕ
inode_bit fs j = bit (slice fs.disk.byte 4096 1008) j

bit_low : (b : Buffer) (j : ℕ) → j < inodes → bit (slice b 0 1008) j ≡ bit b j
unfolding bit
bit_low b j lt = ground arith

-- `fs'` differs from `fs` in the mark of inode `idx` alone, which is `v`.
pub record IsMarked (fs : FileSystem) (idx v : ℕ) (fs' : FileSystem) : Type 0 where
  pub marks : (j : ℕ) → j < inodes → inode_bit fs' j ≡ (if j == idx then v else inode_bit fs j)
  pub others : (i : ℕ) → (i < 4096) ⊎ (5104 ≤ i) → fs'.disk.byte i ≡ fs.disk.byte i
  pub super : fs'.super_blk ≡ fs.super_blk
  pub full : fs'.disk.len ≡ fs.disk.len

abbrev pub AllocResult : FileSystem → Result ℕ × FileSystem → Type 0
AllocResult fs (ok idx, fs') =
    (idx < inodes)
    × (inode_bit fs idx ≡ 0)
    × ((j : ℕ) → j < idx → inode_bit fs j ≡ 1)
    × IsMarked fs idx 1 fs'
AllocResult fs (err e, fs') =
    (e ≡ no_space_left) × (fs' ≡ fs) × ((j : ℕ) → j < inodes → inode_bit fs j ≡ 1)
AllocResult fs (panics, fs') = ⊥

abbrev pub FreeResult : FileSystem → ℕ → Result (Unit {0}) × FileSystem → Type 0
FreeResult fs inum (ok _, fs') = (inum < inodes) × (inode_bit fs inum ≡ 1) × IsMarked fs inum 0 fs'
FreeResult fs inum (err e, fs') =
    (fs' ≡ fs)
    × ((inodes ≤ inum) × (e ≡ inum_out_of_range)
        ⊎ (inum < inodes) × (inode_bit fs inum ≡ 0) × (e ≡ inum_already_free))
FreeResult fs inum (panics, fs') = ⊥

-- The test of `FreeInodeFromBitmap` is one of the bit.
abbrev mask_entry : ℕ → Bool
mask_entry c =
    if bit_and (c / 8) (2 ^ (c % 8)) == 0
    then test_bit (c / 8) (c % 8) == 0
    else test_bit (c / 8) (c % 8) == 1

mask_table : all_below 2048 mask_entry ≡ true
unfolding all_below test_bit
mask_table = refl

mask_bit :
    (b k : ℕ)
    → b < 256
    → k < 8
    → (if bit_and b (2 ^ k) == 0 then test_bit b k == 0 else test_bit b k == 1) ≡ true
mask_bit b k hb hk =
    let h : mask_entry (b * 8 + k) ≡ true =
      all_below_sound 2048 mask_entry (b * 8 + k) mask_table (omega arith) in
    let e : (b * 8 + k) / 8 ≡ b = omega arith in
    let e' : (b * 8 + k) % 8 ≡ k = omega arith in rw (e, e') at h

module _ (fs : FileSystem) (h : HasLayout fs) (bytes : IsBytes fs.disk.byte) where
  offset_is : inode_bitmap_offset fs ≡ 4096
  offset_is = omega (arith, ap (λ s. s.inode_bitmap_start_block) h.super)

  abbrev stored_bitmap : Buffer
  stored_bitmap = slice fs.disk.byte 4096 1008

  read_bitmap_fits : read_bitmap fs ≡ record { out = stored_bitmap; count = 1008; error = none }
  read_bitmap_fits =
      ap (λ off. read_at fs.disk zeroed 1008 (pos off)) offset_is
      ∙ read_at_fits fs.disk 1008 4096 (omega arith) (omega (arith, h.full))

  stored-IsBytes : IsBytes stored_bitmap
  stored-IsBytes i = ground (arith, bytes (4096 + i))

  abbrev with_inode_bitmap : Buffer → FileSystem
  with_inode_bitmap b = with_disk fs (overwrite fs.disk b 1008 4096)

  write_bitmap_fits :
      {A : Type 0} (b : Buffer) (result : A)
      → write_bitmap (some b) result fs ≡ (ok result, with_inode_bitmap b)
  write_bitmap_fits b result =
      ap (λ off. after_bitmap result fs (write_at fs.disk b 1008 (pos off))) offset_is
      ∙ ap (after_bitmap result fs)
          (write_at_fits fs.disk b 1008 4096 (omega arith) (omega (arith, h.full)))

  -- The marks on the disk after a bitmap in which one bit was changed to `v`.
  bit_written :
      (b : Buffer) (idx v j : ℕ)
      → IsChanged stored_bitmap idx v b
      → j < inodes
      → inode_bit (with_inode_bitmap b) j ≡ (if j == idx then v else inode_bit fs j)
  unfolding inode_bit
  bit_written b idx v j c lt =
      ap (λ m. bit m j) (byte-overwrite_self fs.disk b 1008 4096) ∙ bit_low b j lt ∙ c.bits j

  marked :
      (b : Buffer) (idx v : ℕ)
      → IsChanged stored_bitmap idx v b
      → IsMarked fs idx v (with_inode_bitmap b)
  unfolding overwrite
  marked b idx v c = record {
    marks = λ j lt. bit_written b idx v j c lt;
    others = λ i out. byte-overwrite_outside fs.disk b 1008 4096 i out;
    super = refl;
    full = refl;
  }

  alloc-Found :
      (o : Option ℕ) → Found stored_bitmap 0 1008 o → AllocResult fs (alloc_from o stored_bitmap fs)
  unfolding inode_bit
  alloc-Found none all = (refl, refl, λ j lt. all j (omega arith) (omega arith))
  alloc-Found (some idx) hit =
      let (b, e, c) =
        set_bit-IsChanged 1008 stored_bitmap idx stored-IsBytes (omega (arith, hit.1)) in
      subst (λ o. AllocResult fs (write_bitmap o idx fs)) (sym e)
        (subst (AllocResult fs) (sym (write_bitmap_fits b idx))
          (omega (arith, hit.1), hit.2, λ j lt. hit.3 j (omega arith) lt, marked b idx 1 c))

  -- On a disk of full size with the fresh layout, `AllocInode` marks the lowest inode that is not marked, and changes nothing else on the disk;
  -- it fails only where all inodes are marked, and then changes nothing. It does not panic.
  pub alloc_inode-AllocResult : AllocResult fs (alloc_inode fs)
  unfolding alloc_inode
  alloc_inode-AllocResult =
      subst
        (λ r. AllocResult fs (elim r.error [
          | some e ↦ (err e, fs)
          | none ↦ alloc_from (find_free_bit r.out 1008) r.out fs
        ]))
        (sym read_bitmap_fits)
        (alloc-Found (find_free_bit stored_bitmap 1008)
          (find_free_bit-Found stored_bitmap 1008 stored-IsBytes))

  free_clear :
      (inum : ℕ)
      → inum < inodes
      → inode_bit fs inum ≡ 1
      → FreeResult fs inum (write_bitmap (clear_bit 1008 stored_bitmap inum) tt fs)
  free_clear inum lt set =
      let (b, e, c) = clear_bit-IsChanged 1008 stored_bitmap inum stored-IsBytes (omega arith) in
      subst (λ o. FreeResult fs inum (write_bitmap o tt fs)) (sym e)
        (subst (FreeResult fs inum) (sym (write_bitmap_fits b tt)) (lt, set, marked b inum 0 c))

  free_tested :
      (inum : ℕ)
      → inum < inodes
      → FreeResult fs inum (
          if bit_and (stored_bitmap (inum / 8)) (2 ^ (inum % 8)) == 0
          then (err inum_already_free, fs)
          else write_bitmap (clear_bit 1008 stored_bitmap inum) tt fs)
  unfolding inode_bit bit
  free_tested inum lt =
      let m =
        mask_bit (stored_bitmap (inum / 8)) (inum % 8) (stored-IsBytes (inum / 8)) (omega arith) in
      elim (Bool-cases (bit_and (stored_bitmap (inum / 8)) (2 ^ (inum % 8)) == 0)) [
        | inl zero_bit ↦ rw zero_bit (refl, inr (lt, ground arith, refl))
        | inr set ↦ rw set (free_clear inum lt (ground arith))
      ]

  -- On a disk of full size with the fresh layout, `FreeInodeFromBitmap` clears the mark of an inode that is marked, and changes nothing else on
  -- the disk. On a number out of range, or of an inode that is not marked, it reports that, and
  -- changes nothing. It does not panic.
  pub free_inode_from_bitmap-FreeResult :
      (inum : ℕ) → FreeResult fs inum (free_inode_from_bitmap inum fs)
  unfolding free_inode_from_bitmap
  free_inode_from_bitmap-FreeResult inum = elim (Bool-cases (leb inodes inum)) [
    | inl out ↦ rw out (refl, inl (ground arith, refl))
    | inr inside ↦ rw inside (
        subst
          (λ r. FreeResult fs inum (elim r.error [
            | some e ↦ (err e, fs)
            | none ↦
                if bit_and (r.out (inum / 8)) (2 ^ (inum % 8)) == 0
                then (err inum_already_free, fs)
                else write_bitmap (clear_bit 1008 r.out inum) tt fs
          ]))
          (sym read_bitmap_fits) (free_tested inum (ground arith)))
  ]
