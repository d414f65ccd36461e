-- ===== src/Directory/Insert.antt =====
-- The scan of `addDentry` for a free slot, in a directory of at most twelve blocks.
use byte_space.Prelude.{
  ℕ, zero, suc, ◌+◌, ◌*◌, ◌<◌, ◌≤◌, ◌≡◌, refl, ap, sym, ◌∙◌, arith, Bool, true, false, Option, none,
  some, Result, ok, err, panics, continue, Exec, ◌>>=◌, subst, Bool-cases, inl, inr, ◌==◌, ==→eq,
}
use byte_space.Bytes.{Buffer}
use byte_space.Layout.{blocksize, blocks}
use byte_space.FileSystem.{FileSystem, write_data_block}
use byte_space.FileSystem.Blocks.{HasLayout, write_data_block_fits}
use byte_space.Inode.{Inode}
use byte_space.Falloc.{blocks_for}
use byte_space.Dentry.{DirEntry, free_slot, fill_slot}
use byte_space.Dentry.Slots.{IsEncoded}
use byte_space.Dentry.Insert.{SlotsFit, SlotFilled, free_slot-SlotFilled}
use byte_space.Directory.{
  Walk, iter_from, iter_blocks, start, finished, insert_at, try_insert, wrote,
}
use byte_space.Directory.Entries.{block_of, go_on, iter_from-step}

-- A directory of at most twelve blocks in the data region of a disk of full size.
pub record IsSmall (fs : FileSystem) (ino : Inode) : Type 0 where
  pub layout : HasLayout fs
  pub small : ino.size ≤ 12 * blocksize
  pub pointers : (v : ℕ) → ino.direct v < blocks

-- The used slots of all blocks of the directory have names that fit them.
pub record AllFit (fs : FileSystem) (ino : Inode) : Type 0 where
  pub fit : (v : ℕ) → SlotsFit 64 (block_of fs ino v) 0

-- The first block from `i` on that has a free slot is written with the entry in the first such slot,
-- and with its other entries in their order, and nothing else is; or no block of them has a free slot, and nothing is written.
pub record Inserted (fs : FileSystem) (ino : Inode) (dentry : DirEntry) (encoded : Buffer) (i n : ℕ)
    (fs' : FileSystem) : Type 0 where
  pub v : ℕ
  pub slot : ℕ
  pub from : i ≤ v
  pub below : v < n
  pub free : free_slot 64 (block_of fs ino v) 0 ≡ some slot
  pub filled :
      SlotFilled dentry 64 (block_of fs ino v) (fill_slot (block_of fs ino v) slot encoded) 0
  pub written :
      fs'
      ≡ (write_data_block fs
          (ino.direct v)
          blocksize
          (fill_slot (block_of fs ino v) slot encoded)).1
  pub full : (u : ℕ) → i ≤ u → u < v → free_slot 64 (block_of fs ino u) 0 ≡ none

abbrev pub InsertResult :
    FileSystem → Inode → DirEntry → Buffer → ℕ → ℕ → Result Bool × FileSystem → Type 0
InsertResult fs ino dentry encoded i n (ok true, fs') = Inserted fs ino dentry encoded i n fs'
InsertResult fs ino dentry encoded i n (ok false, fs') =
    (fs' ≡ fs) × ((u : ℕ) → i ≤ u → u < n → free_slot 64 (block_of fs ino u) 0 ≡ none)
InsertResult fs ino dentry encoded i n (err e, fs') = ⊥
InsertResult fs ino dentry encoded i n (panics, fs') = ⊥

pub beyond : (i u : ℕ) → i ≤ u → (u == i) ≡ false → i + 1 ≤ u
beyond i u le differ = ground arith

module _ (fs : FileSystem) (ino : Inode) (dentry : DirEntry) (encoded : Buffer)
    (is : IsEncoded dentry encoded) (h : IsSmall fs ino) (fits : AllFit fs ino) where
  abbrev scan : ℕ → Buffer → Exec (Walk Bool) Bool
  scan n data' = insert_at encoded n data' (free_slot 64 data' 0)

  -- A block without a free slot, and the ones behind it.
  later :
      (i n : ℕ) (r : Result Bool × FileSystem)
      → free_slot 64 (block_of fs ino i) 0 ≡ none
      → InsertResult fs ino dentry encoded (i + 1) n r
      → InsertResult fs ino dentry encoded i n r
  later i n (ok true, fs') none_free g = record {
    v = g.v;
    slot = g.slot;
    from = omega (arith, g.from);
    below = g.below;
    free = g.free;
    filled = g.filled;
    written = g.written;
    full = λ u le lt. elim (Bool-cases (u == i)) [
      | inl same ↦ ap (λ x. free_slot 64 (block_of fs ino x) 0) (==→eq u i same) ∙ none_free
      | inr differ ↦ g.full u (beyond i u le differ) lt
    ];
  }
  later i n (ok false, fs') none_free g = (
    g.0,
    λ u le lt. elim (Bool-cases (u == i)) [
      | inl same ↦ ap (λ x. free_slot 64 (block_of fs ino x) 0) (==→eq u i same) ∙ none_free
      | inr differ ↦ g.1 u (beyond i u le differ) lt
    ],
  )
  later i n (err e, fs') none_free g = g
  later i n (panics, fs') none_free g = g

  visited :
      (rounds i : ℕ) (o : Option ℕ)
      → free_slot 64 (block_of fs ino i) 0 ≡ o
      → InsertResult fs ino dentry encoded
          (i + 1)
          (i + suc rounds)
          (finished (iter_from ino scan rounds (i + 1) (start false fs)))
      → InsertResult fs ino dentry encoded i (i + suc rounds) (
          finished (
            (insert_at encoded (ino.direct i) (block_of fs ino i) o >>= go_on ino scan rounds i)
              (start false fs)))
  visited rounds i none e rest =
      later i (i + suc rounds) (finished (iter_from ino scan rounds (i + 1) (start false fs))) e
        rest
  visited rounds i (some slot) e rest =
      let b = fill_slot (block_of fs ino i) slot encoded in
      let n = ino.direct i in
      let stored = write_data_block_fits fs n h.layout (h.pointers i) b in
      subst
        (λ r. InsertResult fs ino dentry encoded i (i + suc rounds) (
          finished (
            continue (wrote (record (start false fs) { seen = true }) r).0 (go_on ino scan rounds i)
              (wrote (record (start false fs) { seen = true }) r).1)))
        (sym stored)
        (record {
          v = i;
          slot = slot;
          from = omega arith;
          below = omega arith;
          free = e;
          filled =
              free_slot-SlotFilled dentry encoded 64 (block_of fs ino i) 0 slot is (omega arith)
                (fits.fit i) e;
          written = sym (ap (λ r. r.1) stored);
          full = λ u le lt. absurd (omega (arith, le, lt));
        })

  scan-InsertResult :
      (rounds i : ℕ)
      → i + rounds ≤ 12
      → InsertResult fs ino dentry encoded i
          (i + rounds)
          (finished (iter_from ino scan rounds i (start false fs)))
  scan-InsertResult zero i le = unfold iter_from in (refl, λ u a b. absurd (omega (arith, a, b)))
  scan-InsertResult (suc rounds) i le =
      subst (λ r. InsertResult fs ino dentry encoded i (i + suc rounds) (finished r))
        (sym (
          iter_from-step fs ino scan rounds i (start false fs) h.layout (h.pointers i) (omega arith)
            refl))
        (visited rounds i (free_slot 64 (block_of fs ino i) 0) refl (
          subst
            (λ n.
              InsertResult fs ino dentry encoded (i + 1) n
                (finished (iter_from ino scan rounds (i + 1) (start false fs))))
            (omega arith) (scan-InsertResult rounds (i + 1) (omega arith))))

-- In a directory of at most twelve blocks, with pointers in the data region of a disk of full size
-- and slots whose names fit, `tryInsert` of an encoded entry writes one block: the first that has a
-- free slot, with the entry put among its others; or it reports that there is no free slot, and
-- writes nothing. It does not fail or panic.
pub try_insert-InsertResult :
    (fs : FileSystem) (ino : Inode) (dentry : DirEntry) (encoded : Buffer)
    → IsEncoded dentry encoded
    → IsSmall fs ino
    → AllFit fs ino
    → InsertResult fs ino dentry encoded 0 (blocks_for ino.size) (try_insert ino encoded fs)
unfolding try_insert iter_blocks
try_insert-InsertResult fs ino dentry encoded is h fits =
    subst
      (λ n. InsertResult fs ino dentry encoded 0 n (
        finished (
          iter_from ino (scan fs ino dentry encoded is h fits) (blocks_for ino.size) 0
            (start false fs))))
      (omega arith)
      (scan-InsertResult fs ino dentry encoded is h fits (blocks_for ino.size) 0
        (unfold blocks_for in omega (arith, h.small)))
