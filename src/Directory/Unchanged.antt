-- ===== src/Directory/Unchanged.antt =====
-- `ReadEntries` of any directory leaves the filesystem as it was.
use byte_space.Prelude.{
  ℕ, zero, suc, ◌+◌, ◌≡◌, refl, ◌∙◌, Bool, true, false, Option, none, some, List, Result, ok, err,
  panics, Exec, ◌>>=◌, pure, continue, Error, [], arith, if◌then◌else◌,
}
use byte_space.Bytes.{Buffer}
use byte_space.FileSystem.{FileSystem, read_data_block}
use byte_space.Inode.{Inode, empty_inode, read_inode}
use byte_space.Places.{Table, Place, in_inode, in_table, virtual_to_place_relative, pointer}
use byte_space.Falloc.{blocks_for}
use byte_space.Dentry.{DirEntry, decode_dir_entries}
use byte_space.Directory.{
  Walk, loaded, read_table, keep_table, address, block_num, iter_from, iter_blocks, start, finished,
  gather, read_all, read_entries, got_inode,
}

-- A computation that leaves a part of the state as it was.
abbrev Leaves : {S A B : Type 0} → (S → B) → Exec S A → Type 0
Leaves {S} part m = (s : S) → part (m s).1 ≡ part s

continue-Leaves :
    {S A B C : Type 0} (part : S → C) (r : Result A) (f : A → Exec S B) (s : S)
    → ((a : A) → Leaves part (f a))
    → part (continue r f s).1 ≡ part s
continue-Leaves part (ok a) f s g = g a s
continue-Leaves part (err e) f s g = refl
continue-Leaves part panics f s g = refl

bind-Leaves :
    {S A B C : Type 0} (part : S → C) (m : Exec S A) (f : A → Exec S B)
    → Leaves part m
    → ((a : A) → Leaves part (f a))
    → Leaves part (m >>= f)
bind-Leaves part m f h g s = continue-Leaves part (m s).0 f (m s).1 g ∙ h s

module _ {A : Type 0} where
  keep_table-Leaves :
      (w : Walk A) (t : Table) (r : Buffer × Option Error) → (keep_table w t r).1.fs ≡ w.fs
  keep_table-Leaves w t (blk, some e) = refl
  keep_table-Leaves w t (blk, none) = refl

  read_table-Leaves :
      (t : Table) (ptr : ℕ) (o : Option Buffer) (w : Walk A) → (read_table t ptr o w).1.fs ≡ w.fs
  read_table-Leaves t ptr (some blk) w = refl
  read_table-Leaves t ptr none w = keep_table-Leaves w t (read_data_block w.fs ptr)

  address-Leaves : (rel : ℕ) (blk : Buffer) (w : Walk A) → (address rel blk w).1.fs ≡ w.fs
  address-Leaves rel blk w = ground arith

  block_num-Leaves :
      (ino : Inode) (rel : ℕ) (at : Place) (w : Walk A) → (block_num ino rel at w).1.fs ≡ w.fs
  block_num-Leaves ino rel in_inode w = refl
  block_num-Leaves ino rel (in_table t) w =
      continue-Leaves (λ w. w.fs) (read_table t (pointer t ino) (w.buf t) w).0
        (λ blk. address rel blk) (read_table t (pointer t ino) (w.buf t) w).1
        (λ blk. address-Leaves rel blk)
      ∙ read_table-Leaves t (pointer t ino) (w.buf t) w

  stopped-Leaves :
      (stop : Bool) (go : Exec (Walk A) (Unit {0}))
      → Leaves (λ w. w.fs) go
      → Leaves (λ w. w.fs) (if stop then pure tt else go)
  stopped-Leaves true go h w = refl
  stopped-Leaves false go h w = h w

  iter_from-Leaves :
      (ino : Inode) (fn : ℕ → Buffer → Exec (Walk A) Bool)
      → ((n : ℕ) (data' : Buffer) → Leaves (λ w. w.fs) (fn n data'))
      → (rounds i : ℕ) → Leaves (λ w. w.fs) (iter_from ino fn rounds i)
  unfolding iter_from
  iter_from-Leaves ino fn h zero i = λ w. refl
  iter_from-Leaves ino fn h (suc rounds) i =
      let at = virtual_to_place_relative i in
      bind-Leaves (λ w. w.fs) (block_num ino at.0 at.1)
        (λ n. (λ w. (loaded (read_data_block w.fs n), w)) >>= λ data'.
          fn n data' >>= λ stop. if stop then pure tt else iter_from ino fn rounds (i + 1))
        (block_num-Leaves ino at.0 at.1)
        (λ n.
          bind-Leaves (λ w. w.fs) (λ w. (loaded (read_data_block w.fs n), w))
            (λ data'.
              fn n data' >>= λ stop. if stop then pure tt else iter_from ino fn rounds (i + 1))
            (λ w. refl)
            (λ data'.
              bind-Leaves (λ w. w.fs) (fn n data')
                (λ stop. if stop then pure tt else iter_from ino fn rounds (i + 1)) (h n data')
                (λ stop.
                  stopped-Leaves stop (iter_from ino fn rounds (i + 1))
                    (iter_from-Leaves ino fn h rounds (i + 1)))))

  finished-Leaves : (r : Result (Unit {0}) × Walk A) → (finished r).1 ≡ r.1.fs
  finished-Leaves (ok _, w) = refl
  finished-Leaves (err e, w) = refl
  finished-Leaves (panics, w) = refl

gather-Leaves : (r : Result (List DirEntry)) → Leaves (λ w. w.fs) (gather r)
gather-Leaves (ok entries) w = refl
gather-Leaves (err e) w = refl
gather-Leaves panics w = refl

read_all-Leaves : (ino : Inode) (fs : FileSystem) → (read_all ino fs).1 ≡ fs
unfolding read_all iter_blocks
read_all-Leaves ino fs =
    finished-Leaves (
      iter_from ino (λ n data'. gather (decode_dir_entries data')) (blocks_for ino.size) 0
        (start [] fs))
    ∙ iter_from-Leaves ino (λ n data'. gather (decode_dir_entries data'))
        (λ n data'. gather-Leaves (decode_dir_entries data')) (blocks_for ino.size) 0 (start [] fs)

pub read_entries-Leaves : (inum : ℕ) (fs : FileSystem) → (read_entries inum fs).1 ≡ fs
unfolding read_entries
read_entries-Leaves inum fs =
    continue-Leaves (λ fs. fs) (got_inode (read_inode fs empty_inode inum)) read_all fs
      read_all-Leaves
