-- ===== src/Directory/Remove.antt =====
-- The search of `removeDentry` for a name, in a directory of at most twelve blocks.
use byte_space.Prelude.{
  ℕ, zero, suc, ◌+◌, ◌≤◌, ◌<◌, ◌≡◌, refl, ap, sym, arith, Bool, true, false, Option, none, some,
  List, Result, ok, err, panics, continue, Exec, ◌>>=◌, subst, Bool-cases, inl, inr, ◌==◌, ==→eq,
}
use byte_space.Bytes.{Buffer}
use byte_space.Layout.{blocksize}
use byte_space.FileSystem.{FileSystem, write_data_block}
use byte_space.FileSystem.Blocks.{write_data_block_fits}
use byte_space.Inode.{Inode}
use byte_space.Falloc.{blocks_for}
use byte_space.Dentry.{named_slot, clear_slot}
use byte_space.Dentry.Remove.{NamedResult, NoSlot, SlotCleared, named_slot-NamedResult}
use byte_space.Directory.{
  Walk, iter_from, iter_blocks, start, finished, remove_at, try_remove, wrote,
}
use byte_space.Directory.Entries.{block_of, go_on, iter_from-step}
use byte_space.Directory.Insert.{IsSmall, AllFit, beyond}

-- The first block from `i` on that has an entry of the name is written without the first such
-- entry, and with its other entries; no block before it has the name.
pub record Removed (fs : FileSystem) (ino : Inode) (name : List ℕ) (i n : ℕ) (fs' : FileSystem)
    : Type 0 where
  pub v : ℕ
  pub slot : ℕ
  pub from : i ≤ v
  pub below : v < n
  pub cleared : SlotCleared name 64 (block_of fs ino v) (clear_slot (block_of fs ino v) slot) 0
  pub written :
      fs' ≡ (write_data_block fs (ino.direct v) blocksize (clear_slot (block_of fs ino v) slot)).1
  pub absent : (u : ℕ) → i ≤ u → u < v → NoSlot name 64 (block_of fs ino u) 0

abbrev pub RemoveResult : FileSystem → Inode → List ℕ → ℕ → ℕ → Result Bool × FileSystem → Type 0
RemoveResult fs ino name i n (ok true, fs') = Removed fs ino name i n fs'
RemoveResult fs ino name i n (ok false, fs') =
    (fs' ≡ fs) × ((u : ℕ) → i ≤ u → u < n → NoSlot name 64 (block_of fs ino u) 0)
RemoveResult fs ino name i n (err e, fs') = ⊥
RemoveResult fs ino name i n (panics, fs') = ⊥

module _ (fs : FileSystem) (ino : Inode) (name : List ℕ) (h : IsSmall fs ino)
    (fits : AllFit fs ino) where
  abbrev search_names : ℕ → Buffer → Exec (Walk Bool) Bool
  search_names n data' = remove_at n data' (named_slot name 64 data' 0)

  later :
      (i n : ℕ) (r : Result Bool × FileSystem)
      → NoSlot name 64 (block_of fs ino i) 0
      → RemoveResult fs ino name (i + 1) n r
      → RemoveResult fs ino name i n r
  later i n (ok true, fs') none_named g = record {
    v = g.v;
    slot = g.slot;
    from = omega (arith, g.from);
    below = g.below;
    cleared = g.cleared;
    written = g.written;
    absent = λ u le lt. elim (Bool-cases (u == i)) [
      | inl same ↦
          subst (λ x. NoSlot name 64 (block_of fs ino x) 0) (sym (==→eq u i same)) none_named
      | inr differ ↦ g.absent u (beyond i u le differ) lt
    ];
  }
  later i n (ok false, fs') none_named g = (
    g.0,
    λ u le lt. elim (Bool-cases (u == i)) [
      | inl same ↦
          subst (λ x. NoSlot name 64 (block_of fs ino x) 0) (sym (==→eq u i same)) none_named
      | inr differ ↦ g.1 u (beyond i u le differ) lt
    ],
  )
  later i n (err e, fs') none_named g = g
  later i n (panics, fs') none_named g = g

  visited :
      (rounds i : ℕ) (o : Result (Option ℕ))
      → NamedResult name 64 (block_of fs ino i) 0 o
      → RemoveResult fs ino name
          (i + 1)
          (i + suc rounds)
          (finished (iter_from ino search_names rounds (i + 1) (start false fs)))
      → RemoveResult fs ino name i (i + suc rounds) (
          finished (
            (remove_at (ino.direct i) (block_of fs ino i) o >>= go_on ino search_names rounds i)
              (start false fs)))
  visited rounds i (ok none) named rest =
      later i (i + suc rounds)
        (finished (iter_from ino search_names rounds (i + 1) (start false fs))) named rest
  visited rounds i (ok (some slot)) named rest =
      let b = clear_slot (block_of fs ino i) slot in
      let e = write_data_block_fits fs (ino.direct i) h.layout (h.pointers i) b in
      let found = record (start false fs) { seen = true } in
      subst
        (λ r. RemoveResult fs ino name i (i + suc rounds) (
          finished
            (continue (wrote found r).0 (go_on ino search_names rounds i) (wrote found r).1)))
        (sym e)
        (record {
          v = i;
          slot = slot;
          from = omega arith;
          below = omega arith;
          cleared = named.1;
          written = sym (ap (λ r. r.1) e);
          absent = λ u le lt. absurd (omega (arith, le, lt));
        })
  visited rounds i (err e) named rest = absurd named
  visited rounds i panics named rest = absurd named

  search_names-RemoveResult :
      (rounds i : ℕ)
      → i + rounds ≤ 12
      → RemoveResult fs ino name i
          (i + rounds)
          (finished (iter_from ino search_names rounds i (start false fs)))
  search_names-RemoveResult zero i le =
      unfold iter_from in (refl, λ u a b. absurd (omega (arith, a, b)))
  search_names-RemoveResult (suc rounds) i le =
      subst (λ r. RemoveResult fs ino name i (i + suc rounds) (finished r))
        (sym (
          iter_from-step fs ino search_names rounds i (start false fs) h.layout (h.pointers i)
            (omega arith) refl))
        (visited rounds i (named_slot name 64 (block_of fs ino i) 0)
          (named_slot-NamedResult name 64 (block_of fs ino i) 0 (omega arith) (fits.fit i))
          (subst
            (λ n.
              RemoveResult fs ino name (i + 1) n
                (finished (iter_from ino search_names rounds (i + 1) (start false fs))))
            (omega arith) (search_names-RemoveResult rounds (i + 1) (omega arith))))

-- In a directory of at most twelve blocks, with pointers in the data region of a disk of full size
-- and slots whose names fit, the search of `removeDentry` writes one block: the first with an entry
-- of the name, without the first such entry and with all others in their order; or it reports
-- that there is none, no block has the name, and nothing is written. It does not fail or panic.
pub try_remove-RemoveResult :
    (fs : FileSystem) (ino : Inode) (name : List ℕ)
    → IsSmall fs ino
    → AllFit fs ino
    → RemoveResult fs ino name 0 (blocks_for ino.size) (try_remove ino name fs)
unfolding try_remove iter_blocks
try_remove-RemoveResult fs ino name h fits =
    subst
      (λ n. RemoveResult fs ino name 0 n (
        finished (
          iter_from ino (search_names fs ino name h fits) (blocks_for ino.size) 0
            (start false fs))))
      (omega arith)
      (search_names-RemoveResult fs ino name h fits (blocks_for ino.size) 0
        (unfold blocks_for in omega (arith, h.small)))
