-- ===== src/Directory/Entries.antt =====
-- `ReadEntries` of a directory of at most twelve blocks.
use byte_space.Prelude.{
  ℕ, zero, suc, ◌+◌, ◌*◌, ◌<◌, ◌≤◌, ◌≡◌, refl, ap, sym, ◌∙◌, arith, Bool, if◌then◌else◌, List, [],
  ◌++◌, Result, ok, continue, Exec, pure, ◌>>=◌, append-nil, append_assoc,
}
use byte_space.Bytes.{Buffer, slice}
use byte_space.Layout.{blocksize, blocks}
use byte_space.FileSystem.{FileSystem, read_data_block}
use byte_space.FileSystem.Blocks.{HasLayout, data_offset, read_data_block_fits}
use byte_space.Inode.{Inode}
use byte_space.Places.{in_inode, virtual_to_place_relative}
use byte_space.Falloc.{blocks_for}
use byte_space.Dentry.{DirEntry, decode_dir_entries}
use byte_space.Directory.{
  Walk, loaded, block_num, iter_from, iter_blocks, start, finished, gather, read_all,
}

-- The bytes of a block that the inode points to itself.
abbrev pub block_of : FileSystem → Inode → ℕ → Buffer
block_of fs ino v = slice fs.disk.byte (data_offset (ino.direct v)) blocksize

-- What a round of `iterBlocks` does once the callback was called.
abbrev pub go_on :
    {A : Type 0}
    → Inode
    → (ℕ → Buffer → Exec (Walk A) Bool)
    → ℕ
    → ℕ
    → Bool
    → Exec (Walk A) (Unit {0})
go_on ino fn rounds i stop = if stop then pure tt else iter_from ino fn rounds (i + 1)

-- A round on one of the first twelve blocks calls the callback on it.
pub iter_from-step :
    {A : Type 0} (fs : FileSystem) (ino : Inode) (fn : ℕ → Buffer → Exec (Walk A) Bool)
    (rounds i : ℕ) (w : Walk A)
    → HasLayout fs
    → ino.direct i < blocks
    → i < 12
    → w.fs ≡ fs
    → iter_from ino fn (suc rounds) i w
      ≡ (fn (ino.direct i) (block_of fs ino i) >>= go_on ino fn rounds i) w
unfolding iter_from
iter_from-step fs ino fn rounds i w layout inside lt e =
    let place : virtual_to_place_relative i ≡ (i, in_inode) =
      unfold virtual_to_place_relative in ground arith in
    let n = ino.direct i in
    ap
      (λ at.
        (block_num ino at.0 at.1 >>= λ n. (λ w. (loaded (read_data_block w.fs n), w)) >>= λ data'.
        fn n data' >>= go_on ino fn rounds i)
          w)
      place
    ∙ ap (λ r. continue (loaded r) (λ data'. fn n data' >>= go_on ino fn rounds i) w)
        (ap (λ f. read_data_block f n) e ∙ read_data_block_fits fs n layout inside)

-- A directory of at most twelve blocks, with the entries of each.
pub record HasEntries (fs : FileSystem) (ino : Inode) (entries : ℕ → List DirEntry) : Type 0 where
  pub layout : HasLayout fs
  pub small : ino.size ≤ 12 * blocksize
  pub pointers : (v : ℕ) → ino.direct v < blocks
  pub decoded : (v : ℕ) → decode_dir_entries (block_of fs ino v) ≡ ok (entries v)

-- The entries of the blocks from `i` on.
unfoldable pub all_entries : (ℕ → List DirEntry) → ℕ → ℕ → List DirEntry
all_entries entries zero i = []
all_entries entries (suc rounds) i = entries i ++ all_entries entries rounds (i + 1)

module _ (fs : FileSystem) (ino : Inode) (entries : ℕ → List DirEntry)
    (h : HasEntries fs ino entries) where
  abbrev visit : ℕ → Buffer → Walk (List DirEntry) → Result Bool × Walk (List DirEntry)
  visit n data' = gather (decode_dir_entries data')

  iter_from-suc :
      (rounds i : ℕ) (w : Walk (List DirEntry))
      → i < 12
      → w.fs ≡ fs
      → iter_from ino visit (suc rounds) i w
        ≡ iter_from ino visit rounds (i + 1) (record w { seen = w.seen ++ entries i })
  iter_from-suc rounds i w lt e =
      iter_from-step fs ino visit rounds i w h.layout (h.pointers i) lt e
      ∙ ap (λ r. (gather r >>= go_on ino visit rounds i) w) (h.decoded i)

  iter_from-all_entries :
      (rounds i : ℕ) (w : Walk (List DirEntry))
      → i + rounds ≤ 12
      → w.fs ≡ fs
      → iter_from ino visit rounds i w
        ≡ (ok tt, record w { seen = w.seen ++ all_entries entries rounds i })
  unfolding all_entries
  iter_from-all_entries zero i w le e =
      unfold iter_from in ap (λ t. (ok tt, record w { seen = t })) (sym (append-nil w.seen))
  iter_from-all_entries (suc rounds) i w le e =
      iter_from-suc rounds i w (omega arith) e
      ∙ iter_from-all_entries rounds (i + 1) (record w { seen = w.seen ++ entries i }) (omega arith)
          e
      ∙ ap (λ t. (ok tt, record w { seen = t }))
          (append_assoc w.seen (entries i) (all_entries entries rounds (i + 1)))

-- Reading a directory of at most twelve blocks, with pointers in the data region of a disk of full
-- size and blocks that can be decoded, gives the entries of its blocks in order, as many blocks as
-- its size needs, and changes nothing on the disk.
pub read_all-all_entries :
    (fs : FileSystem) (ino : Inode) (entries : ℕ → List DirEntry)
    → HasEntries fs ino entries
    → read_all ino fs ≡ (ok (all_entries entries (blocks_for ino.size) 0), fs)
unfolding read_all iter_blocks
read_all-all_entries fs ino entries h = ap finished (
    iter_from-all_entries fs ino entries h (blocks_for ino.size) 0 (start [] fs)
      (unfold blocks_for in omega (arith, h.small)) refl)
