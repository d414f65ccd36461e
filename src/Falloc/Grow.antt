-- ===== src/Falloc/Grow.antt =====
-- The loop that grows a file: which numbers the new blocks get, and when it panics.
use byte_space.Prelude.{ℕ, ◌+◌, ◌*◌, ◌<◌, ◌≤◌, ◌≡◌, ◌≢◌, Result, ok, err, panics}
use byte_space.Bytes.{Buffer, IsBytes}
use byte_space.Layout.{blocksize}
use byte_space.Bitmap.{bit, count_free}
use byte_space.Bitmap.Take.{Taken}
use byte_space.Falloc.{Alloc}
use byte_space.Falloc.View.{slot, given, with_bitmap, SameFile}

-- The data bitmap has a bit for each number below this.
abbrev pub bits : ℕ
bits = 8 * blocksize

-- The file in `a` was grown by the blocks from `i` on, `n` of them.
pub record Grown (a : Alloc) (i n : ℕ) (a' : Alloc) : Type 0 where
  -- The blocks before them keep their numbers.
  pub old : (v : ℕ) → v < i → slot a' v ≡ slot a v
  -- Each new number was free, is in range, and is marked now; no two are equal.
  pub fresh : (v : ℕ) → i ≤ v → v < i + n → bit a.bitmap (slot a' v) ≡ 0
  pub inside : (v : ℕ) → i ≤ v → v < i + n → slot a' v < bits
  pub marked : (v : ℕ) → i ≤ v → v < i + n → bit a'.bitmap (slot a' v) ≡ 1
  pub distinct : (v w : ℕ) → i ≤ v → v < w → w < i + n → slot a' v ≢ slot a' w
  -- No block is unmarked, and just `n` blocks are marked.
  pub keep : (j : ℕ) → bit a.bitmap j ≡ 1 → bit a'.bitmap j ≡ 1
  pub count : count_free bits a'.bitmap + n ≡ count_free bits a.bitmap
  pub bytes : IsBytes a'.bitmap
  pub file : SameFile a a'

-- One block, and then the rest.
module _ (a : Alloc) (i idx n : ℕ) (b : Buffer) (t : Taken blocksize a.bitmap idx b) (a' : Alloc)
    (g : Grown (given i idx (with_bitmap a b)) (i + 1) n a') where
  abbrev one : Alloc
  one = given i idx (with_bitmap a b)

-- The panic of the loop, after the last free block was given away.
abbrev pub LoopResult : ℕ → ℕ → Alloc → Result (Unit {0}) × Alloc → Type 0
LoopResult i n a (ok _, a') = (n ≤ count_free bits a.bitmap) × Grown a i n a'
LoopResult i n a (err e, a') = ⊥
LoopResult i n a (panics, a') = count_free bits a.bitmap < n
