-- ===== src/Editor/Merge.antt =====
-- Enter splits a line within its array, and deleting at the start of a line merges two, which can
-- write into a third.
use byte_space.Prelude.{ℕ, zero, suc, ◌+◌, ◌≤◌, ◌<◌, ◌≡◌, ◌≢◌, ◌⊎◌, ap, ◌∙◌, arith, ◌∷◌, ◌++◌}
use byte_space.Bytes.{Buffer, to_list}
use byte_space.Editor.Slices.{Line, Heap}

pub to_list-append :
    (b : Buffer) (off m n : ℕ) → to_list b off (m + n) ≡ to_list b off m ++ to_list b (off + m) n
unfolding to_list
to_list-append b off zero n =
    let len : 0 + n ≡ n = omega arith in
    let start : off ≡ off + 0 = omega arith in
    ap (to_list b off) len ∙ ap (λ o. to_list b o n) start
to_list-append b off (suc m) n =
    let len : suc m + n ≡ suc (m + n) = omega arith in
    let start : off + 1 + m ≡ off + suc m = omega arith in
    ap (to_list b off) len
    ∙ ap (λ t. b off ∷ t)
        (to_list-append b (off + 1) m n ∙ ap (λ o. to_list b (off + 1) m ++ to_list b o n) start)

-- A line of the heap.
pub record IsIn (heap : Heap) (line : Line) : Type 0 where
  pub made : line.arr < heap.next

-- The line has no byte where `append` to `prev` of so many bytes writes in place.
pub record IsApart (prev : Line) (n : ℕ) (line : Line) : Type 0 where
  pub apart :
      (line.arr ≢ prev.arr)
      ⊎ (line.off + line.len ≤ prev.off + prev.len)
      ⊎ (prev.off + prev.len + n ≤ line.off)
