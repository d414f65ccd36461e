-- ===== src/FileFd/Write.antt =====
-- What `FileFD.Write` does to a file of at most twelve blocks.
use byte_space.Prelude.{
  ℕ, zero, suc, ◌+◌, ◌-◌, ◌*◌, ◌/◌, ◌%◌, ◌<◌, ◌≤◌, ◌≡◌, ◌≢◌, refl, ap, sym, ◌∙◌, arith, ◌&&◌, ◌==◌,
  ==→eq, ==_refl, fun_ext, none, ◌⊎◌, leb, ltb, if◌then◌else◌, Bool-cases, inl, inr, true, false,
}
use byte_space.Bytes.{Buffer, slice}
use byte_space.Disk.{MemDisk, overwrite}
use byte_space.Layout.{blocksize, blocks}
use byte_space.FileSystem.{FileSystem}
use byte_space.FileSystem.Blocks.{
  HasLayout, data_offset, read_data_block_fits, write_data_block_fits, with_block,
  with_block-HasLayout,
}
use byte_space.Inode.{Inode}
use byte_space.FileFd.{counted, WriteState, chunk_of, patched, write_loop}
use byte_space.FileFd.Read.{direct_num}

-- A file that its own pointers reach, each to a block of its own.
pub record IsSmallFile (fs : FileSystem) (ino : Inode) : Type 0 where
  pub layout : HasLayout fs
  pub pointers : (v : ℕ) → ino.direct v < blocks
  pub distinct : (u v : ℕ) → u < 12 → v < 12 → ino.direct u ≡ ino.direct v → u ≡ v

-- The bytes of the file.
abbrev pub file : FileSystem → Inode → Buffer
file fs ino k = fs.disk.byte (data_offset (ino.direct (k / blocksize)) + k % blocksize)

-- The bytes with `len - n` of them, from `offset` on, taken from the data from `n` on.
abbrev pub rewritten : Buffer → Buffer → ℕ → ℕ → ℕ → Buffer
rewritten old data' offset n len k =
    if leb offset k && ltb k (offset + (len - n)) then data' (n + (k - offset)) else old k

overwrite-inside :
    (d : MemDisk) (b : Buffer) (m off j : ℕ) → j < m → (overwrite d b m off).byte (off + j) ≡ b j
unfolding overwrite
overwrite-inside d b m off j lt =
    let back : b (off + j - off) ≡ b j = ap b (omega arith) in ground (arith, back)

pub overwrite-outside :
    (d : MemDisk) (b : Buffer) (m off i : ℕ)
    → (i < off) ⊎ (off + m ≤ i)
    → (overwrite d b m off).byte i ≡ d.byte i
unfolding overwrite
overwrite-outside d b m off i (inl h) = ground arith
overwrite-outside d b m off i (inr h) = ground arith

true_is_false : true ≡ false → ⊥
true_is_false h = ground arith

split_range :
    (a b j : ℕ)
    → a ≢ b
    → j < blocksize
    → (data_offset a + j < data_offset b) ⊎ (data_offset b + blocksize ≤ data_offset a + j)
split_range a b j ne lt = elim (Bool-cases (ltb a b)) [
  | inl below ↦ inl (ground arith)
  | inr above ↦ inr (ground (arith, ne))
]

-- In the block of the chunk, its bytes are the data's and the others are the old ones.
patched-rewritten :
    (old : Buffer) (data' : Buffer) (offset n c k : ℕ)
    → c ≤ blocksize - offset % blocksize
    → k / blocksize ≡ offset / blocksize
    → patched
        (λ j. if ltb j blocksize then old (offset / blocksize * blocksize + j) else 0)
        (offset % blocksize)
        c
        data'
        n
        (k % blocksize)
      ≡ rewritten old data' offset n (n + c) k
patched-rewritten old data' offset n c k fits same =
    let there : old (offset / blocksize * blocksize + k % blocksize) ≡ old k =
      ap old (omega (arith, same)) in
    let shifted : data' (n + (k % blocksize - offset % blocksize)) ≡ data' (n + (k - offset)) =
      ap data' (omega (arith, same)) in
    elim (Bool-cases (leb offset k && ltb k (offset + c))) [
      | inl within ↦ ground (arith, shifted, same)
      | inr outside ↦ ground (arith, there, same)
    ]

module _ (fs : FileSystem) (ino : Inode) (h : IsSmallFile fs ino) (data' : Buffer) where
  abbrev block_for : ℕ → ℕ
  block_for offset = ino.direct (offset / blocksize)

  abbrev new_block : ℕ → ℕ → ℕ → Buffer
  new_block offset n c =
      patched (slice fs.disk.byte (data_offset (block_for offset)) blocksize) (offset % blocksize) c
        data' n

  abbrev after : ℕ → ℕ → ℕ → FileSystem
  after offset n c =
      with_block fs (block_for offset) h.layout (h.pointers (offset / blocksize))
        (new_block offset n c)

  block_of_file :
      (v j : ℕ)
      → slice fs.disk.byte (data_offset (ino.direct v)) blocksize j
        ≡ (if ltb j blocksize then file fs ino (v * blocksize + j) else 0)
  block_of_file v j = elim (Bool-cases (ltb j blocksize)) [
    | inl near ↦
        let v_back : (v * blocksize + j) / blocksize ≡ v = ground arith in
        let j_back : (v * blocksize + j) % blocksize ≡ j = ground arith in
        rw near (
          sym (
            ap (λ u. fs.disk.byte (data_offset (ino.direct u) + (v * blocksize + j) % blocksize))
              v_back
            ∙ ap (λ i. fs.disk.byte (data_offset (ino.direct v) + i)) j_back))
    | inr far ↦ rw far
  ]

  -- A round changes the bytes of its chunk, and no others of the file.
  after-file :
      (offset n c k : ℕ)
      → c ≤ blocksize - offset % blocksize
      → offset < 12 * blocksize
      → k < 12 * blocksize
      → file (after offset n c) ino k ≡ rewritten (file fs ino) data' offset n (n + c) k
  after-file offset n c k fits inside inside_k =
      let v = offset / blocksize in
      elim (Bool-cases (k / blocksize == v)) [
        | inl same ↦
            let e = ==→eq (k / blocksize) v same in
            ap (λ u. (after offset n c).disk.byte (data_offset (ino.direct u) + k % blocksize)) e
            ∙ overwrite-inside fs.disk (new_block offset n c) blocksize (data_offset (ino.direct v))
                (k % blocksize) (omega arith)
            ∙ ap (λ b. patched b (offset % blocksize) c data' n (k % blocksize))
                (fun_ext (block_of_file v))
            ∙ patched-rewritten (file fs ino) data' offset n c k fits e
        | inr differ ↦
            let apart : ino.direct (k / blocksize) ≢ ino.direct v = λ e. true_is_false (
              sym (==_refl v)
              ∙ ap (λ u. u == v) (sym (h.distinct (k / blocksize) v (omega arith) (omega arith) e))
              ∙ differ) in
            overwrite-outside fs.disk (new_block offset n c) blocksize (data_offset (ino.direct v))
              (data_offset (ino.direct (k / blocksize)) + k % blocksize)
              (split_range (ino.direct (k / blocksize)) (ino.direct v) (k % blocksize) apart
                (omega arith))
            ∙ ground (arith, fits, differ)
      ]

  after-IsSmallFile : (offset n c : ℕ) → IsSmallFile (after offset n c) ino
  after-IsSmallFile offset n c = record {
    layout =
        with_block-HasLayout fs (block_for offset) h.layout (h.pointers (offset / blocksize))
          (new_block offset n c);
    pointers = h.pointers;
    distinct = h.distinct;
  }

-- What the loop leaves, with `n` bytes of `len` done at `offset`.
pub record Written (fs : FileSystem) (ino : Inode) (data' : Buffer) (offset n len : ℕ)
    (w : WriteState) : Type 0 where
  pub ino_kept : w.ino ≡ ino
  pub moved : w.offset ≡ offset + (len - n)
  pub count : w.count ≡ counted len none
  pub small : IsSmallFile w.fs ino
  pub bytes :
      (k : ℕ) → k < 12 * blocksize → file w.fs ino k ≡ rewritten (file fs ino) data' offset n len k
  pub others :
      (idx j : ℕ)
      → ((v : ℕ) → v < 12 → idx ≢ ino.direct v)
      → j < blocksize
      → w.fs.disk.byte (data_offset idx + j) ≡ fs.disk.byte (data_offset idx + j)

rewritten-eq :
    (old older data' : Buffer) (offset n len k : ℕ)
    → old k ≡ older k
    → rewritten old data' offset n len k ≡ rewritten older data' offset n len k
rewritten-eq old older data' offset n len k e = rw e

rewritten-rewritten :
    (old data' : Buffer) (offset n c len k : ℕ)
    → n + c ≤ len
    → rewritten (rewritten old data' offset n (n + c)) data' (offset + c) (n + c) len k
      ≡ rewritten old data' offset n len k
rewritten-rewritten old data' offset n c len k le = elim (Bool-cases (ltb k (offset + c))) [
  | inl near ↦ ground arith
  | inr far ↦
      let shifted : data' (n + c + (k - (offset + c))) ≡ data' (n + (k - offset)) =
        ap data' (ground arith) in
      ground (arith, shifted)
]

module _ (ino : Inode) (data' : Buffer) where
  step-Written :
      (fs : FileSystem) (h : IsSmallFile fs ino) (offset n c len : ℕ) (w : WriteState)
      → c ≤ blocksize - offset % blocksize
      → offset < 12 * blocksize
      → n + c ≤ len
      → Written (after fs ino h data' offset n c) ino data' (offset + c) (n + c) len w
      → Written fs ino data' offset n len w
  step-Written fs h offset n c len w fits inside le g = record {
    ino_kept = g.ino_kept;
    moved = g.moved ∙ omega (arith, le);
    count = g.count;
    small = g.small;
    bytes = λ k lt.
        g.bytes k lt
        ∙ rewritten-eq (file (after fs ino h data' offset n c) ino)
            (rewritten (file fs ino) data' offset n (n + c)) data' (offset + c) (n + c) len k
            (after-file fs ino h data' offset n c k fits inside lt)
        ∙ rewritten-rewritten (file fs ino) data' offset n c len k le;
    others = λ idx j apart lt.
        g.others idx j apart lt
        ∙ overwrite-outside fs.disk (new_block fs ino h data' offset n c) blocksize
            (data_offset (ino.direct (offset / blocksize))) (data_offset idx + j)
            (split_range idx (ino.direct (offset / blocksize)) j
              (apart (offset / blocksize) (omega arith)) lt);
  }

  done-Written :
      (fs : FileSystem) (h : IsSmallFile fs ino) (offset n len : ℕ)
      → n ≡ len
      → Written fs ino data' offset n len
          (record { fs = fs; ino = ino; offset = offset; count = counted n none })
  done-Written fs h offset n len e = record {
    ino_kept = refl;
    moved = omega (arith, e);
    count = ap (λ n. counted n none) e;
    small = h;
    bytes = λ k lt. ground (arith, e);
    others = λ idx j apart lt. refl;
  }

  pub write_loop-Written :
      (fuel : ℕ) (fs : FileSystem) (offset n len : ℕ)
      → IsSmallFile fs ino
      → n ≤ len
      → offset + (len - n) ≤ 12 * blocksize
      → len - n ≤ fuel
      → Written fs ino data' offset n len (write_loop fuel fs ino data' len offset n)
  unfolding write_loop
  write_loop-Written zero fs offset n len h le room enough =
      done-Written fs h offset n len (omega arith)
  write_loop-Written (suc fuel) fs offset n len h le room enough = elim (Bool-cases (ltb n len)) [
    | inr done ↦ rw (done, write_loop) (done-Written fs h offset n len (ground arith))
    | inl more ↦
        let v = offset / blocksize in
        let c = chunk_of (len - n) offset in
        let blk = new_block fs ino h data' offset n c in
        let read = read_data_block_fits fs (ino.direct v) h.layout (h.pointers v) in
        let stored = write_data_block_fits fs (ino.direct v) h.layout (h.pointers v) blk in
        rw (more, direct_num fs ino v (ground arith), read, read, stored, read, stored, write_loop)
          (step-Written fs h offset n c len _ (omega arith) (ground arith) (ground arith) (
            write_loop-Written fuel (after fs ino h data' offset n c) (offset + c) (n + c) len
              (after-IsSmallFile fs ino h data' offset n c) (ground arith) (ground arith)
              (ground arith)))
  ]
