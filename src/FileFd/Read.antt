-- ===== src/FileFd/Read.antt =====
-- What `FileFD.Read` gives: the bytes of the file from its position on.
use byte_space.Prelude.{
  ℕ, zero, suc, ◌+◌, ◌-◌, ◌*◌, ◌/◌, ◌%◌, ◌^◌, ◌<◌, ◌≤◌, ◌≡◌, refl, ap, ◌∙◌, arith, min, ◌&&◌, none,
  some, leb, ltb, if◌then◌else◌, eof, ok, Bool-cases, inl, inr,
}
use byte_space.Bytes.{Buffer, copy_into, slice}
use byte_space.Layout.{blocksize, blocks}
use byte_space.FileSystem.{FileSystem}
use byte_space.FileSystem.Blocks.{HasLayout, data_offset, read_data_block_fits}
use byte_space.Places.{virtual_to_place_relative, in_inode, number_at, block_num_for_virtual}
use byte_space.Inode.{Inode}
use byte_space.FileFd.{
  FileFd, counted, ReadState, chunk_of, got_block, block_of, block_at, read_loop, read,
}

-- The blocks of a file, all of which can be read.
pub record HasBlocks (fs : FileSystem) (ino : Inode) (blk : ℕ → Buffer) : Type 0 where
  pub readable : (k : ℕ) → k < ino.size → block_at fs ino k ≡ ok (blk (k / blocksize))

-- The bytes of the file.
abbrev pub content : (ℕ → Buffer) → Buffer
content blk k = blk (k / blocksize) (k % blocksize)

-- A buffer with the bytes from `n` up to `to_read` taken from the file, from `offset` on.
abbrev pub filled : Buffer → Buffer → ℕ → ℕ → ℕ → Buffer
filled buf file offset n to_read i =
    if leb n i && ltb i to_read then file (offset + (i - n)) else buf i

ReadState-eq :
    (s t : ReadState)
    → ((i : ℕ) → s.buf i ≡ t.buf i)
    → s.offset ≡ t.offset
    → s.count ≡ t.count
    → s ≡ t
ReadState-eq s t b o c = λ k. record { buf = λ i. b i k; offset = o k; count = c k }

module _ (fs : FileSystem) (ino : Inode) (blk : ℕ → Buffer) (h : HasBlocks fs ino blk) where
  content-chunk :
      (offset j : ℕ)
      → j < blocksize - offset % blocksize
      → blk (offset / blocksize) (offset % blocksize + j) ≡ content blk (offset + j)
  content-chunk offset j lt =
      ap (λ v. blk v (offset % blocksize + j)) (omega arith)
      ∙ ap (blk ((offset + j) / blocksize)) (omega arith)

  chunk_filled :
      (buf : Buffer) (offset n to_read c i : ℕ)
      → n + c ≤ to_read
      → c ≤ blocksize - offset % blocksize
      → filled
          (copy_into buf n c (slice (blk (offset / blocksize)) (offset % blocksize) c))
          (content blk)
          (offset + c)
          (n + c)
          to_read
          i
        ≡ filled buf (content blk) offset n to_read i
  chunk_filled buf offset n to_read c i le fits = elim (Bool-cases (ltb i (n + c))) [
    | inl near ↦ ground (arith, content-chunk offset (i - n))
    | inr far ↦
        let same : content blk (offset + c + (i - (n + c))) ≡ content blk (offset + (i - n)) =
          ap (content blk) (ground arith) in
        ground (arith, same)
  ]

  read_loop-filled :
      (fuel : ℕ) (buf : Buffer) (offset n to_read : ℕ)
      → n ≤ to_read
      → offset + (to_read - n) ≤ ino.size
      → to_read - n ≤ fuel
      → read_loop fuel fs ino buf offset n to_read ≡ record {
        buf = filled buf (content blk) offset n to_read;
        offset = offset + (to_read - n);
        count = counted to_read none;
      }
  unfolding read_loop
  read_loop-filled zero buf offset n to_read le room enough =
      ReadState-eq _ _ (λ i. ground arith) (omega arith) (ap (λ m. counted m none) (omega arith))
  read_loop-filled (suc fuel) buf offset n to_read le room enough =
      elim (Bool-cases (ltb n to_read)) [
        | inr done ↦
            rw (done, read_loop)
              (ReadState-eq _ _ (λ i. ground arith) (ground arith)
                (ap (λ m. counted m none) (ground arith)))
        | inl more ↦
            let c = chunk_of (to_read - n) offset in
            rw (more, h.readable offset (ground arith), read_loop)
              (read_loop-filled fuel
                  (copy_into buf n c (slice (blk (offset / blocksize)) (offset % blocksize) c))
                  (offset + c) (n + c) to_read (ground arith) (ground arith) (ground arith)
                ∙ ReadState-eq _ _
                    (λ i. chunk_filled buf offset n to_read c i (ground arith) (ground arith))
                    (ground arith) refl)
      ]

-- Where the blocks of the file can be read, `Read` puts the bytes of the file from its position on
-- into the buffer, as many as fit and are left, leaves the rest of the buffer, moves on by that
-- number and returns it; at the end of the file or past it, it returns `EOF` and changes nothing.
pub read-filled :
    (fs : FileSystem) (ino : Inode) (blk : ℕ → Buffer) (f : FileFd) (buf : Buffer) (len : ℕ)
    → HasBlocks fs ino blk
    → read f fs ino buf len ≡ (
        if leb ino.size f.offset
        then record { buf = buf; offset = f.offset; count = counted 0 (some eof) }
        else record {
          buf = filled buf (content blk) f.offset 0 (min len (ino.size - f.offset));
          offset = f.offset + min len (ino.size - f.offset);
          count = counted (min len (ino.size - f.offset)) none;
        })
unfolding read
read-filled fs ino blk f buf len h = elim (Bool-cases (leb ino.size f.offset)) [
  | inl past ↦ rw past
  | inr inside ↦ rw inside (
      read_loop-filled fs ino blk h (min len (ino.size - f.offset)) buf f.offset 0
        (min len (ino.size - f.offset)) (omega arith) (ground arith) (omega arith)
      ∙ ReadState-eq _ _ (λ i. refl) (omega arith) refl)
]

pub direct_num :
    (fs : FileSystem) (ino : Inode) (v : ℕ)
    → v < 12
    → block_num_for_virtual fs ino (v % 2 ^ 32) ≡ ok (ino.direct v)
unfolding block_num_for_virtual virtual_to_place_relative
direct_num fs ino v lt =
    let at : virtual_to_place_relative (v % 2 ^ 32) ≡ (v, in_inode) = ground arith in
    ap (λ at. number_at fs ino at.0 at.1) at

-- The blocks of a small file are those of its own pointers.
pub small-HasBlocks :
    (fs : FileSystem) (ino : Inode)
    → HasLayout fs
    → ino.size ≤ 12 * blocksize
    → ((v : ℕ) → ino.direct v < blocks)
    → HasBlocks fs ino (λ v. slice fs.disk.byte (data_offset (ino.direct v)) blocksize)
small-HasBlocks fs ino h small pointers = record {
  readable = λ k lt.
      let v = k / blocksize in
      ap (block_of fs) (direct_num fs ino v (omega arith))
      ∙ ap got_block (read_data_block_fits fs (ino.direct v) h (pointers v));
}
