-- ===== src/Inode/Store.antt =====
-- Inodes on the disk: what `readInode` finds after a `writeInode`.
use byte_space.Prelude.{
  Bool-cases, inl, inr, ◌==◌, ==→eq, if◌then◌else◌, ℕ, ◌+◌, ◌≤◌, ◌≡◌, ◌≢◌, inl, inr, refl, arith,
  none, ok, ltb, if◌then◌else◌, ap, sym, ◌∙◌,
}
use byte_space.Bytes.{slice}
use byte_space.Disk.{overwrite}
use byte_space.Disk.Laws.{write_at_fits, read_at_fits, byte-overwrite_self, byte-overwrite_ne}
use byte_space.Layout.{inodesize}
use byte_space.FileSystem.{FileSystem, with_disk}
use byte_space.Inode.{
  Inode, encode_inode, decode_inode, inode_offset, read_inode, write_inode, after_read, after_write,
}
use byte_space.Inode.Codec.{InRange, decode_inode-encode_inode}

-- The inode's 128 bytes lie on the disk.
abbrev pub HasInode : FileSystem → ℕ → Type 0
HasInode fs idx = inode_offset fs idx + inodesize ≤ fs.disk.len

pub read_inode_fits :
    (fs : FileSystem) (into : Inode) (idx : ℕ)
    → HasInode fs idx
    → read_inode fs into idx ≡ (
      none,
      decode_inode (slice fs.disk.byte (inode_offset fs idx) inodesize) (record into { num = idx }),
    )
unfolding read_inode
read_inode_fits fs into idx has =
    ap (λ r. after_read r (record into { num = idx }))
      (read_at_fits fs.disk inodesize (inode_offset fs idx) (omega arith) has)

abbrev pub stored : FileSystem → Inode → ℕ → FileSystem
stored fs i idx = with_disk fs (overwrite fs.disk (encode_inode i) inodesize (inode_offset fs idx))

pub write_inode_fits :
    (fs : FileSystem) (i : Inode) (idx : ℕ)
    → HasInode fs idx
    → write_inode i idx fs ≡ (ok tt, stored fs i idx)
unfolding write_inode
write_inode_fits fs i idx has =
    ap (λ w. after_write w fs)
      (write_at_fits fs.disk (encode_inode i) inodesize (inode_offset fs idx) (omega arith) has)

stored-HasInode :
    (fs : FileSystem) (i : Inode) (idx other : ℕ)
    → HasInode fs other
    → HasInode (stored fs i idx) other
unfolding overwrite
stored-HasInode fs i idx other has = has

read_inode-stored_self :
    (fs : FileSystem) (i into : Inode) (idx : ℕ)
    → InRange i
    → HasInode fs idx
    → read_inode (stored fs i idx) into idx ≡ (
      none,
      record i {
        dirty = into.dirty;
        num = idx;
        direct = λ k. if ltb k 12 then i.direct k else into.direct k;
      },
    )
read_inode-stored_self fs i into idx r has =
    read_inode_fits (stored fs i idx) into idx (stored-HasInode fs i idx idx has)
    ∙ ap (λ b. (none, decode_inode b (record into { num = idx })))
        (byte-overwrite_self fs.disk (encode_inode i) inodesize (inode_offset fs idx))
    ∙ ap (λ j. (none, j)) (decode_inode-encode_inode i r (record into { num = idx }))

read_inode-stored_ne :
    (fs : FileSystem) (i into : Inode) (idx other : ℕ)
    → other ≢ idx
    → HasInode fs other
    → read_inode (stored fs i idx) into other ≡ read_inode fs into other
read_inode-stored_ne fs i into idx other ne has =
    read_inode_fits (stored fs i idx) into other (stored-HasInode fs i idx other has)
    ∙ ap (λ b. (none, decode_inode b (record into { num = other })))
        (byte-overwrite_ne fs.disk (encode_inode i) inodesize (inode_offset fs idx) inodesize
          (inode_offset fs other) (omega arith))
    ∙ sym (read_inode_fits fs into other has)

-- A written inode is read back whole: where its 128 bytes lie on the disk and its fields fit
-- their types, the write succeeds, and a read of that number gives every field, with the `dirty`
-- flag of the struct read into; and a read of any other inode on the disk gives what it gave.
pub read_inode-write_inode :
    (fs : FileSystem) (i into : Inode) (idx other : ℕ)
    → InRange i
    → HasInode fs idx
    → HasInode fs other
    → ((write_inode i idx fs).0 ≡ ok tt)
      × (read_inode (write_inode i idx fs).1 into other ≡ (
          if other == idx
          then (
            none,
            record i {
              dirty = into.dirty;
              num = idx;
              direct = λ k. if ltb k 12 then i.direct k else into.direct k;
            },
          )
          else read_inode fs into other))
read_inode-write_inode fs i into idx other r has has' = rw (write_inode_fits fs i idx has) (
  refl,
  elim (Bool-cases (other == idx)) [
    | inl e ↦ rw (e, ==→eq other idx e) (read_inode-stored_self fs i into idx r has)
    | inr e ↦ rw e (read_inode-stored_ne fs i into idx other (λ same. ground (arith, e, same)) has')
  ],
)
