-- ===== src/Inode/Codec.antt =====
-- The 128 bytes of an inode, encoded and decoded.
use byte_space.Prelude.{
  ltb→lt, subst, ◌==◌, ℕ, zero, suc, ◌+◌, ◌*◌, ◌<◌, ◌≤◌, ◌^◌, length, ◌≡◌, ◌⊎◌, inl, inr, refl,
  arith, ltb, if◌then◌else◌, Bool-cases, ◌∙◌,
}
use byte_space.Bytes.{Buffer, get_u16, get_u64, get_u32, to_list, slice}
use byte_space.Bytes.Laws.{to_list-eq, get_u32-put_u32_self, get_u32-put_u32_ne}
use byte_space.Layout.{inodesize}
use byte_space.Inode.{Inode, encode_inode, decode_inode, put_direct, encode_fields}

-- The values that the Go struct can hold.
pub record InRange (i : Inode) : Type 0 where
  pub size : i.size < 2 ^ 32
  pub f_type : i.f_type < 256
  pub refs : i.refs < 2 ^ 16
  pub owner : length i.owner ≡ 14
  pub owner_mode : i.owner_mode < 256
  pub other_mode : i.other_mode < 256
  pub direct : (idx : ℕ) → i.direct idx < 2 ^ 32
  pub find : i.find < 2 ^ 32
  pub sind : i.sind < 2 ^ 32
  pub tind : i.tind < 2 ^ 32
  pub created_at : i.created_at < 2 ^ 64
  pub modified_at : i.modified_at < 2 ^ 64

-- The pointer table leaves what stands before it, and behind it.
put_direct_outside :
    (k : ℕ) (buf : Buffer) (direct : ℕ → ℕ) (i : ℕ)
    → (i < 24) ⊎ (24 + k * 4 ≤ i)
    → put_direct k buf direct i ≡ buf i
unfolding put_direct
put_direct_outside zero buf direct i h = refl
put_direct_outside (suc k) buf direct i (inl h) =
    ground (arith, put_direct_outside k buf direct i (inl h))
put_direct_outside (suc k) buf direct i (inr h) =
    ground (arith, put_direct_outside k buf direct i (inr (omega arith)))

get_u32-put_direct :
    (k : ℕ) (buf : Buffer) (direct : ℕ → ℕ) (idx : ℕ)
    → idx < k
    → direct idx < 2 ^ 32
    → get_u32 (put_direct k buf direct) (24 + idx * 4) ≡ direct idx
unfolding put_direct
get_u32-put_direct zero buf direct idx h fits = absurd (omega arith)
get_u32-put_direct (suc k) buf direct idx h fits = elim (Bool-cases (ltb idx k)) [
  | inl below ↦
      get_u32-put_u32_ne (put_direct k buf direct) (24 + k * 4) (direct k) (24 + idx * 4)
        (inl (ground arith))
      ∙ get_u32-put_direct k buf direct idx (ground arith) fits
  | inr last ↦
      let e : idx ≡ k = ground arith in
      rw e (get_u32-put_u32_self (put_direct k buf direct) (24 + k * 4) (direct k) (rw (← e) fits))
]

module _ (i : Inode) where
  encode_inode_pointers :
      (j : ℕ) → j < 72 → encode_inode i j ≡ put_direct 12 (encode_fields i) i.direct j
  unfolding encode_inode
  encode_inode_pointers j h = ground arith

  encode_inode_fields : (j : ℕ) → j < 24 → encode_inode i j ≡ encode_fields i j
  encode_inode_fields j h =
      encode_inode_pointers j (omega arith)
      ∙ put_direct_outside 12 (encode_fields i) i.direct j (inl h)

  module _ (r : InRange i) where
    encoded : Buffer
    encoded = slice (encode_inode i) 0 inodesize

    owner_back : to_list encoded 7 (length i.owner) ≡ i.owner
    unfolding encoded encode_fields
    owner_back =
        to_list-eq i.owner encoded 7 λ j lt. ground (arith, r.owner, encode_inode_fields (7 + j))

    direct_back : (idx : ℕ) → idx < 12 → get_u32 encoded (24 + idx * 4) ≡ i.direct idx
    unfolding encoded
    direct_back idx h = ground (
      arith,
      encode_inode_pointers (24 + idx * 4),
      encode_inode_pointers (24 + idx * 4 + 1),
      encode_inode_pointers (24 + idx * 4 + 2),
      encode_inode_pointers (24 + idx * 4 + 3),
      get_u32-put_direct 12 (encode_fields i) i.direct idx h (r.direct idx),
    )

    fields_back :
        (get_u32 encoded 0 ≡ i.size)
        × (encoded 4 ≡ i.f_type)
        × (get_u16 encoded 5 ≡ i.refs)
        × ((encoded 21 == 1) ≡ i.setuid)
        × (encoded 22 ≡ i.owner_mode)
        × (encoded 23 ≡ i.other_mode)
    unfolding encoded encode_fields
    fields_back = ground (
      arith,
      r.size,
      r.f_type,
      r.refs,
      r.owner_mode,
      r.other_mode,
      encode_inode_fields 0,
      encode_inode_fields 1,
      encode_inode_fields 2,
      encode_inode_fields 3,
      encode_inode_fields 4,
      encode_inode_fields 5,
      encode_inode_fields 6,
      encode_inode_fields 21,
      encode_inode_fields 22,
      encode_inode_fields 23,
    )

    tail_back :
        (get_u32 encoded 72 ≡ i.find)
        × (get_u32 encoded 76 ≡ i.sind)
        × (get_u32 encoded 80 ≡ i.tind)
        × (get_u64 encoded 84 ≡ i.created_at)
        × (get_u64 encoded 92 ≡ i.modified_at)
    unfolding encoded encode_inode
    tail_back = ground (arith, r.find, r.sind, r.tind, r.created_at, r.modified_at)

    owner_back14 : to_list encoded 7 14 ≡ i.owner
    owner_back14 = subst (λ n. to_list encoded 7 n ≡ i.owner) r.owner owner_back

    direct_or_old :
        (into : Inode) (idx : ℕ)
        → (if ltb idx 12 then get_u32 encoded (24 + idx * 4) else into.direct idx)
          ≡ (if ltb idx 12 then i.direct idx else into.direct idx)
    direct_or_old into idx = elim (Bool-cases (ltb idx 12)) [
      | inl below ↦ rw below (direct_back idx (ltb→lt idx 12 below))
      | inr above ↦ rw above
    ]

    -- What `readInode` decodes from what `writeInode` encoded: every field of the inode, with the
    -- `dirty` flag and the number of the inode read into.
    pub decode_inode-encode_inode :
        (into : Inode)
        → decode_inode (slice (encode_inode i) 0 inodesize) into ≡ record i {
          dirty = into.dirty;
          num = into.num;
          direct = λ idx. if ltb idx 12 then i.direct idx else into.direct idx;
        }
    unfolding decode_inode encoded
    decode_inode-encode_inode into = λ k. record {
      dirty = into.dirty;
      size = fields_back.0 k;
      f_type = fields_back.1 k;
      refs = fields_back.2 k;
      owner = owner_back14 k;
      setuid = fields_back.3 k;
      owner_mode = fields_back.4 k;
      other_mode = fields_back.5 k;
      direct = λ idx. direct_or_old into idx k;
      find = tail_back.0 k;
      sind = tail_back.1 k;
      tind = tail_back.2 k;
      created_at = tail_back.3 k;
      modified_at = tail_back.4 k;
      num = into.num;
    }
