-- ===== src/Dentry/Slots.antt =====
-- A slot of a directory block on its own.
use native.Mathlib.Nat.{add-zero}
use byte_space.Prelude.{
  ℕ, ◌+◌, ◌-◌, ◌%◌, ◌<◌, ◌≤◌, ◌^◌, ◌≡◌, ◌≢◌, ◌⊎◌, inl, inr, ap, sym, ◌∙◌, arith, false, ltb, length,
  ok,
}
use byte_space.Bytes.{Buffer, zeroed, put_u8, put_u32, get_u32, copy_into, of_list, to_list}
use byte_space.Bytes.Laws.{to_list-eq, to_list_ext}
use byte_space.Layout.{blocksize}
use byte_space.Dentry.{DirEntry, encode_dir_entry, decode_name, fill_slot}

-- A slot whose name has a length that the code writes, so that it does not reach the next slot.
abbrev pub NameFits : Buffer → ℕ → Type 0
NameFits block i = block (i + 4) ≤ 55

-- The two readings of a slot's name.
pub decode_name_fits :
    (block : Buffer) (i : ℕ)
    → NameFits block i
    → i + 64 ≤ blocksize
    → decode_name block i ≡ ok (to_list block (i + 8) (block (i + 4)))
unfolding decode_name
decode_name_fits block i fits inside =
    let e : (block (i + 4) + 8) % 256 ≡ block (i + 4) + 8 = omega arith in
    let a : ltb (block (i + 4) + 8) 8 ≡ false = ground arith in
    let b : ltb (blocksize - i) (block (i + 4) + 8) ≡ false = ground arith in
    let c : block (i + 4) + 8 - 8 ≡ block (i + 4) = omega arith in rw (e, a, b, c)

-- Blocks that agree on the 64 bytes of a slot agree on its content.
pub SameSlot : Buffer → Buffer → ℕ → Type 0
SameSlot a b i = (m : ℕ) → m < 64 → a (i + m) ≡ b (i + m)

pub slot_inum : (a b : Buffer) (i : ℕ) → SameSlot a b i → get_u32 a i ≡ get_u32 b i
unfolding SameSlot
slot_inum a b i h = omega (
  arith,
  ap a (add-zero i),
  ap b (add-zero i),
  h 0 (omega arith),
  h 1 (omega arith),
  h 2 (omega arith),
  h 3 (omega arith),
)

pub slot_name :
    (a b : Buffer) (i : ℕ)
    → SameSlot a b i
    → NameFits b i
    → i + 64 ≤ blocksize
    → (NameFits a i)
      × (decode_name a i ≡ decode_name b i)
      × (to_list a (i + 8) (a (i + 4)) ≡ to_list b (i + 8) (b (i + 4)))
unfolding SameSlot
slot_name a b i h fits inside =
    let len : a (i + 4) ≡ b (i + 4) = h 4 (omega arith) in
    let fits' : NameFits a i = omega arith in
    let names : to_list a (i + 8) (a (i + 4)) ≡ to_list b (i + 8) (b (i + 4)) =
      ap (to_list a (i + 8)) len
      ∙ to_list_ext (b (i + 4)) a b (i + 8) (i + 8)
          (λ m lt. ap a (omega arith) ∙ h (8 + m) (omega arith) ∙ ap b (omega arith)) in
    (
      fits',
      decode_name_fits a i fits' inside ∙ ap ok names ∙ sym (decode_name_fits b i fits inside),
      names,
    )

pub fill_slot_other :
    (block encoded : Buffer) (i j : ℕ)
    → (j + 64 ≤ i) ⊎ (i + 64 ≤ j)
    → SameSlot (fill_slot block i encoded) block j
unfolding SameSlot
fill_slot_other block encoded i j (inl h) m lt = ground arith
fill_slot_other block encoded i j (inr h) m lt = ground arith

-- The bytes that `encodeDirEntry` gives an entry that it accepts.
pub record IsEncoded (dentry : DirEntry) (encoded : Buffer) : Type 0 where
  pub inum : get_u32 encoded 0 ≡ dentry.inum
  pub name_len : encoded 4 ≡ length dentry.name
  pub name : to_list encoded 8 (length dentry.name) ≡ dentry.name
  pub short : length dentry.name ≤ 55
  pub valid : dentry.inum ≢ 0

-- An entry with a name of at most 55 bytes and an inode number that is not 0 and fits 32 bits is
-- encoded: the 64 bytes hold its number, the length of its name and its name.
pub encode_dir_entry-IsEncoded :
    (dentry : DirEntry)
    → length dentry.name ≤ 55
    → dentry.inum ≢ 0
    → dentry.inum < 2 ^ 32
    → (encoded : Buffer) × (encode_dir_entry dentry ≡ ok encoded) × IsEncoded dentry encoded
unfolding encode_dir_entry
encode_dir_entry-IsEncoded dentry short valid fits =
    let n : ℕ = length dentry.name in
    let encoded : Buffer =
      copy_into (put_u8 (put_u32 zeroed 0 dentry.inum) 4 n) 8 n (of_list dentry.name) in
    (
      encoded,
      ground arith,
      record {
        inum = ground arith;
        name_len = ground arith;
        name = to_list-eq dentry.name encoded 8 (λ i lt. ground arith);
        short = short;
        valid = valid;
      },
    )

-- The slot that was filled holds the entry.
pub fill_slot_self :
    (block encoded : Buffer) (i : ℕ) (dentry : DirEntry)
    → IsEncoded dentry encoded
    → i + 64 ≤ blocksize
    → (get_u32 (fill_slot block i encoded) i ≡ dentry.inum)
      × NameFits (fill_slot block i encoded) i
      × (decode_name (fill_slot block i encoded) i ≡ ok dentry.name)
fill_slot_self block encoded i dentry e inside =
    let filled : Buffer = fill_slot block i encoded in
    let bytes : (m : ℕ) → m < 64 → filled (i + m) ≡ encoded m = (λ m lt. ground arith) in
    let len : filled (i + 4) ≡ length dentry.name = bytes 4 (omega arith) ∙ e.name_len in
    let fits : NameFits filled i = omega (arith, e.short) in
    (
      omega (
        arith,
        ap filled (add-zero i),
        bytes 0 (omega arith),
        bytes 1 (omega arith),
        bytes 2 (omega arith),
        bytes 3 (omega arith),
        e.inum,
      ),
      fits,
      decode_name_fits filled i fits inside
          ∙ ap ok (
              ap (to_list filled (i + 8)) len
              ∙ to_list_ext (length dentry.name) filled encoded (i + 8) 8
                  (λ m lt. ap filled (omega arith) ∙ bytes (8 + m) (omega (arith, e.short)))
              ∙ e.name),
    )
