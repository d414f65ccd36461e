-- ===== src/Dentry/Insert.antt =====
-- A directory block as the list of its entries: what filling and clearing a slot do to the list.
use mathlib.Core.Path.{ap₂}
use byte_space.Prelude.{
  ℕ, zero, suc, ◌+◌, ◌*◌, ◌≤◌, ◌≡◌, ◌≢◌, inl, inr, refl, ap, subst, ◌∙◌, arith, true, false, Option,
  some, ◌==◌, ==→eq, if◌then◌else◌, List, [], ◌∷◌, ◌++◌, ok, Bool-cases,
}
use byte_space.Bytes.{Buffer, get_u32, to_list}
use byte_space.Layout.{blocksize}
use byte_space.Dentry.{DirEntry, add_entry, decode_name, decode_slots, free_slot, fill_slot}
use byte_space.Dentry.Slots.{
  NameFits, SameSlot, IsEncoded, decode_name_fits, slot_inum, slot_name, fill_slot_other,
  fill_slot_self,
}

-- Every slot in use has a name that fits it. Blocks that the code fills from zeros are so.
abbrev pub SlotsFit : ℕ → Buffer → ℕ → Type 0
SlotsFit zero block i = Unit {0}
SlotsFit (suc rounds) block i =
    (get_u32 block i ≢ 0 → NameFits block i) × SlotsFit rounds block (i + 64)

pub ap₃ :
    {A B C D : Type 0} (f : A → B → C → D) {a a' : A} {b b' : B} {c c' : C}
    → a ≡ a'
    → b ≡ b'
    → c ≡ c'
    → f a b c ≡ f a' b' c'
ap₃ f p q r = λ i. f (p i) (q i) (r i)

-- Slots from `i` on that agree are decoded alike.
pub decode_same :
    (rounds : ℕ) (a b : Buffer) (i : ℕ)
    → i + 64 * rounds ≤ blocksize
    → ((j : ℕ) → i ≤ j → SameSlot a b j)
    → SlotsFit rounds b i
    → (decode_slots rounds a i ≡ decode_slots rounds b i) × SlotsFit rounds a i
unfolding decode_slots
decode_same zero a b i room same fit = (refl, tt)
decode_same (suc rounds) a b i room same fit =
    let inum = slot_inum a b i (same i (omega arith)) in
    let rest = decode_same rounds a b (i + 64) (omega arith) (λ j h. same j (omega arith)) fit.1 in
    elim (Bool-cases (get_u32 b i == 0)) [
      | inl free ↦ (rw (inum, free, rest.0), (λ ne. absurd (ne (inum ∙ ==→eq _ _ free)), rest.1))
      | inr used ↦
          let name = slot_name a b i (same i (omega arith)) (fit.0 (ground arith)) (omega arith) in
          (rw (inum, used, rest.0, name.1), (λ ne. name.0, rest.1))
    ]

-- Slots that fit are decoded without a panic.
pub decode_slots_fit :
    (rounds : ℕ) (block : Buffer) (i : ℕ)
    → i + 64 * rounds ≤ blocksize
    → SlotsFit rounds block i
    → (old : List DirEntry) × (decode_slots rounds block i ≡ ok old)
unfolding decode_slots
decode_slots_fit zero block i room fit = ([], refl)
decode_slots_fit (suc rounds) block i room fit =
    let (rest, e) = decode_slots_fit rounds block (i + 64) (omega arith) fit.1 in
    elim (Bool-cases (get_u32 block i == 0)) [
      | inl free ↦ (rest, rw (free, e))
      | inr used ↦ (
        record { inum = get_u32 block i; name = to_list block (i + 8) (block (i + 4)) } ∷ rest,
        rw (used, e, decode_name_fits block i (fit.0 (ground arith)) (omega arith)),
      )
    ]

-- `new` is `old` with the entry put in somewhere.
pub record Inserted (dentry : DirEntry) (old new : List DirEntry) : Type 0 where
  pub before : List DirEntry
  pub after : List DirEntry
  pub old_is : old ≡ before ++ after
  pub new_is : new ≡ before ++ dentry ∷ after

Inserted-cons :
    {dentry : DirEntry} {old new : List DirEntry} (e : DirEntry)
    → Inserted dentry old new
    → Inserted dentry (e ∷ old) (e ∷ new)
Inserted-cons e h = record {
  before = e ∷ h.before;
  after = h.after;
  old_is = ap (◌∷◌ e) h.old_is;
  new_is = ap (◌∷◌ e) h.new_is;
}

-- The block after the first free slot was filled: it is decoded to the old entries and the new
-- one, and its slots fit.
pub record SlotFilled (dentry : DirEntry) (rounds : ℕ) (block filled : Buffer) (i : ℕ)
    : Type 0 where
  pub old : List DirEntry
  pub new : List DirEntry
  pub old_decoded : decode_slots rounds block i ≡ ok old
  pub new_decoded : decode_slots rounds filled i ≡ ok new
  pub inserted : Inserted dentry old new
  pub fit : SlotsFit rounds filled i

pub free_slot-le :
    (rounds : ℕ) (block : Buffer) (i at : ℕ) → free_slot rounds block i ≡ some at → i ≤ at
unfolding free_slot
free_slot-le zero block i at h = absurd (ground arith)
free_slot-le (suc rounds) block i at h = elim (Bool-cases (get_u32 block i == 0)) [
  | inl free ↦ ground arith
  | inr used ↦ ground (arith, free_slot-le rounds block (i + 64) at)
]

-- The first slot is free, and is filled.
filled_here :
    (dentry : DirEntry) (encoded : Buffer) (rounds : ℕ) (block : Buffer) (i : ℕ)
    → IsEncoded dentry encoded
    → i + 64 * suc rounds ≤ blocksize
    → SlotsFit (suc rounds) block i
    → (get_u32 block i == 0) ≡ true
    → SlotFilled dentry (suc rounds) block (fill_slot block i encoded) i
unfolding decode_slots
filled_here dentry encoded rounds block i e room fit free =
    let filled : Buffer = fill_slot block i encoded in
    let (rest, decoded) = decode_slots_fit rounds block (i + 64) (omega arith) fit.1 in
    let (same_rest, fit_rest) =
      decode_same rounds filled block (i + 64) (omega arith)
        (λ j h. fill_slot_other block encoded i j (inr h)) fit.1 in
    let self = fill_slot_self block encoded i dentry e (omega arith) in
    let used : (get_u32 filled i == 0) ≡ false = (rw self.0 (ground (arith, e.valid))) in
    record {
      old = rest;
      new = dentry ∷ rest;
      old_decoded = rw (free, decoded);
      new_decoded =
          ap
            (λ b.
              if b
              then decode_slots rounds filled (i + 64)
              else add_entry (get_u32 filled i) (decode_name filled i)
                  (decode_slots rounds filled (i + 64)))
            used
          ∙ ap₃ add_entry self.0 self.2 (same_rest ∙ decoded);
      inserted = record { before = []; after = rest; old_is = refl; new_is = refl };
      fit = (λ ne. self.1, fit_rest);
    }

-- The first slot is in use, and a later one was filled.
filled_there :
    (dentry : DirEntry) (encoded : Buffer) (rounds : ℕ) (block : Buffer) (i at : ℕ)
    → i + 64 * suc rounds ≤ blocksize
    → i + 64 ≤ at
    → SlotsFit (suc rounds) block i
    → (get_u32 block i == 0) ≡ false
    → SlotFilled dentry rounds block (fill_slot block at encoded) (i + 64)
    → SlotFilled dentry (suc rounds) block (fill_slot block at encoded) i
unfolding decode_slots
filled_there dentry encoded rounds block i at room later fit used rest =
    let filled : Buffer = fill_slot block at encoded in
    let same : SameSlot filled block i = fill_slot_other block encoded at i (inl later) in
    let inum = slot_inum filled block i same in
    let fits : NameFits block i = fit.0 (ground arith) in
    let name = slot_name filled block i same fits (omega arith) in
    let entry : DirEntry = record {
      inum = get_u32 block i;
      name = to_list block (i + 8) (block (i + 4));
    } in
    let named = decode_name_fits block i fits (omega arith) in
    let used' : (get_u32 filled i == 0) ≡ false = ap (λ n. n == 0) inum ∙ used in
    record {
      old = entry ∷ rest.old;
      new = entry ∷ rest.new;
      old_decoded =
          ap
            (λ b.
              if b
              then decode_slots rounds block (i + 64)
              else add_entry (get_u32 block i) (decode_name block i)
                  (decode_slots rounds block (i + 64)))
            used
          ∙ ap₂ (add_entry (get_u32 block i)) named rest.old_decoded;
      new_decoded =
          ap
            (λ b.
              if b
              then decode_slots rounds filled (i + 64)
              else add_entry (get_u32 filled i) (decode_name filled i)
                  (decode_slots rounds filled (i + 64)))
            used'
          ∙ ap₃ add_entry inum (name.1 ∙ named) rest.new_decoded;
      inserted = Inserted-cons entry rest.inserted;
      fit = (λ ne. name.0, rest.fit);
    }

first_free :
    (block : Buffer) (i at : ℕ) (rest : Option ℕ)
    → (get_u32 block i == 0) ≡ true
    → (if get_u32 block i == 0 then some i else rest) ≡ some at
    → i ≡ at
first_free block i at rest free h = ground arith

later_free :
    (block : Buffer) (i at : ℕ) (rest : Option ℕ)
    → (get_u32 block i == 0) ≡ false
    → (if get_u32 block i == 0 then some i else rest) ≡ some at
    → rest ≡ some at
later_free block i at rest used h = ground arith

-- Where a block has a free slot, and the names in its slots fit them, filling the first one with an encoded entry
-- puts the entry into the list of the block's entries, and leaves the others in their order.
pub free_slot-SlotFilled :
    (dentry : DirEntry) (encoded : Buffer) (rounds : ℕ) (block : Buffer) (i at : ℕ)
    → IsEncoded dentry encoded
    → i + 64 * rounds ≤ blocksize
    → SlotsFit rounds block i
    → free_slot rounds block i ≡ some at
    → SlotFilled dentry rounds block (fill_slot block at encoded) i
unfolding free_slot
free_slot-SlotFilled dentry encoded zero block i at e room fit h = absurd (ground arith)
free_slot-SlotFilled dentry encoded (suc rounds) block i at e room fit h =
    elim (Bool-cases (get_u32 block i == 0)) [
      | inl free ↦
          subst (λ n. SlotFilled dentry (suc rounds) block (fill_slot block n encoded) i)
            (first_free block i at (free_slot rounds block (i + 64)) free h)
            (filled_here dentry encoded rounds block i e room fit free)
      | inr used ↦
          let h' = later_free block i at (free_slot rounds block (i + 64)) used h in
          filled_there dentry encoded rounds block i at room
            (free_slot-le rounds block (i + 64) at h') fit used
            (free_slot-SlotFilled dentry encoded rounds block (i + 64) at e (omega arith) fit.1 h')
    ]
