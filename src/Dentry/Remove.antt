-- ===== src/Dentry/Remove.antt =====
-- Clearing the slot of a name in a directory block.
use mathlib.Core.Path.{ap₂}
use mathlib.Core.Bool.{false≢true}
use byte_space.Prelude.{
  ℕ, zero, suc, ◌+◌, ◌*◌, ◌≤◌, ◌≡◌, ◌≢◌, inl, inr, refl, ap, sym, ◌∙◌, arith, true, false, Option,
  none, some, ◌==◌, ==→eq, ltb, if◌then◌else◌, List, [], ◌∷◌, ◌++◌, Result, ok, err, panics,
  Bool-cases, eq_bytes, eq_bytes→eq, eq_bytes_refl,
}
use byte_space.Bytes.{Buffer, zeroed, get_u32, to_list}
use byte_space.Layout.{blocksize}
use byte_space.Dentry.{DirEntry, add_entry, decode_name, decode_slots, named_slot, clear_slot}
use byte_space.Dentry.Slots.{
  NameFits, SameSlot, decode_name_fits, slot_inum, slot_name, fill_slot_other,
}
use byte_space.Dentry.Insert.{SlotsFit, decode_same, decode_slots_fit}

-- No entry of the list has the name.
abbrev pub Unnamed : List ℕ → List DirEntry → Type 0
Unnamed name [] = Unit {0}
Unnamed name (e ∷ entries) = (e.name ≢ name) × Unnamed name entries

-- The first entry of that name was taken out of `old`.
pub record Removed (name : List ℕ) (old new : List DirEntry) : Type 0 where
  pub before : List DirEntry
  pub entry : DirEntry
  pub after : List DirEntry
  pub old_is : old ≡ before ++ entry ∷ after
  pub new_is : new ≡ before ++ after
  pub named : entry.name ≡ name
  pub first : Unnamed name before

pub record SlotCleared (name : List ℕ) (rounds : ℕ) (block cleared : Buffer) (i : ℕ) : Type 0 where
  pub old : List DirEntry
  pub new : List DirEntry
  pub old_decoded : decode_slots rounds block i ≡ ok old
  pub new_decoded : decode_slots rounds cleared i ≡ ok new
  pub removed : Removed name old new
  pub fit : SlotsFit rounds cleared i

pub record NoSlot (name : List ℕ) (rounds : ℕ) (block : Buffer) (i : ℕ) : Type 0 where
  pub old : List DirEntry
  pub old_decoded : decode_slots rounds block i ≡ ok old
  pub unnamed : Unnamed name old

-- What the search for a name promises of its result.
abbrev pub NamedResult : List ℕ → ℕ → Buffer → ℕ → Result (Option ℕ) → Type 0
NamedResult name rounds block i (ok none) = NoSlot name rounds block i
NamedResult name rounds block i (ok (some at)) =
    (i ≤ at) × SlotCleared name rounds block (clear_slot block at) i
NamedResult name rounds block i (err e) = ⊥
NamedResult name rounds block i panics = ⊥

-- A slot that is free.
skip_free :
    (name : List ℕ) (rounds : ℕ) (block : Buffer) (i : ℕ) (r : Result (Option ℕ))
    → (get_u32 block i == 0) ≡ true
    → i + 64 * suc rounds ≤ blocksize
    → NamedResult name rounds block (i + 64) r
    → NamedResult name (suc rounds) block i r
unfolding decode_slots
skip_free name rounds block i (ok none) free room h = record {
  old = h.old;
  old_decoded = rw (free, h.old_decoded);
  unnamed = h.unnamed;
}
skip_free name rounds block i (ok (some at)) free room (later, h) =
    let cleared : Buffer = clear_slot block at in
    let inum = slot_inum cleared block i (fill_slot_other block zeroed at i (inl later)) in
    let free' : (get_u32 cleared i == 0) ≡ true = ap (λ n. n == 0) inum ∙ free in
    (
      omega arith,
      record {
        old = h.old;
        new = h.new;
        old_decoded = rw (free, h.old_decoded);
        new_decoded = rw (free', h.new_decoded);
        removed = h.removed;
        fit = (λ ne. absurd (ne (==→eq _ _ free')), h.fit);
      },
    )
skip_free name rounds block i (err e) free room h = h
skip_free name rounds block i panics free room h = h

Removed-cons :
    {name : List ℕ} {old new : List DirEntry} (e : DirEntry)
    → e.name ≢ name
    → Removed name old new
    → Removed name (e ∷ old) (e ∷ new)
Removed-cons e ne h = record {
  before = e ∷ h.before;
  entry = h.entry;
  after = h.after;
  old_is = ap (◌∷◌ e) h.old_is;
  new_is = ap (◌∷◌ e) h.new_is;
  named = h.named;
  first = (ne, h.first);
}

-- How a slot in use is decoded, before the rest.
decode_used :
    (rounds : ℕ) (block : Buffer) (i : ℕ) (rest : List DirEntry)
    → (get_u32 block i == 0) ≡ false
    → NameFits block i
    → i + 64 ≤ blocksize
    → decode_slots rounds block (i + 64) ≡ ok rest
    → decode_slots (suc rounds) block i
      ≡ ok (record { inum = get_u32 block i; name = to_list block (i + 8) (block (i + 4)) } ∷ rest)
unfolding decode_slots
decode_used rounds block i rest used fits inside h =
    ap
      (λ b.
        if b
        then decode_slots rounds block (i + 64)
        else add_entry (get_u32 block i) (decode_name block i) (decode_slots rounds block (i + 64)))
      used
    ∙ ap₂ (add_entry (get_u32 block i)) (decode_name_fits block i fits inside) h

-- A slot of another name.
skip_other :
    (name : List ℕ) (rounds : ℕ) (block : Buffer) (i : ℕ) (r : Result (Option ℕ))
    → (get_u32 block i == 0) ≡ false
    → NameFits block i
    → to_list block (i + 8) (block (i + 4)) ≢ name
    → i + 64 * suc rounds ≤ blocksize
    → NamedResult name rounds block (i + 64) r
    → NamedResult name (suc rounds) block i r
skip_other name rounds block i (ok none) used fits ne room h = record {
  old = record { inum = get_u32 block i; name = to_list block (i + 8) (block (i + 4)) } ∷ h.old;
  old_decoded = decode_used rounds block i h.old used fits (omega arith) h.old_decoded;
  unnamed = (ne, h.unnamed);
}
skip_other name rounds block i (ok (some at)) used fits ne room (later, h) =
    let cleared : Buffer = clear_slot block at in
    let same : SameSlot cleared block i = fill_slot_other block zeroed at i (inl later) in
    let inum = slot_inum cleared block i same in
    let names = slot_name cleared block i same fits (omega arith) in
    let used' : (get_u32 cleared i == 0) ≡ false = ap (λ n. n == 0) inum ∙ used in
    let entry : DirEntry = record {
      inum = get_u32 block i;
      name = to_list block (i + 8) (block (i + 4));
    } in
    (
      omega arith,
      record {
        old = entry ∷ h.old;
        new = entry ∷ h.new;
        old_decoded = decode_used rounds block i h.old used fits (omega arith) h.old_decoded;
        new_decoded =
            decode_used rounds cleared i h.new used' names.0 (omega arith) h.new_decoded
            ∙ ap₂ (λ n s. ok (record { inum = n; name = s } ∷ h.new)) inum names.2;
        removed = Removed-cons entry ne h.removed;
        fit = (λ _. names.0, h.fit);
      },
    )
skip_other name rounds block i (err e) used fits ne room h = h
skip_other name rounds block i panics used fits ne room h = h

-- The slot of the name.
clear_here :
    (name : List ℕ) (rounds : ℕ) (block : Buffer) (i : ℕ)
    → (get_u32 block i == 0) ≡ false
    → to_list block (i + 8) (block (i + 4)) ≡ name
    → i + 64 * suc rounds ≤ blocksize
    → SlotsFit (suc rounds) block i
    → SlotCleared name (suc rounds) block (clear_slot block i) i
clear_here name rounds block i used named room fit =
    let cleared : Buffer = clear_slot block i in
    let (rest, decoded) = decode_slots_fit rounds block (i + 64) (omega arith) fit.1 in
    let (same_rest, fit_rest) =
      decode_same rounds cleared block (i + 64) (omega arith)
        (λ j h. fill_slot_other block zeroed i j (inr h)) fit.1 in
    let free : (get_u32 cleared i == 0) ≡ true = ground arith in
    let fits : NameFits block i = fit.0 (ground arith) in
    record {
      old = record { inum = get_u32 block i; name = to_list block (i + 8) (block (i + 4)) } ∷ rest;
      new = rest;
      old_decoded = decode_used rounds block i rest used fits (omega arith) decoded;
      new_decoded = unfold decode_slots in rw (free, same_rest, decoded);
      removed = record {
        before = [];
        entry = record { inum = get_u32 block i; name = to_list block (i + 8) (block (i + 4)) };
        after = rest;
        old_is = refl;
        new_is = refl;
        named = named;
        first = tt;
      };
      fit = (λ ne. absurd (ne (==→eq _ _ free)), fit_rest);
    }

-- In a block with fitting slots the search for a name does not panic. It finds the first slot of
-- that name, and clearing that slot takes just that entry out of the list of entries; or it finds
-- none, and no entry has the name.
pub named_slot-NamedResult :
    (name : List ℕ) (rounds : ℕ) (block : Buffer) (i : ℕ)
    → i + 64 * rounds ≤ blocksize
    → SlotsFit rounds block i
    → NamedResult name rounds block i (named_slot name rounds block i)
unfolding named_slot
named_slot-NamedResult name zero block i room fit = record {
  old = [];
  old_decoded = unfold decode_slots in refl;
  unnamed = tt;
}
named_slot-NamedResult name (suc rounds) block i room fit =
    let rest = named_slot-NamedResult name rounds block (i + 64) (omega arith) fit.1 in
    elim (Bool-cases (get_u32 block i == 0)) [
      | inl free ↦
          rw free
            (skip_free name rounds block i (named_slot name rounds block (i + 64)) free room rest)
      | inr used ↦
          let fits : NameFits block i = fit.0 (ground arith) in
          let inside : ltb blocksize (i + 8 + block (i + 4)) ≡ false = ground arith in
          elim (Bool-cases (eq_bytes (to_list block (i + 8) (block (i + 4))) name)) [
            | inl hit ↦
                rw (used, inside, hit)
                  (omega arith, clear_here name rounds block i used (eq_bytes→eq _ _ hit) room fit)
            | inr miss ↦
                rw (used, inside, miss)
                  (skip_other name rounds block i (named_slot name rounds block (i + 64)) used fits
                    (λ e. false≢true (sym miss ∙ ap (λ s. eq_bytes s name) e ∙ eq_bytes_refl name))
                    room rest)
          ]
    ]
