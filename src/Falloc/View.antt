-- ===== src/Falloc/View.antt =====
-- What the loop of `Falloc` sees of a file: the number of each block, in the inode or in a table
-- that is read or still on the disk.
use mathlib.Core.Path.{ap₂}
use byte_space.Prelude.{
  ltb, leb, ==→eq, continue, panics, ℕ, ◌+◌, ◌*◌, ◌<◌, ◌^◌, ◌≡◌, ◌≢◌, inl, inr, refl, ap, sym, ◌∙◌,
  arith, true, false, none, some, ◌==◌, if◌then◌else◌, Bool-cases, ok,
}
use byte_space.Bytes.{Buffer, put_u32, get_u32}
use byte_space.Bytes.Laws.{get_u32-put_u32_self, get_u32-put_u32_ne}
use byte_space.Places.{
  Table, first, second, third, Place, in_inode, in_table, same, place_start, place_size, pointer,
  virtual_to_place_relative, virtual_to_place_relative_inverse,
  place_start-virtual_to_place_relative,
}
use byte_space.Layout.{blocksize}
use byte_space.Bitmap.{take_bit}
use byte_space.Falloc.{
  max_blocks, Alloc, table, with_table, store_direct, store_pointer, take, taken, grow_place,
  grow_step,
}

abbrev pub slot_at : Alloc → ℕ → Place → ℕ
slot_at a rel in_inode = a.ino.direct rel
slot_at a rel (in_table t) = get_u32 (table a t) (rel * 4)

pub slot : Alloc → ℕ → ℕ
slot a v = slot_at a (virtual_to_place_relative v).0 (virtual_to_place_relative v).1

-- The state in which address `rel` of a place holds `idx`.
abbrev pub placed : ℕ → Place → ℕ → Alloc → Alloc
placed rel in_inode idx a = store_direct rel idx a
placed rel (in_table t) idx a =
    with_table (with_table a t (table a t)) t (put_u32 (table a t) (rel * 4) idx)

same_refl : (t : Table) → same t t ≡ true
same_refl first = refl
same_refl second = refl
same_refl third = refl

pub same→eq : (t u : Table) → same t u ≡ true → t ≡ u
same→eq t u h = ground arith

slot-placed_self :
    (a : Alloc) (rel idx : ℕ) (p : Place) → idx < 2 ^ 32 → slot_at (placed rel p idx a) rel p ≡ idx
slot-placed_self a rel idx in_inode h = ground arith
slot-placed_self a rel idx (in_table first) h = get_u32-put_u32_self (table a first) (rel * 4) idx h
slot-placed_self a rel idx (in_table second) h =
    get_u32-put_u32_self (table a second) (rel * 4) idx h
slot-placed_self a rel idx (in_table third) h = get_u32-put_u32_self (table a third) (rel * 4) idx h

pub table-with_table_self : (a : Alloc) (t : Table) (b : Buffer) → table (with_table a t b) t ≡ b
table-with_table_self a first b = refl
table-with_table_self a second b = refl
table-with_table_self a third b = refl

pub table-with_table_ne :
    (a : Alloc) (t u : Table) (b : Buffer)
    → same t u ≡ false
    → table (with_table a t b) u ≡ table a u
table-with_table_ne a t u b h = rw (h, table)

get_u32-put_u32_apart :
    (b : Buffer) (rel rel' idx : ℕ)
    → rel ≢ rel'
    → get_u32 (put_u32 b (rel * 4) idx) (rel' * 4) ≡ get_u32 b (rel' * 4)
get_u32-put_u32_apart b rel rel' idx ne = elim (Bool-cases (ltb rel rel')) [
  | inl below ↦ get_u32-put_u32_ne b (rel * 4) idx (rel' * 4) (inr (ground arith))
  | inr above ↦ get_u32-put_u32_ne b (rel * 4) idx (rel' * 4) (inl (ground arith))
]

-- Another address, or another place, keeps its number.
slot-placed_table :
    (a : Alloc) (rel rel' idx : ℕ) (t u : Table)
    → ((t ≡ u) → rel ≢ rel')
    → slot_at (placed rel (in_table t) idx a) rel' (in_table u) ≡ slot_at a rel' (in_table u)
slot-placed_table a rel rel' idx t u ne = elim (Bool-cases (same t u)) [
  | inl eq ↦
      let e : t ≡ u = same→eq t u eq in
      ap (λ b. get_u32 b (rel' * 4))
        (ap (table (placed rel (in_table t) idx a)) (sym e)
          ∙ table-with_table_self (with_table a t (table a t)) t
              (put_u32 (table a t) (rel * 4) idx))
      ∙ get_u32-put_u32_apart (table a t) rel rel' idx (ne e)
      ∙ ap (λ v. get_u32 (table a v) (rel' * 4)) e
  | inr other ↦
      ap (λ b. get_u32 b (rel' * 4))
        (table-with_table_ne (with_table a t (table a t)) t u (put_u32 (table a t) (rel * 4) idx)
            other
          ∙ table-with_table_ne a t u (table a t) other)
]

slot-placed_ne :
    (a : Alloc) (rel rel' idx : ℕ) (p q : Place)
    → ((p ≡ q) → rel ≢ rel')
    → slot_at (placed rel p idx a) rel' q ≡ slot_at a rel' q
slot-placed_ne a rel rel' idx in_inode in_inode ne = let ne' : rel ≢ rel' = ne refl in ground arith
slot-placed_ne a rel rel' idx in_inode (in_table first) ne = refl
slot-placed_ne a rel rel' idx in_inode (in_table second) ne = refl
slot-placed_ne a rel rel' idx in_inode (in_table third) ne = refl
slot-placed_ne a rel rel' idx (in_table t) in_inode ne = refl
slot-placed_ne a rel rel' idx (in_table t) (in_table u) ne =
    slot-placed_table a rel rel' idx t u (λ e. ne (ap in_table e))

place_inj :
    (v w : ℕ)
    → v ≢ w
    → (virtual_to_place_relative v).1 ≡ (virtual_to_place_relative w).1
    → (virtual_to_place_relative v).0 ≢ (virtual_to_place_relative w).0
place_inj v w ne same_place same_rel = ne (
    sym (place_start-virtual_to_place_relative v)
    ∙ ap₂ (λ p r. place_start p + r) same_place same_rel
    ∙ place_start-virtual_to_place_relative w)

-- The state after block `i` was given the number `idx`.
abbrev pub given : ℕ → ℕ → Alloc → Alloc
given i idx a = placed (virtual_to_place_relative i).0 (virtual_to_place_relative i).1 idx a

pub slot-given :
    (a : Alloc) (i idx v : ℕ)
    → idx < 2 ^ 32
    → slot (given i idx a) v ≡ (if v == i then idx else slot a v)
unfolding slot
slot-given a i idx v h = elim (Bool-cases (v == i)) [
  | inl eq ↦ rw eq (
      ap
        (λ w.
          slot_at (given i idx a) (virtual_to_place_relative w).0 (virtual_to_place_relative w).1)
        (==→eq v i eq)
      ∙ slot-placed_self a (virtual_to_place_relative i).0 idx (virtual_to_place_relative i).1 h)
  | inr ne ↦ rw ne (
      slot-placed_ne a (virtual_to_place_relative i).0 (virtual_to_place_relative v).0 idx
        (virtual_to_place_relative i).1 (virtual_to_place_relative v).1
        (place_inj i v (ground arith)))
]

-- What stays as it was: the filesystem, the size and the three pointers.
pub record SameFile (a b : Alloc) : Type 0 where
  pub fs : b.fs ≡ a.fs
  pub size : b.ino.size ≡ a.ino.size
  pub pointers : (t : Table) → pointer t b.ino ≡ pointer t a.ino

placed-SameFile : (a : Alloc) (rel idx : ℕ) (p : Place) → SameFile a (placed rel p idx a)
placed-SameFile a rel idx in_inode = record {
  fs = refl;
  size = refl;
  pointers = elim [ first ↦ refl | second ↦ refl | third ↦ refl ];
}
placed-SameFile a rel idx (in_table t) = record { fs = refl; size = refl; pointers = λ u. refl }

pub given-SameFile : (a : Alloc) (i idx : ℕ) → SameFile a (given i idx a)
given-SameFile a i idx =
    placed-SameFile a (virtual_to_place_relative i).0 idx (virtual_to_place_relative i).1

placed-bitmap : (a : Alloc) (rel idx : ℕ) (p : Place) → (placed rel p idx a).bitmap ≡ a.bitmap
placed-bitmap a rel idx in_inode = refl
placed-bitmap a rel idx (in_table t) = refl

pub given-bitmap : (a : Alloc) (i idx : ℕ) → (given i idx a).bitmap ≡ a.bitmap
given-bitmap a i idx =
    placed-bitmap a (virtual_to_place_relative i).0 idx (virtual_to_place_relative i).1

abbrev pub with_bitmap : Alloc → Buffer → Alloc
with_bitmap a b = record a { bitmap = b }

slot_at-with_bitmap :
    (a : Alloc) (b : Buffer) (rel : ℕ) (p : Place)
    → slot_at (with_bitmap a b) rel p ≡ slot_at a rel p
slot_at-with_bitmap a b rel in_inode = refl
slot_at-with_bitmap a b rel (in_table first) = refl
slot_at-with_bitmap a b rel (in_table second) = refl
slot_at-with_bitmap a b rel (in_table third) = refl

pub slot-with_bitmap : (a : Alloc) (b : Buffer) (v : ℕ) → slot (with_bitmap a b) v ≡ slot a v
unfolding slot
slot-with_bitmap a b v =
    slot_at-with_bitmap a b (virtual_to_place_relative v).0 (virtual_to_place_relative v).1

take_ok :
    (a : Alloc) (idx : ℕ) (b : Buffer)
    → take_bit blocksize a.bitmap ≡ some (idx, b)
    → take a ≡ (ok idx, with_bitmap a b)
unfolding take
take_ok a idx b e = ap (λ o. taken o a) e

grow_place_ok :
    (a : Alloc) (rel idx : ℕ) (p : Place) (b : Buffer)
    → take_bit blocksize a.bitmap ≡ some (idx, b)
    → rel < place_size p
    → grow_place rel p a ≡ (ok tt, placed rel p idx (with_bitmap a b))
unfolding grow_place take store_pointer
grow_place_ok a rel idx in_inode b e h =
    ap (λ r. continue r.0 (λ n s. (ok tt, store_direct rel n s)) r.1) (take_ok a idx b e)
grow_place_ok a rel idx (in_table t) b e h =
    let inside : leb (rel * 4 + 4) blocksize ≡ true = ground arith in
    ap (λ r. continue r.0 (λ n. store_pointer t rel n) r.1)
      (take_ok (with_table a t (table a t)) idx b e)
    ∙ rw inside (
        ap
          (λ x. (
            ok tt,
            with_table (with_table (with_bitmap a b) t (table a t)) t (put_u32 x (rel * 4) idx),
          ))
          (table-with_table_self (with_bitmap a b) t (table a t)))

grow_place_full :
    (a : Alloc) (rel : ℕ) (p : Place)
    → take_bit blocksize a.bitmap ≡ none
    → (grow_place rel p a).0 ≡ panics
unfolding grow_place take
grow_place_full a rel in_inode e =
    ap (λ o. (continue (taken o a).0 (λ n s. (ok tt, store_direct rel n s)) (taken o a).1).0) e
grow_place_full a rel (in_table t) e =
    let a' : Alloc = with_table a t (table a t) in
    ap (λ o. (continue (taken o a').0 (λ n. store_pointer t rel n) (taken o a').1).0) e

-- A round of the loop for a block below the limit: it takes a free bit, and panics without one.
pub grow_step_ok :
    (a : Alloc) (i idx : ℕ) (b : Buffer)
    → take_bit blocksize a.bitmap ≡ some (idx, b)
    → i < max_blocks
    → grow_step i a ≡ (ok tt, given i idx (with_bitmap a b))
unfolding grow_step
grow_step_ok a i idx b e h =
    grow_place_ok a (virtual_to_place_relative i).0 idx (virtual_to_place_relative i).1 b e
      ((virtual_to_place_relative_inverse i h).1)

pub grow_step_full :
    (a : Alloc) (i : ℕ) → take_bit blocksize a.bitmap ≡ none → (grow_step i a).0 ≡ panics
unfolding grow_step
grow_step_full a i e =
    grow_place_full a (virtual_to_place_relative i).0 (virtual_to_place_relative i).1 e
