-- ===== src/Kernel/Guarded.antt =====
-- computer/kernel.go: calls that a check may end before they change anything.
use byte_space.Prelude.{
  ◌≡◌, refl, sym, ◌∙◌, Bool, true, false, Result, ok, err, panics, Exec, ◌>>=◌, ◌>>◌, continue,
  Error, ◌⊎◌, inl,
}
use byte_space.Kernel.{Kernel}
use byte_space.Kernel.Reads.{check}
use byte_space.Kernel.Reading.{Loads, Reads}

abbrev pub IsError : {A : Type 0} → Result A → Type 0
IsError (ok a) = ⊥
IsError (err e) = Unit {0}
IsError panics = Unit {0}

-- The call failed, and it loaded at most.
abbrev pub Denied : {A : Type 0} → Kernel → Result A × Kernel → Type 0
Denied k r = Loads k r.1 × IsError r.0

-- In a state loaded from `k` the computation fails and loads at most, or `P` holds.
abbrev pub Guarded : {A : Type 0} → Kernel → Type 0 → Exec Kernel A → Type 0
Guarded k P m = (k' : Kernel) → Loads k k' → Denied k (m k') ⊎ P

module _ (k : Kernel) {P : Type 0} where
  continue-Guarded :
      {A B : Type 0} (r : Result A) (f : A → Exec Kernel B) (k' : Kernel)
      → Loads k k'
      → ((a : A) → r ≡ ok a → Guarded k P (f a))
      → Denied k (continue r f k') ⊎ P
  continue-Guarded (ok a) f k' l h = h a refl k' l
  continue-Guarded (err e) f k' l h = inl (l, tt)
  continue-Guarded panics f k' l h = inl (l, tt)

  -- What was read is known in the rest.
  pub bind-Guarded :
      {A B : Type 0} (m : Exec Kernel A) (r : Result A) (f : A → Exec Kernel B)
      → Reads k m r
      → ((a : A) → r ≡ ok a → Guarded k P (f a))
      → Guarded k P (m >>= f)
  bind-Guarded m r f h g k' l =
      let read = h k' l in continue-Guarded (m k').0 f (m k').1 read.1 λ a e. g a (sym read.0 ∙ e)

  pub check-Guarded :
      {A : Type 0} (b : Bool) (e : Error) (m : Exec Kernel A)
      → (b ≡ true → Guarded k P m)
      → Guarded k P (check b e >> m)
  check-Guarded true e m h k' l = h refl k' l
  check-Guarded false e m h k' l = inl (l, tt)
