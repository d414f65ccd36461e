-- ===== src/Prelude/Results.antt =====
-- Go's `error` values, and computations that fail, panic, or change a state on the way.
use Prim.Native.Nat.{ℕ}
use mathlib.Core.List.{List}
use mathlib.Core.Option.{Option, none, some}

-- One constructor for each error value that the filesystem and the kernel return.
pub data Error : Type 0 where
  negative_offset eof short_write unexpected_eof negative_size : Error
  invalid_block_num bad_length invalid_data_blk_idx : Error
  no_space_left inum_out_of_range inum_already_free : Error
  name_too_long invalid_inum no_free_slot too_many_blocks : Error
  -- The kernel's `Errno` values.
  eperm enoent ebadf eacces eexist enotdir eisdir einval enospc : Error
  -- Errors that the kernel makes with `fmt.Errorf`.
  no_such_file permission_denied bad_file_descriptor unsupported_fd_type not_a_tty invalid_type :
      Error
  no_such_path denied_path command_not_found : List ℕ → Error
  exited : List ℕ → ℕ → Error

-- `panics` stands for a run-time panic of the program: an index out of range, or `panic(...)`.
pub data Result {ℓ} (A : Type ℓ) : Type ℓ where
  ok : A → Result A
  err : Error → Result A
  panics : Result A

-- Code that changes the state `S`; what was written before an error stays written.
abbrev pub Exec : Type 0 → Type 0 → Type 0
Exec S A = S → Result A × S

module _ {S A : Type 0} where
  abbrev pub pure : A → Exec S A
  pure a s = (ok a, s)

  abbrev pub fail : Error → Exec S A
  fail e s = (err e, s)

  abbrev pub panic : Exec S A
  panic s = (panics, s)

  abbrev pub lift : Result A → Exec S A
  lift r s = (r, s)

  -- `if err != nil { return err }`
  abbrev pub or_else : Option Error → A → Exec S A
  or_else none a s = (ok a, s)
  or_else (some e) a s = (err e, s)

module _ {S A B : Type 0} where
  abbrev pub continue : Result A → (A → Exec S B) → Exec S B
  continue (ok a) f s = f a s
  continue (err e) f s = (err e, s)
  continue panics f s = (panics, s)

  infixl 5 ◌>>=◌ ◌>>◌
  abbrev pub ◌>>=◌ : Exec S A → (A → Exec S B) → Exec S B
  ◌>>=◌ m f s = continue (m s).0 f (m s).1

  abbrev pub ◌>>◌ : Exec S A → Exec S B → Exec S B
  m >> k = m >>= λ _. k
