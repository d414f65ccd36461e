-- ===== src/Commands.antt =====
-- programs/cmds/cmds.go: the commands `clear`, `cat`, `mkdir`, `touch`, `rm` and `chmod`, as programs that make
-- system calls and send a status. Words are bytes; the text of an error is a parameter.
pub mod Bits
pub mod Chmod
pub mod Ls
pub mod Letters
use byte_space.Prelude.{
  ℕ, ◌+◌, ◌-◌, Bool, true, false, ◌&&◌, ◌||◌, not, ◌==◌, if◌then◌else◌, Option, none, some, List,
  [], ◌∷◌, ◌++◌, pos, eq_bytes, is_nil, codes, Result, ok, err, panics, Exec, ◌>>=◌, ◌>>◌, pure,
  Error, bit_or, bit_and,
}
use byte_space.Terminal.{Text}
use byte_space.Editor.Slices.{runes}
use byte_space.Accounts.Prompts.{success, error_status}
use byte_space.Tasks.{Process, Arg, string_arg, uint8_arg, write_fd}
use byte_space.Kernel.{Kernel, on_tasks}
use byte_space.Kernel.Reads.{FileMetadata}
use byte_space.Kernel.Syscall.{
  Reply, data_reply, metadata_reply, SyscallNum, sys_read, sys_mkdir, sys_create, sys_remove,
  sys_stat, sys_chmod, syscall,
}

abbrev pub letter_u : ℕ
letter_u = 117

abbrev pub letter_o : ℕ
letter_o = 111

abbrev pub plus : ℕ
plus = 43

abbrev pub minus : ℕ
minus = 45

abbrev pub equals : ℕ
equals = 61

abbrev pub is_operator : ℕ → Bool
is_operator c = (c == plus) || (c == minus) || (c == equals)

-- A mode at its first operator: who, the operator, and the permissions.
pub record Cut : Type 0 where
  pub who : List ℕ
  pub op : ℕ
  pub perms : List ℕ

abbrev cut_behind : ℕ → Option Cut → Option Cut
cut_behind c none = none
cut_behind c (some cut) = some (record cut { who = c ∷ cut.who })

-- `strings.IndexAny(mode, "+-=")` and the three slices.
unfoldable pub cut_mode : List ℕ → Option Cut
cut_mode [] = none
cut_mode (c ∷ mode) =
    let behind = cut_behind c (cut_mode mode) in
    if is_operator c then some (record { who = []; op = c; perms = mode }) else behind

abbrev pub or_both : List ℕ → List ℕ
or_both who = if is_nil who || eq_bytes who (codes "a") then codes "uo" else who

abbrev pub valid_who : List ℕ → Bool
valid_who [] = true
valid_who (w ∷ who) = ((w == letter_u) || (w == letter_o)) && valid_who who

abbrev pub permission_bit : ℕ → Option ℕ
permission_bit c =
    if c == 114 then some 4 else if c == 119 then some 2 else if c == 120 then some 1 else none

abbrev or_bit : ℕ → Option ℕ → Option ℕ
or_bit bits none = none
or_bit bits (some bit) = some (bit_or bits bit)

-- The loop over the permissions; `none` is an invalid one.
unfoldable pub bits_from : Option ℕ → List ℕ → Option ℕ
bits_from none perms = none
bits_from (some bits) [] = some bits
bits_from (some bits) (c ∷ perms) = bits_from (or_bit bits (permission_bit c)) perms

-- `current &^ bits` takes away the bits that both have.
unfoldable pub apply : ℕ → ℕ → ℕ → ℕ
apply op bits current =
    if op == plus
    then bit_or current bits
    else if op == minus
    then current - bit_and current bits
    else if op == equals
    then bits
    else current

pub record Modes : Type 0 where
  pub owner : ℕ
  pub other : ℕ

-- The loop over who, from the modes so far; each class is given from the modes of the file.
unfoldable pub set_classes : ℕ → ℕ → Modes → List ℕ → Modes → Modes
set_classes op bits old [] new = new
set_classes op bits old (w ∷ who) new =
    if w == letter_u
    then set_classes op bits old who (record new { owner = apply op bits old.owner })
    else if w == letter_o
    then set_classes op bits old who (record new { other = apply op bits old.other })
    else set_classes op bits old who new

abbrev pub change_with : Cut → Option ℕ → Option (Modes → Modes)
unfolding set_classes
change_with cut none = none
change_with cut (some bits) = some λ old. set_classes cut.op bits old (or_both cut.who) old

abbrev pub change_of : Option Cut → Option (Modes → Modes)
unfolding bits_from
change_of none = none
change_of (some cut) =
    if not (valid_who (or_both cut.who))
    then none
    else change_with cut (bits_from (some 0) cut.perms)

-- `parseChmodMode` but for its `stat`: how the modes change, or `none` for an error.
unfoldable pub mode_change : List ℕ → Option (Modes → Modes)
unfolding cut_mode
mode_change mode = change_of (cut_mode mode)

abbrev pub dropped : {A : Type 0} → Result A × Kernel → Result (Unit {0}) × Kernel
dropped (panics, k) = (panics, k)
dropped (_, k) = (ok tt, k)

-- A call whose error is discarded.
abbrev pub ignoring : {A : Type 0} → Exec Kernel A → Exec Kernel (Unit {0})
ignoring m k = dropped (m k)

-- `p.Kernel.Write(p.proc, 1, ...)`
unfoldable pub show : Process → Text → Exec Kernel (Unit {0})
unfolding write_fd
show proc text = ignoring (on_tasks (write_fd proc (pos 1) text))

unfoldable pub say : Process → List ℕ → Exec Kernel (Unit {0})
unfolding show runes
say proc message = show proc (runes message)

module _ (error_text : Error → List ℕ) (now : ℕ × ℕ) (depth : ℕ)
    (run : Process → List (List ℕ) → Exec Kernel ℕ) where
  abbrev pub leave : Process → ℕ → List ℕ → Exec Kernel ℕ
  leave proc status message = do say proc message; pure status

  -- A call whose error is a message, and whose reply goes on.
  abbrev attempt :
      Result Reply × Kernel → (Error → Exec Kernel ℕ) → (Reply → Exec Kernel ℕ) → Result ℕ × Kernel
  attempt (ok reply, k) failed on = on reply k
  attempt (err e, k) failed on = failed e k
  attempt (panics, k) failed on = (panics, k)

  unfoldable pub clear_run : Process → List (List ℕ) → Exec Kernel ℕ
  clear_run proc (name ∷ word ∷ words) = leave proc error_status (codes "Usage: clear\n")
  clear_run proc words = leave proc success (codes "\u{1b}[H\u{1b}[2J")

  -- A command of one path that is a single call.
  abbrev pub one_call :
      SyscallNum → List ℕ → (Error → List ℕ) → Process → List (List ℕ) → Exec Kernel ℕ
  unfolding syscall
  one_call num usage failure proc (name ∷ path ∷ []) k =
      attempt (syscall now depth run proc num (string_arg path ∷ []) k)
        (λ e. leave proc error_status (failure e)) (λ reply. leave proc success (codes "\n"))
  one_call num usage failure proc words k = leave proc error_status usage k

  unfoldable pub mkdir_run : Process → List (List ℕ) → Exec Kernel ℕ
  unfolding syscall
  mkdir_run =
      one_call sys_mkdir (codes "\nUsage: mkdir <path>\n")
        λ e. codes "\nFailed to create directory " ++ (error_text e ++ codes "\n")

  unfoldable pub touch_run : Process → List (List ℕ) → Exec Kernel ℕ
  touch_run =
      one_call sys_create (codes "\nUsage: touch <path>\n")
        λ e. codes "\nFailed to create file " ++ (error_text e ++ codes "\n")

  unfoldable pub rm_run : Process → List (List ℕ) → Exec Kernel ℕ
  rm_run =
      one_call sys_remove (codes "\nUsage: rm <path>, equivalent to rm -rf\n")
        λ e. codes "\nFailed to delete file: " ++ (error_text e ++ codes "\n")

  -- `content, _ := catResult.([]byte)`
  abbrev bytes_of : Reply → List ℕ
  bytes_of (data_reply content) = content
  bytes_of _ = []

  -- `strings.HasSuffix(err.Error(), "no such file or directory")`
  abbrev cat_message : Bool → List ℕ
  cat_message missing =
      if missing
      then codes "\ncat: cannot open: No such file or directory\n"
      else codes "\nFailed to open file\n"

  unfoldable pub cat_run : (Error → Bool) → Process → List (List ℕ) → Exec Kernel ℕ
  unfolding syscall
  cat_run is_missing proc (name ∷ path ∷ []) k =
      attempt (syscall now depth run proc sys_read (string_arg path ∷ []) k)
        (λ e. leave proc error_status (cat_message (is_missing e)))
        (λ reply. leave proc success (codes "\n" ++ (bytes_of reply ++ codes "\n")))
  cat_run is_missing proc words k = leave proc error_status (codes "\nUsage: cat <path>\n") k

  abbrev old_modes : Reply → Modes
  old_modes (metadata_reply meta) = record { owner = meta.owner_mode; other = meta.other_mode }
  old_modes _ = record { owner = 0; other = 0 }

  abbrev invalid_mode : Process → List ℕ → Exec Kernel ℕ
  invalid_mode proc mode =
      leave proc error_status (codes "\nchmod: invalid mode: " ++ (mode ++ codes "\n"))

  abbrev chmod_to : Process → List ℕ → Modes → Exec Kernel ℕ
  unfolding syscall
  chmod_to proc path new k =
      attempt
        (syscall now depth run proc sys_chmod
          (string_arg path ∷ uint8_arg new.owner ∷ uint8_arg new.other ∷ []) k)
        (λ e. leave proc error_status (codes "\nchmod: " ++ (error_text e ++ codes "\n")))
        (λ reply. leave proc success (codes "\n"))

  -- The mode is read first, then the file's modes, and then they are set.
  abbrev chmod_by : Process → List ℕ → List ℕ → Option (Modes → Modes) → Exec Kernel ℕ
  unfolding syscall
  chmod_by proc mode path none = invalid_mode proc mode
  chmod_by proc mode path (some change) = λ k.
      attempt (syscall now depth run proc sys_stat (string_arg path ∷ []) k)
        (λ e. invalid_mode proc mode) (λ reply. chmod_to proc path (change (old_modes reply)))

  unfoldable pub chmod_run : Process → List (List ℕ) → Exec Kernel ℕ
  unfolding mode_change chmod_by
  chmod_run proc (name ∷ mode ∷ path ∷ []) = chmod_by proc mode path (mode_change mode)
  chmod_run proc words = leave proc error_status (codes "\nUsage: chmod <mode> <path>\n")
