-- ===== src/Commands/Ls.antt =====
-- programs/cmds/cmds.go: `ls`, with `formatMode`.
use byte_space.Prelude.{
  ℕ, zero, suc, ◌-◌, Bool, true, false, not, ◌==◌, if◌then◌else◌, ltb, List, [], ◌∷◌, ◌++◌, length,
  take, has_prefix, is_nil, eq_bytes, codes, Result, ok, err, panics, Exec, ◌>>=◌, pure, panic,
  Error, bit_and,
}
use byte_space.Terminal.{decimal}
use byte_space.Accounts.Prompts.{success, error_status}
use byte_space.Paths.{join}
use byte_space.Tasks.{Process, string_arg}
use byte_space.Kernel.{Kernel}
use byte_space.Kernel.Reads.{FileInfo, FileMetadata}
use byte_space.Kernel.Syscall.{Reply, infos_reply, metadata_reply, sys_readdir, sys_stat, syscall}
use byte_space.Commands.{leave}

-- A letter in its colour, or a grey dash.
abbrev pub mode_letter : Bool → List ℕ → ℕ → List ℕ
mode_letter true colour letter = codes "\u{1b}[" ++ (colour ++ (letter ∷ codes "\u{1b}[0m"))
mode_letter false colour letter = codes "\u{1b}[90m-\u{1b}[0m"

abbrev pub letters_of : Bool → Bool → Bool → List ℕ
letters_of r w x =
    mode_letter r (codes "93m") 114
    ++ (mode_letter w (codes "91m") 119 ++ mode_letter x (codes "92m") 120)

abbrev pub has_bit : ℕ → ℕ → Bool
has_bit mode bit = not (bit_and mode bit == 0)

abbrev pub class_letters : ℕ → List ℕ
class_letters mode = letters_of (has_bit mode 4) (has_bit mode 2) (has_bit mode 1)

unfoldable pub format_mode : ℕ → ℕ → Bool → List ℕ
format_mode owner other setuid =
    class_letters owner
    ++ (class_letters other ++ (if setuid then codes "\u{1b}[95ms\u{1b}[0m " else codes "  "))

-- The directory and the flag, the last of each of the words.
pub record Chosen : Type 0 where
  pub dir : List ℕ
  pub flag : List ℕ

unfoldable pub choose : List (List ℕ) → Chosen → Chosen
choose [] c = c
choose (word ∷ words) c =
    choose words
      (if has_prefix word (codes "-") then record c { flag = word } else record c { dir = word })

-- What `stat` leaves when it fails.
abbrev zero_metadata : FileMetadata
zero_metadata = record { filepath = []; owner = []; setuid = false; owner_mode = 0; other_mode = 0 }

abbrev metadata_of : Result Reply × Kernel → Result FileMetadata × Kernel
metadata_of (ok (metadata_reply meta), k) = (ok meta, k)
metadata_of (panics, k) = (panics, k)
metadata_of (_, k) = (ok zero_metadata, k)

abbrev infos_of : Reply → List FileInfo
infos_of (infos_reply infos) = infos
infos_of _ = []

abbrev coloured : Bool → List ℕ → List ℕ
coloured is_dir name =
    if is_dir
    then codes "\u{1b}[94;1m" ++ (name ++ codes "\u{1b}[0m")
    else codes "\u{1b}[97m" ++ (name ++ codes "\u{1b}[0m")

unfoldable pub spaces : ℕ → List ℕ
spaces zero = []
spaces (suc n) = 32 ∷ spaces n

-- `%4d`
abbrev padded : ℕ → List ℕ
unfolding decimal spaces
padded n = spaces (4 - length (decimal n)) ++ decimal n

abbrev without_last : List ℕ → List ℕ
without_last output = take (length output - 1) output

module _ (error_text : Error → List ℕ) (now : ℕ × ℕ) (depth : ℕ)
    (run : Process → List (List ℕ) → Exec Kernel ℕ) where
  abbrev stat_file : Process → List ℕ → FileInfo → Exec Kernel FileMetadata
  unfolding syscall
  stat_file proc dir file k =
      metadata_of (syscall now depth run proc sys_stat (string_arg (join dir file.name) ∷ []) k)

  -- The longest name of an owner; the -1 that it starts from is 0 here, as there is then no file.
  unfoldable pub longest_owner : Process → List ℕ → ℕ → List FileInfo → Exec Kernel ℕ
  unfolding stat_file
  longest_owner proc dir longest [] = pure longest
  longest_owner proc dir longest (file ∷ files) = do
    meta ← stat_file proc dir file
    longest_owner proc dir (if ltb longest (length meta.owner) then length meta.owner else longest)
        files

  abbrev long_line : FileInfo → ℕ → FileMetadata → List ℕ
  unfolding format_mode spaces
  long_line file longest meta =
      format_mode meta.owner_mode meta.other_mode meta.setuid
      ++ (codes "\u{1b}[96m"
          ++ (meta.owner
              ++ (codes "\u{1b}[0m"
                  ++ (spaces (longest - length meta.owner)
                      ++ (codes "  " ++ (coloured file.is_dir file.name ++ codes "\n"))))))

  -- The line of a file; another flag gives none.
  abbrev line_of : Process → Chosen → ℕ → FileInfo → Exec Kernel (List ℕ)
  unfolding stat_file long_line padded
  line_of proc c longest file =
      if is_nil c.flag
      then pure (coloured file.is_dir file.name ++ codes "\n")
      else if eq_bytes c.flag (codes "-i")
      then pure (
          codes "\u{1b}[90m"
          ++ (padded file.inum
              ++ (codes "\u{1b}[0m " ++ (coloured file.is_dir file.name ++ codes "\n"))))
      else if eq_bytes c.flag (codes "-l")
      then (stat_file proc c.dir file >>= λ meta. pure (long_line file longest meta))
      else pure []

  unfoldable pub lines_of : Process → Chosen → ℕ → List FileInfo → Exec Kernel (List ℕ)
  unfolding line_of
  lines_of proc c longest [] = pure []
  lines_of proc c longest (file ∷ files) = do
    first ← line_of proc c longest file
    more ← lines_of proc c longest files
    pure (first ++ more)

  abbrev listed : Process → Chosen → Result Reply × Kernel → Result ℕ × Kernel
  unfolding longest_owner lines_of
  listed proc c (panics, k) = (panics, k)
  listed proc c (err e, k) =
      leave error_text now depth run proc error_status (codes "\n" ++ (error_text e ++ codes "\n"))
        k
  listed proc c (ok reply, k) =
      (do
        longest ← longest_owner proc c.dir 0 (infos_of reply)
        output ← lines_of proc c longest (infos_of reply)
        leave error_text now depth run proc success
            (codes "\n" ++ (without_last output ++ codes "\n")))
        k

  -- The first word is the command; without it `params[1:]` panics.
  unfoldable pub ls_run : Process → List (List ℕ) → Exec Kernel ℕ
  unfolding syscall choose listed
  ls_run proc [] k = panic k
  ls_run proc (name ∷ words) k =
      if ltb 2 (length words)
      then leave error_text now depth run proc error_status
          (codes "Usage: ls <flag> <path>, no path for working dir\n") k
      else let c = choose words (record { dir = proc.cwd; flag = [] }) in
        listed proc c (syscall now depth run proc sys_readdir (string_arg c.dir ∷ []) k)
