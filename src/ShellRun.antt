-- ===== src/ShellRun.antt =====
-- programs/shell/shell.go: `Run`, the loop of the shell, on a kernel. What a read gives is an argument
-- of the loop, as is a signal between two reads; the text of an error is a parameter.
pub mod Modes
pub mod Launches
pub mod Builtins
pub mod Restores
use byte_space.Prelude.{
  ℕ, Bool, true, false, not, if◌then◌else◌, Option, none, some, List, [], ◌∷◌, ◌++◌, map, ℤ, pos,
  eq_bytes, is_nil, codes, Result, ok, err, panics, Exec, ◌>>=◌, ◌>>◌, pure, panic, Error,
}
use byte_space.Terminal.{Text}
use byte_space.Terminal.Shell.{Shell, Outcome, canonical_logic, handle_sigint, parse}
use byte_space.Editor.Slices.{runes, utf8}
use byte_space.Accounts.Prompts.{success, error_status}
use byte_space.Paths.{clean, join, is_rooted}
use byte_space.Tasks.{
  Process, IoctlReq, tiocraw, tiocspgrp, Arg, string_arg, strings_arg, int_arg, bool_arg,
  ioctl_req_arg, opts_arg, context_arg,
}
use byte_space.Kernel.{Kernel}
use byte_space.Kernel.Syscall.{Reply, process_reply, sys_ioctl, sys_exec, sys_chdir, syscall}
use byte_space.Commands.{show, say, ignoring}

-- What `Kernel.Read` gives: a keystroke, the end of the program's context, or another status. A
-- signal comes between two reads.
pub data Reading : Type 0 where
  keystroke : Text → Reading
  cancelled_read other_status sigint : Reading

-- The line editor, and the process of the shell.
pub record Session : Type 0 where
  pub editor : Shell
  pub proc : Process

pub data Turn : Type 0 where
  reads_on : Session → Turn
  exits : ℕ → Turn

-- The names that are a program under /bin.
abbrev pub program_names : List Text
program_names =
    codes "ls"
    ∷ codes "clear"
    ∷ codes "cat"
    ∷ codes "adduser"
    ∷ codes "mkdir"
    ∷ codes "touch"
    ∷ codes "chmod"
    ∷ codes "rm"
    ∷ codes "v"
    ∷ []

abbrev pub is_one_of : Text → List Text → Bool
is_one_of name [] = false
is_one_of name (other ∷ names) = if eq_bytes name other then true else is_one_of name names

-- The directory that `cd` goes to.
abbrev pub cd_target : Process → List ℕ → List ℕ
cd_target proc dir = clean (if not (is_rooted dir) then join proc.cwd dir else dir)

-- The process behind `chdir`.
abbrev pub moved_by : Session → Reply → Session
unfolding runes
moved_by s (process_reply proc) = record s {
  proc = proc;
  editor = record s.editor { cwd = runes proc.cwd };
}
moved_by s _ = s

abbrev pub show_all : Process → List Text → Exec Kernel (Unit {0})
show_all proc [] = pure tt
show_all proc (text ∷ texts) = do show proc text; show_all proc texts

abbrev pub prompt : Process → List ℕ → Exec Kernel (Unit {0})
prompt proc prefix = say proc (prefix ++ (codes "\r" ++ (proc.cwd ++ codes "$ ")))

-- `New`, and the position in the history that `Run` starts at.
abbrev pub session_of : Process → Session
unfolding runes
session_of proc = record {
  editor = record {
    buffer = [];
    cursor_position = 0;
    history = [];
    pos_in_history = none;
    cwd = runes proc.cwd;
    out = [];
  };
  proc = proc;
}

module _ (error_text : Error → List ℕ) (now : ℕ × ℕ) (depth : ℕ)
    (run : Process → List (List ℕ) → Exec Kernel ℕ) where
  -- `Syscall(s.proc, SYS_IOCTL, 0, ...)`, whose error is discarded.
  abbrev pub control : IoctlReq → Arg → Process → Exec Kernel (Unit {0})
  unfolding syscall
  control req arg proc =
      ignoring
        (syscall now depth run proc sys_ioctl (int_arg (pos 0) ∷ ioctl_req_arg req ∷ arg ∷ []))

  abbrev pub failed : Process → Error → Exec Kernel (Unit {0})
  failed proc e = say proc (codes "\n" ++ (error_text e ++ codes "\n"))

  abbrev pub reported : Process → Result Reply × Kernel → Result (Unit {0}) × Kernel
  reported proc (ok _, k) = (ok tt, k)
  reported proc (err e, k) = failed proc e k
  reported proc (panics, k) = (panics, k)

  abbrev pub launch : Process → List ℕ → List (List ℕ) → Exec Kernel (Unit {0})
  unfolding syscall
  launch proc bin words k = reported proc (
      syscall now depth run proc sys_exec
        (context_arg
          ∷ string_arg bin
          ∷ strings_arg words
          ∷ opts_arg (record { background = false; pgid = pos 0 })
          ∷ [])
        k)

  -- `execFg`: the terminal is canonical while the program runs.
  unfoldable pub exec_fg : Process → List ℕ → List (List ℕ) → Exec Kernel (Unit {0})
  exec_fg proc bin words = do
    control tiocraw (bool_arg false) proc
    launch proc bin words
    control tiocspgrp (int_arg proc.pgid) proc
    control tiocraw (bool_arg true) proc

  -- The program named, with a last switch to raw mode for `v`.
  unfoldable pub run_program : Process → Text → List Text → Exec Kernel (Unit {0})
  unfolding exec_fg utf8
  run_program proc name words = do
    exec_fg proc (codes "/bin/" ++ utf8 name) (map utf8 words)
    if eq_bytes name (codes "v") then control tiocraw (bool_arg true) proc else pure tt

  abbrev pub in_directory : Session → Result Reply × Kernel → Result Session × Kernel
  in_directory s (ok reply, k) = (say s.proc (codes "\n") >> pure (moved_by s reply)) k
  in_directory s (err e, k) = (failed s.proc e >> pure s) k
  in_directory s (panics, k) = (panics, k)

  abbrev pub cd_to : Session → List Text → Exec Kernel Session
  unfolding syscall utf8
  cd_to s (name ∷ dir ∷ []) k =
      in_directory s
        (syscall now depth run s.proc sys_chdir (string_arg (cd_target s.proc (utf8 dir)) ∷ []) k)
  cd_to s value k = (say s.proc (codes "\nUsage: cd <path>\n") >> pure s) k

  unfoldable pub cd_command : Session → List Text → List Text → Exec Kernel Session
  unfolding cd_to
  cd_command s value flags =
      if not (is_nil flags)
      then say s.proc (codes "\nNo flags implemented\n") >> pure s
      else cd_to s value

  abbrev pub pwd_command : Process → List Text → Exec Kernel (Unit {0})
  pwd_command proc (name ∷ []) = say proc (codes "\n" ++ (proc.cwd ++ codes "\n"))
  pwd_command proc value = say proc (codes "Usage: pwd\n")

  -- The prompt behind a command, and the next read.
  abbrev pub prompted : List ℕ → Session → Exec Kernel Turn
  prompted prefix s = prompt s.proc prefix >> pure (reads_on s)

  -- The command's name is `value[0]`.
  unfoldable pub command : Session → List Text → List Text → Exec Kernel Turn
  unfolding run_program cd_command
  command s [] flags = panic
  command s (name ∷ words) flags =
      if eq_bytes name (codes "exit")
      then control tiocraw (bool_arg false) s.proc >> pure (exits success)
      else if eq_bytes name (codes "pwd")
      then pwd_command s.proc (name ∷ words) >> prompted [] s
      else if eq_bytes name (codes "cd")
      then cd_command s (name ∷ words) flags >>= prompted []
      else if is_one_of name program_names
      then run_program s.proc name (name ∷ words ++ flags) >> prompted [] s
      else if is_nil name
      then prompted (codes "\n") s
      else say s.proc (codes "\nno such command!\n") >> prompted [] s

  -- The line that the editor gives; an empty one goes on reading.
  abbrev pub line_done : Session → Text → Exec Kernel Turn
  unfolding command parse
  line_done s line =
      if is_nil line then pure (reads_on s) else command s (parse line).0 (parse line).1

  -- What the editor writes goes to the terminal.
  abbrev pub edited : Process → Outcome → Exec Kernel Turn
  edited proc none = panic
  edited proc (some (line, editor)) = do
    show_all proc editor.out
    line_done (record { editor = record editor { out = [] }; proc = proc }) line

  unfoldable pub shell_turn : Reading → Session → Exec Kernel Turn
  unfolding canonical_logic handle_sigint
  shell_turn (keystroke key) s = edited s.proc (canonical_logic key s.editor)
  shell_turn cancelled_read s = control tiocraw (bool_arg false) s.proc >> pure (exits error_status)
  shell_turn other_status s = pure (reads_on s)
  shell_turn sigint s = edited s.proc (some ([], handle_sigint s.editor))

  abbrev pub after_turn : (Session → Exec Kernel Turn) → Turn → Exec Kernel Turn
  after_turn on (reads_on s) = on s
  after_turn on (exits status) = pure (exits status)

  -- The loop over what the reads give; it reads on where that is all.
  unfoldable pub shell_loop : List Reading → Session → Exec Kernel Turn
  unfolding shell_turn
  shell_loop [] s = pure (reads_on s)
  shell_loop (reading ∷ readings) s = shell_turn reading s >>= after_turn (shell_loop readings)

  -- `Run` on the process that the kernel gave.
  unfoldable pub shell_run : Process → List Reading → Exec Kernel Turn
  unfolding shell_loop
  shell_run proc readings = do
    say proc (codes "\n\r" ++ (proc.cwd ++ codes "$ "))
    control tiocraw (bool_arg true) proc
    shell_loop readings (session_of proc)
