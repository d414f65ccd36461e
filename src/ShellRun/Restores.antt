-- ===== src/ShellRun/Restores.antt =====
-- `Run` of the shell keeps its terminal raw between its commands, and canonical at its end.
use byte_space.Prelude.{
  ℕ, ◌≡◌, true, false, none, some, List, [], ◌∷◌, ◌++◌, ℤ, eq_bytes, is_nil, codes, Exec, ◌>>=◌,
  ◌>>◌, pure, Error,
}
use byte_space.Terminal.{Text}
use byte_space.Terminal.Shell.{Outcome, canonical_logic, handle_sigint, parse}
use byte_space.Accounts.Prompts.{success, error_status}
use byte_space.Tasks.{Process, tiocraw, bool_arg}
use byte_space.Kernel.{Kernel}
use byte_space.Commands.{say}
use byte_space.ShellRun.{
  session_of, Reading, keystroke, cancelled_read, other_status, sigint, Session, Turn, reads_on,
  exits, show_all, control, run_program, cd_command, pwd_command, prompted, command, line_done,
  edited, shell_turn, after_turn, shell_loop, shell_run, is_one_of, program_names,
}
use byte_space.ShellRun.Modes.{
  say-Foreground, Ready, Holds, bind-Holds, tty_at, TurnIsRestored, show_all-IsRaw, IsRaw, IsCooked,
  OnTerminal,
}
use byte_space.ShellRun.Launches.{
  control-IsRaw, say-Ready, prompted-Restored, control-IsCooked, run_program-IsRaw,
}
use byte_space.ShellRun.Builtins.{if-Holds, cd_command-Ready}

module _ (error_text : Error → List ℕ) (now : ℕ × ℕ) (depth : ℕ)
    (run : Process → List (List ℕ) → Exec Kernel ℕ) (n : ℕ) (pgid : ℤ) where
  abbrev Restored : Turn → Kernel → Type 0
  Restored turn k = TurnIsRestored n pgid turn k

  abbrev after_prompt : Session → Exec Kernel Turn
  after_prompt s = prompted error_text now depth run [] s

  after_prompt-Restored :
      (s : Session) (k : Kernel) → Ready n pgid s k → Holds Restored (after_prompt s k)
  after_prompt-Restored s k h = prompted-Restored error_text now depth run n pgid [] s k h

  say_prompt-Restored :
      (message : List ℕ) (s : Session) (k : Kernel)
      → Ready n pgid s k
      → Holds Restored ((say s.proc message >> after_prompt s) k)
  say_prompt-Restored message s k h =
      say-Ready error_text now depth run n pgid Restored message (after_prompt s) s.proc k h.1
        (λ k' i. after_prompt-Restored s k' (h.0, i))

  pwd-Restored :
      (s : Session) (value : List Text) (k : Kernel)
      → Ready n pgid s k
      → Holds Restored ((pwd_command error_text now depth run s.proc value >> after_prompt s) k)
  pwd-Restored s (name ∷ []) k h =
      say_prompt-Restored (codes "\n" ++ (s.proc.cwd ++ codes "\n")) s k h
  pwd-Restored s [] k h = say_prompt-Restored (codes "Usage: pwd\n") s k h
  pwd-Restored s (name ∷ word ∷ words) k h = say_prompt-Restored (codes "Usage: pwd\n") s k h

  cooked-Restored :
      (status : ℕ) (s : Session) (k : Kernel)
      → Ready n pgid s k
      → Holds Restored (
          (control error_text now depth run tiocraw (bool_arg false) s.proc >> pure (exits status))
            k)
  cooked-Restored status s k h =
      bind-Holds (λ _ k'. IsCooked (tty_at n k')) Restored
        (control error_text now depth run tiocraw (bool_arg false) s.proc)
        (λ _. pure (exits status)) k (control-IsCooked error_text now depth run n pgid s.proc k h.0)
        (λ _ k' i. i)

  program-Restored :
      (s : Session) (name : Text) (words : List Text) (k : Kernel)
      → Ready n pgid s k
      → Holds Restored
          ((run_program error_text now depth run s.proc name words >> after_prompt s) k)
  program-Restored s name words k h =
      bind-Holds (λ _ k'. IsRaw pgid (tty_at n k')) Restored
        (run_program error_text now depth run s.proc name words) (λ _. after_prompt s) k
        (run_program-IsRaw error_text now depth run n pgid s.proc name words k h.0)
        (λ _ k' i. after_prompt-Restored s k' (h.0, i))

  command-Restored :
      (s : Session) (value flags : List Text) (k : Kernel)
      → Ready n pgid s k
      → Holds Restored (command error_text now depth run s value flags k)
  unfolding command
  command-Restored s [] flags k h = tt
  command-Restored s (name ∷ words) flags k h =
      if-Holds error_text now depth run n pgid Restored (eq_bytes name (codes "exit")) _ _ k
        (cooked-Restored success s k h)
        (if-Holds error_text now depth run n pgid Restored (eq_bytes name (codes "pwd")) _ _ k
          (pwd-Restored s (name ∷ words) k h)
          (if-Holds error_text now depth run n pgid Restored (eq_bytes name (codes "cd"))
            (cd_command error_text now depth run s (name ∷ words) flags >>= after_prompt) _ k
            (bind-Holds (Ready n pgid) Restored
              (cd_command error_text now depth run s (name ∷ words) flags) after_prompt k
              (cd_command-Ready error_text now depth run n pgid s (name ∷ words) flags k h)
              (λ s' k' i. after_prompt-Restored s' k' i))
            (if-Holds error_text now depth run n pgid Restored (is_one_of name program_names)
              (run_program error_text now depth run s.proc name (name ∷ words ++ flags)
                >> after_prompt s)
              _ k (program-Restored s name (name ∷ words ++ flags) k h)
              (if-Holds error_text now depth run n pgid Restored (is_nil name) _ _ k
                (prompted-Restored error_text now depth run n pgid (codes "\n") s k h)
                (say_prompt-Restored (codes "\nno such command!\n") s k h)))))

  line_done-Restored :
      (s : Session) (line : Text) (k : Kernel)
      → Ready n pgid s k
      → Holds Restored (line_done error_text now depth run s line k)
  unfolding line_done
  line_done-Restored s line k h =
      if-Holds error_text now depth run n pgid Restored (is_nil line) (pure (reads_on s))
        (command error_text now depth run s (parse line).0 (parse line).1) k h
        (command-Restored s (parse line).0 (parse line).1 k h)

  edited-Restored :
      (proc : Process) (outcome : Outcome) (k : Kernel)
      → OnTerminal n pgid proc
      → IsRaw pgid (tty_at n k)
      → Holds Restored (edited error_text now depth run proc outcome k)
  edited-Restored proc none k on h = tt
  edited-Restored proc (some (line, editor)) k on h =
      let s : Session = record { editor = record editor { out = [] }; proc = proc } in
      bind-Holds (λ _ k'. IsRaw pgid (tty_at n k')) Restored (show_all proc editor.out)
        (λ _. line_done error_text now depth run s line) k
        (show_all-IsRaw n pgid proc editor.out k h) (λ _ k' i. line_done-Restored s line k' (on, i))

  shell_turn-Restored :
      (reading : Reading) (s : Session) (k : Kernel)
      → Ready n pgid s k
      → Holds Restored (shell_turn error_text now depth run reading s k)
  unfolding shell_turn
  shell_turn-Restored (keystroke key) s k h =
      edited-Restored s.proc (canonical_logic key s.editor) k h.0 h.1
  shell_turn-Restored cancelled_read s k h = cooked-Restored error_status s k h
  shell_turn-Restored other_status s k h = h
  shell_turn-Restored sigint s k h =
      edited-Restored s.proc (some ([], handle_sigint s.editor)) k h.0 h.1

  after_turn-Restored :
      (on : Session → Exec Kernel Turn) (turn : Turn) (k : Kernel)
      → ((s : Session) (k' : Kernel) → Ready n pgid s k' → Holds Restored (on s k'))
      → Restored turn k
      → Holds Restored (after_turn error_text now depth run on turn k)
  after_turn-Restored on (reads_on s) k g h = g s k h
  after_turn-Restored on (exits status) k g h = h

  shell_loop-Restored :
      (readings : List Reading) (s : Session) (k : Kernel)
      → Ready n pgid s k
      → Holds Restored (shell_loop error_text now depth run readings s k)
  unfolding shell_loop
  shell_loop-Restored [] s k h = h
  shell_loop-Restored (reading ∷ readings) s k h =
      let on = shell_loop error_text now depth run readings in
      bind-Holds Restored Restored (shell_turn error_text now depth run reading s)
        (after_turn error_text now depth run on) k (shell_turn-Restored reading s k h)
        (λ turn k' i.
          after_turn-Restored on turn k' (λ s' k'' j. shell_loop-Restored readings s' k'' j) i)

  -- The shell runs on a terminal, its descriptor 0, whose foreground is the shell's group, and
  -- reads any keystrokes, signals and statuses; the programs that it starts may do anything. Then
  -- `Run` ends with no error. While it reads on, the terminal is raw, its foreground is the shell's
  -- group again, and it is still descriptor 0; when the shell has ended, the terminal gives lines
  -- with echo. It may panic.
  pub shell_run-IsRestored :
      (proc : Process) (readings : List Reading) (k : Kernel)
      → OnTerminal n pgid proc
      → (tty_at n k).foreground_pgid ≡ pgid
      → Holds (TurnIsRestored n pgid) (shell_run error_text now depth run proc readings k)
  unfolding shell_run session_of
  shell_run-IsRestored proc readings k on h =
      let loop = shell_loop error_text now depth run readings (session_of proc) in
      let raw = control error_text now depth run tiocraw (bool_arg true) proc in
      bind-Holds (λ _ k'. (tty_at n k').foreground_pgid ≡ pgid) Restored
        (say proc (codes "\n\r" ++ (proc.cwd ++ codes "$ "))) (λ _. raw >> loop) k
        (say-Foreground n pgid proc (codes "\n\r" ++ (proc.cwd ++ codes "$ ")) k h)
        (λ _ k' i.
          bind-Holds (λ _ k''. IsRaw pgid (tty_at n k'')) Restored raw (λ _. loop) k'
            (control-IsRaw error_text now depth run n pgid proc k' on i)
            (λ _ k'' j. shell_loop-Restored readings (session_of proc) k'' (on, j)))
