-- ===== src/ShellRun/Launches.antt =====
-- The shell's terminal behind a program that the shell started.
use byte_space.Prelude.{
  ℕ, ◌≡◌, refl, sym, ◌∙◌, ap, subst, Bool, true, false, if◌then◌else◌, List, ◌++◌, map, ℤ, pos,
  eq_bytes, codes, Result, ok, err, panics, Exec, ◌>>◌, pure, Error,
}
use byte_space.Terminal.{Text}
use byte_space.Terminal.Tty.{set_raw}
use byte_space.Editor.Slices.{runes, utf8}
use byte_space.Tasks.{
  Process, descriptor_tty, request, ioctl, IoctlReq, tiocraw, tiocspgrp, Arg, int_arg, bool_arg,
}
use byte_space.Kernel.{Kernel, on_tasks}
use byte_space.Kernel.Syscall.{Reply, winsize_reply, syscall}
use byte_space.Commands.{show, say}
use byte_space.ShellRun.{
  Session, reads_on, control, reported, launch, exec_fg, run_program, prompted,
}
use byte_space.ShellRun.Modes.{
  Ready, Holds, bind-Holds, Any, tty_at, TurnIsRestored, show-IsRaw, show-Holds, set_here,
  reply-Holds, ioctl-request, IsRaw, IsCooked, OnTerminal,
}

module _ (error_text : Error → List ℕ) (now : ℕ × ℕ) (depth : ℕ)
    (run : Process → List (List ℕ) → Exec Kernel ℕ) (n : ℕ) (pgid : ℤ) where
  abbrev pub Raw : Unit {0} → Kernel → Type 0
  Raw _ k = IsRaw pgid (tty_at n k)

  abbrev pub Front : Unit {0} → Kernel → Type 0
  Front _ k = (tty_at n k).foreground_pgid ≡ pgid

  abbrev pub ctl : IoctlReq → Arg → Process → Exec Kernel (Unit {0})
  ctl req arg proc = control error_text now depth run req arg proc

  pub control-Holds :
      (req : IoctlReq) (arg : Arg) (proc : Process) (k : Kernel) (P : Kernel → Type 0)
      → descriptor_tty proc (pos 0) ≡ ok n
      → P (on_tasks (request n req arg) k).1
      → Holds (λ _. P) (control error_text now depth run req arg proc k)
  unfolding control syscall ioctl
  control-Holds req arg proc k P e h =
      reply-Holds P (ioctl proc (pos 0) req arg k.tasks).0 winsize_reply
        (record k { tasks = (ioctl proc (pos 0) req arg k.tasks).1 })
        (rw (ioctl-request n req arg proc k.tasks e) h)

  pub reported-Holds :
      (proc : Process) (r : Result Reply) (k : Kernel)
      → Holds (λ _. Any) (reported error_text now depth run proc (r, k))
  unfolding say
  reported-Holds proc (ok reply) k = tt
  reported-Holds proc (err e) k =
      show-Holds proc (runes (codes "\n" ++ (error_text e ++ codes "\n"))) k
  reported-Holds proc panics k = tt

  pub launch-Holds :
      (proc : Process) (bin : List ℕ) (words : List (List ℕ)) (k : Kernel)
      → Holds (λ _. Any) (launch error_text now depth run proc bin words k)
  unfolding launch
  launch-Holds proc bin words k = reported-Holds proc _ _

  pub control-IsRaw :
      (proc : Process) (k : Kernel)
      → OnTerminal n pgid proc
      → (tty_at n k).foreground_pgid ≡ pgid
      → Holds Raw (control error_text now depth run tiocraw (bool_arg true) proc k)
  unfolding request set_raw
  control-IsRaw proc k on h =
      control-Holds tiocraw (bool_arg true) proc k (λ k'. IsRaw pgid (tty_at n k')) on.descriptor
        (subst (λ d. IsRaw pgid d.tty) (sym (set_here n (set_raw true (tty_at n k)) k.tasks))
          (record { canonical = refl; echo = refl; foreground = h }))

  pub control-IsCooked :
      (proc : Process) (k : Kernel)
      → OnTerminal n pgid proc
      → Holds
          (λ _ k'. IsCooked (tty_at n k'))
          (control error_text now depth run tiocraw (bool_arg false) proc k)
  unfolding request set_raw
  control-IsCooked proc k on =
      control-Holds tiocraw (bool_arg false) proc k (λ k'. IsCooked (tty_at n k')) on.descriptor
        (subst (λ d. IsCooked d.tty) (sym (set_here n (set_raw false (tty_at n k)) k.tasks))
          (record { canonical = refl; echo = refl }))

  pub last-IsRaw :
      (b : Bool) (proc : Process) (k : Kernel)
      → OnTerminal n pgid proc
      → IsRaw pgid (tty_at n k)
      → Holds Raw ((if b then ctl tiocraw (bool_arg true) proc else pure tt) k)
  last-IsRaw true proc k on h = control-IsRaw proc k on h.foreground
  last-IsRaw false proc k on h = h

  pub foreground-Holds :
      (proc : Process) (k : Kernel)
      → OnTerminal n pgid proc
      → Holds
          (λ _ k'. (tty_at n k').foreground_pgid ≡ pgid)
          (control error_text now depth run tiocspgrp (int_arg proc.pgid) proc k)
  unfolding request
  foreground-Holds proc k on =
      control-Holds tiocspgrp (int_arg proc.pgid) proc k
        (λ k'. (tty_at n k').foreground_pgid ≡ pgid) on.descriptor
        (ap (λ d. d.tty.foreground_pgid)
            (set_here n (record (tty_at n k) { foreground_pgid = proc.pgid }) k.tasks)
          ∙ on.same_group)

  -- Whatever the program does, and whatever its launch gives.
  pub exec_fg-IsRaw :
      (proc : Process) (bin : List ℕ) (words : List (List ℕ)) (k : Kernel)
      → OnTerminal n pgid proc
      → Holds Raw (exec_fg error_text now depth run proc bin words k)
  unfolding exec_fg
  exec_fg-IsRaw proc bin words k on =
      let cook = ctl tiocraw (bool_arg false) proc in
      let go = launch error_text now depth run proc bin words in
      let front = ctl tiocspgrp (int_arg proc.pgid) proc in
      let raw = ctl tiocraw (bool_arg true) proc in
      bind-Holds (λ _. Any) Raw cook (λ _. go >> (front >> raw)) k
        (control-Holds tiocraw (bool_arg false) proc k Any on.descriptor tt)
        (λ _ k1 _.
          bind-Holds (λ _. Any) Raw go (λ _. front >> raw) k1 (launch-Holds proc bin words k1)
            (λ _ k2 _.
              bind-Holds Front Raw front (λ _. raw) k2 (foreground-Holds proc k2 on)
                (λ _ k3 h. control-IsRaw proc k3 on h)))

  pub run_program-IsRaw :
      (proc : Process) (name : Text) (words : List Text) (k : Kernel)
      → OnTerminal n pgid proc
      → Holds Raw (run_program error_text now depth run proc name words k)
  unfolding run_program
  run_program-IsRaw proc name words k on =
      let bin = codes "/bin/" ++ utf8 name in
      let last = if eq_bytes name (codes "v") then ctl tiocraw (bool_arg true) proc else pure tt in
      bind-Holds Raw Raw (exec_fg error_text now depth run proc bin (map utf8 words)) (λ _. last) k
        (exec_fg-IsRaw proc bin (map utf8 words) k on)
        (λ _ k1 h. last-IsRaw (eq_bytes name (codes "v")) proc k1 on h)

  pub say-Ready :
      {A : Type 0} (Q : A → Kernel → Type 0) (message : List ℕ) (m : Exec Kernel A) (proc : Process)
      (k : Kernel)
      → IsRaw pgid (tty_at n k)
      → ((k' : Kernel) → IsRaw pgid (tty_at n k') → Holds Q (m k'))
      → Holds Q ((say proc message >> m) k)
  unfolding say
  say-Ready Q message m proc k h g =
      bind-Holds Raw Q (show proc (runes message)) (λ _. m) k
        (show-IsRaw n pgid proc (runes message) k h) (λ _ k' i. g k' i)

  pub prompted-Restored :
      (prefix : List ℕ) (s : Session) (k : Kernel)
      → Ready n pgid s k
      → Holds (TurnIsRestored n pgid) (prompted error_text now depth run prefix s k)
  prompted-Restored prefix s k h =
      say-Ready (TurnIsRestored n pgid) _ (pure (reads_on s)) s.proc k h.1 (λ k' i. (h.0, i))
