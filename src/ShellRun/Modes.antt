-- ===== src/ShellRun/Modes.antt =====
-- The modes of the shell's terminal under single calls of the kernel.
use byte_space.Prelude.{
  ℕ, ◌≡◌, refl, ap, subst, true, false, ◌==◌, ==→eq, ==_refl, Bool-cases, inl, inr, Option, none,
  some, List, [], ◌∷◌, ℤ, pos, Result, ok, err, panics, Exec, ◌>>=◌, pure, continue, get_elem?,
}
use byte_space.Terminal.{Text}
use byte_space.Terminal.Tty.{Tty, write_to_client}
use byte_space.Editor.Slices.{runes}
use byte_space.Editor.Slices.{runes}
use byte_space.Tasks.{
  Process, Tasks, FileDescription, FdType, fd_tty, fd_file, fd_socket, fd_pipe, write_as, set_tty,
  descriptor_tty, write_fd, write_slot, request, ioctl, on_terminal, IoctlReq, Arg,
}
use byte_space.Kernel.{Kernel, on_tasks}
use byte_space.Commands.{say, dropped, show, say}
use byte_space.ShellRun.{Session, Session, Turn, reads_on, exits, show_all}

-- The computation gives no error, and what it gives satisfies `P`, unless it panics.
abbrev pub Holds : {A : Type 0} → (A → Kernel → Type 0) → Result A × Kernel → Type 0
Holds P (ok a, k) = P a k
Holds P (err e, k) = ⊥
Holds P (panics, k) = Unit {0}

pub continue-Holds :
    {A B : Type 0} (P : A → Kernel → Type 0) (Q : B → Kernel → Type 0) (r : Result A) (k : Kernel)
    (f : A → Exec Kernel B)
    → Holds P (r, k)
    → ((a : A) (k' : Kernel) → P a k' → Holds Q (f a k'))
    → Holds Q (continue r f k)
continue-Holds P Q (ok a) k f h g = g a k h
continue-Holds P Q (err e) k f h g = absurd h
continue-Holds P Q panics k f h g = tt

pub bind-Holds :
    {A B : Type 0} (P : A → Kernel → Type 0) (Q : B → Kernel → Type 0) (m : Exec Kernel A)
    (f : A → Exec Kernel B) (k : Kernel)
    → Holds P (m k)
    → ((a : A) (k' : Kernel) → P a k' → Holds Q (f a k'))
    → Holds Q ((m >>= f) k)
bind-Holds P Q m f k h g = continue-Holds P Q (m k).0 (m k).1 f h g

pub dropped-Holds :
    {A : Type 0} (P : Kernel → Type 0) (r : Result A) (k : Kernel)
    → P k
    → Holds (λ _. P) (dropped (r, k))
dropped-Holds P (ok a) k h = h
dropped-Holds P (err e) k h = h
dropped-Holds P panics k h = tt

abbrev pub Any : Kernel → Type 0
Any k = Unit {0}

-- The terminal is raw, and the group is in its foreground.
pub record IsRaw (pgid : ℤ) (tty : Tty) : Type 0 where
  pub canonical : tty.canonical ≡ false
  pub echo : tty.echo ≡ false
  pub foreground : tty.foreground_pgid ≡ pgid

-- The terminal gives lines again, with echo.
pub record IsCooked (tty : Tty) : Type 0 where
  pub canonical : tty.canonical ≡ true
  pub echo : tty.echo ≡ true

abbrev pub tty_at : ℕ → Kernel → Tty
tty_at n k = (k.tasks.devices n).tty

-- Descriptor 0 of the process is terminal `n`, and its group is `pgid`.
pub record OnTerminal (n : ℕ) (pgid : ℤ) (proc : Process) : Type 0 where
  pub descriptor : descriptor_tty proc (pos 0) ≡ ok n
  pub same_group : proc.pgid ≡ pgid

-- The session is on the terminal, which is raw.
abbrev pub Ready : ℕ → ℤ → Session → Kernel → Type 0
Ready n pgid s k = OnTerminal n pgid s.proc × IsRaw pgid (tty_at n k)

abbrev pub TurnIsRestored : ℕ → ℤ → Turn → Kernel → Type 0
TurnIsRestored n pgid (reads_on s) k = Ready n pgid s k
TurnIsRestored n pgid (exits status) k = IsCooked (tty_at n k)

-- A write keeps what holds of the terminal whatever was written to it.
module _ (n : ℕ) (Q : Tty → Type 0) (text : Text)
    (keeps : (tty : Tty) → Q tty → Q (write_to_client text tty)) where
  write_at :
      (m : ℕ) (t : Tasks)
      → Q (t.devices n).tty
      → Q ((set_tty m (write_to_client text (t.devices m).tty) t).devices n).tty
  write_at m t h = elim (Bool-cases (n == m)) [
    | inl same ↦
        rw same (keeps (t.devices m).tty (subst (λ i. Q (t.devices i).tty) (==→eq n m same) h))
    | inr other ↦ rw other h
  ]

  write_as-Keeps :
      (m : ℕ) (kind : FdType) (t : Tasks)
      → Q (t.devices n).tty
      → Q ((write_as kind m text t).1.devices n).tty
  unfolding write_as
  write_as-Keeps m fd_tty t h = write_at m t h
  write_as-Keeps m fd_file t h = h
  write_as-Keeps m fd_socket t h = h
  write_as-Keeps m fd_pipe t h = h

  write_slot-Keeps :
      (slot : Option (Option FileDescription)) (k : Kernel)
      → Q (tty_at n k)
      → Q (tty_at n (on_tasks (write_slot text slot) k).1)
  unfolding write_slot
  write_slot-Keeps none k h = h
  write_slot-Keeps (some none) k h = h
  write_slot-Keeps (some (some desc)) k h = write_as-Keeps desc.tty desc.fd_type k.tasks h

  pub show-Keeps :
      (proc : Process) (k : Kernel)
      → Q (tty_at n k)
      → Holds (λ _ k'. Q (tty_at n k')) (show proc text k)
  unfolding show write_fd
  show-Keeps proc k h =
      dropped-Holds (λ k'. Q (tty_at n k')) (on_tasks (write_fd proc (pos 1) text) k).0
        (on_tasks (write_fd proc (pos 1) text) k).1 (write_slot-Keeps (get_elem? proc.fds 1) k h)

pub show-IsRaw :
    (n : ℕ) (pgid : ℤ) (proc : Process) (text : Text) (k : Kernel)
    → IsRaw pgid (tty_at n k)
    → Holds (λ _ k'. IsRaw pgid (tty_at n k')) (show proc text k)
unfolding write_to_client
show-IsRaw n pgid proc text k h =
    show-Keeps n (IsRaw pgid) text
      (λ tty i. record { canonical = i.canonical; echo = i.echo; foreground = i.foreground }) proc k
      h

pub say-Foreground :
    (n : ℕ) (pgid : ℤ) (proc : Process) (message : List ℕ) (k : Kernel)
    → (tty_at n k).foreground_pgid ≡ pgid
    → Holds (λ _ k'. (tty_at n k').foreground_pgid ≡ pgid) (say proc message k)
unfolding say write_to_client
say-Foreground n pgid proc message k h =
    show-Keeps n (λ tty. tty.foreground_pgid ≡ pgid) (runes message) (λ tty i. i) proc k h

pub show-Holds : (proc : Process) (text : Text) (k : Kernel) → Holds (λ _. Any) (show proc text k)
unfolding show write_fd
show-Holds proc text k =
    dropped-Holds Any (on_tasks (write_fd proc (pos 1) text) k).0
      (on_tasks (write_fd proc (pos 1) text) k).1 tt

pub show_all-IsRaw :
    (n : ℕ) (pgid : ℤ) (proc : Process) (texts : List Text) (k : Kernel)
    → IsRaw pgid (tty_at n k)
    → Holds (λ _ k'. IsRaw pgid (tty_at n k')) (show_all proc texts k)
show_all-IsRaw n pgid proc [] k h = h
show_all-IsRaw n pgid proc (text ∷ texts) k h =
    bind-Holds (λ _ k'. IsRaw pgid (tty_at n k')) (λ _ k'. IsRaw pgid (tty_at n k'))
      (show proc text) (λ _. show_all proc texts) k (show-IsRaw n pgid proc text k h)
      (λ _ k' g. show_all-IsRaw n pgid proc texts k' g)

pub set_here :
    (n : ℕ) (tty : Tty) (t : Tasks)
    → (set_tty n tty t).devices n ≡ record (t.devices n) { tty = tty }
set_here n tty t = rw (==_refl n) refl

pub reply-Holds :
    {A B : Type 0} (P : Kernel → Type 0) (r : Result A) (f : A → B) (k : Kernel)
    → P k
    → Holds (λ _. P) (dropped (continue r (λ a. pure (f a)) k))
reply-Holds P (ok a) f k h = h
reply-Holds P (err e) f k h = h
reply-Holds P panics f k h = tt

pub ioctl-request :
    (n : ℕ) (req : IoctlReq) (arg : Arg) (proc : Process) (t : Tasks)
    → descriptor_tty proc (pos 0) ≡ ok n
    → ioctl proc (pos 0) req arg t ≡ request n req arg t
unfolding ioctl on_terminal
ioctl-request n req arg proc t e = ap (λ r. on_terminal r req arg t) e
