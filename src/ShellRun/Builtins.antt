-- ===== src/ShellRun/Builtins.antt =====
-- The shell's terminal behind its own `cd`.
use byte_space.Prelude.{
  ℕ, ◌≡◌, refl, sym, ◌∙◌, ap, subst, Bool, true, false, not, ◌==◌, if◌then◌else◌, List, [], ◌∷◌,
  ◌++◌, ℤ, is_nil, codes, Result, ok, err, panics, Exec, ◌>>◌, pure, Error, continue, get_elem?,
  no_such_path, denied_path,
}
use byte_space.Terminal.{Text}
use byte_space.Editor.Slices.{utf8}
use byte_space.Tasks.{Process, Tasks, descriptor_tty, in_fds}
use byte_space.Inode.{Inode, s_ifdir}
use byte_space.Kernel.{Kernel, normalize_path, can_execute}
use byte_space.Kernel.Reads.{change_directory, entered, inode_at}
use byte_space.Kernel.Reading.{Loads, Loads-refl}
use byte_space.Kernel.Stays.{change_directory-Stays}
use byte_space.Kernel.Syscall.{process_reply, syscall}
use byte_space.Commands.{say}
use byte_space.ShellRun.{Session, moved_by, cd_target, in_directory, cd_to, cd_command}
use byte_space.ShellRun.Modes.{Ready, Holds, tty_at, IsRaw, OnTerminal}
use byte_space.ShellRun.Launches.{say-Ready}

abbrev Moved : Process → Result Process → Type 0
Moved proc (ok p) = (p.fds ≡ proc.fds) × (p.pgid ≡ proc.pgid)
Moved proc _ = Unit {0}

if-Moved :
    (proc : Process) (b : Bool) (x y : Result Process × Kernel)
    → Moved proc x.0
    → Moved proc y.0
    → Moved proc (if b then x else y).0
if-Moved proc true x y h g = h
if-Moved proc false x y h g = g

entered-Moved :
    (proc : Process) (target : List ℕ) (r : Result Inode) (k : Kernel)
    → Moved proc (entered proc target (r, k)).0
entered-Moved proc target (ok ino) k =
    if-Moved proc (not (ino.f_type == s_ifdir)) (err (no_such_path target), k) _ tt
      (if-Moved proc (not (can_execute proc.euid ino)) (err (denied_path target), k)
        (ok (record proc { cwd = target }), k) tt (refl, refl))
entered-Moved proc target (err e) k = tt
entered-Moved proc target panics k = tt

change_directory-Moved :
    (proc : Process) (target : List ℕ) (k : Kernel) → Moved proc (change_directory proc target k).0
unfolding change_directory
change_directory-Moved proc target k =
    let target = normalize_path proc target in
    entered-Moved proc target (inode_at proc target k).0 (inode_at proc target k).1

moved-OnTerminal :
    (n : ℕ) (pgid : ℤ) (proc p : Process)
    → (p.fds ≡ proc.fds) × (p.pgid ≡ proc.pgid)
    → OnTerminal n pgid proc
    → OnTerminal n pgid p
unfolding descriptor_tty
moved-OnTerminal n pgid proc p h on = record {
  descriptor = ap (λ fds. in_fds (get_elem? fds 0)) h.0 ∙ on.descriptor;
  same_group = h.1 ∙ on.same_group;
}

stays-IsRaw :
    (n : ℕ) (pgid : ℤ) (k k' : Kernel)
    → Loads k k'
    → IsRaw pgid (tty_at n k)
    → IsRaw pgid (tty_at n k')
stays-IsRaw n pgid k k' l h = subst (λ (t : Tasks). IsRaw pgid (t.devices n).tty) (sym l.tasks) h

module _ (error_text : Error → List ℕ) (now : ℕ × ℕ) (depth : ℕ)
    (run : Process → List (List ℕ) → Exec Kernel ℕ) (n : ℕ) (pgid : ℤ) where
  pub say_on-Ready :
      (message : List ℕ) (s : Session) (k : Kernel)
      → Ready n pgid s k
      → Holds (Ready n pgid) ((say s.proc message >> pure s) k)
  say_on-Ready message s k h =
      say-Ready error_text now depth run n pgid (Ready n pgid) message (pure s) s.proc k h.1
        (λ k' i. (h.0, i))

  in_directory-Ready :
      (s : Session) (r : Result Process) (k : Kernel)
      → Moved s.proc r
      → Ready n pgid s k
      → Holds
          (Ready n pgid)
          (in_directory error_text now depth run s (continue r (λ p. pure (process_reply p)) k))
  unfolding moved_by
  in_directory-Ready s (ok p) k m h =
      say-Ready error_text now depth run n pgid (Ready n pgid) (codes "\n")
        (pure (moved_by s (process_reply p))) s.proc k h.1
        (λ k' i. (moved-OnTerminal n pgid s.proc p m h.0, i))
  in_directory-Ready s (err e) k m h =
      say_on-Ready (codes "\n" ++ (error_text e ++ codes "\n")) s k h
  in_directory-Ready s panics k m h = tt

  cd_to-Ready :
      (s : Session) (value : List Text) (k : Kernel)
      → Ready n pgid s k
      → Holds (Ready n pgid) (cd_to error_text now depth run s value k)
  unfolding cd_to syscall
  cd_to-Ready s (name ∷ dir ∷ []) k h =
      let target = cd_target s.proc (utf8 dir) in
      in_directory-Ready s (change_directory s.proc target k).0 (change_directory s.proc target k).1
        (change_directory-Moved s.proc target k)
        (
          h.0,
          stays-IsRaw n pgid k (change_directory s.proc target k).1
              (change_directory-Stays k s.proc target k (Loads-refl k)) h.1,
        )
  cd_to-Ready s value k h = say_on-Ready (codes "\nUsage: cd <path>\n") s k h

  pub if-Holds :
      {A : Type 0} (P : A → Kernel → Type 0) (b : Bool) (m m' : Exec Kernel A) (k : Kernel)
      → Holds P (m k)
      → Holds P (m' k)
      → Holds P ((if b then m else m') k)
  if-Holds P true m m' k h g = h
  if-Holds P false m m' k h g = g

  pub cd_command-Ready :
      (s : Session) (value flags : List Text) (k : Kernel)
      → Ready n pgid s k
      → Holds (Ready n pgid) (cd_command error_text now depth run s value flags k)
  unfolding cd_command
  cd_command-Ready s value flags k h =
      if-Holds (Ready n pgid) (not (is_nil flags))
        (say s.proc (codes "\nNo flags implemented\n") >> pure s)
        (cd_to error_text now depth run s value) k
        (say_on-Ready (codes "\nNo flags implemented\n") s k h) (cd_to-Ready s value k h)
