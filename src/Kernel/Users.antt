-- ===== src/Kernel/Users.antt =====
-- computer/kernel.go: the user that a program runs as.
use byte_space.Prelude.{
  ℕ, ◌≡◌, true, false, List, [], ◌∷◌, ◌++◌, Result, ok, err, panics, Exec, ◌>>◌, pure,
  command_not_found,
}
use byte_space.Inode.{Inode, owner_string}
use byte_space.Tasks.{Process, Tasks, ExecOpts, next_pid, add_process, without_pid}
use byte_space.Kernel.{Kernel, on_tasks}
use byte_space.Kernel.Reading.{Reads, bind_result, look, locate}
use byte_space.Kernel.Launch.{has_path, child_of, take_terminal}

-- The state after the child's number was taken.
abbrev pub numbered : Kernel → Kernel
numbered k = record k { tasks = (next_pid k.tasks).1 }

-- The inode that the path leads the parent to.
abbrev program_inode : Kernel → Process → List ℕ → Result Inode
program_inode k parent bin_path = bind_result (locate k parent bin_path) (look k)

-- The child runs as the user of its parent, or as the owner of a program with `setuid`.
pub data RunsAs (k : Kernel) (parent : Process) (bin_path : List ℕ) : List ℕ → Type 0 where
  as_parent : RunsAs k parent bin_path parent.uid
  as_owner :
      (ino : Inode)
      → program_inode k parent bin_path ≡ ok ino
      → ino.setuid ≡ true
      → RunsAs k parent bin_path (owner_string ino.owner)

pub record IsChild (k : Kernel) (parent : Process) (bin_path : List ℕ) (child : Process)
    : Type 0 where
  pub pid : (next_pid k.tasks).0 ≡ ok child.pid
  pub uid : child.uid ≡ parent.uid
  pub cwd : child.cwd ≡ parent.cwd
  pub fds : child.fds ≡ parent.fds
  pub euid : RunsAs (numbered k) parent bin_path child.euid

abbrev pub Launched : Kernel → Process → List ℕ → Result Process × Kernel → Type 0
Launched k parent bin_path (ok child, k') =
    IsChild k parent bin_path child
    × (k'.fs ≡ k.fs)
    × (k'.tasks.procs ≡ without_pid child.pid k.tasks.procs ++ child ∷ [])
Launched k parent bin_path (err e, k') =
    (e ≡ command_not_found bin_path) × (k' ≡ k) × (has_path bin_path k.tasks.programs ≡ false)
Launched k parent bin_path (panics, k') = program_inode (numbered k) parent bin_path ≡ panics

record Numbered (t : Tasks) : Type 0 where
  pid : ℕ
  gives : (next_pid t).0 ≡ ok pid
  procs : (next_pid t).1.procs ≡ t.procs

-- `SetForegroundPGID` leaves the processes, and does not fail.
abbrev Foreground : Tasks → Result (Unit {0}) × Tasks → Type 0
Foreground t (ok _, t') = t'.procs ≡ t.procs
Foreground t (err e, t') = ⊥
Foreground t (panics, t') = ⊥

module _ (k : Kernel) (parent : Process) (bin_path : List ℕ) (opts : ExecOpts) where
  enter : ℕ → List ℕ → Exec Kernel Process
  enter pid euid = do
    on_tasks (add_process (child_of parent opts pid euid))
    on_tasks (take_terminal (child_of parent opts pid euid) parent.fds)
    pure (child_of parent opts pid euid)
