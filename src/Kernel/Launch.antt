-- ===== src/Kernel/Launch.antt =====
-- computer/kernel.go: `exec`, which starts a program as a child of a process.
use byte_space.Prelude.{
  ℕ, Bool, false, ◌||◌, ◌==◌, if◌then◌else◌, Option, none, some, List, [], ◌∷◌, ℤ, pos, Result, ok,
  err, panics, Exec, ◌>>=◌, ◌>>◌, pure, fail, eq_bytes, command_not_found, exited,
}
use byte_space.Inode.{Inode, owner_string}
use byte_space.Tasks.{
  Process, Tasks, FileDescription, FdType, fd_tty, ExecOpts, next_pid, add_process, cleanup_process,
  eq_int, set_foreground,
}
use byte_space.Kernel.{Kernel, on_tasks}
use byte_space.Kernel.Reads.{inode_at}

abbrev pub has_path : List ℕ → List (List ℕ) → Bool
has_path path [] = false
has_path path (p ∷ paths) = eq_bytes p path || has_path path paths

abbrev pub found_or : Bool → List ℕ → Exec Kernel (Unit {0})
found_or found path = if found then pure tt else fail (command_not_found path)

-- The paths are those that `RegisterProgram` gave a factory for.
abbrev pub find_program : List ℕ → Exec Kernel (Unit {0})
find_program path k = found_or (has_path path k.tasks.programs) path k

abbrev pub owner_or : List ℕ → Result Inode × Kernel → Result (List ℕ) × Kernel
owner_or uid (ok ino, k) = (ok (if ino.setuid then owner_string ino.owner else uid), k)
owner_or uid (err e, k) = (ok uid, k)
owner_or uid (panics, k) = (panics, k)

-- The user of the parent, or the owner of the program's inode if that has `setuid`.
unfoldable pub effective_user : Process → List ℕ → Exec Kernel (List ℕ)
effective_user parent bin_path k = owner_or parent.uid (inode_at parent bin_path k)

abbrev pub child_of : Process → ExecOpts → ℕ → List ℕ → Process
child_of parent opts pid euid = record {
  pid = pid;
  pgid = if eq_int opts.pgid (pos 0) then pos pid else opts.pgid;
  uid = parent.uid;
  euid = euid;
  cwd = parent.cwd;
  fds = parent.fds;
}

abbrev pub foreground_of : FdType → ℕ → ℤ → Exec Tasks (Unit {0})
foreground_of fd_tty n pgid t = (ok tt, set_foreground n pgid t)
foreground_of _ n pgid t = (ok tt, t)

abbrev pub foreground_at : ℤ → Option FileDescription → Exec Tasks (Unit {0})
foreground_at pgid none t = (ok tt, t)
foreground_at pgid (some desc) t = foreground_of desc.fd_type desc.tty pgid t

-- The child's group comes to the foreground of the terminal that is its first descriptor.
abbrev pub take_terminal : Process → List (Option FileDescription) → Exec Tasks (Unit {0})
take_terminal child [] t = (ok tt, t)
take_terminal child (slot ∷ slots) t = foreground_at child.pgid slot t

-- `exec` until the program runs: the child.
unfoldable pub start_process : Process → List ℕ → ExecOpts → Exec Kernel Process
unfolding effective_user
start_process parent bin_path opts = do
  find_program bin_path
  pid ← on_tasks next_pid
  euid ← effective_user parent bin_path
  on_tasks (add_process (child_of parent opts pid euid))
  on_tasks (take_terminal (child_of parent opts pid euid) parent.fds)
  pure (child_of parent opts pid euid)

-- The status that the program sent.
abbrev exit_with : List ℕ → ℕ → Exec Kernel (Unit {0})
exit_with bin_path code = if code == 0 then pure tt else fail (exited bin_path code)

-- `run` is the program up to the status that it sends.
module _ (run : Process → List (List ℕ) → Exec Kernel ℕ) where
  unfoldable pub wait_for : Process → List ℕ → List (List ℕ) → Exec Kernel (Unit {0})
  wait_for child bin_path args = do
    code ← run child args
    on_tasks (cleanup_process child.pid)
    exit_with bin_path code

  -- A program in the background runs, and its process ends, after the call.
  unfoldable pub exec : Process → List ℕ → List (List ℕ) → ExecOpts → Exec Kernel (Unit {0})
  unfolding start_process wait_for
  exec parent bin_path args opts = do
    child ← start_process parent bin_path opts
    if opts.background then pure tt else wait_for child bin_path args
