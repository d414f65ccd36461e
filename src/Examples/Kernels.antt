-- ===== src/Examples/Kernels.antt =====
-- computer/kernel.go and computer/process.go at concrete values.
use byte_space.Prelude.{
  ℕ, ◌≤◌, ◌≡◌, refl, ◌==◌, if◌then◌else◌, true, false, none, some, List, [], ◌∷◌, ok, Exec, pure,
  pos, codes, ◌⊎◌, split_on, eq_bytes, has_prefix,
}
use byte_space.Terminal.Tty.{new_tty}
use byte_space.Inode.{Inode, empty_inode, owner_bytes}
use byte_space.Paths.{clean, join, dir, base, join_parts, clean_parts, back}
use byte_space.Paths.Normal.{IsNormal}
use byte_space.Tasks.{Process, Tasks, ExecOpts, string_arg, next_pid}
use byte_space.Tasks.Pids.{Reachable, begins, takes, uses, Reachable-next_pid}
use byte_space.Kernel.{Kernel, normalize_path, resolve_path}
use byte_space.Kernel.Reads.{read_file, read_dir}
use byte_space.Kernel.Reading.{Loads, Loads-refl, locate}
use byte_space.Kernel.Guarded.{Denied}
use byte_space.Kernel.Readers.{MayRead, resolve_path-locate, reads-MayRead}
use byte_space.Kernel.Normal.{normalize_path_twice}
use byte_space.Kernel.Syscall.{syscall, sys_mkdir}
use byte_space.Kernel.Permits.{SameDisk, MayChange, syscall-MayChange}
use byte_space.Examples.Directories.{home_disk, directory}

abbrev no_tasks : Tasks
no_tasks = record {
  pids = 0;
  free_pids = [];
  procs = [];
  devices = λ n. record { tty = new_tty; has_session = false };
  resized = [];
  programs = codes "/home" ∷ [];
}

-- The root directory, and a directory of the user ann.
abbrev root_dir : Inode
root_dir = record directory {
  owner = owner_bytes (codes "root");
  owner_mode = 7;
  other_mode = 5;
  num = 2;
}

abbrev home_dir : Inode
home_dir = record empty_inode {
  f_type = 1;
  owner = owner_bytes (codes "ann");
  owner_mode = 7;
  num = 3;
}

abbrev kernel : Kernel
kernel = record {
  fs = home_disk;
  inode_cache = λ n. if n == 2 then some root_dir else if n == 3 then some home_dir else none;
  tasks = no_tasks;
}

abbrev process_of : List ℕ → Process
process_of user = record {
  pid = 1;
  pgid = pos 1;
  uid = user;
  euid = user;
  cwd = codes "/home";
  fds = [];
}

abbrev ann : Process
ann = process_of (codes "ann")

abbrev bob : Process
bob = process_of (codes "bob")

normalize_path_dots : normalize_path ann (codes "../etc//./passwd") ≡ codes "/etc/passwd"
unfolding normalize_path clean join clean_parts back split_on join_parts eq_bytes has_prefix
normalize_path_dots = refl

dir_passwd : dir (codes "/etc/passwd") ≡ codes "/etc"
unfolding dir clean clean_parts split_on join_parts eq_bytes
dir_passwd = refl

base_passwd : base (codes "/etc/passwd") ≡ codes "passwd"
unfolding base split_on
base_passwd = refl

normalize_path_twice_example :
    IsNormal (normalize_path ann (codes "~/../bob/./x"))
    × (normalize_path bob (normalize_path ann (codes "~/../bob/./x"))
        ≡ normalize_path ann (codes "~/../bob/./x"))
normalize_path_twice_example = normalize_path_twice ann bob (codes "~/../bob/./x")

resolve_path-locate_example :
    ((resolve_path ann (codes "/home") kernel).0 ≡ locate kernel ann (codes "/home"))
    × Loads kernel (resolve_path ann (codes "/home") kernel).1
resolve_path-locate_example =
    resolve_path-locate kernel kernel ann (codes "/home") (Loads-refl kernel)

reads-MayRead_example :
    (Denied kernel (read_file bob (codes "/home") kernel)
      ⊎ MayRead kernel bob (codes "/home") false)
    × (Denied kernel (read_dir bob (codes "/home") kernel)
        ⊎ MayRead kernel bob (codes "/home") true)
reads-MayRead_example = reads-MayRead kernel bob (codes "/home")

abbrev runs : Process → List (List ℕ) → Exec Kernel ℕ
runs child args = pure 0

syscall-MayChange_example :
    SameDisk kernel
      (syscall (0, 0) 8 runs bob sys_mkdir (string_arg (codes "/home/x") ∷ []) kernel).1
    ⊎ MayChange kernel bob sys_mkdir (string_arg (codes "/home/x") ∷ [])
syscall-MayChange_example =
    syscall-MayChange (0, 0) 8 runs kernel bob sys_mkdir (string_arg (codes "/home/x") ∷ [])

abbrev in_foreground : ExecOpts
in_foreground = record { background = false; pgid = pos 0 }

abbrev one_taken : Tasks
one_taken = record no_tasks { pids = 1 }

one_taken-Reachable : Reachable one_taken (1 ∷ [])
one_taken-Reachable =
    takes no_tasks [] 1 one_taken
      (begins no_tasks (record { pids = refl; free_pids = refl; procs = refl }))
      (unfold next_pid in refl)

Reachable-next_pid_example :
    ((n : ℕ) → uses n one_taken (1 ∷ []) ≤ 1)
    × (next_pid one_taken ≡ (ok 2, record one_taken { pids = 2 }))
    × (uses 2 one_taken (1 ∷ []) ≡ 0)
Reachable-next_pid_example = Reachable-next_pid one_taken (1 ∷ []) one_taken-Reachable
