-- ===== src/Examples/Shells.antt =====
-- The loop of programs/shell at concrete values.
use byte_space.Prelude.{
  ℕ, true, false, refl, none, some, List, [], ◌∷◌, codes, pos, ok, Exec, Error,
}
use byte_space.Layout.{disksize}
use byte_space.FileSystem.{fresh_super_blk}
use byte_space.Terminal.{enter}
use byte_space.Terminal.Tty.{new_tty, set_raw}
use byte_space.Tasks.{Process, fd_tty, descriptor_tty, set_tty}
use byte_space.Kernel.{Kernel}
use byte_space.ShellRun.{Reading, keystroke, cancelled_read, sigint, shell_run}
use byte_space.ShellRun.Modes.{Holds, TurnIsRestored, OnTerminal, tty_at}
use byte_space.ShellRun.Restores.{shell_run-IsRestored}

-- A kernel whose terminals have group 7 in the foreground.
abbrev kernel : Kernel
kernel = record {
  fs = record {
    disk = record { len = disksize; byte = λ i. 0 };
    super_blk = fresh_super_blk;
    fresh_format = false;
  };
  inode_cache = λ n. none;
  tasks = record {
    pids = 7;
    free_pids = [];
    procs = [];
    devices = λ n. record { tty = record new_tty { foreground_pgid = pos 7 }; has_session = false };
    resized = [];
    programs = codes "/bin/cat" ∷ [];
  };
}

abbrev shell : Process
shell = record {
  pid = 7;
  pgid = pos 7;
  uid = codes "root";
  euid = codes "root";
  cwd = codes "/";
  fds = some (record { fd_type = fd_tty; tty = 2 }) ∷ [];
}

-- Programs that leave terminal 2 in raw mode and take its foreground.
abbrev rude : Process → List (List ℕ) → Exec Kernel ℕ
unfolding set_raw
rude proc words k = (
  ok 0,
  record k {
    tasks = set_tty 2 (set_raw true (record (tty_at 2 k) { foreground_pgid = pos 99 })) k.tasks;
  },
)

abbrev readings : List Reading
readings =
    keystroke (codes "l")
    ∷ sigint
    ∷ keystroke (codes "v")
    ∷ keystroke enter
    ∷ keystroke (codes "q")
    ∷ cancelled_read
    ∷ []

abbrev no_text : Error → List ℕ
no_text e = codes "error"

shell-OnTerminal : OnTerminal 2 (pos 7) shell
unfolding descriptor_tty
shell-OnTerminal = record { descriptor = refl; same_group = refl }

shell_run-IsRestored_example :
    Holds (TurnIsRestored 2 (pos 7)) (shell_run no_text (0, 0) 9 rude shell readings kernel)
shell_run-IsRestored_example =
    shell_run-IsRestored no_text (0, 0) 9 rude 2 (pos 7) shell readings kernel shell-OnTerminal refl
