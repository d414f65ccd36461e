-- ===== src/Tasks.antt =====
-- computer/process.go and computer/kernel.go: processes and their numbers, open terminals, and
-- `ioctl`; the parts of computer/tty.go that `ioctl` calls.
pub mod Pids
use byte_space.Prelude.{
  ℕ, zero, suc, ◌+◌, Bool, true, false, ◌&&◌, ◌||◌, not, ◌==◌, leb, if◌then◌else◌, Option, none,
  some, List, [], ◌∷◌, ◌++◌, ℤ, pos, negsuc, Result, ok, err, panics, Exec, ◌>>=◌, ◌>>◌, pure, fail,
  Error, get_elem?, length, bad_file_descriptor, not_a_tty, unsupported_fd_type, invalid_type,
}
use byte_space.Terminal.{Text, byte_len}
use byte_space.Terminal.Tty.{Tty, write_to_client, buff_clear, set_raw}

-- `FDType`; only terminals are made so far.
pub data FdType : Type 0 where
  fd_tty fd_file fd_socket fd_pipe : FdType

-- `tty` numbers the terminal that the description points to.
pub record FileDescription : Type 0 where
  pub fd_type : FdType
  pub tty : ℕ

-- The program and its context are not here. `fds` has `none` for nil.
pub record Process : Type 0 where
  pub pid : ℕ
  pub pgid : ℤ
  pub uid : List ℕ
  pub euid : List ℕ
  pub cwd : List ℕ
  pub fds : List (Option FileDescription)

-- A terminal, and whether it has a session, which is one on this computer.
pub record Device : Type 0 where
  pub tty : Tty
  pub has_session : Bool

-- `procs` has the running processes in the order in which they began; `resized` has the numbers of
-- those that SIGWINCH was sent to, in order (Go visits the map in any order). `programs` has the paths
-- that have a factory.
pub record Tasks : Type 0 where
  pub pids : ℕ
  pub free_pids : List ℕ
  pub procs : List Process
  pub devices : ℕ → Device
  pub resized : List ℕ
  pub programs : List (List ℕ)

abbrev pub pid_from : List ℕ → Exec Tasks ℕ
pid_from [] t = (ok (t.pids + 1), record t { pids = t.pids + 1 })
pid_from (pid ∷ free) t = (ok pid, record t { free_pids = free })

-- `nextPID`: the last of the free numbers (here the first of the list), or a new one.
unfoldable pub next_pid : Exec Tasks ℕ
next_pid t = pid_from t.free_pids t

unfoldable pub without_pid : ℕ → List Process → List Process
without_pid pid [] = []
without_pid pid (proc ∷ procs) =
    let kept = without_pid pid procs in if proc.pid == pid then kept else proc ∷ kept

-- `k.procs[pid] = proc`
unfoldable pub add_process : Process → Exec Tasks (Unit {0})
unfolding without_pid
add_process proc t = (ok tt, record t { procs = without_pid proc.pid t.procs ++ proc ∷ [] })

unfoldable pub cleanup_process : ℕ → Exec Tasks (Unit {0})
unfolding without_pid
cleanup_process pid t = (ok tt, record t { procs = without_pid pid t.procs })

abbrev pub set_device : ℕ → Device → Tasks → Tasks
set_device n d t = record t { devices = λ m. if m == n then d else t.devices m }

abbrev pub set_tty : ℕ → Tty → Tasks → Tasks
set_tty n tty t = set_device n (record (t.devices n) { tty = tty }) t

abbrev pub eq_int : ℤ → ℤ → Bool
eq_int (pos a) (pos b) = a == b
eq_int (negsuc a) (negsuc b) = a == b
eq_int _ _ = false

-- The processes of a group.
unfoldable pub group : ℤ → List Process → List ℕ
group pgid [] = []
group pgid (proc ∷ procs) =
    let others = group pgid procs in if eq_int proc.pgid pgid then proc.pid ∷ others else others

-- `SetWinsize`
unfoldable pub set_winsize : ℕ → ℕ → ℕ → Tasks → Tasks
unfolding group
set_winsize n width height t =
    let d = t.devices n in
    if (width == d.tty.width) && (height == d.tty.height)
    then t
    else let t = set_tty n (record d.tty { width = width; height = height }) t in
      if not (eq_int d.tty.foreground_pgid (negsuc 0)) && d.has_session
      then record t { resized = t.resized ++ group d.tty.foreground_pgid t.procs }
      else t

-- The terminal of a file descriptor.
abbrev pub tty_of : Option FileDescription → Result ℕ
tty_of none = err bad_file_descriptor
tty_of (some desc) = elim desc.fd_type [ fd_tty ↦ ok desc.tty | _ ↦ err not_a_tty ]

abbrev pub in_fds : Option (Option FileDescription) → Result ℕ
in_fds none = err bad_file_descriptor
in_fds (some slot) = tty_of slot

-- The checks on `fd`, which all calls on descriptors share, and then its type.
unfoldable pub descriptor_tty : Process → ℤ → Result ℕ
descriptor_tty proc (negsuc n) = err bad_file_descriptor
descriptor_tty proc (pos n) = in_fds (get_elem? proc.fds n)

pub data IoctlReq : Type 0 where
  tiocraw tiocpasswd tiocspgrp tiocswinsz tiocbuffclear tiocgwinsz tiocsession : IoctlReq
  tioc_other : ℕ → IoctlReq

pub record ExecOpts : Type 0 where
  pub background : Bool
  pub pgid : ℤ

-- An argument of type `any`: `winsize_ref` is a `*Winsize`, which the call writes to, and
-- `session_arg` says whether the `*Session` is there. Strings are their bytes.
pub data Arg : Type 0 where
  string_arg bytes_arg : List ℕ → Arg
  strings_arg : List (List ℕ) → Arg
  uint8_arg : ℕ → Arg
  int_arg : ℤ → Arg
  bool_arg session_arg : Bool → Arg
  winsize_arg : ℕ → ℕ → Arg
  ioctl_req_arg : IoctlReq → Arg
  opts_arg : ExecOpts → Arg
  winsize_ref context_arg other_arg : Arg

-- `SetForegroundPGID`
abbrev pub set_foreground : ℕ → ℤ → Tasks → Tasks
set_foreground n pgid t = set_tty n (record (t.devices n).tty { foreground_pgid = pgid }) t

abbrev pub done : Tasks → Result (Option (ℕ × ℕ)) × Tasks
done t = (ok none, t)

-- The request on a terminal: the dimensions, if it asks for them.
unfoldable pub request : ℕ → IoctlReq → Arg → Exec Tasks (Option (ℕ × ℕ))
unfolding set_raw buff_clear set_winsize
request n tiocraw (bool_arg raw) t = done (set_tty n (set_raw raw (t.devices n).tty) t)
request n tiocpasswd (bool_arg value) t =
    done (set_tty n (record (t.devices n).tty { passwd_mode = value }) t)
request n tiocspgrp (int_arg value) t = done (set_foreground n value t)
request n tiocswinsz (winsize_arg width height) t = done (set_winsize n width height t)
request n tiocbuffclear (bool_arg value) t =
    done (if value then set_tty n (buff_clear (t.devices n).tty) t else t)
request n tiocgwinsz winsize_ref t =
    (ok (some ((t.devices n).tty.width, (t.devices n).tty.height)), t)
request n tiocsession (session_arg value) t =
    done (set_device n (record (t.devices n) { has_session = value }) t)
request n (tioc_other _) arg t = done t
request n _ _ t = (err invalid_type, t)

unfoldable pub on_terminal : Result ℕ → IoctlReq → Arg → Exec Tasks (Option (ℕ × ℕ))
unfolding request
on_terminal (ok n) req arg t = request n req arg t
on_terminal (err e) req arg t = (err e, t)
on_terminal panics req arg t = (panics, t)

unfoldable pub ioctl : Process → ℤ → IoctlReq → Arg → Exec Tasks (Option (ℕ × ℕ))
unfolding on_terminal
ioctl proc fd req arg = on_terminal (descriptor_tty proc fd) req arg

-- `Kernel.Write`: the count of the bytes written.
unfoldable pub write_as : FdType → ℕ → Text → Exec Tasks ℕ
unfolding write_to_client
write_as fd_tty n text t =
    (ok (byte_len text), set_tty n (write_to_client text (t.devices n).tty) t)
write_as _ n text t = (err unsupported_fd_type, t)

unfoldable pub write_slot : Text → Option (Option FileDescription) → Exec Tasks ℕ
unfolding write_as
write_slot text none t = (err bad_file_descriptor, t)
write_slot text (some none) t = (err bad_file_descriptor, t)
write_slot text (some (some desc)) t = write_as desc.fd_type desc.tty text t

unfoldable pub write_fd : Process → ℤ → Text → Exec Tasks ℕ
unfolding write_slot
write_fd proc (negsuc n) text = fail bad_file_descriptor
write_fd proc (pos n) text = write_slot text (get_elem? proc.fds n)
