-- ===== src/Kernel/Syscall.antt =====
-- computer/kernel.go: `Syscall`, the one entry to the kernel, which takes its arguments apart.
use byte_space.Prelude.{
  ℕ, ℤ, Option, none, some, List, Exec, ◌>>=◌, ◌>>◌, pure, fail, panic, einval, get_elem?,
}
use byte_space.Tasks.{
  Process, ExecOpts, IoctlReq, Arg, string_arg, bytes_arg, strings_arg, uint8_arg, int_arg,
  ioctl_req_arg, opts_arg, context_arg, ioctl,
}
use byte_space.Kernel.{Kernel, on_tasks}
use byte_space.Kernel.Reads.{FileInfo, FileMetadata, read_file, read_dir, stat, change_directory}
use byte_space.Kernel.Writes.{mk_dir, create_file, write_file, remove_all, chmod}
use byte_space.Kernel.Launch.{exec}

pub data SyscallNum : Type 0 where
  sys_read sys_write sys_readdir sys_stat sys_mkdir sys_create sys_remove sys_chdir : SyscallNum
  sys_chmod sys_ioctl sys_exec : SyscallNum
  sys_other : ℕ → SyscallNum

-- What a call returns: nil, or a value; `process_reply` has the process with its new directory, and
-- `winsize_reply` what was written to the caller's `Winsize`.
pub data Reply : Type 0 where
  nil_reply : Reply
  data_reply : List ℕ → Reply
  infos_reply : List FileInfo → Reply
  metadata_reply : FileMetadata → Reply
  process_reply : Process → Reply
  winsize_reply : Option (ℕ × ℕ) → Reply

-- `args[i]`, which panics past the end.
abbrev pub arg_from : Option Arg → Exec Kernel Arg
arg_from none = panic
arg_from (some arg) = pure arg

abbrev pub arg_at : List Arg → ℕ → Exec Kernel Arg
arg_at args i = arg_from (get_elem? args i)

-- The type assertions.
abbrev pub as_string : Arg → Exec Kernel (List ℕ)
as_string (string_arg s) = pure s
as_string _ = fail einval

abbrev pub as_bytes : Arg → Exec Kernel (List ℕ)
as_bytes (bytes_arg s) = pure s
as_bytes _ = fail einval

abbrev pub as_uint8 : Arg → Exec Kernel ℕ
as_uint8 (uint8_arg n) = pure n
as_uint8 _ = fail einval

abbrev pub as_int : Arg → Exec Kernel ℤ
as_int (int_arg n) = pure n
as_int _ = fail einval

abbrev pub as_req : Arg → Exec Kernel IoctlReq
as_req (ioctl_req_arg req) = pure req
as_req _ = fail einval

abbrev pub as_strings : Arg → Exec Kernel (List (List ℕ))
as_strings (strings_arg s) = pure s
as_strings _ = fail einval

abbrev pub as_opts : Arg → Exec Kernel ExecOpts
as_opts (opts_arg opts) = pure opts
as_opts _ = fail einval

abbrev pub as_context : Arg → Exec Kernel (Unit {0})
as_context context_arg = pure tt
as_context _ = fail einval

abbrev pub nil_after : Exec Kernel (Unit {0}) → Exec Kernel Reply
nil_after m = m >> pure nil_reply

abbrev pub reply : {A : Type 0} → (A → Reply) → Exec Kernel A → Exec Kernel Reply
reply f m = m >>= λ a. pure (f a)

abbrev pub first_string : List Arg → Exec Kernel (List ℕ)
first_string args = do arg ← arg_at args 0; as_string arg

-- The clock, the depth that `freeInodeTree` may reach, and what programs do.
module _ (now : ℕ × ℕ) (depth : ℕ) (run : Process → List (List ℕ) → Exec Kernel ℕ) where
  abbrev pub write_call : Process → List Arg → Exec Kernel Reply
  write_call proc args = do
    path ← first_string args
    arg ← arg_at args 1
    content ← as_bytes arg
    nil_after (write_file now proc path content)

  abbrev pub chmod_call : Process → List Arg → Exec Kernel Reply
  chmod_call proc args = do
    path ← first_string args
    arg ← arg_at args 1
    owner_mode ← as_uint8 arg
    arg ← arg_at args 2
    other_mode ← as_uint8 arg
    nil_after (chmod proc path owner_mode other_mode)

  abbrev ioctl_call : Process → List Arg → Exec Kernel Reply
  ioctl_call proc args = do
    arg ← arg_at args 0
    fd ← as_int arg
    arg ← arg_at args 1
    req ← as_req arg
    arg ← arg_at args 2
    reply winsize_reply (on_tasks (ioctl proc fd req arg))

  abbrev exec_call : Process → List Arg → Exec Kernel Reply
  exec_call proc args = do
    arg ← arg_at args 0
    as_context arg
    arg ← arg_at args 1
    bin_path ← as_string arg
    arg ← arg_at args 2
    exec_args ← as_strings arg
    arg ← arg_at args 3
    opts ← as_opts arg
    nil_after (exec run proc bin_path exec_args opts)

  unfoldable pub syscall : Process → SyscallNum → List Arg → Exec Kernel Reply
  unfolding ioctl exec
  syscall proc sys_read args = do path ← first_string args; reply data_reply (read_file proc path)
  syscall proc sys_write args = write_call proc args
  syscall proc sys_readdir args = do
    path ← first_string args
    reply infos_reply (read_dir proc path)
  syscall proc sys_stat args = do path ← first_string args; reply metadata_reply (stat proc path)
  syscall proc sys_mkdir args = do path ← first_string args; nil_after (mk_dir now proc path)
  syscall proc sys_create args = do path ← first_string args; nil_after (create_file now proc path)
  syscall proc sys_remove args = do path ← first_string args; nil_after (remove_all depth proc path)
  syscall proc sys_chdir args = do
    path ← first_string args
    reply process_reply (change_directory proc path)
  syscall proc sys_chmod args = chmod_call proc args
  syscall proc sys_ioctl args = ioctl_call proc args
  syscall proc sys_exec args = exec_call proc args
  syscall proc (sys_other n) args = fail einval
