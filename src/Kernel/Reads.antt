-- ===== src/Kernel/Reads.antt =====
-- computer/kernel.go: the system calls that read files and directories.
use byte_space.Prelude.{
  ℕ, Bool, not, ◌==◌, if◌then◌else◌, none, some, List, [], ◌∷◌, Result, ok, err, panics, Exec,
  ◌>>=◌, ◌>>◌, pure, fail, panic, Error, enoent, eacces, enotdir, eisdir, no_such_path, denied_path,
}
use byte_space.Bytes.{zeroed, to_list}
use byte_space.Inode.{Inode, owner_string, s_ifdir, s_ifreg}
use byte_space.Dentry.{DirEntry}
use byte_space.Directory.{read_entries}
use byte_space.FileFd.{FileFd, ReadState, counted, count_panics, read}
use byte_space.Tasks.{Process}
use byte_space.Kernel.{
  Kernel, on_fs, get_inode, can_read, can_execute, normalize_path, resolve_path,
}
use byte_space.Kernel.Nodes.{is_dots}

-- `if !allowed { return e }`
abbrev pub check : Bool → Error → Exec Kernel (Unit {0})
check allowed e = if allowed then pure tt else fail e

abbrev pub inode_at : Process → List ℕ → Exec Kernel Inode
inode_at proc target = do inum ← resolve_path proc target; get_inode inum

-- `CreateFD` of a regular file; other types have no operations here, and the call panics.
abbrev pub open_file : ℕ → Inode → Exec Kernel FileFd
open_file inum ino =
    if ino.f_type == s_ifreg
    then pure (record { inode_num = inum; offset = 0; flags = 0 })
    else panic

-- The content of the buffer, unless the read gave an error.
abbrev pub read_bytes : ℕ → ReadState → Result (List ℕ)
read_bytes len s = elim s.count [
  | counted n none ↦ ok (to_list s.buf 0 len)
  | counted n (some e) ↦ err e
  | count_panics ↦ panics
]

abbrev pub read_content : ℕ → Inode → Exec Kernel (List ℕ)
read_content inum ino = do
  fd ← open_file inum ino
  (λ k. (read_bytes ino.size (read fd k.fs ino zeroed ino.size), k))

-- The open file gets the inode from the cache, where `readFile` has just put it.
unfoldable pub read_file : Process → List ℕ → Exec Kernel (List ℕ)
read_file proc target = do
  inum ← resolve_path proc target
  ino ← get_inode inum
  check (not (ino.f_type == s_ifdir)) eisdir
  check (can_read proc.euid ino) eacces
  if ino.size == 0 then pure [] else read_content inum ino

pub record FileInfo : Type 0 where
  pub name : List ℕ
  pub is_dir : Bool
  pub inum : ℕ

-- The loop of `readDir`.
unfoldable pub file_infos : List DirEntry → Exec Kernel (List FileInfo)
file_infos [] = pure []
file_infos (entry ∷ entries) = if is_dots entry.name then file_infos entries else (do
  child ← get_inode entry.inum
  infos ← file_infos entries
  pure
      ((record { name = entry.name; is_dir = child.f_type == s_ifdir; inum = entry.inum }) ∷ infos))

unfoldable pub read_dir : Process → List ℕ → Exec Kernel (List FileInfo)
unfolding file_infos
read_dir proc target = do
  inum ← resolve_path proc target
  ino ← get_inode inum
  check (ino.f_type == s_ifdir) enotdir
  check (can_read proc.euid ino) eacces
  entries ← on_fs (read_entries inum)
  file_infos entries

pub record FileMetadata : Type 0 where
  pub filepath : List ℕ
  pub owner : List ℕ
  pub setuid : Bool
  pub owner_mode : ℕ
  pub other_mode : ℕ

-- Every error of `stat` is the same `false`, which `Syscall` turns into ENOENT.
abbrev pub or_enoent : {A : Type 0} → Result A × Kernel → Result A × Kernel
or_enoent (ok a, k) = (ok a, k)
or_enoent (err e, k) = (err enoent, k)
or_enoent (panics, k) = (panics, k)

unfoldable pub stat : Process → List ℕ → Exec Kernel FileMetadata
stat proc target k = or_enoent (
    (inode_at proc target >>= λ ino. pure (record {
      filepath = normalize_path proc target;
      owner = owner_string ino.owner;
      setuid = ino.setuid;
      owner_mode = ino.owner_mode;
      other_mode = ino.other_mode;
    }))
      k)

abbrev pub entered : Process → List ℕ → Result Inode × Kernel → Result Process × Kernel
entered proc target (err e, k) = (err (no_such_path target), k)
entered proc target (panics, k) = (panics, k)
entered proc target (ok ino, k) =
    if not (ino.f_type == s_ifdir)
    then (err (no_such_path target), k)
    else if not (can_execute proc.euid ino)
    then (err (denied_path target), k)
    else (ok (record proc { cwd = target }), k)

-- The new working directory of the process, the only thing that `changeDirectory` changes.
unfoldable pub change_directory : Process → List ℕ → Exec Kernel Process
change_directory proc target k =
    let target = normalize_path proc target in entered proc target (inode_at proc target k)
