-- ===== src/Kernel/Writes.antt =====
-- computer/kernel.go: the system calls that change files and directories.
use byte_space.Prelude.{
  ℕ, Bool, false, ◌&&◌, ◌||◌, not, ◌==◌, if◌then◌else◌, none, some, List, [], ◌∷◌, ◌%◌, ◌^◌, Result,
  ok, err, panics, Exec, ◌>>=◌, ◌>>◌, pure, eq_bytes, length, is_nil, eperm, enoent, eacces, eexist,
  enotdir, eisdir, no_such_file, permission_denied,
}
use byte_space.Bytes.{of_list}
use byte_space.Inode.{Inode, write_inode, owner_string, s_ifdir, s_ifreg}
use byte_space.Directory.{remove_dentry}
use byte_space.FileFd.{WriteState, Count, counted, count_panics, write}
use byte_space.Paths.{slash, dir, base}
use byte_space.Tasks.{Process}
use byte_space.Kernel.{
  Kernel, on_fs, set_cached, get_inode, can_write, can_execute, normalize_path, resolve_path, root,
}
use byte_space.Kernel.Nodes.{NewInode, make_inode, falloc_cached, free_inode_tree}
use byte_space.Kernel.Reads.{check, open_file}

-- `target` is normal already when `path.Dir` and `path.Base` read it.
unfoldable pub remove_all : ℕ → Process → List ℕ → Exec Kernel (Unit {0})
remove_all depth proc target = do
  check (not (eq_bytes (normalize_path proc target) (slash ∷ []))) eperm
  inum ← resolve_path proc (normalize_path proc target)
  parent_inum ← resolve_path proc (dir (normalize_path proc target))
  parent ← get_inode parent_inum
  check (can_write proc.euid parent && can_execute proc.euid parent) eacces
  on_fs (remove_dentry parent_inum (base (normalize_path proc target)))
  free_inode_tree depth inum

-- What a new file or directory of the process is made with, at the two times.
abbrev pub new_node : ℕ → Process → ℕ × ℕ → NewInode
new_node f_type proc now = record {
  f_type = f_type;
  owner = proc.euid;
  setuid = false;
  owner_mode = 7;
  other_mode = 5;
  created_at = now.0;
  modified_at = now.1;
}

-- The part that `mkDir` and `createFile` share: the entry is made in a directory that the process
-- may write to. `target` is normal.
unfoldable pub create_node : ℕ → ℕ × ℕ → Process → List ℕ → Exec Kernel (Unit {0})
create_node f_type now proc target = do
  parent_inum ← resolve_path proc (dir target)
  parent ← get_inode parent_inum
  check (parent.f_type == s_ifdir) enotdir
  check (can_write proc.euid parent) eacces
  make_inode parent_inum (base target) (new_node f_type proc now)
  pure tt

-- `if _, err := ResolvePath(...); err == nil { return ... }`, and what is done on an error.
abbrev pub if_found :
    Result (Unit {0}) → Exec Kernel (Unit {0}) → Result ℕ × Kernel → Result (Unit {0}) × Kernel
if_found found missing (ok inum, k) = (found, k)
if_found found missing (err e, k) = missing k
if_found found missing (panics, k) = (panics, k)

unfoldable pub mk_dir : ℕ × ℕ → Process → List ℕ → Exec Kernel (Unit {0})
unfolding create_node
mk_dir now proc target k =
    let target = normalize_path proc target in
    if_found (err eexist) (create_node s_ifdir now proc target) (resolve_path proc target k)

unfoldable pub create_file : ℕ × ℕ → Process → List ℕ → Exec Kernel (Unit {0})
unfolding create_node
create_file now proc target k =
    let target = normalize_path proc target in
    if_found (ok tt) (create_node s_ifreg now proc target) (resolve_path proc target k)

-- `writeFile` makes a missing file, in a parent that the process may write to.
unfoldable pub make_missing : ℕ × ℕ → Process → List ℕ → Exec Kernel ℕ
make_missing now proc target = do
  parent_inum ← resolve_path proc (dir target)
  parent ← get_inode parent_inum
  check (can_write proc.euid parent) eacces
  make_inode parent_inum (base target) (new_node s_ifreg proc now)

abbrev pub if_enoent : Exec Kernel ℕ → Result ℕ × Kernel → Result ℕ × Kernel
if_enoent make (ok inum, k) = (ok inum, k)
if_enoent make (err enoent, k) = make k
if_enoent make (err e, k) = (err e, k)
if_enoent make (panics, k) = (panics, k)

abbrev wrote_bytes : Count → Result (Unit {0})
wrote_bytes (counted n none) = ok tt
wrote_bytes (counted n (some e)) = err e
wrote_bytes count_panics = panics

-- `fd.Write(content)`, which changes the inode in the cache.
abbrev after_write : ℕ → WriteState → Exec Kernel (Unit {0})
after_write inum s k = (wrote_bytes s.count, set_cached inum (some s.ino) (record k { fs = s.fs }))

abbrev write_content : ℕ → Inode → List ℕ → Exec Kernel (Unit {0})
write_content inum ino content = do
  fd ← open_file inum ino
  (λ k. after_write inum (write fd (of_list content) (length content) k.fs ino) k)

-- The new size, and then the bytes from the start.
unfoldable pub put_content : ℕ → Inode → List ℕ → Exec Kernel (Unit {0})
put_content inum ino content = do
  sized ← falloc_cached inum ino (length content % 2 ^ 32)
  if is_nil content then on_fs (write_inode sized inum) else write_content inum sized content

-- `writeFile` from the inode's number on.
unfoldable pub rewrite_file : Process → List ℕ → ℕ → Exec Kernel (Unit {0})
unfolding put_content
rewrite_file proc content inum = do
  ino ← get_inode inum
  check (not (ino.f_type == s_ifdir)) eisdir
  check (can_write proc.euid ino) eacces
  put_content inum ino content

unfoldable pub write_file : ℕ × ℕ → Process → List ℕ → List ℕ → Exec Kernel (Unit {0})
unfolding make_missing rewrite_file
write_file now proc target content = do
  inum ← (λ k.
      let target = normalize_path proc target in
      if_enoent (make_missing now proc target) (resolve_path proc target k))
  rewrite_file proc content inum

-- The modes are set in the cached inode, and then it is written.
unfoldable pub set_modes : ℕ → Inode → Exec Kernel (Unit {0})
set_modes inum ino k = on_fs (write_inode ino inum) (set_cached inum (some ino) k)

-- The owner or root.
abbrev pub is_owner : List ℕ → Inode → Bool
is_owner euid ino = eq_bytes euid root || eq_bytes (owner_string ino.owner) euid

abbrev pub with_modes : Process → ℕ → ℕ → Result ℕ × Kernel → Result (Unit {0}) × Kernel
with_modes proc owner other (err e, k) = (err no_such_file, k)
with_modes proc owner other (panics, k) = (panics, k)
with_modes proc owner other (ok inum, k) =
    (do
      ino ← get_inode inum
      check (is_owner proc.euid ino) permission_denied
      set_modes inum (record ino { owner_mode = owner; other_mode = other }))
      k

unfoldable pub chmod : Process → List ℕ → ℕ → ℕ → Exec Kernel (Unit {0})
unfolding set_modes
chmod proc target new_owner_mode new_other_mode k =
    with_modes proc new_owner_mode new_other_mode (resolve_path proc target k)
