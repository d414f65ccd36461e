-- ===== src/Kernel/Stays.antt =====
-- computer/kernel.go: the calls that read files and directories change nothing but the cache.
use byte_space.Prelude.{
  subst, sym, not, ◌==◌, ℕ, ◌≡◌, arith, List, [], ◌∷◌, Result, ok, err, panics, Exec, ◌>>=◌, ◌>>◌,
  continue, Error, if◌then◌else◌, Bool, true, false,
}
use byte_space.Tasks.{Process}
use byte_space.Inode.{Inode, s_ifdir, s_ifreg}
use byte_space.Dentry.{DirEntry}
use byte_space.Directory.{read_entries}
use byte_space.Kernel.Nodes.{is_dots}
use byte_space.Kernel.{can_read, get_inode, resolve_path, on_fs, Kernel, normalize_path}
use byte_space.Kernel.Reads.{
  read_file, read_dir, stat, change_directory, or_enoent, entered, inode_at, check, file_infos,
  open_file,
}
use byte_space.Kernel.Reading.{Loads, resolve_path-Reads, get_inode-Reads, read_entries-Reads}

-- In a state loaded from `k`, the computation loads at most.
abbrev pub Stays : {A : Type 0} → Kernel → Exec Kernel A → Type 0
Stays k m = (k' : Kernel) → Loads k k' → Loads k (m k').1

entered_ok :
    (proc : Process) (target : List ℕ) (ino : Inode) (k : Kernel)
    → (entered proc target (ok ino, k)).1 ≡ k
entered_ok proc target ino k = ground arith

module _ (k : Kernel) where
  continue-Stays :
      {A B : Type 0} (r : Result A) (f : A → Exec Kernel B) (k' : Kernel)
      → Loads k k'
      → ((a : A) → Stays k (f a))
      → Loads k (continue r f k').1
  continue-Stays (ok a) f k' l h = h a k' l
  continue-Stays (err e) f k' l h = l
  continue-Stays panics f k' l h = l

  pub bind-Stays :
      {A B : Type 0} (m : Exec Kernel A) (f : A → Exec Kernel B)
      → Stays k m
      → ((a : A) → Stays k (f a))
      → Stays k (m >>= f)
  bind-Stays m f h g k' l = continue-Stays (m k').0 f (m k').1 (h k' l) g

  resolve_path-Stays : (proc : Process) (target : List ℕ) → Stays k (resolve_path proc target)
  resolve_path-Stays proc target k' l = (resolve_path-Reads k proc target k' l).1

  get_inode-Stays : (inum : ℕ) → Stays k (get_inode inum)
  get_inode-Stays inum k' l = (get_inode-Reads k inum k' l).1

  read_entries-Stays : (inum : ℕ) → Stays k (on_fs (read_entries inum))
  read_entries-Stays inum k' l = (read_entries-Reads k inum k' l).1

  check-Stays :
      {A : Type 0} (b : Bool) (e : Error) (m : Exec Kernel A) → Stays k m → Stays k (check b e >> m)
  check-Stays true e m h k' l = h k' l
  check-Stays false e m h k' l = l

  if-Stays :
      {A : Type 0} (b : Bool) (m n : Exec Kernel A)
      → Stays k m
      → Stays k n
      → Stays k (if b then m else n)
  if-Stays true m n h g = h
  if-Stays false m n h g = g

  file_infos-Stays : (entries : List DirEntry) → Stays k (file_infos entries)
  unfolding file_infos
  file_infos-Stays [] = λ k' l. l
  file_infos-Stays (entry ∷ entries) =
      if-Stays (is_dots entry.name) (file_infos entries) _ (file_infos-Stays entries) (
        bind-Stays (get_inode entry.inum) _ (get_inode-Stays entry.inum)
          λ child. bind-Stays (file_infos entries) _ (file_infos-Stays entries) λ infos k' l. l)

  inode_at-Stays : (proc : Process) (target : List ℕ) → Stays k (inode_at proc target)
  inode_at-Stays proc target =
      bind-Stays (resolve_path proc target) get_inode (resolve_path-Stays proc target)
        get_inode-Stays

  open_file-Stays : (inum : ℕ) (ino : Inode) → Stays k (open_file inum ino)
  open_file-Stays inum ino = if-Stays (ino.f_type == s_ifreg) _ _ (λ k' l. l) (λ k' l. l)

  pub read_file-Stays : (proc : Process) (target : List ℕ) → Stays k (read_file proc target)
  unfolding read_file
  read_file-Stays proc target =
      bind-Stays (resolve_path proc target) _ (resolve_path-Stays proc target) λ inum.
        bind-Stays (get_inode inum) _ (get_inode-Stays inum) λ ino.
          check-Stays (not (ino.f_type == s_ifdir)) _ _ (
            check-Stays (can_read proc.euid ino) _ _ (
              if-Stays (ino.size == 0) _ _ (λ k' l. l)
                (bind-Stays (open_file inum ino) _ (open_file-Stays inum ino) λ fd k' l. l)))

  pub read_dir-Stays : (proc : Process) (target : List ℕ) → Stays k (read_dir proc target)
  unfolding read_dir
  read_dir-Stays proc target =
      bind-Stays (resolve_path proc target) _ (resolve_path-Stays proc target) λ inum.
        bind-Stays (get_inode inum) _ (get_inode-Stays inum) λ ino.
          check-Stays (ino.f_type == s_ifdir) _ _ (
            check-Stays (can_read proc.euid ino) _ _ (
              bind-Stays (on_fs (read_entries inum)) file_infos (read_entries-Stays inum)
                file_infos-Stays))

  or_enoent-Stays : {A : Type 0} (r : Result A × Kernel) → Loads k r.1 → Loads k (or_enoent r).1
  or_enoent-Stays (ok a, k') l = l
  or_enoent-Stays (err e, k') l = l
  or_enoent-Stays (panics, k') l = l

  pub stat-Stays : (proc : Process) (target : List ℕ) → Stays k (stat proc target)
  unfolding stat
  stat-Stays proc target k' l =
      or_enoent-Stays _
        (bind-Stays (inode_at proc target) _ (inode_at-Stays proc target) (λ ino k' l. l) k' l)

  entered-Stays :
      (proc : Process) (target : List ℕ) (r : Result Inode × Kernel)
      → Loads k r.1
      → Loads k (entered proc target r).1
  entered-Stays proc target (ok ino, k') l = subst (Loads k) (sym (entered_ok proc target ino k')) l
  entered-Stays proc target (err e, k') l = l
  entered-Stays proc target (panics, k') l = l

  pub change_directory-Stays :
      (proc : Process) (target : List ℕ) → Stays k (change_directory proc target)
  unfolding change_directory
  change_directory-Stays proc target k' l =
      let target = normalize_path proc target in
      entered-Stays proc target (inode_at proc target k') (inode_at-Stays proc target k' l)
