-- ===== src/Kernel.antt =====
-- computer/kernel.go: the state of the kernel, the inode cache, permissions,
-- and the walk along a path. The kernel's locks are held over whole calls, so that a call is a
-- function from the state before to the state after.
pub mod Nodes
pub mod Reads
pub mod Writes
pub mod Reading
pub mod Guarded
pub mod Rights
pub mod Rewrites
pub mod Launch
pub mod Syscall
pub mod Users
pub mod Stays
pub mod Readers
pub mod Normal
pub mod Permits
use byte_space.Prelude.{
  ℕ, zero, suc, ◌+◌, ◌-◌, ◌≡◌, Bool, true, false, ◌&&◌, ◌||◌, not, ◌==◌, if◌then◌else◌, Option,
  none, some, List, [], ◌∷◌, ◌++◌, ℤ, Result, ok, err, panics, Exec, ◌>>=◌, ◌>>◌, pure, fail, panic,
  Error, eq_bytes, codes, bit_and, has_prefix, drop, split_on, is_nil, enotdir, eacces, enoent,
}
use byte_space.FileSystem.{FileSystem}
use byte_space.Inode.{Inode, empty_inode, read_inode, owner_string, s_ifdir}
use byte_space.Dentry.{DirEntry}
use byte_space.Directory.{read_entries}
use byte_space.Tasks.{Process, Tasks}
use byte_space.Paths.{slash, clean, join, is_rooted}

-- The filesystem and the cached inodes, which calls change through pointers. An inode's `ops` are
-- given by its type and its number. `tasks` has the processes and terminals.
pub record Kernel : Type 0 where
  pub fs : FileSystem
  pub inode_cache : ℕ → Option Inode
  pub tasks : Tasks

-- A call of the filesystem.
abbrev pub on_fs : {A : Type 0} → Exec FileSystem A → Exec Kernel A
on_fs m k = ((m k.fs).0, record k { fs = (m k.fs).1 })

abbrev pub on_tasks : {A : Type 0} → Exec Tasks A → Exec Kernel A
on_tasks m k = ((m k.tasks).0, record k { tasks = (m k.tasks).1 })

abbrev pub set_cached : ℕ → Option Inode → Kernel → Kernel
set_cached inum entry k = record k {
  inode_cache = λ n. if n == inum then entry else k.inode_cache n;
}

abbrev pub keep_inode : ℕ → Option Error × Inode → Exec Kernel Inode
keep_inode inum (some e, ino) k = (err e, k)
keep_inode inum (none, ino) k = (ok ino, set_cached inum (some ino) k)

abbrev pub cached_or_read : ℕ → Option Inode → Exec Kernel Inode
cached_or_read inum (some ino) k = (ok ino, k)
cached_or_read inum none k = keep_inode inum (read_inode k.fs empty_inode inum) k

unfoldable pub get_inode : ℕ → Exec Kernel Inode
get_inode inum k = cached_or_read inum (k.inode_cache inum) k

abbrev pub root : List ℕ
root = codes "root"

-- A bit of the mode that holds for the user: root may do everything.
abbrev allows : ℕ → List ℕ → Inode → Bool
allows bit euid ino =
    if eq_bytes euid root
    then true
    else if eq_bytes (owner_string ino.owner) euid
    then not (bit_and ino.owner_mode bit == 0)
    else not (bit_and ino.other_mode bit == 0)

unfoldable pub can_write : List ℕ → Inode → Bool
can_write euid ino = allows 2 euid ino

unfoldable pub can_read : List ℕ → Inode → Bool
can_read euid ino = allows 4 euid ino

unfoldable pub can_execute : List ℕ → Inode → Bool
can_execute euid ino = allows 1 euid ino

abbrev pub home_of : List ℕ → List ℕ
home_of uid = if eq_bytes uid root then codes "/root" else codes "/home/" ++ uid

-- `~` and `~/...`, for the user who is logged in.
abbrev pub expand_home : List ℕ → List ℕ → List ℕ
expand_home uid target =
    if eq_bytes target (codes "~")
    then home_of uid
    else if has_prefix target (codes "~/")
    then join (home_of uid) (drop 2 target)
    else target

abbrev pub absolute : List ℕ → List ℕ → List ℕ
absolute cwd target = if not (is_rooted target) then join cwd target else target

abbrev pub rooted_or_root : List ℕ → List ℕ
rooted_or_root target = if not (is_rooted target) then slash ∷ [] else target

unfoldable pub normalize_path : Process → List ℕ → List ℕ
normalize_path proc target =
    let target = if is_nil target then proc.cwd else target in
    let target = absolute proc.cwd (expand_home proc.uid target) in
    clean (rooted_or_root (clean target))

-- The first entry of a name; 0 if there is none.
unfoldable pub find_entry : List ℕ → List DirEntry → ℕ
find_entry name [] = 0
find_entry name (entry ∷ entries) =
    let later = find_entry name entries in if eq_bytes entry.name name then entry.inum else later

abbrev pub drop_nil : List (List ℕ) → List (List ℕ)
drop_nil [] = []
drop_nil (part ∷ parts) = let kept = drop_nil parts in if is_nil part then kept else part ∷ kept

-- `if nextInum == 0 { return 0, ENOENT }`, and the inode otherwise.
abbrev pub next_inode : ℕ → Exec Kernel Inode
next_inode inum = if inum == 0 then fail enoent else get_inode inum

-- The checks on a directory that the walk goes through.
abbrev pub may_pass : List ℕ → Inode → Exec Kernel (Unit {0})
may_pass euid ino =
    if not (ino.f_type == s_ifdir)
    then fail enotdir
    else if not (can_execute euid ino)
    then fail eacces
    else pure tt

-- The loop of `ResolvePath` over the names that are left.
unfoldable pub walk : List ℕ → List (List ℕ) → Inode → Exec Kernel ℕ
walk euid [] ino = pure ino.num
walk euid (name ∷ names) ino = do
  may_pass euid ino
  entries ← on_fs (read_entries ino.num)
  next ← next_inode (find_entry name entries)
  walk euid names next

unfoldable pub resolve_path : Process → List ℕ → Exec Kernel ℕ
unfolding walk
resolve_path proc target = do
  ino ← get_inode 2
  walk proc.euid (drop_nil (split_on slash (normalize_path proc target))) ino
