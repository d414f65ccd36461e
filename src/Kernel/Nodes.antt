-- ===== src/Kernel/Nodes.antt =====
-- computer/kernel.go: `makeInode` and `freeInodeTree`.
use byte_space.Prelude.{
  ℕ, zero, suc, Bool, ◌||◌, ◌==◌, if◌then◌else◌, none, some, List, [], ◌∷◌, Result, ok, err, panics,
  Exec, ◌>>=◌, ◌>>◌, pure, panic, codes, eq_bytes,
}
use byte_space.Inode.{Inode, empty_inode, write_inode, owner_bytes, s_ifdir}
use byte_space.Inode.Bitmap.{alloc_inode, free_inode_from_bitmap}
use byte_space.Falloc.{Target, falloc}
use byte_space.Dentry.{DirEntry}
use byte_space.Directory.{add_dentry, read_entries}
use byte_space.Kernel.{Kernel, on_fs, set_cached, get_inode}

-- `delete(k.inodeCache, inum)`
abbrev pub forget : ℕ → Exec Kernel (Unit {0})
forget inum k = (ok tt, set_cached inum none k)

-- What a new inode is made with; the clock is read for each of its two times.
pub record NewInode : Type 0 where
  pub f_type : ℕ
  pub owner : List ℕ
  pub setuid : Bool
  pub owner_mode : ℕ
  pub other_mode : ℕ
  pub created_at : ℕ
  pub modified_at : ℕ

abbrev pub fresh_inode : NewInode → Inode
fresh_inode new = record empty_inode {
  f_type = new.f_type;
  refs = 1;
  owner = owner_bytes new.owner;
  setuid = new.setuid;
  owner_mode = new.owner_mode;
  other_mode = new.other_mode;
  created_at = new.created_at;
  modified_at = new.modified_at;
}

-- A directory begins with the entries of itself and of its parent.
abbrev seed_directory : ℕ → ℕ → Exec Kernel (Unit {0})
seed_directory inum parent_inum = do
  on_fs (add_dentry inum (record { inum = inum; name = codes "." }))
  on_fs (add_dentry inum (record { inum = parent_inum; name = codes ".." }))

-- `makeInode`: the number of the new inode.
unfoldable pub make_inode : ℕ → List ℕ → NewInode → Exec Kernel ℕ
make_inode parent_inum name new = do
  inum ← on_fs alloc_inode
  on_fs (write_inode (fresh_inode new) inum)
  forget inum
  on_fs (add_dentry parent_inum (record { inum = inum; name = name }))
  if new.f_type == s_ifdir then seed_directory inum parent_inum else pure tt
  pure inum

abbrev stored : ℕ → Result (Unit {0}) × Target → Exec Kernel Inode
stored inum (ok _, t) k = (ok t.ino, set_cached inum (some t.ino) (record k { fs = t.fs }))
stored inum (err e, t) k = (err e, set_cached inum (some t.ino) (record k { fs = t.fs }))
stored inum (panics, t) k = (panics, set_cached inum (some t.ino) (record k { fs = t.fs }))

-- `Falloc(in, size)` on an inode of the cache, which it changes also when it fails.
abbrev pub falloc_cached : ℕ → Inode → ℕ → Exec Kernel Inode
falloc_cached inum ino size k = stored inum (falloc size (record { fs = k.fs; ino = ino })) k

abbrev pub is_dots : List ℕ → Bool
is_dots name = eq_bytes name (codes ".") || eq_bytes name (codes "..")

-- The entries but `.` and `..`, in order, until one fails.
unfoldable pub each_child : (ℕ → Exec Kernel (Unit {0})) → List DirEntry → Exec Kernel (Unit {0})
each_child visit [] = pure tt
each_child visit (entry ∷ entries) = do
  if is_dots entry.name then pure tt else visit entry.inum
  each_child visit entries

abbrev free_children : (ℕ → Exec Kernel (Unit {0})) → ℕ → Exec Kernel (Unit {0})
free_children visit inum = do entries ← on_fs (read_entries inum); each_child visit entries

-- `freeInodeTree`; `depth` is how deep the stack of its calls may grow before the program runs out
-- of it, which it does on a directory that stands below itself.
unfoldable pub free_inode_tree : ℕ → ℕ → Exec Kernel (Unit {0})
unfolding each_child
free_inode_tree zero inum = panic
free_inode_tree (suc depth) inum = do
  ino ← get_inode inum
  if ino.f_type == s_ifdir then free_children (free_inode_tree depth) inum else pure tt
  falloc_cached inum ino 0
  on_fs (free_inode_from_bitmap inum)
  forget inum
