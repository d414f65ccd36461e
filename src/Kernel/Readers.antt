-- ===== src/Kernel/Readers.antt =====
-- computer/kernel.go: what a process must be allowed to read files and directories, and the walk
-- that all calls share.
use byte_space.Prelude.{ℕ, ◌≡◌, Bool, true, false, arith, not, ◌==◌, List, ok, ◌⊎◌, inr}
use byte_space.Inode.{Inode, s_ifdir}
use byte_space.Tasks.{Process}
use byte_space.Kernel.{Kernel, get_inode, can_read, resolve_path}
use byte_space.Kernel.Reads.{read_file, read_dir}
use byte_space.Kernel.Reading.{Loads, Loads-refl, look, locate, resolve_path-Reads, get_inode-Reads}
use byte_space.Kernel.Guarded.{Denied, Guarded, bind-Guarded, check-Guarded}

-- The target's inode, which the process may read; `is_dir` says whether it is a directory.
pub record MayRead (k : Kernel) (proc : Process) (target : List ℕ) (is_dir : Bool) : Type 0 where
  pub inum : ℕ
  pub ino : Inode
  pub at : locate k proc target ≡ ok inum
  pub is : look k inum ≡ ok ino
  pub type : (ino.f_type == s_ifdir) ≡ is_dir
  pub readable : can_read proc.euid ino ≡ true

not-true : (b : Bool) → not b ≡ true → b ≡ false
not-true b h = ground arith

-- With any inodes cached, the walk of `ResolvePath` gives what the walk without a cache of its own
-- gives, its errors included; it goes through directories only that the user may execute, and
-- loads inodes and changes nothing else.
pub resolve_path-locate :
    (k k' : Kernel) (proc : Process) (target : List ℕ)
    → Loads k k'
    → ((resolve_path proc target k').0 ≡ locate k proc target)
      × Loads k (resolve_path proc target k').1
resolve_path-locate k k' proc target l = resolve_path-Reads k proc target k' l

module _ (k : Kernel) (proc : Process) (target : List ℕ) where
  read_file-Guarded : Guarded k (MayRead k proc target false) (read_file proc target)
  unfolding read_file
  read_file-Guarded =
      bind-Guarded k (resolve_path proc target) (locate k proc target) _
        (resolve_path-Reads k proc target)
        λ inum at.
          bind-Guarded k (get_inode inum) (look k inum) _ (get_inode-Reads k inum) λ ino is.
            check-Guarded k (not (ino.f_type == s_ifdir)) _ _ λ no_dir.
              check-Guarded k (can_read proc.euid ino) _ _ λ readable k' l. inr (record {
                inum = inum;
                ino = ino;
                at = at;
                is = is;
                type = not-true (ino.f_type == s_ifdir) no_dir;
                readable = readable;
              })

  read_dir-Guarded : Guarded k (MayRead k proc target true) (read_dir proc target)
  unfolding read_dir
  read_dir-Guarded =
      bind-Guarded k (resolve_path proc target) (locate k proc target) _
        (resolve_path-Reads k proc target)
        λ inum at.
          bind-Guarded k (get_inode inum) (look k inum) _ (get_inode-Reads k inum) λ ino is.
            check-Guarded k (ino.f_type == s_ifdir) _ _ λ is_dir.
              check-Guarded k (can_read proc.euid ino) _ _ λ readable k' l. inr (record {
                inum = inum;
                ino = ino;
                at = at;
                is = is;
                type = is_dir;
                readable = readable;
              })

-- `readFile` and `readDir` fail and change nothing but the cache, or the target is there, of the
-- type that they are for, and the user may read it.
pub reads-MayRead :
    (k : Kernel) (proc : Process) (target : List ℕ)
    → (Denied k (read_file proc target k) ⊎ MayRead k proc target false)
      × (Denied k (read_dir proc target k) ⊎ MayRead k proc target true)
reads-MayRead k proc target = (
  read_file-Guarded k proc target k (Loads-refl k),
  read_dir-Guarded k proc target k (Loads-refl k),
)
