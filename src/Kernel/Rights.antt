-- ===== src/Kernel/Rights.antt =====
-- computer/kernel.go: what a process must be allowed for a system call to change the disk.
use byte_space.Prelude.{
  ℕ, ◌≡◌, sym, arith, Bool, true, ◌&&◌, not, ◌==◌, List, [], ◌∷◌, Result, ok, err, panics, Error,
  ◌⊎◌, inl, inr, eq_bytes, eexist, enoent,
}
use byte_space.Inode.{Inode, s_ifdir, s_ifreg}
use byte_space.Paths.{slash, dir}
use byte_space.Tasks.{Process}
use byte_space.Kernel.{Kernel, get_inode, can_write, can_execute, normalize_path, resolve_path}
use byte_space.Kernel.Writes.{
  mk_dir, create_file, remove_all, chmod, create_node, is_owner, with_modes, if_found,
}
use byte_space.Kernel.Reading.{Loads, Loads-refl, look, locate, resolve_path-Reads, get_inode-Reads}
use byte_space.Kernel.Guarded.{Denied, Guarded, bind-Guarded, check-Guarded}

-- The directory of the target is there, and the process may write to it.
pub record MayCreate (k : Kernel) (proc : Process) (target : List ℕ) : Type 0 where
  pub parent_inum : ℕ
  pub parent : Inode
  pub at : locate k proc (dir target) ≡ ok parent_inum
  pub is : look k parent_inum ≡ ok parent
  pub writable : can_write proc.euid parent ≡ true

-- The target is missing, or its lookup fails, and its parent is a directory.
pub record MayEnter (k : Kernel) (proc : Process) (target : List ℕ) : Type 0 where
  pub why : Error
  pub missing : locate k proc target ≡ err why
  pub create : MayCreate k proc target
  pub is_dir : (create.parent.f_type == s_ifdir) ≡ true

-- The target is missing, and the process may write to what stands above it.
pub record MayMake (k : Kernel) (proc : Process) (target : List ℕ) : Type 0 where
  pub missing : locate k proc target ≡ err enoent
  pub create : MayCreate k proc target

-- The target is a file that the process may write to.
pub record MayWrite (k : Kernel) (proc : Process) (target : List ℕ) : Type 0 where
  pub inum : ℕ
  pub ino : Inode
  pub at : locate k proc target ≡ ok inum
  pub is : look k inum ≡ ok ino
  pub no_dir : not (ino.f_type == s_ifdir) ≡ true
  pub writable : can_write proc.euid ino ≡ true

-- The target is not the root, and the process may write to its directory and pass it.
pub record MayRemove (k : Kernel) (proc : Process) (target : List ℕ) : Type 0 where
  pub inum : ℕ
  pub at : locate k proc target ≡ ok inum
  pub create : MayCreate k proc target
  pub no_root : not (eq_bytes target (slash ∷ [])) ≡ true
  pub executable : can_execute proc.euid create.parent ≡ true

-- The process is root's, or that of the target's owner.
pub record MayChmod (k : Kernel) (proc : Process) (target : List ℕ) : Type 0 where
  pub inum : ℕ
  pub ino : Inode
  pub at : locate k proc target ≡ ok inum
  pub is : look k inum ≡ ok ino
  pub owner : is_owner proc.euid ino ≡ true

and-true : (a b : Bool) → (a && b) ≡ true → (a ≡ true) × (b ≡ true)
and-true a b h = ground arith

module _ (k : Kernel) (proc : Process) where
  create_node-Guarded :
      (f_type : ℕ) (now : ℕ × ℕ) (target : List ℕ) (why : Error)
      → locate k proc target ≡ err why
      → Guarded k (MayEnter k proc target) (create_node f_type now proc target)
  unfolding create_node
  create_node-Guarded f_type now target why missing =
      bind-Guarded k (resolve_path proc (dir target)) (locate k proc (dir target)) _
        (resolve_path-Reads k proc (dir target))
        λ parent_inum at.
          bind-Guarded k (get_inode parent_inum) (look k parent_inum) _
            (get_inode-Reads k parent_inum)
            λ parent is. check-Guarded k (parent.f_type == s_ifdir) _ _ λ is_dir.
              check-Guarded k (can_write proc.euid parent) _ _ λ writable k' l. inr (record {
                why = why;
                missing = missing;
                create = record {
                  parent_inum = parent_inum;
                  parent = parent;
                  at = at;
                  is = is;
                  writable = writable;
                };
                is_dir = is_dir;
              })

  found-Guarded :
      (f_type : ℕ) (now : ℕ × ℕ) (target : List ℕ) (r : Result ℕ × Kernel)
      → (r.0 ≡ locate k proc target) × Loads k r.1
      → Denied k (if_found (err eexist) (create_node f_type now proc target) r)
        ⊎ MayEnter k proc target
  found-Guarded f_type now target (ok inum, k') h = inl (h.1, tt)
  found-Guarded f_type now target (err why, k') h =
      create_node-Guarded f_type now target why (sym h.0) k' h.1
  found-Guarded f_type now target (panics, k') h = inl (h.1, tt)

  loaded_or : {A P : Type 0} (r : Result A × Kernel) → Denied k r ⊎ P → Loads k r.1 ⊎ P
  loaded_or r (inl denied) = inl denied.0
  loaded_or r (inr p) = inr p

  kept-Guarded :
      (f_type : ℕ) (now : ℕ × ℕ) (target : List ℕ) (r : Result ℕ × Kernel)
      → (r.0 ≡ locate k proc target) × Loads k r.1
      → Loads k (if_found (ok tt) (create_node f_type now proc target) r).1 ⊎ MayEnter k proc target
  kept-Guarded f_type now target (ok inum, k') h = inl h.1
  kept-Guarded f_type now target (err why, k') h =
      loaded_or (create_node f_type now proc target k')
        (create_node-Guarded f_type now target why (sym h.0) k' h.1)
  kept-Guarded f_type now target (panics, k') h = inl h.1

  -- `mkDir` fails and changes nothing, or its target was missing and the process may write to the
  -- directory above.
  pub mk_dir-Guarded :
      (now : ℕ × ℕ) (target : List ℕ)
      → Denied k (mk_dir now proc target k) ⊎ MayEnter k proc (normalize_path proc target)
  unfolding mk_dir
  mk_dir-Guarded now target =
      let target = normalize_path proc target in
      found-Guarded s_ifdir now target (resolve_path proc target k)
        (resolve_path-Reads k proc target k (Loads-refl k))

  -- `createFile` changes nothing, or the same holds.
  pub create_file-Guarded :
      (now : ℕ × ℕ) (target : List ℕ)
      → Loads k (create_file now proc target k).1 ⊎ MayEnter k proc (normalize_path proc target)
  unfolding create_file
  create_file-Guarded now target =
      let target = normalize_path proc target in
      kept-Guarded s_ifreg now target (resolve_path proc target k)
        (resolve_path-Reads k proc target k (Loads-refl k))

  with_modes-Guarded :
      (target : List ℕ) (owner other : ℕ) (r : Result ℕ × Kernel)
      → (r.0 ≡ locate k proc target) × Loads k r.1
      → Denied k (with_modes proc owner other r) ⊎ MayChmod k proc target
  with_modes-Guarded target owner other (ok inum, k') h =
      bind-Guarded k (get_inode inum) (look k inum) _ (get_inode-Reads k inum)
        (λ ino is.
          check-Guarded k (is_owner proc.euid ino) _ _ λ owns k' l.
            inr (record { inum = inum; ino = ino; at = sym h.0; is = is; owner = owns }))
        k' h.1
  with_modes-Guarded target owner other (err why, k') h = inl (h.1, tt)
  with_modes-Guarded target owner other (panics, k') h = inl (h.1, tt)

  pub chmod-Guarded :
      (target : List ℕ) (owner other : ℕ)
      → Denied k (chmod proc target owner other k) ⊎ MayChmod k proc target
  unfolding chmod
  chmod-Guarded target owner other =
      with_modes-Guarded target owner other (resolve_path proc target k)
        (resolve_path-Reads k proc target k (Loads-refl k))

  remove_all-all :
      (depth : ℕ) (target : List ℕ)
      → Guarded k (MayRemove k proc (normalize_path proc target)) (remove_all depth proc target)
  unfolding remove_all
  remove_all-all depth target =
      let target = normalize_path proc target in
      check-Guarded k (not (eq_bytes target (slash ∷ []))) _ _ λ no_root.
        bind-Guarded k (resolve_path proc target) (locate k proc target) _
          (resolve_path-Reads k proc target)
          λ inum at.
            bind-Guarded k (resolve_path proc (dir target)) (locate k proc (dir target)) _
              (resolve_path-Reads k proc (dir target))
              λ parent_inum above.
                bind-Guarded k (get_inode parent_inum) (look k parent_inum) _
                  (get_inode-Reads k parent_inum)
                  λ parent is.
                    check-Guarded k (can_write proc.euid parent && can_execute proc.euid parent) _ _
                      λ both k' l.
                        let both =
                          and-true (can_write proc.euid parent) (can_execute proc.euid parent)
                            both in
                        inr (record {
                          inum = inum;
                          at = at;
                          no_root = no_root;
                          create = record {
                            parent_inum = parent_inum;
                            parent = parent;
                            at = above;
                            is = is;
                            writable = both.0;
                          };
                          executable = both.1;
                        })

  pub remove_all-Guarded :
      (depth : ℕ) (target : List ℕ)
      → Denied k (remove_all depth proc target k) ⊎ MayRemove k proc (normalize_path proc target)
  remove_all-Guarded depth target = remove_all-all depth target k (Loads-refl k)
