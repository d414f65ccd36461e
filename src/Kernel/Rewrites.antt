-- ===== src/Kernel/Rewrites.antt =====
-- computer/kernel.go: what a process must be allowed for `writeFile` to change the disk.
use byte_space.Prelude.{
  ℕ, ◌≡◌, sym, not, ◌==◌, List, Result, ok, err, panics, Exec, continue, ◌⊎◌, inl, inr, enoent,
}
use byte_space.Inode.{s_ifdir}
use byte_space.Paths.{dir}
use byte_space.Tasks.{Process}
use byte_space.Kernel.{Kernel, get_inode, can_write, normalize_path, resolve_path}
use byte_space.Kernel.Writes.{write_file, make_missing, rewrite_file, if_enoent}
use byte_space.Kernel.Reading.{Loads, Loads-refl, look, locate, resolve_path-Reads, get_inode-Reads}
use byte_space.Kernel.Guarded.{Denied, Guarded, bind-Guarded, check-Guarded}
use byte_space.Kernel.Rights.{MayMake, MayWrite}

module _ (k : Kernel) (proc : Process) where
  make_missing-Guarded :
      (now : ℕ × ℕ) (target : List ℕ)
      → locate k proc target ≡ err enoent
      → Guarded k (MayMake k proc target) (make_missing now proc target)
  unfolding make_missing
  make_missing-Guarded now target missing =
      bind-Guarded k (resolve_path proc (dir target)) (locate k proc (dir target)) _
        (resolve_path-Reads k proc (dir target))
        λ parent_inum at.
          bind-Guarded k (get_inode parent_inum) (look k parent_inum) _
            (get_inode-Reads k parent_inum)
            λ parent is. check-Guarded k (can_write proc.euid parent) _ _ λ writable k' l.
              inr (record {
                missing = missing;
                create = record {
                  parent_inum = parent_inum;
                  parent = parent;
                  at = at;
                  is = is;
                  writable = writable;
                };
              })

  put-Guarded :
      (target content : List ℕ) (inum : ℕ)
      → locate k proc target ≡ ok inum
      → Guarded k (MayWrite k proc target) (rewrite_file proc content inum)
  unfolding rewrite_file
  put-Guarded target content inum at =
      bind-Guarded k (get_inode inum) (look k inum) _ (get_inode-Reads k inum) λ ino is.
        check-Guarded k (not (ino.f_type == s_ifdir)) _ _ λ no_dir.
          check-Guarded k (can_write proc.euid ino) _ _ λ writable k' l. inr (record {
            inum = inum;
            ino = ino;
            at = at;
            is = is;
            no_dir = no_dir;
            writable = writable;
          })

  made-Guarded :
      {P Q : Type 0} (f : ℕ → Exec Kernel (Unit {0})) (r : Result ℕ × Kernel)
      → Denied k r ⊎ Q
      → Denied k (continue r.0 f r.1) ⊎ (P ⊎ Q)
  made-Guarded f (ok inum, k') (inl denied) = absurd denied.1
  made-Guarded f (err e, k') (inl denied) = inl (denied.0, tt)
  made-Guarded f (panics, k') (inl denied) = inl (denied.0, tt)
  made-Guarded f r (inr q) = inr (inr q)

  in_left : {A P Q : Type 0} (r : Result A × Kernel) → Denied k r ⊎ P → Denied k r ⊎ (P ⊎ Q)
  in_left r (inl denied) = inl denied
  in_left r (inr p) = inr (inl p)

  write_from-Guarded :
      (now : ℕ × ℕ) (target content : List ℕ) (r : Result ℕ × Kernel)
      → (r.0 ≡ locate k proc target) × Loads k r.1
      → Denied k (
          continue
            (if_enoent (make_missing now proc target) r).0
            (rewrite_file proc content)
            (if_enoent (make_missing now proc target) r).1)
        ⊎ (MayWrite k proc target ⊎ MayMake k proc target)
  write_from-Guarded now target content (ok inum, k') h =
      in_left (rewrite_file proc content inum k') (put-Guarded target content inum (sym h.0) k' h.1)
  write_from-Guarded now target content (err enoent, k') h =
      made-Guarded (rewrite_file proc content) (make_missing now proc target k')
        (make_missing-Guarded now target (sym h.0) k' h.1)
  write_from-Guarded now target content (err e, k') h = inl (h.1, tt)
  write_from-Guarded now target content (panics, k') h = inl (h.1, tt)

  -- `writeFile` fails and changes nothing, or its target is a file that the process may write to,
  -- or the target is missing and the process may write to the inode above.
  pub write_file-Guarded :
      (now : ℕ × ℕ) (target content : List ℕ)
      → Denied k (write_file now proc target content k)
        ⊎ (MayWrite k proc (normalize_path proc target)
            ⊎ MayMake k proc (normalize_path proc target))
  unfolding write_file
  write_file-Guarded now target content =
      let target = normalize_path proc target in
      write_from-Guarded now target content (resolve_path proc target k)
        (resolve_path-Reads k proc target k (Loads-refl k))
