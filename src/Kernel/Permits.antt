-- ===== src/Kernel/Permits.antt =====
-- computer/kernel.go: which system calls may change the disk, and for whom.
use byte_space.Prelude.{
  subst, sym, ℕ, ◌≡◌, refl, Option, none, some, List, Result, ok, err, panics, Exec, ◌>>=◌,
  continue, pure, ◌⊎◌, inl, inr, get_elem?,
}
use byte_space.Tasks.{
  Process, Tasks, ioctl, Arg, int_arg, ioctl_req_arg, string_arg, bytes_arg, uint8_arg,
}
use byte_space.Kernel.{Kernel, normalize_path}
use byte_space.Kernel.Reads.{read_file, read_dir, stat, change_directory}
use byte_space.Kernel.Writes.{mk_dir, create_file, write_file, remove_all, chmod}
use byte_space.Kernel.Reading.{Loads, Loads-refl, look}
use byte_space.Kernel.Stays.{read_file-Stays, read_dir-Stays, stat-Stays, change_directory-Stays}
use byte_space.Kernel.Guarded.{Denied}
use byte_space.Kernel.Rights.{
  MayEnter, MayWrite, MayMake, MayRemove, MayChmod, mk_dir-Guarded, create_file-Guarded,
  remove_all-Guarded, chmod-Guarded,
}
use byte_space.Kernel.Rewrites.{write_file-Guarded}
use byte_space.Kernel.Syscall.{
  SyscallNum, Reply, sys_read, sys_write, sys_readdir, sys_stat, sys_mkdir, sys_create, sys_remove,
  sys_chdir, sys_chmod, sys_ioctl, sys_exec, sys_other, arg_from, as_string, as_int, as_req,
  as_bytes, as_uint8, nil_reply, winsize_reply, syscall,
}

-- The same disk, seen the same way.
pub record SameDisk (k : Kernel) (k' : Kernel) : Type 0 where
  pub fs : k'.fs ≡ k.fs
  pub same : (inum : ℕ) → look k' inum ≡ look k inum

Loads-SameDisk : (k k' : Kernel) → Loads k k' → SameDisk k k'
Loads-SameDisk k k' l = record { fs = l.fs; same = l.same }

-- What must hold in `k` for a call to change the disk; a program that is started makes calls of its
-- own.
abbrev pub MayChange : Kernel → Process → SyscallNum → List Arg → Type 0
MayChange k proc sys_write args =
    (path : List ℕ) × (get_elem? args 0 ≡ some (string_arg path))
    × (MayWrite k proc (normalize_path proc path) ⊎ MayMake k proc (normalize_path proc path))
MayChange k proc sys_mkdir args =
    (path : List ℕ) × (get_elem? args 0 ≡ some (string_arg path))
    × MayEnter k proc (normalize_path proc path)
MayChange k proc sys_create args =
    (path : List ℕ) × (get_elem? args 0 ≡ some (string_arg path))
    × MayEnter k proc (normalize_path proc path)
MayChange k proc sys_remove args =
    (path : List ℕ) × (get_elem? args 0 ≡ some (string_arg path))
    × MayRemove k proc (normalize_path proc path)
MayChange k proc sys_chmod args =
    (path : List ℕ) × (get_elem? args 0 ≡ some (string_arg path)) × MayChmod k proc path
MayChange k proc sys_exec args = Unit {0}
MayChange k proc _ args = ⊥

module _ (k : Kernel) where
  kept : {P : Type 0} (k' : Kernel) → Loads k k' → SameDisk k k' ⊎ P
  kept k' l = inl (Loads-SameDisk k k' l)

  -- What is done after a call that returns nil or a value leaves the state as it is.
  reply-kept :
      {A P : Type 0} (f : A → Reply) (r : Result A × Kernel)
      → Loads k r.1 ⊎ P
      → SameDisk k (continue r.0 (λ a. pure (f a)) r.1).1 ⊎ P
  reply-kept f (ok a, k') (inl l) = kept k' l
  reply-kept f (err e, k') (inl l) = kept k' l
  reply-kept f (panics, k') (inl l) = kept k' l
  reply-kept f r (inr p) = inr p

  loaded_or : {A P : Type 0} (r : Result A × Kernel) → Denied k r ⊎ P → Loads k r.1 ⊎ P
  loaded_or r (inl denied) = inl denied.0
  loaded_or r (inr p) = inr p

  named_arg :
      {P : List ℕ → Type 0} (f : List ℕ → Exec Kernel Reply) (o : Option Arg)
      → ((path : List ℕ) → SameDisk k (f path k).1 ⊎ P path)
      → SameDisk k ((arg_from o >>= as_string >>= f) k).1
        ⊎ ((path : List ℕ) × (o ≡ some (string_arg path)) × P path)
  named_arg f none h = kept k (Loads-refl k)
  named_arg f (some (string_arg path)) h = elim (h path) [
    | inl l ↦ inl l
    | inr p ↦ inr (path, refl, p)
  ]
  named_arg f (some arg) h = kept k (Loads-refl k)

  same-kept :
      {A P : Type 0} (r : Result A × Kernel) (f : A → Exec Kernel Reply)
      → r.1 ≡ k
      → ((a : A) → SameDisk k (f a k).1 ⊎ P)
      → SameDisk k (continue r.0 f r.1).1 ⊎ P
  same-kept {P = P} (ok a, k') f e h = subst (λ s. SameDisk k (f a s).1 ⊎ P) (sym e) (h a)
  same-kept (err why, k') f e h =
      inl (subst (SameDisk k) (sym e) (Loads-SameDisk k k (Loads-refl k)))
  same-kept (panics, k') f e h =
      inl (subst (SameDisk k) (sym e) (Loads-SameDisk k k (Loads-refl k)))

  arg_from-same : (o : Option Arg) → (arg_from o k).1 ≡ k
  arg_from-same none = refl
  arg_from-same (some arg) = refl

  as_bytes-same : (arg : Arg) → (as_bytes arg k).1 ≡ k
  as_bytes-same (bytes_arg s) = refl
  as_bytes-same _ = refl

  as_uint8-same : (arg : Arg) → (as_uint8 arg k).1 ≡ k
  as_uint8-same (uint8_arg n) = refl
  as_uint8-same _ = refl

  as_int-same : (arg : Arg) → (as_int arg k).1 ≡ k
  as_int-same (int_arg n) = refl
  as_int-same _ = refl

  as_req-same : (arg : Arg) → (as_req arg k).1 ≡ k
  as_req-same (ioctl_req_arg n) = refl
  as_req-same _ = refl

  string-kept :
      {P : Type 0} (f : List ℕ → Exec Kernel Reply) (o : Option Arg)
      → ((path : List ℕ) → SameDisk k (f path k).1 ⊎ P)
      → SameDisk k ((arg_from o >>= as_string >>= f) k).1 ⊎ P
  string-kept {P} f o h = elim (named_arg {P = λ _. P} f o h) [ inl l ↦ inl l | inr p ↦ inr p.2 ]

  -- An argument of the wrong type, or a missing one, ends the call.
  arg-kept :
      {A P : Type 0} (typed : Arg → Exec Kernel A) (o : Option Arg) (f : A → Exec Kernel Reply)
      → ((arg : Arg) → (typed arg k).1 ≡ k)
      → ((a : A) → SameDisk k (f a k).1 ⊎ P)
      → SameDisk k ((arg_from o >>= λ arg. typed arg >>= f) k).1 ⊎ P
  arg-kept typed o f same h =
      same-kept (arg_from o k) (λ arg. typed arg >>= f) (arg_from-same o)
        λ arg. same-kept (typed arg k) f (same arg) h

  with_tasks-kept :
      {A P : Type 0} (f : A → Reply) (r : Result A) (t : Tasks)
      → SameDisk k (continue r (λ a. pure (f a)) (record k { tasks = t })).1 ⊎ P
  unfolding look
  with_tasks-kept f (ok a) t = inl (record { fs = refl; same = λ inum. refl })
  with_tasks-kept f (err e) t = inl (record { fs = refl; same = λ inum. refl })
  with_tasks-kept f panics t = inl (record { fs = refl; same = λ inum. refl })

-- A system call, but `exec`, leaves the disk as it is, also when it fails or panics; or what
-- `MayChange` demands of the process held before: to make a directory or a file it may write to the
-- directory above, to write a file it may write to the file or, if that is missing, to what
-- stands above, to remove it may write to the directory and pass it, to change modes it is the
-- owner's or root's. Reading calls, `ioctl`, unknown numbers and arguments of the wrong type never
-- change the disk.
pub syscall-MayChange :
    (now : ℕ × ℕ) (depth : ℕ) (run : Process → List (List ℕ) → Exec Kernel ℕ) (k : Kernel)
    (proc : Process) (num : SyscallNum) (args : List Arg)
    → SameDisk k (syscall now depth run proc num args k).1 ⊎ MayChange k proc num args
unfolding syscall
syscall-MayChange now depth run k proc sys_read args = string-kept k _ (get_elem? args 0) λ path.
    reply-kept k _ (read_file proc path k) (inl (read_file-Stays k proc path k (Loads-refl k)))
syscall-MayChange now depth run k proc sys_write args = named_arg k _ (get_elem? args 0) λ path.
    arg-kept k as_bytes (get_elem? args 1) _ (as_bytes-same k) λ content.
      reply-kept k (λ _. nil_reply) (write_file now proc path content k)
        (loaded_or k (write_file now proc path content k)
          (write_file-Guarded k proc now path content))
syscall-MayChange now depth run k proc sys_readdir args = string-kept k _ (get_elem? args 0) λ path.
    reply-kept k _ (read_dir proc path k) (inl (read_dir-Stays k proc path k (Loads-refl k)))
syscall-MayChange now depth run k proc sys_stat args =
    string-kept k _ (get_elem? args 0)
      λ path. reply-kept k _ (stat proc path k) (inl (stat-Stays k proc path k (Loads-refl k)))
syscall-MayChange now depth run k proc sys_mkdir args = named_arg k _ (get_elem? args 0) λ path.
    reply-kept k (λ _. nil_reply) (mk_dir now proc path k)
      (loaded_or k (mk_dir now proc path k) (mk_dir-Guarded k proc now path))
syscall-MayChange now depth run k proc sys_create args = named_arg k _ (get_elem? args 0) λ path.
    reply-kept k (λ _. nil_reply) (create_file now proc path k)
      (create_file-Guarded k proc now path)
syscall-MayChange now depth run k proc sys_remove args = named_arg k _ (get_elem? args 0) λ path.
    reply-kept k (λ _. nil_reply) (remove_all depth proc path k)
      (loaded_or k (remove_all depth proc path k) (remove_all-Guarded k proc depth path))
syscall-MayChange now depth run k proc sys_chdir args = string-kept k _ (get_elem? args 0) λ path.
    reply-kept k _ (change_directory proc path k)
      (inl (change_directory-Stays k proc path k (Loads-refl k)))
syscall-MayChange now depth run k proc sys_chmod args = named_arg k _ (get_elem? args 0) λ path.
    arg-kept k as_uint8 (get_elem? args 1) _ (as_uint8-same k) λ owner.
      arg-kept k as_uint8 (get_elem? args 2) _ (as_uint8-same k) λ other.
        reply-kept k (λ _. nil_reply) (chmod proc path owner other k)
          (loaded_or k (chmod proc path owner other k) (chmod-Guarded k proc path owner other))
syscall-MayChange now depth run k proc sys_ioctl args =
    arg-kept k as_int (get_elem? args 0) _ (as_int-same k) λ fd.
      arg-kept k as_req (get_elem? args 1) _ (as_req-same k) λ req.
        same-kept k (arg_from (get_elem? args 2) k) _ (arg_from-same k (get_elem? args 2))
          λ arg. let r = ioctl proc fd req arg k.tasks in with_tasks-kept k winsize_reply r.0 r.1
syscall-MayChange now depth run k proc sys_exec args = inr tt
syscall-MayChange now depth run k proc (sys_other n) args = inl (Loads-SameDisk k k (Loads-refl k))
