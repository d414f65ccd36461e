-- ===== src/Kernel/Reading.antt =====
-- computer/kernel.go: what the kernel's lookups give, as functions of the disk and the cache before,
-- and that they change nothing but the cache, which they load.
use byte_space.Prelude.{
  ℕ, ◌≡◌, refl, ap, sym, ◌∙◌, Bool, true, false, not, ◌==◌, if◌then◌else◌, Option, none, some, List,
  [], ◌∷◌, Result, ok, err, panics, Exec, ◌>>=◌, continue, pure, fail, Error, split_on, enotdir,
  eacces, enoent, Bool-cases, inl, inr, ==→eq,
}
use byte_space.FileSystem.{FileSystem}
use byte_space.Inode.{Inode, empty_inode, read_inode, s_ifdir}
use byte_space.Dentry.{DirEntry}
use byte_space.Directory.{read_entries, got_inode}
use byte_space.Directory.Unchanged.{read_entries-Leaves}
use byte_space.Paths.{slash}
use byte_space.Tasks.{Process}
use byte_space.Kernel.{
  Kernel, on_fs, set_cached, keep_inode, cached_or_read, get_inode, can_execute, normalize_path,
  find_entry, drop_nil, next_inode, may_pass, walk, resolve_path,
}

-- An inode as the cache has it, or else as the disk has it.
abbrev look_in : Kernel → ℕ → Option Inode → Result Inode
look_in k inum (some ino) = ok ino
look_in k inum none = got_inode (read_inode k.fs empty_inode inum)

unfoldable pub look : Kernel → ℕ → Result Inode
look k inum = look_in k inum (k.inode_cache inum)

-- A later state that differs in loaded inodes only.
pub record Loads (k : Kernel) (k' : Kernel) : Type 0 where
  pub fs : k'.fs ≡ k.fs
  pub tasks : k'.tasks ≡ k.tasks
  pub same : (inum : ℕ) → look k' inum ≡ look k inum

pub Loads-refl : (k : Kernel) → Loads k k
Loads-refl k = record { fs = refl; tasks = refl; same = λ inum. refl }

abbrev pub bind_result : {A B : Type 0} → Result A → (A → Result B) → Result B
bind_result (ok a) f = f a
bind_result (err e) f = err e
bind_result panics f = panics

-- In every state loaded from `k`, the computation gives `r`, and loads at most.
abbrev pub Reads : {A : Type 0} → Kernel → Exec Kernel A → Result A → Type 0
Reads k m r = (k' : Kernel) → Loads k k' → ((m k').0 ≡ r) × Loads k (m k').1

module _ (k : Kernel) where
  pub pure-Reads : {A : Type 0} (a : A) → Reads k (pure a) (ok a)
  pure-Reads a k' l = (refl, l)

  pub fail-Reads : {A : Type 0} (e : Error) → Reads k (fail {A = A} e) (err e)
  fail-Reads e k' l = (refl, l)

  pub if-Reads :
      {A : Type 0} (b : Bool) (m n : Exec Kernel A) (r s : Result A)
      → Reads k m r
      → Reads k n s
      → Reads k (if b then m else n) (if b then r else s)
  if-Reads true m n r s h g = h
  if-Reads false m n r s h g = g

  continue-Reads :
      {A B : Type 0} (r : Result A) (f : A → Exec Kernel B) (g : A → Result B) (k' : Kernel)
      → Loads k k'
      → ((a : A) → Reads k (f a) (g a))
      → ((continue r f k').0 ≡ bind_result r g) × Loads k (continue r f k').1
  continue-Reads (ok a) f g k' l h = h a k' l
  continue-Reads (err e) f g k' l h = (refl, l)
  continue-Reads panics f g k' l h = (refl, l)

  pub bind-Reads :
      {A B : Type 0} (m : Exec Kernel A) (r : Result A) (f : A → Exec Kernel B) (g : A → Result B)
      → Reads k m r
      → ((a : A) → Reads k (f a) (g a))
      → Reads k (m >>= f) (bind_result r g)
  bind-Reads m r f g h hs k' l =
      let first = h k' l in
      let both = continue-Reads (m k').0 f g (m k').1 first.1 hs in
      (both.0 ∙ ap (λ r. bind_result r g) first.0, both.1)

-- Loading an inode that the cache does not have shows the same inodes.
look-set_cached :
    (k : Kernel) (inum : ℕ) (ino : Inode) (n : ℕ)
    → look k inum ≡ ok ino
    → look (set_cached inum (some ino) k) n ≡ look k n
unfolding look
look-set_cached k inum ino n e = elim (Bool-cases (n == inum)) [
  | inl same ↦ rw same (sym (ap (λ n. look_in k n (k.inode_cache n)) (==→eq n inum same) ∙ e))
  | inr differ ↦ rw differ
]

keep_inode-Reads :
    (k k' : Kernel) (inum : ℕ) (r : Option Error × Inode)
    → look k' inum ≡ got_inode r
    → Loads k k'
    → ((keep_inode inum r k').0 ≡ got_inode r) × Loads k (keep_inode inum r k').1
keep_inode-Reads k k' inum (some e, ino) h l = (refl, l)
keep_inode-Reads k k' inum (none, ino) h l = (
  refl,
  record { fs = l.fs; tasks = l.tasks; same = λ n. look-set_cached k' inum ino n h ∙ l.same n },
)

cached_or_read-Reads :
    (k k' : Kernel) (inum : ℕ) (o : Option Inode)
    → k'.inode_cache inum ≡ o
    → Loads k k'
    → ((cached_or_read inum o k').0 ≡ look k' inum) × Loads k (cached_or_read inum o k').1
cached_or_read-Reads k k' inum (some ino) e l = (unfold look in sym (ap (look_in k' inum) e), l)
cached_or_read-Reads k k' inum none e l =
    let seen : look k' inum ≡ got_inode (read_inode k'.fs empty_inode inum) =
      unfold look in ap (look_in k' inum) e in
    let kept = keep_inode-Reads k k' inum (read_inode k'.fs empty_inode inum) seen l in
    (kept.0 ∙ sym seen, kept.1)

pub get_inode-Reads : (k : Kernel) (inum : ℕ) → Reads k (get_inode inum) (look k inum)
unfolding get_inode
get_inode-Reads k inum k' l =
    let read = cached_or_read-Reads k k' inum (k'.inode_cache inum) refl l in
    (read.0 ∙ l.same inum, read.1)

abbrev pub entries_of : Kernel → ℕ → Result (List DirEntry)
entries_of k inum = (read_entries inum k.fs).0

abbrev with_fs : Kernel → FileSystem → Kernel
with_fs k fs = record k { fs = fs }

pub read_entries-Reads :
    (k : Kernel) (inum : ℕ) → Reads k (on_fs (read_entries inum)) (entries_of k inum)
read_entries-Reads k inum k' l =
    let e = read_entries-Leaves inum k'.fs in
    (
      ap (λ fs. (read_entries inum fs).0) l.fs,
      record {
        fs = e ∙ l.fs;
        tasks = l.tasks;
        same = λ n.
            unfold look in ap (λ fs. look_in (with_fs k' fs) n (k'.inode_cache n)) e ∙ l.same n;
      },
    )

abbrev next_of : Kernel → ℕ → Result Inode
next_of k inum = if inum == 0 then err enoent else look k inum

abbrev pass : List ℕ → Inode → Result (Unit {0})
pass euid ino =
    if not (ino.f_type == s_ifdir)
    then err enotdir
    else if not (can_execute euid ino)
    then err eacces
    else ok tt

-- The walk along names, on the inodes and entries that `k` shows.
unfoldable pub locate_from : Kernel → List ℕ → List (List ℕ) → Inode → Result ℕ
locate_from k euid [] ino = ok ino.num
locate_from k euid (name ∷ names) ino = bind_result (pass euid ino) λ _.
    bind_result (entries_of k ino.num) λ entries.
      bind_result (next_of k (find_entry name entries)) λ next. locate_from k euid names next

unfoldable pub locate : Kernel → Process → List ℕ → Result ℕ
locate k proc target =
    bind_result (look k 2)
      (locate_from k proc.euid (drop_nil (split_on slash (normalize_path proc target))))

module _ (k : Kernel) where
  may_pass-Reads : (euid : List ℕ) (ino : Inode) → Reads k (may_pass euid ino) (pass euid ino)
  may_pass-Reads euid ino =
      if-Reads k (not (ino.f_type == s_ifdir)) (fail enotdir)
        (if not (can_execute euid ino) then fail eacces else pure tt) (err enotdir)
        (if not (can_execute euid ino) then err eacces else ok tt) (fail-Reads k enotdir)
        (if-Reads k (not (can_execute euid ino)) (fail eacces) (pure tt) (err eacces) (ok tt)
          (fail-Reads k eacces) (pure-Reads k tt))

  next_inode-Reads : (inum : ℕ) → Reads k (next_inode inum) (next_of k inum)
  next_inode-Reads inum =
      if-Reads k (inum == 0) (fail enoent) (get_inode inum) (err enoent) (look k inum)
        (fail-Reads k enoent) (get_inode-Reads k inum)

  walk-Reads :
      (euid : List ℕ) (names : List (List ℕ)) (ino : Inode)
      → Reads k (walk euid names ino) (locate_from k euid names ino)
  unfolding walk locate_from
  walk-Reads euid [] ino = pure-Reads k ino.num
  walk-Reads euid (name ∷ names) ino =
      bind-Reads k (may_pass euid ino) (pass euid ino) _ _ (may_pass-Reads euid ino) λ _.
        bind-Reads k (on_fs (read_entries ino.num)) (entries_of k ino.num) _ _
          (read_entries-Reads k ino.num)
          λ entries.
            bind-Reads k (next_inode (find_entry name entries))
              (next_of k (find_entry name entries)) _ _ (next_inode-Reads (find_entry name entries))
              λ next. walk-Reads euid names next

-- In every state that differs from `k` in loaded inodes at most, the walk of `ResolvePath` gives
-- what it gives without a cache of its own: the inode, or the same error. It loads inodes and
-- changes nothing else.
pub resolve_path-Reads :
    (k : Kernel) (proc : Process) (target : List ℕ)
    → Reads k (resolve_path proc target) (locate k proc target)
unfolding resolve_path locate
resolve_path-Reads k proc target =
    let names = drop_nil (split_on slash (normalize_path proc target)) in
    bind-Reads k (get_inode 2) (look k 2) (walk proc.euid names) (locate_from k proc.euid names)
      (get_inode-Reads k 2) (walk-Reads k proc.euid names)
