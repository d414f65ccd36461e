-- ===== src/Tasks/Pids.antt =====
-- computer/kernel.go: the numbers of processes, while several `exec` calls run at once. `nextPID`
-- and the insertion into `procs` take different locks, so they are steps of their own.
use byte_space.Prelude.{
  ℕ, suc, ◌+◌, ◌≤◌, ◌<◌, ◌≡◌, refl, arith, subst, ap, sym, ◌==◌, if◌then◌else◌, List, [], ◌∷◌, ◌++◌,
  Result, ok, err, panics, ◌∙◌,
}
use byte_space.Tasks.{Tasks, Process, next_pid, pid_from, without_pid, add_process, cleanup_process}

-- A kernel that has just been made.
pub record IsNew (t : Tasks) : Type 0 where
  pub pids : t.pids ≡ 0
  pub free_pids : t.free_pids ≡ []
  pub procs : t.procs ≡ []

-- The states that can come about, each with the numbers that were handed out to processes which are
-- not in `procs` yet: a number is taken, its process is put in, or a process ends.
pub data Reachable : Tasks → List ℕ → Type 0 where
  begins : (t : Tasks) → IsNew t → Reachable t []
  takes :
      (t : Tasks) (pending : List ℕ) (pid : ℕ) (t' : Tasks)
      → Reachable t pending
      → next_pid t ≡ (ok pid, t')
      → Reachable t' (pid ∷ pending)
  enters :
      (t : Tasks) (before after : List ℕ) (proc : Process)
      → Reachable t (before ++ proc.pid ∷ after)
      → Reachable (add_process proc t).1 (before ++ after)
  ends :
      (t : Tasks) (pending : List ℕ) (pid : ℕ)
      → Reachable t pending
      → Reachable (cleanup_process pid t).1 pending

abbrev pub count : ℕ → List ℕ → ℕ
count n [] = 0
count n (x ∷ xs) = let c = count n xs in if x == n then suc c else c

abbrev pub running : ℕ → List Process → ℕ
running n [] = 0
running n (proc ∷ procs) = let c = running n procs in if proc.pid == n then suc c else c

-- How many processes have a number, those that are yet to enter included.
abbrev pub uses : ℕ → Tasks → List ℕ → ℕ
uses n t pending = count n pending + running n t.procs

record IsNumbered (t : Tasks) (pending : List ℕ) : Type 0 where
  free : t.free_pids ≡ []
  once : (n : ℕ) → uses n t pending ≤ 1
  above : (n : ℕ) → t.pids < n → uses n t pending ≡ 0

count-append :
    (n : ℕ) (xs : List ℕ) (x : ℕ) (ys : List ℕ)
    → count n (xs ++ x ∷ ys) ≡ (if x == n then suc (count n (xs ++ ys)) else count n (xs ++ ys))
count-append n [] x ys = refl
count-append n (y ∷ xs) x ys = ground (arith, count-append n xs x ys)

running-append :
    (n : ℕ) (procs : List Process) (proc : Process)
    → running n (procs ++ proc ∷ [])
      ≡ (if proc.pid == n then suc (running n procs) else running n procs)
running-append n [] proc = refl
running-append n (first ∷ procs) proc = ground (arith, running-append n procs proc)

running-without_pid :
    (n pid : ℕ) (procs : List Process)
    → running n (without_pid pid procs) ≡ (if pid == n then 0 else running n procs)
unfolding without_pid
running-without_pid n pid [] = ground arith
running-without_pid n pid (proc ∷ procs) = ground (arith, running-without_pid n pid procs)

-- The number that a call gave.
abbrev number : Result ℕ → ℕ
number (ok n) = n
number (err e) = 0
number panics = 0

next_pid-new :
    (t : Tasks) → t.free_pids ≡ [] → next_pid t ≡ (ok (t.pids + 1), record t { pids = t.pids + 1 })
unfolding next_pid
next_pid-new t free = ap (λ f. pid_from f t) free

takes-IsNumbered :
    (t : Tasks) (pending : List ℕ)
    → IsNumbered t pending
    → IsNumbered (record t { pids = t.pids + 1 }) ((t.pids + 1) ∷ pending)
takes-IsNumbered t pending h = record {
  free = h.free;
  once = λ n. ground (arith, h.once n, h.above n);
  above = λ n lt. ground (arith, h.above n);
}

enters-IsNumbered :
    (t : Tasks) (before after : List ℕ) (proc : Process)
    → IsNumbered t (before ++ proc.pid ∷ after)
    → IsNumbered (add_process proc t).1 (before ++ after)
unfolding add_process
enters-IsNumbered t before after proc h = record {
  free = h.free;
  once = λ n. ground (
    arith,
    h.once n,
    count-append n before proc.pid after,
    running-append n (without_pid proc.pid t.procs) proc,
    running-without_pid n proc.pid t.procs,
  );
  above = λ n lt. ground (
    arith,
    h.above n lt,
    count-append n before proc.pid after,
    running-append n (without_pid proc.pid t.procs) proc,
    running-without_pid n proc.pid t.procs,
  );
}

ends-IsNumbered :
    (t : Tasks) (pending : List ℕ) (pid : ℕ)
    → IsNumbered t pending
    → IsNumbered (cleanup_process pid t).1 pending
unfolding cleanup_process
ends-IsNumbered t pending pid h = record {
  free = h.free;
  once = λ n. ground (arith, h.once n, running-without_pid n pid t.procs);
  above = λ n lt. ground (arith, h.above n lt, running-without_pid n pid t.procs);
}

begins-IsNumbered : (t : Tasks) → IsNew t → IsNumbered t []
begins-IsNumbered t new = record {
  free = new.free_pids;
  once = λ n. rw new.procs (omega arith);
  above = λ n lt. rw new.procs;
}

Reachable-IsNumbered : (t : Tasks) (pending : List ℕ) → Reachable t pending → IsNumbered t pending
Reachable-IsNumbered _ _ (begins t new) = begins-IsNumbered t new
Reachable-IsNumbered _ _ (takes t pending pid t' r e) =
    let h = Reachable-IsNumbered t pending r in
    subst (λ p. IsNumbered p.1 (number p.0 ∷ pending)) (sym (next_pid-new t h.free) ∙ e)
      (takes-IsNumbered t pending h)
Reachable-IsNumbered _ _ (enters t before after proc r) =
    enters-IsNumbered t before after proc (Reachable-IsNumbered t (before ++ proc.pid ∷ after) r)
Reachable-IsNumbered _ _ (ends t pending pid r) =
    ends-IsNumbered t pending pid (Reachable-IsNumbered t pending r)

-- However the calls of `exec` and the ends of processes interleave: no two processes have the same
-- number, the running ones and those yet to enter `procs` taken together, and the number that
-- `nextPID` gives next is one that none of them has.
pub Reachable-next_pid :
    (t : Tasks) (pending : List ℕ)
    → Reachable t pending
    → ((n : ℕ) → uses n t pending ≤ 1)
      × (next_pid t ≡ (ok (t.pids + 1), record t { pids = t.pids + 1 }))
      × (uses (t.pids + 1) t pending ≡ 0)
Reachable-next_pid t pending r =
    let h = Reachable-IsNumbered t pending r in
    (h.once, next_pid-new t h.free, h.above (t.pids + 1) (omega arith))
