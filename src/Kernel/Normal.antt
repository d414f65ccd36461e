-- ===== src/Kernel/Normal.antt =====
-- computer/kernel.go: `normalizePath`.
use byte_space.Prelude.{
  ℕ, ◌≡◌, refl, ap, sym, ◌∙◌, subst, true, if◌then◌else◌, List, ◌∷◌, eq_bytes, is_nil, has_prefix,
  Bool-cases, inl, inr,
}
use byte_space.Paths.{slash, is_rooted, join_parts, clean}
use byte_space.Paths.Normal.{IsNormal, clean-IsNormal, clean_normal}
use byte_space.Tasks.{Process}
use byte_space.Kernel.{normalize_path, expand_home, absolute, rooted_or_root}

rooted_or_root-rooted : (p : List ℕ) → is_rooted (rooted_or_root p) ≡ true
rooted_or_root-rooted p = elim (Bool-cases (is_rooted p)) [ inl e ↦ rw (e, e) | inr e ↦ rw e ]

normalize_path-IsNormal : (proc : Process) (target : List ℕ) → IsNormal (normalize_path proc target)
unfolding normalize_path
normalize_path-IsNormal proc target =
    let target = if is_nil target then proc.cwd else target in
    let p = clean (absolute proc.cwd (expand_home proc.uid target)) in
    clean-IsNormal (rooted_or_root p) (rooted_or_root-rooted p)

-- A path that is normal is kept, whoever asks and wherever it stands.
normalize_path_normal : (proc : Process) (p : List ℕ) → IsNormal p → normalize_path proc p ≡ p
unfolding normalize_path eq_bytes has_prefix
normalize_path_normal proc p n =
    let parts = slash ∷ join_parts n.parts in
    let kept : clean parts ≡ parts =
      clean_normal parts (record { parts = n.parts; names = n.names; joined = refl }) in
    subst (λ p. normalize_path proc p ≡ p) (sym n.joined)
      (ap (λ q. clean (rooted_or_root q)) kept ∙ kept)

-- Whatever a process gives for a path, with `~`, `.`, `..`, doubled slashes or none: the result of
-- `normalizePath` is a slash and then names with slashes between them, none of them empty, `.` or
-- `..`; and to normalise it again, for any process, leaves it as it is.
pub normalize_path_twice :
    (proc other : Process) (target : List ℕ)
    → IsNormal (normalize_path proc target)
      × (normalize_path other (normalize_path proc target) ≡ normalize_path proc target)
normalize_path_twice proc other target =
    let n = normalize_path-IsNormal proc target in
    (n, normalize_path_normal other (normalize_path proc target) n)
