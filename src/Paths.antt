-- ===== src/Paths.antt =====
-- Go's package `path`, as far as the kernel (computer/kernel.go) uses it, on strings of bytes.
pub mod Normal
use byte_space.Prelude.{
  ℕ, Bool, true, false, ◌&&◌, ◌||◌, not, ◌==◌, if◌then◌else◌, List, [], ◌∷◌, ◌++◌, eq_bytes, is_nil,
  split_on, codes, has_prefix,
}

abbrev pub slash : ℕ
slash = 47

abbrev pub dot : List ℕ
dot = codes "."

abbrev pub dot_dot : List ℕ
dot_dot = codes ".."

-- `strings.HasPrefix(p, "/")`
abbrev pub is_rooted : List ℕ → Bool
is_rooted [] = false
is_rooted (c ∷ letters) = c == slash

-- `strings.Join(parts, "/")`
unfoldable pub join_parts : List (List ℕ) → List ℕ
join_parts [] = []
join_parts (part ∷ []) = part
join_parts (part ∷ next ∷ parts) = part ++ slash ∷ join_parts (next ∷ parts)

abbrev pub drop_last : List (List ℕ) → List (List ℕ)
drop_last [] = []
drop_last (part ∷ []) = []
drop_last (part ∷ next ∷ parts) = part ∷ drop_last (next ∷ parts)

abbrev ends_in_dot_dot : List (List ℕ) → Bool
ends_in_dot_dot [] = false
ends_in_dot_dot (part ∷ []) = eq_bytes part dot_dot
ends_in_dot_dot (part ∷ next ∷ parts) = ends_in_dot_dot (next ∷ parts)

-- The element `..` takes the one before it away; a rooted path does not leave the root.
unfoldable pub back : Bool → List (List ℕ) → List (List ℕ)
back rooted done =
    if is_nil done || ends_in_dot_dot done
    then (if rooted then done else done ++ dot_dot ∷ [])
    else drop_last done

-- The elements that `Clean` keeps, behind those that are done.
unfoldable pub clean_parts : Bool → List (List ℕ) → List (List ℕ) → List (List ℕ)
clean_parts rooted done [] = done
clean_parts rooted done (part ∷ parts) =
    if is_nil part || eq_bytes part dot
    then clean_parts rooted done parts
    else if eq_bytes part dot_dot
    then clean_parts rooted (back rooted done) parts
    else clean_parts rooted (done ++ part ∷ []) parts

-- `path.Clean`
unfoldable pub clean : List ℕ → List ℕ
clean p =
    let parts = clean_parts (is_rooted p) [] (split_on slash p) in
    if is_rooted p then slash ∷ join_parts parts else if is_nil parts then dot else join_parts parts

-- `path.Join` of two elements.
unfoldable pub join : List ℕ → List ℕ → List ℕ
join [] [] = []
join [] (c ∷ letters) = clean (c ∷ letters)
join (c ∷ letters) p = clean (c ∷ letters ++ slash ∷ p)

-- The first result of `path.Split`: the path up to its last slash, that included.
abbrev up_to_slash : List ℕ → List ℕ
up_to_slash [] = []
up_to_slash (c ∷ letters) =
    let before = up_to_slash letters in
    if not (is_nil before) then c ∷ before else if c == slash then c ∷ [] else []

-- `path.Dir`
unfoldable pub dir : List ℕ → List ℕ
dir p = clean (up_to_slash p)

abbrev strip_slashes : List ℕ → List ℕ
strip_slashes [] = []
strip_slashes (c ∷ letters) =
    let before = strip_slashes letters in if is_nil before && (c == slash) then [] else c ∷ before

abbrev last_part : List (List ℕ) → List ℕ
last_part [] = []
last_part (part ∷ []) = part
last_part (part ∷ next ∷ parts) = last_part (next ∷ parts)

-- `path.Base`
unfoldable pub base : List ℕ → List ℕ
base [] = dot
base (c ∷ letters) =
    let name = last_part (split_on slash (strip_slashes (c ∷ letters))) in
    if is_nil name then slash ∷ [] else name
