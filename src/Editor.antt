-- ===== src/Editor.antt =====
-- programs/v/v.go: the editor v. Its lines are Go slices, which can share an array, so that a line
-- that grows in place can write into another one.
pub mod Slices
pub mod Keys
pub mod Merge
pub mod Split
use byte_space.Prelude.{
  ℕ, zero, suc, ◌+◌, ◌-◌, Bool, true, false, ◌&&◌, ◌||◌, List, [], ◌∷◌, ◌++◌, length, ltb, leb,
  ◌==◌, if◌then◌else◌, eq_bytes, codes, Option, none, some, get_elem?, set, take, drop,
}
use byte_space.Terminal.{
  Text, enter, delete, tab, escape, arrow_up, arrow_down, arrow_right, arrow_left, ctrl_u, expand,
  remove_rune, insert_runes,
}
use byte_space.Editor.Slices.{Line, Heap, Caps, line_bytes, fresh, append, runes, utf8}

-- `mode` is 0 for normal and 1 for insert mode; `written` has what was saved to the file, in order.
-- The columns count from 1, and 0 can be reached.
pub record VEdit : Type 0 where
  pub cursor_row : ℕ
  pub cursor_col : ℕ
  pub buffer : List Line
  pub heap : Heap
  pub mode : ℕ
  pub did_write : Bool
  pub written : List (List ℕ)

-- What a key does; `none` is a panic.
abbrev pub Outcome : Type 0
Outcome = Option VEdit

-- `p.buffer[row]` for the line at an index, which panics past the end.
abbrev pub with_line : List Line → ℕ → (Line → Outcome) → Outcome
with_line buffer row f = elim (get_elem? buffer row) [ none ↦ none | some line ↦ f line ]

-- The text with a newline behind every line.
unfoldable pub actual_buffer : Heap → List Line → List ℕ
actual_buffer heap [] = []
actual_buffer heap (line ∷ lines) = line_bytes heap line ++ (10 ∷ actual_buffer heap lines)

unfoldable pub save : VEdit → VEdit
unfolding actual_buffer
save p = record p { written = p.written ++ actual_buffer p.heap p.buffer ∷ []; did_write = true }

unfoldable pub set_mode : ℕ → VEdit → VEdit
set_mode mode p = record p { mode = mode; did_write = false }

unfoldable pub key_l : VEdit → Outcome
key_l p = with_line p.buffer (p.cursor_row - 1) λ line. some (
    if ltb (p.cursor_col - 1) line.len || (p.cursor_col == 0)
    then record p { cursor_col = p.cursor_col + 1 }
    else p)

unfoldable pub key_h : VEdit → VEdit
key_h p = if ltb 0 p.cursor_col then record p { cursor_col = p.cursor_col - 1 } else p

-- The column in a line that is moved to.
abbrev pub clamped : Line → ℕ → ℕ
clamped line col = if ltb line.len (col - 1) then line.len + 1 else col

abbrev pub moved : ℕ → VEdit → Line → Outcome
moved row p line = some (record p { cursor_col = clamped line p.cursor_col; cursor_row = row })

unfoldable pub key_j : VEdit → Outcome
key_j p =
    if ltb (p.cursor_row + 1) (length p.buffer)
    then with_line p.buffer p.cursor_row (moved (p.cursor_row + 1) p)
    else some p

unfoldable pub key_k : VEdit → Outcome
key_k p =
    if ltb 1 p.cursor_row
    then with_line p.buffer (p.cursor_row - 2) (moved (p.cursor_row - 1) p)
    else some p

unfoldable pub normal_key : Text → VEdit → Outcome
unfolding key_l key_h key_j key_k set_mode
normal_key key p =
    if eq_bytes key escape
    then some (set_mode 0 p)
    else if eq_bytes key (codes "l")
    then key_l p
    else if eq_bytes key (codes "h")
    then some (key_h p)
    else if eq_bytes key (codes "i")
    then some (set_mode 1 p)
    else if eq_bytes key (codes "j")
    then key_j p
    else if eq_bytes key (codes "k")
    then key_k p
    else some p

-- The keys that insert mode passes over.
abbrev pub is_passed : Text → Bool
is_passed key =
    eq_bytes key (27 ∷ 127 ∷ [])
    || eq_bytes key (27 ∷ b'w' ∷ [])
    || eq_bytes key ctrl_u
    || eq_bytes key (2 ∷ [])
    || eq_bytes key escape
    || eq_bytes key arrow_up
    || eq_bytes key arrow_down
    || eq_bytes key arrow_right
    || eq_bytes key arrow_left

-- `line[:col]` and `line[col:]`, of the same array.
abbrev pub left_of : Line → ℕ → Line
left_of line col = record line { len = col }

abbrev pub right_of : Line → ℕ → Line
right_of line col = record {
  arr = line.arr;
  off = line.off + col;
  len = line.len - col;
  cap = line.cap - col;
}

-- The lines with the one at `row` replaced by two.
abbrev pub split_at : List Line → ℕ → Line → Line → List Line
split_at buffer row left right = take row buffer ++ (left ∷ right ∷ drop (row + 1) buffer)

unfoldable pub enter_key : VEdit → Outcome
enter_key p = with_line p.buffer (p.cursor_row - 1) λ line.
    if (p.cursor_col == 0) || ltb line.len (p.cursor_col - 1)
    then none
    else let col = p.cursor_col - 1 in
      some (record p {
        buffer = split_at p.buffer (p.cursor_row - 1) (left_of line col) (right_of line col);
        cursor_row = p.cursor_row + 1;
        cursor_col = 1;
      })

module _ (caps : Caps) where
  -- A line that was made anew from runes.
  abbrev pub replaced : VEdit → ℕ → Text → ℕ → VEdit
  replaced p row text col =
      let made = fresh caps (utf8 text) p.heap in
      record p { buffer = set p.buffer row made.0; heap = made.1; cursor_col = col }

  abbrev pub merged : VEdit → Line → Line → VEdit
  merged p prev curr =
      let made = append caps prev curr p.heap in
      record p {
        buffer =
            take (p.cursor_row - 1) (set p.buffer (p.cursor_row - 2) made.0)
            ++ drop p.cursor_row p.buffer;
        heap = made.1;
        cursor_row = p.cursor_row - 1;
        cursor_col = prev.len + 1;
      }

  unfoldable pub delete_key : VEdit → Outcome
  delete_key p = with_line p.buffer (p.cursor_row - 1) λ line.
      let text = runes (line_bytes p.heap line) in
      if ltb 1 p.cursor_col
      then (if ltb (length text) (p.cursor_col - 1)
          then none
          else some (
              replaced p (p.cursor_row - 1) (remove_rune text (p.cursor_col - 2))
                (p.cursor_col - 1)))
      else if ltb 1 p.cursor_row
      then with_line p.buffer (p.cursor_row - 2) (λ prev. some (merged p prev line))
      else some p

  unfoldable pub insert_key : Text → VEdit → Outcome
  insert_key key p = with_line p.buffer (p.cursor_row - 1) λ line.
      let text = runes (line_bytes p.heap line) in
      let index = p.cursor_col - 1 in
      if ltb (length text) index
      then none
      else some (
          replaced p (p.cursor_row - 1) (insert_runes text index (expand key))
            (p.cursor_col + length (expand key)))

  unfoldable pub insert_mode_key : Text → VEdit → Outcome
  unfolding enter_key delete_key insert_key set_mode
  insert_mode_key key p =
      if eq_bytes key escape
      then some (set_mode 0 p)
      else if is_passed key
      then some p
      else if eq_bytes key enter
      then enter_key p
      else if eq_bytes key delete
      then delete_key p
      else insert_key key p

  -- A key first saves, if it is ctrl-s, and then has its meaning in the mode.
  unfoldable pub press : Text → VEdit → Outcome
  unfolding normal_key insert_mode_key save
  press key p =
      let p = if eq_bytes key (19 ∷ []) then save p else p in
      if p.mode == 0
      then normal_key key p
      else if p.mode == 1
      then insert_mode_key key p
      else some p
