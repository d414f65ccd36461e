-- ===== src/Terminal/Shell.antt =====
-- programs/shell: the line editor of the shell with its history (buffer_logic.go), its signals and
-- how it splits a line (shell.go).
pub mod Ready
pub mod Keys
pub mod History
pub mod Walk
pub mod Words
use byte_space.Prelude.{
  ℕ, zero, suc, ◌+◌, ◌-◌, ◌≤◌, ◌<◌, ◌≡◌, Bool, true, false, ◌&&◌, ◌||◌, not, List, [], ◌∷◌, ◌++◌,
  length, ltb, leb, ◌==◌, if◌then◌else◌, eq_bytes, codes, Option, none, some, get_elem?, set,
  has_prefix,
}
use byte_space.Terminal.{
  Text, byte_len, enter, delete, tab, arrow_up, arrow_down, arrow_right, arrow_left, ctrl_u,
  is_ignored, is_incomplete, remove_rune, insert_runes, expand, backspace, redraw,
}

-- `pos_in_history` is `none` for -1, the line that is being typed. `out` has what the shell wrote
-- to its terminal, in order, and `cwd` is the directory of its process.
pub record Shell : Type 0 where
  pub buffer : Text
  pub cursor_position : ℕ
  pub history : List Text
  pub pos_in_history : Option ℕ
  pub cwd : Text
  pub out : List Text

unfoldable pub write : Text → Shell → Shell
write text s = record s { out = s.out ++ text ∷ [] }

unfoldable pub handle_sigint : Shell → Shell
unfolding write
handle_sigint s =
    write (codes "\n\r" ++ (s.cwd ++ codes "$ "))
      (record s { buffer = []; cursor_position = 0; pos_in_history = none })

-- The echo of a key, and the cursor after it.
unfoldable pub ansi_data : Text → Shell → Text
ansi_data key s =
    if eq_bytes key delete
    then (if ltb 0 s.cursor_position then backspace else [])
    else if eq_bytes key tab
    then codes "    "
    else if eq_bytes key arrow_up || eq_bytes key arrow_down || eq_bytes key ctrl_u
    then []
    else if eq_bytes key arrow_right
    then (if s.cursor_position == byte_len s.buffer then [] else key)
    else if eq_bytes key arrow_left
    then (if s.cursor_position == 0 then [] else key)
    else key

unfoldable pub after_echo : Text → Shell → Shell
unfolding ansi_data write
after_echo key s =
    let cursor =
      if eq_bytes key delete && ltb 0 s.cursor_position
      then s.cursor_position - 1
      else s.cursor_position in
    write (ansi_data key s) (record s { cursor_position = cursor })

-- What a key gives: the line that it ends, empty for none, or a panic for `none`.
abbrev pub Outcome : Type 0
Outcome = Option (Text × Shell)

abbrev pub stay : Shell → Outcome
stay s = some ([], s)

abbrev pub last_is : List Text → Text → Bool
last_is h line = elim (get_elem? h (length h - 1)) [ none ↦ false | some l ↦ eq_bytes l line ]

unfoldable pub enter_key : Shell → Outcome
enter_key s =
    let history =
      if eq_bytes s.buffer [] || last_is s.history s.buffer
      then s.history
      else s.history ++ s.buffer ∷ [] in
    some (
      s.buffer,
      record s { history = history; pos_in_history = none; cursor_position = 0; buffer = [] },
    )

-- The rest of the line is written again, in one write.
abbrev pub show_rest : Shell → Shell
show_rest s = record s { out = s.out ++ redraw s.buffer s.cursor_position }

-- `pre_cursor` is the cursor before the echo.
unfoldable pub delete_key : ℕ → Shell → Outcome
delete_key pre_cursor s =
    if ltb 0 pre_cursor && ltb s.cursor_position (length s.buffer)
    then stay (show_rest (record s { buffer = remove_rune s.buffer s.cursor_position }))
    else stay s

unfoldable pub right_key : Shell → Outcome
right_key s =
    if s.cursor_position == byte_len s.buffer
    then stay s
    else stay (record s { cursor_position = s.cursor_position + 1 })

unfoldable pub left_key : Shell → Outcome
left_key s =
    if s.cursor_position == 0
    then stay s
    else stay (record s { cursor_position = s.cursor_position - 1 })

-- The prompt with the line is written over the old one, with the cursor at its end.
abbrev pub prompt : Shell → Shell
prompt s = record s {
  out = s.out ++ (13 ∷ 27 ∷ b'[' ∷ b'K' ∷ (s.cwd ++ (codes "$ " ++ s.buffer))) ∷ [];
  cursor_position = byte_len s.buffer;
}

-- The line of the history at a place, which is outside only for a panic.
abbrev pub recall : Option Text → Option ℕ → Shell → Outcome
recall none place s = none
recall (some text) place s = stay (prompt (record s { buffer = text; pos_in_history = place }))

-- The place before one; -1 before the first.
abbrev pub before : ℕ → Option ℕ
before zero = none
before (suc p) = some p

abbrev pub go_back : Option ℕ → Shell → Outcome
go_back none s = stay (record s { pos_in_history = none })
go_back (some p) s = recall (get_elem? s.history p) (some p) s

-- The line that is being typed is put at the end of the history, and a line of the history in its
-- place there.
abbrev pub up_from : Option ℕ → Shell → Outcome
up_from none s =
    let history = s.history ++ s.buffer ∷ [] in
    go_back (before (length history - 1)) (record s { history = history })
up_from (some p) s = go_back (some (p - 1)) (record s { history = set s.history p s.buffer })

unfoldable pub up_key : Shell → Outcome
up_key s = if length s.history == 0 then stay s else up_from s.pos_in_history s

abbrev pub go_forward : ℕ → Shell → Outcome
go_forward p s =
    if p + 2 == length s.history
    then recall (get_elem? s.history (length s.history - 1)) none s
    else let q = if ltb (p + 1) (length s.history) then p + 1 else p in
      recall (get_elem? s.history q) (some q) s

abbrev pub down_from : Option ℕ → Shell → Outcome
down_from none s = stay s
down_from (some p) s = go_forward p (record s { history = set s.history p s.buffer })

unfoldable pub down_key : Shell → Outcome
down_key s = if length s.history == 0 then stay s else down_from s.pos_in_history s

-- `runes[:index]` and `runes[index:]` panic for an index past the end.
unfoldable pub insert_key : Text → Shell → Outcome
insert_key key s =
    if ltb (length s.buffer) s.cursor_position
    then none
    else let r = expand key in
      stay (
        show_rest (record s {
          buffer = insert_runes s.buffer s.cursor_position r;
          cursor_position = s.cursor_position + length r;
        }))

unfoldable pub edit_key : Text → ℕ → Shell → Outcome
unfolding enter_key delete_key right_key left_key up_key down_key insert_key
edit_key key pre_cursor s =
    if eq_bytes key enter
    then enter_key s
    else if eq_bytes key delete
    then delete_key pre_cursor s
    else if eq_bytes key arrow_right
    then right_key s
    else if eq_bytes key arrow_left
    then left_key s
    else if eq_bytes key arrow_up
    then up_key s
    else if eq_bytes key arrow_down
    then down_key s
    else if is_ignored key
    then stay s
    else insert_key key s

unfoldable pub canonical_logic : Text → Shell → Outcome
unfolding after_echo edit_key
canonical_logic key s =
    if is_incomplete key then stay s else edit_key key s.cursor_position (after_echo key s)

-- `strings.Fields` splits at the white space of Unicode.
abbrev pub is_space : ℕ → Bool
is_space c =
    (leb 9 c && leb c 13)
    || (c == 32)
    || (c == 133)
    || (c == 160)
    || (c == 5760)
    || (leb 8192 c && leb c 8202)
    || (c == 8232)
    || (c == 8233)
    || (c == 8239)
    || (c == 8287)
    || (c == 12288)

abbrev pub add_word : Text → List Text → List Text
add_word [] words = words
add_word (c ∷ word) words = (c ∷ word) ∷ words

-- `word` is what has been read of a word, and the words start with it.
unfoldable pub fields_from : Text → Text → List Text
fields_from word [] = add_word word []
fields_from word (c ∷ text) =
    let here = add_word word (fields_from [] text) in
    let on = fields_from (word ++ c ∷ []) text in if is_space c then here else on

unfoldable pub fields : Text → List Text
unfolding fields_from
fields text = fields_from [] text

abbrev pub is_flag : Text → Bool
is_flag part = has_prefix part (codes "-") || has_prefix part (codes "--")

unfoldable pub split_parts : List Text → List Text × List Text
split_parts [] = ([], [])
split_parts (part ∷ parts) =
    let rest = split_parts parts in
    if is_flag part then (rest.0, part ∷ rest.1) else (part ∷ rest.0, rest.1)

abbrev pub or_empty : List Text → List Text
or_empty [] = [] ∷ []
or_empty (c ∷ commands) = c ∷ commands

-- The commands and the flags of a line.
unfoldable pub parse : Text → List Text × List Text
unfolding fields split_parts
parse value = let parts = split_parts (fields value) in (or_empty parts.0, parts.1)
