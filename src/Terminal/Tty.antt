-- ===== src/Terminal/Tty.antt =====
-- computer/tty.go: the terminal of a session.
pub mod Edit
pub mod Gap
pub mod Moves
pub mod Refine
pub mod Run
pub mod Ends
use byte_space.Prelude.{
  ℕ, zero, suc, ◌+◌, ◌-◌, ◌≤◌, ◌<◌, ◌≡◌, Bool, true, false, ◌&&◌, ◌||◌, not, List, [], ◌∷◌, ◌++◌,
  length, ltb, leb, ◌==◌, if◌then◌else◌, eq_bytes, codes, Option, none, some, ℤ, pos, negsuc,
}
use byte_space.Terminal.{
  Text, byte_len, enter, delete, tab, arrow_up, arrow_down, arrow_right, arrow_left, ctrl_u,
  is_ignored, is_incomplete, remove_rune, insert_runes, expand, backspace, redraw,
}

-- `foreground_pgid` is -1 for no group. The channel, the session and the connection are not here;
-- `out` has what was written to the client, in order.
pub record Tty : Type 0 where
  pub passwd_mode : Bool
  pub foreground_pgid : ℤ
  pub canonical : Bool
  pub echo : Bool
  pub buffer : Text
  pub cursor_position : ℕ
  pub width : ℕ
  pub height : ℕ
  pub out : List Text

abbrev pub new_tty : Tty
new_tty = record {
  passwd_mode = false;
  foreground_pgid = negsuc 0;
  canonical = true;
  echo = true;
  buffer = [];
  cursor_position = 0;
  width = 0;
  height = 0;
  out = [];
}

unfoldable pub write_to_client : Text → Tty → Tty
write_to_client text t = record t { out = t.out ++ text ∷ [] }

unfoldable pub buff_clear : Tty → Tty
buff_clear t = record t { buffer = []; cursor_position = 0 }

-- `TIOCRAW`
unfoldable pub set_raw : Bool → Tty → Tty
set_raw raw t = record t { canonical = not raw; echo = not raw }

-- What one keystroke does to the loop of `Read`: it goes on, returns a line, or panics.
pub data Step : Type 0 where
  goes_on : Tty → Step
  returns : Text → Tty → Step
  step_panics : Step

-- The echo of a key, and the cursor after it.
unfoldable pub echo_text : Text → Tty → Text
echo_text key t =
    if eq_bytes key delete
    then (if ltb 0 t.cursor_position then backspace else [])
    else if eq_bytes key tab
    then codes "    "
    else if eq_bytes key arrow_up || eq_bytes key arrow_down || eq_bytes key ctrl_u
    then []
    else if eq_bytes key arrow_right
    then (if t.cursor_position == byte_len t.buffer then [] else key)
    else if eq_bytes key arrow_left
    then (if t.cursor_position == 0 then [] else key)
    else key

unfoldable pub echo_cursor : Text → Tty → ℕ
echo_cursor key t =
    if eq_bytes key delete && ltb 0 t.cursor_position
    then t.cursor_position - 1
    else t.cursor_position

unfoldable pub echo_key : Text → Tty → Tty
unfolding echo_text echo_cursor write_to_client
echo_key key t =
    if t.echo
    then (let masked =
          if t.passwd_mode && not (eq_bytes key enter) && not (eq_bytes key delete)
          then codes "*"
          else echo_text key t in
        write_to_client masked (record t { cursor_position = echo_cursor key t }))
    else t

-- The rest of the line is written again, unless it is not to be seen.
abbrev pub show_rest : Tty → Tty
show_rest t =
    if t.echo && not t.passwd_mode
    then record t { out = t.out ++ redraw t.buffer t.cursor_position }
    else t

-- `pre_cursor` is the cursor before the echo.
unfoldable pub delete_key : ℕ → Tty → Step
delete_key pre_cursor t =
    if ltb 0 pre_cursor && ltb t.cursor_position (length t.buffer)
    then goes_on (show_rest (record t { buffer = remove_rune t.buffer t.cursor_position }))
    else goes_on t

unfoldable pub right_key : Tty → Step
right_key t =
    if t.passwd_mode || (t.cursor_position == byte_len t.buffer)
    then goes_on t
    else goes_on (record t { cursor_position = t.cursor_position + 1 })

unfoldable pub left_key : Tty → Step
left_key t =
    if t.passwd_mode || (t.cursor_position == 0)
    then goes_on t
    else goes_on (record t { cursor_position = t.cursor_position - 1 })

-- `runes[:index]` and `runes[index:]` panic for an index past the end.
unfoldable pub insert_key : Text → Tty → Step
insert_key key t =
    if ltb (length t.buffer) t.cursor_position
    then step_panics
    else let r = expand key in
      goes_on (
        show_rest (record t {
          buffer = insert_runes t.buffer t.cursor_position r;
          cursor_position = t.cursor_position + length r;
        }))

-- Canonical mode: the line editor.
unfoldable pub edit_key : Text → ℕ → Tty → Step
unfolding delete_key right_key left_key insert_key
edit_key key pre_cursor t =
    if eq_bytes key enter
    then returns t.buffer (record t { cursor_position = 0; buffer = [] })
    else if eq_bytes key delete
    then delete_key pre_cursor t
    else if eq_bytes key arrow_right
    then right_key t
    else if eq_bytes key arrow_left
    then left_key t
    else if eq_bytes key arrow_up || eq_bytes key arrow_down || is_ignored key
    then goes_on t
    else insert_key key t

-- One round of the loop of `Read`, on the keystroke that it receives.
unfoldable pub read_key : Text → Tty → Step
unfolding echo_key edit_key
read_key key t =
    if is_incomplete key
    then goes_on t
    else let echoed = echo_key key t in
      if not t.canonical then returns key echoed else edit_key key t.cursor_position echoed

-- What the `select` of `Read` receives: a keystroke, or the end of the process's context.
pub data Event : Type 0 where
  key_event : Text → Event
  cancelled : Event

-- `Read` on the events that arrive: no line yet, the line with the events that are left, or
-- `"SIGINT"` with the status `Exit`.
pub data ReadResult : Type 0 where
  waiting : Tty → ReadResult
  line : Text → Tty → List Event → ReadResult
  interrupted : Tty → List Event → ReadResult
  not_foreground : ReadResult
  read_panics : ReadResult

abbrev pub after_step : Step → (Tty → ReadResult) → List Event → ReadResult
after_step (goes_on t) rest events = rest t
after_step (returns text t) rest events = line text t events
after_step step_panics rest events = read_panics

unfoldable pub read_events : List Event → Tty → ReadResult
read_events [] t = waiting t
read_events (key_event key ∷ events) t = after_step (read_key key t) (read_events events) events
read_events (cancelled ∷ events) t = interrupted t events

abbrev pub eq_int : ℤ → ℤ → Bool
eq_int (pos m) (pos n) = m == n
eq_int (negsuc m) (negsuc n) = m == n
eq_int _ _ = false

-- `Read` by a process of the group `pgid`.
unfoldable pub read : ℤ → List Event → Tty → ReadResult
unfolding read_events
read pgid events t =
    if not (eq_int pgid t.foreground_pgid) then not_foreground else read_events events t
