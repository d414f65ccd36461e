-- ===== src/Terminal/Shell/Keys.antt =====
-- No key makes the shell panic, and its cursor and its place in the history stay inside.
use byte_space.Prelude.{
  ℕ, ◌+◌, ◌≡◌, arith, Bool, true, false, ◌&&◌, ◌||◌, List, [], ◌∷◌, ◌++◌, length, ltb, ◌==◌,
  if◌then◌else◌, eq_bytes, Bool-cases, inl, inr, take, drop,
}
use byte_space.Terminal.{
  Text, byte_len, enter, delete, arrow_up, arrow_down, arrow_right, arrow_left, is_ignored,
  is_incomplete, remove_rune, insert_runes, expand, IsAscii, byte_len_ascii,
}
use byte_space.Terminal.Tty.Edit.{
  IsAscii-append, IsAscii-take, IsAscii-drop, IsAscii-expand, length-insert_runes,
  length-remove_rune,
}
use byte_space.Terminal.Shell.{
  Shell, write, after_echo, stay, last_is, enter_key, show_rest, delete_key, right_key, left_key,
  up_key, down_key, insert_key, edit_key, canonical_logic,
}
use byte_space.Terminal.Shell.Ready.{
  AllAscii, IsReady, OutcomeIsReady, OutcomeIsReady-if, AllAscii-append, up_from-IsReady,
  down_from-IsReady,
}

show_rest-IsReady : (s : Shell) → IsReady s → OutcomeIsReady (stay (show_rest s))
show_rest-IsReady s h =
    (tt, record { ascii = h.ascii; cursor = h.cursor; lines = h.lines; place = h.place })

delete_key-IsReady : (pre : ℕ) (s : Shell) → IsReady s → OutcomeIsReady (delete_key pre s)
unfolding delete_key
delete_key-IsReady pre s h =
    elim (Bool-cases (ltb 0 pre && ltb s.cursor_position (length s.buffer))) [
      | inl e ↦ rw e (
          show_rest-IsReady (record s { buffer = remove_rune s.buffer s.cursor_position })
            (record {
              ascii =
                  IsAscii-append (take s.cursor_position s.buffer)
                    (drop (s.cursor_position + 1) s.buffer)
                    (IsAscii-take s.cursor_position s.buffer h.ascii)
                    (IsAscii-drop (s.cursor_position + 1) s.buffer h.ascii);
              cursor = ground (arith, length-remove_rune s.buffer s.cursor_position);
              lines = h.lines;
              place = h.place;
            }))
      | inr e ↦ rw e (tt, h)
    ]

insert_key-IsReady :
    (key : Text) (s : Shell) → IsAscii key → IsReady s → OutcomeIsReady (insert_key key s)
unfolding insert_key
insert_key-IsReady key s ascii h =
    let inside : ltb (length s.buffer) s.cursor_position ≡ false = ground (arith, h.cursor) in
    rw inside (
      show_rest-IsReady
        (record s {
          buffer = insert_runes s.buffer s.cursor_position (expand key);
          cursor_position = s.cursor_position + length (expand key);
        })
        (record {
          ascii =
              IsAscii-append (take s.cursor_position s.buffer)
                (expand key ++ drop s.cursor_position s.buffer)
                (IsAscii-take s.cursor_position s.buffer h.ascii)
                (IsAscii-append (expand key) (drop s.cursor_position s.buffer)
                  (IsAscii-expand key ascii) (IsAscii-drop s.cursor_position s.buffer h.ascii));
          cursor = omega (
            arith,
            h.cursor,
            length-insert_runes s.buffer (expand key) s.cursor_position h.cursor,
          );
          lines = h.lines;
          place = h.place;
        }))

right_key-IsReady : (s : Shell) → IsReady s → OutcomeIsReady (right_key s)
unfolding right_key
right_key-IsReady s h = elim (Bool-cases (s.cursor_position == byte_len s.buffer)) [
  | inl e ↦ rw e (tt, h)
  | inr e ↦ rw e (
    tt,
    record {
      ascii = h.ascii;
      cursor = ground (arith, h.cursor, byte_len_ascii s.buffer h.ascii);
      lines = h.lines;
      place = h.place;
    },
  )
]

left_key-IsReady : (s : Shell) → IsReady s → OutcomeIsReady (left_key s)
unfolding left_key
left_key-IsReady s h = elim (Bool-cases (s.cursor_position == 0)) [
  | inl e ↦ rw e (tt, h)
  | inr e ↦ rw e (
    tt,
    record { ascii = h.ascii; cursor = omega (arith, h.cursor); lines = h.lines; place = h.place },
  )
]

AllAscii-if : (b : Bool) (x y : List Text) → AllAscii x → AllAscii y → AllAscii (if b then x else y)
AllAscii-if true x y h k = h
AllAscii-if false x y h k = k

enter_key-IsReady : (s : Shell) → IsReady s → OutcomeIsReady (enter_key s)
unfolding enter_key
enter_key-IsReady s h = (
  h.ascii,
  record {
    ascii = tt;
    cursor = omega arith;
    lines =
        AllAscii-if (eq_bytes s.buffer [] || last_is s.history s.buffer) s.history
          (s.history ++ s.buffer ∷ []) h.lines (AllAscii-append s.history s.buffer h.lines h.ascii);
    place = tt;
  },
)

after_echo-IsReady : (key : Text) (s : Shell) → IsReady s → IsReady (after_echo key s)
unfolding after_echo write
after_echo-IsReady key s h = record {
  ascii = h.ascii;
  cursor = ground (arith, h.cursor);
  lines = h.lines;
  place = h.place;
}

edit_key-IsReady :
    (key : Text) (pre : ℕ) (s : Shell)
    → IsAscii key
    → IsReady s
    → OutcomeIsReady (edit_key key pre s)
unfolding edit_key up_key down_key
edit_key-IsReady key pre s ascii h =
    OutcomeIsReady-if (eq_bytes key enter) _ _ (enter_key-IsReady s h) (
      OutcomeIsReady-if (eq_bytes key delete) _ _ (delete_key-IsReady pre s h) (
        OutcomeIsReady-if (eq_bytes key arrow_right) _ _ (right_key-IsReady s h) (
          OutcomeIsReady-if (eq_bytes key arrow_left) _ _ (left_key-IsReady s h) (
            OutcomeIsReady-if (eq_bytes key arrow_up) _ _
              (OutcomeIsReady-if (length s.history == 0) _ _ (tt, h)
                (up_from-IsReady s.pos_in_history s h h.place))
              (OutcomeIsReady-if (eq_bytes key arrow_down) _ _
                (OutcomeIsReady-if (length s.history == 0) _ _ (tt, h)
                  (down_from-IsReady s.pos_in_history s h h.place))
                (OutcomeIsReady-if (is_ignored key) (stay s) (insert_key key s) (tt, h)
                  (insert_key-IsReady key s ascii h)))))))

-- For a keystroke of ASCII and a shell whose line and history are ASCII, whose cursor is in its
-- line and whose place in the history, if any, is before its last line: the shell does not panic,
-- the line that it gives is ASCII, and it is such a shell again.
pub canonical_logic-IsReady :
    (key : Text) (s : Shell) → IsAscii key → IsReady s → OutcomeIsReady (canonical_logic key s)
unfolding canonical_logic
canonical_logic-IsReady key s ascii h =
    OutcomeIsReady-if (is_incomplete key) _ _ (tt, h)
      (edit_key-IsReady key s.cursor_position (after_echo key s) ascii (after_echo-IsReady key s h))
