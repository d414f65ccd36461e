-- ===== src/Terminal/Tty/Moves.antt =====
-- The arrows and insertion move as in the editor of two texts.
use byte_space.Prelude.{
  ◌+◌, ◌-◌, ◌≡◌, ap, sym, ◌∙◌, arith, Bool, true, false, ◌||◌, [], ◌∷◌, length, ltb, ◌==◌,
  if◌then◌else◌,
}
use byte_space.Terminal.{Text, byte_len, insert_runes, expand, byte_len_ascii}
use byte_space.Terminal.Tty.{Tty, goes_on, right_key, left_key, insert_key}
use byte_space.Terminal.Tty.Edit.{IsLine}
use byte_space.Terminal.Tty.Gap.{
  moves, onto, Shows, StepShows, gap_left, gap_right, gap_insert, show_rest-Shows, StepShows-then,
  StepShows-else, length-onto, insert-onto, onto-gap_insert, length-gap_insert,
}

module _ (t : Tty) where
  pub right_key-Shows :
      (p : Bool) (l r : Text)
      → Shows p l r t
      → IsLine t
      → StepShows p
          (if p then moves (record { before = l; after = r }) else moves (gap_right l r))
          (right_key t)
  unfolding right_key onto
  right_key-Shows true l r h valid =
      StepShows-then (t.passwd_mode || (t.cursor_position == byte_len t.buffer)) true
        (moves (record { before = l; after = r })) (goes_on t)
        (goes_on (record t { cursor_position = t.cursor_position + 1 }))
        (ground (arith, h.passwd_mode)) h
  right_key-Shows false l [] h valid =
      StepShows-then (t.passwd_mode || (t.cursor_position == byte_len t.buffer)) false
        (moves (record { before = l; after = [] })) (goes_on t)
        (goes_on (record t { cursor_position = t.cursor_position + 1 }))
        (ground (
          arith,
          byte_len_ascii t.buffer valid.ascii,
          h.cursor,
          ap length h.buffer,
          length-onto l [],
        ))
        h
  right_key-Shows false l (c ∷ r) h valid =
      StepShows-else (t.passwd_mode || (t.cursor_position == byte_len t.buffer)) false
        (moves (record { before = c ∷ l; after = r })) (goes_on t)
        (goes_on (record t { cursor_position = t.cursor_position + 1 }))
        (ground (
          arith,
          byte_len_ascii t.buffer valid.ascii,
          h.cursor,
          h.passwd_mode,
          ap length h.buffer,
          length-onto l (c ∷ r),
        ))
        (record {
          canonical = h.canonical;
          echo = h.echo;
          passwd_mode = h.passwd_mode;
          buffer = h.buffer;
          cursor = omega (arith, h.cursor);
        })

  pub left_key-Shows :
      (p : Bool) (l r : Text)
      → Shows p l r t
      → StepShows p
          (if p then moves (record { before = l; after = r }) else moves (gap_left l r))
          (left_key t)
  unfolding left_key onto
  left_key-Shows true l r h =
      StepShows-then (t.passwd_mode || (t.cursor_position == 0)) true
        (moves (record { before = l; after = r })) (goes_on t)
        (goes_on (record t { cursor_position = t.cursor_position - 1 }))
        (ground (arith, h.passwd_mode)) h
  left_key-Shows false [] r h =
      StepShows-then (t.passwd_mode || (t.cursor_position == 0)) false
        (moves (record { before = []; after = r })) (goes_on t)
        (goes_on (record t { cursor_position = t.cursor_position - 1 })) (ground (arith, h.cursor))
        h
  left_key-Shows false (c ∷ l) r h =
      StepShows-else (t.passwd_mode || (t.cursor_position == 0)) false
        (moves (record { before = l; after = c ∷ r })) (goes_on t)
        (goes_on (record t { cursor_position = t.cursor_position - 1 }))
        (ground (arith, h.cursor, h.passwd_mode))
        (record {
          canonical = h.canonical;
          echo = h.echo;
          passwd_mode = h.passwd_mode;
          buffer = h.buffer;
          cursor = omega (arith, h.cursor);
        })

  pub insert_key-Shows :
      (p : Bool) (key l r : Text)
      → Shows p l r t
      → IsLine t
      → StepShows p (moves (gap_insert (expand key) l r)) (insert_key key t)
  unfolding insert_key
  insert_key-Shows p key l r h valid =
      let inside : ltb (length t.buffer) t.cursor_position ≡ false = ground (arith, valid.cursor) in
      rw inside (
        show_rest-Shows p (gap_insert (expand key) l r).before (gap_insert (expand key) l r).after
          (record t {
            buffer = insert_runes t.buffer t.cursor_position (expand key);
            cursor_position = t.cursor_position + length (expand key);
          })
          (record {
            canonical = h.canonical;
            echo = h.echo;
            passwd_mode = h.passwd_mode;
            buffer =
                ap (λ n. insert_runes t.buffer n (expand key)) h.cursor
                ∙ ap (λ b. insert_runes b (length l) (expand key)) h.buffer
                ∙ insert-onto l r (expand key)
                ∙ sym (onto-gap_insert (expand key) l r);
            cursor = omega (arith, h.cursor, length-gap_insert (expand key) l r);
          }))
