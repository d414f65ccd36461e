-- ===== src/Terminal/Tty/Refine.antt =====
-- `Read` of the terminal implements the editor of two texts.
use byte_space.Prelude.{
  ℕ, suc, ◌-◌, ◌≡◌, refl, ap, sym, ◌∙◌, arith, Bool, true, false, ◌&&◌, ◌||◌, not, [], ◌∷◌, length,
  ltb, if◌then◌else◌, eq_bytes, codes, subst,
}
use byte_space.Terminal.{
  Text, enter, delete, arrow_up, arrow_down, arrow_right, arrow_left, is_ignored, is_incomplete,
  remove_rune, IsAscii,
}
use byte_space.Terminal.Tty.{
  Tty, goes_on, echo_key, echo_cursor, echo_text, write_to_client, show_rest, delete_key, edit_key,
  read_key,
}
use byte_space.Terminal.Tty.Edit.{IsLine, echo_key-IsLine}
use byte_space.Terminal.Tty.Gap.{
  moves, onto, Shows, StepShows, gap_key, gap_edit, gap_delete, show_rest-Shows, StepShows-if,
  StepShows-then, StepShows-else, Shows-then, length-onto, remove-onto,
}
use byte_space.Terminal.Tty.Moves.{right_key-Shows, left_key-Shows, insert_key-Shows}

-- The echo moves the cursor back for a key that deletes, and else leaves the line as it is.
echo_key-Shows :
    (p : Bool) (key l r k s : Text) (t : Tty)
    → Shows p l r t
    → onto l r ≡ onto k s
    → echo_cursor key t ≡ length k
    → Shows p k s (echo_key key t)
unfolding echo_key write_to_client
echo_key-Shows p key l r k s t h same cursor =
    let masked =
      if t.passwd_mode && not (eq_bytes key enter) && not (eq_bytes key delete)
      then codes "*"
      else echo_text key t in
    Shows-then t.echo p k s
      (write_to_client masked (record t { cursor_position = echo_cursor key t })) t h.echo
      (record {
        canonical = h.canonical;
        echo = h.echo;
        passwd_mode = h.passwd_mode;
        buffer = h.buffer ∙ same;
        cursor = cursor;
      })

if-buffer : (b : Bool) (x y : Tty) → x.buffer ≡ y.buffer → (if b then x else y).buffer ≡ y.buffer
if-buffer true x y e = e
if-buffer false x y e = refl

echo_key-buffer : (key : Text) (t : Tty) → (echo_key key t).buffer ≡ t.buffer
unfolding echo_key write_to_client
echo_key-buffer key t =
    let masked =
      if t.passwd_mode && not (eq_bytes key enter) && not (eq_bytes key delete)
      then codes "*"
      else echo_text key t in
    if-buffer t.echo (write_to_client masked (record t { cursor_position = echo_cursor key t })) t
      refl

-- The line is taken, and the terminal starts an empty one.
ended-if :
    (b p : Bool) (x y : Tty)
    → Shows p [] [] (record x { cursor_position = 0; buffer = [] })
    → Shows p [] [] (record y { cursor_position = 0; buffer = [] })
    → Shows p [] [] (record (if b then x else y) { cursor_position = 0; buffer = [] })
ended-if true p x y h k = h
ended-if false p x y h k = k

ended :
    (p : Bool) (l r : Text) (t : Tty) (key : Text)
    → Shows p l r t
    → Shows p [] [] (record (echo_key key t) { cursor_position = 0; buffer = [] })
unfolding echo_key write_to_client onto
ended p l r t key h =
    let masked =
      if t.passwd_mode && not (eq_bytes key enter) && not (eq_bytes key delete)
      then codes "*"
      else echo_text key t in
    ended-if t.echo p (write_to_client masked (record t { cursor_position = echo_cursor key t })) t
      (record {
        canonical = h.canonical;
        echo = h.echo;
        passwd_mode = h.passwd_mode;
        buffer = refl;
        cursor = refl;
      })
      (record {
        canonical = h.canonical;
        echo = h.echo;
        passwd_mode = h.passwd_mode;
        buffer = refl;
        cursor = refl;
      })

echo_cursor-delete :
    (key : Text) (t : Tty) → eq_bytes key delete ≡ true → echo_cursor key t ≡ t.cursor_position - 1
unfolding echo_cursor
echo_cursor-delete key t e = ground (arith, e)

echo_cursor-other :
    (key : Text) (t : Tty) → eq_bytes key delete ≡ false → echo_cursor key t ≡ t.cursor_position
unfolding echo_cursor
echo_cursor-other key t e = ground (arith, e)

delete_key-Shows :
    (p : Bool) (c : ℕ) (l r : Text) (t : Tty)
    → Shows p l (c ∷ r) t
    → StepShows p (moves (record { before = l; after = r })) (delete_key (suc (length l)) t)
unfolding delete_key
delete_key-Shows p c l r t h =
    StepShows-then (ltb 0 (suc (length l)) && ltb t.cursor_position (length t.buffer)) p
      (moves (record { before = l; after = r }))
      (goes_on (show_rest (record t { buffer = remove_rune t.buffer t.cursor_position })))
      (goes_on t) (ground (arith, h.cursor, ap length h.buffer, length-onto l (c ∷ r)))
      (show_rest-Shows p l r (record t { buffer = remove_rune t.buffer t.cursor_position })
        (record {
          canonical = h.canonical;
          echo = h.echo;
          passwd_mode = h.passwd_mode;
          buffer =
              ap (remove_rune t.buffer) h.cursor
              ∙ ap (λ b. remove_rune b (length l)) h.buffer
              ∙ remove-onto c l r;
          cursor = h.cursor;
        }))

delete_key-Refines :
    (p : Bool) (key l r : Text) (t : Tty)
    → Shows p l r t
    → eq_bytes key delete ≡ true
    → StepShows p (moves (gap_delete l r)) (delete_key t.cursor_position (echo_key key t))
unfolding delete_key onto
delete_key-Refines p key [] r t h e =
    let u = echo_key key t in
    StepShows-else (ltb 0 t.cursor_position && ltb u.cursor_position (length u.buffer)) p
      (moves (record { before = []; after = r }))
      (goes_on (show_rest (record u { buffer = remove_rune u.buffer u.cursor_position })))
      (goes_on u) (ground (arith, h.cursor))
      (echo_key-Shows p key [] r [] r t h refl
        (omega (arith, h.cursor, echo_cursor-delete key t e)))
delete_key-Refines p key (c ∷ l) r t h e =
    subst
      (λ n. StepShows p (moves (record { before = l; after = r })) (delete_key n (echo_key key t)))
      (sym h.cursor)
      (delete_key-Shows p c l r (echo_key key t) (
        echo_key-Shows p key (c ∷ l) r l (c ∷ r) t h refl
          (omega (arith, h.cursor, echo_cursor-delete key t e))))

edit_key-Refines :
    (p : Bool) (key l r : Text) (t : Tty)
    → Shows p l r t
    → IsLine (echo_key key t)
    → StepShows p
        (gap_edit p key (record { before = l; after = r }))
        (edit_key key t.cursor_position (echo_key key t))
unfolding gap_edit edit_key
edit_key-Refines p key l r t h valid =
    let u = echo_key key t in
    let kept : eq_bytes key delete ≡ false → Shows p l r u =
      λ other. echo_key-Shows p key l r l r t h refl (echo_cursor-other key t other ∙ h.cursor) in
    let text : u.buffer ≡ onto l r = echo_key-buffer key t ∙ h.buffer in
    StepShows-if (eq_bytes key enter) p _ _ _ _ (λ e. (text, ended p l r t key h))
      (λ _.
        StepShows-if (eq_bytes key delete) p _ _ _ _ (λ e. delete_key-Refines p key l r t h e)
          (λ other.
            StepShows-if (eq_bytes key arrow_right) p _ _ _ _
              (λ e. right_key-Shows u p l r (kept other) valid)
              (λ _.
                StepShows-if (eq_bytes key arrow_left) p _ _ _ _
                  (λ e. left_key-Shows u p l r (kept other))
                  (λ _.
                    StepShows-if
                      (eq_bytes key arrow_up || eq_bytes key arrow_down || is_ignored key) p _ _ _ _
                      (λ e. kept other) (λ _. insert_key-Shows u p key l r (kept other) valid)))))

-- A round of `Read` in canonical mode with echo does to a line of ASCII what the editor of two texts does, for
-- every keystroke of ASCII: it inserts before the cursor (four spaces for a tab), deletes before
-- the cursor, moves it (not in a password), gives the line at Enter, and ignores the other keys.
pub read_key-Refines :
    (p : Bool) (key l r : Text) (t : Tty)
    → IsAscii key
    → IsLine t
    → Shows p l r t
    → StepShows p (gap_key p key (record { before = l; after = r })) (read_key key t)
unfolding gap_key read_key
read_key-Refines p key l r t ascii valid h =
    StepShows-if (is_incomplete key) p _ _ _ _ (λ _. h)
      (λ _.
        StepShows-else (not t.canonical) p _ _ _ (ground (arith, h.canonical))
          (edit_key-Refines p key l r t h (echo_key-IsLine key t valid)))
