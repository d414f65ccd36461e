-- ===== src/Examples/Terminals.antt =====
-- The line editors of computer/tty.go and programs/shell at concrete values.
use byte_space.Prelude.{
  ◌-◌, ◌≡◌, refl, arith, false, none, codes, [], ◌∷◌, map, eq_bytes, has_prefix,
}
use byte_space.Terminal.{byte_len, arrow_right, enter, delete, arrow_up, arrow_down}
use byte_space.Terminal.Tty.{
  read_panics, edit_key, right_key, insert_key, echo_key, echo_cursor, Tty, new_tty, read_key,
  read_events, key_event,
}
use byte_space.Terminal.Tty.Edit.{IsLine}
use byte_space.Terminal.Tty.Gap.{Shows, StepShows, gap_key, onto}
use byte_space.Terminal.Tty.Refine.{read_key-Refines}
use byte_space.Terminal.Tty.Run.{gap_run, RunShows, read_events-Refines}
use byte_space.Terminal.Shell.{Shell, canonical_logic}
use byte_space.Terminal.Shell.Ready.{IsReady, OutcomeIsReady}
use byte_space.Terminal.Shell.Keys.{canonical_logic-IsReady}
use byte_space.Terminal.Shell.History.{Browses, Types, Goes}
use byte_space.Terminal.Shell.Walk.{presses, and_then, presses_up_down}

-- A terminal that has read `ab`, with the cursor between the two.
abbrev editing : Tty
editing = record new_tty { buffer = codes "ab"; cursor_position = 1 }

editing-IsLine : IsLine editing
editing-IsLine = record { ascii = omega arith; cursor = omega arith }

editing-Shows : Shows false (codes "a") (codes "b") editing
unfolding onto
editing-Shows = record {
  canonical = refl;
  echo = refl;
  passwd_mode = refl;
  buffer = refl;
  cursor = refl;
}

read_key-Refines_example :
    StepShows false
      (gap_key false delete (record { before = codes "a"; after = codes "b" }))
      (read_key delete editing)
read_key-Refines_example =
    read_key-Refines false delete (codes "a") (codes "b") editing (omega arith, tt) editing-IsLine
      editing-Shows

read_events-Refines_example :
    RunShows false
      (gap_run false
        (delete ∷ codes "x" ∷ enter ∷ [])
        (record { before = codes "a"; after = codes "b" }))
      (read_events (map key_event (delete ∷ codes "x" ∷ enter ∷ [])) editing)
read_events-Refines_example =
    read_events-Refines false (delete ∷ codes "x" ∷ enter ∷ [])
      (record { before = codes "a"; after = codes "b" }) editing (omega arith) editing-IsLine
      editing-Shows

abbrev typing : Shell
typing = record {
  buffer = codes "l";
  cursor_position = 1;
  history = codes "pwd" ∷ codes "cd" ∷ [];
  pos_in_history = none;
  cwd = codes "/";
  out = [];
}

typing-IsReady : IsReady typing
typing-IsReady = record {
  ascii = (omega arith, tt);
  cursor = omega arith;
  lines = omega arith;
  place = tt;
}

canonical_logic-IsReady_example : OutcomeIsReady (canonical_logic arrow_up typing)
canonical_logic-IsReady_example =
    canonical_logic-IsReady arrow_up typing (omega arith) typing-IsReady

presses_up_down_example :
    Goes
      (Browses (codes "pwd" ∷ codes "cd" ∷ codes "l" ∷ []) (2 - 1 - 1))
      (presses 2 arrow_up typing)
    × Goes
        (Types (codes "pwd" ∷ codes "cd" ∷ codes "l" ∷ []) (codes "l"))
        (and_then (presses 2 arrow_up typing) (presses 2 arrow_down))
presses_up_down_example = presses_up_down 1 typing refl (omega arith)

-- The right arrow counts the bytes of a line: behind a letter outside ASCII the cursor passes the
-- end, and the next letter panics.
right_arrow_panics :
    read_events (map key_event ((233 ∷ []) ∷ arrow_right ∷ codes "x" ∷ [])) new_tty ≡ read_panics
unfolding read_events read_key edit_key right_key insert_key echo_key echo_cursor byte_len eq_bytes
    has_prefix
right_arrow_panics = refl
