-- ===== src/Terminal/Tty/Ends.antt =====
-- `Read` returns once Enter is pressed.
use byte_space.Prelude.{◌≡◌, List, ◌++◌}
use byte_space.Terminal.Tty.{
  Tty, Step, goes_on, returns, step_panics, ReadResult, waiting, line, interrupted, not_foreground,
  read_panics, Event,
}
use byte_space.Terminal.Tty.Edit.{IsLine}

abbrev Returns : Step → Type 0
Returns (goes_on t) = ⊥
Returns (returns text t) = Unit {0}
Returns step_panics = ⊥

-- A line came, the terminal is ready for the next one, and the events that are left are the last of
-- those that were there.
abbrev pub IsReturned : List Event → ReadResult → Type 0
IsReturned events (line text t rest) = IsLine t × ((used : List Event) × (events ≡ used ++ rest))
IsReturned events (waiting t) = ⊥
IsReturned events (interrupted t rest) = ⊥
IsReturned events not_foreground = ⊥
IsReturned events read_panics = ⊥
