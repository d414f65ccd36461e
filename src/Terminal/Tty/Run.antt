-- ===== src/Terminal/Tty/Run.antt =====
-- `Read` on a sequence of keystrokes.
use byte_space.Prelude.{◌≡◌, refl, Bool, List, [], ◌∷◌, map}
use byte_space.Terminal.{Text, IsAscii}
use byte_space.Terminal.Tty.{
  Tty, Step, goes_on, returns, step_panics, read_key, ReadResult, waiting, line, after_step,
  read_events, key_event,
}
use byte_space.Terminal.Tty.Edit.{IsLine, StepIsLine, read_key-IsLine}
use byte_space.Terminal.Tty.Gap.{Gap, GapStep, moves, gives, Shows, StepShows, gap_key}
use byte_space.Terminal.Tty.Refine.{read_key-Refines}

module _ (p : Bool) where
  -- A list of keys is a run of the editor, up to the first line that it gives.
  pub data GapRun : Type 0 where
    edits : Gap → GapRun
    ends : Text → List Text → GapRun

  abbrev pub after_gap : GapStep → (Gap → GapRun) → List Text → GapRun
  after_gap (moves g) run keys = run g
  after_gap (gives s) run keys = ends s keys

  unfoldable pub gap_run : List Text → Gap → GapRun
  unfolding gap_key
  gap_run [] g = edits g
  gap_run (key ∷ keys) g = after_gap (gap_key p key g) (gap_run keys) keys

  abbrev pub RunShows : GapRun → ReadResult → Type 0
  RunShows (edits g) (waiting t) = Shows p g.before g.after t
  RunShows (ends s keys) (line text t events) =
      (text ≡ s) × Shows p [] [] t × (events ≡ map key_event keys)
  RunShows _ _ = ⊥

  abbrev pub AllAscii : List Text → Type 0
  AllAscii [] = Unit {0}
  AllAscii (key ∷ keys) = IsAscii key × AllAscii keys

  after_step-Refines :
      (keys : List Text) (step : GapStep) (got : Step) (run : Gap → GapRun)
      (rest : Tty → ReadResult)
      → ((g : Gap) (t : Tty) → IsLine t → Shows p g.before g.after t → RunShows (run g) (rest t))
      → StepIsLine got
      → StepShows p step got
      → RunShows (after_gap step run keys) (after_step got rest (map key_event keys))
  after_step-Refines keys (moves g) (goes_on t) run rest h i s = h g t i s
  after_step-Refines keys (gives s) (returns text t) run rest h i k = (k.0, k.1, refl)
  after_step-Refines keys (moves g) (returns text t) run rest h i s = absurd s
  after_step-Refines keys (moves g) step_panics run rest h i s = absurd s
  after_step-Refines keys (gives g) (goes_on t) run rest h i s = absurd s
  after_step-Refines keys (gives g) step_panics run rest h i s = absurd s

  -- On keystrokes and a line of ASCII, in canonical mode with echo, `Read` runs as the editor of two texts does: it still waits, with the
  -- line and the cursor of the editor, where the editor ends no line; otherwise it returns the
  -- editor's line, with the keystrokes behind its Enter still to come and an empty line to edit.
  pub read_events-Refines :
      (keys : List Text) (g : Gap) (t : Tty)
      → AllAscii keys
      → IsLine t
      → Shows p g.before g.after t
      → RunShows (gap_run keys g) (read_events (map key_event keys) t)
  unfolding gap_run read_events
  read_events-Refines [] g t ascii valid h = h
  read_events-Refines (key ∷ keys) g t ascii valid h =
      after_step-Refines keys (gap_key p key g) (read_key key t) (gap_run keys)
        (read_events (map key_event keys)) (λ k u. read_events-Refines keys k u ascii.1)
        (read_key-IsLine key t ascii.0 valid)
        (read_key-Refines p key g.before g.after t ascii.0 valid h)
