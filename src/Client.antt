-- ===== src/Client.antt =====
-- client/main.go: `commandLoop` puts the bytes of the keyboard together to keystrokes, and sends
-- them to the engine.
pub mod Bytes
use byte_space.Prelude.{
  ℕ, zero, suc, ◌+◌, ◌≡◌, Bool, true, false, ◌&&◌, ◌||◌, not, List, [], ◌∷◌, ◌++◌, length, ltb, leb,
  ◌==◌, if◌then◌else◌,
}

-- `waiting` while `readWithTimeout` waits for what follows an escape. `sent` has the keystrokes
-- that were sent, in order.
pub record Loop : Type 0 where
  pub keystroke : List ℕ
  pub waiting : Bool
  pub sent : List (List ℕ)

-- A byte of the keyboard, 30 milliseconds without one, or the end of the input.
pub data Input : Type 0 where
  byte : ℕ → Input
  pause : Input
  closed : Input

pub data Turn : Type 0 where
  on : Loop → Turn
  ends : Loop → Turn
  turn_panics : Turn

abbrev pub at : List ℕ → ℕ → ℕ
at [] i = 0
at (b ∷ bytes) zero = b
at (b ∷ bytes) (suc i) = at bytes i

-- `if canWrite { ... }`: the keystroke is sent, and a new one starts.
abbrev pub if_can_write : Bool → Loop → Loop
if_can_write can_write s =
    if can_write then record s { sent = s.sent ++ s.keystroke ∷ []; keystroke = [] } else s

abbrev pub add : ℕ → Loop → Loop
add b s = record s { keystroke = s.keystroke ++ b ∷ [] }

abbrev pub is_arrow : ℕ → Bool
is_arrow b = leb b'A' b && leb b b'D'

abbrev pub is_terminator : ℕ → Bool
is_terminator b = (leb b'A' b && leb b b'Z') || (b == b'~')

-- A byte that the loop receives, not in `readWithTimeout`.
unfoldable pub add_byte : ℕ → Loop → Loop
add_byte b s =
    if length s.keystroke == 0
    then (if b == 27 then record (add b s) { waiting = true } else if_can_write true (add b s))
    else if (length s.keystroke == 1) && (at s.keystroke 0 == 27)
    then if_can_write (not (b == 91)) (add b s)
    else if (length s.keystroke == 2) && (at s.keystroke 1 == 91)
    then if_can_write (is_arrow b) (add b s)
    else if leb 3 (length s.keystroke)
    then if_can_write (is_terminator b) (add b s)
    else if_can_write true s

-- `readWithTimeout` takes the nil of a closed channel for a byte, and `next[0]` panics.
unfoldable pub receive : Input → Loop → Turn
unfolding add_byte
receive (byte b) s =
    if s.waiting then on (record (add b s) { waiting = false }) else on (add_byte b s)
receive pause s = if s.waiting then on (record (if_can_write true s) { waiting = false }) else on s
receive closed s = if s.waiting then turn_panics else ends s

abbrev pub after_turn : Turn → (Loop → Turn) → Turn
after_turn (on s) rest = rest s
after_turn (ends s) rest = ends s
after_turn turn_panics rest = turn_panics

unfoldable pub command_loop : List Input → Loop → Turn
unfolding receive
command_loop [] s = on s
command_loop (input ∷ inputs) s = after_turn (receive input s) (command_loop inputs)
