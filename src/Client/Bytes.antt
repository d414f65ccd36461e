-- ===== src/Client/Bytes.antt =====
-- Which bytes reach the engine.
use byte_space.Prelude.{
  ℕ, ◌≡◌, Bool, true, ◌&&◌, ◌||◌, not, List, [], ◌∷◌, ◌++◌, length, ◌==◌, if◌then◌else◌,
}
use byte_space.Client.{Loop, Input, byte, pause, closed, Turn, on, ends, turn_panics, at}

-- All bytes that were sent, and then those of the keystroke that is not complete.
abbrev joined : List (List ℕ) → List ℕ
joined [] = []
joined (key ∷ keys) = key ++ joined keys

abbrev pub all_bytes : Loop → List ℕ
all_bytes s = joined s.sent ++ s.keystroke

-- A keystroke of two bytes whose second is not `[` is sent when the next byte arrives, which is
-- not added to any keystroke.
abbrev pub drops_next : Loop → Bool
drops_next s =
    not s.waiting
    && (((length s.keystroke == 1) && not (at s.keystroke 0 == 27))
        || ((length s.keystroke == 2) && not (at s.keystroke 1 == 91)))

abbrev pub received : Input → Loop → List ℕ
received (byte b) s = if drops_next s then [] else b ∷ []
received pause s = []
received closed s = []

abbrev pub ReceiveResult : Input → Loop → Turn → Type 0
ReceiveResult input s (on t) = all_bytes t ≡ all_bytes s ++ received input s
ReceiveResult input s (ends t) = (input ≡ closed) × (t ≡ s)
ReceiveResult input s turn_panics = (input ≡ closed) × (s.waiting ≡ true)
