-- ===== src/Editor/Keys.antt =====
-- Normal mode of v keeps the cursor on a line of the buffer.
use byte_space.Prelude.{◌≤◌, ◌≡◌, length, none, some}
use byte_space.Editor.{VEdit, Outcome}

pub record IsInside (p : VEdit) : Type 0 where
  pub first : 1 ≤ p.cursor_row
  pub last : p.cursor_row ≤ length p.buffer

-- The key is done without a panic, on a line, and the text is as it was.
abbrev pub IsMoved : VEdit → Outcome → Type 0
IsMoved p none = ⊥
IsMoved p (some q) =
    IsInside q × (q.buffer ≡ p.buffer) × (q.heap ≡ p.heap) × (q.written ≡ p.written)
