-- ===== src/Editor/Split.antt =====
-- Enter in insert mode splits a line, or panics.
use byte_space.Prelude.{ℕ, ◌+◌, ◌-◌, ◌≤◌, ◌<◌, ◌≡◌, ◌⊎◌, List, [], ◌∷◌, ◌++◌, length, none, some}
use byte_space.Editor.Slices.{Line, Heap, line_bytes}
use byte_space.Editor.{VEdit, Outcome}

-- All bytes of the lines, without newlines.
unfoldable pub joined : Heap → List Line → List ℕ
joined heap [] = []
joined heap (line ∷ lines) = line_bytes heap line ++ joined heap lines

abbrev pub EnterResult : VEdit → Line → Outcome → Type 0
EnterResult p line none = (p.cursor_col ≡ 0) ⊎ (line.len < p.cursor_col - 1)
EnterResult p line (some q) =
    (1 ≤ p.cursor_col)
    × (p.cursor_col - 1 ≤ line.len)
    × (q.heap ≡ p.heap)
    × (joined q.heap q.buffer ≡ joined p.heap p.buffer)
    × (length q.buffer ≡ length p.buffer + 1)
    × (q.cursor_row ≡ p.cursor_row + 1)
    × (q.cursor_col ≡ 1)
