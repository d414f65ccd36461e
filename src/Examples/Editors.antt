-- ===== src/Examples/Editors.antt =====
-- The editor of programs/v at concrete values.
use byte_space.Prelude.{
  ℕ, ◌+◌, ◌≡◌, refl, false, none, some, ◌==◌, if◌then◌else◌, codes, List, [], ◌∷◌, get_elem?,
  eq_bytes,
}
use byte_space.Bytes.{of_list, to_list}
use byte_space.Terminal.{enter, delete}
use byte_space.Editor.Slices.{Line, Heap, Caps, line_bytes, append}
use byte_space.Editor.{
  VEdit, Outcome, normal_key, enter_key, press, insert_mode_key, delete_key, key_h, set_mode,
}

-- Eight bytes more than asked for.
abbrev caps : Caps
caps = record { converted = λ n. n + 8; grown = λ old n. n + 8 }

-- `ab` and `ef` were split off `abcdef`, and the line between them, `XYZ`, was made anew.
abbrev shared : Heap
shared = record {
  array = λ arr. if arr == 0 then of_list (codes "abcdef") else of_list (codes "XYZ");
  next = 2;
}

abbrev ab : Line
ab = record { arr = 0; off = 0; len = 2; cap = 14 }

abbrev xyz : Line
xyz = record { arr = 1; off = 0; len = 3; cap = 11 }

abbrev ef : Line
ef = record { arr = 0; off = 4; len = 2; cap = 10 }

abbrev three_lines : VEdit
three_lines = record {
  cursor_row = 2;
  cursor_col = 1;
  buffer = ab ∷ xyz ∷ ef ∷ [];
  heap = shared;
  mode = 1;
  did_write = false;
  written = [];
}

-- The bytes of a line after a key, empty after a panic.
abbrev line_after : Outcome → ℕ → List ℕ
line_after none row = []
line_after (some p) row = elim (get_elem? p.buffer row) [
  | none ↦ []
  | some line ↦ line_bytes p.heap line
]

-- Merging the second line into the first writes over the third.
merge_overwrites :
    (line_after (some three_lines) 2 ≡ codes "ef")
    × (line_after (press caps delete three_lines) 0 ≡ codes "abXYZ")
    × (line_after (press caps delete three_lines) 1 ≡ codes "Zf")
unfolding press insert_mode_key delete_key append line_bytes to_list eq_bytes of_list
merge_overwrites = (refl, refl, refl)

abbrev and_press : Outcome → List ℕ → Outcome
and_press none key = none
and_press (some p) key = press caps key p

-- `h` at the first column reaches column 0, where Enter panics.
enter_panics :
    and_press
      (and_press (press caps (codes "h") (record three_lines { mode = 0 })) (codes "i"))
      enter
    ≡ none
unfolding press normal_key insert_mode_key enter_key key_h set_mode eq_bytes
enter_panics = refl
