-- ===== src/Terminal.antt =====
-- Text as the terminals of a machine handle it. A Go string that reaches a terminal is valid UTF-8
-- (it was decoded from JSON), so it is the list of its code points: `[]rune(s)` is the list, and
-- `len(s)` is the number of bytes that code it.
pub mod Tty
pub mod Shell
use byte_space.Prelude.{
  ℕ, zero, suc, ◌+◌, ◌-◌, ◌*◌, ◌/◌, ◌%◌, ◌≤◌, ◌<◌, ◌≡◌, Bool, true, false, ◌&&◌, ◌||◌, not, List,
  [], ◌∷◌, ◌++◌, length, take, drop, ltb, leb, ◌==◌, if◌then◌else◌, eq_bytes, has_prefix, codes,
  arith, refl,
}

abbrev pub Text : Type 0
Text = List ℕ

-- The bytes of a code point in UTF-8.
abbrev pub rune_len : ℕ → ℕ
rune_len c = if ltb c 128 then 1 else if ltb c 2048 then 2 else if ltb c 65536 then 3 else 4

-- `len(s)`
unfoldable pub byte_len : Text → ℕ
byte_len [] = 0
byte_len (c ∷ s) = rune_len c + byte_len s

-- `fmt.Sprintf("%d", n)`: `fuel` digits at most.
unfoldable pub decimal_fuel : ℕ → ℕ → Text → Text
decimal_fuel zero n rest = rest
decimal_fuel (suc fuel) n rest =
    let more = decimal_fuel fuel (n / 10) ((48 + n % 10) ∷ rest) in
    if ltb n 10 then (48 + n) ∷ rest else more

unfoldable pub decimal : ℕ → Text
unfolding decimal_fuel
decimal n = decimal_fuel (suc n) n []

-- The keys that the line editors know.
abbrev pub enter : Text
enter = 13 ∷ []

abbrev pub delete : Text
delete = 127 ∷ []

abbrev pub tab : Text
tab = 9 ∷ []

abbrev pub escape : Text
escape = 27 ∷ []

abbrev pub arrow_up : Text
arrow_up = 27 ∷ b'[' ∷ b'A' ∷ []

abbrev pub arrow_down : Text
arrow_down = 27 ∷ b'[' ∷ b'B' ∷ []

abbrev pub arrow_right : Text
arrow_right = 27 ∷ b'[' ∷ b'C' ∷ []

abbrev pub arrow_left : Text
arrow_left = 27 ∷ b'[' ∷ b'D' ∷ []

abbrev pub ctrl_u : Text
ctrl_u = 21 ∷ []

-- `"\x1b\x7f", "\x1bw", "\x15", "\x02", "\x1b"`
abbrev pub is_ignored : Text → Bool
is_ignored key =
    eq_bytes key (27 ∷ 127 ∷ [])
    || eq_bytes key (27 ∷ b'w' ∷ [])
    || eq_bytes key ctrl_u
    || eq_bytes key (2 ∷ [])
    || eq_bytes key escape

-- The modified arrows of `HasPrefix(data, "\x1b[1;5")`, and a lone `;`.
abbrev pub is_incomplete : Text → Bool
is_incomplete key = has_prefix key (27 ∷ b'[' ∷ b'1' ∷ b';' ∷ b'5' ∷ []) || eq_bytes key (b';' ∷ [])

-- The text with one rune taken out, and with some put in, at a position inside.
abbrev pub remove_rune : Text → ℕ → Text
remove_rune runes at = take at runes ++ drop (at + 1) runes

abbrev pub insert_runes : Text → ℕ → Text → Text
insert_runes runes at r = take at runes ++ (r ++ drop at runes)

abbrev pub expand : Text → Text
expand key = if eq_bytes key tab then codes "    " else key

abbrev pub backspace : Text
backspace = 8 ∷ 32 ∷ 8 ∷ []

-- What follows the cursor is written again, and the cursor goes back over it; nothing is written
-- where nothing follows.
abbrev pub redraw : Text → ℕ → List Text
redraw runes cursor =
    let right = drop cursor runes in
    if ltb 0 (byte_len right)
    then (right ++ (32 ∷ 27 ∷ b'[' ∷ (decimal (byte_len right + 1) ++ b'D' ∷ []))) ∷ []
    else []

-- All code points are ASCII.
abbrev pub IsAscii : Text → Type 0
IsAscii [] = Unit {0}
IsAscii (c ∷ s) = (c < 128) × IsAscii s

pub byte_len_ascii : (s : Text) → IsAscii s → byte_len s ≡ length s
unfolding byte_len
byte_len_ascii [] h = refl
byte_len_ascii (c ∷ s) h = ground (arith, byte_len_ascii s h.1)
