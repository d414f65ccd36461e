-- ===== src/Commands/Letters.antt =====
-- The letters of `formatMode` give the modes back.
use byte_space.Prelude.{
  ℕ, zero, suc, ◌+◌, ◌<◌, ◌≡◌, refl, sym, ap, ◌∙◌, arith, Bool, true, false, ◌==◌, if◌then◌else◌,
  List, [], ◌∷◌, ◌++◌, length, get_elem?, codes, Option, some, none,
}
use byte_space.Commands.Ls.{letters_of, class_letters, has_bit, format_mode}

abbrev pub is_at : ℕ → Option ℕ → Bool
is_at letter none = false
is_at letter (some c) = c == letter

-- Whether the letter stands at the place.
abbrev pub shows : List ℕ → ℕ → ℕ → Bool
shows text place letter = is_at letter (get_elem? text place)

abbrev mode_value : Bool → Bool → Bool → ℕ
mode_value r w x = (if r then 4 else 0) + ((if w then 2 else 0) + (if x then 1 else 0))

-- The mode whose letters begin at the place; each letter is in ten bytes, five of them before it.
abbrev pub mode_at : List ℕ → ℕ → ℕ
mode_at text place =
    mode_value (shows text (place + 5) 114) (shows text (place + 15) 119)
      (shows text (place + 25) 120)

skip :
    (before rest : List ℕ) (i : ℕ)
    → get_elem? (before ++ rest) (length before + i) ≡ get_elem? rest i
skip [] rest i = ap (get_elem? rest) (omega arith)
skip (c ∷ before) rest i =
    let here : suc (length before) + i ≡ suc (length before + i) = omega arith in
    ap (get_elem? (c ∷ before ++ rest)) here ∙ skip before rest i

letters_length : (r w x : Bool) → length (letters_of r w x) ≡ 30
letters_length false false false = refl
letters_length false false true = refl
letters_length false true false = refl
letters_length false true true = refl
letters_length true false false = refl
letters_length true false true = refl
letters_length true true false = refl
letters_length true true true = refl

letters_first :
    (r w x : Bool) (rest : List ℕ) → mode_at (letters_of r w x ++ rest) 0 ≡ mode_value r w x
letters_first false false false rest = refl
letters_first false false true rest = refl
letters_first false true false rest = refl
letters_first false true true rest = refl
letters_first true false false rest = refl
letters_first true false true rest = refl
letters_first true true false rest = refl
letters_first true true true rest = refl

three_bits : (m : ℕ) → m < 8 → mode_value (has_bit m 4) (has_bit m 2) (has_bit m 1) ≡ m
three_bits zero h = refl
three_bits (suc zero) h = refl
three_bits (suc (suc zero)) h = refl
three_bits (suc (suc (suc zero))) h = refl
three_bits (suc (suc (suc (suc zero)))) h = refl
three_bits (suc (suc (suc (suc (suc zero))))) h = refl
three_bits (suc (suc (suc (suc (suc (suc zero)))))) h = refl
three_bits (suc (suc (suc (suc (suc (suc (suc zero))))))) h = refl
three_bits (suc (suc (suc (suc (suc (suc (suc (suc m)))))))) h = absurd (omega arith)

class_first : (m : ℕ) (rest : List ℕ) → m < 8 → mode_at (class_letters m ++ rest) 0 ≡ m
class_first m rest h = letters_first (has_bit m 4) (has_bit m 2) (has_bit m 1) rest ∙ three_bits m h

class_skip :
    (m : ℕ) (rest : List ℕ) (i : ℕ)
    → get_elem? (class_letters m ++ rest) (30 + i) ≡ get_elem? rest i
class_skip m rest i =
    ap (λ n. get_elem? (class_letters m ++ rest) (n + i))
      (sym (letters_length (has_bit m 4) (has_bit m 2) (has_bit m 1)))
    ∙ skip (class_letters m) rest i

mode_skip : (m : ℕ) (rest : List ℕ) → mode_at (class_letters m ++ rest) 30 ≡ mode_at rest 0
mode_skip m rest = λ k.
    mode_value (is_at 114 (class_skip m rest 5 k)) (is_at 119 (class_skip m rest 15 k))
      (is_at 120 (class_skip m rest 25 k))

setuid_shown :
    (setuid : Bool)
    → shows (if setuid then codes "\u{1b}[95ms\u{1b}[0m " else codes "  ") 5 115 ≡ setuid
setuid_shown true = refl
setuid_shown false = refl

-- For modes of three bits, the string of `formatMode` shows them: the letters r, w and x of the
-- owner's mode stand in its first thirty bytes, those of the other mode in the next thirty, and the s
-- of a setuid program behind them.
pub format_mode-mode_at :
    (owner other : ℕ) (setuid : Bool)
    → owner < 8
    → other < 8
    → (mode_at (format_mode owner other setuid) 0 ≡ owner)
      × (mode_at (format_mode owner other setuid) 30 ≡ other)
      × (shows (format_mode owner other setuid) 65 115 ≡ setuid)
unfolding format_mode
format_mode-mode_at owner other setuid h g =
    let last = if setuid then codes "\u{1b}[95ms\u{1b}[0m " else codes "  " in
    let rest = class_letters other ++ last in
    (
      class_first owner rest h,
      mode_skip owner rest ∙ class_first other last g,
      ap (is_at 115) (class_skip owner rest 35 ∙ class_skip other last 5) ∙ setuid_shown setuid,
    )
