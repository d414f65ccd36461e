-- ===== src/Terminal/Shell/Words.antt =====
-- The words of a line, and their split into commands and flags.
use byte_space.Prelude.{◌≡◌, Bool, false, not, List, [], ◌∷◌, ◌++◌, if◌then◌else◌}
use byte_space.Terminal.{Text}
use byte_space.Terminal.Shell.{is_space, fields, is_flag, or_empty}

-- The letters of a text that are no white space, and those that a test holds of.
abbrev letters : Text → Text
letters [] = []
letters (c ∷ text) = if is_space c then letters text else c ∷ letters text

abbrev flatten : List Text → Text
flatten [] = []
flatten (word ∷ words) = word ++ flatten words

abbrev keep : (Text → Bool) → List Text → List Text
keep test [] = []
keep test (part ∷ parts) = if test part then part ∷ keep test parts else keep test parts

abbrev HasNoSpace : Text → Type 0
HasNoSpace [] = Unit {0}
HasNoSpace (c ∷ word) = (is_space c ≡ false) × HasNoSpace word

abbrev IsWord : Text → Type 0
IsWord [] = ⊥
IsWord (c ∷ word) = HasNoSpace (c ∷ word)

abbrev AllWords : List Text → Type 0
AllWords [] = Unit {0}
AllWords (word ∷ words) = IsWord word × AllWords words

-- What the split of a line has to be.
pub record IsParsed (value : Text) (parts : List Text × List Text) : Type 0 where
  pub words : AllWords (fields value)
  pub no_letter_lost : flatten (fields value) ≡ letters value
  pub commands : parts.0 ≡ or_empty (keep (λ part. not (is_flag part)) (fields value))
  pub flags : parts.1 ≡ keep is_flag (fields value)
