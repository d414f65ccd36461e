-- ===== src/Commands/Chmod.antt =====
-- programs/cmds/cmds.go: the modes that `chmod` reads.
use byte_space.Prelude.{
  ℕ, ◌≡◌, Bool, true, false, ◌&&◌, ◌||◌, if◌then◌else◌, Option, none, some, List, [], ◌∷◌, ◌++◌,
  ◌⊎◌,
}
use byte_space.Commands.{Cut, Modes, is_operator, or_both, valid_who, apply, letter_u, letter_o}
use byte_space.Commands.Bits.{has, all_permissions, bits_of}

abbrev pub has_operator : List ℕ → Bool
has_operator [] = false
has_operator (c ∷ mode) = is_operator c || has_operator mode

-- The mode, cut at its first operator.
pub record Parts (mode : List ℕ) : Type 0 where
  pub who : List ℕ
  pub op : ℕ
  pub perms : List ℕ
  pub split : mode ≡ who ++ op ∷ perms
  pub operator : is_operator op ≡ true
  pub plain : has_operator who ≡ false

abbrev valid : List ℕ → List ℕ → Bool
valid who perms = valid_who (or_both who) && all_permissions perms

-- The class `u` or `o` is given, alone or by the empty word or `a`, which give both.
abbrev pub changed : List ℕ → ℕ → List ℕ → Modes → Modes
changed who op perms old = record {
  owner = if has letter_u (or_both who) then apply op (bits_of perms) old.owner else old.owner;
  other = if has letter_o (or_both who) then apply op (bits_of perms) old.other else old.other;
}

abbrev pub IsChange : List ℕ → Option (Modes → Modes) → Type 0
IsChange mode none =
    (has_operator mode ≡ false) ⊎ ((p : Parts mode) × (valid p.who p.perms ≡ false))
IsChange mode (some change) =
    (p : Parts mode) × (valid p.who p.perms ≡ true)
    × ((old : Modes) → change old ≡ changed p.who p.op p.perms old)

-- Cutting finds the first operator, or there is none.
abbrev IsCut : List ℕ → Option Cut → Type 0
IsCut mode none = has_operator mode ≡ false
IsCut mode (some cut) =
    (mode ≡ cut.who ++ cut.op ∷ cut.perms)
    × (is_operator cut.op ≡ true)
    × (has_operator cut.who ≡ false)

-- The loop over who, on classes with modes so far.
abbrev classes : ℕ → ℕ → Modes → List ℕ → Modes → Modes
classes op bits old who new = record {
  owner = if has letter_u who then apply op bits old.owner else new.owner;
  other = if has letter_o who then apply op bits old.other else new.other;
}

module _ (mode : List ℕ) (cut : Cut) (h : IsCut mode (some cut)) where
  abbrev parts : Parts mode
  parts = record {
    who = cut.who;
    op = cut.op;
    perms = cut.perms;
    split = h.0;
    operator = h.1;
    plain = h.2;
  }
