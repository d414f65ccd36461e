-- ===== src/Accounts/Lines.antt =====
-- The lines and fields of /etc/passwd.
use byte_space.Prelude.{
  ℕ, zero, suc, ◌+◌, ◌/◌, ◌%◌, ◌≡◌, refl, ap, ◌∙◌, arith, Bool, true, false, ◌&&◌, ◌||◌, not, ◌==◌,
  List, [], ◌∷◌, ◌++◌, eq_bytes, is_nil, split_on, add_head, ==_refl, Bool-cases, inl, inr, codes,
}
use byte_space.Terminal.{Text, decimal, decimal_fuel}
use byte_space.Accounts.{newline, colon, any, homedir, user_line}

-- No rune of the text is `sep`.
abbrev pub lacks : ℕ → Text → Bool
lacks sep [] = true
lacks sep (c ∷ text) = not (c == sep) && lacks sep text

pub lacks-append :
    (sep : ℕ) (xs ys : Text)
    → lacks sep xs ≡ true
    → lacks sep ys ≡ true
    → lacks sep (xs ++ ys) ≡ true
lacks-append sep [] ys h g = g
lacks-append sep (c ∷ xs) ys h g = ground (arith, lacks-append sep xs ys)

pub any-append {ℓ} :
    {A : Type ℓ} (test : A → Bool) (xs ys : List A)
    → any test (xs ++ ys) ≡ (any test xs || any test ys)
any-append test [] ys = refl
any-append test (x ∷ xs) ys = ground (arith, any-append test xs ys)

add_head-append :
    (c : ℕ) (words others : List Text)
    → is_nil words ≡ false
    → add_head c (words ++ others) ≡ add_head c words ++ others
add_head-append c [] others h = ground arith
add_head-append c (word ∷ words) others h = refl

add_head-is_nil : (c : ℕ) (words : List Text) → is_nil (add_head c words) ≡ false
add_head-is_nil c [] = refl
add_head-is_nil c (word ∷ words) = refl

split_on-is_nil : (sep : ℕ) (text : Text) → is_nil (split_on sep text) ≡ false
unfolding split_on
split_on-is_nil sep [] = refl
split_on-is_nil sep (c ∷ text) = ground (arith, add_head-is_nil c (split_on sep text))

-- A separator splits before and behind.
pub split_on-append :
    (sep : ℕ) (xs ys : Text) → split_on sep (xs ++ sep ∷ ys) ≡ split_on sep xs ++ split_on sep ys
unfolding split_on
split_on-append sep [] ys = rw (==_refl sep)
split_on-append sep (c ∷ xs) ys = elim (Bool-cases (c == sep)) [
  | inl e ↦ rw e (ap (λ words. [] ∷ words) (split_on-append sep xs ys))
  | inr e ↦ rw e (
      ap (add_head c) (split_on-append sep xs ys)
      ∙ add_head-append c (split_on sep xs) (split_on sep ys) (split_on-is_nil sep xs))
]

pub split_on_one : (sep : ℕ) (text : Text) → lacks sep text ≡ true → split_on sep text ≡ text ∷ []
unfolding split_on
split_on_one sep [] h = refl
split_on_one sep (c ∷ text) h =
    let differs : (c == sep) ≡ false = ground arith in
    rw differs (ap (add_head c) (split_on_one sep text (ground arith)))

-- Digits are no newlines.
decimal_fuel-lacks :
    (fuel n : ℕ) (text : Text)
    → lacks newline text ≡ true
    → lacks newline (decimal_fuel fuel n text) ≡ true
unfolding decimal_fuel
decimal_fuel-lacks zero n text h = h
decimal_fuel-lacks (suc fuel) n text h =
    ground (arith, decimal_fuel-lacks fuel (n / 10) ((48 + n % 10) ∷ text) (ground arith))

decimal-lacks : (n : ℕ) → lacks newline (decimal n) ≡ true
unfolding decimal
decimal-lacks n = decimal_fuel-lacks (suc n) n [] refl

homedir-lacks :
    (username : Text) → lacks newline username ≡ true → lacks newline (homedir username) ≡ true
homedir-lacks username h = elim (Bool-cases (eq_bytes username (codes "root"))) [
  | inl e ↦ rw e
  | inr e ↦ rw e (lacks-append newline (codes "/home/") username refl h)
]

pub user_line-lacks :
    (username password : Text) (uid : ℕ)
    → lacks newline username ≡ true
    → lacks newline password ≡ true
    → lacks newline (user_line username password uid) ≡ true
unfolding user_line
user_line-lacks username password uid h g =
    let home = homedir username in
    let number = decimal uid ++ (colon ∷ home) in
    lacks-append newline username (colon ∷ password ++ (colon ∷ number)) h (
      lacks-append newline password (colon ∷ number) g (
        lacks-append newline (decimal uid) (colon ∷ home) (decimal-lacks uid)
          (homedir-lacks username h)))
