-- ===== src/Accounts/Login.antt =====
-- A user who was added can log in.
use byte_space.Prelude.{
  ℕ, ◌≡◌, refl, ap, sym, ◌∙◌, arith, Bool, true, false, ◌&&◌, ◌||◌, not, ◌==◌, ==→eq, if◌then◌else◌,
  some, List, [], ◌∷◌, ◌++◌, eq_bytes, eq_bytes→eq, is_nil, split_on, append_assoc, Bool-cases, inl,
  inr, subst,
}
use byte_space.Terminal.{Text, decimal}
use byte_space.Terminal.Shell.{is_space}
use byte_space.Accounts.{
  newline, colon, any, has_login, logs_in, check_credentials, is_blank, first_is, is_of,
  is_username_unique, user_line, with_user, homedir,
}
use byte_space.Accounts.Lines.{lacks, any-append, split_on-append, split_on_one, user_line-lacks}

-- A file that is empty or ends in a newline.
pub data IsTerminated : Text → Type 0 where
  empty : IsTerminated []
  ended : (text : Text) → IsTerminated (text ++ newline ∷ [])

fields-user_line :
    (username password : Text) (uid : ℕ)
    → lacks colon username ≡ true
    → lacks colon password ≡ true
    → split_on colon (user_line username password uid)
      ≡ username ∷ password ∷ split_on colon (decimal uid ++ colon ∷ homedir username)
unfolding user_line
fields-user_line username password uid h g =
    let number = decimal uid ++ colon ∷ homedir username in
    split_on-append colon username (password ++ colon ∷ number)
    ∙ ap (λ words. words ++ split_on colon (password ++ colon ∷ number))
        (split_on_one colon username h)
    ∙ ap (λ words. username ∷ words)
        (split_on-append colon password number
          ∙ ap (λ words. words ++ split_on colon number) (split_on_one colon password g))

user_line-is_nil :
    (username password : Text) (uid : ℕ) → is_nil (user_line username password uid) ≡ false
unfolding user_line
user_line-is_nil [] password uid = refl
user_line-is_nil (c ∷ username) password uid = refl

-- The line lets in who gives its two fields, and nobody else.
logs_in-user_line :
    (username password : Text) (uid : ℕ) (name secret : Text)
    → lacks colon username ≡ true
    → lacks colon password ≡ true
    → logs_in name secret (user_line username password uid)
      ≡ (eq_bytes username name && eq_bytes password secret)
logs_in-user_line username password uid name secret h g =
    rw (user_line-is_nil username password uid, fields-user_line username password uid h g)

one_line :
    (entry : Text)
    → lacks newline entry ≡ true
    → split_on newline (entry ++ newline ∷ []) ≡ entry ∷ [] ∷ []
unfolding split_on
one_line entry one =
    split_on-append newline entry []
    ∙ ap (λ words. words ++ [] ∷ []) (split_on_one newline entry one)

last_empty : (a b c : Bool) → c ≡ false → (a || (b || (c || false))) ≡ ((a || (c || false)) || b)
last_empty a b c h = ground arith

any-lines :
    (test : Text → Bool) (text entry : Text)
    → test [] ≡ false
    → IsTerminated text
    → lacks newline entry ≡ true
    → any test (split_on newline (text ++ (entry ++ newline ∷ [])))
      ≡ (any test (split_on newline text) || test entry)
unfolding split_on
any-lines test _ entry h empty one = ap (any test) (one_line entry one) ∙ ground (arith, h)
any-lines test _ entry h (ended text) one =
    ap (λ t. any test (split_on newline t))
      (append_assoc text (newline ∷ []) (entry ++ newline ∷ []))
    ∙ ap (any test) (split_on-append newline text (entry ++ newline ∷ []))
    ∙ any-append test (split_on newline text) (split_on newline (entry ++ newline ∷ []))
    ∙ ap (λ words. any test (split_on newline text) || any test words) (one_line entry one)
    ∙ last_empty (any test (split_on newline text)) (test entry) (test []) h
    ∙ sym (
        ap (λ words. any test words || test entry) (split_on-append newline text [])
        ∙ ap (λ b. b || test entry) (any-append test (split_on newline text) ([] ∷ [])))

true_is_false : true ≡ false → ⊥
true_is_false h = ground arith

and-true : (a b : Bool) → (a && b) ≡ true → (a ≡ true) × (b ≡ true)
and-true a b h = ground arith

space-colon : (c : ℕ) → is_space c ≡ true → (c == colon) ≡ false
space-colon c h = elim (Bool-cases (c == colon)) [
  | inl e ↦ absurd (true_is_false (sym h ∙ ap is_space (==→eq c colon e)))
  | inr e ↦ e
]

-- A blank line has one field.
blank-lacks : (entry : Text) → is_blank entry ≡ true → lacks colon entry ≡ true
blank-lacks [] h = refl
blank-lacks (c ∷ entry) h =
    let both = and-true (is_space c) (is_blank entry) h in
    rw (space-colon c both.0) (blank-lacks entry both.1)

first-has_login :
    (username password entry : Text) (fields : List Text)
    → first_is username fields ≡ false
    → (not (is_nil entry) && has_login username password fields) ≡ false
first-has_login username password entry [] h = ground arith
first-has_login username password entry (name ∷ []) h = ground arith
first-has_login username password entry (name ∷ secret ∷ fields) h = ground (arith, h)

is_of-logs_in :
    (username password entry : Text)
    → is_of username entry ≡ false
    → logs_in username password entry ≡ false
is_of-logs_in username password entry h = elim (Bool-cases (is_blank entry)) [
  | inl blank ↦ rw (split_on_one colon entry (blank-lacks entry blank)) (ground arith)
  | inr written ↦ first-has_login username password entry (split_on colon entry) (ground arith)
]

any-is_of :
    (username password : Text) (entries : List Text)
    → any (is_of username) entries ≡ false
    → any (logs_in username password) entries ≡ false
any-is_of username password [] h = refl
any-is_of username password (entry ∷ entries) h =
    ground (arith, is_of-logs_in username password entry, any-is_of username password entries)

-- What `checkCredentials` answers once a user was added to a file that is empty or ends in a
-- newline, with a name and a password without newline and colon: as before, or yes for the new
-- name with its password.
check-with_user :
    (content username password : Text) (uid : ℕ) (name secret : Text)
    → IsTerminated content
    → lacks newline username ≡ true
    → lacks newline password ≡ true
    → lacks colon username ≡ true
    → lacks colon password ≡ true
    → check_credentials (some (with_user (some content) username password uid)) name secret ≡ (
        check_credentials (some content) name secret
        || (eq_bytes username name && eq_bytes password secret))
unfolding check_credentials with_user
check-with_user content username password uid name secret t h g h' g' =
    any-lines (logs_in name secret) content (user_line username password uid) refl t
      (user_line-lacks username password uid h g)
    ∙ ap (λ b. any (logs_in name secret) (split_on newline content) || b)
        (logs_in-user_line username password uid name secret h' g')

unique-check :
    (content username secret : Text)
    → is_username_unique (some content) username ≡ true
    → check_credentials (some content) username secret ≡ false
unfolding check_credentials is_username_unique
unique-check content username secret h =
    any-is_of username secret (split_on newline content) (ground arith)

new_or_old :
    (content username password name secret : Text)
    → is_username_unique (some content) username ≡ true
    → (check_credentials (some content) name secret
        || (eq_bytes username name && eq_bytes password secret))
      ≡ (if eq_bytes username name
          then eq_bytes password secret
          else check_credentials (some content) name secret)
new_or_old content username password name secret unique =
    elim (Bool-cases (eq_bytes username name)) [
      | inl same ↦
          let e = eq_bytes→eq username name same in
          let old =
            subst (λ n. check_credentials (some content) n secret ≡ false) e
              (unique-check content username secret unique) in
          rw (same, old)
      | inr differ ↦ ground (arith, differ)
    ]

-- After `adduser` has written a user whose name was unique, to a file that is empty or ends in a
-- newline, with neither newline nor colon in the name and the password: the new user logs in with
-- that password and with no other, and everybody else logs in as before.
pub adduser-check_credentials :
    (content username password : Text) (uid : ℕ) (name secret : Text)
    → IsTerminated content
    → is_username_unique (some content) username ≡ true
    → lacks newline username ≡ true
    → lacks newline password ≡ true
    → lacks colon username ≡ true
    → lacks colon password ≡ true
    → check_credentials (some (with_user (some content) username password uid)) name secret ≡ (
        if eq_bytes username name
        then eq_bytes password secret
        else check_credentials (some content) name secret)
adduser-check_credentials content username password uid name secret t unique h g h' g' =
    check-with_user content username password uid name secret t h g h' g'
    ∙ new_or_old content username password name secret unique
