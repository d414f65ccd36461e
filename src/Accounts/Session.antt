-- ===== src/Accounts/Session.antt =====
-- programs/login/login.go: who gets a session.
use byte_space.Prelude.{
  zero, suc, ap, codes, ◌≡◌, refl, ◌∙◌, true, false, Option, none, some, List, [], ◌∷◌, ◌++◌,
  is_nil, Bool-cases, inl, inr,
}
use byte_space.Terminal.{Text}
use byte_space.Accounts.{check_credentials}
use byte_space.Accounts.Prompts.{
  Act, Turn, asks, leaves, Login, login_line, login_run, starts_session, writes, passwd_mode,
  raw_mode, buff_clear, writes_passwd, login_start, greet,
}

-- The users that sessions start for.
abbrev pub started : List Act → List Text
started [] = []
started (starts_session username ∷ acts) = username ∷ started acts
started (act ∷ acts) = started acts

-- A dialogue that is not over started no session; one that is over with success started one, for
-- a user whose name and password the lines began with, and /etc/passwd has them; another status
-- comes without a session.
abbrev pub IsAdmitted : Option Text → List (Option Text) → Turn Login → Type 0
IsAdmitted passwd lines (asks login acts) = started acts ≡ []
IsAdmitted passwd lines (leaves (suc status) acts) = started acts ≡ []
IsAdmitted passwd (some username ∷ some password ∷ lines) (leaves zero acts) =
    (started acts ≡ username ∷ []) × (check_credentials passwd username password ≡ true)
IsAdmitted passwd lines (leaves zero acts) = ⊥

started-append : (xs ys : List Act) → started (xs ++ ys) ≡ started xs ++ started ys
started-append [] ys = refl
started-append (starts_session username ∷ xs) ys =
    ap (λ users. username ∷ users) (started-append xs ys)
started-append (writes text ∷ xs) ys = started-append xs ys
started-append (passwd_mode on ∷ xs) ys = started-append xs ys
started-append (raw_mode on ∷ xs) ys = started-append xs ys
started-append (buff_clear on ∷ xs) ys = started-append xs ys
started-append (writes_passwd text ∷ xs) ys = started-append xs ys

none_started : (xs ys : List Act) → started xs ≡ [] → started (xs ++ ys) ≡ started ys
none_started xs ys h = started-append xs ys ∙ ap (λ users. users ++ started ys) h

greet-started : (motd : Option Text) (username : Text) → started (greet motd username) ≡ []
greet-started none username = refl
greet-started (some text) username = refl

module _ (passwd motd : Option Text) where
  password_line :
      (username : Text) (acts : List Act) (lines : List (Option Text))
      → is_nil username ≡ false
      → started acts ≡ []
      → IsAdmitted passwd
          (some username ∷ lines)
          (login_run passwd motd (record { username = username; password = [] }) acts lines)
  unfolding login_run login_line
  password_line username acts [] named s = s
  password_line username acts (none ∷ lines) named s = s
  password_line username acts (some [] ∷ lines) named s = none_started acts [] s
  password_line username acts (some (c ∷ value) ∷ lines) named s =
      let password = c ∷ value in
      elim (Bool-cases (check_credentials passwd username password)) [
        | inl passed ↦
            rw (named, passed)
              (
                none_started acts
                      (passwd_mode false ∷ greet motd username ++ starts_session username ∷ []) s
                    ∙ none_started (greet motd username) (starts_session username ∷ [])
                        (greet-started motd username),
                passed,
              )
        | inr failed ↦ rw (named, failed) (none_started acts (passwd_mode false ∷ []) s)
      ]

  name_line :
      (acts : List Act) (lines : List (Option Text))
      → started acts ≡ []
      → IsAdmitted passwd lines
          (login_run passwd motd (record { username = []; password = [] }) acts lines)
  unfolding login_run login_line
  name_line acts [] s = s
  name_line acts (none ∷ lines) s = s
  name_line acts (some [] ∷ lines) s = none_started acts [] s
  name_line acts (some (c ∷ value) ∷ lines) s =
      password_line (c ∷ value) (acts ++ passwd_mode true ∷ writes (codes "\r\nPASSWORD: ") ∷ [])
        lines refl (none_started acts (passwd_mode true ∷ writes (codes "\r\nPASSWORD: ") ∷ []) s)

start-started : (issue : Option Text) → started (login_start issue).1 ≡ []
unfolding login_start
start-started none = refl
start-started (some text) = refl

-- Whatever lines are typed into `login`, and whatever its files hold: it starts a session only as
-- it ends with success, only one, for the name that was typed first, and only if /etc/passwd has
-- a line of that name with the password that was typed next.
pub login_run-IsAdmitted :
    (issue passwd motd : Option Text) (lines : List (Option Text))
    → IsAdmitted passwd lines
        (login_run passwd motd (login_start issue).0 (login_start issue).1 lines)
unfolding login_start
login_run-IsAdmitted issue passwd motd lines =
    name_line passwd motd (login_start issue).1 lines (start-started issue)
