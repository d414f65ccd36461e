-- ===== src/Examples/Programs.antt =====
-- The users, the network and the commands at concrete values.
use byte_space.Prelude.{
  ℕ, ◌≡◌, refl, arith, true, Option, none, some, List, [], ◌∷◌, ◌++◌, codes, if◌then◌else◌,
  eq_bytes, split_on,
}
use byte_space.Terminal.{decimal, decimal_fuel}
use byte_space.Accounts.{check_credentials, is_username_unique, user_line, with_user}
use byte_space.Accounts.Login.{ended, adduser-check_credentials}
use byte_space.Accounts.Prompts.{login_start, login_run}
use byte_space.Accounts.Session.{IsAdmitted, login_run-IsAdmitted}
use byte_space.Network.{Network, Answer, answers, handle_admin}
use byte_space.Network.Unique.{IsSound, works, handle_admin-IsSound}
use byte_space.Commands.Ls.{format_mode}
use byte_space.Commands.Letters.{mode_at, shows, format_mode-mode_at}

abbrev passwd : List ℕ
passwd = codes "root:secret:1000:/root" ++ 10 ∷ []

adduser-check_credentials_example :
    check_credentials
      (some (with_user (some passwd) (codes "ann") (codes "pw") 1001))
      (codes "root")
      (codes "secret")
    ≡ (if eq_bytes (codes "ann") (codes "root")
        then eq_bytes (codes "pw") (codes "secret")
        else check_credentials (some passwd) (codes "root") (codes "secret"))
unfolding is_username_unique split_on eq_bytes
adduser-check_credentials_example =
    adduser-check_credentials passwd (codes "ann") (codes "pw") 1001 (codes "root") (codes "secret")
      (ended (codes "root:secret:1000:/root")) refl refl refl refl refl

-- A name with a colon: it is not taken, and root logs in with what stands behind the colon.
colon_unique : is_username_unique (some passwd) (codes "root:x") ≡ true
unfolding is_username_unique split_on eq_bytes
colon_unique = refl

colon_login :
    check_credentials
      (some (with_user (some passwd) (codes "root:x") (codes "pw") 1001))
      (codes "root")
      (codes "x")
    ≡ true
unfolding check_credentials with_user user_line decimal decimal_fuel split_on eq_bytes
colon_login = refl

abbrev typed : List (Option (List ℕ))
typed = some (codes "root") ∷ some (codes "secret") ∷ []

login_run-IsAdmitted_example :
    IsAdmitted
      (some passwd)
      typed
      (login_run (some passwd) none (login_start none).0 (login_start none).1 typed)
login_run-IsAdmitted_example = login_run-IsAdmitted none (some passwd) none typed

abbrev two_machines : Network
two_machines = record {
  nodes =
      record { type = codes "computer"; name = codes "a"; ip = codes "1.1" }
      ∷ record { type = codes "computer"; name = codes "b"; ip = codes "1.2" }
      ∷ [];
  saved =
      record { type = codes "computer"; name = codes "a"; ip = codes "1.1" }
      ∷ record { type = codes "computer"; name = codes "b"; ip = codes "1.2" }
      ∷ [];
}

two_machines-IsSound : IsSound true two_machines
two_machines-IsSound = record { unique = unfold eq_bytes in refl; stored = refl }

abbrev no_answer : List (List ℕ) → Answer
no_answer words = answers [] 0

abbrev spawn_c : List (List ℕ)
spawn_c = codes "spawn" ∷ codes "computer" ∷ codes "c" ∷ codes "1.3" ∷ []

handle_admin-IsSound_example :
    IsSound (works true none) (handle_admin true none no_answer spawn_c two_machines).1
handle_admin-IsSound_example =
    handle_admin-IsSound true none no_answer spawn_c two_machines two_machines-IsSound

-- rwx and r-x, and the program is setuid.
format_mode-mode_at_example :
    (mode_at (format_mode 7 5 true) 0 ≡ 7)
    × (mode_at (format_mode 7 5 true) 30 ≡ 5)
    × (shows (format_mode 7 5 true) 65 115 ≡ true)
format_mode-mode_at_example = format_mode-mode_at 7 5 true (omega arith) (omega arith)
