-- ===== src/Accounts/Prompts.antt =====
-- programs/login/login.go and programs/adduser/adduser.go: the dialogues of `login` and `adduser`, line
-- by line, and `addUser` of engine/handle_admin.go. What the files give is an argument.
use byte_space.Prelude.{
  ℕ, zero, suc, ◌+◌, Bool, true, false, not, if◌then◌else◌, Option, none, some, List, [], ◌∷◌, ◌++◌,
  is_nil, split_on, codes, has_prefix, drop, length,
}
use byte_space.Terminal.{Text}
use byte_space.Accounts.{
  check_credentials, is_username_unique, find_uid, with_user, newline, any, is_of, count_users,
}

-- What a program does on the way, in order.
pub data Act : Type 0 where
  writes : Text → Act
  passwd_mode raw_mode buff_clear : Bool → Act
  starts_session : Text → Act
  writes_passwd : Text → Act

-- The program goes on with a state, or it sends its status and ends.
pub data Turn (S : Type 0) : Type 0 where
  asks : S → List Act → Turn S
  leaves : ℕ → List Act → Turn S

abbrev pub success : ℕ
success = 0

abbrev pub error_status : ℕ
error_status = 2

-- `strings.ReplaceAll`; `fuel` is the length of the text, as each round takes one rune at least.
abbrev pub replace_all_fuel : ℕ → Text → Text → Text → Text
replace_all_fuel zero old new text = text
replace_all_fuel (suc fuel) old new [] = []
replace_all_fuel (suc fuel) old new (c ∷ text) =
    let on = replace_all_fuel fuel old new text in
    let behind = replace_all_fuel fuel old new (drop (length old) (c ∷ text)) in
    if has_prefix (c ∷ text) old then new ++ behind else c ∷ on

abbrev pub replace_all : Text → Text → Text → Text
replace_all old new text = replace_all_fuel (length text) old new text

pub record Login : Type 0 where
  pub username : Text
  pub password : Text

abbrev pub greet : Option Text → Text → List Act
greet none username = []
greet (some motd) username = writes (replace_all (codes "[[USERNAME]]") username motd) ∷ []

-- `issue` is what the read of /etc/issue gave.
unfoldable pub login_start : Option Text → Login × List Act
login_start issue = (
  record { username = []; password = [] },
  (elim issue [ none ↦ [] | some text ↦ writes text ∷ [] ]) ++ writes (codes "\r\nUSERNAME: ") ∷ [],
)

-- `Run` of login on a line that the terminal gave.
unfoldable pub login_line : Option Text → Option Text → Login → Text → Turn Login
login_line passwd motd login value =
    if is_nil value
    then leaves error_status []
    else if is_nil login.username
    then asks (record login { username = value })
        (passwd_mode true ∷ writes (codes "\r\nPASSWORD: ") ∷ [])
    else if is_nil login.password
    then (if check_credentials passwd login.username value
        then leaves success
            (passwd_mode false ∷ greet motd login.username ++ starts_session login.username ∷ [])
        else leaves error_status (passwd_mode false ∷ []))
    else asks login []

-- The lines that come, until the program ends; `none` is a read that the client's interrupt ended.
abbrev pub after_turn : Turn Login → List Act → (Login → List Act → Turn Login) → Turn Login
after_turn (asks login acts) before on = on login (before ++ acts)
after_turn (leaves status acts) before on = leaves status (before ++ acts)

unfoldable pub login_run :
    Option Text → Option Text → Login → List Act → List (Option Text) → Turn Login
unfolding login_line
login_run passwd motd login acts [] = asks login acts
login_run passwd motd login acts (none ∷ lines) = leaves error_status acts
login_run passwd motd login acts (some value ∷ lines) =
    after_turn (login_line passwd motd login value) acts
      λ login acts. login_run passwd motd login acts lines

pub record Adduser : Type 0 where
  pub username : Text
  pub username_recorded : Bool
  pub password_recorded : Bool

abbrev added_message : Text → Option Text → Text
added_message username none = codes "Successfully added " ++ username
added_message username (some why) = codes "Error writing to passwd: " ++ why

abbrev add_user : Option Text → Option Text → Text → Text → Option ℕ → Turn Adduser
add_user passwd why username password none =
    leaves error_status
      (passwd_mode false ∷ writes (codes "\nErr: could not create valid UID\n") ∷ [])
add_user passwd why username password (some uid) = leaves success (
    passwd_mode false
    ∷ writes_passwd (with_user passwd username password uid)
    ∷ writes (newline ∷ added_message username why ++ newline ∷ [])
    ∷ [])

-- `Run` of adduser on a line; `why` is the text of the error that the write of the file gives.
unfoldable pub adduser_line : Option Text → Option Text → Adduser → Text → Turn Adduser
adduser_line passwd why state value =
    if not state.username_recorded
    then (if is_nil value
        then leaves error_status
            (writes (codes "\that a horrible username, its empty child!\n") ∷ [])
        else if not (is_username_unique passwd value)
        then leaves error_status
            (writes (codes "\nUsername already exists, don't be so generic\n") ∷ [])
        else asks (record state { username = value; username_recorded = true })
            (writes (codes "\nPassword: ") ∷ passwd_mode true ∷ []))
    else if not state.password_recorded
    then add_user passwd why state.username value (find_uid passwd)
    else asks state []

-- `HandleSignal` of adduser, for SIGINT.
abbrev pub adduser_interrupted : List Act
adduser_interrupted =
    passwd_mode false ∷ buff_clear true ∷ writes (codes "\n(SIGINT), force quitting!\n") ∷ []

-- `addUser` of the engine, once the node was found and the file was read: what is written, unless
-- the name is taken.
unfoldable pub admin_add_user : Text → Text → Text → Option Text
admin_add_user existing username password =
    if any (is_of username) (split_on newline existing)
    then none
    else some (
        with_user (some existing) username password
          (1000 + count_users (split_on newline existing)))
