-- ===== src/Accounts.antt =====
-- programs/adduser/adduser.go, programs/login/login.go and `addUser` of engine/handle_admin.go: the
-- users of a machine, in its file /etc/passwd. Strings are valid UTF-8 and stand as their runes;
-- the separators are ASCII, so that they split runes as they split bytes.
pub mod Lines
pub mod Login
pub mod Prompts
pub mod Session
use byte_space.Prelude.{
  ℕ, suc, ◌+◌, Bool, true, false, ◌&&◌, ◌||◌, not, if◌then◌else◌, Option, none, some, List, [], ◌∷◌,
  ◌++◌, eq_bytes, is_nil, split_on, codes,
}
use byte_space.Terminal.{Text, decimal}
use byte_space.Terminal.Shell.{is_space}

abbrev pub newline : ℕ
newline = 10

abbrev pub colon : ℕ
colon = 58

-- The test of the loop of `checkCredentials` on the fields of a line.
abbrev pub has_login : Text → Text → List Text → Bool
has_login username password (name ∷ secret ∷ fields) =
    eq_bytes name username && eq_bytes secret password
has_login username password fields = false

abbrev pub logs_in : Text → Text → Text → Bool
logs_in username password entry =
    not (is_nil entry) && has_login username password (split_on colon entry)

abbrev pub any {ℓ} : {A : Type ℓ} → (A → Bool) → List A → Bool
any test [] = false
any test (x ∷ xs) = test x || any test xs

-- `checkCredentials`, on what the read of the file gave.
unfoldable pub check_credentials : Option Text → Text → Text → Bool
check_credentials none username password = false
check_credentials (some content) username password =
    any (logs_in username password) (split_on newline content)

-- `strings.TrimSpace(line) == ""`
abbrev pub is_blank : Text → Bool
is_blank [] = true
is_blank (c ∷ entry) = is_space c && is_blank entry

abbrev pub first_is : Text → List Text → Bool
first_is username [] = false
first_is username (name ∷ fields) = eq_bytes name username

-- Whether a line is of the user.
abbrev pub is_of : Text → Text → Bool
is_of username entry = not (is_blank entry) && first_is username (split_on colon entry)

-- `isUsernameUnique`
unfoldable pub is_username_unique : Option Text → Text → Bool
is_username_unique none username = false
is_username_unique (some content) username = not (any (is_of username) (split_on newline content))

abbrev pub count_users : List Text → ℕ
count_users [] = 0
count_users (entry ∷ entries) =
    let others = count_users entries in if is_blank entry then others else suc others

-- `findUID`
unfoldable pub find_uid : Option Text → Option ℕ
find_uid none = none
find_uid (some content) = some (1000 + count_users (split_on newline content))

abbrev pub homedir : Text → Text
homedir username =
    if eq_bytes username (codes "root") then codes "/root" else codes "/home/" ++ username

-- The line of a user, without its newline.
unfoldable pub user_line : Text → Text → ℕ → Text
user_line username password uid =
    username ++ (colon ∷ password ++ (colon ∷ decimal uid ++ (colon ∷ homedir username)))

abbrev or_nothing : Option Text → Text
or_nothing none = []
or_nothing (some content) = content

-- What `addUser` writes to the file; a failed read counts as an empty file.
unfoldable pub with_user : Option Text → Text → Text → ℕ → Text
unfolding user_line
with_user existing username password uid =
    or_nothing existing ++ (user_line username password uid ++ newline ∷ [])
