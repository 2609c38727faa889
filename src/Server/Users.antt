-- ===== src/Server/Users.antt =====
-- crates/server/src/db.rs, the table of users, and the handlers of crates/server/src/routes/auth.rs
-- and routes/config.rs that change it. The queries succeed.
pub mod Change
use sub_merge.Base.{ℕ, Bool, true, false, not, ◌&&◌, ◌||◌, Option, none, some, List, [], ◌∷◌, ◌++◌}
use sub_merge.Base.Tests.{ltb, leb, ◌==◌, within, if◌then◌else◌}
use sub_merge.Base.Text.{Text, str, eqb, is_empty, len, trim}
use sub_merge.Base.Lists.{all}
use sub_merge.Base.Result.{Result, err, ok, ok_or, ◌>>=◌, ◌>>◌}
use sub_merge.Server.Sessions.{Session, delete_all_sessions}
use sub_merge.Server.ApiError.{ApiError, conflict, bad_request, internal}

pub record User : Type 0 where
  pub username : Text
  pub password_hash : Text
  pub created_at : Text

-- What the module uses of argon2, under the salt of the call: hashing, which may fail, and the
-- test of a password against a stored hash, false where the hash does not parse.
pub record Argon : Type 0 where
  pub hash_password : Text → Option Text
  pub verify_password_hash : Text → Text → Bool

abbrev pub hash_failed : ApiError
hash_failed = internal (str "argon2 hash failed")

abbrev pub users_empty : List User → Bool
users_empty [] = true
users_empty (u ∷ us) = false

unfoldable pub find_user : Text → List User → Option User
find_user name [] = none
find_user name (u ∷ us) = if eqb u.username name then some u else find_user name us

-- `INSERT … WHERE NOT EXISTS (SELECT 1 FROM users)`: whether a row was inserted.
abbrev pub insert_if_empty : User → List User → List User × Bool
insert_if_empty u [] = (u ∷ [], true)
insert_if_empty u (v ∷ vs) = (v ∷ vs, false)

unfoldable pub create_user_if_empty :
    Argon → Text → Text → Text → List User → Result ApiError (List User × Bool)
create_user_if_empty a now name password us = do
  hash ← ok_or (a.hash_password password) hash_failed
  ok (insert_if_empty (record { username = name; password_hash = hash; created_at = now }) us)

-- The password of an unknown user is checked against a constant hash and the answer dropped.
abbrev pub verified : Argon → Text → Option User → Bool
verified a password none = false
verified a password (some u) = a.verify_password_hash password u.password_hash

unfoldable pub verify_user : Argon → Text → Text → List User → Bool
unfolding find_user
verify_user a name password us = verified a password (find_user name us)

-- `UPDATE users SET password_hash = ? WHERE username = ?`
unfoldable pub set_hash : Text → Text → List User → List User
set_hash hash name [] = []
set_hash hash name (u ∷ us) =
    let rest = set_hash hash name us in
    if eqb u.username name then record u { password_hash = hash } ∷ rest else u ∷ rest

unfoldable pub update_password : Argon → Text → Text → List User → Result ApiError (List User)
unfolding find_user set_hash
update_password a name password us = do
  hash ← ok_or (a.hash_password password) hash_failed
  found ← ok_or (find_user name us) (internal (str "no user with username " ++ name))
  ok (set_hash hash name us)

-- `SELECT username FROM users LIMIT 1`
abbrev pub get_username : List User → Option Text
get_username [] = none
get_username (u ∷ us) = some u.username

is_name_char : ℕ → Bool
is_name_char c =
    within b'0' b'9' c || (within b'a' b'z' c || (within b'A' b'Z' c || (c == b'-' || c == b'_')))

unfoldable pub valid_username : Text → Bool
unfolding is_name_char
valid_username s = let t = trim s in not (is_empty t) && (leb (len t) 64 && all is_name_char t)

pub record SetupRequest : Type 0 where
  pub username : Text
  pub password : Text
  pub password_confirm : Text

abbrev pub created_or_conflict : List User × Bool → Result ApiError (List User)
created_or_conflict (us, true) = ok us
created_or_conflict (us, false) = err (conflict (str "admin user already exists"))

-- `setup`: the table behind it, or the error, on which the table stays as it was.
unfoldable pub setup : Argon → Text → SetupRequest → List User → Result ApiError (List User)
unfolding valid_username
setup a now b us =
    let name = trim b.username in
    if not (valid_username name)
    then err (bad_request (str "username must match [A-Za-z0-9-_] (1-64 chars)"))
    else if ltb (len b.password) 8
    then err (bad_request (str "password must be at least 8 characters"))
    else if not (eqb b.password b.password_confirm)
    then err (bad_request (str "passwords do not match"))
    else (do created ← create_user_if_empty a now name b.password us; created_or_conflict created)

-- The users and the sessions.
pub record Accounts : Type 0 where
  pub users : List User
  pub sessions : List Session

-- `update_config` under `change_password`, behind the authentication.
unfoldable pub change_password : Argon → Text → Text → Accounts → Result ApiError Accounts
unfolding verify_user update_password
change_password a old new st = do
  name ← ok_or (get_username st.users) (internal (str "no admin user"))
  (if not (verify_user a name old st.users)
      then err (bad_request (str "old password is incorrect"))
      else if ltb (len new) 8
      then err (bad_request (str "password must be at least 8 characters"))
      else (do
        users ← update_password a name new st.users
        ok (record { users = users; sessions = delete_all_sessions st.sessions })))
