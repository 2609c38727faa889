-- ===== src/Examples/Logins.antt =====
-- The life of one session, under a clock whose texts are moments.
use sub_merge.Base.{
  ℕ, ◌*◌, ◌^◌, ◌≤◌, ◌≡◌, refl, true, false, Option, none, some, List, [], ◌∷◌, map, arith,
}
use sub_merge.Base.Text.{
  Text, str, eqb, eqb_iff, utf8, len, is_whitespace, drop_while, drop_end, trim,
}
use sub_merge.Base.Lists.{length}
use sub_merge.Server.Sessions.{
  Session, Clockwork, day, find_session, replies, create_session, validate_session,
  delete_all_sessions,
}
use sub_merge.Server.Sessions.Lifetime.{
  Validates, validate_session-Validates, validate_session-create, validate_session-expired,
}
use sub_merge.Server.Users.{
  User, Argon, find_user, create_user_if_empty, verify_user, set_hash, update_password,
  get_username, valid_username, SetupRequest, setup, Accounts, change_password,
}
use sub_merge.Server.Users.Change.{setup-first, change_password-relogin}
use sub_merge.Base.Result.{ok}

abbrev pub read_moment : Text → Option ℕ
read_moment (t ∷ []) = some t
read_moment _ = none

abbrev pub clock : Clockwork
clock = record {
  sha256_hex = λ s. s;
  to_rfc3339 = λ t. t ∷ [];
  parse_from_rfc3339 = read_moment;
  max_utc = 8210266876799 * 10 ^ 9;
  max_days = 106751991167;
}

abbrev pub used : Session
used = record { token_hash = str "t1"; created_at = 0 ∷ []; last_used_at = 0 ∷ [] }

validate_session-Validates_example :
    Validates clock 5 30 (str "t1") (used ∷ []) (validate_session clock 5 30 (str "t1") (used ∷ []))
validate_session-Validates_example = validate_session-Validates clock 5 30 (str "t1") (used ∷ [])

validate_session-create_example :
    (made renewed : List Session) × (create_session clock 7000000000 (str "t2") (used ∷ [])
      ≡ replies made (str "t2"))
    × (validate_session clock 8000000000 30 (str "t2") made ≡ replies renewed true)
unfolding find_session eqb
validate_session-create_example =
    validate_session-create clock 7000000000 8000000000 30 (str "t2") (used ∷ []) refl refl
      (omega arith) (omega arith)

validate_session-expired_example :
    (left : List Session) × (validate_session clock (2 * day) 1 (str "t1") (used ∷ [])
      ≡ replies left false)
    × ((at days : ℕ) → validate_session clock at days (str "t1") left ≡ replies left false)
unfolding find_session eqb
validate_session-expired_example =
    validate_session-expired clock (2 * day) 1 0 (str "t1") (used ∷ []) used refl refl (omega arith)
      (omega arith) (omega arith) (omega arith) (omega arith)

-- An argon2 that keeps the password as its hash.
abbrev pub plain_argon : Argon
plain_argon = record { hash_password = some; verify_password_hash = eqb }

plain_argon-accepts :
    (p h : Text)
    → plain_argon.hash_password p ≡ some h
    → plain_argon.verify_password_hash p h ≡ true
plain_argon-accepts p h e = (eqb_iff p h).1 (some-injective e)
  where
    some-injective : some p ≡ some h → p ≡ h
    some-injective q = ground arith

abbrev request : SetupRequest
request = record {
  username = str " root ";
  password = str "password1";
  password_confirm = str "password1";
}

abbrev pub root : User
root = record { username = str "root"; password_hash = str "password1"; created_at = str "now" }

request-accepted : setup plain_argon (str "now") request [] ≡ ok (root ∷ [])
unfolding setup create_user_if_empty valid_username trim drop_while drop_end is_whitespace utf8 eqb
request-accepted = refl

abbrev no_users : List User
no_users = []

setup-first_example :
    (no_users ≡ [])
    × (length (root ∷ []) ≡ 1)
    × (valid_username (trim request.username) ≡ true)
    × (8 ≤ len request.password)
    × (verify_user plain_argon (trim request.username) request.password (root ∷ []) ≡ true)
setup-first_example =
    setup-first plain_argon plain_argon-accepts (str "now") request no_users (root ∷ [])
      request-accepted

abbrev before_change : Accounts
before_change = record { users = root ∷ []; sessions = used ∷ [] }

abbrev after_change : Accounts
after_change = record { users = record root { password_hash = str "12345678" } ∷ []; sessions = [] }

change-accepted :
    change_password plain_argon (str "password1") (str "12345678") before_change ≡ ok after_change
unfolding change_password verify_user update_password find_user set_hash delete_all_sessions utf8
    eqb
change-accepted = refl

change_password-relogin_example :
    (name : Text) × (get_username before_change.users ≡ some name)
    × (verify_user plain_argon name (str "password1") before_change.users ≡ true)
    × (8 ≤ len (str "12345678"))
    × (map (λ u. u.username) after_change.users ≡ map (λ u. u.username) before_change.users)
    × (after_change.sessions ≡ [])
    × (verify_user plain_argon name (str "12345678") after_change.users ≡ true)
change_password-relogin_example =
    change_password-relogin plain_argon plain_argon-accepts (str "password1") (str "12345678")
      before_change after_change change-accepted
