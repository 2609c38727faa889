-- ===== src/Server/Routes/Auth.antt =====
-- crates/server/src/routes/auth.rs: the set-up, the login and the logout.
use sub_merge.Server.Store.Action.{
  Action, ◌>>=◌, ◌>>◌, answer, raise, select, lift, found_or, on_sessions, raise_if, modify,
}
use sub_merge.Base.{Bool, not}
use sub_merge.Base.Text.{Text, str, trim}
use sub_merge.Base.Result.{Result, err, ok}
use sub_merge.Server.ApiError.{Rejection, unauthorized, invalid_json}
use sub_merge.Server.Sessions.{create_session, delete_session}
use sub_merge.Server.Users.{users_empty, verify_user, SetupRequest, setup}
use sub_merge.Server.Auth.{extract_bearer}
use sub_merge.Server.App.{App, Call, now_text}

-- `body.map_err(ApiError::from)?`
abbrev pub json_body : {A : Type 0} → Result Rejection A → Action A
json_body (ok b) = answer b
json_body (err r) = raise (invalid_json r)

pub record LoginRequest : Type 0 where
  pub username : Text
  pub password : Text

-- Whether the set-up is still to do: the test of `users_empty`.
unfoldable pub setup_status : Action Bool
setup_status = select (λ st. users_empty st.users)

-- The name of the new administrator.
unfoldable pub setup_route : App → Call → Result Rejection SetupRequest → Action Text
setup_route app call body = do
  b ← json_body body
  users ← (λ st. lift (setup app.argon (now_text app call) b st.users) st)
  modify (λ st. record st { users = users })
  answer (trim b.username)

-- A token.
unfoldable pub login : App → Call → Result Rejection LoginRequest → Action Text
login app call body = do
  b ← json_body body
  known ← select (λ st. verify_user app.argon (trim b.username) b.password st.users)
  raise_if (not known) (unauthorized (str "invalid username or password"))
  on_sessions (create_session app.clock call.now call.fresh_token)

unfoldable pub logout : App → Call → Action (Unit {0})
logout app call = do
  token ← found_or (unauthorized (str "missing authorization header")) (extract_bearer call.headers)
  modify (λ st. record st { sessions = delete_session app.clock token st.sessions })
