-- ===== src/Server/Auth/Admin.antt =====
-- crates/server/src/auth.rs: `require_admin`.
use sub_merge.Server.Store.Action.{Action, ◌>>=◌, answer, raise, on_sessions, raise_if}
use sub_merge.Base.{not}
use sub_merge.Base.Text.{Text, str}
use sub_merge.Base.Result.{Result, err, ok}
use sub_merge.Server.ApiError.{unauthorized}
use sub_merge.Server.Sessions.{validate_session}
use sub_merge.Server.Auth.{parse_bearer}
use sub_merge.Server.App.{App, Call}

abbrev pub bearer_or_unauthorized : Result Text Text → Action Text
bearer_or_unauthorized (ok token) = answer token
bearer_or_unauthorized (err msg) = raise (unauthorized msg)

unfoldable pub require_admin : App → Call → Action (Unit {0})
require_admin app call = do
  token ← bearer_or_unauthorized (parse_bearer call.headers)
  valid ← on_sessions (validate_session app.clock call.now app.session_ttl_days token)
  raise_if (not valid) (unauthorized (str "invalid session"))
