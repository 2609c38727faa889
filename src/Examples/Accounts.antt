-- ===== src/Examples/Accounts.antt =====
-- A login and a logout at the server of Examples.World.
use sub_merge.Server.Store.Action.{answered}
use sub_merge.Base.{◌≡◌, refl, true, [], ◌∷◌, arith}
use sub_merge.Base.Text.{Text, str, eqb, strip_prefix, is_whitespace, drop_while, drop_end, trim}
use sub_merge.Base.Result.{ok}
use sub_merge.Server.Sessions.{find_session, delete_hash, create_session, delete_session}
use sub_merge.Server.Users.{find_user, verify_user}
use sub_merge.Server.Auth.{parse_bearer, extract_bearer}
use sub_merge.Server.Store.{Store}
use sub_merge.Server.Routes.Auth.{LoginRequest, login, logout}
use sub_merge.Server.Router.Logins.{LogsIn, login-LogsIn, LogsOut, logout-LogsOut}
use sub_merge.Examples.World.{session, app, admin, world}

abbrev login_request : LoginRequest
login_request = record { username = str "root"; password = str "password1" }

abbrev logged_in : Store
logged_in = record world {
  sessions =
      session ∷ record { token_hash = str "t2"; created_at = 0 ∷ []; last_used_at = 0 ∷ [] } ∷ [];
}

login-answered : login app admin (ok login_request) world ≡ answered logged_in (str "t2")
unfolding login verify_user find_user create_session find_session eqb trim drop_while drop_end
    is_whitespace
login-answered = refl

login-LogsIn_example :
    (verify_user app.argon (trim login_request.username) login_request.password world.users ≡ true)
    × LogsIn app admin world logged_in (str "t2")
unfolding find_session eqb
login-LogsIn_example =
    login-LogsIn app admin login_request world logged_in (str "t2") refl refl (omega arith)
      login-answered

abbrev logged_out : Store
logged_out = record world { sessions = [] }

logout-answered : logout app admin world ≡ answered logged_out tt
unfolding logout extract_bearer parse_bearer strip_prefix delete_session delete_hash eqb
logout-answered = refl

logout-LogsOut_example :
    (secret : Text) × (parse_bearer admin.headers ≡ ok secret) × LogsOut app secret world logged_out
logout-LogsOut_example = logout-LogsOut app admin world logged_out tt logout-answered
