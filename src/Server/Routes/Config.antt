-- ===== src/Server/Routes/Config.antt =====
-- crates/server/src/routes/config.rs: the password and the form of the v2ray output.
use sub_merge.Server.Users
use sub_merge.Server.Store.Action.{Action, ◌>>=◌, ◌>>◌, answer, select, lift, found_or, modify}
use sub_merge.Base.{Bool, true, not, Option, none, some, List}
use sub_merge.Base.Text.{Text, str, eqb}
use sub_merge.Base.Result.{Result}
use sub_merge.Base.Tests.{if◌then◌else◌}
use sub_merge.Server.ApiError.{Rejection, internal}
use sub_merge.Server.Users.{get_username, Accounts}
use sub_merge.Server.Auth.Admin.{require_admin}
use sub_merge.Server.App.{App, Call}
use sub_merge.Server.Store.{get_setting, set_setting}
use sub_merge.Server.Routes.Auth.{json_body}

abbrev pub v2ray_b64_key : Text
v2ray_b64_key = str "v2ray_base64"

pub record ConfigDto : Type 0 where
  pub username : Text
  pub v2ray_base64 : Bool

pub record ChangePassword : Type 0 where
  pub old : Text
  pub new : Text

pub record UpdateConfig : Type 0 where
  pub change_password : Option ChangePassword
  pub v2ray_base64 : Option Bool

-- `get_setting(…).as_deref() != Some("0")`
abbrev pub not_zero : Option Text → Bool
not_zero none = true
not_zero (some v) = not (eqb v (str "0"))

-- The v2ray output is base64 unless it was switched off.
unfoldable pub base64_wanted : List (Text × Text) → Bool
base64_wanted rows = not_zero (get_setting v2ray_b64_key rows)

unfoldable pub config_dto : Action ConfigDto
config_dto = do
  name ← (λ st. found_or (internal (str "no admin user")) (get_username st.users) st)
  select (λ st. record { username = name; v2ray_base64 = base64_wanted st.settings })

unfoldable pub get_config : App → Call → Action ConfigDto
get_config app call = do require_admin app call; config_dto

abbrev pub accounts_written : Accounts → Action (Unit {0})
accounts_written a = modify (λ st. record st { users = a.users; sessions = a.sessions })

-- The part of `update_config` under `change_password`.
unfoldable pub update_password_part : App → Option ChangePassword → Action (Unit {0})
update_password_part app none = answer tt
update_password_part app (some cp) = do
  a ← (λ st.
      lift
        (Users.change_password app.argon cp.old cp.new
          (record { users = st.users; sessions = st.sessions }))
        st)
  accounts_written a

-- The part under `v2ray_base64`.
unfoldable pub update_base64_part : Option Bool → Action (Unit {0})
update_base64_part none = answer tt
update_base64_part (some v) = modify (λ st. record st {
  settings = set_setting v2ray_b64_key (if v then str "1" else str "0") st.settings;
})

unfoldable pub update_config : App → Call → Result Rejection UpdateConfig → Action ConfigDto
update_config app call body = do
  require_admin app call
  b ← json_body body
  update_password_part app b.change_password
  update_base64_part b.v2ray_base64
  config_dto
