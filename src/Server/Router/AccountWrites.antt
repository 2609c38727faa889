-- ===== src/Server/Router/AccountWrites.antt =====
-- What the requests on the administrator, the sessions and the settings write.
use sub_merge.Server.Store.Action.{◌>>=◌, answer, on_reply, raise_if, modify}
use sub_merge.Base.{sym, subst, ◌⊎◌, inl, inr, Bool, not, Option, none, some}
use sub_merge.Base.Text.{Text, str, trim}
use sub_merge.Base.Result.{Result}
use sub_merge.Server.ApiError.{Rejection, bad_request}
use sub_merge.Server.Sessions.{Reply, replies, refuses, panics, create_session}
use sub_merge.Server.Users.{verify_user, get_username, SetupRequest, setup, change_password}
use sub_merge.Server.Auth.{extract_bearer}
use sub_merge.Server.App.{App, Call, now_text}
use sub_merge.Server.Store.{Store, set_setting}
use sub_merge.Server.Store.Step.{Step, Steps}
use sub_merge.Server.Routes.Auth.{LoginRequest, setup_route, login, logout}
use sub_merge.Server.Routes.Config.{
  ChangePassword, UpdateConfig, config_dto, get_config, update_password_part, update_base64_part,
  update_config,
}
use sub_merge.Server.Routes.ClashConfig.{
  template_key, get_clash_config, is_mapping, parsed_or_bad, put_clash_config,
}
use sub_merge.Server.Users.Change.{setup-inserts, change_password-sets}
use sub_merge.Crates.{Yaml}
use sub_merge.Server.Router.Rules.{
  Writes, continued, bind-Writes, body-Writes, lift-Writes, found-Writes, pass-Writes, admin-Writes,
  one,
}
use sub_merge.Server.Users

module _ (app : App) (call : Call) (st : Store) where
  pub setup-Writes :
      (body : Result Rejection SetupRequest) → Writes st (setup_route app call body st)
  unfolding setup_route
  setup-Writes body = body-Writes st body _ λ b.
      lift-Writes st (setup app.argon (now_text app call) b st.users) _ λ us e.
        let (u, v, q) = setup-inserts app.argon (now_text app call) b st.users us e in
        subst (λ us. Steps st (record st { users = us })) (sym q) (one (Step.inserts_user u v))

  pub login-Writes : (body : Result Rejection LoginRequest) → Writes st (login app call body st)
  unfolding login
  login-Writes body = body-Writes st body _ λ b.
      pass-Writes st (not (verify_user app.argon (trim b.username) b.password st.users)) _ _
        λ v. made (create_session app.clock call.now call.fresh_token st.sessions)
    where
      made : (r : Reply Text) → Writes st (on_reply r st)
      made (replies ss a) = one (Step.writes_sessions ss)
      made (refuses ss) = one (Step.writes_sessions ss)
      made panics = Steps.here

  pub logout-Writes : Writes st (logout app call st)
  unfolding logout
  logout-Writes =
      found-Writes st (extract_bearer call.headers) _ _ λ t e. one (Step.writes_sessions _)

  pub config_dto-Writes : Writes st (config_dto st)
  unfolding config_dto
  config_dto-Writes = found-Writes st (get_username st.users) _ _ λ n e. Steps.here

  pub password-Writes : (o : Option ChangePassword) → Writes st (update_password_part app o st)
  unfolding update_password_part
  password-Writes none = Steps.here
  password-Writes (some cp) =
      lift-Writes st
        (Users.change_password app.argon cp.old cp.new
          (record { users = st.users; sessions = st.sessions }))
        _
        λ a e.
          let (hash, name, q) = change_password-sets app.argon cp.old cp.new _ a e in
          subst (λ us. Steps st (record st { users = us; sessions = a.sessions })) (sym q)
            (Steps.next (one (Step.sets_hash hash name)) (Step.writes_sessions a.sessions))

  pub base64-Writes : (o : Option Bool) → Writes st (update_base64_part o st)
  unfolding update_base64_part
  base64-Writes none = Steps.here
  base64-Writes (some v) = one (Step.writes_settings _)

module _ (app : App) (call : Call) (st : Store) where
  pub get_config-Writes : Writes st (get_config app call st)
  unfolding get_config
  get_config-Writes = admin-Writes st app call _ λ s1. config_dto-Writes app call s1

  pub update_config-Writes :
      (body : Result Rejection UpdateConfig) → Writes st (update_config app call body st)
  unfolding update_config
  update_config-Writes body = admin-Writes st app call _ λ s1. body-Writes s1 body _ λ b.
      bind-Writes s1 (update_password_part app b.change_password s1) _
        (password-Writes app call s1 b.change_password)
        λ s2 u e.
          bind-Writes s2 (update_base64_part b.v2ray_base64 s2) _
            (base64-Writes app call s2 b.v2ray_base64) λ s3 v f. config_dto-Writes app call s3

  pub get_clash_config-Writes : Writes st (get_clash_config app call st)
  unfolding get_clash_config
  get_clash_config-Writes = admin-Writes st app call _ λ s1. Steps.here

  pub put_clash_config-Writes :
      (body : Result Rejection Text) → Writes st (put_clash_config app call body st)
  unfolding put_clash_config
  put_clash_config-Writes body =
      admin-Writes st app call _
        λ s1. body-Writes s1 body _ λ t. parsed s1 t (app.crates.yaml_from_str t)
    where
      parsed :
          (s1 : Store) (t : Text) (r : Text ⊎ Yaml)
          → Writes s1 (
              continued
                (λ v.
                  raise_if
                    (not (is_mapping v))
                    (bad_request (str "template must be a YAML mapping"))
                  >>= (λ u.
                      modify (λ st. record st { settings = set_setting template_key t st.settings })
                      >>= (λ w. answer t)))
                (parsed_or_bad r s1))
      parsed s1 t (inl e) = Steps.here
      parsed s1 t (inr v) =
          pass-Writes s1 (not (is_mapping v)) _ _ λ m. one (Step.writes_settings _)
