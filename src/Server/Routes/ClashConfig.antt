-- ===== src/Server/Routes/ClashConfig.antt =====
-- crates/server/src/routes/clash_config.rs: the template of the Clash output.
use sub_merge.Server.Store.Action.{Action, ◌>>=◌, ◌>>◌, answer, raise, select, raise_if, modify}
use sub_merge.Base.{◌⊎◌, inl, inr, Bool, true, false, not, Option, none, some, List, ◌++◌}
use sub_merge.Base.Text.{Text, str}
use sub_merge.Base.Result.{Result}
use sub_merge.Crates.{Yaml}
use sub_merge.Server.ApiError.{Rejection, bad_request}
use sub_merge.Server.Auth.Admin.{require_admin}
use sub_merge.Server.App.{App, Call}
use sub_merge.Server.Store.{get_setting, set_setting}
use sub_merge.Server.Routes.Auth.{json_body}
use sub_merge.Server.Routes.Template.{default_template}

abbrev pub template_key : Text
template_key = str "clash_template"

abbrev pub or_default : Option Text → Text
or_default (some t) = t
or_default none = default_template

-- The template in force.
unfoldable pub template_of : List (Text × Text) → Text
template_of rows = or_default (get_setting template_key rows)

unfoldable pub get_clash_config : App → Call → Action Text
get_clash_config app call = do require_admin app call; select (λ st. template_of st.settings)

-- `v.is_mapping()`
abbrev pub is_mapping : Yaml → Bool
is_mapping (Yaml.mapping es) = true
is_mapping _ = false

abbrev pub parsed_or_bad : Text ⊎ Yaml → Action Yaml
parsed_or_bad (inl e) = raise (bad_request (str "invalid YAML: " ++ e))
parsed_or_bad (inr v) = answer v

-- The body is the template.
unfoldable pub put_clash_config : App → Call → Result Rejection Text → Action Text
put_clash_config app call body = do
  require_admin app call
  template ← json_body body
  v ← parsed_or_bad (app.crates.yaml_from_str template)
  raise_if (not (is_mapping v)) (bad_request (str "template must be a YAML mapping"))
  modify (λ st. record st { settings = set_setting template_key template st.settings })
  answer template
