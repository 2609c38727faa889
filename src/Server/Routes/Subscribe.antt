-- ===== src/Server/Routes/Subscribe.antt =====
-- crates/server/src/routes/subscribe.rs: the subscription of a client, without a session.
use sub_merge.Server.Store.Action.{Action, ◌>>=◌, ◌>>◌, answer, raise, select, found_or, raise_if}
use sub_merge.Base.{ℕ, Bool, false, not, ◌&&◌, Option, none, some, ◌++◌, map}
use sub_merge.Base.Text.{Text, str, eqb}
use sub_merge.Base.Result.{Result, err, ok}
use sub_merge.Base.Tests.{if◌then◌else◌}
use sub_merge.Base.Split.{join}
use sub_merge.Base.Lists.{is_empty_list}
use sub_merge.Error.{SerializeError, unsupported, missing, invalid_template, Serialized}
use sub_merge.Formats.{OutputFormat, clash, v2ray, output_format_from_str, serialize_nodes}
use sub_merge.Formats.V2ray.{serialize_v2ray_plain}
use sub_merge.Formats.Template.{serialize_clash_subscription}
use sub_merge.Server.ApiError.{Rejection, bad_request, internal, bad_gateway}
use sub_merge.Server.Service.{Merged}
use sub_merge.Server.Combineds.{find_name, member_ids}
use sub_merge.Server.Auth.{Headers}
use sub_merge.Server.App.{App, Call}
use sub_merge.Server.Routes.Config.{base64_wanted}
use sub_merge.Server.Routes.ClashConfig.{template_of}
use sub_merge.Server.Routes.Combineds.{no_combined}
use sub_merge.Server.Routes.Preview.{query, error_line}

pub record SubscribeQuery : Type 0 where
  pub format : Option Text

-- `to_string()` of the error
unfoldable pub serialize_error_text : SerializeError → Text
serialize_error_text (unsupported s) = str "unsupported protocol for this format: " ++ s
serialize_error_text (missing s) = str "missing required field: " ++ s
serialize_error_text (invalid_template s) = str "invalid clash template: " ++ s

-- `.map_err(|e| ApiError::internal(e.to_string()))?`
abbrev pub or_internal : Serialized Text → Action Text
or_internal (ok t) = answer t
or_internal (err e) = raise (internal (serialize_error_text e))

unfoldable pub format_of : Option Text → Action OutputFormat
format_of none = answer clash
format_of (some f) = found_or (bad_request (str "unsupported format")) (output_format_from_str f)

abbrev pub to_str : Option (Option Text) → Option Text
to_str (some (some t)) = some t
to_str _ = none

abbrev pub is_https : Option Text → Bool
is_https none = false
is_https (some t) = eqb t (str "https")

unfoldable pub scheme_of : Headers → Text
scheme_of headers =
    if is_https (to_str (headers (str "x-forwarded-proto"))) then str "https" else str "http"

abbrev pub provider_url : Text → Text → Text → Text
provider_url scheme host name =
    scheme ++ (str "://" ++ (host ++ (str "/subscribe/" ++ (name ++ str "?format=v2ray"))))

-- The Clash branch: the template with a provider that points back to the v2ray subscription.
unfoldable pub clash_body : App → Call → Text → Action Text
clash_body app call name = do
  host ← found_or (bad_request (str "missing Host header")) (to_str (call.headers (str "host")))
  template ← select (λ st. template_of st.settings)
  or_internal (
      serialize_clash_subscription app.crates template name
        (provider_url (scheme_of call.headers) host name))

-- Whether every source has failed.
abbrev pub all_failed : Merged → Bool
all_failed m = is_empty_list m.nodes && not (is_empty_list m.errors)

-- The v2ray branch.
unfoldable pub v2ray_body : App → Merged → Action Text
v2ray_body app m = do
  raise_if (all_failed m)
      (bad_gateway (str "all sources failed: " ++ join (str "; ") (map error_line m.errors)))
  wanted ← select (λ st. base64_wanted st.settings)
  or_internal (
      if wanted
      then serialize_nodes app.crates m.nodes v2ray
      else serialize_v2ray_plain app.crates m.nodes)

unfoldable pub body_in : App → Call → Text → ℕ → OutputFormat → Action Text
body_in app call name id clash = clash_body app call name
body_in app call name id v2ray = do
  m ← select (λ st. call.merge (some (member_ids id st.members)) st.sources)
  v2ray_body app m

-- The text of the answer; the name is that of the path.
unfoldable pub subscribe_handler : App → Call → Text → Result Rejection SubscribeQuery → Action Text
subscribe_handler app call name q = do
  p ← query q
  c ← (λ st. found_or no_combined (find_name name st.combineds) st)
  format ← format_of p.format
  body_in app call name c.id format
