-- ===== src/Server/Auth.antt =====
-- crates/server/src/auth.rs: the token of a request; its child holds the check of the session.
use sub_merge.Base.{Option, none, some}
use sub_merge.Base.Text.{Text, str, strip_prefix}
use sub_merge.Base.Result.{Result, err, ok, ok_or, ◌>>=◌, ◌>>◌}
pub mod Admin

-- The headers of a request by lower-case name: absent, or there, with its text if it is one.
abbrev pub Headers : Type 0
Headers = Text → Option (Option Text)

unfoldable pub parse_bearer : Headers → Result Text Text
parse_bearer headers = do
  auth ← ok_or (headers (str "authorization")) (str "missing authorization header")
  auth_str ← ok_or auth (str "invalid authorization header")
  ok_or (strip_prefix (str "Bearer ") auth_str) (str "expected Bearer token")

unfoldable pub extract_bearer : Headers → Option Text
extract_bearer headers = elim (parse_bearer headers) [ ok token ↦ some token | err msg ↦ none ]
