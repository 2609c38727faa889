-- ===== src/Protocols/Http.antt =====
-- crates/proxy-core/src/protocols/http.rs.
use sub_merge.Base.{Bool, Option, none, some, [], ◌∷◌, ◌++◌}
use sub_merge.Base.Text.{Text, str, starts_with, strip_prefix}
use sub_merge.Base.Split.{split_once}
use sub_merge.Base.Decimal.{to_string}
use sub_merge.Base.Result.{ok, ◌>>=◌, ◌>>◌}
use sub_merge.Crates.{Crates}
use sub_merge.Error.{unsupported_protocol, invalid_uri, Parsed, require, Serialized}
use sub_merge.Model.{http, ProxyNode, new_node}
use sub_merge.Uri.{percent_decode, split_authority, parse_host_port}
use sub_merge.Protocols.Parts.{cut, or_default, check_kind, fragment}

unfoldable pub is_http : Text → Bool
is_http uri = starts_with uri (str "http://")

-- `None` for an empty userinfo, else what stands behind the first colon.
unfoldable pub http_password : Crates → Text → Parsed (Option Text)
http_password k [] = ok none
http_password k (c ∷ s) = do
  (user, p) ← require (split_once b':' (c ∷ s)) (invalid_uri (c ∷ s))
  password ← percent_decode k p
  ok (some password)

unfoldable pub parse_http : Crates → Text → Parsed ProxyNode
unfolding http_password
parse_http k uri = do
  rest ← require (strip_prefix (str "http://") uri) unsupported_protocol
  let (auth, fragment) = cut b'#' rest
  let (userinfo, hostport) = split_authority auth
  (server, port) ← parse_host_port hostport
  password ← http_password k userinfo
  ok (record (new_node (or_default fragment) http server port) { password = password })

abbrev credentials : ProxyNode → Text
credentials node = elim node.password [
  | none ↦ []
  | some p ↦ node.server ++ (b':' ∷ (p ++ b'@' ∷ []))
]

unfoldable pub serialize_http : ProxyNode → Serialized Text
serialize_http node = do
  check_kind http node
  ok (
      str "http://"
      ++ (credentials node
          ++ (node.server ++ (b':' ∷ (to_string node.port ++ fragment node.name)))))
