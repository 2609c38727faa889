-- ===== src/Protocols/Socks5.antt =====
-- crates/proxy-core/src/protocols/socks5.rs.
use sub_merge.Base.{Bool, Option, none, some, [], ◌∷◌, ◌++◌}
use sub_merge.Base.Text.{Text, str, starts_with, strip_prefix}
use sub_merge.Base.Split.{split_once}
use sub_merge.Base.Decimal.{to_string}
use sub_merge.Base.Result.{ok, ◌>>=◌, ◌>>◌}
use sub_merge.Crates.{Crates}
use sub_merge.Error.{unsupported_protocol, invalid_uri, Parsed, require, Serialized}
use sub_merge.Model.{socks5, ProxyNode, new_node}
use sub_merge.Uri.{percent_decode, split_authority, parse_host_port}
use sub_merge.Protocols.Parts.{cut, or_default, check_kind, fragment}

unfoldable pub is_socks5 : Text → Bool
is_socks5 uri = starts_with uri (str "socks5://")

unfoldable pub split_userpass : Crates → Text → Parsed (Text × Text)
split_userpass k s = do
  (u, p) ← require (split_once b':' s) (invalid_uri s)
  user ← percent_decode k u
  password ← percent_decode k p
  ok (user, password)

-- `None` for an empty userinfo.
unfoldable pub userpass : Crates → Text → Parsed (Option Text)
unfolding split_userpass
userpass k [] = ok none
userpass k (c ∷ s) = do (user, password) ← split_userpass k (c ∷ s); ok (some password)

unfoldable pub parse_socks5 : Crates → Text → Parsed ProxyNode
unfolding userpass
parse_socks5 k uri = do
  rest ← require (strip_prefix (str "socks5://") uri) unsupported_protocol
  let (auth, fragment) = cut b'#' rest
  let (userinfo, hostport) = split_authority auth
  (server, port) ← parse_host_port hostport
  password ← userpass k userinfo
  ok (record (new_node (or_default fragment) socks5 server port) { password = password })

-- The server stands for the user, whose name a node does not keep.
abbrev credentials : ProxyNode → Text
credentials node = elim node.password [
  | none ↦ []
  | some p ↦ node.server ++ (b':' ∷ (p ++ b'@' ∷ []))
]

unfoldable pub serialize_socks5 : ProxyNode → Serialized Text
serialize_socks5 node = do
  check_kind socks5 node
  ok (
      str "socks5://"
      ++ (credentials node
          ++ (node.server ++ (b':' ∷ (to_string node.port ++ fragment node.name)))))
