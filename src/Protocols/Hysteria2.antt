-- ===== src/Protocols/Hysteria2.antt =====
-- crates/proxy-core/src/protocols/hysteria2.rs.
pub mod RoundTrip
use sub_merge.Base.{Bool, ◌||◌, Option, none, some, [], ◌∷◌, ◌++◌}
use sub_merge.Base.Tests.{if◌then◌else◌}
use sub_merge.Base.Text.{Text, str, eqb, starts_with, strip_prefix}
use sub_merge.Base.Decimal.{to_string}
use sub_merge.Base.Result.{ok, ◌>>=◌, ◌>>◌}
use sub_merge.Crates.{Crates}
use sub_merge.Error.{unsupported_protocol, Parsed, require, Serialized}
use sub_merge.Model.{hysteria2, ProxyNode, new_node}
use sub_merge.Uri.{percent_decode, urlencode, split_authority, parse_host_port}
use sub_merge.Protocols.Parts.{
  cut, or_default, or_else, check_kind, fragment, query_suffix, truthy, read_query,
}
use sub_merge.Protocols.Hysteria.{QuicQuery, no_quic_query, quic_tls, hysteria_tls}

unfoldable pub is_hysteria2 : Text → Bool
is_hysteria2 uri = starts_with uri (str "hysteria2://") || starts_with uri (str "hy2://")

unfoldable pub hysteria2_param : QuicQuery → Text → Text → QuicQuery
hysteria2_param q key v =
    if eqb key (str "sni")
    then record q { sni = some v }
    else if eqb key (str "alpn")
    then record q { alpn = v ∷ [] }
    else if eqb key (str "insecure")
    then record q { insecure = truthy v }
    else q

-- `None` for an empty userinfo.
unfoldable pub decoded_userinfo : Crates → Text → Parsed (Option Text)
decoded_userinfo k [] = ok none
decoded_userinfo k (c ∷ s) = do password ← percent_decode k (c ∷ s); ok (some password)

unfoldable pub parse_hysteria2 : Crates → Text → Parsed ProxyNode
parse_hysteria2 k uri = do
  rest ←
      require (or_else (strip_prefix (str "hysteria2://") uri) (strip_prefix (str "hy2://") uri))
        unsupported_protocol
  let (auth_query, fragment) = cut b'#' rest
  let (userinfo, host_query) = split_authority auth_query
  let (hostpart, query) = cut b'?' host_query
  (server, port) ← parse_host_port hostpart
  password ← decoded_userinfo k userinfo
  ok (record (new_node (or_default fragment) hysteria2 server port) {
    password = password;
    tls = some (quic_tls (read_query k hysteria2_param no_quic_query query));
  })

unfoldable pub serialize_hysteria2 : Crates → ProxyNode → Serialized Text
serialize_hysteria2 k node = do
  check_kind hysteria2 node
  ok (
      str "hysteria2://"
      ++ (urlencode k (or_default node.password)
          ++ (b'@'
              ∷ (node.server
                  ++ (b':'
                      ∷ (to_string node.port
                          ++ (query_suffix (hysteria_tls k node.tls) ++ fragment node.name)))))))
