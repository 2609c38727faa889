-- ===== src/Protocols/Tuic.antt =====
-- crates/proxy-core/src/protocols/tuic.rs.
pub mod RoundTrip
use sub_merge.Base.{Bool, not, ◌||◌, Option, none, some, List, [], ◌∷◌, ◌++◌}
use sub_merge.Base.Tests.{if◌then◌else◌}
use sub_merge.Base.Lists.{is_empty_list}
use sub_merge.Base.Text.{Text, str, eqb, starts_with, strip_prefix}
use sub_merge.Base.Split.{split_once, join}
use sub_merge.Base.Decimal.{to_string}
use sub_merge.Base.Result.{ok, ◌>>=◌, ◌>>◌}
use sub_merge.Crates.{Crates}
use sub_merge.Error.{unsupported_protocol, missing_field, Parsed, require, Serialized}
use sub_merge.Model.{tuic, TlsSettings, ProxyNode, new_node}
use sub_merge.Uri.{percent_decode, urlencode, split_authority, parse_host_port}
use sub_merge.Protocols.Parts.{
  cut, or_default, check_kind, fragment, when, each, push_params, truthy, comma_list, read_query,
}
use sub_merge.Protocols.Hysteria.{QuicQuery, no_quic_query, quic_tls}

unfoldable pub is_tuic : Text → Bool
is_tuic uri = starts_with uri (str "tuic://")

unfoldable pub tuic_param : QuicQuery → Text → Text → QuicQuery
tuic_param q key v =
    if eqb key (str "sni")
    then record q { sni = some v }
    else if eqb key (str "alpn")
    then record q { alpn = comma_list v }
    else if eqb key (str "allow_insecure") || eqb key (str "insecure")
    then record q { insecure = truthy v }
    else q

unfoldable pub parse_tuic : Crates → Text → Parsed ProxyNode
parse_tuic k uri = do
  rest ← require (strip_prefix (str "tuic://") uri) unsupported_protocol
  let (auth_query, fragment) = cut b'#' rest
  let (userinfo, host_query) = split_authority auth_query
  let (hostpart, query) = cut b'?' host_query
  (server, port) ← parse_host_port hostpart
  (uuid, encoded) ← require (split_once b':' userinfo) (missing_field (str "uuid"))
  password ← percent_decode k encoded
  ok (record (new_node (or_default fragment) tuic server port) {
    uuid = some uuid;
    password = some password;
    tls = some (quic_tls (read_query k tuic_param no_quic_query query));
  })

unfoldable pub tuic_tls : Crates → Option TlsSettings → List Text
tuic_tls k none = []
tuic_tls k (some t) =
    each t.sni (λ s. str "sni=" ++ urlencode k s)
    ++ (when (not (is_empty_list t.alpn)) (str "alpn=" ++ urlencode k (join (b',' ∷ []) t.alpn))
        ++ when t.insecure (str "allow_insecure=1"))

unfoldable pub serialize_tuic : Crates → ProxyNode → Serialized Text
serialize_tuic k node = do
  check_kind tuic node
  ok (
      str "tuic://"
      ++ (or_default node.uuid
          ++ (b':'
              ∷ (urlencode k (or_default node.password)
                  ++ (b'@'
                      ∷ (node.server
                          ++ (b':'
                              ∷ (to_string node.port
                                  ++ (str "?congestion_control=bbr&udp_relay_mode=native"
                                      ++ (push_params (tuic_tls k node.tls)
                                          ++ fragment node.name))))))))))
