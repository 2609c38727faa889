-- ===== src/Protocols/Vless.antt =====
-- crates/proxy-core/src/protocols/vless.rs. Its loop over the query is that of trojan.rs.
pub mod RoundTrip
use sub_merge.Base.{ℕ, Bool, ◌||◌, none, some, List, ◌∷◌, ◌++◌}
use sub_merge.Base.Tests.{if◌then◌else◌}
use sub_merge.Base.Text.{Text, str, eqb, is_empty, starts_with, strip_prefix}
use sub_merge.Base.Decimal.{to_string}
use sub_merge.Base.Result.{ok, ◌>>=◌, ◌>>◌, ok_or}
use sub_merge.Crates.{Crates}
use sub_merge.Error.{
  unsupported_protocol, missing_field, missing, Parsed, fail, require, Serialized,
}
use sub_merge.Model.{vless, ProxyNode, new_node}
use sub_merge.Uri.{split_authority, parse_host_port}
use sub_merge.Protocols.Parts.{
  cut, or_default, check_kind, fragment, push_params, read_query, stream_of, transport_of,
}
use sub_merge.Protocols.Trojan.{
  StreamQuery, no_query, stream_param, tls_of_query, tls_params, host_path_params, net_params,
}

unfoldable pub is_vless : Text → Bool
is_vless uri = starts_with uri (str "vless://")

abbrev pub is_tls_security : Text → Bool
is_tls_security s = eqb s (str "tls") || (eqb s (str "reality") || eqb s (str "xtls"))

-- The node behind the loop: TLS is on only under a `security` that names it.
unfoldable pub vless_node : Text → Text → ℕ → Text → StreamQuery → ProxyNode
vless_node name server port uuid q = record (new_node name vless server port) {
  uuid = some uuid;
  tls = if is_tls_security q.security then some (tls_of_query q) else none;
  transport = transport_of q.net q.path q.host;
}

unfoldable pub parse_vless : Crates → Text → Parsed ProxyNode
parse_vless k uri = do
  rest ← require (strip_prefix (str "vless://") uri) unsupported_protocol
  let (auth_and_query, fragment) = cut b'#' rest
  let (userinfo, host_query) = split_authority auth_and_query
  let (hostpart, query) = cut b'?' host_query
  (server, port) ← parse_host_port hostpart
  (if is_empty userinfo
      then fail (missing_field (str "uuid"))
      else ok (
          vless_node (or_default fragment) server port userinfo
            (read_query k stream_param no_query query)))

unfoldable pub vless_query : Crates → ProxyNode → List Text
vless_query k node =
    let st = stream_of (str "httpupgrade") node.transport in
    net_params st ++ (tls_params k node.tls ++ host_path_params k st)

unfoldable pub serialize_vless : Crates → ProxyNode → Serialized Text
serialize_vless k node = do
  check_kind vless node
  uuid ← ok_or node.uuid (missing (str "uuid"))
  ok (
      str "vless://"
      ++ (uuid
          ++ (b'@'
              ∷ (node.server
                  ++ (b':'
                      ∷ (to_string node.port
                          ++ (str "?encryption=none"
                              ++ (push_params (vless_query k node) ++ fragment node.name))))))))
