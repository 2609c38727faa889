-- ===== src/Protocols/Hysteria.antt =====
-- crates/proxy-core/src/protocols/hysteria.rs.
use sub_merge.Base.{Bool, true, false, Option, none, some, List, [], ◌∷◌, ◌++◌}
use sub_merge.Base.Tests.{if◌then◌else◌}
use sub_merge.Base.Text.{Text, str, eqb, starts_with, strip_prefix}
use sub_merge.Base.Decimal.{to_string}
use sub_merge.Base.Result.{ok, ◌>>=◌, ◌>>◌}
use sub_merge.Crates.{Crates}
use sub_merge.Error.{unsupported_protocol, Parsed, require, Serialized}
use sub_merge.Model.{hysteria, TlsSettings, ProxyNode, new_node}
use sub_merge.Uri.{urlencode, parse_host_port}
use sub_merge.Protocols.Parts.{
  cut, or_default, check_kind, fragment, when, each, push_params, truthy, read_query,
}

unfoldable pub is_hysteria : Text → Bool
is_hysteria uri = starts_with uri (str "hysteria://")

-- The variables of the loop over the query, also of hysteria2.rs and tuic.rs, which leave `auth`.
pub record QuicQuery : Type 0 where
  pub auth : Option Text
  pub sni : Option Text
  pub alpn : List Text
  pub insecure : Bool

abbrev pub no_quic_query : QuicQuery
no_quic_query = record { auth = none; sni = none; alpn = []; insecure = false }

hysteria_param : QuicQuery → Text → Text → QuicQuery
hysteria_param q key v =
    if eqb key (str "auth")
    then record q { auth = some v }
    else if eqb key (str "sni")
    then record q { sni = some v }
    else if eqb key (str "alpn")
    then record q { alpn = v ∷ [] }
    else if eqb key (str "insecure")
    then record q { insecure = truthy v }
    else q

-- The TLS settings of the three protocols over QUIC: always on, with no fingerprint.
abbrev pub quic_tls : QuicQuery → TlsSettings
quic_tls q = record {
  enabled = true;
  sni = q.sni;
  alpn = q.alpn;
  insecure = q.insecure;
  fingerprint = none;
}

unfoldable pub parse_hysteria : Crates → Text → Parsed ProxyNode
unfolding hysteria_param
parse_hysteria k uri = do
  rest ← require (strip_prefix (str "hysteria://") uri) unsupported_protocol
  let (host_query, fragment) = cut b'#' rest
  let (hostpart, query) = cut b'?' host_query
  (server, port) ← parse_host_port hostpart
  let q = read_query k hysteria_param no_quic_query query
  ok (record (new_node (or_default fragment) hysteria server port) {
    password = q.auth;
    tls = some (quic_tls q);
  })

-- `t.alpn.first()`
abbrev pub first {ℓ} : {A : Type ℓ} → List A → Option A
first [] = none
first (x ∷ xs) = some x

unfoldable pub hysteria_tls : Crates → Option TlsSettings → List Text
hysteria_tls k none = []
hysteria_tls k (some t) =
    each t.sni (λ s. str "sni=" ++ urlencode k s)
    ++ (each (first t.alpn) (λ s. str "alpn=" ++ urlencode k s)
        ++ when t.insecure (str "insecure=1"))

unfoldable pub serialize_hysteria : Crates → ProxyNode → Serialized Text
serialize_hysteria k node = do
  check_kind hysteria node
  ok (
      str "hysteria://"
      ++ (node.server
          ++ (b':'
              ∷ (to_string node.port
                  ++ (str "?protocol=udp&auth="
                      ++ (urlencode k (or_default node.password)
                          ++ (push_params (hysteria_tls k node.tls)
                              ++ (str "&upmbps=100&downmbps=100&obfs=xorsalsa20"
                                  ++ fragment node.name))))))))
