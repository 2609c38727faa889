-- ===== src/Protocols/Trojan.antt =====
-- crates/proxy-core/src/protocols/trojan.rs.
pub mod Written
pub mod Loop
pub mod RoundTrip
use sub_merge.Base.{ℕ, Bool, true, false, not, Option, none, some, List, [], ◌∷◌, ◌++◌}
use sub_merge.Base.Tests.{if◌then◌else◌}
use sub_merge.Base.Lists.{is_empty_list}
use sub_merge.Base.Text.{Text, str, eqb, is_empty, starts_with, strip_prefix}
use sub_merge.Base.Split.{join}
use sub_merge.Base.Decimal.{to_string}
use sub_merge.Base.Result.{ok, ◌>>=◌, ◌>>◌, ok_or}
use sub_merge.Crates.{Crates}
use sub_merge.Error.{
  unsupported_protocol, missing_field, missing, Parsed, fail, require, Serialized,
}
use sub_merge.Model.{trojan, TlsSettings, ProxyNode, new_node}
use sub_merge.Uri.{percent_decode, urlencode, split_authority, parse_host_port}
use sub_merge.Protocols.Parts.{
  cut, or_default, or_else, check_kind, fragment, when, each, query_suffix, truthy, comma_list,
  read_query, Stream, stream_of, transport_of,
}

unfoldable pub is_trojan : Text → Bool
is_trojan uri = starts_with uri (str "trojan://")

-- The variables of the loop over the query, the same in trojan.rs and vless.rs.
pub record StreamQuery : Type 0 where
  pub security : Text
  pub sni : Option Text
  pub fp : Option Text
  pub net : Text
  pub path : Text
  pub host : Option Text
  pub alpn : List Text
  pub insecure : Bool

abbrev pub no_query : StreamQuery
no_query = record {
  security = [];
  sni = none;
  fp = none;
  net = str "tcp";
  path = [];
  host = none;
  alpn = [];
  insecure = false;
}

-- The `match k` of the loop.
unfoldable pub stream_param : StreamQuery → Text → Text → StreamQuery
stream_param q key v =
    if eqb key (str "security")
    then record q { security = v }
    else if eqb key (str "sni")
    then record q { sni = some v }
    else if eqb key (str "fp")
    then record q { fp = some v }
    else if eqb key (str "type")
    then record q { net = v }
    else if eqb key (str "path")
    then record q { path = v }
    else if eqb key (str "host")
    then record q { host = some v }
    else if eqb key (str "alpn")
    then record q { alpn = comma_list v }
    else if eqb key (str "allowInsecure")
    then record q { insecure = truthy v }
    else q

-- The TLS settings that a query describes.
abbrev pub tls_of_query : StreamQuery → TlsSettings
tls_of_query q = record {
  enabled = true;
  sni = or_else q.sni q.host;
  alpn = q.alpn;
  insecure = q.insecure;
  fingerprint = q.fp;
}

-- The node behind the loop: TLS is off only under `security=none`.
unfoldable pub trojan_node : Text → Text → ℕ → Text → StreamQuery → ProxyNode
trojan_node name server port password q = record (new_node name trojan server port) {
  password = some password;
  tls = if eqb q.security (str "none") then none else some (tls_of_query q);
  transport = transport_of q.net q.path q.host;
}

unfoldable pub parse_trojan : Crates → Text → Parsed ProxyNode
parse_trojan k uri = do
  rest ← require (strip_prefix (str "trojan://") uri) unsupported_protocol
  let (auth_and_query, fragment) = cut b'#' rest
  let (userinfo, host_query) = split_authority auth_and_query
  let (hostpart, query) = cut b'?' host_query
  (server, port) ← parse_host_port hostpart
  password ← percent_decode k userinfo
  (if is_empty password
      then fail (missing_field (str "password"))
      else ok (
          trojan_node (or_default fragment) server port password
            (read_query k stream_param no_query query)))

-- The parameters of the TLS settings, in the order of trojan.rs.
unfoldable pub tls_params : Crates → Option TlsSettings → List Text
tls_params k none = []
tls_params k (some t) =
    when t.enabled (str "security=tls")
    ++ (each t.sni (λ s. str "sni=" ++ urlencode k s)
        ++ (each t.fingerprint (λ s. str "fp=" ++ urlencode k s)
            ++ when (not (is_empty_list t.alpn))
                (str "alpn=" ++ urlencode k (join (b',' ∷ []) t.alpn))))

-- The parameters of the transport that stand last.
unfoldable pub host_path_params : Crates → Stream → List Text
host_path_params k st =
    when (not (is_empty st.host)) (str "host=" ++ urlencode k st.host)
    ++ when (not (is_empty st.path)) (str "path=" ++ urlencode k st.path)

unfoldable pub net_params : Stream → List Text
net_params st = when (not (eqb st.net (str "tcp"))) (str "type=" ++ st.net)

unfoldable pub trojan_query : Crates → ProxyNode → List Text
trojan_query k node =
    let st = stream_of (str "httpupgrade") node.transport in
    tls_params k node.tls ++ (net_params st ++ host_path_params k st)

unfoldable pub serialize_trojan : Crates → ProxyNode → Serialized Text
serialize_trojan k node = do
  check_kind trojan node
  password ← ok_or node.password (missing (str "password"))
  ok (
      str "trojan://"
      ++ (urlencode k password
          ++ (b'@'
              ∷ (node.server
                  ++ (b':'
                      ∷ (to_string node.port
                          ++ (query_suffix (trojan_query k node) ++ fragment node.name)))))))
