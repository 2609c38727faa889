-- ===== src/Protocols/Trojan/RoundTrip.antt =====
-- A trojan node through `serialize_trojan` and `parse_trojan`.
use sub_merge.Base.{◌≡◌, refl, ap, ◌∙◌, false, Option, none, some, ◌++◌, arith}
use sub_merge.Base.Tests.{if◌then◌else◌}
use sub_merge.Base.Lists.{All, All-append}
use sub_merge.Base.Text.{Text, str, eqb, is_empty, IsScalar, strip_prefix-append}
use sub_merge.Base.Result.{ok}
use sub_merge.Crates.{Crates}
use sub_merge.Crates.Laws.{Documented}
use sub_merge.Model.{trojan, Transport, TlsSettings, ProxyNode, new_node}
use sub_merge.Uri.{urlencode}
use sub_merge.Uri.Percent.{urlencode-Absent, percent_decode-urlencode}
use sub_merge.Protocols.Parts.{fragment, query_suffix, query_loop, Stream, stream_of, transport_of}
use sub_merge.Protocols.Parts.Query.{or_default-name_part, IsParam, read_query-text}
use sub_merge.Protocols.Parts.Authority.{authority, IsHost, cuts}
use sub_merge.Protocols.Trojan.{
  StreamQuery, no_query, stream_param, tls_of_query, trojan_node, parse_trojan, tls_params,
  net_params, trojan_query, serialize_trojan,
}
use sub_merge.Protocols.Trojan.Written.{
  IsTls?, IsStream, nonempty_text, put_tls, put_net, put_host_path, kept_transport, stream,
  kept_tls, alpn-kept, transport_of-kept, tls_params-IsParam, net_params-IsParam,
  host_path_params-IsParam,
}
use sub_merge.Protocols.Trojan.Loop.{loop_then, loop_tls, loop_stream}

-- The node that comes back: TLS is on, its certificate check too, the host serves as a missing SNI,
-- and the fields of other protocols are gone.
abbrev pub trojan_kept : ProxyNode → ProxyNode
trojan_kept node = record (new_node node.name trojan node.server node.port) {
  password = node.password;
  tls = some (kept_tls node.tls (nonempty_text (stream node).host));
  transport = kept_transport node.transport;
}

-- A trojan node with a password, whose texts are Rust strings.
pub record IsTrojan (node : ProxyNode) (password : Text) : Type 0 where
  pub is_trojan : node.kind ≡ trojan
  pub has_password : node.password ≡ some password
  pub ne-nil : is_empty password ≡ false
  pub scalar : All IsScalar password
  pub host : IsHost node.server node.port
  pub tls : IsTls? node.tls
  pub streamed : IsStream (stream node)

abbrev read_back : Option TlsSettings → Stream → StreamQuery
read_back o st = put_host_path (put_net (put_tls no_query o) st) st

abbrev read_tls : StreamQuery → Option TlsSettings
read_tls q = if eqb q.security (str "none") then none else some (tls_of_query q)

read_tls-kept :
    (o : Option TlsSettings) (st : Stream)
    → read_tls (read_back o st) ≡ some (kept_tls o (nonempty_text st.host))
unfolding eqb
read_tls-kept none st = ground arith
read_tls-kept (some t) st = ground (arith, alpn-kept t.alpn)

read_transport-kept :
    (o : Option TlsSettings) (tr : Option Transport)
    → let q = read_back o (stream_of (str "httpupgrade") tr) in
      transport_of q.net q.path q.host ≡ kept_transport tr
read_transport-kept none tr = transport_of-kept tr
read_transport-kept (some t) tr = transport_of-kept tr

trojan_node-kept :
    (node : ProxyNode) {password : Text}
    → IsTrojan node password
    → trojan_node node.name node.server node.port password (read_back node.tls (stream node))
      ≡ trojan_kept node
unfolding trojan_node
trojan_node-kept node h =
    ground
      (arith, read_tls-kept node.tls (stream node), read_transport-kept node.tls node.transport)

module _ (k : Crates) (d : Documented k) where
  loop_trojan :
      (node : ProxyNode) {password : Text}
      → IsTrojan node password
      → query_loop k stream_param no_query (trojan_query k node) ≡ read_back node.tls (stream node)
  unfolding trojan_query
  loop_trojan node h =
      loop_then k d no_query (tls_params k node.tls) _ (loop_tls k d no_query node.tls h.tls)
      ∙ loop_stream k d (put_tls no_query node.tls) node.transport h.streamed

  trojan_query-IsParam :
      (node : ProxyNode) {password : Text}
      → IsTrojan node password
      → All (All IsParam) (trojan_query k node)
  unfolding trojan_query
  trojan_query-IsParam node h =
      All-append (All IsParam) (tls_params k node.tls) _ (tls_params-IsParam k d node.tls) (
        All-append (All IsParam) (net_params (stream node)) _
          (net_params-IsParam k d node.transport) (host_path_params-IsParam k d (stream node)))

  -- The text that `serialize_trojan` writes.
  abbrev trojan_uri : ProxyNode → Text → Text
  trojan_uri node password =
      str "trojan://"
      ++ authority (urlencode k password) node.server node.port
          (query_suffix (trojan_query k node) ++ fragment node.name)

  serialize_trojan-uri :
      (node : ProxyNode) {password : Text}
      → IsTrojan node password
      → serialize_trojan k node ≡ ok (trojan_uri node password)
  unfolding serialize_trojan
  serialize_trojan-uri node h = ground arith

  parse_trojan-uri :
      (node : ProxyNode) {password : Text}
      → IsTrojan node password
      → parse_trojan k (trojan_uri node password) ≡ ok (trojan_kept node)
  unfolding parse_trojan
  parse_trojan-uri node {password} h =
      let ps = trojan_query k node in
      let p = trojan_query-IsParam node h in
      let user = urlencode k password in
      let c = cuts user ps node.name h.host (urlencode-Absent k d b'#' password refl) p in
      rw (strip_prefix-append (str "trojan://") _) (
        rw c.at_hash (
          rw c.at_sign (
            rw c.at_query (
              rw c.at_port (
                rw (percent_decode-urlencode k d password h.scalar) (
                  rw h.ne-nil (
                    ap ok (
                      rw (or_default-name_part node.name) (
                        rw (read_query-text k stream_param no_query ps p)
                          (rw (loop_trojan node h) (trojan_node-kept node h)))))))))))

  -- A trojan node with a password, a plain server and texts made of Unicode scalar values is
  -- serialized, and the URI parses to the same name, server, port and password; TLS is then on and
  -- checks certificates, keeping SNI (the host, if there was none), ALPN and fingerprint, and of the
  -- transport what a URI keeps.
  pub parse-serialize_trojan :
      (node : ProxyNode) {password : Text}
      → IsTrojan node password
      → (uri : Text) × (serialize_trojan k node ≡ ok uri)
        × (parse_trojan k uri ≡ ok (trojan_kept node))
  parse-serialize_trojan node {password} h =
      (trojan_uri node password, serialize_trojan-uri node h, parse_trojan-uri node h)
