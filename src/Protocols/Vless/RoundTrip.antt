-- ===== src/Protocols/Vless/RoundTrip.antt =====
-- A vless node through `serialize_vless` and `parse_vless`.
use sub_merge.Base.{◌≡◌, refl, ap, ◌∙◌, false, Option, none, some, List, ◌∷◌, ◌++◌, arith}
use sub_merge.Base.Tests.{if◌then◌else◌}
use sub_merge.Base.Lists.{All, All-append, all_sound}
use sub_merge.Base.Text.{Text, str, eqb, is_empty, Absent, strip_prefix-append}
use sub_merge.Base.Result.{ok}
use sub_merge.Crates.{Crates}
use sub_merge.Crates.Laws.{Documented}
use sub_merge.Model.{vless, Transport, TlsSettings, ProxyNode, new_node}
use sub_merge.Protocols.Parts.{fragment, query_suffix, query_loop, Stream, stream_of, transport_of}
use sub_merge.Protocols.Parts.Query.{
  or_default-name_part, is_param, IsParam, pushed_query, read_query-text,
}
use sub_merge.Protocols.Parts.Authority.{authority, IsHost, cuts}
use sub_merge.Protocols.Trojan.{
  StreamQuery, no_query, stream_param, tls_of_query, tls_params, net_params,
}
use sub_merge.Protocols.Trojan.Written.{
  IsTls?, IsStream, nonempty_text, put_tls, put_net, put_host_path, kept_transport, stream,
  kept_tls, alpn-kept, net-plain, transport_of-kept, tls_params-IsParam, net_params-IsParam,
  host_path_params-IsParam,
}
use sub_merge.Protocols.Trojan.Loop.{step_plain, loop_then, loop_tls, loop_net, loop_host_path}
use sub_merge.Protocols.Vless.{
  is_tls_security, vless_node, parse_vless, vless_query, serialize_vless,
}

-- Disabled settings are written as none.
abbrev kept_vless_tls : Option TlsSettings → Option Text → Option TlsSettings
kept_vless_tls none host = none
kept_vless_tls (some t) host = if t.enabled then some (kept_tls (some t) host) else none

-- The node that comes back.
abbrev pub vless_kept : ProxyNode → ProxyNode
vless_kept node = record (new_node node.name vless node.server node.port) {
  uuid = node.uuid;
  tls = kept_vless_tls node.tls (nonempty_text (stream node).host);
  transport = kept_transport node.transport;
}

-- A vless node with a UUID that is not empty, whose texts are Rust strings.
pub record IsVless (node : ProxyNode) (uuid : Text) : Type 0 where
  pub is_vless : node.kind ≡ vless
  pub has_uuid : node.uuid ≡ some uuid
  pub ne-nil : is_empty uuid ≡ false
  pub no_hash : Absent b'#' uuid
  pub host : IsHost node.server node.port
  pub tls : IsTls? node.tls
  pub streamed : IsStream (stream node)

abbrev read_back : Option TlsSettings → Stream → StreamQuery
read_back o st = put_host_path (put_tls (put_net no_query st) o) st

read_tls-kept :
    (o : Option TlsSettings) (st : Stream)
    → (if is_tls_security (read_back o st).security
        then some (tls_of_query (read_back o st))
        else none)
      ≡ kept_vless_tls o (nonempty_text st.host)
unfolding eqb
read_tls-kept none st = ground arith
read_tls-kept (some t) st = ground (arith, alpn-kept t.alpn)

read_transport-kept :
    (o : Option TlsSettings) (tr : Option Transport)
    → let q = read_back o (stream_of (str "httpupgrade") tr) in
      transport_of q.net q.path q.host ≡ kept_transport tr
read_transport-kept none tr = transport_of-kept tr
read_transport-kept (some t) tr = transport_of-kept tr

vless_node-kept :
    (node : ProxyNode) {uuid : Text}
    → IsVless node uuid
    → vless_node node.name node.server node.port uuid (read_back node.tls (stream node))
      ≡ vless_kept node
unfolding vless_node
vless_node-kept node h =
    ground
      (arith, read_tls-kept node.tls (stream node), read_transport-kept node.tls node.transport)

encryption_ignored : stream_param no_query (str "encryption") (str "none") ≡ no_query
unfolding stream_param eqb
encryption_ignored = refl

module _ (k : Crates) (d : Documented k) where
  -- Every parameter, the fixed first one included.
  abbrev params : ProxyNode → List Text
  params node = str "encryption=none" ∷ vless_query k node

  loop_params :
      (node : ProxyNode) {uuid : Text}
      → IsVless node uuid
      → query_loop k stream_param no_query (params node) ≡ read_back node.tls (stream node)
  unfolding query_loop vless_query
  loop_params node h =
      let st = stream node in
      let (plain_net, scalar_net) = net-plain node.transport in
      ap (λ q. query_loop k stream_param q (vless_query k node))
        (step_plain k d no_query (str "encryption") (str "none") (omega arith) (omega arith)
            (omega arith)
          ∙ encryption_ignored)
      ∙ loop_then k d no_query (net_params st) _ (loop_net k d no_query st plain_net scalar_net)
      ∙ loop_then k d (put_net no_query st) (tls_params k node.tls) _
          (loop_tls k d (put_net no_query st) node.tls h.tls)
      ∙ loop_host_path k d (put_tls (put_net no_query st) node.tls) st h.streamed

  params-IsParam : (node : ProxyNode) → All (All IsParam) (params node)
  unfolding vless_query
  params-IsParam node = (
    all_sound is_param (str "encryption=none") refl,
    All-append (All IsParam) (net_params (stream node)) _ (net_params-IsParam k d node.transport) (
        All-append (All IsParam) (tls_params k node.tls) _ (tls_params-IsParam k d node.tls)
          (host_path_params-IsParam k d (stream node))),
  )

  abbrev vless_uri : ProxyNode → Text → Text
  vless_uri node uuid =
      str "vless://"
      ++ authority uuid node.server node.port (query_suffix (params node) ++ fragment node.name)

  serialize_vless-uri :
      (node : ProxyNode) {uuid : Text}
      → IsVless node uuid
      → serialize_vless k node ≡ ok (vless_uri node uuid)
  unfolding serialize_vless
  serialize_vless-uri node {uuid} h =
      rw (← pushed_query (str "encryption=none") (vless_query k node) (fragment node.name))
        (ground arith)

  parse_vless-uri :
      (node : ProxyNode) {uuid : Text}
      → IsVless node uuid
      → parse_vless k (vless_uri node uuid) ≡ ok (vless_kept node)
  unfolding parse_vless
  parse_vless-uri node {uuid} h =
      let p = params-IsParam node in
      let c = cuts uuid (params node) node.name h.host h.no_hash p in
      rw (strip_prefix-append (str "vless://") _) (
        rw c.at_hash (
          rw c.at_sign (
            rw c.at_query (
              rw c.at_port (
                rw h.ne-nil (
                  ap ok (
                    rw (or_default-name_part node.name) (
                      rw (read_query-text k stream_param no_query (params node) p)
                        (rw (loop_params node h) (vless_node-kept node h))))))))))

  -- A vless node with a UUID free of `#`, a plain server and texts made of Unicode scalar values is
  -- serialized, and the URI parses to the same name, server, port and UUID; TLS is on if it was,
  -- and then checks certificates, keeping SNI (the host, if there was none), ALPN and fingerprint,
  -- and of the transport what a URI keeps.
  pub parse-serialize_vless :
      (node : ProxyNode) {uuid : Text}
      → IsVless node uuid
      → (uri : Text) × (serialize_vless k node ≡ ok uri)
        × (parse_vless k uri ≡ ok (vless_kept node))
  parse-serialize_vless node {uuid} h =
      (vless_uri node uuid, serialize_vless-uri node h, parse_vless-uri node h)
