-- ===== src/Protocols/Vmess/RoundTrip.antt =====
-- A vmess node through `serialize_vmess` and `parse_vmess`.
use sub_merge.Base.{◌≤◌, ◌<◌, ◌≡◌, refl, ◌∙◌, false, Option, some, [], ◌∷◌, ◌++◌}
use sub_merge.Base.Tests.{if◌then◌else◌}
use sub_merge.Base.Lists.{length, All}
use sub_merge.Base.Text.{Text, str, eqb, utf8, IsScalar, strip_prefix-append}
use sub_merge.Base.Split.{join}
use sub_merge.Base.Decimal.{to_string, u16_size, parse-to_string}
use sub_merge.Base.Result.{ok}
use sub_merge.Crates.{Json, object, Crates}
use sub_merge.Crates.Laws.{Documented}
use sub_merge.Model.{vmess, ProxyNode}
use sub_merge.Uri.{max_base64_len}
use sub_merge.Uri.Base64.{decode-encode_standard}
use sub_merge.Protocols.Parts.{or_default}
use sub_merge.Protocols.Vmess.{
  as_text, lookup, get, vmess_node, parse_vmess, tls_field, alter_id_or_zero, vmess_object,
  serialize_vmess,
}
use sub_merge.Protocols.Vmess.Object.{
  get-host, get-tls, get-absent, get-sni, get-alpn, get-fp, get-insecure,
}
use sub_merge.Protocols.Vmess.Kept.{
  written_stream, vmess_kept, IsName, transport-kept, FindsTls, vmess_tls-found,
}

-- A vmess node with numbers in their range and ALPN names without commas, whose object serde_json
-- prints and reads back up to the order of the members.
pub record IsVmess (k : Crates) (node : ProxyNode) (printed : Text) (v : Json) : Type 0 where
  pub is_vmess : node.kind ≡ vmess
  pub port_in_range : node.port < u16_size
  pub alter_id_in_range : alter_id_or_zero node.alter_id < u16_size
  pub names : tls_field node.tls (λ t. All IsName t.alpn) Unit
  pub prints : k.json_to_string (object (vmess_object node)) ≡ some printed
  pub reads : k.json_from_str printed ≡ some v
  pub same_members : (key : Text) → get v key ≡ get (object (vmess_object node)) key
  pub scalar : All IsScalar printed
  pub short : length (k.encode_standard (utf8 printed)) ≤ max_base64_len

-- What the closure `get` finds of the rest of a node.
record FindsNode (v : Json) (node : ProxyNode) : Type 0 where
  name : get v (str "ps") ≡ some node.name
  server : get v (str "add") ≡ some node.server
  port : get v (str "port") ≡ some (to_string node.port)
  id : get v (str "id") ≡ some (or_default node.uuid)
  alter : get v (str "aid") ≡ some (to_string (alter_id_or_zero node.alter_id))
  net : get v (str "net") ≡ some (written_stream node).net
  path : get v (str "path") ≡ some (written_stream node).path
  of_tls : FindsTls v node.tls (written_stream node).host

module _ (k : Crates) {node : ProxyNode} {printed : Text} {v : Json}
    (h : IsVmess k node printed v) where
  finds :
      (key : Text) {found : Option Text}
      → get (object (vmess_object node)) key ≡ found
      → get v key ≡ found
  finds key e = h.same_members key ∙ e

  found_node : FindsNode v node
  unfolding vmess_object get lookup as_text eqb mathlib.Core.Option.bind
  found_node =
      let host = (written_stream node).host in
      let tls = if tls_field node.tls (λ t. t.enabled) false then str "tls" else str "none" in
      let sni = tls_field node.tls (λ t. or_default t.sni) [] in
      let alpn = tls_field node.tls (λ t. join (b',' ∷ []) t.alpn) [] in
      let fp = tls_field node.tls (λ t. or_default t.fingerprint) [] in
      let insecure = if tls_field node.tls (λ t. t.insecure) false then str "1" else str "0" in
      record {
        name = finds (str "ps") refl;
        server = finds (str "add") refl;
        port = finds (str "port") refl;
        id = finds (str "id") refl;
        alter = finds (str "aid") refl;
        net = finds (str "net") refl;
        path = finds (str "path") refl;
        of_tls = record {
          tls = finds (str "tls") (get-tls host tls sni alpn fp insecure);
          security = finds (str "security") (get-absent host tls sni alpn fp insecure);
          host_text = finds (str "host") (get-host host tls sni alpn fp insecure);
          sni = finds (str "sni") (get-sni host tls sni alpn fp insecure);
          alpn = finds (str "alpn") (get-alpn host tls sni alpn fp insecure);
          fp = finds (str "fp") (get-fp host tls sni alpn fp insecure);
          insecure = finds (str "allowInsecure") (get-insecure host tls sni alpn fp insecure);
        };
      }

  vmess_node-found : vmess_node v ≡ ok (vmess_kept node)
  unfolding vmess_node mathlib.Core.Option.bind
  vmess_node-found =
      let f = found_node in
      rw (f.server, f.port, vmess_tls-found v node.tls _ f.of_tls h.names)
        (rw (parse-to_string u16_size node.port h.port_in_range) (
          rw (f.name, f.id, f.alter, f.net, f.path, f.of_tls.host_text)
            (rw (parse-to_string u16_size (alter_id_or_zero node.alter_id) h.alter_id_in_range)
              (rw (transport-kept node.transport) refl))))

  abbrev vmess_uri : Text
  vmess_uri = str "vmess://" ++ k.encode_standard (utf8 printed)

  serialize_vmess-uri : serialize_vmess k node ≡ ok vmess_uri
  unfolding serialize_vmess
  serialize_vmess-uri = rw h.prints (rw h.is_vmess refl)

  parse_vmess-uri : Documented k → parse_vmess k vmess_uri ≡ ok (vmess_kept node)
  unfolding parse_vmess
  parse_vmess-uri d =
      rw (strip_prefix-append (str "vmess://") (k.encode_standard (utf8 printed)))
        (rw (decode-encode_standard k d printed h.scalar h.short) (rw h.reads vmess_node-found))

-- A vmess node with its numbers below 2 ^ 16 and ALPN names that are not empty and hold no comma,
-- whose JSON object serde_json prints and reads back with the same members in any order, as text
-- whose base64 is at most 4 MiB, is serialized, and the link parses to the same name, server, port,
-- ALPN names and flags of TLS; a missing UUID comes back as the empty text and a missing alter id as
-- 0, an empty SNI gives way to the host, an empty fingerprint to none, TLS that is not enabled is
-- left out, and of the transport comes back what a link keeps.
pub parse-serialize_vmess :
    (k : Crates) (d : Documented k) (node : ProxyNode) {printed : Text} {v : Json}
    → IsVmess k node printed v
    → (uri : Text) × (serialize_vmess k node ≡ ok uri) × (parse_vmess k uri ≡ ok (vmess_kept node))
parse-serialize_vmess k d node h = (vmess_uri k h, serialize_vmess-uri k h, parse_vmess-uri k h d)
