-- ===== src/Examples/Outputs.antt =====
-- The two outputs and the subscription round trip at concrete nodes.
use mathlib.Core.Option
use sub_merge.Base.{◌≤◌, ◌≡◌, refl, subst, inr, true, Option, none, some, [], ◌∷◌, ◌++◌, arith}
use sub_merge.Base.Text.{
  Text, str, eqb, utf8, starts_with, strip_prefix, is_whitespace, drop_while, drop_end, trim,
}
use sub_merge.Base.Lists.{length, take}
use sub_merge.Base.Split.{split_once, rsplit_once, join}
use sub_merge.Base.Decimal.{to_string}
use sub_merge.Base.Result.{err, ok}
use sub_merge.Crates.{null, bool, number, string, end, mapping, Entries, entry, Crates}
use sub_merge.Crates.Sample.{sample, sample-Documented}
use sub_merge.Crates.Sample.Base64.{encode_groups, encode_padded}
use sub_merge.Crates.Sample.Percent.{encode_byte, encode_bytes, encode_text, decode_text}
use sub_merge.Error.{missing, Serialized}
use sub_merge.Model.{vless, trojan, protocol_as_str, ProxyNode}
use sub_merge.Uri.{
  max_base64_len, percent_decode, urlencode, split_authority, host_and_port, parse_host_port,
}
use sub_merge.Protocols.Parts.{
  cut, fragment, query_suffix, push_params, read_query, stream_of, transport_of,
}
use sub_merge.Protocols.Trojan.{
  is_trojan, trojan_node, parse_trojan, tls_params, host_path_params, net_params, trojan_query,
  serialize_trojan,
}
use sub_merge.Protocols.Trojan.RoundTrip.{trojan_kept}
use sub_merge.Protocols.Vless.{is_vless, vless_query, serialize_vless}
use sub_merge.Protocols.Vless.RoundTrip.{vless_kept}
use sub_merge.Formats.V2ray.{uri_line, push_line, uri_lines, serialize_v2ray_plain, serialize_v2ray}
use sub_merge.Formats.Clash.{kind_fields, proxy_to_clash}
use sub_merge.Formats.Document.{serialize_clash}
use sub_merge.Formats.Template.{or_template_error, serialize_clash_subscription}
use sub_merge.Formats.Laws.{Succeeds, serialize_v2ray-parse_lines}
use sub_merge.Formats.Sections.{HasSections, serialize_clash_subscription-HasSections}
use sub_merge.Formats.Tolerant.{serialize_clash-skip}
use sub_merge.Formats.RoundTrip.{
  IsLink, by_trojan, by_vless, Sends, done, send, left_out,
  parse_v2ray_subscription-serialize_v2ray,
}
use sub_merge.Parser.{
  parse_line, strip_cr, lines, line_outcome, parse_lines, parse_v2ray_subscription,
}
use sub_merge.Protocols.Ss.{is_ss}
use sub_merge.Protocols.Ssr.{is_ssr}
use sub_merge.Protocols.Vmess.{is_vmess}
use sub_merge.Examples.Nodes.{trojan_example, vless_example, wireguard_example, ss_example}
use sub_merge.Examples.Links.{trojan_example-IsTrojan, vless_example-IsVless}
use sub_merge.Examples.Lines.{one_line, one_line_result}
use sub_merge.Protocols.Socks5.{is_socks5}
use sub_merge.Protocols.Http.{is_http}
use sub_merge.Protocols.Hysteria.{is_hysteria}
use sub_merge.Protocols.Hysteria2.{is_hysteria2}
use sub_merge.Protocols.Tuic.{is_tuic}
use sub_merge.Protocols.Wireguard.{is_wireguard}

-- JSON that prints, and YAML that reads as a mapping with groups of its own.
abbrev printing : Crates
printing = record (sample) { json_to_string = λ v. some (str "{}") }

abbrev old_entries : Entries
old_entries = entry (string (str "proxy-groups")) null (
    entry (number (some 7) (str "7")) (bool true)
      (entry (string (str "mode")) (string (str "rule")) end))

abbrev with_template : Crates
with_template = record (sample) { yaml_from_str = λ s. inr (mapping old_entries) }

serialize_clash_subscription-HasSections_example :
    (r : Entries) × (serialize_clash_subscription with_template
        (str "t")
        (str "main")
        (str "http://x/sub")
      ≡ or_template_error (with_template.yaml_to_string (mapping r)))
    × HasSections (str "main") (str "http://x/sub") old_entries r
serialize_clash_subscription-HasSections_example =
    serialize_clash_subscription-HasSections with_template (str "t") (str "main")
      (str "http://x/sub") old_entries refl

-- A wireguard node without its private key.
abbrev no_key : ProxyNode
no_key = record (wireguard_example) { uuid = none }

no_key-fails : proxy_to_clash sample no_key ≡ err (missing (str "privateKey"))
unfolding proxy_to_clash kind_fields
no_key-fails = refl

serialize_clash-skip_example :
    (s : Text) × (serialize_clash sample ((trojan_example ∷ []) ++ no_key ∷ ss_example ∷ []) ≡ ok s)
    × (serialize_clash sample ((trojan_example ∷ []) ++ ss_example ∷ []) ≡ ok s)
serialize_clash-skip_example =
    serialize_clash-skip sample (trojan_example ∷ []) no_key (ss_example ∷ []) no_key-fails

one_line_printed : parse_lines printing one_line 10 ≡ some one_line_result
unfolding parse_lines lines line_outcome utf8 parse_line trim is_ss starts_with is_ssr is_vmess
    is_vless is_trojan parse_trojan strip_prefix parse_host_port cut split_once split_authority
    rsplit_once host_and_port percent_decode decode_text trojan_node read_query transport_of eqb
    is_socks5 is_http is_hysteria2 is_hysteria is_tuic is_wireguard
one_line_printed = refl

serialize_v2ray-parse_lines_example : Succeeds (serialize_v2ray printing one_line_result.nodes)
serialize_v2ray-parse_lines_example =
    serialize_v2ray-parse_lines printing (λ v. tt) one_line 10 one_line_result one_line_printed

-- The links of the two nodes that travel; a third one has no link.
abbrev trojan_link : Text
trojan_link =
    str
      "trojan://p%40s@a.io:443?security=tls&sni=b.io&alpn=h2%2Ch3&type=ws&host=c.io&path=%2Fx%20y#hk"

trojan_written : uri_line sample trojan trojan_example ≡ some (ok trojan_link)
unfolding uri_line serialize_trojan protocol_as_str trojan_query tls_params net_params
    host_path_params stream_of query_suffix fragment join urlencode encode_text encode_bytes
    encode_byte utf8 to_string eqb
trojan_written = refl

abbrev vless_link : Text
vless_link = str "vless://6ba7-11@10.0.0.1:8443?encryption=none&type=grpc&path=%2Fsvc#de"

vless_written : uri_line sample vless vless_example ≡ some (ok vless_link)
unfolding uri_line serialize_vless protocol_as_str vless_query tls_params net_params
    host_path_params stream_of push_params fragment urlencode encode_text encode_bytes encode_byte
    utf8 to_string eqb
vless_written = refl

trojan_link-IsLink : IsLink trojan_link
unfolding strip_cr trim drop_while drop_end is_whitespace utf8
trojan_link-IsLink = record {
  line = record { no_newline = omega arith; no_return = refl; filled = refl };
  trimmed = refl;
  short = omega arith;
  scalar = omega arith;
}

vless_link-IsLink : IsLink vless_link
unfolding strip_cr trim drop_while drop_end is_whitespace utf8
vless_link-IsLink = record {
  line = record { no_newline = omega arith; no_return = refl; filled = refl };
  trimmed = refl;
  short = omega arith;
  scalar = omega arith;
}

ok-injective :
    {a b : Text} {o : Option (Serialized Text)} → o ≡ some (ok a) → o ≡ some (ok b) → a ≡ b
ok-injective e h = ground arith

wireguard-left_out : uri_line sample wireguard_example.kind wireguard_example ≡ none
unfolding uri_line
wireguard-left_out = refl

three_nodes-Sends :
    Sends sample
      (trojan_example ∷ wireguard_example ∷ vless_example ∷ [])
      (trojan_kept trojan_example ∷ vless_kept vless_example ∷ [])
three_nodes-Sends =
    send (by_trojan trojan_example-IsTrojan)
      (λ uri e. subst IsLink (ok-injective trojan_written e) trojan_link-IsLink)
      (left_out {n = wireguard_example} wireguard-left_out (
        send (by_vless vless_example-IsVless)
          (λ uri e. subst IsLink (ok-injective vless_written e) vless_link-IsLink) done))

abbrev two_links : Text
two_links = join (str "\n") (trojan_link ∷ vless_link ∷ [])

three_nodes_written :
    serialize_v2ray sample (trojan_example ∷ wireguard_example ∷ vless_example ∷ [])
    ≡ ok (sample.encode_standard (utf8 two_links))
unfolding serialize_v2ray serialize_v2ray_plain uri_lines push_line join uri_line serialize_trojan
    serialize_vless protocol_as_str trojan_query vless_query tls_params net_params host_path_params
    stream_of query_suffix push_params fragment urlencode encode_text encode_bytes encode_byte utf8
    to_string eqb
three_nodes_written = refl

three_nodes_short : length (sample.encode_standard (utf8 two_links)) ≤ max_base64_len
unfolding encode_padded encode_groups utf8 join
three_nodes_short = omega arith

Serialized-injective : {a b : Text} {m : Serialized Text} → m ≡ ok a → m ≡ ok b → a ≡ b
Serialized-injective e h = ground arith

parse_v2ray_subscription-serialize_v2ray_example :
    (s : Text) × (serialize_v2ray sample (trojan_example ∷ wireguard_example ∷ vless_example ∷ [])
      ≡ ok s)
    × (Option.map (λ r. r.nodes) (parse_v2ray_subscription sample s 5)
        ≡ some (take 5 (trojan_kept trojan_example ∷ vless_kept vless_example ∷ [])))
parse_v2ray_subscription-serialize_v2ray_example =
    parse_v2ray_subscription-serialize_v2ray sample sample-Documented
      (trojan_example ∷ wireguard_example ∷ vless_example ∷ []) (trojan_kept trojan_example)
      (vless_kept vless_example ∷ []) 5 three_nodes-Sends
      (λ s e.
        subst (λ t. length t ≤ max_base64_len) (Serialized-injective three_nodes_written e)
          three_nodes_short)
