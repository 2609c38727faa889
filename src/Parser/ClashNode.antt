-- ===== src/Parser/ClashNode.antt =====
--  and `clash_proxy_to_node` of crates/proxy-core/src/parser.rs.
use mathlib.Core.Option
use sub_merge.Base.{
  ℕ, inl, inr, Bool, true, false, not, ◌||◌, Option, none, some, List, [], ◌∷◌, map,
}
use sub_merge.Base.Tests.{ltb, ◌==◌, if◌then◌else◌}
use sub_merge.Base.Text.{Text, str, eqb, lower_char}
use sub_merge.Base.Decimal.{u16_size}
use sub_merge.Base.Result.{ok}
use sub_merge.Crates.{
  bool, number, string, end, Yaml, sequence, mapping, Items, nil, cons, Entries, entry, Crates,
}
use sub_merge.Error.{invalid_uri, Parsed, fail}
use sub_merge.Model.{
  protocol_from_str, Crypto, crypto_from_str, Transport, TlsSettings, ProxyNode, new_node,
  over_websocket, over_grpc,
}
use sub_merge.Protocols.Parts.{or_default, or_else}

-- `p.get("key")`: `none` on what is no mapping.
unfoldable pub find_entry : Text → Entries → Option Yaml
find_entry key end = none
find_entry key (entry (string name) v es) = if eqb name key then some v else find_entry key es
find_entry key (entry other v es) = find_entry key es

get : Yaml → Text → Option Yaml
unfolding find_entry
get (mapping es) key = find_entry key es
get _ key = none

abbrev as_str : Yaml → Option Text
as_str (string s) = some s
as_str _ = none

abbrev as_bool : Yaml → Option Bool
as_bool (bool b) = some b
as_bool _ = none

abbrev as_u64 : Yaml → Option ℕ
as_u64 (number n s) = n
as_u64 _ = none

abbrev get_str : Yaml → Text → Option Text
get_str p key = Option.bind (get p key) as_str

abbrev get_bool : Yaml → Text → Bool
get_bool p key = elim (Option.bind (get p key) as_bool) [ none ↦ false | some b ↦ b ]

-- `try_into::<u16>().ok()`
abbrev to_u16 : ℕ → Option ℕ
to_u16 n = if ltb n u16_size then some n else none

strings_of : Items → List Text
strings_of nil = []
strings_of (cons (string s) vs) = s ∷ strings_of vs
strings_of (cons other vs) = strings_of vs

abbrev sequence_of : Option Yaml → List Text
sequence_of (some (sequence vs)) = strings_of vs
sequence_of _ = []

-- TLS is on for `trojan`, under `tls: true`, or under a `security` other than "none".
tls_on : Text → Yaml → Bool
tls_on ty p =
    eqb ty (str "trojan")
    || (get_bool p (str "tls")
        || elim (get_str p (str "security")) [ none ↦ false | some s ↦ not (eqb s (str "none")) ])

clash_tls : Text → Yaml → Option TlsSettings
unfolding tls_on strings_of
clash_tls ty p =
    if tls_on ty p
    then some (record {
      enabled = true;
      sni = or_else (get_str p (str "sni")) (get_str p (str "servername"));
      alpn = sequence_of (get p (str "alpn"));
      insecure = get_bool p (str "skip-cert-verify");
      fingerprint = get_str p (str "client-fingerprint");
    })
    else none

-- A cipher other than "auto".
clash_crypto : Yaml → Option Crypto
clash_crypto p = elim (Option.bind (or_else (get p (str "cipher")) (get p (str "method"))) as_str) [
  | none ↦ none
  | some c ↦ if eqb c (str "auto") then none else some (crypto_from_str c)
]

abbrev in_opts : Yaml → Text → Text → Option Yaml
in_opts p opts key = Option.bind (get p opts) (λ o. get o key)

clash_transport : Yaml → Option Transport
clash_transport p =
    let net : Text = elim (get_str p (str "network")) [ none ↦ str "tcp" | some s ↦ s ] in
    if eqb net (str "ws") || eqb net (str "websocket")
    then some (
        over_websocket (or_default (Option.bind (in_opts p (str "ws-opts") (str "path")) as_str))
          (Option.bind (in_opts p (str "ws-opts") (str "headers")) (λ h. get_str h (str "Host"))))
    else if eqb net (str "grpc")
    then some (
        over_grpc
          (or_default (Option.bind (in_opts p (str "grpc-opts") (str "grpc-service-name")) as_str)))
    else none

clash_alter_id : Yaml → Option ℕ
clash_alter_id p =
    Option.bind (Option.bind (or_else (get p (str "alterId")) (get p (str "alter-id"))) as_u64)
      to_u16

-- `to_lowercase`, as far as a comparison with ASCII names sees it: besides the ASCII letters only
-- the Kelvin sign has an ASCII lower case, and other characters stay outside of ASCII.
abbrev to_lowercase : Text → Text
to_lowercase = map (λ c. if c == 0x212a then b'k' else lower_char c)

unfoldable pub clash_proxy_to_node : Yaml → Option ProxyNode
unfolding get clash_tls clash_crypto clash_transport clash_alter_id lower_char
clash_proxy_to_node p = Option.bind (get_str p (str "name")) λ name.
    Option.bind (get_str p (str "type")) λ ty. Option.bind (get_str p (str "server")) λ server.
      Option.bind (Option.bind (get p (str "port")) as_u64) λ n. Option.bind (to_u16 n) λ port.
        Option.bind (protocol_from_str (to_lowercase ty)) λ kind.
          some (record (new_node name kind server port) {
            password = get_str p (str "password");
            uuid = get_str p (str "uuid");
            alter_id = clash_alter_id p;
            crypto = clash_crypto p;
            tls = clash_tls (to_lowercase ty) p;
            transport = clash_transport p;
          })

-- The loop over `proxies`: what is no node is left out.
clash_nodes : Items → List ProxyNode
unfolding clash_proxy_to_node
clash_nodes nil = []
clash_nodes (cons p ps) = elim (clash_proxy_to_node p) [
  | none ↦ clash_nodes ps
  | some n ↦ n ∷ clash_nodes ps
]

-- `doc.get("proxies").and_then(|p| p.as_sequence())`
abbrev proxies_of : Option Yaml → List ProxyNode
unfolding clash_nodes
proxies_of (some (sequence ps)) = clash_nodes ps
proxies_of _ = []

unfoldable pub parse_clash_yaml : Crates → Text → Parsed (List ProxyNode)
unfolding clash_nodes
parse_clash_yaml k text = elim (k.yaml_from_str text) [
  | inl message ↦ fail (invalid_uri message)
  | inr doc ↦ ok (proxies_of (get doc (str "proxies")))
]
