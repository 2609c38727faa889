-- ===== src/Protocols/Vmess.antt =====
-- crates/proxy-core/src/protocols/vmess.rs.
pub mod Object
pub mod Kept
pub mod RoundTrip
use mathlib.Core.Option
use sub_merge.Base.{ℕ, Bool, true, false, ◌||◌, Option, none, some, List, [], ◌∷◌, ◌++◌}
use sub_merge.Base.Tests.{if◌then◌else◌}
use sub_merge.Base.Text.{Text, str, eqb, is_empty, utf8, starts_with, strip_prefix}
use sub_merge.Base.Split.{join}
use sub_merge.Base.Decimal.{to_string, parse_u16}
use sub_merge.Base.Result.{ok, ◌>>=◌, ◌>>◌, ok_or}
use sub_merge.Crates.{Json, bool, number, string, object, Members, end, member, Crates}
use sub_merge.Error.{
  unsupported_protocol, invalid_uri, invalid_port, missing_field, missing, Parsed, require,
  Serialized,
}
use sub_merge.Model.{vmess, Transport, TlsSettings, ProxyNode, new_node, over_http_upgrade}
use sub_merge.Uri.{decode_base64_url_string}
use sub_merge.Protocols.Parts.{
  or_default, or_else, check_kind, truthy, comma_list, stream_of, transport_of,
}

unfoldable pub is_vmess : Text → Bool
is_vmess uri = starts_with uri (str "vmess://")

-- The closure `get`: a string, a number or a Boolean under a key, as text.
as_text : Json → Option Text
as_text (string s) = some s
as_text (number n) = some n
as_text (bool b) = some (if b then str "true" else str "false")
as_text _ = none

lookup : Text → Members → Option Json
lookup key end = none
lookup key (member name v ms) = if eqb name key then some v else lookup key ms

unfoldable pub get : Json → Text → Option Text
unfolding as_text lookup
get (object ms) key = Option.bind (lookup key ms) as_text
get _ key = none

abbrev get_or : Option Text → Text → Text
get_or none d = d
get_or (some s) d = s

-- `filter(|s| !s.is_empty())`
abbrev nonempty : Option Text → Option Text
nonempty none = none
nonempty (some s) = if is_empty s then none else some s

filter_nonempty : List Text → List Text
filter_nonempty [] = []
filter_nonempty (w ∷ ws) = let rest = filter_nonempty ws in if is_empty w then rest else w ∷ rest

abbrev is_some_of : Option Text → Text → Bool
is_some_of none s = false
is_some_of (some t) s = eqb t s

abbrev tls_enabled : Json → Bool
tls_enabled v =
    is_some_of (get v (str "tls")) (str "tls")
    || (is_some_of (get v (str "tls")) (str "xtls")
        || (is_some_of (get v (str "tls")) (str "reality")
            || is_some_of (get v (str "security")) (str "tls")))

alpn_of : Json → List Text
unfolding filter_nonempty
alpn_of v = elim (get v (str "alpn")) [ none ↦ [] | some a ↦ filter_nonempty (comma_list a) ]

insecure_of : Json → Bool
insecure_of v = elim (get v (str "allowInsecure")) [ none ↦ false | some s ↦ truthy s ]

pub vmess_tls : Json → Option TlsSettings
unfolding alpn_of insecure_of
vmess_tls v =
    if tls_enabled v
    then some (record {
      enabled = true;
      sni = or_else (nonempty (get v (str "sni"))) (get v (str "host"));
      alpn = alpn_of v;
      insecure = insecure_of v;
      fingerprint = nonempty (get v (str "fp"));
    })
    else none

-- The `match net.as_str()`, in which "http" is an HTTP upgrade too.
pub vmess_transport : Text → Text → Option Text → Option Transport
vmess_transport net path host =
    if eqb net (str "http") then some (over_http_upgrade path host) else transport_of net path host

unfoldable pub vmess_node : Json → Parsed ProxyNode
unfolding vmess_tls vmess_transport
vmess_node v = do
  server ← require (get v (str "add")) (missing_field (str "add"))
  port ← require (Option.bind (get v (str "port")) parse_u16) invalid_port
  ok (record (new_node (or_default (get v (str "ps"))) vmess server port) {
    uuid = get v (str "id");
    alter_id = Option.bind (get v (str "aid")) parse_u16;
    tls = vmess_tls v;
    transport =
        vmess_transport (get_or (get v (str "net")) (str "tcp")) (or_default (get v (str "path")))
          (get v (str "host"));
  })

unfoldable pub parse_vmess : Crates → Text → Parsed ProxyNode
parse_vmess k uri = do
  payload ← require (strip_prefix (str "vmess://") uri) unsupported_protocol
  json_str ← decode_base64_url_string k payload
  v ← require (k.json_from_str json_str) (invalid_uri uri)
  vmess_node v

-- `obj.insert(key, json!(value))`, with the rest of the object behind it.
abbrev insert : Text → Text → Members → Members
insert key value = member key (string value)

-- `if !value.is_empty() { obj.insert(…) }`
abbrev insert_nonempty : Text → Text → Members → Members
insert_nonempty key value ms = if is_empty value then ms else insert key value ms

abbrev tls_field {ℓ} : {A : Type ℓ} → Option TlsSettings → (TlsSettings → A) → A → A
tls_field none f d = d
tls_field (some t) f d = f t

unfoldable pub alter_id_or_zero : Option ℕ → ℕ
alter_id_or_zero none = 0
alter_id_or_zero (some n) = n

unfoldable pub vmess_object : ProxyNode → Members
unfolding alter_id_or_zero
vmess_object node =
    let st = stream_of (str "http") node.transport in
    insert (str "v") (str "2") (
      insert (str "ps") node.name (
        insert (str "add") node.server (
          insert (str "port") (to_string node.port) (
            insert (str "id") (or_default node.uuid) (
              insert (str "aid") (to_string (alter_id_or_zero node.alter_id)) (
                insert (str "net") st.net (
                  insert (str "type") (str "none") (
                    insert (str "path") st.path (
                      insert_nonempty (str "host") st.host (
                        insert (str "tls")
                          (if tls_field node.tls (λ t. t.enabled) false
                            then str "tls"
                            else str "none")
                          (insert_nonempty (str "sni")
                            (tls_field node.tls (λ t. or_default t.sni) [])
                            (insert_nonempty (str "alpn")
                              (tls_field node.tls (λ t. join (b',' ∷ []) t.alpn) [])
                              (insert_nonempty (str "fp")
                                (tls_field node.tls (λ t. or_default t.fingerprint) [])
                                (insert (str "allowInsecure")
                                  (if tls_field node.tls (λ t. t.insecure) false
                                    then str "1"
                                    else str "0")
                                  end))))))))))))))

unfoldable pub serialize_vmess : Crates → ProxyNode → Serialized Text
serialize_vmess k node = do
  check_kind vmess node
  s ← ok_or (k.json_to_string (object (vmess_object node))) (missing (str "json"))
  ok (str "vmess://" ++ k.encode_standard (utf8 s))
