-- ===== src/Protocols/Ssr.antt =====
-- crates/proxy-core/src/protocols/ssr.rs.
use mathlib.Core.Option
use sub_merge.Base.{ℕ, zero, suc, Bool, Option, none, some, List, [], ◌∷◌, ◌++◌}
use sub_merge.Base.Tests.{◌==◌, if◌then◌else◌}
use sub_merge.Base.Lists.{take, drop}
use sub_merge.Base.Text.{Text, str, eqb, utf8, starts_with, strip_prefix, trim_start_matches}
use sub_merge.Base.Split.{split_once, split}
use sub_merge.Base.Decimal.{to_string, parse_u16}
use sub_merge.Base.Result.{ok, err, ◌>>=◌, ◌>>◌, ok_or}
use sub_merge.Crates.{Crates}
use sub_merge.Error.{
  unsupported_protocol, invalid_uri, invalid_port, missing, panicked, Parsed, fail, require,
  Serialized,
}
use sub_merge.Model.{ssr, Crypto, crypto_from_str, crypto_as_str, ProxyNode, new_node}
use sub_merge.Uri.{decode_base64_url_string}
use sub_merge.Protocols.Parts.{or_else, check_kind}

unfoldable pub is_ssr : Text → Bool
is_ssr uri = starts_with uri (str "ssr://")

-- `find(pattern)`
unfoldable pub find : Text → Text → Option ℕ
find p [] = if starts_with [] p then some 0 else none
find p (c ∷ s) = if starts_with (c ∷ s) p then some 0 else Option.map suc (find p s)

-- `find("/?").or_else(|| find('?'))`
unfoldable pub separator : Text → Option ℕ
unfolding find
separator s = or_else (find (str "/?") s) (find (str "?") s)

-- `decoded.as_bytes()[i]`; the tests on it are against ASCII, so the character serves.
abbrev pub char_at : Text → ℕ → ℕ
char_at [] i = 0
char_at (c ∷ s) zero = c
char_at (c ∷ s) (suc i) = char_at s i

-- `as_bytes()[i - 1]` is out of bounds at `i == 0`, where `i - 1` has no value.
unfoldable pub cut_main : Text → Option ℕ → Parsed (Text × Text)
cut_main s none = ok (s, [])
cut_main s (some zero) = err panicked
cut_main s (some (suc i)) =
    if char_at s i == b'/'
    then ok (take i s, drop (suc i) s)
    else ok (take (suc i) s, drop (suc i) s)

-- One round of `for kv in query.split('&')`, on the name so far.
unfoldable pub remarks_step : Crates → Text → Text → Text
remarks_step k name kv =
    elim (split_once b'=' (trim_start_matches b'?' (trim_start_matches b'/' kv))) [
      | none ↦ name
      | some (key, v) ↦
          if eqb key (str "remarks")
          then elim (decode_base64_url_string k v) [ ok s ↦ s | err e ↦ [] ]
          else name
    ]

unfoldable pub remarks : Crates → Text → List Text → Text
unfolding remarks_step
remarks k name [] = name
remarks k name (kv ∷ kvs) = remarks k (remarks_step k name kv) kvs

-- The main segment, `server:port:protocol:method:obfs:base64(password)`.
unfoldable pub ssr_node : Crates → Text → Text → List Text → Parsed ProxyNode
ssr_node k decoded query (server ∷ port_str ∷ protocol ∷ method ∷ obfs ∷ password_b64 ∷ more) = do
  port ← require (parse_u16 port_str) invalid_port
  password ← decode_base64_url_string k password_b64
  ok (record (new_node (remarks k [] (split b'&' query)) ssr server port) {
    crypto = some (crypto_from_str method);
    password = some password;
  })
ssr_node k decoded query _ = fail (invalid_uri decoded)

unfoldable pub parse_ssr_decoded : Crates → Text → Parsed ProxyNode
unfolding separator cut_main ssr_node remarks
parse_ssr_decoded k decoded = do
  (main, query) ← cut_main decoded (separator decoded)
  ssr_node k decoded query (split b':' main)

unfoldable pub parse_ssr : Crates → Text → Parsed ProxyNode
unfolding parse_ssr_decoded
parse_ssr k uri = do
  payload ← require (strip_prefix (str "ssr://") uri) unsupported_protocol
  decoded ← decode_base64_url_string k payload
  parse_ssr_decoded k decoded

-- The text under the outer base64.
abbrev pub ssr_plain : Crates → ProxyNode → Crypto → Text → Text
ssr_plain k node crypto password =
    node.server
    ++ (b':'
        ∷ (to_string node.port
            ++ (str ":auth_aes128_md5:"
                ++ (crypto_as_str crypto
                    ++ (str ":plain:"
                        ++ (k.encode_url_safe (utf8 password)
                            ++ (str "/?remarks=" ++ k.encode_url_safe (utf8 node.name))))))))

unfoldable pub serialize_ssr : Crates → ProxyNode → Serialized Text
serialize_ssr k node = do
  check_kind ssr node
  crypto ← ok_or node.crypto (missing (str "crypto"))
  password ← ok_or node.password (missing (str "password"))
  ok (str "ssr://" ++ k.encode_url_safe (utf8 (ssr_plain k node crypto password)))
