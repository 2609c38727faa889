-- ===== src/Protocols/Ss.antt =====
-- crates/proxy-core/src/protocols/ss.rs.
pub mod RoundTrip
use sub_merge.Base.{Bool, none, some, List, [], ◌∷◌, ◌++◌}
use sub_merge.Base.Tests.{if◌then◌else◌}
use sub_merge.Base.Lists.{any}
use sub_merge.Base.Text.{
  Text, str, eqb, utf8, starts_with, strip_prefix, trim_end_matches, to_ascii_lowercase,
}
use sub_merge.Base.Split.{split_once}
use sub_merge.Base.Decimal.{to_string}
use sub_merge.Base.Result.{ok, ◌>>=◌, ◌>>◌, ok_or}
use sub_merge.Crates.{Crates}
use sub_merge.Error.{unsupported_protocol, invalid_uri, missing, Parsed, require, Serialized}
use sub_merge.Model.{
  ss, Crypto, salsa20, plain, crypto_from_str, crypto_as_str, ProxyNode, new_node,
}
use sub_merge.Uri.{decode_base64_url_string, percent_decode, split_authority, parse_host_port}
use sub_merge.Protocols.Parts.{cut, or_default, check_kind, fragment}

unfoldable pub is_ss : Text → Bool
is_ss uri = starts_with uri (str "ss://")

known_methods : List Text
known_methods =
    str "aes-256-gcm"
    ∷ str "aes-128-gcm"
    ∷ str "chacha20-ietf-poly1305"
    ∷ str "aes-128-cfb"
    ∷ str "aes-192-cfb"
    ∷ str "aes-256-cfb"
    ∷ str "chacha20-ietf"
    ∷ str "salsa20"
    ∷ str "rc4-md5"
    ∷ str "2022-blake3-aes-256-gcm"
    ∷ str "2022-blake3-aes-128-gcm"
    ∷ str "2022-blake3-chacha20-poly1305"
    ∷ str "none"
    ∷ str "plain"
    ∷ []

unfoldable pub is_known_method : Text → Bool
unfolding known_methods
is_known_method m = any (eqb (to_ascii_lowercase m)) known_methods

-- The legacy form, `base64(method:password)`.
unfoldable pub legacy_userinfo : Crates → Text → Parsed (Crypto × Text)
legacy_userinfo k userinfo = do
  decoded ← decode_base64_url_string k userinfo
  (method, password) ← require (split_once b':' decoded) (invalid_uri userinfo)
  ok (crypto_from_str method, password)

-- Plain text if a known cipher stands before the first colon.
unfoldable pub parse_userinfo : Crates → Text → Parsed (Crypto × Text)
unfolding legacy_userinfo
parse_userinfo k userinfo = elim (split_once b':' userinfo) [
  | none ↦ legacy_userinfo k userinfo
  | some (method, rest) ↦
      if is_known_method method
      then (do password ← percent_decode k rest; ok (crypto_from_str method, password))
      else legacy_userinfo k userinfo
]

unfoldable pub parse_ss : Crates → Text → Parsed ProxyNode
parse_ss k uri = do
  rest ← require (strip_prefix (str "ss://") uri) unsupported_protocol
  let (auth, fragment) = cut b'#' rest
  let (userinfo_and_host, query) = cut b'?' auth
  let (userinfo, hostport) = split_authority userinfo_and_host
  (server, port) ← parse_host_port (trim_end_matches b'/' hostport)
  (crypto, password) ← parse_userinfo k userinfo
  ok (record (new_node (or_default fragment) ss server port) {
    crypto = some crypto;
    password = some password;
  })

unfoldable pub serialize_ss : Crates → ProxyNode → Serialized Text
serialize_ss k node = do
  check_kind ss node
  crypto ← ok_or node.crypto (missing (str "crypto"))
  password ← ok_or node.password (missing (str "password"))
  let b64 = k.encode_no_pad (utf8 (crypto_as_str crypto ++ (b':' ∷ password)))
  ok (
      str "ss://"
      ++ (b64 ++ (b'@' ∷ (node.server ++ (b':' ∷ (to_string node.port ++ fragment node.name))))))
