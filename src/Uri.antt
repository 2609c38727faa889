-- ===== src/Uri.antt =====
-- crates/proxy-core/src/uri.rs: base64 in either alphabet, percent-encoding, and the authority
-- part of a URI.
pub mod Base64
pub mod Percent
pub mod Authority
use sub_merge.Base.{ℕ, suc, ◌*◌, ◌%◌, Bool, not, ◌&&◌, ◌||◌, Option, none, some, [], ◌∷◌, ◌++◌, map}
use sub_merge.Base.Tests.{ltb, ◌==◌, if◌then◌else◌}
use sub_merge.Base.Lists.{length, take}
use sub_merge.Base.Text.{Text, Bytes, utf8, len, strip_prefix, trim, is_ascii_alphanumeric}
use sub_merge.Base.Utf8.{from_utf8}
use sub_merge.Base.Split.{split_once, rsplit_once}
use sub_merge.Base.Decimal.{parse_below, parse_u16}
use sub_merge.Base.Result.{◌>>=◌, ok, err}
use sub_merge.Crates.{Crates}
use sub_merge.Error.{invalid_uri, invalid_base64, invalid_port, Parsed, fail, require}

abbrev pub max_base64_len : ℕ
max_base64_len = 4 * 1024 * 1024

-- `rposition(p)`: the index of the last element that passes.
rposition : (ℕ → Bool) → Bytes → Option ℕ
rposition p [] = none
rposition p (b ∷ bs) = elim (rposition p bs) [
  | some i ↦ some (suc i)
  | none ↦ if p b then some 0 else none
]

-- `map_or(0, |i| i + 1)`
abbrev end_of : Option ℕ → ℕ
end_of none = 0
end_of (some i) = suc i

-- The bytes before the trailing `=`s.
unfoldable pub unpadded : Bytes → Bytes
unfolding rposition
unpadded t = take (end_of (rposition (λ b. not (b == b'=')) t)) t

-- The URL-safe alphabet to the standard one.
abbrev pub to_standard : ℕ → ℕ
to_standard b = if b == b'-' then b'+' else if b == b'_' then b'/' else b

-- The `match buf.len() % 4`; `none` is the early return.
unfoldable pub repad : Bytes → Option Bytes
repad buf =
    let n = length buf % 4 in
    if n == 2
    then some (buf ++ b'=' ∷ b'=' ∷ [])
    else if n == 3
    then some (buf ++ b'=' ∷ [])
    else if n == 1
    then none
    else some buf

module _ (k : Crates) where
  unfoldable pub decode_base64_url : Text → Parsed Bytes
  unfolding unpadded repad trim
  decode_base64_url s = if ltb max_base64_len (len s) then fail (invalid_base64 s) else do
    buf ← require (repad (map to_standard (unpadded (utf8 (trim s))))) (invalid_base64 s)
    require (k.decode_standard buf) (invalid_base64 s)

  unfoldable pub decode_base64_url_string : Text → Parsed Text
  unfolding decode_base64_url from_utf8
  decode_base64_url_string s = do
    bytes ← decode_base64_url s
    require (from_utf8 bytes) (invalid_base64 s)

  unfoldable pub percent_decode : Text → Parsed Text
  percent_decode s = require (k.percent_decode_utf8 s) (invalid_uri s)

  -- `percent_decode(v).unwrap_or_default()`
  abbrev pub percent_decode_or_default : Text → Text
  unfolding percent_decode
  percent_decode_or_default v = elim (percent_decode v) [ ok s ↦ s | err e ↦ [] ]

-- The set of characters to encode: `NON_ALPHANUMERIC` without `-`, `.`, `_` and `~`.
abbrev pub urlencode_set : ℕ → Bool
urlencode_set c =
    not (is_ascii_alphanumeric c) && not (c == b'-' || (c == b'.' || (c == b'_' || c == b'~')))

unfoldable pub urlencode : Crates → Text → Text
urlencode k s = k.percent_encode urlencode_set s

-- Splits at the last `@`; without one all of it is the host part.
unfoldable pub split_authority : Text → Text × Text
unfolding rsplit_once
split_authority auth = elim (rsplit_once b'@' auth) [ none ↦ ([], auth) | some parts ↦ parts ]

-- `[addr]:port`, on what stands behind the bracket.
unfoldable pub bracketed : Text → Text → Parsed (Text × Text)
bracketed s rest = do
  (host, after) ← require (split_once b']' rest) (invalid_uri s)
  port ← require (strip_prefix (b':' ∷ []) after) (invalid_uri s)
  ok (host, port)

unfoldable pub host_and_port : Text → Parsed (Text × Text)
unfolding bracketed
host_and_port s = elim (strip_prefix (b'[' ∷ []) s) [
  | some rest ↦ bracketed s rest
  | none ↦ require (rsplit_once b':' s) (invalid_uri s)
]

unfoldable pub parse_host_port : Text → Parsed (Text × ℕ)
unfolding host_and_port split_once rsplit_once strip_prefix parse_below
parse_host_port s = do
  (host, port_str) ← host_and_port s
  port ← require (parse_u16 port_str) invalid_port
  ok (host, port)
