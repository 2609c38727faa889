-- ===== src/Model/Names.antt =====
-- The names of protocols and ciphers: what `as_str` after `from_str` keeps.
use sub_merge.Base.{◌≡◌, refl, Bool, ◌||◌, some, arith}
use sub_merge.Base.Tests.{if◌then◌else◌}
use sub_merge.Base.Text.{Text, str, eqb, eqb_iff, lower_char, to_ascii_lowercase}
use sub_merge.Model.{
  Protocol, ss, protocol_as_str, protocol_from_str, crypto_from_str, crypto_as_str, crypto_of_lower,
}

lower-as_str : (p : Protocol) → to_ascii_lowercase (protocol_as_str p) ≡ protocol_as_str p
unfolding protocol_as_str lower_char
lower-as_str ss = refl
lower-as_str _ = refl

-- Every protocol is read back from its own name.
pub from_str-as_str : (p : Protocol) → protocol_from_str (protocol_as_str p) ≡ some p
unfolding protocol_from_str protocol_as_str lower_char eqb
from_str-as_str ss = refl
from_str-as_str _ = refl

abbrev pub is_plain_alias : Text → Bool
is_plain_alias s = eqb s (str "2022-blake3-aes-256-gcm") || eqb s (str "none")

as_str-of_lower :
    (s : Text) → crypto_as_str (crypto_of_lower s) ≡ (if is_plain_alias s then str "plain" else s)
unfolding crypto_of_lower crypto_as_str
as_str-of_lower s = ground (
  arith,
  eqb_iff s (str "aes-256-gcm"),
  eqb_iff s (str "aes-128-gcm"),
  eqb_iff s (str "chacha20-ietf-poly1305"),
  eqb_iff s (str "aes-128-cfb"),
  eqb_iff s (str "aes-192-cfb"),
  eqb_iff s (str "aes-256-cfb"),
  eqb_iff s (str "chacha20-ietf"),
  eqb_iff s (str "salsa20"),
  eqb_iff s (str "rc4-md5"),
  eqb_iff s (str "2022-blake3-aes-256-gcm"),
  eqb_iff s (str "none"),
  eqb_iff s (str "plain"),
)

-- Reading a cipher and printing it gives the text in lower case, except that the two aliases of
-- `plain` ("none" and "2022-blake3-aes-256-gcm") come back as "plain".
pub as_str-from_str :
    (s : Text)
    → crypto_as_str (crypto_from_str s)
      ≡ (if is_plain_alias (to_ascii_lowercase s) then str "plain" else to_ascii_lowercase s)
unfolding crypto_from_str
as_str-from_str s = as_str-of_lower (to_ascii_lowercase s)
