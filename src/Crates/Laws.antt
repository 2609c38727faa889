-- ===== src/Crates/Laws.antt =====
-- What the documentation of base64 and percent-encoding says of the functions of `Crates`.
use sub_merge.Base.{ℕ, ◌%◌, ◌<◌, ◌≡◌, ◌≢◌, ◌⊎◌, Bool, true, false, ◌||◌, some, [], ◌∷◌, ◌++◌, map}
use sub_merge.Base.Tests.{◌==◌, within, if◌then◌else◌}
use sub_merge.Base.Lists.{length, All}
use sub_merge.Base.Text.{Text, Bytes, is_ascii_alphanumeric, IsScalar, Absent}
use sub_merge.Crates.{Crates}

abbrev pub IsByte : ℕ → Type 0
IsByte b = b < 256

-- The standard alphabet of base64, without the padding.
abbrev pub is_base64 : ℕ → Bool
is_base64 c = is_ascii_alphanumeric c || (c == b'+' || c == b'/')

abbrev pub IsBase64 : ℕ → Type 0
IsBase64 c = is_base64 c ≡ true

-- How many `=` pad a body of this length to a multiple of four.
abbrev pub padding : ℕ → Text
padding n = if n % 4 == 2 then b'=' ∷ b'=' ∷ [] else if n % 4 == 3 then b'=' ∷ [] else []

-- The URL-safe alphabet has `-` and `_` for `+` and `/`.
abbrev pub url_safe : ℕ → ℕ
url_safe c = if c == b'+' then b'-' else if c == b'/' then b'_' else c

-- What percent-encoding leaves: `%`, a hexadecimal digit, or an ASCII character not in the set.
abbrev pub IsEncoded : (ℕ → Bool) → ℕ → Type 0
IsEncoded in_set c =
    (c ≡ b'%')
    ⊎ (within b'0' b'9' c ≡ true)
    ⊎ (within b'A' b'F' c ≡ true)
    ⊎ ((in_set c ≡ false) × (c < 128))

pub record Documented (k : Crates) : Type 0 where
  pub decode-encode_standard :
      (bs : Bytes) → All IsByte bs → k.decode_standard (k.encode_standard bs) ≡ some bs
  pub encode_no_pad-IsBase64 : (bs : Bytes) → All IsBase64 (k.encode_no_pad bs)
  pub encode_no_pad-length : (bs : Bytes) → length (k.encode_no_pad bs) % 4 ≢ 1
  pub encode_standard-padded :
      (bs : Bytes)
      → k.encode_standard bs ≡ k.encode_no_pad bs ++ padding (length (k.encode_no_pad bs))
  pub encode_url_safe-alphabet :
      (bs : Bytes) → k.encode_url_safe bs ≡ map url_safe (k.encode_no_pad bs)
  pub percent_decode-encode :
      (in_set : ℕ → Bool) (s : Text)
      → in_set b'%' ≡ true
      → All IsScalar s
      → k.percent_decode_utf8 (k.percent_encode in_set s) ≡ some s
  pub percent_decode_plain :
      (s : Text) → Absent b'%' s → All IsScalar s → k.percent_decode_utf8 s ≡ some s
  pub percent_encode-nil : (in_set : ℕ → Bool) → k.percent_encode in_set [] ≡ []
  pub percent_encode-IsEncoded :
      (in_set : ℕ → Bool) (s : Text) → All (IsEncoded in_set) (k.percent_encode in_set s)
