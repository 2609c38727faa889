-- ===== src/Crates/Sample/Base64.antt =====
-- Base64 by groups of three bytes.
use mathlib.Core.Option
use sub_merge.Base.{
  ℕ, suc, ◌+◌, ◌-◌, ◌*◌, ◌/◌, ◌%◌, ◌<◌, ◌≡◌, refl, ◌∙◌, ◌≢◌, false, not, ◌&&◌, Option, none, some,
  [], ◌∷◌, ◌++◌, arith,
}
use sub_merge.Base.Tests.{ltb, ◌==◌, within, if◌then◌else◌}
use sub_merge.Base.Lists.{length, All}
use sub_merge.Base.Text.{Text, Bytes}
use sub_merge.Crates.Laws.{IsByte, is_base64, IsBase64, padding}

digit : ℕ → ℕ
digit n =
    if ltb n 26
    then 65 + n
    else if ltb n 52
    then 71 + n
    else if ltb n 62
    then n - 4
    else if n == 62
    then b'+'
    else b'/'

value : ℕ → ℕ
value c =
    if within b'A' b'Z' c
    then c - 65
    else if within b'a' b'z' c
    then c - 71
    else if within b'0' b'9' c
    then c + 4
    else if c == b'+'
    then 62
    else 63

value-digit : (n : ℕ) → n < 64 → value (digit n) ≡ n
unfolding value digit
value-digit n h = ground arith

value-digit_mod : (n : ℕ) → value (digit (n % 64)) ≡ n % 64
value-digit_mod n = value-digit (n % 64) (omega arith)

digit-IsBase64 : (n : ℕ) → IsBase64 (digit (n % 64))
unfolding digit
digit-IsBase64 n = ground arith

unfoldable pub encode_groups : Bytes → Text
unfolding digit
encode_groups [] = []
encode_groups (a ∷ []) = digit (a / 4 % 64) ∷ digit (a % 4 * 16 % 64) ∷ []
encode_groups (a ∷ (b ∷ [])) =
    digit (a / 4 % 64) ∷ digit ((a % 4 * 16 + b / 16) % 64) ∷ digit (b % 16 * 4 % 64) ∷ []
encode_groups (a ∷ (b ∷ (c ∷ s))) =
    digit (a / 4 % 64)
    ∷ digit ((a % 4 * 16 + b / 16) % 64)
    ∷ digit ((b % 16 * 4 + c / 64) % 64)
    ∷ digit (c % 64)
    ∷ encode_groups s

unfoldable pub encode_padded : Bytes → Text
encode_padded bs = encode_groups bs ++ padding (length (encode_groups bs))

abbrev one_byte : ℕ → ℕ → Bytes
one_byte w x = (w * 4 + x / 16) ∷ []

abbrev two_bytes : ℕ → ℕ → ℕ → Bytes
two_bytes w x y = (w * 4 + x / 16) ∷ (x % 16 * 16 + y / 4) ∷ []

abbrev three_bytes : ℕ → ℕ → ℕ → ℕ → Bytes → Bytes
three_bytes w x y z s = (w * 4 + x / 16) ∷ (x % 16 * 16 + y / 4) ∷ (y % 4 * 64 + z) ∷ s

unfoldable pub decode_groups : Bytes → Option Bytes
unfolding value
decode_groups [] = some []
decode_groups (w ∷ (x ∷ (y ∷ (z ∷ s)))) =
    let rest = decode_groups s in
    if not (is_base64 w && is_base64 x)
    then none
    else if y == b'='
    then some (one_byte (value w) (value x))
    else if z == b'='
    then some (two_bytes (value w) (value x) (value y))
    else Option.map (three_bytes (value w) (value x) (value y) (value z)) rest
decode_groups (w ∷ s) = none

IsBase64-ne-pad : (c : ℕ) → IsBase64 c → (c == b'=') ≡ false
IsBase64-ne-pad c h = ground arith

decode_three :
    (w x y z : ℕ) (s : Bytes)
    → IsBase64 w
    → IsBase64 x
    → IsBase64 y
    → IsBase64 z
    → decode_groups (w ∷ x ∷ y ∷ z ∷ s)
      ≡ Option.map (three_bytes (value w) (value x) (value y) (value z)) (decode_groups s)
decode_three w x y z s a b c d =
    unfold decode_groups in rw a (rw b (rw (IsBase64-ne-pad y c) (rw (IsBase64-ne-pad z d))))

decode_two :
    (w x y : ℕ)
    → IsBase64 w
    → IsBase64 x
    → IsBase64 y
    → decode_groups (w ∷ x ∷ y ∷ b'=' ∷ []) ≡ some (two_bytes (value w) (value x) (value y))
decode_two w x y a b c = unfold decode_groups in rw a (rw b (rw (IsBase64-ne-pad y c)))

decode_one :
    (w x : ℕ)
    → IsBase64 w
    → IsBase64 x
    → decode_groups (w ∷ x ∷ b'=' ∷ b'=' ∷ []) ≡ some (one_byte (value w) (value x))
decode_one w x a b = unfold decode_groups in rw a (rw b)

padding-add-four : (n : ℕ) → padding (suc (suc (suc (suc n)))) ≡ padding n
padding-add-four n = ground arith

pub decode-encode_padded : (bs : Bytes) → All IsByte bs → decode_groups (encode_padded bs) ≡ some bs
unfolding encode_padded encode_groups
decode-encode_padded [] h = unfold decode_groups in refl
decode-encode_padded (a ∷ []) h =
    decode_one _ _ (digit-IsBase64 (a / 4)) (digit-IsBase64 (a % 4 * 16))
    ∙ ground (arith, value-digit_mod (a / 4), value-digit_mod (a % 4 * 16))
decode-encode_padded (a ∷ (b ∷ [])) h =
    decode_two _ _ _ (digit-IsBase64 (a / 4)) (digit-IsBase64 (a % 4 * 16 + b / 16))
      (digit-IsBase64 (b % 16 * 4))
    ∙ ground (
      arith,
      value-digit_mod (a / 4),
      value-digit_mod (a % 4 * 16 + b / 16),
      value-digit_mod (b % 16 * 4),
    )
decode-encode_padded (a ∷ (b ∷ (c ∷ s))) (p, (q, (r, h))) =
    decode_three _ _ _ _ _ (digit-IsBase64 (a / 4)) (digit-IsBase64 (a % 4 * 16 + b / 16))
      (digit-IsBase64 (b % 16 * 4 + c / 64)) (digit-IsBase64 c)
    ∙ rw (padding-add-four (length (encode_groups s))) (
        rw (decode-encode_padded s h) (
          ground (
            arith,
            value-digit_mod (a / 4),
            value-digit_mod (a % 4 * 16 + b / 16),
            value-digit_mod (b % 16 * 4 + c / 64),
            value-digit_mod c,
          )))

pub encode_groups-IsBase64 : (bs : Bytes) → All IsBase64 (encode_groups bs)
unfolding encode_groups
encode_groups-IsBase64 [] = tt
encode_groups-IsBase64 (a ∷ []) = (digit-IsBase64 (a / 4), (digit-IsBase64 (a % 4 * 16), tt))
encode_groups-IsBase64 (a ∷ (b ∷ [])) = (
  digit-IsBase64 (a / 4),
  (digit-IsBase64 (a % 4 * 16 + b / 16), (digit-IsBase64 (b % 16 * 4), tt)),
)
encode_groups-IsBase64 (a ∷ (b ∷ (c ∷ s))) = (
  digit-IsBase64 (a / 4),
  (
    digit-IsBase64 (a % 4 * 16 + b / 16),
    (digit-IsBase64 (b % 16 * 4 + c / 64), (digit-IsBase64 c, encode_groups-IsBase64 s)),
  ),
)

pub encode_groups-length : (bs : Bytes) → length (encode_groups bs) % 4 ≢ 1
unfolding encode_groups
encode_groups-length [] = omega arith
encode_groups-length (a ∷ []) = omega arith
encode_groups-length (a ∷ (b ∷ [])) = omega arith
encode_groups-length (a ∷ (b ∷ (c ∷ s))) = omega (arith, encode_groups-length s)

pub encode_padded_lem :
    (bs : Bytes) → encode_padded bs ≡ encode_groups bs ++ padding (length (encode_groups bs))
unfolding encode_padded
encode_padded_lem bs = refl
