-- ===== src/Crates/Sample/Percent.antt =====
-- Percent-encoding over the UTF-8 bytes.
use sub_merge.Base.{
  ℕ, ◌+◌, ◌-◌, ◌*◌, ◌/◌, ◌%◌, ◌<◌, ◌≡◌, refl, ap, ◌∙◌, ◌≢◌, inl, inr, Bool, true, false, not, ◌&&◌,
  ◌||◌, Option, some, [], ◌∷◌, ◌++◌, arith,
}
use sub_merge.Base.Tests.{ltb, ◌==◌, within, if◌then◌else◌, Bool-cases}
use sub_merge.Base.Lists.{All, All-append, All-map}
use sub_merge.Base.Text.{
  Text, Bytes, utf8_char, utf8, IsScalar, Absent, IsAscii, utf8-IsAscii, utf8-lt,
}
use sub_merge.Base.Utf8.{from_utf8, from_utf8-utf8}
use sub_merge.Crates.Laws.{IsByte, IsEncoded}

hex : ℕ → ℕ
hex n = if ltb n 10 then 48 + n else 55 + n

is_hex : ℕ → Bool
is_hex c = within b'0' b'9' c || within b'A' b'F' c

unhex : ℕ → ℕ
unhex c = if within b'0' b'9' c then c - 48 else c - 55

unfoldable pub encode_byte : (ℕ → Bool) → ℕ → Text
unfolding hex
encode_byte in_set b =
    if ltb b 128 && not (in_set b) then b ∷ [] else b'%' ∷ hex (b / 16 % 16) ∷ hex (b % 16) ∷ []

unfoldable pub encode_bytes : (ℕ → Bool) → Bytes → Text
unfolding encode_byte
encode_bytes in_set [] = []
encode_bytes in_set (b ∷ bs) = encode_byte in_set b ++ encode_bytes in_set bs

unfoldable pub encode_text : (ℕ → Bool) → Text → Text
unfolding encode_bytes utf8
encode_text in_set s = encode_bytes in_set (utf8 s)

-- `%` in front of two digits is a byte; any other byte stands for itself.
unfoldable pub decode_bytes : Bytes → Bytes
unfolding unhex is_hex
decode_bytes [] = []
decode_bytes (c ∷ (h ∷ (l ∷ s))) = elim (c == b'%' && (is_hex h && is_hex l)) [
  | true ↦ (unhex h * 16 + unhex l) ∷ decode_bytes s
  | false ↦ c ∷ decode_bytes (h ∷ (l ∷ s))
]
decode_bytes (c ∷ s) = c ∷ s

unfoldable pub decode_text : Text → Option Text
unfolding decode_bytes from_utf8 utf8
decode_text s = from_utf8 (decode_bytes (utf8 s))

hex-is_hex : (n : ℕ) → n < 16 → is_hex (hex n) ≡ true
unfolding is_hex hex
hex-is_hex n h = ground arith

unhex-hex : (n : ℕ) → n < 16 → unhex (hex n) ≡ n
unfolding unhex hex
unhex-hex n h = ground arith

decode_pair :
    (h l : ℕ) (s : Bytes)
    → is_hex h ≡ true
    → is_hex l ≡ true
    → decode_bytes (b'%' ∷ h ∷ l ∷ s) ≡ (unhex h * 16 + unhex l) ∷ decode_bytes s
decode_pair h l s p q = unfold decode_bytes in rw (p, decode_bytes) (rw (q, decode_bytes))

decode_hex :
    (b : ℕ) (s : Bytes)
    → b < 256
    → decode_bytes (b'%' ∷ hex (b / 16 % 16) ∷ hex (b % 16) ∷ s) ≡ b ∷ decode_bytes s
decode_hex b s h =
    decode_pair _ _ s (hex-is_hex (b / 16 % 16) (omega arith)) (hex-is_hex (b % 16) (omega arith))
    ∙ ap (λ c. c ∷ decode_bytes s)
        (omega (arith, unhex-hex (b / 16 % 16) (omega arith), unhex-hex (b % 16) (omega arith)))

-- A byte other than `%` stands for itself.
decode_self : (c : ℕ) (s : Bytes) → c ≢ b'%' → decode_bytes (c ∷ s) ≡ c ∷ decode_bytes s
unfolding decode_bytes
decode_self c [] n = refl
decode_self c (h ∷ []) n = refl
decode_self c (h ∷ (l ∷ s)) n = ground arith

not_in_set :
    (in_set : ℕ → Bool) (b : ℕ)
    → in_set b'%' ≡ true
    → b ≡ b'%'
    → (ltb b 128 && not (in_set b)) ≡ false
not_in_set in_set b p q = rw q (rw p)

decode-encode_byte :
    (in_set : ℕ → Bool) (b : ℕ) (s : Bytes)
    → in_set b'%' ≡ true
    → b < 256
    → decode_bytes (encode_byte in_set b ++ s) ≡ b ∷ decode_bytes s
decode-encode_byte in_set b s p h = elim (Bool-cases (ltb b 128 && not (in_set b))) [
  | inl e ↦ unfold encode_byte in rw e (decode_self b s (λ q. cc (e, not_in_set in_set b p q)))
  | inr e ↦ unfold encode_byte in rw e (decode_hex b s h)
]

decode-encode_bytes :
    (in_set : ℕ → Bool) (bs : Bytes)
    → in_set b'%' ≡ true
    → All IsByte bs
    → decode_bytes (encode_bytes in_set bs) ≡ bs
unfolding encode_bytes
decode-encode_bytes in_set [] p h = unfold decode_bytes in refl
decode-encode_bytes in_set (b ∷ bs) p (q, h) =
    decode-encode_byte in_set b (encode_bytes in_set bs) p q
    ∙ ap (λ t. b ∷ t) (decode-encode_bytes in_set bs p h)

hex-IsEncoded : (in_set : ℕ → Bool) (n : ℕ) → n < 16 → IsEncoded in_set (hex n)
unfolding hex
hex-IsEncoded in_set n h = ground arith

encode_byte-IsEncoded : (in_set : ℕ → Bool) (b : ℕ) → All (IsEncoded in_set) (encode_byte in_set b)
unfolding encode_byte
encode_byte-IsEncoded in_set b = elim (Bool-cases (ltb b 128 && not (in_set b))) [
  | inl e ↦ rw e (inr (inr (inr (ground arith))), tt)
  | inr e ↦ rw e (
    inl refl,
    (
      hex-IsEncoded in_set (b / 16 % 16) (omega arith),
      (hex-IsEncoded in_set (b % 16) (omega arith), tt),
    ),
  )
]

encode_bytes-IsEncoded :
    (in_set : ℕ → Bool) (bs : Bytes) → All (IsEncoded in_set) (encode_bytes in_set bs)
unfolding encode_bytes
encode_bytes-IsEncoded in_set [] = tt
encode_bytes-IsEncoded in_set (b ∷ bs) =
    All-append (IsEncoded in_set) (encode_byte in_set b) _ (encode_byte-IsEncoded in_set b)
      (encode_bytes-IsEncoded in_set bs)

pub encode_text-IsEncoded :
    (in_set : ℕ → Bool) (s : Text) → All (IsEncoded in_set) (encode_text in_set s)
unfolding encode_text
encode_text-IsEncoded in_set s = encode_bytes-IsEncoded in_set (utf8 s)

IsEncoded-IsAscii : (in_set : ℕ → Bool) (c : ℕ) → IsEncoded in_set c → IsAscii c
IsEncoded-IsAscii in_set c h = ground arith

pub encode_text-nil : (in_set : ℕ → Bool) → encode_text in_set [] ≡ []
unfolding encode_text
encode_text-nil in_set = refl

pub decode-encode_text :
    (in_set : ℕ → Bool) (s : Text)
    → in_set b'%' ≡ true
    → All IsScalar s
    → decode_text (encode_text in_set s) ≡ some s
decode-encode_text in_set s p h =
    unfold decode_text in
    rw
      (utf8-IsAscii (encode_text in_set s)
        (All-map (IsEncoded-IsAscii in_set) _ (encode_text-IsEncoded in_set s)))
      (unfold encode_text in
        rw (decode-encode_bytes in_set (utf8 s) p (utf8-lt s h)) (from_utf8-utf8 s h))

decode_bytes_plain : (bs : Bytes) → Absent b'%' bs → decode_bytes bs ≡ bs
decode_bytes_plain [] h = unfold decode_bytes in refl
decode_bytes_plain (b ∷ bs) (p, h) = decode_self b bs p ∙ ap (λ t. b ∷ t) (decode_bytes_plain bs h)

utf8_char-no_percent : (c : ℕ) → c ≢ b'%' → Absent b'%' (utf8_char c)
unfolding utf8_char
utf8_char-no_percent c h = ground arith

utf8-no_percent : (s : Text) → Absent b'%' s → Absent b'%' (utf8 s)
unfolding utf8
utf8-no_percent [] h = tt
utf8-no_percent (c ∷ s) (p, h) =
    All-append (λ x. x ≢ b'%') (utf8_char c) (utf8 s) (utf8_char-no_percent c p)
      (utf8-no_percent s h)

pub decode_text_plain : (s : Text) → Absent b'%' s → All IsScalar s → decode_text s ≡ some s
decode_text_plain s a h =
    unfold decode_text in
    rw (decode_bytes_plain (utf8 s) (utf8-no_percent s a)) (from_utf8-utf8 s h)
