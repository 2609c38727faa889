-- ===== src/Uri/Base64.antt =====
-- `decode_base64_url` of crates/proxy-core/src/uri.rs: what the base64 engines write is read back.
use sub_merge.Base.{
  ℕ, ◌+◌, ◌%◌, ◌≤◌, ◌≡◌, refl, sym, ap, ◌∙◌, subst, ◌≢◌, inl, inr, Bool, true, false, not, ◌||◌,
  some, [], ◌∷◌, ◌++◌, map, append-nil, arith,
}
use sub_merge.Base.Tests.{ltb, ◌==◌, Option-cases}
use sub_merge.Base.Lists.{length, length-append, All, All-append, All-map, length-map}
use sub_merge.Base.Text.{
  Text, Bytes, utf8, len, is_whitespace, drop_end, trim_end_matches, trim, IsScalar, IsAscii,
  utf8-IsAscii, utf8-lt,
}
use sub_merge.Base.Utf8.{from_utf8-utf8}
use sub_merge.Base.Result.{ok}
use sub_merge.Crates.{Crates}
use sub_merge.Crates.Laws.{IsByte, is_base64, IsBase64, padding, url_safe, Documented}
use sub_merge.Uri.{
  max_base64_len, rposition, unpadded, to_standard, repad, decode_base64_url,
  decode_base64_url_string,
}
use sub_merge.Base.Trimming.{drop_end-none, drop_while-none, drop_end-append}

abbrev not_pad : ℕ → Bool
not_pad b = not (b == b'=')

unpadded_step :
    (c d : ℕ) (s : Bytes)
    → unpadded (d ∷ s) ≡ trim_end_matches b'=' (d ∷ s)
    → unpadded (c ∷ (d ∷ s)) ≡ trim_end_matches b'=' (c ∷ (d ∷ s))
unfolding unpadded drop_end
unpadded_step c d s ih = elim (Option-cases (rposition not_pad (d ∷ s))) [
  | inl e ↦ ground arith
  | inr (i, e) ↦ ground arith
]

-- The single pass of the code finds the same bytes as `trim_end_matches('=')`.
pub unpadded-eq-trim_end : (t : Bytes) → unpadded t ≡ trim_end_matches b'=' t
unfolding unpadded drop_end
unpadded-eq-trim_end [] = refl
unpadded-eq-trim_end (c ∷ []) = ground arith
unpadded-eq-trim_end (c ∷ (d ∷ s)) = unpadded_step c d s (unpadded-eq-trim_end (d ∷ s))

-- A character of a base64 body, in either alphabet.
abbrev is_body : ℕ → Bool
is_body c = is_base64 c || (c == b'-' || c == b'_')

abbrev IsBody : ℕ → Type 0
IsBody c = is_body c ≡ true

abbrev IsPad : ℕ → Type 0
IsPad c = (c == b'=') ≡ true

abbrev IsNotSpace : ℕ → Type 0
IsNotSpace c = is_whitespace c ≡ false

IsBody-IsNotSpace : (c : ℕ) → IsBody c → IsNotSpace c
unfolding is_whitespace
IsBody-IsNotSpace c h = ground arith

IsBody-IsAscii : (c : ℕ) → IsBody c → IsAscii c
IsBody-IsAscii c h = ground arith

IsBody-ne-pad : (c : ℕ) → IsBody c → (c == b'=') ≡ false
IsBody-ne-pad c h = ground arith

IsPad-IsNotSpace : (c : ℕ) → IsPad c → IsNotSpace c
unfolding is_whitespace
IsPad-IsNotSpace c h = ground arith

IsPad-IsAscii : (c : ℕ) → IsPad c → IsAscii c
IsPad-IsAscii c h = ground arith

trim-none : (s : Text) → All IsNotSpace s → trim s ≡ s
unfolding trim
trim-none s h = rw (drop_while-none is_whitespace s h) (drop_end-none is_whitespace s h)

module _ (body pad : Text) (b : All IsBody body) (p : All IsPad pad) where
  utf8-body : utf8 (body ++ pad) ≡ body ++ pad
  utf8-body =
      utf8-IsAscii _
        (All-append IsAscii body pad (All-map IsBody-IsAscii body b) (All-map IsPad-IsAscii pad p))

  -- Whatever the padding, the code finds the body of a base64 text.
  unpadded-body : unpadded (utf8 (trim (body ++ pad))) ≡ body
  unpadded-body =
      rw
        (trim-none _ (
          All-append IsNotSpace body pad (All-map IsBody-IsNotSpace body b)
            (All-map IsPad-IsNotSpace pad p)))
        (rw utf8-body (
          unpadded-eq-trim_end (body ++ pad)
          ∙ drop_end-append _ body pad (All-map IsBody-ne-pad body b) p))

to_standard-base64 : (s : Text) → All IsBase64 s → map to_standard s ≡ s
to_standard-base64 [] h = refl
to_standard-base64 (c ∷ s) (p, h) = ground (arith, to_standard-base64 s h)

to_standard-url_safe : (s : Text) → All IsBase64 s → map to_standard (map url_safe s) ≡ s
to_standard-url_safe [] h = refl
to_standard-url_safe (c ∷ s) (p, h) = ground (arith, to_standard-url_safe s h)

IsBase64-IsBody : (c : ℕ) → IsBase64 c → IsBody c
IsBase64-IsBody c h = ground arith

url_safe-IsBody : (s : Text) → All IsBase64 s → All IsBody (map url_safe s)
url_safe-IsBody [] h = tt
url_safe-IsBody (c ∷ s) (p, h) = (ground arith, url_safe-IsBody s h)

padding-IsPad : (n : ℕ) → All IsPad (padding n)
padding-IsPad n = ground arith

repad_lem : (s : Text) → length s % 4 ≢ 1 → repad s ≡ some (s ++ padding (length s))
unfolding repad
repad_lem s h = ground (arith, append-nil s)

module _ (k : Crates) (d : Documented k) where
  -- A text whose body is the encoding of `bs`, in either alphabet and with any padding.
  decode_body :
      (bs : Bytes) (body pad : Text)
      → All IsByte bs
      → All IsBody body
      → All IsPad pad
      → map to_standard body ≡ k.encode_no_pad bs
      → length body + length pad ≤ max_base64_len
      → decode_base64_url k (body ++ pad) ≡ ok bs
  unfolding decode_base64_url
  decode_body bs body pad i b p e h =
      let small : ltb max_base64_len (len (body ++ pad)) ≡ false =
        rw (utf8-body body pad b p) (ground (arith, length-append body pad)) in
      let padded : repad (k.encode_no_pad bs) ≡ some (k.encode_standard bs) =
        repad_lem _ (d.encode_no_pad-length bs) ∙ ap some (sym (d.encode_standard-padded bs)) in
      rw small
        (rw (unpadded-body body pad b p) (rw e (rw padded (rw (d.decode-encode_standard bs i)))))

  decode_body_string :
      (s body pad : Text)
      → All IsScalar s
      → All IsBody body
      → All IsPad pad
      → map to_standard body ≡ k.encode_no_pad (utf8 s)
      → length body + length pad ≤ max_base64_len
      → decode_base64_url_string k (body ++ pad) ≡ ok s
  unfolding decode_base64_url_string
  decode_body_string s body pad i b p e h =
      rw (decode_body (utf8 s) body pad (utf8-lt s i) b p e h) (rw (from_utf8-utf8 s i))

  module _ (s : Text) (i : All IsScalar s) where
    pub decode-encode_no_pad :
        length (k.encode_no_pad (utf8 s)) ≤ max_base64_len
        → decode_base64_url_string k (k.encode_no_pad (utf8 s)) ≡ ok s
    decode-encode_no_pad h =
        let body = k.encode_no_pad (utf8 s) in
        let b : All IsBase64 body = d.encode_no_pad-IsBase64 (utf8 s) in
        subst (λ t. decode_base64_url_string k t ≡ ok s) (append-nil body)
          (decode_body_string s body [] i (All-map IsBase64-IsBody body b) tt
            (to_standard-base64 body b) (omega arith))

    pub decode-encode_url_safe :
        length (k.encode_url_safe (utf8 s)) ≤ max_base64_len
        → decode_base64_url_string k (k.encode_url_safe (utf8 s)) ≡ ok s
    decode-encode_url_safe h =
        let body = k.encode_no_pad (utf8 s) in
        let b : All IsBase64 body = d.encode_no_pad-IsBase64 (utf8 s) in
        let e = d.encode_url_safe-alphabet (utf8 s) in
        let bound : length (map url_safe body) ≤ max_base64_len = rw e at h in
        rw e (
          subst (λ t. decode_base64_url_string k t ≡ ok s) (append-nil (map url_safe body))
            (decode_body_string s (map url_safe body) [] i (url_safe-IsBody body b) tt
              (to_standard-url_safe body b) (omega arith)))

    pub decode-encode_standard :
        length (k.encode_standard (utf8 s)) ≤ max_base64_len
        → decode_base64_url_string k (k.encode_standard (utf8 s)) ≡ ok s
    decode-encode_standard h =
        let body = k.encode_no_pad (utf8 s) in
        let b : All IsBase64 body = d.encode_no_pad-IsBase64 (utf8 s) in
        let e = d.encode_standard-padded (utf8 s) in
        let bound : length (body ++ padding (length body)) ≤ max_base64_len = rw e at h in
        rw e (
          decode_body_string s body (padding (length body)) i (All-map IsBase64-IsBody body b)
            (padding-IsPad (length body)) (to_standard-base64 body b)
            (omega (arith, length-append body (padding (length body)))))

    -- Text that any of the three base64 engines of the program has encoded is decoded to itself, as
    -- long as the encoded text is at most 4 MiB.
    pub decode-encode :
        length (k.encode_standard (utf8 s)) ≤ max_base64_len
        → (decode_base64_url_string k (k.encode_standard (utf8 s)) ≡ ok s)
          × (decode_base64_url_string k (k.encode_no_pad (utf8 s)) ≡ ok s)
          × (decode_base64_url_string k (k.encode_url_safe (utf8 s)) ≡ ok s)
    decode-encode h =
        let body = k.encode_no_pad (utf8 s) in
        let e = d.encode_standard-padded (utf8 s) in
        let u = d.encode_url_safe-alphabet (utf8 s) in
        let bound : length (body ++ padding (length body)) ≤ max_base64_len = rw e at h in
        let short : length body ≤ max_base64_len =
          omega (arith, length-append body (padding (length body))) in
        (
          decode-encode_standard h,
          decode-encode_no_pad short,
          decode-encode_url_safe (rw u (rw (length-map body url_safe) short)),
        )
