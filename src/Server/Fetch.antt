-- ===== src/Server/Fetch.antt =====
-- crates/server/src/service.rs: `fetch_source`, the download of one source.
use sub_merge.Base.{
  ℕ, zero, suc, ◌+◌, ◌-◌, ◌*◌, ◌≤◌, ◌<◌, ◌≡◌, refl, sym, ap, ◌∙◌, ◌⊎◌, inl, inr, Bool, not, List,
  [], ◌∷◌, ◌++◌, map, append-nil, append_assoc, arith,
}
use sub_merge.Base.Tests.{ltb, if◌then◌else◌, ltb-cases}
use sub_merge.Base.Text.{Text, Bytes, str}
use sub_merge.Base.Utf8.{from_utf8}
use sub_merge.Base.Lists.{length, take, length-append, take_all}
use sub_merge.Base.Result.{Result, err, ok, ok_or, ◌>>=◌}

-- What the HTTP client answers: the status, and the chunks of the body, each a read that may fail.
pub record Response : Type 0 where
  pub is_success : Bool
  pub status : Text
  pub chunks : List (Text ⊎ Bytes)

-- `client.get(url).timeout(timeout).send()`
abbrev pub Client : Type 0
Client = Text → Text ⊎ Response

abbrev pub max_body_bytes : ℕ
max_body_bytes = 16 * 1024 * 1024

-- The `while let` loop; `remaining` is never below zero, since the buffer is within the limit.
unfoldable pub read_body : Bytes → List (Text ⊎ Bytes) → Result Text Bytes
read_body buf [] = ok buf
read_body buf (inl e ∷ rest) = err (str "read body failed: " ++ e)
read_body buf (inr chunk ∷ rest) =
    let more = read_body (buf ++ chunk) rest in
    if ltb max_body_bytes (length buf + length chunk)
    then ok (buf ++ take (max_body_bytes - length buf) chunk)
    else more

unfoldable pub fetch_source : Client → Text → Result Text Text
unfolding read_body
fetch_source client url = elim (client url) [
  | inl e ↦ err (str "request failed: " ++ e)
  | inr resp ↦ if not resp.is_success then err (str "http status " ++ resp.status) else (do
    buf ← read_body [] resp.chunks
    ok_or (from_utf8 buf) (str "body is not valid utf-8"))
]

-- The bytes of the chunks, one after the other.
abbrev pub concat : List Bytes → Bytes
concat [] = []
concat (c ∷ cs) = c ++ concat cs

take-append_short :
    (n : ℕ) (xs ys : Bytes) → length xs ≤ n → take n (xs ++ ys) ≡ xs ++ take (n - length xs) ys
take-append_short n [] ys h = ap (λ m. take m ys) (omega arith)
take-append_short zero (x ∷ xs) ys h = absurd (omega arith)
take-append_short (suc n) (x ∷ xs) ys h =
    ap (λ zs. x ∷ zs)
      (take-append_short n xs ys (omega arith) ∙ ap (λ m. xs ++ take m ys) (omega arith))

take-append_long : (n : ℕ) (xs ys : Bytes) → n ≤ length xs → take n (xs ++ ys) ≡ take n xs
take-append_long zero xs ys h = refl
take-append_long (suc n) [] ys h = absurd (omega arith)
take-append_long (suc n) (x ∷ xs) ys h = rw (take-append_long n xs ys (omega arith))

take-cut :
    (n : ℕ) (buf c rest : Bytes)
    → length buf ≤ n
    → n < length buf + length c
    → buf ++ take (n - length buf) c ≡ take n (buf ++ (c ++ rest))
take-cut n buf c rest h p = sym (
    take-append_short n buf (c ++ rest) h
    ∙ ap (λ t. buf ++ t) (take-append_long (n - length buf) c rest (omega arith)))

read_body-take :
    (buf : Bytes) (cs : List Bytes)
    → length buf ≤ max_body_bytes
    → read_body buf (map inr cs) ≡ ok (take max_body_bytes (buf ++ concat cs))
unfolding read_body
read_body-take buf [] h = rw (append-nil buf, take_all max_body_bytes buf h)
read_body-take buf (c ∷ cs) h = elim (ltb-cases max_body_bytes (length buf + length c)) [
  | inl (t, p) ↦ rw (t) (ap ok (take-cut max_body_bytes buf c (concat cs) h p))
  | inr (t, p) ↦ rw (t) (
      read_body-take (buf ++ c) cs (omega (arith, length-append buf c))
      ∙ rw (append_assoc buf c (concat cs)))
]

-- If no read fails, the body of a source is the first 16 MiB of the bytes that were sent.
pub read_body-concat :
    (cs : List Bytes) → read_body [] (map inr cs) ≡ ok (take max_body_bytes (concat cs))
read_body-concat cs = read_body-take [] cs (omega arith)
