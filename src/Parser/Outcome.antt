-- ===== src/Parser/Outcome.antt =====
-- What a parser returns: a postcondition on its value, and no panic.
use sub_merge.Base.{◌<◌, ◌≡◌, refl, Bool, true, false, Option, none, some, [], ◌∷◌, arith}
use sub_merge.Base.Tests.{ltb, if◌then◌else◌}
use sub_merge.Base.Text.{Text, len, strip_prefix}
use sub_merge.Base.Utf8.{from_utf8}
use sub_merge.Base.Decimal.{u16_size, parse_u16, parse_below-lt}
use sub_merge.Base.Split.{split_once, rsplit_once}
use sub_merge.Base.Result.{ok, err, ◌>>=◌}
use sub_merge.Crates.{Crates}
use sub_merge.Error.{ParseError, invalid_uri, invalid_base64, invalid_port, raised, Parsed, require}
use sub_merge.Uri.{
  max_base64_len, decode_base64_url, decode_base64_url_string, percent_decode, bracketed,
  host_and_port, parse_host_port,
}

-- The value, if there is one, satisfies `P`, and the parser does not panic.
pub data Ensures {A : Type 0} (P : A → Type 0) : Parsed A → Type 0 where
  returns : {a : A} → P a → Ensures P (ok a)
  fails : {e : ParseError} → Ensures P (err (raised e))

abbrev pub Anything : {A : Type 0} → A → Type 0
Anything a = Unit

pub bind-Ensures :
    {A B : Type 0} (Q : A → Type 0) (P : B → Type 0) (m : Parsed A) (f : A → Parsed B)
    → Ensures Q m
    → ((a : A) → Q a → Ensures P (f a))
    → Ensures P (m >>= f)
bind-Ensures Q P _ f (returns q) h = h _ q
bind-Ensures Q P _ f fails h = fails

pub require-Ensures :
    {A : Type 0} (o : Option A) (e : ParseError) → Ensures (λ a. o ≡ some a) (require o e)
require-Ensures none e = fails
require-Ensures (some a) e = returns refl

pub require-Anything : {A : Type 0} (o : Option A) (e : ParseError) → Ensures Anything (require o e)
require-Anything none e = fails
require-Anything (some a) e = returns tt

pub if-Ensures :
    {A : Type 0} (P : A → Type 0) (b : Bool) (m n : Parsed A)
    → Ensures P m
    → Ensures P n
    → Ensures P (if b then m else n)
if-Ensures P true m n p q = p
if-Ensures P false m n p q = q

-- A step that only has to be there.
pub then-Ensures :
    {A B : Type 0} (P : B → Type 0) (o : Option A) (e : ParseError) (f : A → Parsed B)
    → ((a : A) → o ≡ some a → Ensures P (f a))
    → Ensures P (require o e >>= f)
then-Ensures P o e f h = bind-Ensures (λ a. o ≡ some a) P (require o e) f (require-Ensures o e) h

bracketed-Ensures : (s rest : Text) → Ensures Anything (bracketed s rest)
unfolding bracketed
bracketed-Ensures s rest = then-Ensures Anything (split_once b']' rest) (invalid_uri s) _ (λ a _.
    then-Ensures Anything (strip_prefix (b':' ∷ []) a.1) (invalid_uri s) _ (λ _ _. returns tt))

host_and_port-Ensures : (s : Text) → Ensures Anything (host_and_port s)
host_and_port-Ensures s = go (strip_prefix (b'[' ∷ []) s) refl
  where
    go : (o : Option Text) → strip_prefix (b'[' ∷ []) s ≡ o → Ensures Anything (host_and_port s)
    go none e =
        unfold host_and_port in
        rw (e, host_and_port) (require-Anything (rsplit_once b':' s) (invalid_uri s))
    go (some rest) e = unfold host_and_port in rw (e, host_and_port) (bracketed-Ensures s rest)

pub parse_host_port-Ensures : (s : Text) → Ensures (λ r. r.1 < u16_size) (parse_host_port s)
unfolding parse_host_port
parse_host_port-Ensures s =
    bind-Ensures Anything _ (host_and_port s) _ (host_and_port-Ensures s) λ r _.
      then-Ensures _ (parse_u16 r.1) invalid_port _
        λ port e. returns (parse_below-lt u16_size r.1 port (omega arith) e)

module _ (k : Crates) where
  pub percent_decode-Ensures : (s : Text) → Ensures Anything (percent_decode k s)
  unfolding percent_decode
  percent_decode-Ensures s = require-Anything (k.percent_decode_utf8 s) (invalid_uri s)

  decode_base64_url-Ensures : (s : Text) → Ensures Anything (decode_base64_url k s)
  unfolding decode_base64_url
  decode_base64_url-Ensures s = if-Ensures Anything (ltb max_base64_len (len s)) _ _ fails (
      then-Ensures Anything _ (invalid_base64 s) _
        (λ buf _. require-Anything (k.decode_standard buf) (invalid_base64 s)))

  pub decode_base64_url_string-Ensures :
      (s : Text) → Ensures Anything (decode_base64_url_string k s)
  decode_base64_url_string-Ensures s =
      unfold decode_base64_url_string in
      bind-Ensures Anything Anything (decode_base64_url k s) _ (decode_base64_url-Ensures s)
        λ bytes _. require-Anything (from_utf8 bytes) (invalid_base64 s)
