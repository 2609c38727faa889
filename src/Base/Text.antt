-- ===== src/Base/Text.antt =====
-- Text as Rust's `str`: the sequence of its `char`s, as numbers, with the methods that the program
-- calls. A length is in bytes of UTF-8, as `str::len` counts.
use Prim.Native.Nat.{ℕ, ◌+◌, ◌/◌, ◌%◌, ◌<◌}
use Prim.Native.Char.{code}
use Prim.Native.String.{String}
use mathlib.Core.Path.{◌≡◌, refl}
use mathlib.Core.Logic.{◌↔◌, ◌≢◌, ◌⊎◌}
use mathlib.Core.Bool.{Bool, true, false, ◌&&◌, ◌||◌}
use mathlib.Core.List.{List, [], ◌∷◌, ◌++◌, map}
use mathlib.Core.Option.{Option, none, some}
use native.Mathlib.Omega.{arith}
use sub_merge.Base.Tests.{ltb, ◌==◌, within, if◌then◌else◌}
use sub_merge.Base.Lists.{length, All, All-append}

abbrev pub Text : Type 0
Text = List ℕ

abbrev pub Bytes : Type 0
Bytes = List ℕ

-- A literal.
abbrev pub str : String → Text
str String.[] = []
str (String.◌∷◌ c s) = code c ∷ str s

-- `a == b` on strings.
unfoldable pub eqb : Text → Text → Bool
eqb [] [] = true
eqb (x ∷ xs) (y ∷ ys) = x == y && eqb xs ys
eqb _ _ = false

pub eqb_iff : (a b : Text) → (eqb a b ≡ true) ↔ (a ≡ b)
unfolding eqb
eqb_iff (x ∷ a) (y ∷ b) = ground (arith, eqb_iff a b)
eqb_iff _ _ = ground arith

abbrev pub is_empty : Text → Bool
is_empty [] = true
is_empty (c ∷ s) = false

-- The UTF-8 bytes of one `char`.
unfoldable pub utf8_char : ℕ → Bytes
utf8_char c =
    if ltb c 0x80
    then c ∷ []
    else if ltb c 0x800
    then (0xc0 + c / 64) ∷ (0x80 + c % 64) ∷ []
    else if ltb c 0x10000
    then (0xe0 + c / 4096) ∷ (0x80 + c / 64 % 64) ∷ (0x80 + c % 64) ∷ []
    else (0xf0 + c / 262144) ∷ (0x80 + c / 4096 % 64) ∷ (0x80 + c / 64 % 64) ∷ (0x80 + c % 64) ∷ []

-- `as_bytes()`
unfoldable pub utf8 : Text → Bytes
unfolding utf8_char
utf8 [] = []
utf8 (c ∷ s) = utf8_char c ++ utf8 s

-- `len()`
abbrev pub len : Text → ℕ
len s = length (utf8 s)

unfoldable pub starts_with : Text → Text → Bool
starts_with s [] = true
starts_with [] (p ∷ ps) = false
starts_with (c ∷ s) (p ∷ ps) = c == p && starts_with s ps

-- The pattern first, then the text.
unfoldable pub strip_prefix : Text → Text → Option Text
strip_prefix [] s = some s
strip_prefix (p ∷ ps) [] = none
strip_prefix (p ∷ ps) (c ∷ s) = if c == p then strip_prefix ps s else none

-- `contains(pattern)`
unfoldable pub contains : Text → Text → Bool
contains p [] = starts_with [] p
contains p (c ∷ s) = starts_with (c ∷ s) p || contains p s

-- `char::is_whitespace`, the Unicode property `White_Space`.
unfoldable pub is_whitespace : ℕ → Bool
is_whitespace c =
    within 9 13 c
    || c == 32
    || c == 0x85
    || c == 0xa0
    || c == 0x1680
    || within 0x2000 0x200a c
    || c == 0x2028
    || c == 0x2029
    || c == 0x202f
    || c == 0x205f
    || c == 0x3000

unfoldable pub drop_while : (ℕ → Bool) → Text → Text
drop_while p [] = []
drop_while p (c ∷ s) = elim (p c) [ true ↦ drop_while p s | false ↦ c ∷ s ]

-- `trim_start_matches(c)`
abbrev pub trim_start_matches : ℕ → Text → Text
trim_start_matches c = drop_while (λ x. x == c)

-- `trim_end_matches(c)`: drops every trailing `c`.
unfoldable pub drop_end : (ℕ → Bool) → Text → Text
drop_end p [] = []
drop_end p (c ∷ s) = elim (drop_end p s) [ [] ↦ if p c then [] else c ∷ [] | d ∷ r ↦ c ∷ d ∷ r ]

abbrev pub trim_end_matches : ℕ → Text → Text
trim_end_matches c = drop_end (λ x. x == c)

abbrev pub trim_start : Text → Text
trim_start = drop_while is_whitespace

abbrev pub trim_end : Text → Text
trim_end = drop_end is_whitespace

unfoldable pub trim : Text → Text
unfolding drop_while drop_end is_whitespace
trim s = drop_end is_whitespace (trim_start s)

-- `to_ascii_lowercase`
unfoldable pub lower_char : ℕ → ℕ
lower_char c = if within b'A' b'Z' c then c + 32 else c

abbrev pub to_ascii_lowercase : Text → Text
to_ascii_lowercase = map lower_char

-- `char::is_ascii_alphanumeric`
abbrev pub is_ascii_alphanumeric : ℕ → Bool
is_ascii_alphanumeric c = within b'0' b'9' c || within b'A' b'Z' c || within b'a' b'z' c

-- A `char` is a Unicode scalar value; every Rust string is made of such.
abbrev pub IsScalar : ℕ → Type 0
IsScalar c = (c < 0xd800) ⊎ ((0xdfff < c) × (c < 0x110000))

-- No `c` occurs in the text.
abbrev pub Absent : ℕ → Text → Type 0
Absent c s = All (λ x. x ≢ c) s

pub starts_with-append : (p s : Text) → starts_with (p ++ s) p ≡ true
unfolding starts_with
starts_with-append [] s = refl
starts_with-append (c ∷ p) s = ground (arith, starts_with-append p s)

pub strip_prefix-append : (p s : Text) → strip_prefix p (p ++ s) ≡ some s
unfolding strip_prefix
strip_prefix-append [] s = refl
strip_prefix-append (c ∷ p) s = ground (arith, strip_prefix-append p s)

abbrev pub IsAscii : ℕ → Type 0
IsAscii c = c < 128

-- The bytes of ASCII text are its characters.
pub utf8-IsAscii : (s : Text) → All IsAscii s → utf8 s ≡ s
unfolding utf8
utf8-IsAscii [] h = refl
utf8-IsAscii (c ∷ s) (p, h) = ground (arith, utf8-IsAscii s h)

utf8_char-lt : (c : ℕ) → IsScalar c → All (λ b. b < 256) (utf8_char c)
unfolding utf8_char
utf8_char-lt c h = ground arith

pub utf8-lt : (s : Text) → All IsScalar s → All (λ b. b < 256) (utf8 s)
unfolding utf8
utf8-lt [] h = tt
utf8-lt (c ∷ s) (p, h) =
    All-append (λ b. b < 256) (utf8_char c) (utf8 s) (utf8_char-lt c p) (utf8-lt s h)
