-- ===== src/Base/Utf8.antt =====
-- `String::from_utf8`: a decoder that takes one byte at a time.
use sub_merge.Base.Tests.{ltb, leb, within, if◌then◌else◌}
use sub_merge.Base.Lists.{All}
use sub_merge.Base.Text.{Text, Bytes, utf8_char, utf8, IsScalar}
use Prim.Native.Nat.{ℕ, zero, suc, ◌+◌, ◌-◌, ◌*◌}
use mathlib.Core.Path.{◌≡◌, refl, ◌∙◌, ap}
use mathlib.Core.Bool.{Bool, not, ◌&&◌}
use mathlib.Core.List.{[], ◌∷◌, ◌++◌}
use mathlib.Core.Option.{Option, none, some}
use native.Mathlib.Omega.{arith}

-- Between two characters, or behind a lead byte: how many bytes are missing, the value so far and
-- the least value that this length may encode.
pub data Decoding : Type 0 where
  start : Decoding
  need : ℕ → ℕ → ℕ → Decoding

abbrev is_scalar : ℕ → Bool
is_scalar c = ltb c 0x110000 && not (within 0xd800 0xdfff c)

lead : ℕ → Option (Option ℕ × Decoding)
lead b =
    if ltb b 0x80
    then some (some b, start)
    else if within 0xc2 0xdf b
    then some (none, need 0 (b - 0xc0) 0x80)
    else if within 0xe0 0xef b
    then some (none, need 1 (b - 0xe0) 0x800)
    else if within 0xf0 0xf4 b
    then some (none, need 2 (b - 0xf0) 0x10000)
    else none

continuation : ℕ → ℕ → ℕ → ℕ → Option (Option ℕ × Decoding)
continuation zero acc least b =
    let c = acc * 64 + (b - 0x80) in
    if within 0x80 0xbf b && leb least c && is_scalar c then some (some c, start) else none
continuation (suc k) acc least b =
    if within 0x80 0xbf b then some (none, need k (acc * 64 + (b - 0x80)) least) else none

feed : Decoding → ℕ → Option (Option ℕ × Decoding)
unfolding lead continuation
feed start b = lead b
feed (need k acc least) b = continuation k acc least b

abbrev emit : Option ℕ → Option Text → Option Text
emit o none = none
emit none (some s) = some s
emit (some c) (some s) = some (c ∷ s)

decode : Decoding → Bytes → Option Text
unfolding feed
decode start [] = some []
decode (need k acc least) [] = none
decode st (b ∷ bs) = elim (feed st b) [ none ↦ none | some (o, st') ↦ emit o (decode st' bs) ]

unfoldable pub from_utf8 : Bytes → Option Text
unfolding decode
from_utf8 bs = decode start bs

decode-utf8_char :
    (c : ℕ) (bs : Bytes)
    → IsScalar c
    → decode start (utf8_char c ++ bs) ≡ emit (some c) (decode start bs)
unfolding decode utf8_char
decode-utf8_char c bs h = ground arith

decode-utf8 : (s : Text) → All IsScalar s → decode start (utf8 s) ≡ some s
unfolding utf8
decode-utf8 [] h = unfold decode in refl
decode-utf8 (c ∷ s) (p, h) = decode-utf8_char c (utf8 s) p ∙ ap (emit (some c)) (decode-utf8 s h)

-- Every string is valid UTF-8, and decodes to itself.
pub from_utf8-utf8 : (s : Text) → All IsScalar s → from_utf8 (utf8 s) ≡ some s
unfolding from_utf8
from_utf8-utf8 = decode-utf8
