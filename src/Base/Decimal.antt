-- ===== src/Base/Decimal.antt =====
-- `u16`: `to_string` and `str::parse::<u16>`.
use Prim.Native.Nat.{ℕ, zero, suc, ◌+◌, ◌-◌, ◌*◌, ◌/◌, ◌%◌, ◌<◌, ◌≤◌}
use mathlib.Core.Path.{◌≡◌, refl, ◌∙◌}
use mathlib.Core.Logic.{◌≢◌}
use mathlib.Core.Bool.{◌&&◌}
use mathlib.Core.List.{[], ◌∷◌}
use mathlib.Core.Option.{Option, none, some}
use native.Mathlib.Omega.{arith}
use sub_merge.Base.Tests.{ltb, ◌==◌, within, if◌then◌else◌}
use sub_merge.Base.Lists.{All}
use sub_merge.Base.Text.{Text}

-- The digits of `n` in front of `rest`; the fuel is above the number of digits.
digits : ℕ → ℕ → Text → Text
digits zero n rest = rest
digits (suc f) n rest =
    let more = digits f (n / 10) ((48 + n % 10) ∷ rest) in
    if ltb n 10 then (48 + n) ∷ rest else more

-- `n.to_string()`
unfoldable pub to_string : ℕ → Text
unfolding digits
to_string n = digits (suc n) n []

-- The checked loop of `from_str_radix(10)`: a digit at a time, with overflow as an error.
read_digits : ℕ → ℕ → Text → Option ℕ
read_digits limit acc [] = some acc
read_digits limit acc (c ∷ s) =
    let v = acc * 10 + (c - 48) in
    let rest = read_digits limit v s in if within b'0' b'9' c && ltb v limit then rest else none

-- An unsigned `parse()` below `limit`: one leading `+` is allowed, the empty text is not.
unfoldable pub parse_below : ℕ → Text → Option ℕ
unfolding read_digits
parse_below limit [] = none
parse_below limit (c ∷ []) = if c == b'+' then none else read_digits limit 0 (c ∷ [])
parse_below limit (c ∷ (d ∷ s)) = read_digits limit 0 (if c == b'+' then d ∷ s else c ∷ (d ∷ s))

abbrev pub u16_size : ℕ
u16_size = 65536

abbrev pub parse_u16 : Text → Option ℕ
parse_u16 = parse_below u16_size

read_digits-lt :
    (limit acc : ℕ) (s : Text) (n : ℕ) → acc < limit → read_digits limit acc s ≡ some n → n < limit
unfolding read_digits
read_digits-lt limit acc [] n h e = ground arith
read_digits-lt limit acc (c ∷ s) n h e =
    ground (arith, read_digits-lt limit (acc * 10 + (c - 48)) s n)

-- What parses lies in the range of the type.
pub parse_below-lt :
    (limit : ℕ) (s : Text) (n : ℕ) → 0 < limit → parse_below limit s ≡ some n → n < limit
unfolding parse_below
parse_below-lt limit [] n h e = cc
parse_below-lt limit (c ∷ []) n h e = ground (arith, read_digits-lt limit 0 (c ∷ []) n h)
parse_below-lt limit (c ∷ (d ∷ s)) n h e =
    ground (arith, read_digits-lt limit 0 (d ∷ s) n h, read_digits-lt limit 0 (c ∷ (d ∷ s)) n h)

-- Reading back the printed digits, with any text behind them.
read-digits :
    (limit f n : ℕ) (rest : Text)
    → n < f
    → n < limit
    → read_digits limit 0 (digits f n rest) ≡ read_digits limit n rest
unfolding digits read_digits
read-digits limit zero n rest h k = absurd (omega arith)
read-digits limit (suc f) n rest h k =
    ground (arith, read-digits limit f (n / 10) ((48 + n % 10) ∷ rest))

abbrev pub IsDigit : ℕ → Type 0
IsDigit c = (48 ≤ c) × (c ≤ 57)

digits-All : (f n : ℕ) (rest : Text) → All IsDigit rest → All IsDigit (digits f n rest)
unfolding digits
digits-All zero n rest h = h
digits-All (suc f) n rest h = ground (arith, digits-All f (n / 10) ((48 + n % 10) ∷ rest))

pub to_string-IsDigit : (n : ℕ) → All IsDigit (to_string n)
unfolding to_string
to_string-IsDigit n = digits-All (suc n) n [] tt

digits-ne-nil : (f n : ℕ) (rest : Text) → n < f → digits f n rest ≢ []
unfolding digits
digits-ne-nil zero n rest h = absurd (omega arith)
digits-ne-nil (suc f) n rest h = ground (arith, digits-ne-nil f (n / 10) ((48 + n % 10) ∷ rest))

parse_below_digits :
    (limit : ℕ) (s : Text) → All IsDigit s → s ≢ [] → parse_below limit s ≡ read_digits limit 0 s
unfolding parse_below
parse_below_digits limit [] h k = absurd (k refl)
parse_below_digits limit (c ∷ []) h k = ground arith
parse_below_digits limit (c ∷ (d ∷ s)) h k = ground arith

-- Parsing undoes printing, in the range of the type.
pub parse-to_string : (limit n : ℕ) → n < limit → parse_below limit (to_string n) ≡ some n
parse-to_string limit n h = parse_below_digits limit (to_string n) (to_string-IsDigit n) ne ∙ back
  where
    ne : to_string n ≢ []
    ne = unfold to_string in digits-ne-nil (suc n) n [] (omega arith)

    back : read_digits limit 0 (to_string n) ≡ some n
    back = unfold to_string read_digits in read-digits limit (suc n) n [] (omega arith) h
