-- ===== src/Base/Result.antt =====
-- Rust's `Result`, with the error type first, and `?` as the bind of a `do` block.
use mathlib.Core.Option.{Option, none, some}

pub data Result {ℓ κ} (E : Type κ) (T : Type ℓ) : Type (ℓ ⊔ κ) where
  err : E → Result E T
  ok : T → Result E T

-- `ok_or(e)`, `ok_or_else(|| e)`
abbrev pub ok_or {ℓ κ} : {E : Type κ} {T : Type ℓ} → Option T → E → Result E T
ok_or (some value) error = ok value
ok_or none error = err error

infixl 5 ◌>>=◌
abbrev pub ◌>>=◌ {ℓ κ μ} :
    {E : Type μ} {T : Type ℓ} {U : Type κ} → Result E T → (T → Result E U) → Result E U
err error >>= next = err error
ok value >>= next = next value

-- A statement that ends in `?` and whose value is not used.
infixl 5 ◌>>◌
abbrev pub ◌>>◌ {ℓ κ} : {E : Type κ} {U : Type ℓ} → Result E (Unit {0}) → Result E U → Result E U
first >> rest = first >>= (λ done. rest)
