-- ===== src/Error.antt =====
-- crates/proxy-core/src/error.rs, and the two ways in which a parser ends without a value: with an
-- error, or by a panic (an index out of bounds).
use sub_merge.Base.{Option}
use sub_merge.Base.Text.{Text}
use sub_merge.Base.Result.{Result, err, ok_or}

pub data ParseError : Type 0 where
  unsupported_protocol : ParseError
  invalid_uri : Text → ParseError
  invalid_base64 : Text → ParseError
  invalid_port : ParseError
  missing_field : Text → ParseError
  invalid_value : Text → Text → ParseError

pub data SerializeError : Type 0 where
  unsupported : Text → SerializeError
  missing : Text → SerializeError
  invalid_template : Text → SerializeError

pub data Failure : Type 0 where
  raised : ParseError → Failure
  panicked : Failure

abbrev pub Parsed {ℓ} : Type ℓ → Type ℓ
Parsed A = Result Failure A

abbrev pub fail {ℓ} : {A : Type ℓ} → ParseError → Parsed A
fail e = err (raised e)

-- `o.ok_or(e)?`
abbrev pub require {ℓ} : {A : Type ℓ} → Option A → ParseError → Parsed A
require o e = ok_or o (raised e)

abbrev pub Serialized {ℓ} : Type ℓ → Type ℓ
Serialized A = Result SerializeError A
