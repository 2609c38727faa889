-- ===== src/Crates.antt =====
-- The third-party crates that the program calls, as parameters: base64, percent-encoding,
-- serde_json and serde_yaml_ng. Their data are the shapes that the program reads and writes.
pub mod Laws
pub mod Sample
use sub_merge.Base.{ℕ, ◌⊎◌, Bool, Option}
use sub_merge.Base.Text.{Text, Bytes}

mutual
  -- `serde_json::Value`, as far as the program looks into it; a number stands as its text.
  pub data Json : Type 0 where
    null : Json
    bool : Bool → Json
    number : Text → Json
    string : Text → Json
    array : Json
    object : Members → Json

  pub data Members : Type 0 where
    end : Members
    member : Text → Json → Members → Members

mutual
  -- `serde_yaml_ng::Value`; a number has its `as_u64`, `none` where it is negative or no integer,
  -- and its text.
  -- A tag is not shown: `get`, `as_str` and the like look through it.
  pub data Yaml : Type 0 where
    null : Yaml
    bool : Bool → Yaml
    number : Option ℕ → Text → Yaml
    string : Text → Yaml
    sequence : Items → Yaml
    mapping : Entries → Yaml

  pub data Items : Type 0 where
    nil : Items
    cons : Yaml → Items → Items

  pub data Entries : Type 0 where
    end : Entries
    entry : Yaml → Yaml → Entries → Entries

pub record Crates : Type 0 where
  -- `STANDARD`, `STANDARD_NO_PAD` and `URL_SAFE_NO_PAD` of base64, and `STANDARD.decode`.
  pub encode_standard : Bytes → Text
  pub encode_no_pad : Bytes → Text
  pub encode_url_safe : Bytes → Text
  pub decode_standard : Bytes → Option Bytes
  -- `utf8_percent_encode`, on the set of ASCII characters to encode.
  pub percent_encode : (ℕ → Bool) → Text → Text
  -- `percent_decode_str(s).decode_utf8()`
  pub percent_decode_utf8 : Text → Option Text
  -- `serde_json::from_str` and `to_string`
  pub json_from_str : Text → Option Json
  pub json_to_string : Json → Option Text
  -- `serde_yaml_ng::from_str` and `to_string`; an error has a message.
  pub yaml_from_str : Text → Text ⊎ Yaml
  pub yaml_to_string : Yaml → Text ⊎ Text
