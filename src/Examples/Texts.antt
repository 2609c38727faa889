-- ===== src/Examples/Texts.antt =====
-- The codes and the names at concrete texts.
use sub_merge.Base.{◌≡◌, arith}
use sub_merge.Base.Tests.{if◌then◌else◌}
use sub_merge.Base.Text.{str, utf8_char, utf8, to_ascii_lowercase}
use sub_merge.Base.Result.{ok}
use sub_merge.Crates.Sample.{sample, sample-Documented}
use sub_merge.Crates.Sample.Base64.{encode_groups, encode_padded}
use sub_merge.Model.{crypto_from_str, crypto_as_str}
use sub_merge.Model.Names.{is_plain_alias, as_str-from_str}
use sub_merge.Uri.{decode_base64_url_string}
use sub_merge.Uri.Base64.{decode-encode}

decode-encode_example :
    (decode_base64_url_string sample (sample.encode_standard (utf8 (str "a:é"))) ≡ ok (str "a:é"))
    × (decode_base64_url_string sample (sample.encode_no_pad (utf8 (str "a:é"))) ≡ ok (str "a:é"))
    × (decode_base64_url_string sample (sample.encode_url_safe (utf8 (str "a:é"))) ≡ ok (str "a:é"))
unfolding encode_padded encode_groups utf8 utf8_char
decode-encode_example =
    decode-encode sample sample-Documented (str "a:é") (omega arith) (omega arith)

as_str-from_str_example : crypto_as_str (crypto_from_str (str "None")) ≡ (
    if is_plain_alias (to_ascii_lowercase (str "None"))
    then str "plain"
    else to_ascii_lowercase (str "None"))
as_str-from_str_example = as_str-from_str (str "None")
