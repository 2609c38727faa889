-- ===== src/Crates/Sample.antt =====
-- Functions that satisfy what `Laws` says of base64 and percent-encoding, at which theorems are
-- applied. The readers of JSON and YAML accept nothing.
pub mod Base64
pub mod Percent
use sub_merge.Base.{refl, inl, none, [], map}
use sub_merge.Crates.{Crates}
use sub_merge.Crates.Laws.{url_safe, Documented}
use sub_merge.Crates.Sample.Base64.{
  encode_groups, encode_padded, decode_groups, decode-encode_padded, encode_groups-IsBase64,
  encode_groups-length, encode_padded_lem,
}
use sub_merge.Crates.Sample.Percent.{
  encode_text, decode_text, encode_text-IsEncoded, encode_text-nil, decode-encode_text,
  decode_text_plain,
}

abbrev pub sample : Crates
sample = record {
  encode_standard = encode_padded;
  encode_no_pad = encode_groups;
  encode_url_safe = λ bs. map url_safe (encode_groups bs);
  decode_standard = decode_groups;
  percent_encode = encode_text;
  percent_decode_utf8 = decode_text;
  json_from_str = λ s. none;
  json_to_string = λ v. none;
  yaml_from_str = λ s. inl [];
  yaml_to_string = λ v. inl [];
}

pub sample-Documented : Documented sample
sample-Documented = record {
  decode-encode_standard = decode-encode_padded;
  encode_no_pad-IsBase64 = encode_groups-IsBase64;
  encode_no_pad-length = encode_groups-length;
  encode_standard-padded = encode_padded_lem;
  encode_url_safe-alphabet = λ bs. refl;
  percent_decode-encode = decode-encode_text;
  percent_decode_plain = decode_text_plain;
  percent_encode-nil = encode_text-nil;
  percent_encode-IsEncoded = encode_text-IsEncoded;
}
