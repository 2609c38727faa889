-- ===== src/Examples/Vmess.antt =====
-- A vmess node through `serialize_vmess` and `parse_vmess`, with a serde_json that knows one object.
use sub_merge.Base.{ℕ, ◌≡◌, refl, true, none, some, [], ◌∷◌, ◌++◌, arith}
use sub_merge.Base.Tests.{ltb, if◌then◌else◌}
use sub_merge.Base.Text.{Text, str, eqb, eqb_iff, utf8, IsScalar}
use sub_merge.Base.Lists.{All, All-map, all_sound}
use sub_merge.Base.Result.{ok}
use sub_merge.Crates.{Json, object, Crates}
use sub_merge.Crates.Laws.{Documented}
use sub_merge.Crates.Sample.{sample, sample-Documented}
use sub_merge.Crates.Sample.Base64.{encode_groups, encode_padded}
use sub_merge.Model.{vmess, ProxyNode, new_node, over_http_upgrade}
use sub_merge.Protocols.Vmess.{parse_vmess, alter_id_or_zero, vmess_object, serialize_vmess}
use sub_merge.Protocols.Vmess.Kept.{vmess_kept}
use sub_merge.Protocols.Vmess.RoundTrip.{parse-serialize_vmess}

abbrev vmess_example : ProxyNode
vmess_example = record (new_node (str "us") vmess (str "v.io") 443) {
  uuid = some (str "u-1");
  alter_id = some 2;
  tls = some (record {
    enabled = true;
    sni = none;
    alpn = str "h2" ∷ str "h3" ∷ [];
    insecure = true;
    fingerprint = some (str "ff");
  });
  transport = some (over_http_upgrade (str "/p") (some (str "c.io")));
}

abbrev vmess_json : Json
vmess_json = object (vmess_object vmess_example)

abbrev printed : Text
printed =
    str "{\"v\":\"2\",\"ps\":\"us\",\"add\":\"v.io\",\"port\":\"443\",\"id\":\"u-1\",\"aid\":\"2\","
    ++ str "\"net\":\"http\",\"type\":\"none\",\"path\":\"/p\",\"host\":\"c.io\",\"tls\":\"tls\","
    ++ str "\"alpn\":\"h2,h3\",\"fp\":\"ff\",\"allowInsecure\":\"1\"}"

abbrev with_json : Crates
with_json = record sample {
  json_to_string = λ v. some printed;
  json_from_str = λ s. if eqb s printed then some vmess_json else none;
}

with_json-Documented : Documented with_json
with_json-Documented = record {
  decode-encode_standard = sample-Documented.decode-encode_standard;
  encode_no_pad-IsBase64 = sample-Documented.encode_no_pad-IsBase64;
  encode_no_pad-length = sample-Documented.encode_no_pad-length;
  encode_standard-padded = sample-Documented.encode_standard-padded;
  encode_url_safe-alphabet = sample-Documented.encode_url_safe-alphabet;
  percent_decode-encode = sample-Documented.percent_decode-encode;
  percent_decode_plain = sample-Documented.percent_decode_plain;
  percent_encode-nil = sample-Documented.percent_encode-nil;
  percent_encode-IsEncoded = sample-Documented.percent_encode-IsEncoded;
}

small-IsScalar : (c : ℕ) → ltb c 128 ≡ true → IsScalar c
small-IsScalar c h = ground arith

printed-IsScalar : All IsScalar printed
printed-IsScalar = All-map small-IsScalar printed (all_sound (λ c. ltb c 128) printed refl)

parse-serialize_vmess_example :
    (uri : Text) × (serialize_vmess with_json vmess_example ≡ ok uri)
    × (parse_vmess with_json uri ≡ ok (vmess_kept vmess_example))
unfolding alter_id_or_zero encode_padded encode_groups utf8
parse-serialize_vmess_example =
    parse-serialize_vmess with_json with_json-Documented vmess_example {printed = printed}
      {v = vmess_json}
      (record {
        is_vmess = refl;
        port_in_range = omega arith;
        alter_id_in_range = omega arith;
        names = ((refl, omega arith), ((refl, omega arith), tt));
        prints = refl;
        reads = rw ((eqb_iff printed printed).1 refl) refl;
        same_members = λ key. refl;
        scalar = printed-IsScalar;
        short = omega arith;
      })
