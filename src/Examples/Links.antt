-- ===== src/Examples/Links.antt =====
-- The round trips of the links at concrete nodes.
use sub_merge.Base.{◌≡◌, refl, arith}
use sub_merge.Base.Text.{Text, str, utf8}
use sub_merge.Base.Result.{ok}
use sub_merge.Crates.Sample.{sample, sample-Documented}
use sub_merge.Crates.Sample.Base64.{encode_groups}
use sub_merge.Model.{aes_256_gcm, crypto_as_str}
use sub_merge.Protocols.Parts.{stream_of}
use sub_merge.Protocols.Trojan.{parse_trojan, serialize_trojan}
use sub_merge.Protocols.Trojan.RoundTrip.{trojan_kept, IsTrojan, parse-serialize_trojan}
use sub_merge.Protocols.Vless.{parse_vless, serialize_vless}
use sub_merge.Protocols.Vless.RoundTrip.{vless_kept, IsVless, parse-serialize_vless}
use sub_merge.Protocols.Tuic.{parse_tuic, serialize_tuic}
use sub_merge.Protocols.Tuic.RoundTrip.{tuic_kept, parse-serialize_tuic}
use sub_merge.Protocols.Hysteria2.{parse_hysteria2, serialize_hysteria2}
use sub_merge.Protocols.Hysteria2.RoundTrip.{hysteria2_kept, parse-serialize_hysteria2}
use sub_merge.Protocols.Wireguard.{parse_wireguard, serialize_wireguard}
use sub_merge.Protocols.Wireguard.RoundTrip.{wireguard_kept, parse-serialize_wireguard}
use sub_merge.Protocols.Ss.{parse_ss, serialize_ss}
use sub_merge.Protocols.Ss.RoundTrip.{ss_kept, parse-serialize_ss}
use sub_merge.Examples.Nodes.{
  trojan_example, vless_example, tuic_example, hysteria2_example, wireguard_example, ss_example,
}

pub trojan_example-IsTrojan : IsTrojan trojan_example (str "p@s")
unfolding stream_of
trojan_example-IsTrojan = record {
  is_trojan = refl;
  has_password = refl;
  ne-nil = refl;
  scalar = omega arith;
  host = record {
    bare = omega arith;
    no_hash = omega arith;
    no_query = omega arith;
    no_at = omega arith;
    in_range = omega arith;
  };
  tls = record {
    sni_scalar = omega arith;
    fp_scalar = tt;
    alpn_scalar = (omega arith, (omega arith, tt));
    alpn_no_comma = (omega arith, (omega arith, tt));
  };
  streamed = (omega arith, omega arith);
}

parse-serialize_trojan_example :
    (uri : Text) × (serialize_trojan sample trojan_example ≡ ok uri)
    × (parse_trojan sample uri ≡ ok (trojan_kept trojan_example))
parse-serialize_trojan_example =
    parse-serialize_trojan sample sample-Documented trojan_example trojan_example-IsTrojan

pub vless_example-IsVless : IsVless vless_example (str "6ba7-11")
unfolding stream_of
vless_example-IsVless = record {
  is_vless = refl;
  has_uuid = refl;
  ne-nil = refl;
  no_hash = omega arith;
  host = record {
    bare = omega arith;
    no_hash = omega arith;
    no_query = omega arith;
    no_at = omega arith;
    in_range = omega arith;
  };
  tls = tt;
  streamed = (tt, omega arith);
}

parse-serialize_vless_example :
    (uri : Text) × (serialize_vless sample vless_example ≡ ok uri)
    × (parse_vless sample uri ≡ ok (vless_kept vless_example))
parse-serialize_vless_example =
    parse-serialize_vless sample sample-Documented vless_example vless_example-IsVless

parse-serialize_tuic_example :
    (uri : Text) × (serialize_tuic sample tuic_example ≡ ok uri)
    × (parse_tuic sample uri ≡ ok (tuic_kept tuic_example))
parse-serialize_tuic_example = parse-serialize_tuic sample sample-Documented tuic_example (record {
  is_tuic = refl;
  no_hash = omega arith;
  no_colon = omega arith;
  scalar = omega arith;
  host = record {
    bare = omega arith;
    no_hash = omega arith;
    no_query = omega arith;
    no_at = omega arith;
    in_range = omega arith;
  };
  tls = record {
    sni_scalar = omega arith;
    fp_scalar = tt;
    alpn_scalar = (omega arith, tt);
    alpn_no_comma = (omega arith, tt);
  };
})

parse-serialize_hysteria2_example :
    (uri : Text) × (serialize_hysteria2 sample hysteria2_example ≡ ok uri)
    × (parse_hysteria2 sample uri ≡ ok (hysteria2_kept hysteria2_example))
parse-serialize_hysteria2_example =
    parse-serialize_hysteria2 sample sample-Documented hysteria2_example (record {
      is_hysteria2 = refl;
      scalar = omega arith;
      host = record {
        bare = omega arith;
        no_hash = omega arith;
        no_query = omega arith;
        no_at = omega arith;
        in_range = omega arith;
      };
      tls = (omega arith, (omega arith, tt));
    })

parse-serialize_wireguard_example :
    (uri : Text) × (serialize_wireguard sample wireguard_example ≡ ok uri)
    × (parse_wireguard sample uri ≡ ok (wireguard_kept wireguard_example))
parse-serialize_wireguard_example =
    parse-serialize_wireguard sample sample-Documented wireguard_example (record {
      is_wireguard = refl;
      has_public = refl;
      has_private = refl;
      public_scalar = omega arith;
      private_scalar = omega arith;
      host = record {
        bare = omega arith;
        no_hash = omega arith;
        no_query = omega arith;
        no_at = omega arith;
        in_range = omega arith;
      };
    })

parse-serialize_ss_example :
    (uri : Text) × (serialize_ss sample ss_example ≡ ok uri)
    × (parse_ss sample uri ≡ ok (ss_kept ss_example aes_256_gcm))
unfolding crypto_as_str encode_groups utf8
parse-serialize_ss_example =
    parse-serialize_ss sample sample-Documented ss_example {c = aes_256_gcm} {password = str "pw:1"}
      (record {
        is_ss = refl;
        has_crypto = refl;
        has_password = refl;
        no_colon = omega arith;
        scalar = omega arith;
        host = record {
          bare = omega arith;
          no_hash = omega arith;
          no_query = omega arith;
          no_at = omega arith;
          in_range = omega arith;
        };
        short = omega arith;
      })
