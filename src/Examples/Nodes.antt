-- ===== src/Examples/Nodes.antt =====
-- The nodes of the examples.
use sub_merge.Base.{true, none, some, [], ◌∷◌}
use sub_merge.Base.Text.{str}
use sub_merge.Model.{
  ss, vless, trojan, hysteria2, tuic, wireguard, aes_256_gcm, TlsSettings, ProxyNode, new_node,
  over_websocket, over_grpc,
}

abbrev pub trojan_example : ProxyNode
trojan_example = record (new_node (str "hk") trojan (str "a.io") 443) {
  password = some (str "p@s");
  tls = some (record {
    enabled = true;
    sni = some (str "b.io");
    alpn = str "h2" ∷ str "h3" ∷ [];
    insecure = true;
    fingerprint = none;
  });
  transport = some (over_websocket (str "/x y") (some (str "c.io")));
}

abbrev pub vless_example : ProxyNode
vless_example = record (new_node (str "de") vless (str "10.0.0.1") 8443) {
  uuid = some (str "6ba7-11");
  tls = none;
  transport = some (over_grpc (str "svc"));
}

abbrev pub quic_settings : TlsSettings
quic_settings = record {
  enabled = true;
  sni = some (str "s.io");
  alpn = str "h3" ∷ [];
  insecure = true;
  fingerprint = none;
}

abbrev pub tuic_example : ProxyNode
tuic_example = record (new_node (str "jp") tuic (str "t.io") 1) {
  uuid = some (str "u1");
  password = some (str "a:b");
  tls = some quic_settings;
}

abbrev pub hysteria2_example : ProxyNode
hysteria2_example = record (new_node (str "sg") hysteria2 (str "h.io") 65535) {
  password = some (str "k#1");
  tls = some quic_settings;
}

abbrev pub wireguard_example : ProxyNode
wireguard_example = record (new_node (str "wg") wireguard (str "w.io") 51820) {
  uuid = some (str "priv=");
  password = some (str "pub+");
}

abbrev pub ss_example : ProxyNode
ss_example = record (new_node (str "ss") ss (str "s.io") 8388) {
  crypto = some aes_256_gcm;
  password = some (str "pw:1");
}
