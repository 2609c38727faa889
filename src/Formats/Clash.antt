-- ===== src/Formats/Clash.antt =====
-- crates/proxy-core/src/formats/clash.rs: the Clash document, and the subscription template.
use sub_merge.Base.{ℕ, inl, inr, Bool, not, ◌&&◌, ◌||◌, Option, none, some, [], ◌∷◌, ◌++◌}
use sub_merge.Base.Tests.{◌==◌, within, if◌then◌else◌}
use sub_merge.Base.Text.{Text, str, is_empty, trim_end}
use sub_merge.Base.Split.{join}
use sub_merge.Base.Decimal.{to_string}
use sub_merge.Base.Result.{ok, ◌>>=◌, ok_or}
use sub_merge.Base.Lists.{is_empty_list, all}
use sub_merge.Crates.{string, Crates}
use sub_merge.Error.{missing, Serialized}
use sub_merge.Model.{
  Protocol, ss, ssr, socks5, http, vmess, vless, trojan, hysteria, hysteria2, tuic, wireguard,
  crypto_as_str, WebsocketConfig, GrpcConfig, HttpUpgradeConfig, Transport, TlsSettings, ProxyNode,
}

-- A part that is written only if a value is there.
abbrev pub if_some {ℓ} : {A : Type ℓ} → Option A → (A → Text) → Text
if_some none f = []
if_some (some a) f = f a

is_plain_char : ℕ → Bool
is_plain_char c =
    within b'0' b'9' c
    || (within b'a' b'z' c || (within b'A' b'Z' c || (c == b'.' || (c == b'_' || c == b'-'))))

-- `s.replace('"', "\\\"")`
escape_quotes : Text → Text
escape_quotes [] = []
escape_quotes (c ∷ s) =
    let rest = escape_quotes s in if c == b'"' then b'\\' ∷ b'"' ∷ rest else c ∷ rest

-- A scalar that needs no quotes stands as it is, any other is left to serde_yaml_ng.
unfoldable pub clash_yaml_str : Crates → Text → Text
unfolding is_plain_char escape_quotes
clash_yaml_str k s =
    if not (is_empty s) && all is_plain_char s then s else elim (k.yaml_to_string (string s)) [
      | inr v ↦ trim_end v
      | inl e ↦ b'"' ∷ (escape_quotes s ++ b'"' ∷ [])
    ]

abbrev clash_type : Protocol → Text
clash_type ss = str "ss"
clash_type ssr = str "ssr"
clash_type socks5 = str "socks5"
clash_type http = str "http"
clash_type vmess = str "vmess"
clash_type vless = str "vless"
clash_type trojan = str "trojan"
clash_type hysteria = str "hysteria"
clash_type hysteria2 = str "hysteria2"
clash_type tuic = str "tuic"
clash_type wireguard = str "wireguard"

-- `s.push_str(&format!("    key: {}\n", …))`
abbrev line : Text → Text → Text
line key value = str "    " ++ (key ++ (str ": " ++ (value ++ str "\n")))

cipher_fields : Crates → ProxyNode → Serialized Text
cipher_fields k n = do
  c ← ok_or n.crypto (missing (str "crypto"))
  p ← ok_or n.password (missing (str "password"))
  ok (
      line (str "cipher") (clash_yaml_str k (crypto_as_str c))
      ++ line (str "password") (clash_yaml_str k p))

-- The server stands for the user, as in the links.
login_fields : Crates → ProxyNode → Text
login_fields k n = if_some n.password λ p.
    line (str "username") (clash_yaml_str k n.server) ++ line (str "password") (clash_yaml_str k p)

quic_fields : Crates → ProxyNode → Text
quic_fields k n =
    if_some n.password (λ p. line (str "password") (clash_yaml_str k p))
    ++ if_some n.uuid (λ u. line (str "uuid") (clash_yaml_str k u))

alter_id_text : Option ℕ → Text
alter_id_text none = str "0"
alter_id_text (some n) = to_string n

-- The `match &n.kind` in the middle of `proxy_to_clash`.
unfoldable pub kind_fields : Crates → Protocol → ProxyNode → Serialized Text
unfolding cipher_fields login_fields quic_fields alter_id_text
kind_fields k ss n = cipher_fields k n
kind_fields k ssr n = cipher_fields k n
kind_fields k vmess n = do
  u ← ok_or n.uuid (missing (str "uuid"))
  ok (
      line (str "uuid") (clash_yaml_str k u)
      ++ (line (str "alterId") (alter_id_text n.alter_id) ++ str "    cipher: auto\n"))
kind_fields k vless n = do
  u ← ok_or n.uuid (missing (str "uuid"))
  ok (line (str "uuid") (clash_yaml_str k u))
kind_fields k trojan n = do
  p ← ok_or n.password (missing (str "password"))
  ok (line (str "password") (clash_yaml_str k p))
kind_fields k hysteria n = ok (quic_fields k n)
kind_fields k hysteria2 n = ok (quic_fields k n)
kind_fields k tuic n = ok (quic_fields k n)
kind_fields k socks5 n = ok (login_fields k n)
kind_fields k http n = ok (login_fields k n)
kind_fields k wireguard n = do
  pubk ← ok_or n.password (missing (str "publicKey"))
  privk ← ok_or n.uuid (missing (str "privateKey"))
  ok (
      line (str "public-key") (clash_yaml_str k pubk)
      ++ line (str "private-key") (clash_yaml_str k privk))

-- `if let Some(t) = &n.tls`
tls_fields : Crates → TlsSettings → Text
tls_fields k t =
    (if t.enabled then str "    tls: true\n" else [])
    ++ (if_some t.sni (λ s. line (str "sni") (clash_yaml_str k s))
        ++ ((if is_empty_list t.alpn
              then []
              else str "    alpn:\n      - " ++ (join (str "\n      - ") t.alpn ++ str "\n"))
            ++ ((if t.insecure then str "    skip-cert-verify: true\n" else [])
                ++ if_some t.fingerprint
                    (λ f. line (str "client-fingerprint") (clash_yaml_str k f)))))

ws_fields : Crates → WebsocketConfig → Text
ws_fields k ws =
    str "    network: ws\n    ws-opts:\n"
    ++ (line (str "  path") (clash_yaml_str k ws.path)
        ++ if_some ws.host
            (λ h. str "      headers:\n" ++ line (str "    Host") (clash_yaml_str k h)))

-- `if let Some(ws) = … else if let Some(g) = … else if let Some(h) = …`
transport_with :
    Crates → Option WebsocketConfig → Option GrpcConfig → Option HttpUpgradeConfig → Text
unfolding ws_fields
transport_with k (some ws) g h = ws_fields k ws
transport_with k none (some g) h =
    str "    network: grpc\n    grpc-opts:\n"
    ++ line (str "  grpc-service-name") (clash_yaml_str k g.service_name)
transport_with k none none (some h) =
    str "    network: http\n    http-opts:\n" ++ line (str "  path") (clash_yaml_str k h.path)
transport_with k none none none = []

transport_fields : Crates → Transport → Text
unfolding transport_with
transport_fields k t = transport_with k t.websocket t.grpc t.http_upgrade

unfoldable pub proxy_to_clash : Crates → ProxyNode → Serialized Text
unfolding tls_fields transport_fields
proxy_to_clash k n = do
  fields ← kind_fields k n.kind n
  ok (
      str "  - name: "
      ++ (clash_yaml_str k n.name
          ++ (str "\n"
              ++ (line (str "type") (clash_type n.kind)
                  ++ (line (str "server") n.server
                      ++ (line (str "port") (to_string n.port)
                          ++ (fields
                              ++ (if_some n.tls (tls_fields k)
                                  ++ if_some n.transport (transport_fields k)))))))))
