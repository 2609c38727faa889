-- ===== src/Model.antt =====
-- crates/proxy-core/src/model.rs: the protocols, the ciphers and the node that stands for a proxy
-- of any protocol.
pub mod Names
use sub_merge.Base.{ℕ, ◌≡◌, Bool, true, ◌||◌, Option, none, some, List, [], arith}
use sub_merge.Base.Tests.{◌==◌, if◌then◌else◌}
use sub_merge.Base.Text.{Text, str, eqb, to_ascii_lowercase}

pub data Protocol : Type 0 where
  ss ssr socks5 http vmess vless trojan hysteria hysteria2 tuic wireguard : Protocol

-- The discriminant, by which the derived `==` compares.
abbrev pub discriminant : Protocol → ℕ
discriminant ss = 0
discriminant ssr = 1
discriminant socks5 = 2
discriminant http = 3
discriminant vmess = 4
discriminant vless = 5
discriminant trojan = 6
discriminant hysteria = 7
discriminant hysteria2 = 8
discriminant tuic = 9
discriminant wireguard = 10

abbrev pub is_kind : Protocol → Protocol → Bool
is_kind p q = discriminant p == discriminant q

pub is_kind_refl : (p : Protocol) → is_kind p p ≡ true
is_kind_refl p = ground arith

-- `Protocol::as_str`
unfoldable pub protocol_as_str : Protocol → Text
protocol_as_str ss = str "ss"
protocol_as_str ssr = str "ssr"
protocol_as_str socks5 = str "socks5"
protocol_as_str http = str "http"
protocol_as_str vmess = str "vmess"
protocol_as_str vless = str "vless"
protocol_as_str trojan = str "trojan"
protocol_as_str hysteria = str "hysteria"
protocol_as_str hysteria2 = str "hysteria2"
protocol_as_str tuic = str "tuic"
protocol_as_str wireguard = str "wireguard"

-- The `match` of `Protocol::from_str`, on the text in lower case.
protocol_of_lower : Text → Option Protocol
protocol_of_lower s =
    if eqb s (str "ss")
    then some ss
    else if eqb s (str "ssr")
    then some ssr
    else if eqb s (str "socks5")
    then some socks5
    else if eqb s (str "socks")
    then some socks5
    else if eqb s (str "http")
    then some http
    else if eqb s (str "https")
    then some http
    else if eqb s (str "vmess")
    then some vmess
    else if eqb s (str "vless")
    then some vless
    else if eqb s (str "trojan")
    then some trojan
    else if eqb s (str "hysteria") || eqb s (str "hy1")
    then some hysteria
    else if eqb s (str "hysteria2") || eqb s (str "hy2")
    then some hysteria2
    else if eqb s (str "tuic")
    then some tuic
    else if eqb s (str "wireguard")
    then some wireguard
    else none

-- `Protocol::from_str`
unfoldable pub protocol_from_str : Text → Option Protocol
unfolding protocol_of_lower
protocol_from_str s = protocol_of_lower (to_ascii_lowercase s)

pub data Crypto : Type 0 where
  aes_256_gcm aes_128_gcm chacha20_ietf_poly1305 aes_128_cfb aes_192_cfb aes_256_cfb : Crypto
  chacha20_ietf salsa20 rc4_md5 plain : Crypto
  raw : Text → Crypto

-- The `match` of `Crypto::from_str`, on the text in lower case.
crypto_of_lower : Text → Crypto
crypto_of_lower s =
    if eqb s (str "aes-256-gcm")
    then aes_256_gcm
    else if eqb s (str "aes-128-gcm")
    then aes_128_gcm
    else if eqb s (str "chacha20-ietf-poly1305")
    then chacha20_ietf_poly1305
    else if eqb s (str "aes-128-cfb")
    then aes_128_cfb
    else if eqb s (str "aes-192-cfb")
    then aes_192_cfb
    else if eqb s (str "aes-256-cfb")
    then aes_256_cfb
    else if eqb s (str "chacha20-ietf")
    then chacha20_ietf
    else if eqb s (str "salsa20")
    then salsa20
    else if eqb s (str "rc4-md5")
    then rc4_md5
    else if eqb s (str "2022-blake3-aes-256-gcm") || (eqb s (str "none") || eqb s (str "plain"))
    then plain
    else raw s

-- `Crypto::from_str`
unfoldable pub crypto_from_str : Text → Crypto
unfolding crypto_of_lower
crypto_from_str s = crypto_of_lower (to_ascii_lowercase s)

-- `Crypto::as_str`
unfoldable pub crypto_as_str : Crypto → Text
crypto_as_str aes_256_gcm = str "aes-256-gcm"
crypto_as_str aes_128_gcm = str "aes-128-gcm"
crypto_as_str chacha20_ietf_poly1305 = str "chacha20-ietf-poly1305"
crypto_as_str aes_128_cfb = str "aes-128-cfb"
crypto_as_str aes_192_cfb = str "aes-192-cfb"
crypto_as_str aes_256_cfb = str "aes-256-cfb"
crypto_as_str chacha20_ietf = str "chacha20-ietf"
crypto_as_str salsa20 = str "salsa20"
crypto_as_str rc4_md5 = str "rc4-md5"
crypto_as_str plain = str "plain"
crypto_as_str (raw s) = s

pub record WebsocketConfig : Type 0 where
  pub path : Text
  pub host : Option Text
  pub headers : List (Text × Text)

pub record GrpcConfig : Type 0 where
  pub service_name : Text

pub record HttpUpgradeConfig : Type 0 where
  pub path : Text
  pub host : Option Text

pub record Transport : Type 0 where
  pub websocket : Option WebsocketConfig
  pub grpc : Option GrpcConfig
  pub http_upgrade : Option HttpUpgradeConfig

pub record TlsSettings : Type 0 where
  pub enabled : Bool
  pub sni : Option Text
  pub alpn : List Text
  pub insecure : Bool
  pub fingerprint : Option Text

pub record ProxyNode : Type 0 where
  pub name : Text
  pub kind : Protocol
  pub server : Text
  pub port : ℕ
  pub crypto : Option Crypto
  pub password : Option Text
  pub uuid : Option Text
  pub alter_id : Option ℕ
  pub tls : Option TlsSettings
  pub transport : Option Transport

-- `ProxyNode::new`, which is also a literal that ends in `..Default::default()`.
abbrev pub new_node : Text → Protocol → Text → ℕ → ProxyNode
new_node name kind server port = record {
  name = name;
  kind = kind;
  server = server;
  port = port;
  crypto = none;
  password = none;
  uuid = none;
  alter_id = none;
  tls = none;
  transport = none;
}

-- `Transport { websocket: Some(…), ..Default::default() }`, and so for the other two.
abbrev pub over_websocket : Text → Option Text → Transport
over_websocket path host = record {
  websocket = some (record { path = path; host = host; headers = [] });
  grpc = none;
  http_upgrade = none;
}

abbrev pub over_grpc : Text → Transport
over_grpc service = record {
  websocket = none;
  grpc = some (record { service_name = service });
  http_upgrade = none;
}

abbrev pub over_http_upgrade : Text → Option Text → Transport
over_http_upgrade path host = record {
  websocket = none;
  grpc = none;
  http_upgrade = some (record { path = path; host = host });
}
