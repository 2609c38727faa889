-- ===== src/Protocols.antt =====
-- crates/proxy-core/src/protocols: a module for each protocol, with its parser and its serializer.
-- `Parts` holds what the parsers and serializers of the URI forms have in common.
pub mod Parts
pub mod Ss
pub mod Ssr
pub mod Socks5
pub mod Http
pub mod Vmess
pub mod Vless
pub mod Trojan
pub mod Hysteria
pub mod Hysteria2
pub mod Tuic
pub mod Wireguard
