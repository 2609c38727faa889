-- ===== src/Formats/V2ray.antt =====
-- crates/proxy-core/src/formats/v2ray.rs: the subscription as base64 over lines of links.
use sub_merge.Base.{Option, none, some, List, [], ◌∷◌}
use sub_merge.Base.Tests.{if◌then◌else◌}
use sub_merge.Base.Text.{Text, str, is_empty, utf8}
use sub_merge.Base.Split.{join}
use sub_merge.Base.Result.{ok, ◌>>=◌}
use sub_merge.Crates.{Crates}
use sub_merge.Error.{Serialized}
use sub_merge.Model.{
  Protocol, ss, ssr, socks5, http, vmess, vless, trojan, hysteria, hysteria2, tuic, wireguard,
  ProxyNode,
}
use sub_merge.Protocols.Ss.{serialize_ss}
use sub_merge.Protocols.Ssr.{serialize_ssr}
use sub_merge.Protocols.Vmess.{serialize_vmess}
use sub_merge.Protocols.Vless.{serialize_vless}
use sub_merge.Protocols.Trojan.{serialize_trojan}
use sub_merge.Protocols.Tuic.{serialize_tuic}

-- The `match &n.kind`; `none` is a `continue`.
unfoldable pub uri_line : Crates → Protocol → ProxyNode → Option (Serialized Text)
uri_line k ss n = some (serialize_ss k n)
uri_line k ssr n = some (serialize_ssr k n)
uri_line k vmess n = some (serialize_vmess k n)
uri_line k vless n = some (serialize_vless k n)
uri_line k trojan n = some (serialize_trojan k n)
uri_line k tuic n = some (serialize_tuic k n)
uri_line k hysteria n = none
uri_line k hysteria2 n = none
uri_line k wireguard n = none
uri_line k socks5 n = none
uri_line k http n = none

-- One round of the loop, in front of the lines of the rest.
unfoldable pub push_line :
    Option (Serialized Text) → Serialized (List Text) → Serialized (List Text)
push_line none rest = rest
push_line (some line) rest = do l ← line; ls ← rest; ok (l ∷ ls)

-- The loop: the first error ends it.
unfoldable pub uri_lines : Crates → List ProxyNode → Serialized (List Text)
unfolding uri_line push_line
uri_lines k [] = ok []
uri_lines k (n ∷ ns) = push_line (uri_line k n.kind n) (uri_lines k ns)

unfoldable pub serialize_v2ray_plain : Crates → List ProxyNode → Serialized Text
serialize_v2ray_plain k nodes = do lines ← uri_lines k nodes; ok (join (str "\n") lines)

unfoldable pub serialize_v2ray : Crates → List ProxyNode → Serialized Text
serialize_v2ray k nodes = do
  joined ← serialize_v2ray_plain k nodes
  ok (if is_empty joined then [] else k.encode_standard (utf8 joined))
