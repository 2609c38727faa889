-- ===== src/Formats/Laws.antt =====
-- What the two outputs do with nodes that cannot be written.
use sub_merge.Base.{ℕ, ◌≡◌, refl, Option, none, some, List, [], ◌∷◌}
use sub_merge.Base.Tests.{if◌then◌else◌}
use sub_merge.Base.Text.{Text, str, is_empty, utf8}
use sub_merge.Base.Split.{join}
use sub_merge.Base.Result.{ok, ok_or, ◌>>=◌, ◌>>◌}
use sub_merge.Base.Lists.{All, All-map}
use sub_merge.Crates.{Json, object, Crates}
use sub_merge.Error.{SerializeError, missing, Serialized}
use sub_merge.Model.{
  Protocol, ss, ssr, socks5, http, vmess, vless, trojan, hysteria, hysteria2, tuic, wireguard,
  is_kind_refl, Crypto, ProxyNode,
}
use sub_merge.Protocols.Parts.{check_kind}
use sub_merge.Protocols.Ss.{serialize_ss}
use sub_merge.Protocols.Ssr.{serialize_ssr}
use sub_merge.Protocols.Vmess.{vmess_object, serialize_vmess}
use sub_merge.Protocols.Vless.{serialize_vless}
use sub_merge.Protocols.Trojan.{serialize_trojan}
use sub_merge.Protocols.Tuic.{serialize_tuic}
use sub_merge.Formats.V2ray.{uri_line, push_line, uri_lines, serialize_v2ray_plain, serialize_v2ray}
use sub_merge.Parser.{lines, Lines, parse_lines}
use sub_merge.Parser.Ready.{Given, HasFields, IsReady}
use sub_merge.Parser.Subscription.{parse_lines-IsNode}

-- A writer that has a result.
pub data Succeeds {A : Type 0} : Serialized A → Type 0 where
  wrote : {a : A} → Succeeds (ok a)

Given-Succeeds :
    {A B : Type 0} (o : Option A) (e : SerializeError) (f : A → Serialized B)
    → Given o
    → ((a : A) → Succeeds (f a))
    → Succeeds (ok_or o e >>= f)
Given-Succeeds none e f g h = absurd g
Given-Succeeds (some a) e f g h = h a

check_kind-Succeeds :
    {B : Type 0} (p : Protocol) (n : ProxyNode) (m : Serialized B)
    → n.kind ≡ p
    → Succeeds m
    → Succeeds (check_kind p n >> m)
check_kind-Succeeds p n m e h = rw (e) (rw (is_kind_refl p) h)

module _ (k : Crates) (j : (v : Json) → Given (k.json_to_string v)) where
  abbrev Line : Option (Serialized Text) → Type 0
  Line none = Unit
  Line (some m) = Succeeds m

  crypted-Succeeds :
      (n : ProxyNode) (f : Crypto → Text → Serialized Text)
      → Given n.crypto × Given n.password
      → ((c : Crypto) (p : Text) → Succeeds (f c p))
      → Succeeds (do
        c ← ok_or n.crypto (missing (str "crypto"))
        p ← ok_or n.password (missing (str "password"))
        f c p)
  crypted-Succeeds n f (c, p) h =
      Given-Succeeds n.crypto _ _ c λ c. Given-Succeeds n.password _ _ p λ p. h c p

  uri_line-Succeeds :
      (p : Protocol) (n : ProxyNode) → n.kind ≡ p → HasFields p n → Line (uri_line k p n)
  unfolding uri_line serialize_ss serialize_ssr serialize_vmess serialize_vless serialize_trojan
      serialize_tuic
  uri_line-Succeeds ss n e h = check_kind-Succeeds ss n _ e (crypted-Succeeds n _ h λ c p. wrote)
  uri_line-Succeeds ssr n e h = check_kind-Succeeds ssr n _ e (crypted-Succeeds n _ h λ c p. wrote)
  uri_line-Succeeds vmess n e h =
      check_kind-Succeeds vmess n _ e
        (Given-Succeeds (k.json_to_string (object (vmess_object n))) _ _ (j _) λ s. wrote)
  uri_line-Succeeds vless n e h =
      check_kind-Succeeds vless n _ e (Given-Succeeds n.uuid _ _ h λ u. wrote)
  uri_line-Succeeds trojan n e h =
      check_kind-Succeeds trojan n _ e (Given-Succeeds n.password _ _ h λ p. wrote)
  uri_line-Succeeds tuic n e h = check_kind-Succeeds tuic n _ e wrote
  uri_line-Succeeds hysteria n e h = tt
  uri_line-Succeeds hysteria2 n e h = tt
  uri_line-Succeeds wireguard n e h = tt
  uri_line-Succeeds socks5 n e h = tt
  uri_line-Succeeds http n e h = tt

  push_line-Succeeds :
      (l : Option (Serialized Text)) (m : Serialized (List Text))
      → Line l
      → Succeeds m
      → Succeeds (push_line l m)
  unfolding push_line
  push_line-Succeeds none m h s = s
  push_line-Succeeds (some l) m h s = go l m h s
    where
      go :
          (l : Serialized Text) (m : Serialized (List Text))
          → Succeeds l
          → Succeeds m
          → Succeeds (push_line (some l) m)
      go _ _ wrote wrote = wrote

  uri_lines-Succeeds : (ns : List ProxyNode) → All IsReady ns → Succeeds (uri_lines k ns)
  unfolding uri_lines
  uri_lines-Succeeds [] h = wrote
  uri_lines-Succeeds (n ∷ ns) (r, h) =
      push_line-Succeeds (uri_line k n.kind n) (uri_lines k ns) (uri_line-Succeeds n.kind n refl r)
        (uri_lines-Succeeds ns h)

  -- If every node has the fields that the serializer of its kind asks for, and JSON objects can be
  -- printed, then the v2ray output has a result: no node makes it fail.
  pub serialize_v2ray-Succeeds :
      (ns : List ProxyNode) → All IsReady ns → Succeeds (serialize_v2ray k ns)
  unfolding serialize_v2ray serialize_v2ray_plain
  serialize_v2ray-Succeeds ns h = go (uri_lines k ns) (uri_lines-Succeeds ns h)
    where
      go :
          (m : Serialized (List Text))
          → Succeeds m
          → Succeeds (do
            joined ← (do lines ← m; ok (join (str "\n") lines))
            ok (if is_empty joined then [] else k.encode_standard (utf8 joined)))
      go _ wrote = wrote

  -- If JSON objects can be printed, the nodes that `parse_lines` returns for a text never make the
  -- v2ray output fail.
  pub serialize_v2ray-parse_lines :
      (text : Text) (max_nodes : ℕ) (r : Lines)
      → parse_lines k text max_nodes ≡ some r
      → Succeeds (serialize_v2ray k r.nodes)
  serialize_v2ray-parse_lines text max_nodes r e =
      serialize_v2ray-Succeeds r.nodes
        (All-map (λ n h. h.ready) r.nodes (parse_lines-IsNode k max_nodes text r e))
