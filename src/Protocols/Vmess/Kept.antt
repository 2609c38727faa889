-- ===== src/Protocols/Vmess/Kept.antt =====
-- What a vmess link keeps of a node, and the TLS settings and transport that the parser finds.
use sub_merge.Base.{
  ◌≡◌, refl, ap, Bool, true, false, ◌||◌, Option, none, some, List, [], ◌∷◌, arith,
}
use sub_merge.Base.Tests.{if◌then◌else◌}
use sub_merge.Base.Lists.{All, All-map}
use sub_merge.Base.Text.{Text, str, eqb, is_empty, drop_while, Absent}
use sub_merge.Base.Split.{join, split-join}
use sub_merge.Crates.{Json}
use sub_merge.Model.{
  vmess, WebsocketConfig, GrpcConfig, HttpUpgradeConfig, Transport, TlsSettings, ProxyNode,
  new_node,
}
use sub_merge.Protocols.Parts.{
  or_default, or_else, truthy, comma_list, Stream, stream_with, stream_of, transport_of,
}
use sub_merge.Protocols.Trojan.Written.{nonempty_text, kept_text, kept_with, kept_transport}
use sub_merge.Protocols.Vmess.{
  get, nonempty, filter_nonempty, tls_enabled, alpn_of, insecure_of, vmess_tls, vmess_transport,
  tls_field, alter_id_or_zero,
}

-- Disabled settings are written as none; the host stands in for a missing SNI.
abbrev kept_vmess_tls : Option TlsSettings → Option Text → Option TlsSettings
kept_vmess_tls none host = none
kept_vmess_tls (some t) host =
    if t.enabled
    then some (record {
      enabled = true;
      sni = or_else (kept_text t.sni) host;
      alpn = t.alpn;
      insecure = t.insecure;
      fingerprint = kept_text t.fingerprint;
    })
    else none

abbrev pub written_stream : ProxyNode → Stream
written_stream node = stream_of (str "http") node.transport

-- The node that comes back.
abbrev pub vmess_kept : ProxyNode → ProxyNode
vmess_kept node = record (new_node node.name vmess node.server node.port) {
  uuid = some (or_default node.uuid);
  alter_id = some (alter_id_or_zero node.alter_id);
  tls = kept_vmess_tls node.tls (nonempty_text (written_stream node).host);
  transport = kept_transport node.transport;
}

-- ALPN names that stand apart in a list with commas.
abbrev pub IsName : Text → Type 0
IsName w = (is_empty w ≡ false) × Absent b',' w

transport-with :
    (w : Option WebsocketConfig) (g : Option GrpcConfig) (h : Option HttpUpgradeConfig)
    → let st = stream_with (str "http") w g h in
      vmess_transport st.net st.path (nonempty_text st.host) ≡ kept_with w g h
unfolding vmess_transport transport_of eqb drop_while
transport-with (some w) g h = refl
transport-with none (some g) h = refl
transport-with none none (some h) = refl
transport-with none none none = refl

pub transport-kept :
    (o : Option Transport)
    → let st = stream_of (str "http") o in
      vmess_transport st.net st.path (nonempty_text st.host) ≡ kept_transport o
unfolding stream_of
transport-kept none = unfold vmess_transport transport_of eqb in refl
transport-kept (some t) = transport-with t.websocket t.grpc t.http_upgrade

filter_nonempty-names : (ws : List Text) → All IsName ws → filter_nonempty ws ≡ ws
unfolding filter_nonempty
filter_nonempty-names [] h = refl
filter_nonempty-names (w ∷ ws) ((n, a), h) = rw n (ap (λ r. w ∷ r) (filter_nonempty-names ws h))

abbrev split_alpn : Option Text → List Text
split_alpn none = []
split_alpn (some a) = filter_nonempty (comma_list a)

join-nonempty :
    (w : Text) (ws : List Text)
    → is_empty w ≡ false
    → nonempty_text (join (b',' ∷ []) (w ∷ ws)) ≡ some (join (b',' ∷ []) (w ∷ ws))
unfolding join
join-nonempty [] ws n = ground arith
join-nonempty (c ∷ w) [] n = refl
join-nonempty (c ∷ w) (x ∷ ws) n = refl

alpn-names :
    (ws : List Text) → All IsName ws → split_alpn (nonempty_text (join (b',' ∷ []) ws)) ≡ ws
alpn-names [] h = unfold join in refl
alpn-names (w ∷ ws) h =
    rw (join-nonempty w ws h.0.0) (
      rw (split-join b',' w ws (All-map (λ x p. p.1) (w ∷ ws) h))
        (filter_nonempty-names (w ∷ ws) h))

flag-truthy : (b : Bool) → truthy (if b then str "1" else str "0") ≡ b
unfolding truthy eqb
flag-truthy true = refl
flag-truthy false = refl

nonempty-nonempty_text : (s : Text) → nonempty (nonempty_text s) ≡ nonempty_text s
nonempty-nonempty_text [] = refl
nonempty-nonempty_text (c ∷ s) = refl

-- What the closure `get` finds of TLS settings.
pub record FindsTls (v : Json) (o : Option TlsSettings) (host : Text) : Type 0 where
  pub tls :
      get v (str "tls")
      ≡ some (if tls_field o (λ t. t.enabled) false then str "tls" else str "none")
  pub security : get v (str "security") ≡ none
  pub host_text : get v (str "host") ≡ nonempty_text host
  pub sni : get v (str "sni") ≡ nonempty_text (tls_field o (λ t. or_default t.sni) [])
  pub alpn : get v (str "alpn") ≡ nonempty_text (tls_field o (λ t. join (b',' ∷ []) t.alpn) [])
  pub fp : get v (str "fp") ≡ nonempty_text (tls_field o (λ t. or_default t.fingerprint) [])
  pub insecure :
      get v (str "allowInsecure")
      ≡ some (if tls_field o (λ t. t.insecure) false then str "1" else str "0")

tls_enabled-found :
    (v : Json) (o : Option TlsSettings) (host : Text)
    → FindsTls v o host
    → tls_enabled v ≡ tls_field o (λ t. t.enabled) false
unfolding eqb
tls_enabled-found v o host f =
    rw f.tls (rw f.security (by_flag (tls_field o (λ t. t.enabled) false)))
  where
    by_flag :
        (b : Bool)
        → let s = if b then str "tls" else str "none" in
          (eqb s (str "tls") || (eqb s (str "xtls") || (eqb s (str "reality") || false))) ≡ b
    by_flag true = refl
    by_flag false = refl

pub vmess_tls-found :
    (v : Json) (o : Option TlsSettings) (host : Text)
    → FindsTls v o host
    → tls_field o (λ t. All IsName t.alpn) Unit
    → vmess_tls v ≡ kept_vmess_tls o (nonempty_text host)
unfolding vmess_tls alpn_of insecure_of
vmess_tls-found v none host f h = rw (tls_enabled-found v none host f) refl
vmess_tls-found v (some t) host f h = rw (tls_enabled-found v (some t) host f) (
    rw (f.sni, f.host_text, f.fp)
      (rw (f.alpn, alpn_of)
        (rw (f.insecure, insecure_of)
          (rw (flag-truthy t.insecure, alpn-names t.alpn h)
            (rw
              (
                nonempty-nonempty_text (or_default t.sni),
                nonempty-nonempty_text (or_default t.fingerprint),
              )
              refl)))))
