-- ===== src/Protocols/Hysteria2/RoundTrip.antt =====
-- A hysteria2 node through `serialize_hysteria2` and `parse_hysteria2`.
use sub_merge.Base.{
  ◌≡◌, refl, ap, ◌∙◌, Bool, true, false, Option, none, some, List, [], ◌∷◌, ◌++◌, arith,
}
use sub_merge.Base.Tests.{if◌then◌else◌}
use sub_merge.Base.Lists.{is_empty_list, All, All-append, all_sound}
use sub_merge.Base.Text.{Text, str, eqb, is_empty, IsScalar, Absent, strip_prefix-append}
use sub_merge.Base.Result.{ok, ◌>>=◌}
use sub_merge.Crates.{Crates}
use sub_merge.Crates.Laws.{Documented}
use sub_merge.Model.{hysteria2, TlsSettings, ProxyNode, new_node}
use sub_merge.Uri.{percent_decode, urlencode}
use sub_merge.Uri.Percent.{
  urlencode-Absent, percent_decode-urlencode, urlencode-nil, urlencode-ne-nil,
}
use sub_merge.Protocols.Parts.{
  or_default, or_else, fragment, when, each, query_suffix, truthy, query_step, query_loop,
}
use sub_merge.Protocols.Parts.Query.{
  or_default-name_part, decode_or_default-urlencode, decode_or_default_plain, query_step-pair,
  query_loop-append, is_param, IsParam, when-All, each-All, pair-IsParam, read_query-text,
}
use sub_merge.Protocols.Parts.Authority.{authority, IsHost, cuts}
use sub_merge.Protocols.Hysteria.{QuicQuery, no_quic_query, quic_tls, first, hysteria_tls}
use sub_merge.Protocols.Trojan.Written.{AllScalar, nonempty_text, kept_text}
use sub_merge.Protocols.Hysteria2.{
  hysteria2_param, decoded_userinfo, parse_hysteria2, serialize_hysteria2,
}

abbrev first_only : List Text → List Text
first_only [] = []
first_only (w ∷ ws) = w ∷ []

abbrev kept_quic_tls : Option TlsSettings → TlsSettings
kept_quic_tls none = quic_tls no_quic_query
kept_quic_tls (some t) = record {
  enabled = true;
  sni = t.sni;
  alpn = first_only t.alpn;
  insecure = t.insecure;
  fingerprint = none;
}

-- The node that comes back: TLS is on, with one ALPN name and no fingerprint.
abbrev pub hysteria2_kept : ProxyNode → ProxyNode
hysteria2_kept node = record (new_node node.name hysteria2 node.server node.port) {
  password = kept_text node.password;
  tls = some (kept_quic_tls node.tls);
}

abbrev IsQuicTls : Option TlsSettings → Type 0
IsQuicTls none = Unit
IsQuicTls (some t) = AllScalar t.sni × All (All IsScalar) t.alpn

-- A hysteria2 node whose texts are Rust strings.
pub record IsHysteria2 (node : ProxyNode) : Type 0 where
  pub is_hysteria2 : node.kind ≡ hysteria2
  pub scalar : All IsScalar (or_default node.password)
  pub host : IsHost node.server node.port
  pub tls : IsQuicTls node.tls

-- What the loop makes of the settings.
abbrev put_quic : QuicQuery → Option TlsSettings → QuicQuery
put_quic q none = q
put_quic q (some t) = record q {
  sni = or_else t.sni q.sni;
  alpn = if is_empty_list t.alpn then q.alpn else first_only t.alpn;
  insecure = if t.insecure then true else q.insecure;
}

put_quic-kept : (o : Option TlsSettings) → quic_tls (put_quic no_quic_query o) ≡ kept_quic_tls o
put_quic-kept none = refl
put_quic-kept (some t) = ground (arith, alpn-first t.alpn)
  where
    alpn-first : (ws : List Text) → (if is_empty_list ws then [] else first_only ws) ≡ first_only ws
    alpn-first [] = refl
    alpn-first (w ∷ ws) = refl

decoded_userinfo_ne-nil :
    (k : Crates) (t : Text)
    → is_empty t ≡ false
    → decoded_userinfo k t ≡ (percent_decode k t >>= λ p. ok (some p))
unfolding decoded_userinfo
decoded_userinfo_ne-nil k [] h = cc
decoded_userinfo_ne-nil k (c ∷ s) h = refl

module _ (k : Crates) (d : Documented k) where
  abbrev loop : QuicQuery → List Text → QuicQuery
  loop = query_loop k hysteria2_param

  step_encoded :
      (q : QuicQuery) (key s : Text)
      → Absent b'=' key
      → All IsScalar s
      → query_step k hysteria2_param q (key ++ (b'=' ∷ urlencode k s)) ≡ hysteria2_param q key s
  step_encoded q key s a h =
      query_step-pair k hysteria2_param q key (urlencode k s) a
      ∙ ap (hysteria2_param q key) (decode_or_default-urlencode k d s h)

  loop_then :
      (q : QuicQuery) (ps qs : List Text) {q' : QuicQuery}
      → loop q ps ≡ q'
      → loop q (ps ++ qs) ≡ loop q' qs
  loop_then q ps qs e = query_loop-append k hysteria2_param q ps qs ∙ ap (λ s. loop s qs) e

  loop_sni :
      (q : QuicQuery) (o : Option Text)
      → AllScalar o
      → loop q (each o (λ s. str "sni=" ++ urlencode k s)) ≡ record q { sni = or_else o q.sni }
  unfolding query_loop hysteria2_param eqb
  loop_sni q none h = refl
  loop_sni q (some s) h = step_encoded q (str "sni") s (omega arith) h

  loop_alpn :
      (q : QuicQuery) (ws : List Text)
      → All (All IsScalar) ws
      → loop q (each (first ws) (λ s. str "alpn=" ++ urlencode k s))
        ≡ record q { alpn = if is_empty_list ws then q.alpn else first_only ws }
  unfolding query_loop hysteria2_param eqb
  loop_alpn q [] h = refl
  loop_alpn q (w ∷ ws) h = step_encoded q (str "alpn") w (omega arith) h.0

  loop_insecure :
      (q : QuicQuery) (b : Bool)
      → loop q (when b (str "insecure=1")) ≡ record q { insecure = if b then true else q.insecure }
  unfolding query_loop hysteria2_param eqb truthy
  loop_insecure q false = refl
  loop_insecure q true =
      query_step-pair k hysteria2_param q (str "insecure") (str "1") (omega arith)
      ∙ ap (hysteria2_param q (str "insecure"))
          (decode_or_default_plain k d (str "1") (omega arith) (omega arith))

  loop_quic :
      (q : QuicQuery) (o : Option TlsSettings)
      → IsQuicTls o
      → loop q (hysteria_tls k o) ≡ put_quic q o
  unfolding hysteria_tls
  loop_quic q none h = unfold query_loop in refl
  loop_quic q (some t) h =
      loop_then q (each t.sni _) _ (loop_sni q t.sni h.0)
      ∙ loop_then _ (each (first t.alpn) _) _ (loop_alpn _ t.alpn h.1)
      ∙ loop_insecure _ t.insecure

  pub hysteria_tls-IsParam : (o : Option TlsSettings) → All (All IsParam) (hysteria_tls k o)
  unfolding hysteria_tls
  hysteria_tls-IsParam none = tt
  hysteria_tls-IsParam (some t) =
      All-append (All IsParam) (each t.sni _) _
        (each-All (All IsParam) t.sni _ (λ s. pair-IsParam k d (str "sni=") s refl))
        (All-append (All IsParam) (each (first t.alpn) _) _
          (each-All (All IsParam) (first t.alpn) _ (λ s. pair-IsParam k d (str "alpn=") s refl))
          (when-All (All IsParam) t.insecure (all_sound is_param (str "insecure=1") refl)))

  -- An encoded userinfo is read back, and the empty one as none.
  pub decoded_userinfo-urlencode :
      (s : Text) → All IsScalar s → decoded_userinfo k (urlencode k s) ≡ ok (nonempty_text s)
  decoded_userinfo-urlencode [] h = rw (urlencode-nil k d) (unfold decoded_userinfo in refl)
  decoded_userinfo-urlencode (c ∷ s) h =
      decoded_userinfo_ne-nil k (urlencode k (c ∷ s)) (urlencode-ne-nil k d c s h)
      ∙ rw (percent_decode-urlencode k d (c ∷ s) h)

  abbrev hysteria2_uri : ProxyNode → Text
  hysteria2_uri node =
      str "hysteria2://"
      ++ authority (urlencode k (or_default node.password)) node.server node.port
          (query_suffix (hysteria_tls k node.tls) ++ fragment node.name)

  serialize_hysteria2-uri :
      (node : ProxyNode) → IsHysteria2 node → serialize_hysteria2 k node ≡ ok (hysteria2_uri node)
  unfolding serialize_hysteria2
  serialize_hysteria2-uri node h = ground arith

  parse_hysteria2-uri :
      (node : ProxyNode)
      → IsHysteria2 node
      → parse_hysteria2 k (hysteria2_uri node) ≡ ok (hysteria2_kept node)
  unfolding parse_hysteria2
  parse_hysteria2-uri node h =
      let ps = hysteria_tls k node.tls in
      let p = hysteria_tls-IsParam node.tls in
      let password = or_default node.password in
      let user = urlencode k password in
      let c = cuts user ps node.name h.host (urlencode-Absent k d b'#' password refl) p in
      rw (strip_prefix-append (str "hysteria2://") _) (
        rw c.at_hash (
          rw c.at_sign (
            rw c.at_query (
              rw c.at_port (
                rw (decoded_userinfo-urlencode password h.scalar) (
                  rw (or_default-name_part node.name) (
                    rw (read_query-text k hysteria2_param no_quic_query ps p) (
                      rw (loop_quic no_quic_query node.tls h.tls)
                        (rw (put_quic-kept node.tls))))))))))

  -- A hysteria2 node with a plain server and texts made of Unicode scalar values is serialized, and
  -- the URI parses to the same name, server, port and password, but an empty password is none; TLS
  -- is then on, with the same SNI and `insecure`, the first ALPN name alone and no fingerprint.
  pub parse-serialize_hysteria2 :
      (node : ProxyNode)
      → IsHysteria2 node
      → (uri : Text) × (serialize_hysteria2 k node ≡ ok uri)
        × (parse_hysteria2 k uri ≡ ok (hysteria2_kept node))
  parse-serialize_hysteria2 node h =
      (hysteria2_uri node, serialize_hysteria2-uri node h, parse_hysteria2-uri node h)
