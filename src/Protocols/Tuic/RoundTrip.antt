-- ===== src/Protocols/Tuic/RoundTrip.antt =====
-- A tuic node through `serialize_tuic` and `parse_tuic`.
use sub_merge.Base.{
  ◌≡◌, refl, ap, ◌∙◌, ◌≢◌, Bool, true, false, not, Option, none, some, List, [], ◌∷◌, ◌++◌,
  append_assoc, arith,
}
use sub_merge.Base.Tests.{if◌then◌else◌}
use sub_merge.Base.Lists.{is_empty_list, All, All-append, all_sound}
use sub_merge.Base.Text.{Text, str, eqb, IsScalar, Absent, strip_prefix-append}
use sub_merge.Base.Split.{join, split_once-append, split-join}
use sub_merge.Base.Result.{ok}
use sub_merge.Crates.{Crates}
use sub_merge.Crates.Laws.{Documented}
use sub_merge.Model.{tuic, TlsSettings, ProxyNode, new_node}
use sub_merge.Uri.{urlencode}
use sub_merge.Uri.Percent.{urlencode-Absent, percent_decode-urlencode}
use sub_merge.Protocols.Parts.{
  or_default, or_else, fragment, when, each, query_suffix, push_params, truthy, query_step,
  query_loop,
}
use sub_merge.Protocols.Parts.Query.{
  or_default-name_part, decode_or_default-urlencode, decode_or_default_plain, query_step-pair,
  query_loop-append, is_param, IsParam, when-All, each-All, pair-IsParam, pushed_query,
  read_query-text,
}
use sub_merge.Protocols.Parts.Authority.{authority, IsHost, cuts}
use sub_merge.Protocols.Hysteria.{QuicQuery, no_quic_query, quic_tls}
use sub_merge.Protocols.Trojan.Written.{AllScalar, IsTls?, alpn-kept, join-IsScalar}
use sub_merge.Protocols.Tuic.{tuic_param, parse_tuic, tuic_tls, serialize_tuic}

abbrev kept_tuic_tls : Option TlsSettings → TlsSettings
kept_tuic_tls none = quic_tls no_quic_query
kept_tuic_tls (some t) = record {
  enabled = true;
  sni = t.sni;
  alpn = t.alpn;
  insecure = t.insecure;
  fingerprint = none;
}

-- The node that comes back: TLS is on, with no fingerprint; a missing UUID or password is empty.
abbrev pub tuic_kept : ProxyNode → ProxyNode
tuic_kept node = record (new_node node.name tuic node.server node.port) {
  uuid = some (or_default node.uuid);
  password = some (or_default node.password);
  tls = some (kept_tuic_tls node.tls);
}

-- A tuic node with a UUID free of `#` and `:`, whose texts are Rust strings.
pub record IsTuic (node : ProxyNode) : Type 0 where
  pub is_tuic : node.kind ≡ tuic
  pub no_hash : Absent b'#' (or_default node.uuid)
  pub no_colon : Absent b':' (or_default node.uuid)
  pub scalar : All IsScalar (or_default node.password)
  pub host : IsHost node.server node.port
  pub tls : IsTls? node.tls

abbrev put_tuic : QuicQuery → Option TlsSettings → QuicQuery
put_tuic q none = q
put_tuic q (some t) = record q {
  sni = or_else t.sni q.sni;
  alpn = if is_empty_list t.alpn then q.alpn else t.alpn;
  insecure = if t.insecure then true else q.insecure;
}

put_tuic-kept : (o : Option TlsSettings) → quic_tls (put_tuic no_quic_query o) ≡ kept_tuic_tls o
put_tuic-kept none = refl
put_tuic-kept (some t) = ground (arith, alpn-kept t.alpn)

cc_ignored : tuic_param no_quic_query (str "congestion_control") (str "bbr") ≡ no_quic_query
unfolding tuic_param eqb
cc_ignored = refl

relay_ignored : tuic_param no_quic_query (str "udp_relay_mode") (str "native") ≡ no_quic_query
unfolding tuic_param eqb
relay_ignored = refl

module _ (k : Crates) (d : Documented k) where
  abbrev loop : QuicQuery → List Text → QuicQuery
  loop = query_loop k tuic_param

  step_encoded :
      (q : QuicQuery) (key s : Text)
      → Absent b'=' key
      → All IsScalar s
      → query_step k tuic_param q (key ++ (b'=' ∷ urlencode k s)) ≡ tuic_param q key s
  step_encoded q key s a h =
      query_step-pair k tuic_param q key (urlencode k s) a
      ∙ ap (tuic_param q key) (decode_or_default-urlencode k d s h)

  step_plain :
      (q : QuicQuery) (key s : Text)
      → Absent b'=' key
      → Absent b'%' s
      → All IsScalar s
      → query_step k tuic_param q (key ++ (b'=' ∷ s)) ≡ tuic_param q key s
  step_plain q key s a n h =
      query_step-pair k tuic_param q key s a
      ∙ ap (tuic_param q key) (decode_or_default_plain k d s n h)

  loop_then :
      (q : QuicQuery) (ps qs : List Text) {q' : QuicQuery}
      → loop q ps ≡ q'
      → loop q (ps ++ qs) ≡ loop q' qs
  loop_then q ps qs e = query_loop-append k tuic_param q ps qs ∙ ap (λ s. loop s qs) e

  loop_sni :
      (q : QuicQuery) (o : Option Text)
      → AllScalar o
      → loop q (each o (λ s. str "sni=" ++ urlencode k s)) ≡ record q { sni = or_else o q.sni }
  unfolding query_loop tuic_param eqb
  loop_sni q none h = refl
  loop_sni q (some s) h = step_encoded q (str "sni") s (omega arith) h

  loop_alpn :
      (q : QuicQuery) (ws : List Text)
      → All (All IsScalar) ws
      → All (Absent b',') ws
      → loop q (when (not (is_empty_list ws)) (str "alpn=" ++ urlencode k (join (b',' ∷ []) ws)))
        ≡ record q { alpn = if is_empty_list ws then q.alpn else ws }
  unfolding query_loop tuic_param eqb
  loop_alpn q [] h c = refl
  loop_alpn q (w ∷ ws) h c =
      step_encoded q (str "alpn") (join (b',' ∷ []) (w ∷ ws)) (omega arith)
        (join-IsScalar (w ∷ ws) h)
      ∙ ap (λ a. record q { alpn = a }) (split-join b',' w ws c)

  loop_insecure :
      (q : QuicQuery) (b : Bool)
      → loop q (when b (str "allow_insecure=1"))
        ≡ record q { insecure = if b then true else q.insecure }
  unfolding query_loop tuic_param eqb truthy
  loop_insecure q false = refl
  loop_insecure q true =
      step_plain q (str "allow_insecure") (str "1") (omega arith) (omega arith) (omega arith)

  loop_tuic :
      (q : QuicQuery) (o : Option TlsSettings) → IsTls? o → loop q (tuic_tls k o) ≡ put_tuic q o
  unfolding tuic_tls
  loop_tuic q none h = unfold query_loop in refl
  loop_tuic q (some t) h =
      loop_then q (each t.sni _) _ (loop_sni q t.sni h.sni_scalar)
      ∙ loop_then _ (when (not (is_empty_list t.alpn)) _) _
          (loop_alpn _ t.alpn h.alpn_scalar h.alpn_no_comma)
      ∙ loop_insecure _ t.insecure

  -- Every parameter, the two fixed ones included.
  abbrev params : ProxyNode → List Text
  params node = str "congestion_control=bbr" ∷ str "udp_relay_mode=native" ∷ tuic_tls k node.tls

  loop-params :
      (node : ProxyNode)
      → IsTuic node
      → loop no_quic_query (params node) ≡ put_tuic no_quic_query node.tls
  unfolding query_loop
  loop-params node h =
      ap (λ q. loop q (str "udp_relay_mode=native" ∷ tuic_tls k node.tls))
        (step_plain no_quic_query (str "congestion_control") (str "bbr") (omega arith) (omega arith)
            (omega arith)
          ∙ cc_ignored)
      ∙ ap (λ q. loop q (tuic_tls k node.tls))
          (step_plain no_quic_query (str "udp_relay_mode") (str "native") (omega arith)
              (omega arith) (omega arith)
            ∙ relay_ignored)
      ∙ loop_tuic no_quic_query node.tls h.tls

  params-IsParam : (node : ProxyNode) → All (All IsParam) (params node)
  params-IsParam node = (
    all_sound is_param (str "congestion_control=bbr") refl,
    (all_sound is_param (str "udp_relay_mode=native") refl, tls-IsParam node.tls),
  )
    where
      tls-IsParam : (o : Option TlsSettings) → All (All IsParam) (tuic_tls k o)
      tls-IsParam none = unfold tuic_tls in tt
      tls-IsParam (some t) =
          unfold tuic_tls in
          All-append (All IsParam) (each t.sni _) _
            (each-All (All IsParam) t.sni _ (λ s. pair-IsParam k d (str "sni=") s refl))
            (All-append (All IsParam) (when (not (is_empty_list t.alpn)) _) _
              (when-All (All IsParam) (not (is_empty_list t.alpn))
                (pair-IsParam k d (str "alpn=") _ refl))
              (when-All (All IsParam) t.insecure
                (all_sound is_param (str "allow_insecure=1") refl)))

  -- The user part, `uuid:password`.
  abbrev user : ProxyNode → Text
  user node = or_default node.uuid ++ (b':' ∷ urlencode k (or_default node.password))

  abbrev tuic_uri : ProxyNode → Text
  tuic_uri node =
      str "tuic://"
      ++ authority (user node) node.server node.port
          (query_suffix (params node) ++ fragment node.name)

  serialize_tuic-uri : (node : ProxyNode) → IsTuic node → serialize_tuic k node ≡ ok (tuic_uri node)
  unfolding serialize_tuic
  serialize_tuic-uri node h =
      rw
        (← pushed_query (str "congestion_control=bbr")
          (str "udp_relay_mode=native" ∷ tuic_tls k node.tls) (fragment node.name))
        (rw append_assoc (unfold push_params in ground arith))

  parse_tuic-uri :
      (node : ProxyNode) → IsTuic node → parse_tuic k (tuic_uri node) ≡ ok (tuic_kept node)
  unfolding parse_tuic
  parse_tuic-uri node h =
      let p = params-IsParam node in
      let password = or_default node.password in
      let no_hash =
        All-append (λ x. x ≢ b'#') (or_default node.uuid) (b':' ∷ urlencode k password) h.no_hash
          (omega arith, urlencode-Absent k d b'#' password refl) in
      let c = cuts (user node) (params node) node.name h.host no_hash p in
      rw (strip_prefix-append (str "tuic://") _) (
        rw c.at_hash (
          rw c.at_sign (
            rw c.at_query (
              rw c.at_port (
                rw (split_once-append b':' (or_default node.uuid) (urlencode k password) h.no_colon)
                  (rw (percent_decode-urlencode k d password h.scalar) (
                    rw (or_default-name_part node.name) (
                      rw (read_query-text k tuic_param no_quic_query (params node) p)
                        (rw (loop-params node h) (rw (put_tuic-kept node.tls)))))))))))

  -- A tuic node with a UUID free of `#` and `:`, a plain server and texts made of Unicode scalar
  -- values is serialized, and the URI parses to the same name, server, port, UUID and password
  -- (empty where they were missing); TLS is then on, with the same SNI, ALPN and `insecure`.
  pub parse-serialize_tuic :
      (node : ProxyNode)
      → IsTuic node
      → (uri : Text) × (serialize_tuic k node ≡ ok uri) × (parse_tuic k uri ≡ ok (tuic_kept node))
  parse-serialize_tuic node h = (tuic_uri node, serialize_tuic-uri node h, parse_tuic-uri node h)
