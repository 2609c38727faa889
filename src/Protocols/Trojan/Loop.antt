-- ===== src/Protocols/Trojan/Loop.antt =====
-- The loop of trojan.rs and vless.rs over the query that their serializers write.
use sub_merge.Base.{
  ◌≡◌, refl, ap, ◌∙◌, inl, inr, Bool, true, false, not, Option, none, some, List, [], ◌∷◌, ◌++◌,
  arith,
}
use sub_merge.Base.Tests.{if◌then◌else◌, Bool-cases}
use sub_merge.Base.Lists.{is_empty_list, All}
use sub_merge.Base.Text.{Text, str, eqb, is_empty, IsScalar, Absent}
use sub_merge.Base.Split.{join, split-join}
use sub_merge.Crates.{Crates}
use sub_merge.Crates.Laws.{Documented}
use sub_merge.Model.{Transport, TlsSettings}
use sub_merge.Uri.{urlencode}
use sub_merge.Protocols.Parts.{or_else, when, each, query_step, query_loop, Stream, stream_of}
use sub_merge.Protocols.Parts.Query.{
  decode_or_default-urlencode, decode_or_default_plain, query_step-pair, query_loop-append,
}
use sub_merge.Protocols.Trojan.{StreamQuery, stream_param, tls_params, host_path_params, net_params}
use sub_merge.Protocols.Trojan.Written.{
  AllScalar, IsTls?, IsStream, nonempty_text, put_tls, put_net, put_host_path, stream_of-plain,
  join-IsScalar,
}

module _ (k : Crates) (d : Documented k) where
  abbrev loop : StreamQuery → List Text → StreamQuery
  loop = query_loop k stream_param

  -- One encoded parameter, under any key of the loop.
  pub step_encoded :
      (q : StreamQuery) (key s : Text)
      → Absent b'=' key
      → All IsScalar s
      → query_step k stream_param q (key ++ (b'=' ∷ urlencode k s)) ≡ stream_param q key s
  step_encoded q key s a h =
      query_step-pair k stream_param q key (urlencode k s) a
      ∙ ap (stream_param q key) (decode_or_default-urlencode k d s h)

  pub step_plain :
      (q : StreamQuery) (key s : Text)
      → Absent b'=' key
      → Absent b'%' s
      → All IsScalar s
      → query_step k stream_param q (key ++ (b'=' ∷ s)) ≡ stream_param q key s
  step_plain q key s a n h =
      query_step-pair k stream_param q key s a
      ∙ ap (stream_param q key) (decode_or_default_plain k d s n h)

  loop_enabled :
      (q : StreamQuery) (b : Bool)
      → loop q (when b (str "security=tls"))
        ≡ record q { security = if b then str "tls" else q.security }
  unfolding query_loop stream_param eqb
  loop_enabled q true =
      step_plain q (str "security") (str "tls") (omega arith) (omega arith) (omega arith)
  loop_enabled q false = refl

  loop_sni :
      (q : StreamQuery) (o : Option Text)
      → AllScalar o
      → loop q (each o (λ s. str "sni=" ++ urlencode k s)) ≡ record q { sni = or_else o q.sni }
  unfolding query_loop stream_param eqb
  loop_sni q none h = refl
  loop_sni q (some s) h = step_encoded q (str "sni") s (omega arith) h

  loop_fp :
      (q : StreamQuery) (o : Option Text)
      → AllScalar o
      → loop q (each o (λ s. str "fp=" ++ urlencode k s)) ≡ record q { fp = or_else o q.fp }
  unfolding query_loop stream_param eqb
  loop_fp q none h = refl
  loop_fp q (some s) h = step_encoded q (str "fp") s (omega arith) h

  loop_alpn :
      (q : StreamQuery) (ws : List Text)
      → All (All IsScalar) ws
      → All (Absent b',') ws
      → loop q (when (not (is_empty_list ws)) (str "alpn=" ++ urlencode k (join (b',' ∷ []) ws)))
        ≡ record q { alpn = if is_empty_list ws then q.alpn else ws }
  unfolding query_loop stream_param eqb
  loop_alpn q [] h c = refl
  loop_alpn q (w ∷ ws) h c =
      step_encoded q (str "alpn") (join (b',' ∷ []) (w ∷ ws)) (omega arith)
        (join-IsScalar (w ∷ ws) h)
      ∙ ap (λ a. record q { alpn = a }) (split-join b',' w ws c)

  pub loop_then :
      (q : StreamQuery) (ps qs : List Text) {q' : StreamQuery}
      → loop q ps ≡ q'
      → loop q (ps ++ qs) ≡ loop q' qs
  loop_then q ps qs e = query_loop-append k stream_param q ps qs ∙ ap (λ s. loop s qs) e

  pub loop_tls :
      (q : StreamQuery) (o : Option TlsSettings) → IsTls? o → loop q (tls_params k o) ≡ put_tls q o
  unfolding tls_params
  loop_tls q none h = unfold query_loop in refl
  loop_tls q (some t) h =
      loop_then q (when t.enabled (str "security=tls")) _ (loop_enabled q t.enabled)
      ∙ loop_then _ (each t.sni _) _ (loop_sni _ t.sni h.sni_scalar)
      ∙ loop_then _ (each t.fingerprint _) _ (loop_fp _ t.fingerprint h.fp_scalar)
      ∙ loop_alpn _ t.alpn h.alpn_scalar h.alpn_no_comma

  -- The name of a net, which is written as it is.
  pub loop_net :
      (q : StreamQuery) (st : Stream)
      → Absent b'%' st.net
      → All IsScalar st.net
      → loop q (net_params st) ≡ put_net q st
  loop_net q st n h = elim (Bool-cases (eqb st.net (str "tcp"))) [
    | inl e ↦ rw e (unfold net_params query_loop in rw e)
    | inr e ↦ rw e (
        unfold net_params query_loop stream_param eqb in
        rw e (step_plain q (str "type") st.net (omega arith) n h))
  ]

  loop_host :
      (q : StreamQuery) (s : Text)
      → All IsScalar s
      → loop q (when (not (is_empty s)) (str "host=" ++ urlencode k s))
        ≡ record q { host = or_else (nonempty_text s) q.host }
  unfolding query_loop stream_param eqb
  loop_host q [] h = refl
  loop_host q (c ∷ s) h = step_encoded q (str "host") (c ∷ s) (omega arith) h

  loop_path :
      (q : StreamQuery) (s : Text)
      → All IsScalar s
      → loop q (when (not (is_empty s)) (str "path=" ++ urlencode k s))
        ≡ record q { path = if is_empty s then q.path else s }
  unfolding query_loop stream_param eqb
  loop_path q [] h = refl
  loop_path q (c ∷ s) h = step_encoded q (str "path") (c ∷ s) (omega arith) h

  pub loop_host_path :
      (q : StreamQuery) (st : Stream)
      → IsStream st
      → loop q (host_path_params k st) ≡ put_host_path q st
  unfolding host_path_params
  loop_host_path q st h =
      loop_then q (when (not (is_empty st.host)) _) _ (loop_host q st.host h.0)
      ∙ loop_path _ st.path h.1

  pub loop_stream :
      (q : StreamQuery) (o : Option Transport)
      → IsStream (stream_of (str "httpupgrade") o)
      → loop q (
          net_params (stream_of (str "httpupgrade") o)
          ++ host_path_params k (stream_of (str "httpupgrade") o))
        ≡ put_host_path
            (put_net q (stream_of (str "httpupgrade") o))
            (stream_of (str "httpupgrade") o)
  loop_stream q o h =
      let st = stream_of (str "httpupgrade") o in
      loop_then q (net_params st) _
        (loop_net q st (stream_of-plain o).no_percent (stream_of-plain o).scalar)
      ∙ loop_host_path (put_net q st) st h
