-- ===== src/Protocols/Trojan/Written.antt =====
-- What the loop over the query of trojan.rs and vless.rs reads of the parameters that both write.
use sub_merge.Base.{◌≡◌, refl, inl, true, false, not, Option, none, some, List, [], ◌∷◌, arith}
use sub_merge.Base.Tests.{if◌then◌else◌}
use sub_merge.Base.Lists.{is_empty_list, all, All, All-append, all_sound}
use sub_merge.Base.Text.{Text, str, eqb, is_empty, drop_while, trim_start_matches, IsScalar, Absent}
use sub_merge.Base.Split.{join}
use sub_merge.Crates.{Crates}
use sub_merge.Crates.Laws.{Documented}
use sub_merge.Model.{
  WebsocketConfig, GrpcConfig, HttpUpgradeConfig, Transport, TlsSettings, ProxyNode, over_websocket,
  over_grpc, over_http_upgrade,
}
use sub_merge.Protocols.Parts.{
  or_default, or_else, when, each, Stream, stream_with, stream_of, transport_of,
}
use sub_merge.Protocols.Parts.Query.{is_param, IsParam, when-All, each-All, pair-IsParam}
use sub_merge.Protocols.Trojan.{StreamQuery, no_query, tls_params, host_path_params, net_params}

abbrev pub AllScalar : Option Text → Type 0
AllScalar none = Unit
AllScalar (some s) = All IsScalar s

-- TLS settings made of Rust strings, whose ALPN names hold no comma.
pub record IsTls (t : TlsSettings) : Type 0 where
  pub sni_scalar : AllScalar t.sni
  pub fp_scalar : AllScalar t.fingerprint
  pub alpn_scalar : All (All IsScalar) t.alpn
  pub alpn_no_comma : All (Absent b',') t.alpn

abbrev pub IsTls? : Option TlsSettings → Type 0
IsTls? none = Unit
IsTls? (some t) = IsTls t

abbrev pub IsStream : Stream → Type 0
IsStream st = All IsScalar st.host × All IsScalar st.path

abbrev pub nonempty_text : Text → Option Text
nonempty_text [] = none
nonempty_text (c ∷ s) = some (c ∷ s)

abbrev pub put_tls : StreamQuery → Option TlsSettings → StreamQuery
put_tls q none = q
put_tls q (some t) = record q {
  security = if t.enabled then str "tls" else q.security;
  sni = or_else t.sni q.sni;
  fp = or_else t.fingerprint q.fp;
  alpn = if is_empty_list t.alpn then q.alpn else t.alpn;
}

abbrev pub put_net : StreamQuery → Stream → StreamQuery
put_net q st = record q { net = if eqb st.net (str "tcp") then q.net else st.net }

abbrev pub put_host_path : StreamQuery → Stream → StreamQuery
put_host_path q st = record q {
  host = or_else (nonempty_text st.host) q.host;
  path = if is_empty st.path then q.path else st.path;
}

-- What is left of an optional text that is written only if it is not empty.
abbrev pub kept_text : Option Text → Option Text
kept_text o = nonempty_text (or_default o)

abbrev pub kept_with :
    Option WebsocketConfig → Option GrpcConfig → Option HttpUpgradeConfig → Option Transport
kept_with (some ws) g h = some (over_websocket ws.path (kept_text ws.host))
kept_with none (some g) h = some (over_grpc (trim_start_matches b'/' g.service_name))
kept_with none none (some h) = some (over_http_upgrade h.path (kept_text h.host))
kept_with none none none = none

-- The transport that a URI keeps: the first of the three that is set, without headers, without an
-- empty host, and with no slash in front of a gRPC service.
abbrev pub kept_transport : Option Transport → Option Transport
kept_transport none = none
kept_transport (some t) = kept_with t.websocket t.grpc t.http_upgrade

abbrev pub stream : ProxyNode → Stream
stream node = stream_of (str "httpupgrade") node.transport

-- TLS settings as a URI keeps them: without `insecure`, the host standing in for a missing SNI.
abbrev pub kept_tls : Option TlsSettings → Option Text → TlsSettings
kept_tls none host = record {
  enabled = true;
  sni = host;
  alpn = [];
  insecure = false;
  fingerprint = none;
}
kept_tls (some t) host = record {
  enabled = true;
  sni = or_else t.sni host;
  alpn = t.alpn;
  insecure = false;
  fingerprint = t.fingerprint;
}

pub alpn-kept : (ws : List Text) → (if is_empty_list ws then [] else ws) ≡ ws
alpn-kept [] = refl
alpn-kept (w ∷ ws) = refl

-- The name of a net needs no encoding.
pub record IsPlainNet (net : Text) : Type 0 where
  pub no_percent : Absent b'%' net
  pub scalar : All IsScalar net
  pub param : all is_param net ≡ true

stream_with-plain :
    (w : Option WebsocketConfig) (g : Option GrpcConfig) (h : Option HttpUpgradeConfig)
    → IsPlainNet (stream_with (str "httpupgrade") w g h).net
stream_with-plain (some w) g h = record {
  no_percent = omega arith;
  scalar = omega arith;
  param = refl;
}
stream_with-plain none (some g) h = record {
  no_percent = omega arith;
  scalar = omega arith;
  param = refl;
}
stream_with-plain none none (some h) = record {
  no_percent = omega arith;
  scalar = omega arith;
  param = refl;
}
stream_with-plain none none none = record {
  no_percent = omega arith;
  scalar = omega arith;
  param = refl;
}

pub stream_of-plain : (o : Option Transport) → IsPlainNet (stream_of (str "httpupgrade") o).net
unfolding stream_of
stream_of-plain none = record { no_percent = omega arith; scalar = omega arith; param = refl }
stream_of-plain (some t) = stream_with-plain t.websocket t.grpc t.http_upgrade

pub join-IsScalar : (ws : List Text) → All (All IsScalar) ws → All IsScalar (join (b',' ∷ []) ws)
unfolding join
join-IsScalar [] h = tt
join-IsScalar (w ∷ []) h = h.0
join-IsScalar (w ∷ (v ∷ ws)) (a, h) =
    All-append IsScalar w _ a (inl (omega arith), join-IsScalar (v ∷ ws) h)

pub net-plain :
    (o : Option Transport)
    → let net = (stream_of (str "httpupgrade") o).net in Absent b'%' net × All IsScalar net
net-plain o = ((stream_of-plain o).no_percent, (stream_of-plain o).scalar)

transport_of-with :
    (w : Option WebsocketConfig) (g : Option GrpcConfig) (h : Option HttpUpgradeConfig)
    → transport_of
        (put_net no_query (stream_with (str "httpupgrade") w g h)).net
        (put_host_path no_query (stream_with (str "httpupgrade") w g h)).path
        (put_host_path no_query (stream_with (str "httpupgrade") w g h)).host
      ≡ kept_with w g h
unfolding transport_of eqb drop_while
transport_of-with (some w) g h = ground arith
transport_of-with none (some g) h = refl
transport_of-with none none (some h) = ground arith
transport_of-with none none none = ground arith

-- The transport that the parsers build from what the serializers wrote.
pub transport_of-kept :
    (o : Option Transport)
    → let st = stream_of (str "httpupgrade") o in
      transport_of
        (put_net no_query st).net
        (put_host_path no_query st).path
        (put_host_path no_query st).host
      ≡ kept_transport o
unfolding stream_of
transport_of-kept none = unfold transport_of eqb in refl
transport_of-kept (some t) = transport_of-with t.websocket t.grpc t.http_upgrade

module _ (k : Crates) (d : Documented k) where
  pub tls_params-IsParam : (o : Option TlsSettings) → All (All IsParam) (tls_params k o)
  unfolding tls_params
  tls_params-IsParam none = tt
  tls_params-IsParam (some t) =
      All-append (All IsParam) (when t.enabled _) _
        (when-All (All IsParam) t.enabled (all_sound is_param (str "security=tls") refl))
        (All-append (All IsParam) (each t.sni _) _
          (each-All (All IsParam) t.sni _ (λ s. pair-IsParam k d (str "sni=") s refl))
          (All-append (All IsParam) (each t.fingerprint _) _
            (each-All (All IsParam) t.fingerprint _ (λ s. pair-IsParam k d (str "fp=") s refl))
            (when-All (All IsParam) (not (is_empty_list t.alpn))
              (pair-IsParam k d (str "alpn=") _ refl))))

  pub net_params-IsParam :
      (o : Option Transport) → All (All IsParam) (net_params (stream_of (str "httpupgrade") o))
  unfolding net_params
  net_params-IsParam o =
      let st = stream_of (str "httpupgrade") o in
      when-All (All IsParam) (not (eqb st.net (str "tcp"))) (
        All-append IsParam (str "type=") st.net (all_sound is_param (str "type=") refl)
          (all_sound is_param st.net (stream_of-plain o).param))

  pub host_path_params-IsParam : (st : Stream) → All (All IsParam) (host_path_params k st)
  unfolding host_path_params
  host_path_params-IsParam st =
      All-append (All IsParam) (when (not (is_empty st.host)) _) _
        (when-All (All IsParam) (not (is_empty st.host))
          (pair-IsParam k d (str "host=") st.host refl))
        (when-All (All IsParam) (not (is_empty st.path))
          (pair-IsParam k d (str "path=") st.path refl))
