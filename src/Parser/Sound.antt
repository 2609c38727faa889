-- ===== src/Parser/Sound.antt =====
-- What each protocol's parser ensures: the kind, a port in range, and the fields that the
-- serializer of that kind asks for. Only the parser of ssr can panic.
use mathlib.Core.Option
use sub_merge.Base.{ℕ, ◌<◌, ◌≡◌, refl, inl, inr, Option, none, some, [], ◌∷◌, arith}
use sub_merge.Base.Tests.{Option-cases}
use sub_merge.Base.Text.{Text, str, is_empty, strip_prefix, trim_end_matches}
use sub_merge.Base.Split.{split_once}
use sub_merge.Base.Decimal.{u16_size, parse_u16, parse_below-lt}
use sub_merge.Base.Result.{◌>>=◌}
use sub_merge.Crates.{Json, Crates}
use sub_merge.Error.{Parsed}
use sub_merge.Model.{
  ss, socks5, http, vmess, vless, trojan, hysteria, hysteria2, tuic, wireguard, ProxyNode,
}
use sub_merge.Uri.{decode_base64_url_string, percent_decode, split_authority, parse_host_port}
use sub_merge.Protocols.Parts.{cut, or_else, read_query}
use sub_merge.Protocols.Ss.{is_known_method, legacy_userinfo, parse_userinfo, parse_ss}
use sub_merge.Protocols.Socks5.{split_userpass, userpass, parse_socks5}
use sub_merge.Protocols.Http.{http_password, parse_http}
use sub_merge.Protocols.Vmess.{get, vmess_node, parse_vmess}
use sub_merge.Protocols.Vless.{vless_node, parse_vless}
use sub_merge.Protocols.Trojan.{trojan_node, parse_trojan}
use sub_merge.Protocols.Hysteria.{parse_hysteria}
use sub_merge.Protocols.Hysteria2.{decoded_userinfo, parse_hysteria2}
use sub_merge.Protocols.Tuic.{parse_tuic}
use sub_merge.Protocols.Wireguard.{wireguard_param, wireguard_node, parse_wireguard}
use sub_merge.Parser.Outcome.{
  Ensures, returns, fails, Anything, bind-Ensures, if-Ensures, then-Ensures,
  parse_host_port-Ensures, percent_decode-Ensures, decode_base64_url_string-Ensures,
}
use sub_merge.Parser.Ready.{IsNode}

module _ (k : Crates) where
  -- The port of `parse_host_port` with what follows.
  host_port-Ensures :
      (P : ProxyNode → Type 0) (s : Text) (f : Text × ℕ → Parsed ProxyNode)
      → ((r : Text × ℕ) → r.1 < u16_size → Ensures P (f r))
      → Ensures P (parse_host_port s >>= f)
  host_port-Ensures P s f h =
      bind-Ensures (λ r. r.1 < u16_size) P (parse_host_port s) f (parse_host_port-Ensures s) h

  pub any-Ensures :
      {A : Type 0} (P : ProxyNode → Type 0) (m : Parsed A) (f : A → Parsed ProxyNode)
      → Ensures Anything m
      → ((a : A) → Ensures P (f a))
      → Ensures P (m >>= f)
  any-Ensures P m f a h = bind-Ensures Anything P m f a (λ x _. h x)

  any-Anything :
      {A B : Type 0} (m : Parsed A) (f : A → Parsed B)
      → Ensures Anything m
      → ((a : A) → Ensures Anything (f a))
      → Ensures Anything (m >>= f)
  any-Anything m f a h = bind-Ensures Anything Anything m f a (λ x _. h x)

  split_userpass-Ensures : (s : Text) → Ensures Anything (split_userpass k s)
  unfolding split_userpass
  split_userpass-Ensures s = then-Ensures {A = Text × Text} Anything (split_once b':' s) _ _ λ r _.
      bind-Ensures Anything Anything (percent_decode k r.0) _ (percent_decode-Ensures k r.0) λ _ _.
        bind-Ensures Anything Anything (percent_decode k r.1) _ (percent_decode-Ensures k r.1)
          λ _ _. returns tt

  userpass-Ensures : (s : Text) → Ensures Anything (userpass k s)
  unfolding userpass
  userpass-Ensures [] = returns tt
  userpass-Ensures (c ∷ s) =
      bind-Ensures Anything Anything (split_userpass k (c ∷ s)) _ (split_userpass-Ensures (c ∷ s))
        λ _ _. returns tt

  pub parse_socks5-IsNode : (uri : Text) → Ensures (IsNode socks5) (parse_socks5 k uri)
  unfolding parse_socks5
  parse_socks5-IsNode uri =
      then-Ensures (IsNode socks5) (strip_prefix (str "socks5://") uri) _ _ λ rest _.
        host_port-Ensures (IsNode socks5) ((split_authority (cut b'#' rest).0).1) _ λ r p.
          any-Ensures (IsNode socks5) (userpass k ((split_authority (cut b'#' rest).0).0)) _
            (userpass-Ensures ((split_authority (cut b'#' rest).0).0))
            λ password. returns record { has_kind = refl; in_range = p; ready = tt }

  http_password-Ensures : (s : Text) → Ensures Anything (http_password k s)
  unfolding http_password
  http_password-Ensures [] = returns tt
  http_password-Ensures (c ∷ s) =
      then-Ensures {A = Text × Text} Anything (split_once b':' (c ∷ s)) _ _ λ r _.
        bind-Ensures Anything Anything (percent_decode k r.1) _ (percent_decode-Ensures k r.1)
          λ _ _. returns tt

  pub parse_http-IsNode : (uri : Text) → Ensures (IsNode http) (parse_http k uri)
  unfolding parse_http
  parse_http-IsNode uri =
      then-Ensures (IsNode http) (strip_prefix (str "http://") uri) _ _ λ rest _.
        host_port-Ensures (IsNode http) ((split_authority (cut b'#' rest).0).1) _ λ r p.
          any-Ensures (IsNode http) (http_password k ((split_authority (cut b'#' rest).0).0)) _
            (http_password-Ensures ((split_authority (cut b'#' rest).0).0))
            λ password. returns record { has_kind = refl; in_range = p; ready = tt }

  legacy_userinfo-Ensures : (s : Text) → Ensures Anything (legacy_userinfo k s)
  unfolding legacy_userinfo
  legacy_userinfo-Ensures s =
      any-Anything (decode_base64_url_string k s) _ (decode_base64_url_string-Ensures k s)
        λ decoded. then-Ensures Anything (split_once b':' decoded) _ _ λ _ _. returns tt

  parse_userinfo-Ensures : (s : Text) → Ensures Anything (parse_userinfo k s)
  parse_userinfo-Ensures s = elim (Option-cases (split_once b':' s)) [
    | inl e ↦ unfold parse_userinfo in rw (e, parse_userinfo) (legacy_userinfo-Ensures s)
    | inr ((method, rest), e) ↦
        unfold parse_userinfo in
        rw (e, parse_userinfo)
          (if-Ensures Anything (is_known_method method) _ _
            (any-Anything (percent_decode k rest) _ (percent_decode-Ensures k rest) λ _. returns tt)
            (legacy_userinfo-Ensures s))
  ]

  pub parse_ss-IsNode : (uri : Text) → Ensures (IsNode ss) (parse_ss k uri)
  unfolding parse_ss
  parse_ss-IsNode uri = then-Ensures (IsNode ss) (strip_prefix (str "ss://") uri) _ _ λ rest _.
      host_port-Ensures (IsNode ss)
        (trim_end_matches b'/' (split_authority (cut b'?' (cut b'#' rest).0).0).1) _
        λ r p.
          any-Ensures (IsNode ss)
            (parse_userinfo k ((split_authority (cut b'?' (cut b'#' rest).0).0).0)) _
            (parse_userinfo-Ensures ((split_authority (cut b'?' (cut b'#' rest).0).0).0))
            λ c. returns record { has_kind = refl; in_range = p; ready = (tt, tt) }

  vmess_port-lt :
      (o : Option Text) (port : ℕ) → Option.bind o parse_u16 ≡ some port → port < u16_size
  unfolding Option.bind
  vmess_port-lt none port e = ground arith
  vmess_port-lt (some s) port e = parse_below-lt u16_size s port (omega arith) e

  vmess_node-IsNode : (v : Json) → Ensures (IsNode vmess) (vmess_node v)
  unfolding vmess_node
  vmess_node-IsNode v = then-Ensures (IsNode vmess) (get v (str "add")) _ _ λ server _.
      then-Ensures (IsNode vmess) (Option.bind (get v (str "port")) parse_u16) _ _ λ port e.
        returns record {
          has_kind = refl;
          in_range = vmess_port-lt (get v (str "port")) port e;
          ready = tt;
        }

  pub parse_vmess-IsNode : (uri : Text) → Ensures (IsNode vmess) (parse_vmess k uri)
  unfolding parse_vmess
  parse_vmess-IsNode uri =
      then-Ensures (IsNode vmess) (strip_prefix (str "vmess://") uri) _ _ λ payload _.
        any-Ensures (IsNode vmess) (decode_base64_url_string k payload) _
          (decode_base64_url_string-Ensures k payload)
          λ json_str.
            then-Ensures (IsNode vmess) (k.json_from_str json_str) _ _ λ v _. vmess_node-IsNode v

  pub parse_vless-IsNode : (uri : Text) → Ensures (IsNode vless) (parse_vless k uri)
  unfolding parse_vless vless_node
  parse_vless-IsNode uri =
      then-Ensures (IsNode vless) (strip_prefix (str "vless://") uri) _ _ λ rest _.
        host_port-Ensures (IsNode vless) ((cut b'?' (split_authority (cut b'#' rest).0).1).0) _
          λ r p.
            if-Ensures (IsNode vless) (is_empty ((split_authority (cut b'#' rest).0).0)) _ _ fails
              (returns record { has_kind = refl; in_range = p; ready = tt })

  pub parse_trojan-IsNode : (uri : Text) → Ensures (IsNode trojan) (parse_trojan k uri)
  unfolding parse_trojan trojan_node
  parse_trojan-IsNode uri =
      then-Ensures (IsNode trojan) (strip_prefix (str "trojan://") uri) _ _ λ rest _.
        host_port-Ensures (IsNode trojan) ((cut b'?' (split_authority (cut b'#' rest).0).1).0) _
          λ r p.
            any-Ensures (IsNode trojan) (percent_decode k ((split_authority (cut b'#' rest).0).0)) _
              (percent_decode-Ensures k ((split_authority (cut b'#' rest).0).0))
              λ password.
                if-Ensures (IsNode trojan) (is_empty password) _ _ fails
                  (returns record { has_kind = refl; in_range = p; ready = tt })

  pub parse_hysteria-IsNode : (uri : Text) → Ensures (IsNode hysteria) (parse_hysteria k uri)
  unfolding parse_hysteria
  parse_hysteria-IsNode uri =
      then-Ensures (IsNode hysteria) (strip_prefix (str "hysteria://") uri) _ _ λ rest _.
        host_port-Ensures (IsNode hysteria) ((cut b'?' (cut b'#' rest).0).0) _
          λ r p. returns record { has_kind = refl; in_range = p; ready = tt }

  decoded_userinfo-Ensures : (s : Text) → Ensures Anything (decoded_userinfo k s)
  unfolding decoded_userinfo
  decoded_userinfo-Ensures [] = returns tt
  decoded_userinfo-Ensures (c ∷ s) =
      any-Anything (percent_decode k (c ∷ s)) _ (percent_decode-Ensures k (c ∷ s)) λ _. returns tt

  pub parse_hysteria2-IsNode : (uri : Text) → Ensures (IsNode hysteria2) (parse_hysteria2 k uri)
  unfolding parse_hysteria2
  parse_hysteria2-IsNode uri =
      then-Ensures (IsNode hysteria2)
        (or_else (strip_prefix (str "hysteria2://") uri) (strip_prefix (str "hy2://") uri)) _ _
        λ rest _.
          host_port-Ensures (IsNode hysteria2) ((cut b'?' (split_authority (cut b'#' rest).0).1).0)
            _
            λ r p.
              any-Ensures (IsNode hysteria2)
                (decoded_userinfo k ((split_authority (cut b'#' rest).0).0)) _
                (decoded_userinfo-Ensures ((split_authority (cut b'#' rest).0).0))
                λ password. returns record { has_kind = refl; in_range = p; ready = tt }

  pub parse_tuic-IsNode : (uri : Text) → Ensures (IsNode tuic) (parse_tuic k uri)
  unfolding parse_tuic
  parse_tuic-IsNode uri =
      then-Ensures (IsNode tuic) (strip_prefix (str "tuic://") uri) _ _ λ rest _.
        host_port-Ensures (IsNode tuic) ((cut b'?' (split_authority (cut b'#' rest).0).1).0) _
          λ r p.
            then-Ensures (IsNode tuic) (split_once b':' ((split_authority (cut b'#' rest).0).0)) _ _
              λ u _.
                any-Ensures (IsNode tuic) (percent_decode k u.1) _ (percent_decode-Ensures k u.1)
                  λ password. returns record { has_kind = refl; in_range = p; ready = tt }

  pub parse_wireguard-IsNode : (uri : Text) → Ensures (IsNode wireguard) (parse_wireguard k uri)
  unfolding parse_wireguard wireguard_node
  parse_wireguard-IsNode uri =
      then-Ensures (IsNode wireguard) (strip_prefix (str "wireguard://") uri) _ _ λ rest _.
        host_port-Ensures (IsNode wireguard) ((split_authority (cut b'?' (cut b'#' rest).0).0).1) _
          λ r p.
            any-Ensures (IsNode wireguard)
              (decoded_userinfo k ((split_authority (cut b'?' (cut b'#' rest).0).0).0)) _
              (decoded_userinfo-Ensures ((split_authority (cut b'?' (cut b'#' rest).0).0).0))
              λ userinfo.
                then-Ensures (IsNode wireguard)
                  (read_query k wireguard_param
                    (record { public_key = userinfo; private_key = none })
                    (cut b'?' (cut b'#' rest).0).1).public_key
                  _ _ λ public_key _. returns record { has_kind = refl; in_range = p; ready = tt }
