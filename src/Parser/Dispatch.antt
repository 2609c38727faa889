-- ===== src/Parser/Dispatch.antt =====
-- The dispatch of `parse_line`: which parser a line reaches, and what is known of its node.
use sub_merge.Base.{
  ℕ, zero, suc, ◌≡◌, refl, inl, inr, Bool, true, false, Option, none, some, List, [], ◌∷◌, arith,
}
use sub_merge.Base.Tests.{◌==◌, if◌then◌else◌, Bool-cases, Option-cases}
use sub_merge.Base.Text.{Text, str, is_empty, strip_prefix, trim}
use sub_merge.Base.Split.{split}
use sub_merge.Base.Decimal.{u16_size, parse_u16, parse_below-lt}
use sub_merge.Base.Result.{err, ok, ◌>>=◌}
use sub_merge.Crates.{Crates}
use sub_merge.Error.{ParseError, raised, panicked, Parsed}
use sub_merge.Model.{
  Protocol, ss, ssr, socks5, http, vmess, vless, trojan, hysteria, hysteria2, tuic, wireguard,
  ProxyNode,
}
use sub_merge.Uri.{decode_base64_url_string}
use sub_merge.Protocols.Ss.{is_ss}
use sub_merge.Protocols.Ssr.{
  is_ssr, separator, char_at, cut_main, ssr_node, parse_ssr_decoded, parse_ssr,
}
use sub_merge.Protocols.Socks5.{is_socks5}
use sub_merge.Protocols.Http.{is_http}
use sub_merge.Protocols.Vmess.{is_vmess}
use sub_merge.Protocols.Vless.{is_vless}
use sub_merge.Protocols.Trojan.{is_trojan}
use sub_merge.Protocols.Hysteria.{is_hysteria}
use sub_merge.Protocols.Hysteria2.{is_hysteria2}
use sub_merge.Protocols.Tuic.{is_tuic}
use sub_merge.Protocols.Wireguard.{is_wireguard}
use sub_merge.Parser.{dispatch, parse_line}
use sub_merge.Parser.Outcome.{
  Ensures, returns, fails, Anything, then-Ensures, decode_base64_url_string-Ensures,
}
use sub_merge.Parser.Ready.{IsNode}
use sub_merge.Parser.Sound.{
  any-Ensures, parse_socks5-IsNode, parse_http-IsNode, parse_ss-IsNode, parse_vmess-IsNode,
  parse_vless-IsNode, parse_trojan-IsNode, parse_hysteria-IsNode, parse_hysteria2-IsNode,
  parse_tuic-IsNode, parse_wireguard-IsNode,
}

-- The schemes under which a node of a kind is written.
abbrev pub has_scheme : Protocol → Text → Bool
has_scheme ss l = is_ss l
has_scheme ssr l = is_ssr l
has_scheme vmess l = is_vmess l
has_scheme vless l = is_vless l
has_scheme trojan l = is_trojan l
has_scheme socks5 l = is_socks5 l
has_scheme http l = is_http l
has_scheme hysteria l = is_hysteria l
has_scheme hysteria2 l = is_hysteria2 l
has_scheme tuic l = is_tuic l
has_scheme wireguard l = is_wireguard l

-- What a line's parse may be: a good node whose scheme the line has, an error, or a panic of ssr.
pub data Reads (l : Text) : Parsed ProxyNode → Type 0 where
  reads : {n : ProxyNode} → has_scheme n.kind l ≡ true → IsNode n.kind n → Reads l (ok n)
  refuses : {e : ParseError} → Reads l (err (raised e))
  panics : is_ssr l ≡ true → Reads l (err panicked)

Ensures-Reads :
    (p : Protocol) (l : Text) (m : Parsed ProxyNode)
    → has_scheme p l ≡ true
    → Ensures (IsNode p) m
    → Reads l m
Ensures-Reads p l _ e (returns {a = n} h) =
    reads (rw (h.has_kind) e) record { has_kind = refl; in_range = h.in_range; ready = h.ready }
Ensures-Reads p l _ e fails = refuses

if-Reads :
    (b : Bool) (l : Text) (m n : Parsed ProxyNode)
    → (b ≡ true → Reads l m)
    → Reads l n
    → Reads l (if b then m else n)
if-Reads true l m n p q = p refl
if-Reads false l m n p q = q

module _ (k : Crates) where
  pub ssr_node-Ensures :
      (decoded query : Text) (w : List Text) → Ensures (IsNode ssr) (ssr_node k decoded query w)
  unfolding ssr_node
  ssr_node-Ensures decoded query (server ∷ port_str ∷ protocol ∷ method ∷ obfs ∷ b64 ∷ more) =
      then-Ensures (IsNode ssr) (parse_u16 port_str) _ _ λ port e.
        any-Ensures k (IsNode ssr) (decode_base64_url_string k b64) _
          (decode_base64_url_string-Ensures k b64)
          λ password. returns record {
            has_kind = refl;
            in_range = parse_below-lt u16_size port_str port (omega arith) e;
            ready = (tt, tt);
          }
  ssr_node-Ensures decoded query [] = fails
  ssr_node-Ensures decoded query (_ ∷ []) = fails
  ssr_node-Ensures decoded query (_ ∷ _ ∷ []) = fails
  ssr_node-Ensures decoded query (_ ∷ _ ∷ _ ∷ []) = fails
  ssr_node-Ensures decoded query (_ ∷ _ ∷ _ ∷ _ ∷ []) = fails
  ssr_node-Ensures decoded query (_ ∷ _ ∷ _ ∷ _ ∷ _ ∷ []) = fails

  -- The value of the decoded form; at index 0 of the separator the parser panics.
  cut_main-Reads :
      (l : Text)
      → is_ssr l ≡ true
      → (decoded : Text) (o : Option ℕ)
      → Reads l (cut_main decoded o >>= λ r. ssr_node k decoded r.1 (split b':' r.0))
  unfolding cut_main
  cut_main-Reads l s decoded none = Ensures-Reads ssr l _ s (ssr_node-Ensures decoded _ _)
  cut_main-Reads l s decoded (some zero) = panics s
  cut_main-Reads l s decoded (some (suc i)) = elim (Bool-cases (char_at decoded i == b'/')) [
    | inl e ↦ rw (e) (Ensures-Reads ssr l _ s (ssr_node-Ensures decoded _ _))
    | inr e ↦ rw (e) (Ensures-Reads ssr l _ s (ssr_node-Ensures decoded _ _))
  ]

  parse_ssr-Reads : (l : Text) → is_ssr l ≡ true → Reads l (parse_ssr k l)
  unfolding parse_ssr parse_ssr_decoded
  parse_ssr-Reads l s = elim (Option-cases (strip_prefix (str "ssr://") l)) [
    | inl e ↦ rw (e) refuses
    | inr (payload, e) ↦
        rw (e)
          (go (decode_base64_url_string k payload) (decode_base64_url_string-Ensures k payload))
  ]
    where
      go : (m : Parsed Text) → Ensures Anything m → Reads l (m >>= parse_ssr_decoded k)
      go _ (returns {a = decoded} h) = cut_main-Reads l s decoded (separator decoded)
      go _ fails = refuses

  dispatch-Reads : (l : Text) → Reads l (dispatch k l)
  unfolding dispatch
  dispatch-Reads l =
      if-Reads (is_ss l) l _ _ (λ e. Ensures-Reads ss l _ e (parse_ss-IsNode k l))
        (if-Reads (is_ssr l) l _ _ (λ e. parse_ssr-Reads l e)
          (if-Reads (is_vmess l) l _ _ (λ e. Ensures-Reads vmess l _ e (parse_vmess-IsNode k l))
            (if-Reads (is_vless l) l _ _ (λ e. Ensures-Reads vless l _ e (parse_vless-IsNode k l))
              (if-Reads (is_trojan l) l _ _
                (λ e. Ensures-Reads trojan l _ e (parse_trojan-IsNode k l))
                (if-Reads (is_socks5 l) l _ _
                  (λ e. Ensures-Reads socks5 l _ e (parse_socks5-IsNode k l))
                  (if-Reads (is_http l) l _ _
                    (λ e. Ensures-Reads http l _ e (parse_http-IsNode k l))
                    (if-Reads (is_hysteria2 l) l _ _
                      (λ e. Ensures-Reads hysteria2 l _ e (parse_hysteria2-IsNode k l))
                      (if-Reads (is_hysteria l) l _ _
                        (λ e. Ensures-Reads hysteria l _ e (parse_hysteria-IsNode k l))
                        (if-Reads (is_tuic l) l _ _
                          (λ e. Ensures-Reads tuic l _ e (parse_tuic-IsNode k l))
                          (if-Reads (is_wireguard l) l _ _
                            (λ e. Ensures-Reads wireguard l _ e (parse_wireguard-IsNode k l))
                            refuses))))))))))

  -- For every line: if `parse_line` returns a node, the trimmed line has the scheme of the node's
  -- kind, the port is below 65536, and the node has the fields that its own serializer asks for,
  -- but that a wireguard node may lack the private key (in `IsReady`); if it panics, the trimmed line is an `ssr://` line; else it is a ParseError.
  pub parse_line-Reads : (line : Text) → Reads (trim line) (parse_line k line)
  unfolding parse_line
  parse_line-Reads line =
      if-Reads (is_empty (trim line)) (trim line) _ _ (λ _. refuses) (dispatch-Reads (trim line))
