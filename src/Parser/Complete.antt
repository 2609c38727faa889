-- ===== src/Parser/Complete.antt =====
-- The dispatch loses no line: what the parser of a kind accepts, `dispatch` accepts.
use sub_merge.Base.{
  ◌≡◌, refl, sym, ◌∙◌, subst, inl, inr, Option, none, some, List, [], ◌∷◌, ◌++◌, arith,
}
use sub_merge.Base.Tests.{Option-cases}
use sub_merge.Base.Lists.{All}
use sub_merge.Base.Text.{Text, str, starts_with, strip_prefix}
use sub_merge.Base.Result.{ok, ◌>>=◌}
use sub_merge.Crates.{Crates}
use sub_merge.Error.{ParseError, unsupported_protocol, Parsed, require}
use sub_merge.Model.{
  Protocol, ss, ssr, socks5, http, vmess, vless, trojan, hysteria, hysteria2, tuic, wireguard,
  ProxyNode,
}
use sub_merge.Protocols.Parts.{or_else}
use sub_merge.Protocols.Ss.{is_ss, parse_ss}
use sub_merge.Protocols.Ssr.{is_ssr, parse_ssr}
use sub_merge.Protocols.Socks5.{is_socks5, parse_socks5}
use sub_merge.Protocols.Http.{is_http, parse_http}
use sub_merge.Protocols.Vmess.{is_vmess, parse_vmess}
use sub_merge.Protocols.Vless.{is_vless, parse_vless}
use sub_merge.Protocols.Trojan.{is_trojan, parse_trojan}
use sub_merge.Protocols.Hysteria.{is_hysteria, parse_hysteria}
use sub_merge.Protocols.Hysteria2.{is_hysteria2, parse_hysteria2}
use sub_merge.Protocols.Tuic.{is_tuic, parse_tuic}
use sub_merge.Protocols.Wireguard.{is_wireguard, parse_wireguard}
use sub_merge.Parser.{dispatch}

-- The parser of a kind.
abbrev pub parser_of : Protocol → Crates → Text → Parsed ProxyNode
parser_of ss = parse_ss
parser_of ssr = parse_ssr
parser_of vmess = parse_vmess
parser_of vless = parse_vless
parser_of trojan = parse_trojan
parser_of socks5 = parse_socks5
parser_of http = parse_http
parser_of hysteria = parse_hysteria
parser_of hysteria2 = parse_hysteria2
parser_of tuic = parse_tuic
parser_of wireguard = parse_wireguard

-- The schemes of a kind; hysteria2 has two.
abbrev pub schemes : Protocol → List Text
schemes ss = str "ss://" ∷ []
schemes ssr = str "ssr://" ∷ []
schemes vmess = str "vmess://" ∷ []
schemes vless = str "vless://" ∷ []
schemes trojan = str "trojan://" ∷ []
schemes socks5 = str "socks5://" ∷ []
schemes http = str "http://" ∷ []
schemes hysteria = str "hysteria://" ∷ []
schemes hysteria2 = str "hysteria2://" ∷ str "hy2://" ∷ []
schemes tuic = str "tuic://" ∷ []
schemes wireguard = str "wireguard://" ∷ []

-- For every scheme of every kind and every rest, the ladder reaches the parser of that kind: no
-- scheme in front of it hides it.
pub dispatch-parser_of :
    (k : Crates) (p : Protocol) (rest : Text)
    → All (λ s. dispatch k (s ++ rest) ≡ parser_of p k (s ++ rest)) (schemes p)
unfolding dispatch is_ss is_ssr is_vmess is_vless is_trojan is_socks5 is_http is_hysteria
    is_hysteria2 is_tuic is_wireguard starts_with
dispatch-parser_of k ss rest = (refl, tt)
dispatch-parser_of k ssr rest = (refl, tt)
dispatch-parser_of k vmess rest = (refl, tt)
dispatch-parser_of k vless rest = (refl, tt)
dispatch-parser_of k trojan rest = (refl, tt)
dispatch-parser_of k socks5 rest = (refl, tt)
dispatch-parser_of k http rest = (refl, tt)
dispatch-parser_of k hysteria rest = (refl, tt)
dispatch-parser_of k hysteria2 rest = (refl, (refl, tt))
dispatch-parser_of k tuic rest = (refl, tt)
dispatch-parser_of k wireguard rest = (refl, tt)

strip_prefix-some : (p s r : Text) → strip_prefix p s ≡ some r → s ≡ p ++ r
unfolding strip_prefix
strip_prefix-some [] s r e = ground arith
strip_prefix-some (c ∷ p) [] r e = ground arith
strip_prefix-some (c ∷ p) (d ∷ s) r e = ground (arith, strip_prefix-some p s r)

-- Where a parser starts with `strip_prefix`, what it accepts has the prefix.
accepts-prefix :
    (o : Option Text) (e : ParseError) (f : Text → Parsed ProxyNode) (n : ProxyNode)
    → (require o e >>= f) ≡ ok n
    → (rest : Text) × (o ≡ some rest)
accepts-prefix none e f n h = absurd (ground arith)
accepts-prefix (some rest) e f n h = (rest, refl)

module _ (k : Crates) where
  reached :
      (p : Protocol) (s l : Text) (n : ProxyNode)
      → ((rest : Text) → dispatch k (s ++ rest) ≡ parser_of p k (s ++ rest))
      → parser_of p k l ≡ ok n
      → (rest : Text) × (strip_prefix s l ≡ some rest)
      → dispatch k l ≡ ok n
  reached p s l n d h (rest, e) =
      subst (λ t. dispatch k t ≡ parser_of p k t) (sym (strip_prefix-some s l rest e)) (d rest) ∙ h

  reached_hysteria2 :
      (l : Text) (n : ProxyNode)
      → parse_hysteria2 k l ≡ ok n
      → (rest : Text) × (or_else
            (strip_prefix (str "hysteria2://") l)
            (strip_prefix (str "hy2://") l)
          ≡ some rest)
      → dispatch k l ≡ ok n
  reached_hysteria2 l n h (rest, e) = elim (Option-cases (strip_prefix (str "hysteria2://") l)) [
    | inl none_first ↦
        reached hysteria2 (str "hy2://") l n (λ r. (dispatch-parser_of k hysteria2 r).1.0) h
          (rest, rw (none_first) at e)
    | inr some_first ↦
        reached hysteria2 (str "hysteria2://") l n (λ r. (dispatch-parser_of k hysteria2 r).0) h
          some_first
  ]

  -- For every kind: a line that its parser accepts with a node, `dispatch` accepts with that node.
  pub dispatch-accepts :
      (p : Protocol) (l : Text) (n : ProxyNode) → parser_of p k l ≡ ok n → dispatch k l ≡ ok n
  unfolding parse_ss parse_ssr parse_vmess parse_vless parse_trojan parse_socks5 parse_http
      parse_hysteria parse_hysteria2 parse_tuic parse_wireguard
  dispatch-accepts ss l n h =
      reached ss (str "ss://") l n (λ r. (dispatch-parser_of k ss r).0) h
        (accepts-prefix (strip_prefix (str "ss://") l) unsupported_protocol _ n h)
  dispatch-accepts ssr l n h =
      reached ssr (str "ssr://") l n (λ r. (dispatch-parser_of k ssr r).0) h
        (accepts-prefix (strip_prefix (str "ssr://") l) unsupported_protocol _ n h)
  dispatch-accepts vmess l n h =
      reached vmess (str "vmess://") l n (λ r. (dispatch-parser_of k vmess r).0) h
        (accepts-prefix (strip_prefix (str "vmess://") l) unsupported_protocol _ n h)
  dispatch-accepts vless l n h =
      reached vless (str "vless://") l n (λ r. (dispatch-parser_of k vless r).0) h
        (accepts-prefix (strip_prefix (str "vless://") l) unsupported_protocol _ n h)
  dispatch-accepts trojan l n h =
      reached trojan (str "trojan://") l n (λ r. (dispatch-parser_of k trojan r).0) h
        (accepts-prefix (strip_prefix (str "trojan://") l) unsupported_protocol _ n h)
  dispatch-accepts socks5 l n h =
      reached socks5 (str "socks5://") l n (λ r. (dispatch-parser_of k socks5 r).0) h
        (accepts-prefix (strip_prefix (str "socks5://") l) unsupported_protocol _ n h)
  dispatch-accepts http l n h =
      reached http (str "http://") l n (λ r. (dispatch-parser_of k http r).0) h
        (accepts-prefix (strip_prefix (str "http://") l) unsupported_protocol _ n h)
  dispatch-accepts hysteria l n h =
      reached hysteria (str "hysteria://") l n (λ r. (dispatch-parser_of k hysteria r).0) h
        (accepts-prefix (strip_prefix (str "hysteria://") l) unsupported_protocol _ n h)
  dispatch-accepts tuic l n h =
      reached tuic (str "tuic://") l n (λ r. (dispatch-parser_of k tuic r).0) h
        (accepts-prefix (strip_prefix (str "tuic://") l) unsupported_protocol _ n h)
  dispatch-accepts wireguard l n h =
      reached wireguard (str "wireguard://") l n (λ r. (dispatch-parser_of k wireguard r).0) h
        (accepts-prefix (strip_prefix (str "wireguard://") l) unsupported_protocol _ n h)
  dispatch-accepts hysteria2 l n h = reached_hysteria2 l n h (
      accepts-prefix (or_else (strip_prefix (str "hysteria2://") l) (strip_prefix (str "hy2://") l))
        unsupported_protocol _ n h)
