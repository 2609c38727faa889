-- ===== src/Formats/RoundTrip.antt =====
-- The v2ray output, read back as a subscription: `serialize_v2ray` and then
-- `parse_v2ray_subscription`.
use mathlib.Core.Option
use sub_merge.Base.{ℕ, ◌≤◌, ◌≡◌, refl, sym, ap, ◌∙◌, subst, false, none, some, List, [], ◌∷◌, arith}
use sub_merge.Base.Tests.{ltb-not}
use sub_merge.Base.Lists.{length, is_empty_list, take, All, All-append, All-map}
use sub_merge.Base.Text.{Text, str, is_empty, utf8, len, trim, IsScalar}
use sub_merge.Base.Split.{join}
use sub_merge.Base.Result.{err, ok}
use sub_merge.Crates.{Json, Crates}
use sub_merge.Crates.Laws.{Documented}
use sub_merge.Model.{Protocol, ss, vmess, vless, trojan, tuic, Crypto, ProxyNode}
use sub_merge.Uri.{max_base64_len, decode_base64_url_string}
use sub_merge.Uri.Base64.{decode-encode_standard}
use sub_merge.Protocols.Ss.RoundTrip.{ss_kept, IsSs, parse-serialize_ss}
use sub_merge.Protocols.Vless.RoundTrip.{vless_kept, IsVless, parse-serialize_vless}
use sub_merge.Protocols.Vmess.Kept.{vmess_kept}
use sub_merge.Protocols.Vmess.RoundTrip.{IsVmess, parse-serialize_vmess}
use sub_merge.Protocols.Trojan.RoundTrip.{trojan_kept, IsTrojan, parse-serialize_trojan}
use sub_merge.Protocols.Tuic.RoundTrip.{tuic_kept, IsTuic, parse-serialize_tuic}
use sub_merge.Formats.V2ray.{uri_line, push_line, uri_lines, serialize_v2ray_plain, serialize_v2ray}
use sub_merge.Error.{panicked, Parsed}
use sub_merge.Parser.{
  dispatch, parse_line, max_line_len, pushed, line_outcome, parse_lines, parse_v2ray_subscription,
}
use sub_merge.Parser.Complete.{parser_of, dispatch-accepts}
use sub_merge.Parser.Joined.{IsLine, lines-join}
use sub_merge.Parser.Bounds.{accepted, accepted-accept, NeverAborts, parse_lines-accepted}

-- A link that stands on a line of its own.
pub record IsLink (uri : Text) : Type 0 where
  pub line : IsLine uri
  pub trimmed : trim uri ≡ uri
  pub short : len uri ≤ max_line_len
  pub scalar : All IsScalar uri

-- The nodes that their own link brings back, with what it brings back.
pub data Portable (k : Crates) : ProxyNode → ProxyNode → Type 0 where
  by_trojan : {n : ProxyNode} {password : Text} → IsTrojan n password → Portable k n (trojan_kept n)
  by_vless : {n : ProxyNode} {uuid : Text} → IsVless n uuid → Portable k n (vless_kept n)
  by_vmess :
      {n : ProxyNode} {printed : Text} {v : Json}
      → IsVmess k n printed v
      → Portable k n (vmess_kept n)
  by_tuic : {n : ProxyNode} → IsTuic n → Portable k n (tuic_kept n)
  by_ss :
      {n : ProxyNode} {c : Crypto} {password : Text}
      → IsSs k n c password
      → Portable k n (ss_kept n c)

-- Lists of such nodes whose links stand on lines of their own, and of nodes that the v2ray output
-- leaves out, with what comes back.
pub data Sends (k : Crates) : List ProxyNode → List ProxyNode → Type 0 where
  done : Sends k [] []
  send :
      {n kept : ProxyNode} {ns kepts : List ProxyNode}
      → Portable k n kept
      → ((uri : Text) → uri_line k n.kind n ≡ some (ok uri) → IsLink uri)
      → Sends k ns kepts
      → Sends k (n ∷ ns) (kept ∷ kepts)
  left_out :
      {n : ProxyNode} {ns kepts : List ProxyNode}
      → uri_line k n.kind n ≡ none
      → Sends k ns kepts
      → Sends k (n ∷ ns) kepts

reads-ne-panic : {n : ProxyNode} {m : Parsed ProxyNode} → m ≡ ok n → m ≡ err panicked → ⊥
reads-ne-panic e p = ground arith

record Carried (k : Crates) (n kept : ProxyNode) : Type 0 where
  uri : Text
  written : uri_line k n.kind n ≡ some (ok uri)
  read : dispatch k uri ≡ ok kept

module _ (k : Crates) (d : Documented k) where
  by_kind :
      (p : Protocol) (n kept : ProxyNode) (uri : Text)
      → n.kind ≡ p
      → uri_line k p n ≡ some (ok uri)
      → parser_of p k uri ≡ ok kept
      → Carried k n kept
  by_kind p n kept uri e w r = record {
    uri = uri;
    written = subst (λ q. uri_line k q n ≡ some (ok uri)) (sym e) w;
    read = dispatch-accepts k p uri kept r;
  }

  Portable-Carried : (n kept : ProxyNode) → Portable k n kept → Carried k n kept
  unfolding uri_line
  Portable-Carried n _ (by_trojan h) =
      let (uri, w, r) = parse-serialize_trojan k d n h in
      by_kind trojan n _ uri h.is_trojan (ap some w) r
  Portable-Carried n _ (by_vless h) =
      let (uri, w, r) = parse-serialize_vless k d n h in
      by_kind vless n _ uri h.is_vless (ap some w) r
  Portable-Carried n _ (by_vmess h) =
      let (uri, w, r) = parse-serialize_vmess k d n h in
      by_kind vmess n _ uri h.is_vmess (ap some w) r
  Portable-Carried n _ (by_tuic h) =
      let (uri, w, r) = parse-serialize_tuic k d n h in by_kind tuic n _ uri h.is_tuic (ap some w) r
  Portable-Carried n _ (by_ss h) =
      let (uri, w, r) = parse-serialize_ss k d n h in by_kind ss n _ uri h.is_ss (ap some w) r

  -- A link on a line of its own is read, and pushed.
  IsLink-reads :
      (uri : Text) (kept : ProxyNode)
      → IsLink uri
      → dispatch k uri ≡ ok kept
      → parse_line k uri ≡ ok kept
  unfolding parse_line
  IsLink-reads uri kept l r = rw l.trimmed (rw l.line.filled (rw r))

  IsLink-pushed :
      (uri : Text) (kept : ProxyNode)
      → IsLink uri
      → parse_line k uri ≡ ok kept
      → line_outcome k uri ≡ pushed kept
  unfolding line_outcome
  IsLink-pushed uri kept l r = rw (ltb-not max_line_len (len uri) l.short) (rw r)

  -- The links of a list, one after the other.
  record Links (ns kepts : List ProxyNode) : Type 0 where
    uris : List Text
    written : uri_lines k ns ≡ ok uris
    links : All IsLink uris
    accepts : accepted k uris ≡ kepts
    never : NeverAborts k uris
    some_link : is_empty_list uris ≡ is_empty_list kepts

  Sends-Links : (ns kepts : List ProxyNode) → Sends k ns kepts → Links ns kepts
  unfolding uri_lines push_line accepted
  Sends-Links [] [] done = record {
    uris = [];
    written = refl;
    links = tt;
    accepts = refl;
    never = tt;
    some_link = refl;
  }
  Sends-Links _ _ (send {n} {kept} {ns} {kepts} p l s) =
      let c = Portable-Carried n kept p in
      let ls = Sends-Links ns kepts s in
      let link = l c.uri c.written in
      let read = IsLink-reads c.uri kept link c.read in
      let o = IsLink-pushed c.uri kept link read in
      record {
        uris = c.uri ∷ ls.uris;
        written = rw c.written (rw ls.written);
        links = (link, ls.links);
        accepts = accepted-accept k c.uri ls.uris ∙ rw o (ap (λ t. kept ∷ t) ls.accepts);
        never = (λ short e. reads-ne-panic read e, ls.never);
        some_link = refl;
      }
  Sends-Links _ kepts (left_out {n} {ns} e s) =
      let ls = Sends-Links ns kepts s in
      record {
        uris = ls.uris;
        written = rw e ls.written;
        links = ls.links;
        accepts = ls.accepts;
        never = ls.never;
        some_link = ls.some_link;
      }

  join-filled :
      (us : List Text)
      → is_empty_list us ≡ false
      → All (λ u. IsLink u) us
      → is_empty (join (str "\n") us) ≡ false
  unfolding join
  join-filled [] e h = e ∙ refl
  join-filled (u ∷ []) e (l, h) = l.line.filled
  join-filled ((c ∷ u) ∷ (v ∷ us)) e h = refl
  join-filled ([] ∷ (v ∷ us)) e h = refl

  join-IsScalar : (us : List Text) → All (λ u. IsLink u) us → All IsScalar (join (str "\n") us)
  unfolding join
  join-IsScalar [] h = tt
  join-IsScalar (u ∷ []) (l, h) = l.scalar
  join-IsScalar (u ∷ (v ∷ us)) (l, h) =
      All-append IsScalar u (b'\n' ∷ join (str "\n") (v ∷ us)) l.scalar
        (omega arith, join-IsScalar (v ∷ us) h)

  parse_v2ray_subscription-ok :
      (s body : Text) (max_nodes : ℕ)
      → decode_base64_url_string k s ≡ ok body
      → parse_v2ray_subscription k s max_nodes ≡ parse_lines k body max_nodes
  unfolding parse_v2ray_subscription
  parse_v2ray_subscription-ok s body max_nodes e = rw (e, parse_v2ray_subscription) refl

  -- A list of nodes of which at least one is written, and of which those that are written are
  -- portable with links that stand on lines of their own, is written by the v2ray output, and if
  -- the base64 is at most 4 MiB, then `parse_v2ray_subscription` reads it back as the first
  -- `max_nodes` of what the links bring back, in order.
  pub parse_v2ray_subscription-serialize_v2ray :
      (ns : List ProxyNode) (kept : ProxyNode) (kepts : List ProxyNode) (max_nodes : ℕ)
      → Sends k ns (kept ∷ kepts)
      → ((s : Text) → serialize_v2ray k ns ≡ ok s → length s ≤ max_base64_len)
      → (s : Text) × (serialize_v2ray k ns ≡ ok s)
        × (Option.map (λ r. r.nodes) (parse_v2ray_subscription k s max_nodes)
            ≡ some (take max_nodes (kept ∷ kepts)))
  unfolding serialize_v2ray serialize_v2ray_plain parse_v2ray_subscription
  parse_v2ray_subscription-serialize_v2ray ns kept kepts max_nodes s b =
      let ls = Sends-Links ns (kept ∷ kepts) s in
      let body = join (str "\n") ls.uris in
      let filled = join-filled ls.uris ls.some_link ls.links in
      let w : serialize_v2ray k ns ≡ ok (k.encode_standard (utf8 body)) =
        rw ls.written (rw filled) in
      let lines_eq = lines-join ls.uris (All-map (λ u l. l.line) ls.uris ls.links) in
      let read = parse_lines-accepted k max_nodes body (rw lines_eq ls.never) in
      (
        k.encode_standard (utf8 body),
        w,
        rw
            (parse_v2ray_subscription-ok _ body max_nodes
              (decode-encode_standard k d body (join-IsScalar ls.uris ls.links) (b _ w)))
            (read ∙ rw lines_eq (rw ls.accepts)),
      )
