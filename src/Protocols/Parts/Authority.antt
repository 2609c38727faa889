-- ===== src/Protocols/Parts/Authority.antt =====
-- `userinfo@host:port` with a query and a name, as the serializers write it and the parsers cut it.
use sub_merge.Base.{
  ℕ, ◌<◌, ◌≡◌, refl, sym, subst, ◌≢◌, inl, inr, Bool, true, ◌||◌, none, some, List, [], ◌∷◌, ◌++◌,
  append-nil, append_assoc, arith,
}
use sub_merge.Base.Tests.{◌==◌, ==_iff, Bool-cases}
use sub_merge.Base.Lists.{All, All-append, All-map}
use sub_merge.Base.Text.{Text, Absent}
use sub_merge.Base.Split.{join}
use sub_merge.Base.Decimal.{to_string, u16_size, to_string-IsDigit}
use sub_merge.Base.Result.{ok}
use sub_merge.Uri.{split_authority, parse_host_port}
use sub_merge.Uri.Authority.{split_authority-append, IsBare, parse_host_port-bare}
use sub_merge.Protocols.Parts.{cut, fragment, query_suffix}
use sub_merge.Protocols.Parts.Query.{
  cut-append, cut-absent, name_part, cut-fragment, IsParam, query_suffix-Absent, query_text,
}

-- `userinfo@host:port` with `rest` behind the port.
abbrev pub authority : Text → Text → ℕ → Text → Text
authority user host port rest = user ++ (b'@' ∷ (host ++ (b':' ∷ (to_string port ++ rest))))

authority-append :
    (user host : Text) (port : ℕ) (s t : Text)
    → authority user host port (s ++ t) ≡ authority user host port s ++ t
authority-append user host port s t = simp append_assoc

-- A server that is printed with no quoting, and a port in range.
pub record IsHost (host : Text) (port : ℕ) : Type 0 where
  pub bare : IsBare host
  pub no_hash : Absent b'#' host
  pub no_query : Absent b'?' host
  pub no_at : Absent b'@' host
  pub in_range : port < u16_size

abbrev pub delimiter : ℕ → Bool
delimiter c = c == b'#' || (c == b'?' || c == b'@')

IsHost-Absent :
    {host : Text} {port : ℕ} (c : ℕ) → delimiter c ≡ true → IsHost host port → Absent c host
IsHost-Absent {host} c e h = elim (Bool-cases (c == b'#')) [
  | inl p ↦ subst (λ x. Absent x host) (sym ((==_iff c b'#').0 p)) h.no_hash
  | inr n ↦ elim (Bool-cases (c == b'?')) [
    | inl p ↦ subst (λ x. Absent x host) (sym ((==_iff c b'?').0 p)) h.no_query
    | inr m ↦
        let p : (c == b'@') ≡ true = ground arith in
        subst (λ x. Absent x host) (sym ((==_iff c b'@').0 p)) h.no_at
  ]
]

to_string-Absent : (c n : ℕ) → delimiter c ≡ true → Absent c (to_string n)
to_string-Absent c n e = All-map (λ x h. ground arith) (to_string n) (to_string-IsDigit n)

module _ {host : Text} {port : ℕ} (h : IsHost host port) where
  pub host-Absent :
      (c : ℕ) (rest : Text)
      → delimiter c ≡ true
      → Absent c rest
      → Absent c (host ++ (b':' ∷ (to_string port ++ rest)))
  host-Absent c rest e r =
      All-append (λ x. x ≢ c) host _ (IsHost-Absent c e h)
        (ground arith, All-append (λ x. x ≢ c) (to_string port) rest (to_string-Absent c port e) r)

  authority-Absent_hash :
      (user rest : Text)
      → Absent b'#' user
      → Absent b'#' rest
      → Absent b'#' (authority user host port rest)
  authority-Absent_hash user rest u r =
      All-append (λ x. x ≢ b'#') user _ u (omega arith, host-Absent b'#' rest refl r)

  split_authority-authority :
      (user rest : Text)
      → Absent b'@' rest
      → split_authority (authority user host port rest)
        ≡ (user, host ++ (b':' ∷ (to_string port ++ rest)))
  split_authority-authority user rest r =
      split_authority-append user _ (host-Absent b'@' rest refl r)

  -- Without a query the port ends the text.
  cut-host : cut b'?' (host ++ (b':' ∷ to_string port)) ≡ (host ++ (b':' ∷ to_string port), none)
  cut-host =
      subst (λ t. cut b'?' (host ++ (b':' ∷ t)) ≡ (host ++ (b':' ∷ t), none))
        (append-nil (to_string port)) (cut-absent b'?' _ (host-Absent b'?' [] refl tt))

  cut-host-query :
      (q : Text)
      → cut b'?' (host ++ (b':' ∷ (to_string port ++ (b'?' ∷ q))))
        ≡ (host ++ (b':' ∷ to_string port), some q)
  cut-host-query q =
      let e : host ++ (b':' ∷ (to_string port ++ (b'?' ∷ q)))
          ≡ (host ++ (b':' ∷ to_string port)) ++ (b'?' ∷ q) =
        simp append_assoc in
      rw e (
        cut-append b'?' _ q (
          subst (λ t. Absent b'?' (host ++ (b':' ∷ t))) (append-nil (to_string port))
            (host-Absent b'?' [] refl tt)))

  parse_host_port-IsHost : parse_host_port (host ++ (b':' ∷ to_string port)) ≡ ok (host, port)
  parse_host_port-IsHost = parse_host_port-bare host port h.bare h.in_range

  cut-host-suffix :
      (ps : List Text)
      → cut b'?' (host ++ (b':' ∷ (to_string port ++ query_suffix ps)))
        ≡ (host ++ (b':' ∷ to_string port), query_text ps)
  unfolding query_suffix
  cut-host-suffix [] = rw append-nil cut-host
  cut-host-suffix (p ∷ ps) = cut-host-query (join (b'&' ∷ []) (p ∷ ps))

-- The cuts that the parsers make of `userinfo@host:port`, a query of written parameters and a name.
pub record Cuts (user host : Text) (port : ℕ) (ps : List Text) (name : Text) : Type 0 where
  pub at_hash :
      cut b'#' (authority user host port (query_suffix ps ++ fragment name))
      ≡ (authority user host port (query_suffix ps), name_part name)
  pub at_sign :
      split_authority (authority user host port (query_suffix ps))
      ≡ (user, host ++ (b':' ∷ (to_string port ++ query_suffix ps)))
  pub at_query :
      cut b'?' (host ++ (b':' ∷ (to_string port ++ query_suffix ps)))
      ≡ (host ++ (b':' ∷ to_string port), query_text ps)
  pub at_port : parse_host_port (host ++ (b':' ∷ to_string port)) ≡ ok (host, port)

pub cuts :
    (user : Text) {host : Text} {port : ℕ} (ps : List Text) (name : Text)
    → IsHost host port
    → Absent b'#' user
    → All (All IsParam) ps
    → Cuts user host port ps name
cuts user {host} {port} ps name h u p =
    let no_hash = query_suffix-Absent b'#' ps (omega arith) (omega arith) refl p in
    let no_at = query_suffix-Absent b'@' ps (omega arith) (omega arith) refl p in
    record {
      at_hash =
          rw (authority-append user host port (query_suffix ps) (fragment name))
            (cut-fragment _ name (authority-Absent_hash h user (query_suffix ps) u no_hash));
      at_sign = split_authority-authority h user (query_suffix ps) no_at;
      at_query = cut-host-suffix h ps;
      at_port = parse_host_port-IsHost h;
    }

module _ {host : Text} {port : ℕ} (h : IsHost host port) where
  plain_host-Absent : (c : ℕ) → delimiter c ≡ true → Absent c (host ++ (b':' ∷ to_string port))
  plain_host-Absent c e =
      subst (λ t. Absent c (host ++ (b':' ∷ t))) (append-nil (to_string port))
        (host-Absent h c [] e tt)

  -- Where the query is cut off before the userinfo.
  pub cut_query_first :
      (user q : Text)
      → Absent b'?' user
      → cut b'?' (authority user host port (b'?' ∷ q))
        ≡ (user ++ (b'@' ∷ (host ++ (b':' ∷ to_string port))), some q)
  cut_query_first user q u =
      let front = user ++ (b'@' ∷ (host ++ (b':' ∷ to_string port))) in
      let e : authority user host port (b'?' ∷ q) ≡ front ++ (b'?' ∷ q) = simp append_assoc in
      rw e (
        cut-append b'?' front q
          (All-append (λ x. x ≢ b'?') user _ u (omega arith, plain_host-Absent b'?' refl)))

  pub split_authority-plain :
      (user : Text)
      → split_authority (user ++ (b'@' ∷ (host ++ (b':' ∷ to_string port))))
        ≡ (user, host ++ (b':' ∷ to_string port))
  split_authority-plain user = split_authority-append user _ (plain_host-Absent b'@' refl)
