-- ===== src/Protocols/Ss/RoundTrip.antt =====
-- A ss node through `serialize_ss` and `parse_ss`.
use sub_merge.Base.{
  ℕ, ◌≤◌, ◌≡◌, refl, subst, ◌≢◌, Bool, true, false, none, some, [], ◌∷◌, ◌++◌, append-nil, arith,
}
use sub_merge.Base.Tests.{◌==◌}
use sub_merge.Base.Lists.{length, All, All-append, All-map}
use sub_merge.Base.Text.{
  Text, str, eqb, is_empty, utf8, drop_end, trim_end_matches, lower_char, IsScalar, Absent,
  strip_prefix-append,
}
use sub_merge.Base.Split.{split_once-absent, split_once-append}
use sub_merge.Base.Decimal.{to_string, IsDigit, to_string-IsDigit}
use sub_merge.Base.Result.{ok}
use sub_merge.Crates.{Crates}
use sub_merge.Crates.Laws.{is_base64, IsBase64, Documented}
use sub_merge.Model.{ss, Crypto, raw, crypto_from_str, crypto_as_str, ProxyNode, new_node}
use sub_merge.Uri.{max_base64_len}
use sub_merge.Uri.Base64.{decode-encode_no_pad}
use sub_merge.Base.Trimming.{drop_end-none}
use sub_merge.Protocols.Parts.{cut, fragment, query_suffix}
use sub_merge.Protocols.Parts.Query.{cut-absent, or_default-name_part}
use sub_merge.Protocols.Parts.Authority.{authority, IsHost, host-Absent, cuts}
use sub_merge.Protocols.Ss.{parse_userinfo, parse_ss, serialize_ss}

-- A known cipher comes back; another one is what its text is read as.
abbrev pub kept_cipher : Crypto → Crypto
kept_cipher (raw s) = crypto_from_str s
kept_cipher c = c

kept_cipher_lem : (c : Crypto) → crypto_from_str (crypto_as_str c) ≡ kept_cipher c
unfolding crypto_from_str crypto_as_str lower_char eqb
kept_cipher_lem (raw s) = refl
kept_cipher_lem _ = refl

-- The node that comes back.
abbrev pub ss_kept : ProxyNode → Crypto → ProxyNode
ss_kept node c = record (new_node node.name ss node.server node.port) {
  crypto = some (kept_cipher c);
  password = node.password;
}

-- The text under the base64.
abbrev pub ss_userinfo : Crypto → Text → Text
ss_userinfo c password = crypto_as_str c ++ (b':' ∷ password)

-- A ss node with a cipher and a password, whose texts are Rust strings and not longer than the
-- decoder allows.
pub record IsSs (k : Crates) (node : ProxyNode) (c : Crypto) (password : Text) : Type 0 where
  pub is_ss : node.kind ≡ ss
  pub has_crypto : node.crypto ≡ some c
  pub has_password : node.password ≡ some password
  pub no_colon : Absent b':' (crypto_as_str c)
  pub scalar : All IsScalar (ss_userinfo c password)
  pub host : IsHost node.server node.port
  pub short : length (k.encode_no_pad (utf8 (ss_userinfo c password))) ≤ max_base64_len

drop_end_keep :
    (p : ℕ → Bool) (c : ℕ) (s : Text)
    → is_empty s ≡ false
    → drop_end p s ≡ s
    → drop_end p (c ∷ s) ≡ c ∷ s
drop_end_keep p c [] n h = cc
drop_end_keep p c (d ∷ s) n h = unfold drop_end in rw (h, drop_end)

drop_end-tail :
    (p : ℕ → Bool) (a b : Text)
    → is_empty b ≡ false
    → All (λ c. p c ≡ false) b
    → (is_empty (a ++ b) ≡ false) × (drop_end p (a ++ b) ≡ a ++ b)
drop_end-tail p [] b n h = (n, drop_end-none p b h)
drop_end-tail p (c ∷ a) b n h =
    let (m, e) = drop_end-tail p a b n h in (refl, drop_end_keep p c (a ++ b) m e)

digit-ne-slash : (c : ℕ) → IsDigit c → (c == b'/') ≡ false
digit-ne-slash c h = ground arith

-- No slash is trimmed behind a port.
trim_slash :
    (host : Text) (port : ℕ)
    → trim_end_matches b'/' (host ++ (b':' ∷ to_string port)) ≡ host ++ (b':' ∷ to_string port)
trim_slash host port =
    (drop_end-tail _ host (b':' ∷ to_string port) refl
      (refl, All-map digit-ne-slash (to_string port) (to_string-IsDigit port))).1

IsBase64-ne : (c : ℕ) → is_base64 c ≡ false → (x : ℕ) → IsBase64 x → x ≢ c
IsBase64-ne c n x b e = cc (subst (λ y. is_base64 y ≡ true) e b)

module _ (k : Crates) (d : Documented k) where
  abbrev body : Crypto → Text → Text
  body c password = k.encode_no_pad (utf8 (ss_userinfo c password))

  body-Absent :
      (x : ℕ) (c : Crypto) (password : Text) → is_base64 x ≡ false → Absent x (body c password)
  body-Absent x c password n = All-map (IsBase64-ne x n) _ (d.encode_no_pad-IsBase64 _)

  legacy_userinfo-body :
      (node : ProxyNode) {c : Crypto} {password : Text}
      → IsSs k node c password
      → parse_userinfo k (body c password) ≡ ok (kept_cipher c, password)
  unfolding parse_userinfo
  legacy_userinfo-body node {c} {password} h =
      rw
        (
          split_once-absent b':' (body c password) (body-Absent b':' c password refl),
          parse_userinfo,
        )
        (rw (decode-encode_no_pad k d (ss_userinfo c password) h.scalar h.short) (
          rw (split_once-append b':' (crypto_as_str c) password h.no_colon)
            (rw (kept_cipher_lem c) refl)))

  abbrev ss_uri : ProxyNode → Crypto → Text → Text
  ss_uri node c password =
      str "ss://"
      ++ authority (body c password) node.server node.port (query_suffix [] ++ fragment node.name)

  serialize_ss-uri :
      (node : ProxyNode) {c : Crypto} {password : Text}
      → IsSs k node c password
      → serialize_ss k node ≡ ok (ss_uri node c password)
  unfolding serialize_ss query_suffix
  serialize_ss-uri node h = ground arith

  whole-Absent :
      (node : ProxyNode) {c : Crypto} {password : Text}
      → IsSs k node c password
      → cut b'?' (authority (body c password) node.server node.port (query_suffix []))
        ≡ (authority (body c password) node.server node.port (query_suffix []), none)
  unfolding query_suffix
  whole-Absent node {c} {password} h = cut-absent b'?' _ (
      All-append (λ x. x ≢ b'?') (body c password) _ (body-Absent b'?' c password refl)
        (omega arith, host-Absent h.host b'?' [] refl tt))

  parse_ss-uri :
      (node : ProxyNode) {c : Crypto} {password : Text}
      → IsSs k node c password
      → parse_ss k (ss_uri node c password) ≡ ok (ss_kept node c)
  unfolding parse_ss
  parse_ss-uri node {c} {password} h =
      let user = body c password in
      let cs = cuts user [] node.name h.host (body-Absent b'#' c password refl) tt in
      rw (strip_prefix-append (str "ss://") _) (
        rw cs.at_hash (
          rw (whole-Absent node h) (
            rw cs.at_sign (
              unfold query_suffix in
              rw (append-nil (to_string node.port)) (
                rw (trim_slash node.server node.port) (
                  rw cs.at_port (
                    rw (legacy_userinfo-body node h)
                      (rw (or_default-name_part node.name) (ground arith)))))))))

  -- A ss node with a cipher whose name has no colon, a password, a plain server and texts made of
  -- Unicode scalar values, whose base64 is at most 4 MiB, is serialized, and the URI parses to the
  -- same name, server, port and password; a known cipher is the same, and an unknown one is what its
  -- own text is read as.
  pub parse-serialize_ss :
      (node : ProxyNode) {c : Crypto} {password : Text}
      → IsSs k node c password
      → (uri : Text) × (serialize_ss k node ≡ ok uri) × (parse_ss k uri ≡ ok (ss_kept node c))
  parse-serialize_ss node {c} {password} h =
      (ss_uri node c password, serialize_ss-uri node h, parse_ss-uri node h)
