-- ===== src/Protocols/Vmess/Object.antt =====
-- The JSON object that `serialize_vmess` writes, under the closure `get` of `parse_vmess`.
use sub_merge.Base.{◌≡◌, refl, ◌∙◌, false, none, some, [], ◌∷◌}
use sub_merge.Base.Text.{Text, str, eqb, eqb_iff}
use sub_merge.Crates.{object, Members, end}
use sub_merge.Protocols.Trojan.Written.{nonempty_text}
use sub_merge.Protocols.Vmess.{as_text, lookup, get, insert, insert_nonempty}

-- A member of another name is looked through.
lookup-insert_other :
    (key name value : Text) (ms : Members)
    → eqb name key ≡ false
    → lookup key (insert_nonempty name value ms) ≡ lookup key ms
unfolding lookup
lookup-insert_other key name [] ms n = refl
lookup-insert_other key name (c ∷ s) ms n = rw n refl

-- A member that is written only if it is not empty, before members of other names.
get-insert_same :
    (key value : Text) (ms : Members)
    → lookup key ms ≡ none
    → get (object (insert_nonempty key value ms)) key ≡ nonempty_text value
unfolding get lookup as_text mathlib.Core.Option.bind
get-insert_same key [] ms n = rw n refl
get-insert_same key (c ∷ s) ms n = rw ((eqb_iff key key).1 refl) refl

-- The members behind `path`.
abbrev pub last_members : Text → Text → Text → Text → Text → Text → Members
last_members host tls sni alpn fp insecure = insert_nonempty (str "host") host (
    insert (str "tls") tls (
      insert_nonempty (str "sni") sni (
        insert_nonempty (str "alpn") alpn
          (insert_nonempty (str "fp") fp (insert (str "allowInsecure") insecure end)))))

module _ (host tls sni alpn fp insecure : Text) where
  abbrev from_fp : Members
  from_fp = insert_nonempty (str "fp") fp (insert (str "allowInsecure") insecure end)

  abbrev from_alpn : Members
  from_alpn = insert_nonempty (str "alpn") alpn from_fp

  abbrev from_sni : Members
  from_sni = insert_nonempty (str "sni") sni from_alpn

  abbrev last : Members
  last = last_members host tls sni alpn fp insecure

  -- Four members that may be left out, and one that is there.
  passed_optional :
      (key : Text)
      → eqb (str "sni") key ≡ false
      → eqb (str "alpn") key ≡ false
      → eqb (str "fp") key ≡ false
      → lookup key from_sni ≡ lookup key (insert (str "allowInsecure") insecure end)
  passed_optional key s a f =
      lookup-insert_other key (str "sni") sni from_alpn s
      ∙ lookup-insert_other key (str "alpn") alpn from_fp a
      ∙ lookup-insert_other key (str "fp") fp _ f

  passed_host :
      (key : Text)
      → eqb (str "host") key ≡ false
      → eqb (str "tls") key ≡ false
      → lookup key last ≡ lookup key from_sni
  unfolding lookup
  passed_host key h t = lookup-insert_other key (str "host") host _ h ∙ rw t refl

  pub get-host : get (object last) (str "host") ≡ nonempty_text host
  unfolding lookup eqb
  get-host = get-insert_same (str "host") host _ (passed_optional (str "host") refl refl refl)

  pub get-tls : get (object last) (str "tls") ≡ some tls
  unfolding get lookup as_text eqb mathlib.Core.Option.bind
  get-tls = rw (lookup-insert_other (str "tls") (str "host") host _ refl) refl

  pub get-absent : get (object last) (str "security") ≡ none
  unfolding get lookup eqb mathlib.Core.Option.bind
  get-absent =
      rw (passed_host (str "security") refl refl)
        (rw (passed_optional (str "security") refl refl refl) refl)

  pub get-sni : get (object last) (str "sni") ≡ nonempty_text sni
  unfolding get eqb lookup mathlib.Core.Option.bind
  get-sni = rw (passed_host (str "sni") refl refl) (
      get-insert_same (str "sni") sni from_alpn (
        lookup-insert_other (str "sni") (str "alpn") alpn from_fp refl
        ∙ lookup-insert_other (str "sni") (str "fp") fp _ refl))

  pub get-alpn : get (object last) (str "alpn") ≡ nonempty_text alpn
  unfolding get eqb lookup mathlib.Core.Option.bind
  get-alpn = rw (passed_host (str "alpn") refl refl) (
      rw (lookup-insert_other (str "alpn") (str "sni") sni from_alpn refl) (
        get-insert_same (str "alpn") alpn from_fp
          (lookup-insert_other (str "alpn") (str "fp") fp _ refl)))

  pub get-fp : get (object last) (str "fp") ≡ nonempty_text fp
  unfolding get eqb lookup mathlib.Core.Option.bind
  get-fp = rw (passed_host (str "fp") refl refl) (
      rw (lookup-insert_other (str "fp") (str "sni") sni from_alpn refl) (
        rw (lookup-insert_other (str "fp") (str "alpn") alpn from_fp refl)
          (get-insert_same (str "fp") fp _ refl)))

  pub get-insecure : get (object last) (str "allowInsecure") ≡ some insecure
  unfolding get eqb lookup as_text mathlib.Core.Option.bind
  get-insecure =
      rw (passed_host (str "allowInsecure") refl refl)
        (rw (passed_optional (str "allowInsecure") refl refl refl) refl)
