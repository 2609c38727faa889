-- ===== src/Server/Router/Settings.antt =====
-- What the settings that a request has written do to later requests.
use sub_merge.Server.Users
use sub_merge.Server.Store.Action.{
  Outcome, answered, failed, aborted, Action, ◌>>=◌, select, lift, found_or, after,
}
use sub_merge.Base.{
  ◌≡◌, refl, sym, ap, ◌∙◌, subst, ◌⊎◌, inl, inr, Bool, true, false, not, Option, none, some, List,
  arith,
}
use sub_merge.Base.Text.{Text, str, eqb, to_ascii_lowercase}
use sub_merge.Base.Result.{Result, err, ok}
use sub_merge.Base.Tests.{if◌then◌else◌}
use sub_merge.Crates.{Yaml, Entries, Crates}
use sub_merge.Formats.{clash, output_format_from_str}
use sub_merge.Formats.Template.{template_entries, with_sections, serialize_clash_subscription}
use sub_merge.Server.ApiError.{ApiError, bad_request}
use sub_merge.Server.Combineds.{Combined, find_name}
use sub_merge.Server.App.{App, Call}
use sub_merge.Server.Store.{Store, set_setting, get_setting-set_setting}
use sub_merge.Server.Routes.Config.{
  v2ray_b64_key, ConfigDto, ChangePassword, UpdateConfig, not_zero, base64_wanted, config_dto,
  accounts_written, update_password_part, update_base64_part, update_config,
}
use sub_merge.Server.Routes.ClashConfig.{
  template_key, or_default, template_of, is_mapping, parsed_or_bad, put_clash_config,
}
use sub_merge.Server.Routes.Subscribe.{
  or_internal, format_of, to_str, scheme_of, provider_url, clash_body, body_in, subscribe_handler,
}
use sub_merge.Server.Router.Rules.{continued, not-false}
use sub_merge.Server.Router.Inversion.{
  continued-answered, found-answered, pass-answered, admin-answered,
}
use sub_merge.Server.Users.{get_username, Accounts, change_password}
use sub_merge.Server.Routes.Combineds.{no_combined}

wanted-set_setting :
    (v : Bool) (rows : List (Text × Text))
    → base64_wanted (set_setting v2ray_b64_key (if v then str "1" else str "0") rows) ≡ v
unfolding base64_wanted eqb
wanted-set_setting true rows =
    ap not_zero (get_setting-set_setting v2ray_b64_key v2ray_b64_key (str "1") rows)
wanted-set_setting false rows =
    ap not_zero (get_setting-set_setting v2ray_b64_key v2ray_b64_key (str "0") rows)

template-set_wanted :
    (v : Text) (rows : List (Text × Text))
    → template_of (set_setting v2ray_b64_key v rows) ≡ template_of rows
unfolding template_of eqb
template-set_wanted v rows =
    ap or_default (get_setting-set_setting v2ray_b64_key template_key v rows)

template-set_template :
    (t : Text) (rows : List (Text × Text)) → template_of (set_setting template_key t rows) ≡ t
unfolding template_of eqb
template-set_template t rows =
    ap or_default (get_setting-set_setting template_key template_key t rows)

wanted-set_template :
    (t : Text) (rows : List (Text × Text))
    → base64_wanted (set_setting template_key t rows) ≡ base64_wanted rows
unfolding base64_wanted eqb
wanted-set_template t rows = ap not_zero (get_setting-set_setting template_key v2ray_b64_key t rows)

module _ (app : App) (call : Call) (st final : Store) where
  password_part-settings :
      (o : Option ChangePassword) (u : Unit {0})
      → update_password_part app o st ≡ answered final u
      → final.settings ≡ st.settings
  unfolding update_password_part
  password_part-settings none u h = ground arith
  password_part-settings (some cp) u h =
      written
        (Users.change_password app.argon cp.old cp.new
          (record { users = st.users; sessions = st.sessions }))
        h
    where
      written :
          (r : Result ApiError Accounts)
          → continued accounts_written (lift r st) ≡ answered final u
          → final.settings ≡ st.settings
      written (ok a) h = ground arith
      written (err e) h = ground arith

  base64_part-settings :
      (o : Option Bool) (v : Bool) (u : Unit {0})
      → o ≡ some v
      → update_base64_part o st ≡ answered final u
      → final.settings ≡ set_setting v2ray_b64_key (if v then str "1" else str "0") st.settings
  unfolding update_base64_part
  base64_part-settings none v u o h = ground arith
  base64_part-settings (some w) v u o h =
      subst
        (λ x.
          final.settings ≡ set_setting v2ray_b64_key (if x then str "1" else str "0") st.settings)
        (ground arith) (sym (ap (λ t. (after t).settings) h))

module _ (app : App) (call : Call) (st final : Store) where
  -- After a change of the configuration that asks for a form of the v2ray output, the answer and
  -- the store have that form, and the Clash template is as before.
  pub update_config-wanted :
      (b : UpdateConfig) (v : Bool) (d : ConfigDto)
      → b.v2ray_base64 ≡ some v
      → update_config app call (ok b) st ≡ answered final d
      → (d.v2ray_base64 ≡ v)
        × (base64_wanted final.settings ≡ v)
        × (template_of final.settings ≡ template_of st.settings)
  unfolding update_config config_dto update_base64_part
  update_config-wanted b v d o h =
      let (ss, h1) = admin-answered app call st _ h in
      let s1 : Store = record st { sessions = ss } in
      let (s2, u, e, h2) =
        continued-answered (update_password_part app b.change_password s1) _ h1 in
      let (s3, w, f, h3) = continued-answered (update_base64_part b.v2ray_base64 s2) _ h2 in
      let (n, g, h4) = found-answered s3 (get_username s3.users) _ _ h3 in
      let kept = password_part-settings app call s1 s2 b.change_password u e in
      let set = base64_part-settings app call s2 s3 b.v2ray_base64 v w o f in
      let at_end : s3 ≡ final = ap after h4 in
      let now_wanted : base64_wanted s3.settings ≡ v =
        ap base64_wanted set ∙ wanted-set_setting v s2.settings in
      (
        sym (ap shown_form h4) ∙ now_wanted,
        subst (λ t. base64_wanted t.settings ≡ v) at_end now_wanted,
        subst (λ t. template_of t.settings ≡ template_of st.settings) at_end
            (ap template_of set
              ∙ (template-set_wanted (if v then str "1" else str "0") s2.settings
                  ∙ ap template_of kept)),
      )
    where
      shown_form : Outcome ConfigDto → Bool
      shown_form (answered t c) = c.v2ray_base64
      shown_form (failed t c) = v
      shown_form (aborted t) = v

-- `to_string` writes every mapping.
abbrev pub PrintsMappings : Crates → Type 0
PrintsMappings k = (es : Entries) → (t : Text) × (k.yaml_to_string (Yaml.mapping es) ≡ inr t)

mapping-accepted : (v : Yaml) → is_mapping v ≡ true → (es : Entries) × (v ≡ Yaml.mapping es)
mapping-accepted (Yaml.mapping es) h = (es, refl)
mapping-accepted Yaml.null h = ground arith
mapping-accepted (Yaml.bool b) h = ground arith
mapping-accepted (Yaml.number n t) h = ground arith
mapping-accepted (Yaml.string t) h = ground arith
mapping-accepted (Yaml.sequence i) h = ground arith

module _ (app : App) (call : Call) (st final : Store) where
  parsed-answered :
      {B : Type 0} {b : B} (r : Text ⊎ Yaml) (f : Yaml → Action B)
      → continued f (parsed_or_bad r st) ≡ answered final b
      → (v : Yaml) × (r ≡ inr v) × (f v st ≡ answered final b)
  parsed-answered (inl e) f h = ground arith
  parsed-answered (inr v) f h = (v, refl, h)

serialize_clash_subscription-ok :
    (k : Crates) (t key url : Text) (es : Entries)
    → PrintsMappings k
    → k.yaml_from_str t ≡ inr (Yaml.mapping es)
    → (out : Text) × (serialize_clash_subscription k t key url ≡ ok out)
unfolding serialize_clash_subscription template_entries
serialize_clash_subscription-ok k t key url es p e =
    let (out, q) = p (with_sections key url es) in (out, rw (e) (rw (q) refl))

-- No format in the query, or one of the names of the Clash form, in any case.
abbrev pub AsksClash : Option Text → Type 0
AsksClash none = Unit
AsksClash (some f) =
    (to_ascii_lowercase f ≡ str "clash")
    ⊎ ((to_ascii_lowercase f ≡ str "clashyaml") ⊎ (to_ascii_lowercase f ≡ str "yaml"))

output_format_from_str-clash :
    (f : Text) → AsksClash (some f) → output_format_from_str f ≡ some clash
unfolding output_format_from_str eqb
output_format_from_str-clash f (inl e) = rw e refl
output_format_from_str-clash f (inr (inl e)) = rw e refl
output_format_from_str-clash f (inr (inr e)) = rw e refl

format_of-clash : (f : Option Text) (st : Store) → AsksClash f → format_of f st ≡ answered st clash
unfolding format_of
format_of-clash none st h = refl
format_of-clash (some f) st h = rw (output_format_from_str-clash f h) refl

-- The Clash form of a combined subscription that is there.
subscribe-clash :
    (app : App) (call : Call) (st : Store) (name host out : Text) (c : Combined)
    (format : Option Text)
    → AsksClash format
    → find_name name st.combineds ≡ some c
    → to_str (call.headers (str "host")) ≡ some host
    → serialize_clash_subscription app.crates
        (template_of st.settings)
        name
        (provider_url (scheme_of call.headers) host name)
      ≡ ok out
    → subscribe_handler app call name (ok (record { format = format })) st ≡ answered st out
unfolding subscribe_handler body_in clash_body
subscribe-clash app call st name host out c format a f g w =
    ap
      (λ o.
        continued (λ c. format_of format >>= (λ x. body_in app call name c.id x))
          (found_or no_combined o st))
      f
    ∙ ap (continued (λ x. body_in app call name c.id x)) (format_of-clash format st a)
    ∙ (ap
          (λ o.
            continued
              (λ host. select (λ st. template_of st.settings) >>= (λ template. or_internal (
                serialize_clash_subscription app.crates template name
                  (provider_url (scheme_of call.headers) host name))))
              (found_or (bad_request (str "missing Host header")) o st))
          g
        ∙ ap (λ r. or_internal r st) w)

-- A template that `put_clash_config` has accepted is the one in force, the form of the v2ray output
-- is as before, and if serde_yaml_ng prints every mapping, then on every store in which it still is
-- the template, each request for the Clash form of a combined subscription that is there, with no
-- format or one of the names of that form, and with a Host header, is answered.
pub put_clash_config-serves :
    (app : App) (call : Call) (st final : Store) (t answer_text : Text)
    → PrintsMappings app.crates
    → put_clash_config app call (ok t) st ≡ answered final answer_text
    → (template_of final.settings ≡ t)
      × (base64_wanted final.settings ≡ base64_wanted st.settings)
      × ((later : Call) (now : Store) (name host : Text) (c : Combined) (format : Option Text)
          → template_of now.settings ≡ t
          → AsksClash format
          → find_name name now.combineds ≡ some c
          → to_str (later.headers (str "host")) ≡ some host
          → (out : Text) × (subscribe_handler app later name (ok (record { format = format })) now
              ≡ answered now out))
unfolding put_clash_config
put_clash_config-serves app call st final t a p h =
    let (ss, h1) = admin-answered app call st _ h in
    let s1 : Store = record st { sessions = ss } in
    let (v, e, h2) = parsed-answered app call s1 final (app.crates.yaml_from_str t) _ h1 in
    let (m, h3) = pass-answered s1 (not (is_mapping v)) _ _ h2 in
    let (es, q) = mapping-accepted v (not-false _ m) in
    let at_end = ap after h3 in
    let in_force : template_of final.settings ≡ t =
      subst (λ s. template_of s.settings ≡ t) at_end (template-set_template t st.settings) in
    (
      in_force,
      subst (λ s. base64_wanted s.settings ≡ base64_wanted st.settings) at_end
          (wanted-set_template t st.settings),
      λ later now name host c format still a f g.
          let (out, w) =
            serialize_clash_subscription-ok app.crates t name
              (provider_url (scheme_of later.headers) host name) es p (e ∙ ap inr q) in
          (
            out,
            subscribe-clash app later now name host out c format a f g (
                ap
                  (λ x.
                    serialize_clash_subscription app.crates x name
                      (provider_url (scheme_of later.headers) host name))
                  still
                ∙ w),
          ),
    )
