-- ===== src/Formats/Sections.antt =====
-- What `serialize_clash_subscription` keeps of the template, and what it puts in.
use sub_merge.Base.{◌≡◌, refl, ap, ◌∙◌, inl, inr, true, false, ◌||◌, some}
use sub_merge.Base.Tests.{if◌then◌else◌, Bool-cases}
use sub_merge.Base.Text.{Text, str, eqb, eqb_iff}
use sub_merge.Crates.{
  null, bool, number, string, end, Yaml, sequence, mapping, Entries, entry, Crates,
}
use sub_merge.Formats.Template.{
  insert_entry, providers, subscription_groups, template_entries, with_sections, or_template_error,
  serialize_clash_subscription,
}
use sub_merge.Parser.ClashNode.{find_entry}

eqb_refl : (s : Text) → eqb s s ≡ true
eqb_refl s = (eqb_iff s s).1 refl

find_entry-insert :
    (key : Text) (v : Yaml) (es : Entries) → find_entry key (insert_entry key v es) ≡ some v
unfolding find_entry insert_entry
find_entry-insert key v end = rw (eqb_refl key)
find_entry-insert key v (entry (string name) w es) = elim (Bool-cases (eqb name key)) [
  | inl e ↦ rw (e) (rw (e))
  | inr e ↦ rw (e) (rw (e) (find_entry-insert key v es))
]
find_entry-insert key v (entry null w es) = find_entry-insert key v es
find_entry-insert key v (entry (bool _) w es) = find_entry-insert key v es
find_entry-insert key v (entry (number _ _) w es) = find_entry-insert key v es
find_entry-insert key v (entry (sequence _) w es) = find_entry-insert key v es
find_entry-insert key v (entry (mapping _) w es) = find_entry-insert key v es

find_entry-insert_other :
    (key other : Text) (v : Yaml) (es : Entries)
    → eqb key other ≡ false
    → find_entry other (insert_entry key v es) ≡ find_entry other es
unfolding find_entry insert_entry
find_entry-insert_other key other v end h = rw (h)
find_entry-insert_other key other v (entry (string name) w es) h =
    elim (Bool-cases (eqb name key)) [
      | inl e ↦ rw (e, (eqb_iff name key).0 e, h) refl
      | inr e ↦ rw (e) (
          ap (λ t. if eqb name other then some w else t) (find_entry-insert_other key other v es h))
    ]
find_entry-insert_other key other v (entry null w es) h = find_entry-insert_other key other v es h
find_entry-insert_other key other v (entry (bool _) w es) h =
    find_entry-insert_other key other v es h
find_entry-insert_other key other v (entry (number _ _) w es) h =
    find_entry-insert_other key other v es h
find_entry-insert_other key other v (entry (sequence _) w es) h =
    find_entry-insert_other key other v es h
find_entry-insert_other key other v (entry (mapping _) w es) h =
    find_entry-insert_other key other v es h

-- The entries under all other keys, whatever these are, in order.
unfoldable pub other_entries : Entries → Entries
other_entries end = end
other_entries (entry (string name) v es) =
    let rest = other_entries es in
    if eqb name (str "proxy-providers") || eqb name (str "proxy-groups")
    then rest
    else entry (string name) v rest
other_entries (entry key v es) = entry key v (other_entries es)

other_entries-insert :
    (key : Text) (v : Yaml) (es : Entries)
    → (eqb key (str "proxy-providers") || eqb key (str "proxy-groups")) ≡ true
    → other_entries (insert_entry key v es) ≡ other_entries es
unfolding other_entries insert_entry
other_entries-insert key v end h = rw (h)
other_entries-insert key v (entry (string name) w es) h = elim (Bool-cases (eqb name key)) [
  | inl e ↦ rw (e, (eqb_iff name key).0 e, h) refl
  | inr e ↦ rw (e) (
      ap
        (λ t.
          if eqb name (str "proxy-providers") || eqb name (str "proxy-groups")
          then t
          else entry (string name) w t)
        (other_entries-insert key v es h))
]
other_entries-insert key v (entry null w es) h = ap (entry null w) (other_entries-insert key v es h)
other_entries-insert key v (entry (bool b) w es) h =
    ap (entry (bool b) w) (other_entries-insert key v es h)
other_entries-insert key v (entry (number n t) w es) h =
    ap (entry (number n t) w) (other_entries-insert key v es h)
other_entries-insert key v (entry (sequence i) w es) h =
    ap (entry (sequence i) w) (other_entries-insert key v es h)
other_entries-insert key v (entry (mapping m) w es) h =
    ap (entry (mapping m) w) (other_entries-insert key v es h)

-- The entries `r` are those of the template but for the two sections.
pub record HasSections (provider_key provider_url : Text) (es r : Entries) : Type 0 where
  pub has_providers :
      find_entry (str "proxy-providers") r ≡ some (providers provider_key provider_url)
  pub has_groups : find_entry (str "proxy-groups") r ≡ some (subscription_groups provider_key)
  pub keeps :
      (key : Text)
      → eqb (str "proxy-providers") key ≡ false
      → eqb (str "proxy-groups") key ≡ false
      → find_entry key r ≡ find_entry key es
  pub others : other_entries r ≡ other_entries es

with_sections-HasSections :
    (provider_key provider_url : Text) (es : Entries)
    → HasSections provider_key provider_url es (with_sections provider_key provider_url es)
unfolding with_sections
with_sections-HasSections provider_key provider_url es =
    let ps = providers provider_key provider_url in
    let with_providers = insert_entry (str "proxy-providers") ps es in
    let gs = subscription_groups provider_key in
    record {
      has_providers =
          find_entry-insert_other (str "proxy-groups") (str "proxy-providers") gs with_providers
            (unfold eqb in refl)
          ∙ find_entry-insert (str "proxy-providers") ps es;
      has_groups = find_entry-insert (str "proxy-groups") gs with_providers;
      keeps = λ key p g.
          find_entry-insert_other (str "proxy-groups") key gs with_providers g
          ∙ find_entry-insert_other (str "proxy-providers") key ps es p;
      others =
          other_entries-insert (str "proxy-groups") gs with_providers (unfold eqb in refl)
          ∙ other_entries-insert (str "proxy-providers") ps es (unfold eqb in refl);
    }

-- For every template that parses as a mapping, `serialize_clash_subscription` prints a mapping in
-- which `proxy-providers` and `proxy-groups` are the program's own, whether or not the template
-- has them, and the entries under all other keys, of any kind, are the template's, in order.
pub serialize_clash_subscription-HasSections :
    (k : Crates) (template provider_key provider_url : Text) (es : Entries)
    → k.yaml_from_str template ≡ inr (mapping es)
    → (r : Entries) × (serialize_clash_subscription k template provider_key provider_url
        ≡ or_template_error (k.yaml_to_string (mapping r)))
      × HasSections provider_key provider_url es r
unfolding serialize_clash_subscription template_entries
serialize_clash_subscription-HasSections k template provider_key provider_url es h = (
  with_sections provider_key provider_url es,
  rw (h),
  with_sections-HasSections provider_key provider_url es,
)
