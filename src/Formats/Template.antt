-- ===== src/Formats/Template.antt =====
-- crates/proxy-core/src/formats/clash.rs: `serialize_clash_subscription`, a template with the
-- program's own two sections.
use sub_merge.Base.{ℕ, ◌⊎◌, inl, inr, true, some, List, [], ◌∷◌, ◌++◌}
use sub_merge.Base.Tests.{if◌then◌else◌}
use sub_merge.Base.Text.{Text, str, eqb}
use sub_merge.Base.Result.{ok, err, ◌>>=◌}
use sub_merge.Crates.{
  null, bool, number, string, end, Yaml, sequence, mapping, Items, nil, cons, Entries, entry,
  Crates,
}
use sub_merge.Error.{invalid_template, Serialized}

-- `Mapping::insert`: a value under the same key is replaced where it stands.
unfoldable pub insert_entry : Text → Yaml → Entries → Entries
insert_entry key v end = entry (string key) v end
insert_entry key v (entry (string name) w es) =
    let rest = insert_entry key v es in
    if eqb name key then entry (string name) v es else entry (string name) w rest
insert_entry key v (entry other w es) = entry other w (insert_entry key v es)

abbrev field : Text → Yaml → Entries → Entries
field key v es = entry (string key) v es

abbrev items : List Text → Items
items [] = nil
items (s ∷ ss) = cons (string s) (items ss)

abbrev count : ℕ → Text → Yaml
count n s = number (some n) s

-- The values of `json!`, whose objects have their keys in order.
unfoldable pub providers : Text → Text → Yaml
providers provider_key provider_url = mapping (
    field provider_key
      (mapping (
        field (str "health-check")
          (mapping (
            field (str "enable") (bool true) (
              field (str "interval") (count 300 (str "300"))
                (field (str "url") (string (str "http://www.gstatic.com/generate_204")) end))))
          (field (str "interval") (count 3600 (str "3600")) (
            field (str "path") (string (str "./providers/" ++ (provider_key ++ str ".yaml"))) (
              field (str "type") (string (str "http"))
                (field (str "url") (string provider_url) end))))))
      end)

unfoldable pub subscription_groups : Text → Yaml
subscription_groups provider_key = sequence (
    cons
      (mapping (
        field (str "name") (string (str "节点选择")) (
          field (str "proxies") (sequence (items (str "DIRECT" ∷ []))) (
            field (str "type") (string (str "select"))
              (field (str "use") (sequence (items (provider_key ∷ []))) end)))))
      nil)

-- The entries of the template; an empty one is null, and anything but a mapping is refused.
unfoldable pub template_entries : Yaml → Serialized Entries
template_entries null = ok end
template_entries (mapping es) = ok es
template_entries _ = err (invalid_template (str "root must be a mapping"))

-- The two insertions.
unfoldable pub with_sections : Text → Text → Entries → Entries
unfolding insert_entry
with_sections provider_key provider_url es =
    insert_entry (str "proxy-groups") (subscription_groups provider_key)
      (insert_entry (str "proxy-providers") (providers provider_key provider_url) es)

-- An error of serde_yaml_ng with its message.
abbrev pub or_template_error {ℓ} : {A : Type ℓ} → Text ⊎ A → Serialized A
or_template_error (inl e) = err (invalid_template e)
or_template_error (inr a) = ok a

unfoldable pub serialize_clash_subscription : Crates → Text → Text → Text → Serialized Text
unfolding template_entries with_sections
serialize_clash_subscription k template provider_key provider_url = do
  v ← or_template_error (k.yaml_from_str template)
  es ← template_entries v
  or_template_error (k.yaml_to_string (mapping (with_sections provider_key provider_url es)))
