-- ===== src/Examples/Requests.antt =====
-- Requests to the server of Examples.World.
use sub_merge.Server.Store.Action.{answered, after}
use sub_merge.Base.{◌≡◌, refl, sym, subst, false, Option, none, some, List, [], ◌∷◌, map, arith}
use sub_merge.Base.Text.{Text, str, eqb, strip_prefix, contains, lower_char}
use sub_merge.Base.Result.{Result, ok}
use sub_merge.Base.Tests.{if◌then◌else◌}
use sub_merge.Base.Keys.{filter, has}
use sub_merge.Base.Sort.{sort}
use sub_merge.Formats.{output_format_from_str}
use sub_merge.Server.Sessions.{Session, find_session, touch, validity, validate_session}
use sub_merge.Server.Sources.{drop_source, select_rows}
use sub_merge.Server.Combineds.{
  Combined, find_combined, find_name, taken, set_name, drop_members_in, is_member, insert_or_ignore,
  insert_members_sql, sources_of, member_ids,
}
use sub_merge.Server.Auth.{parse_bearer}
use sub_merge.Server.Auth.Admin.{require_admin}
use sub_merge.Server.App.{Call}
use sub_merge.Server.Store.{Store, get_setting, set_setting}
use sub_merge.Server.Store.Step.{Step, Steps}
use sub_merge.Server.Store.Valid.{WellFormed, Steps-WellFormed}
use sub_merge.Server.Routes.Names.{valid_combined_name}
use sub_merge.Server.Routes.Config.{
  v2ray_b64_key, ConfigDto, UpdateConfig, base64_wanted, config_dto, update_password_part,
  update_base64_part, update_config,
}
use sub_merge.Server.Routes.ClashConfig.{template_key, template_of, put_clash_config}
use sub_merge.Server.Routes.Sources.{delete_source}
use sub_merge.Server.Routes.Combineds.{
  CombinedDto, CreateCombined, UpdateCombined, dto, push_source, group_members, group_of,
  without_group, dtos, listed, list_combineds, insert_combined, create_combined, rename_combined,
  update_name, replace_members, update_combined,
}
use sub_merge.Server.Routes.Subscribe.{to_str, subscribe_handler}
use sub_merge.Server.Router.{delete_source_request, handle}
use sub_merge.Server.Router.Authorized.{Admitted, Refused, handle-Refused}
use sub_merge.Server.Router.Writes.{handle-Steps}
use sub_merge.Server.Router.Settings.{update_config-wanted, AsksClash, put_clash_config-serves}
use sub_merge.Server.Router.Membership.{ListsMembers, create_combined-ListsMembers}
use sub_merge.Server.Router.Changes.{
  ForgetsSource, delete_source-ForgetsSource, HasMembers, update_combined-HasMembers,
}
use sub_merge.Server.Router.Listing.{list_combineds-member_ids}
use sub_merge.Server.Router.Gateway.{
  is_bad_gateway, every_task_failed, source_tasks, subscribe-is_bad_gateway,
}
use sub_merge.Server.Static.{Files, fallback, IsInside, fallback-inside}
use sub_merge.Examples.World.{
  yaml_crates, app, call_with, admin, admin-MergesSources, source_row, home, world,
  world-WellFormed,
}

Steps-WellFormed_example : WellFormed (record world {
  sources = drop_source 1 world.sources;
  members = drop_members_in 1 world.members;
})
Steps-WellFormed_example =
    Steps-WellFormed world-WellFormed (Steps.next Steps.here (Step.deletes_source 1))

handle-Steps_example : Steps world (after (handle app admin (delete_source_request (ok 1)) world))
handle-Steps_example = handle-Steps app admin (delete_source_request (ok 1)) world

-- The token of no session.
stranger-denied : ¬ Admitted app (call_with (str "t9")) world
unfolding parse_bearer strip_prefix find_session eqb
stranger-denied (secret, s, p, f, v) =
    none-ne-some (subst (λ t. find_session t world.sessions ≡ some s) (sym (ok-injective p)) f)
  where
    ok-injective : ◌≡◌ {A = Result Text Text} (ok (str "t9")) (ok secret) → str "t9" ≡ secret
    ok-injective q = ground arith

    none-ne-some : ◌≡◌ {A = Option Session} none (some s) → ⊥
    none-ne-some q = ground arith

handle-Refused_example :
    Refused world (handle app (call_with (str "t9")) (delete_source_request (ok 1)) world)
handle-Refused_example =
    handle-Refused app (call_with (str "t9")) world (delete_source_request (ok 1)) tt
      stranger-denied

abbrev new_combined : CreateCombined
new_combined = record { name = str "new"; source_ids = some (2 ∷ 9 ∷ []) }

abbrev with_new : Store
with_new = record world {
  combineds = home ∷ record { id = 2; name = str "new"; created_at = 5 ∷ [] } ∷ [];
  last_combined = 2;
  members = (1, 1) ∷ (2, 2) ∷ [];
}

abbrev new_dto : CombinedDto
new_dto = record { id = 2; name = str "new"; created_at = 5 ∷ []; source_ids = 2 ∷ [] }

create_combined-answered :
    create_combined app admin (ok new_combined) world ≡ answered with_new new_dto
unfolding create_combined require_admin parse_bearer strip_prefix validate_session find_session
    touch validity eqb valid_combined_name insert_combined taken insert_members_sql insert_or_ignore
    is_member filter has member_ids sources_of sort
create_combined-answered = refl

create_combined-ListsMembers_example :
    ListsMembers (str "new") (2 ∷ 9 ∷ []) world.sources with_new new_dto
create_combined-ListsMembers_example =
    create_combined-ListsMembers app admin new_combined world with_new new_dto world-WellFormed
      create_combined-answered

abbrev without_first : Store
without_first = record world { sources = source_row 2 (str "remote") (str "u") ∷ []; members = [] }

delete_source-answered : delete_source app admin (ok 1) world ≡ answered without_first tt
unfolding delete_source require_admin parse_bearer strip_prefix validate_session find_session touch
    validity eqb filter has
delete_source-answered = refl

delete_source-ForgetsSource_example : ForgetsSource 1 world without_first
delete_source-ForgetsSource_example =
    delete_source-ForgetsSource app admin 1 world without_first tt delete_source-answered

abbrev renamed : UpdateCombined
renamed = record { name = some (str "house"); source_ids = some (2 ∷ 2 ∷ []) }

abbrev house_dto : CombinedDto
house_dto = record { id = 1; name = str "house"; created_at = str "c"; source_ids = 2 ∷ [] }

abbrev with_house : Store
with_house = record world {
  combineds = record { id = 1; name = str "house"; created_at = str "c" } ∷ [];
  members = (1, 2) ∷ [];
}

update_combined-answered :
    update_combined app admin (ok 1) (ok renamed) world ≡ answered with_house house_dto
unfolding update_combined require_admin parse_bearer strip_prefix validate_session find_session
    touch validity eqb valid_combined_name update_name rename_combined replace_members find_combined
    set_name taken insert_members_sql insert_or_ignore is_member filter has member_ids sources_of
    sort
update_combined-answered = refl

update_combined-HasMembers_example : HasMembers 1 (2 ∷ 2 ∷ []) world with_house house_dto
update_combined-HasMembers_example =
    update_combined-HasMembers app admin 1 renamed (2 ∷ 2 ∷ []) world with_house house_dto refl
      update_combined-answered

abbrev listed_dtos : List CombinedDto
listed_dtos = record { id = 1; name = str "home"; created_at = str "c"; source_ids = 1 ∷ [] } ∷ []

list_combineds-answered : list_combineds app admin world ≡ answered world listed_dtos
unfolding list_combineds require_admin parse_bearer strip_prefix validate_session find_session touch
    validity eqb listed sort dtos group_members push_source group_of without_group
list_combineds-answered = refl

list_combineds-member_ids_example :
    (listed_dtos ≡ map (λ c. dto c (member_ids c.id world.members)) world.combineds)
    × (world ≡ record world { sessions = world.sessions })
list_combineds-member_ids_example =
    list_combineds-member_ids app admin world world listed_dtos world-WellFormed
      list_combineds-answered

abbrev plain_lines : UpdateConfig
plain_lines = record { change_password = none; v2ray_base64 = some false }

abbrev with_plain : Store
with_plain = record world { settings = (v2ray_b64_key, str "0") ∷ [] }

abbrev plain_dto : ConfigDto
plain_dto = record { username = str "root"; v2ray_base64 = false }

update_config-answered :
    update_config app admin (ok plain_lines) world ≡ answered with_plain plain_dto
unfolding update_config require_admin parse_bearer strip_prefix validate_session find_session touch
    validity eqb update_password_part update_base64_part config_dto base64_wanted get_setting
    set_setting
update_config-answered = refl

update_config-wanted_example :
    (plain_dto.v2ray_base64 ≡ false)
    × (base64_wanted with_plain.settings ≡ false)
    × (template_of with_plain.settings ≡ template_of world.settings)
update_config-wanted_example =
    update_config-wanted app admin world with_plain plain_lines false plain_dto refl
      update_config-answered

abbrev with_template : Store
with_template = record world { settings = (template_key, str "a: b") ∷ [] }

put_clash_config-answered :
    put_clash_config app admin (ok (str "a: b")) world ≡ answered with_template (str "a: b")
unfolding put_clash_config require_admin parse_bearer strip_prefix validate_session find_session
    touch validity eqb set_setting
put_clash_config-answered = refl

put_clash_config-serves_example :
    (template_of with_template.settings ≡ str "a: b")
    × (base64_wanted with_template.settings ≡ base64_wanted world.settings)
    × ((later : Call) (now : Store) (name host : Text) (c : Combined) (format : Option Text)
        → template_of now.settings ≡ str "a: b"
        → AsksClash format
        → find_name name now.combineds ≡ some c
        → to_str (later.headers (str "host")) ≡ some host
        → (out : Text) × (subscribe_handler app later name (ok (record { format = format })) now
            ≡ answered now out))
put_clash_config-serves_example =
    put_clash_config-serves app admin world with_template (str "a: b") (str "a: b")
      (λ es. (str "printed", refl)) put_clash_config-answered

subscribe-is_bad_gateway_example :
    (is_bad_gateway (
        subscribe_handler app admin
          (str "home")
          (ok (record { format = some (str "v2ray") }))
          world)
      ≡ every_task_failed (
          source_tasks app
            (some (member_ids 1 world.members))
            (select_rows (some (member_ids 1 world.members)) world.sources)))
    × (after (
          subscribe_handler app admin
            (str "home")
            (ok (record { format = some (str "v2ray") }))
            world)
        ≡ world)
unfolding find_name eqb output_format_from_str lower_char
subscribe-is_bad_gateway_example =
    subscribe-is_bad_gateway app admin (str "home") (str "v2ray") world home (omega arith)
      admin-MergesSources refl refl

-- Two file systems that differ outside of the folder.
abbrev files_with : Text → Files
files_with secret rel = if contains (str "..") rel then some secret else none

files_with-agree : (rel : Text) → IsInside rel → files_with (str "a") rel ≡ files_with (str "b") rel
files_with-agree rel (h, r) = rw (h) refl

fallback-inside_example :
    fallback yaml_crates (files_with (str "a")) (str "/../etc")
    ≡ fallback yaml_crates (files_with (str "b")) (str "/../etc")
fallback-inside_example =
    fallback-inside yaml_crates (files_with (str "a")) (files_with (str "b")) (str "/../etc")
      files_with-agree
