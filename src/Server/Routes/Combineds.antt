-- ===== src/Server/Routes/Combineds.antt =====
-- crates/server/src/routes/combineds.rs: the handlers of the combined subscriptions.
use sub_merge.Server.Store.Action.{
  answered, failed, Action, ◌>>=◌, ◌>>◌, answer, select, found_or, raise_if, modify,
}
use sub_merge.Base.{ℕ, suc, Bool, not, ◌&&◌, ◌||◌, Option, none, some, List, [], ◌∷◌, ◌++◌}
use sub_merge.Base.Text.{Text, str, eqb}
use sub_merge.Base.Result.{Result}
use sub_merge.Base.Tests.{ltb, leb, ◌==◌, if◌then◌else◌}
use sub_merge.Base.Keys.{has}
use sub_merge.Base.Sort.{sort}
use sub_merge.Server.ApiError.{Rejection, ApiError, bad_request, not_found}
use sub_merge.Server.Combineds.{
  Combined, Membership, combined_keys, find_combined, taken, set_name, drop_combined,
  drop_members_of, insert_members_sql, member_ids,
}
use sub_merge.Server.Auth.Admin.{require_admin}
use sub_merge.Server.App.{App, Call, now_text}
use sub_merge.Server.Routes.Auth.{json_body}
use sub_merge.Server.Routes.Names.{valid_combined_name}
use sub_merge.Server.Routes.Sources.{path_id, unwrap_or}
pub mod Grouping

pub record CombinedDto : Type 0 where
  pub id : ℕ
  pub name : Text
  pub created_at : Text
  pub source_ids : List ℕ

pub record CreateCombined : Type 0 where
  pub name : Text
  pub source_ids : Option (List ℕ)

pub record UpdateCombined : Type 0 where
  pub name : Option Text
  pub source_ids : Option (List ℕ)

abbrev pub bad_name : ApiError
bad_name = bad_request (str "combined name must match [A-Za-z0-9-_]")

abbrev pub name_exists : ApiError
name_exists = bad_request (str "combined name already exists")

abbrev pub no_combined : ApiError
no_combined = not_found (str "combined subscription not found")

abbrev pub dto : Combined → List ℕ → CombinedDto
dto c ids = record { id = c.id; name = c.name; created_at = c.created_at; source_ids = ids }

-- `ORDER BY combined_id, source_id`
abbrev pub le_member : Membership → Membership → Bool
le_member (c, s) (d, t) = ltb c d || (c == d && leb s t)

-- The map from a combined subscription to its sources.
abbrev pub Groups : Type 0
Groups = List (ℕ × List ℕ)

-- `by_combined.entry(cid).or_default().push(sid)`
unfoldable pub push_source : Membership → Groups → Groups
push_source (c, s) [] = (c, s ∷ []) ∷ []
push_source (c, s) ((d, ids) ∷ gs) =
    let rest = push_source (c, s) gs in if d == c then (d, ids ++ s ∷ []) ∷ gs else (d, ids) ∷ rest

unfoldable pub group_members : Groups → List Membership → Groups
unfolding push_source
group_members gs [] = gs
group_members gs (m ∷ ms) = group_members (push_source m gs) ms

-- `by_combined.remove(&id)`: the value, and the map without it.
unfoldable pub group_of : ℕ → Groups → List ℕ
group_of id [] = []
group_of id ((d, ids) ∷ gs) = if d == id then ids else group_of id gs

unfoldable pub without_group : ℕ → Groups → Groups
without_group id [] = []
without_group id ((d, ids) ∷ gs) =
    let rest = without_group id gs in if d == id then gs else (d, ids) ∷ rest

-- The loop over the rows.
unfoldable pub dtos : Groups → List Combined → List CombinedDto
unfolding group_of without_group
dtos gs [] = []
dtos gs (c ∷ cs) = dto c (group_of c.id gs) ∷ dtos (without_group c.id gs) cs

unfoldable pub listed : List Combined → List Membership → List CombinedDto
unfolding dtos group_members sort
listed cs ms = dtos (group_members [] (sort le_member ms)) (sort (λ c d. leb c.id d.id) cs)

unfoldable pub list_combineds : App → Call → Action (List CombinedDto)
list_combineds app call = do require_admin app call; select (λ st. listed st.combineds st.members)

-- The transaction of `create_combined`, which gives the new row.
unfoldable pub insert_combined : Text → Text → List ℕ → Action Combined
insert_combined name at ids st =
    let c : Combined = record { id = suc st.last_combined; name = name; created_at = at } in
    if taken name 0 st.combineds
    then failed st name_exists
    else answered
        (record st {
          combineds = st.combineds ++ c ∷ [];
          last_combined = suc st.last_combined;
          members = insert_members_sql (suc st.last_combined) ids st.sources st.members;
        })
        c

unfoldable pub create_combined : App → Call → Result Rejection CreateCombined → Action CombinedDto
create_combined app call body = do
  require_admin app call
  b ← json_body body
  raise_if (not (valid_combined_name b.name)) bad_name
  c ← insert_combined b.name (now_text app call) (unwrap_or b.source_ids [])
  select (λ st. dto c (member_ids c.id st.members))

-- `UPDATE combined_subs SET name = ? WHERE id = ?`, under UNIQUE.
unfoldable pub rename_combined : ℕ → Text → Action (Unit {0})
rename_combined id name st =
    if taken name id st.combineds
    then failed st name_exists
    else answered (record st { combineds = set_name name id st.combineds }) tt

-- The name that the combined subscription has afterwards.
unfoldable pub update_name : ℕ → Text → Option Text → Action Text
update_name id old none = answer old
update_name id old (some name) = do
  raise_if (not (valid_combined_name name)) bad_name
  (if eqb name old then answer tt else rename_combined id name)
  answer name

unfoldable pub replace_members : ℕ → Option (List ℕ) → Action (Unit {0})
replace_members id none = answer tt
replace_members id (some ids) = modify (λ st. record st {
  members = insert_members_sql id ids st.sources (drop_members_of id st.members);
})

unfoldable pub update_combined :
    App → Call → Result Rejection ℕ → Result Rejection UpdateCombined → Action CombinedDto
update_combined app call path body = do
  require_admin app call
  id ← path_id path
  b ← json_body body
  old ← (λ st. found_or no_combined (find_combined id st.combineds) st)
  name ← update_name id old.name b.name
  replace_members id b.source_ids
  select (λ st. record {
    id = id;
    name = name;
    created_at = old.created_at;
    source_ids = member_ids id st.members;
  })

unfoldable pub delete_combined : App → Call → Result Rejection ℕ → Action (Unit {0})
delete_combined app call path = do
  require_admin app call
  id ← path_id path
  there ← select (λ st. has id (combined_keys st.combineds))
  modify (λ st. record st {
    combineds = drop_combined id st.combineds;
    members = drop_members_of id st.members;
  })
  raise_if (not there) no_combined
