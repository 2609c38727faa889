-- ===== src/Server/Router/CombinedWrites.antt =====
-- What the requests on the combined subscriptions write.
use sub_merge.Server.Store.Action.{answered, answer}
use sub_merge.Base.{ℕ, ◌≡◌, sym, subst, inl, inr, true, not, Option, none, some, List, [], arith}
use sub_merge.Base.Text.{Text, eqb}
use sub_merge.Base.Result.{Result}
use sub_merge.Base.Tests.{if◌then◌else◌, Bool-cases}
use sub_merge.Base.Keys.{has}
use sub_merge.Server.ApiError.{Rejection}
use sub_merge.Server.Sources.{source_ids}
use sub_merge.Server.Combineds.{combined_keys, find_combined, taken}
use sub_merge.Server.Combineds.Names.{combined_keys-set_name, has-find_combined}
use sub_merge.Server.App.{App, Call, now_text}
use sub_merge.Server.Store.{Store}
use sub_merge.Server.Store.Step.{Step, Steps}
use sub_merge.Server.Routes.Names.{valid_combined_name}
use sub_merge.Server.Routes.Sources.{unwrap_or, no_source, delete_source}
use sub_merge.Server.Routes.Combineds.{
  CreateCombined, UpdateCombined, no_combined, insert_combined, create_combined, rename_combined,
  update_name, replace_members, update_combined, delete_combined,
}
use sub_merge.Server.Router.Rules.{
  Writes, bind-Writes, body-Writes, path-Writes, found-Writes, pass-Writes, admin-Writes, one,
  not-false,
}
use sub_merge.Server.Router.SourceWrites.{if-Writes, ended-Writes}

pub insert_combined-Writes :
    (st : Store) (name at : Text) (ids : List ℕ)
    → valid_combined_name name ≡ true
    → Writes st (insert_combined name at ids st)
unfolding insert_combined
insert_combined-Writes st name at ids v = elim (Bool-cases (taken name 0 st.combineds)) [
  | inl t ↦ rw (t) Steps.here
  | inr t ↦ rw (t) (one (Step.inserts_combined name at ids v t))
]

pub rename_combined-Writes :
    (st : Store) (id : ℕ) (name : Text)
    → valid_combined_name name ≡ true
    → Writes st (rename_combined id name st)
unfolding rename_combined
rename_combined-Writes st id name v = elim (Bool-cases (taken name id st.combineds)) [
  | inl t ↦ rw (t) Steps.here
  | inr t ↦ rw (t) (one (Step.renames_combined name id v t))
]

pub update_name-Writes :
    (st : Store) (id : ℕ) (old : Text) (o : Option Text) → Writes st (update_name id old o st)
unfolding update_name
update_name-Writes st id old none = Steps.here
update_name-Writes st id old (some name) = pass-Writes st (not (valid_combined_name name)) _ _ λ v.
    bind-Writes st ((if eqb name old then answer tt else rename_combined id name) st)
      (λ u. answer name)
      (if-Writes st (eqb name old) (answer tt) (rename_combined id name) Steps.here
        (rename_combined-Writes st id name (not-false _ v)))
      λ s1 u e. Steps.here

-- A change of the name leaves the keys.
pub update_name-keys :
    (st st' : Store) (id : ℕ) (old : Text) (o : Option Text) {name : Text}
    → update_name id old o st ≡ answered st' name
    → combined_keys st'.combineds ≡ combined_keys st.combineds
unfolding update_name rename_combined
update_name-keys st st' id old none h = ground arith
update_name-keys st st' id old (some name) h =
    ground (arith, combined_keys-set_name name id st.combineds)

pub replace_members-Writes :
    (st : Store) (id : ℕ) (o : Option (List ℕ))
    → has id (combined_keys st.combineds) ≡ true
    → Writes st (replace_members id o st)
unfolding replace_members
replace_members-Writes st id none h = Steps.here
replace_members-Writes st id (some ids) h = one (Step.replaces_members id ids h)

module _ (app : App) (call : Call) (st : Store) where
  pub delete_source-Writes :
      (path : Result Rejection ℕ) → Writes st (delete_source app call path st)
  unfolding delete_source
  delete_source-Writes path = admin-Writes st app call _ λ s1. path-Writes s1 path _ λ id.
      ended-Writes app call s1 _ (not (has id (source_ids s1.sources))) no_source
        (one (Step.deletes_source id))

  pub delete_combined-Writes :
      (path : Result Rejection ℕ) → Writes st (delete_combined app call path st)
  unfolding delete_combined
  delete_combined-Writes path = admin-Writes st app call _ λ s1. path-Writes s1 path _ λ id.
      ended-Writes app call s1 _ (not (has id (combined_keys s1.combineds))) no_combined
        (one (Step.deletes_combined id))

  pub create_combined-Writes :
      (body : Result Rejection CreateCombined) → Writes st (create_combined app call body st)
  unfolding create_combined
  create_combined-Writes body = admin-Writes st app call _ λ s1. body-Writes s1 body _ λ b.
      pass-Writes s1 (not (valid_combined_name b.name)) _ _ λ v.
        bind-Writes s1 (insert_combined b.name (now_text app call) (unwrap_or b.source_ids []) s1) _
          (inserted s1 b (not-false _ v)) λ s2 c e. Steps.here
    where
      inserted :
          (s1 : Store) (b : CreateCombined)
          → valid_combined_name b.name ≡ true
          → Writes s1 (insert_combined b.name (now_text app call) (unwrap_or b.source_ids []) s1)
      inserted s1 b v =
          insert_combined-Writes s1 b.name (now_text app call) (unwrap_or b.source_ids []) v

  pub update_combined-Writes :
      (path : Result Rejection ℕ) (body : Result Rejection UpdateCombined)
      → Writes st (update_combined app call path body st)
  unfolding update_combined
  update_combined-Writes path body = admin-Writes st app call _ λ s1. path-Writes s1 path _ λ id.
      body-Writes s1 body _ λ b. found-Writes s1 (find_combined id s1.combineds) _ _ λ old e.
        bind-Writes s1 (update_name id old.name b.name s1) _
          (update_name-Writes s1 id old.name b.name)
          λ s2 name n.
            bind-Writes s2 (replace_members id b.source_ids s2) _
              (replace_members-Writes s2 id b.source_ids (
                subst (λ ks. has id ks ≡ true) (sym (update_name-keys s1 s2 id old.name b.name n))
                  (has-find_combined id s1.combineds old e).0))
              λ s3 u m. Steps.here
