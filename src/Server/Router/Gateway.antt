-- ===== src/Server/Router/Gateway.antt =====
-- When the subscription of a client is answered by 502.
use mathlib.Core.List.{Permᴰ}
use sub_merge.Server.Store.Action.{
  Outcome, failed, Action, ◌>>=◌, select, found_or, raise_if, after,
}
use sub_merge.Base.{
  ℕ, zero, suc, ◌<◌, ◌≡◌, refl, ap, ◌∙◌, inr, Bool, true, false, not, ◌&&◌, Option, none, some,
  List, [], ◌∷◌, ◌++◌, map, arith,
}
use sub_merge.Base.Text.{Text, str}
use sub_merge.Base.Result.{err, ok}
use sub_merge.Base.Tests.{if◌then◌else◌}
use sub_merge.Base.Lists.{is_empty_list, take}
use sub_merge.Base.Split.{join}
use sub_merge.Error.{Serialized}
use sub_merge.Model.{ProxyNode}
use sub_merge.Formats.{v2ray, output_format_from_str, serialize_nodes}
use sub_merge.Formats.V2ray.{serialize_v2ray_plain}
use sub_merge.Server.ApiError.{bad_request, bad_gateway}
use sub_merge.Server.Service.{
  Source, Joined, Merged, join_loop, rows_or_error, merge_joined, Merges, merges,
}
use sub_merge.Server.Service.Merge.{
  nodes_of, errors_of, gather, gather-Permᴰ, join_loop-nodes, join_loop-errors, tasks,
}
use sub_merge.Server.Sources.{select_rows}
use sub_merge.Server.Combineds.{Combined, find_name, member_ids}
use sub_merge.Server.App.{App, Call, MergesSources}
use sub_merge.Server.Store.{Store}
use sub_merge.Server.Routes.Combineds.{no_combined}
use sub_merge.Server.Routes.Config.{base64_wanted}
use sub_merge.Server.Routes.Subscribe.{
  or_internal, format_of, all_failed, v2ray_body, body_in, subscribe_handler,
}
use sub_merge.Server.Router.Rules.{continued}
use sub_merge.Server.Routes.Preview.{error_line}

abbrev pub is_bad_gateway : {A : Type 0} → Outcome A → Bool
is_bad_gateway (failed st (bad_gateway m)) = true
is_bad_gateway _ = false

is_empty_list-Permᴰ :
    {A : Type 0} {xs ys : List A} → Permᴰ xs ys → is_empty_list xs ≡ is_empty_list ys
is_empty_list-Permᴰ Permᴰ.nil = refl
is_empty_list-Permᴰ (Permᴰ.cons e p) = refl
is_empty_list-Permᴰ (Permᴰ.swap e h) = refl
is_empty_list-Permᴰ (Permᴰ.trans p q) = is_empty_list-Permᴰ p ∙ is_empty_list-Permᴰ q

is_empty_list-take :
    (n : ℕ) (xs : List ProxyNode) → 0 < n → is_empty_list (take n xs) ≡ is_empty_list xs
is_empty_list-take zero xs h = absurd (omega arith)
is_empty_list-take (suc n) [] h = refl
is_empty_list-take (suc n) (x ∷ xs) h = refl

no_query_error :
    (ids : Option (List ℕ)) (rows : List Source) → (rows_or_error ids (inr rows)).1 ≡ []
unfolding rows_or_error
no_query_error none rows = refl
no_query_error (some []) rows = refl
no_query_error (some (x ∷ xs)) rows = refl

-- Whether no task has given a node and some task an error.
abbrev pub every_task_failed : List Joined → Bool
every_task_failed js =
    is_empty_list (gather nodes_of js) && not (is_empty_list (gather errors_of js))

module _ (app : App) (ids : Option (List ℕ)) (rows : List Source) where
  -- The tasks of the sources, in the order of the rows.
  abbrev pub source_tasks : List Joined
  source_tasks = tasks app.crates app.client app.max_nodes ids (inr rows)

  all_failed-Merges :
      (m : Merged)
      → 0 < app.max_nodes
      → Merges app.crates app.client app.max_nodes ids (inr rows) m
      → all_failed m ≡ every_task_failed source_tasks
  unfolding merge_joined
  all_failed-Merges m z (merges {js} p) =
      let es = (rows_or_error ids (inr rows)).1 in
      let start : Merged = record { nodes = []; errors = es } in
      let nodes_eq : is_empty_list (take app.max_nodes (join_loop start js).nodes)
          ≡ is_empty_list (gather nodes_of source_tasks) =
        is_empty_list-take app.max_nodes (join_loop start js).nodes z
        ∙ (ap is_empty_list (join_loop-nodes start js)
            ∙ is_empty_list-Permᴰ (gather-Permᴰ nodes_of p)) in
      let errors_eq : is_empty_list (join_loop start js).errors
          ≡ is_empty_list (gather errors_of source_tasks) =
        ap is_empty_list (join_loop-errors start js)
        ∙ (ap (λ xs. is_empty_list (xs ++ gather errors_of js)) (no_query_error ids rows)
            ∙ is_empty_list-Permᴰ (gather-Permᴰ errors_of p)) in
      ap (λ b. b && not (is_empty_list (join_loop start js).errors)) nodes_eq
      ∙ ap (λ b. is_empty_list (gather nodes_of source_tasks) && not b) errors_eq

internal-is_bad_gateway :
    (st : Store) (r : Serialized Text) → is_bad_gateway (or_internal r st) ≡ false
internal-is_bad_gateway st (ok t) = refl
internal-is_bad_gateway st (err e) = refl

internal-after : (st : Store) (r : Serialized Text) → after (or_internal r st) ≡ st
internal-after st (ok t) = refl
internal-after st (err e) = refl

v2ray_body-is_bad_gateway :
    (app : App) (m : Merged) (st : Store)
    → (is_bad_gateway (v2ray_body app m st) ≡ all_failed m) × (after (v2ray_body app m st) ≡ st)
unfolding v2ray_body
v2ray_body-is_bad_gateway app m st = by_test (all_failed m)
  where
    body : Action Text
    body = select (λ st. base64_wanted st.settings) >>= (λ wanted. or_internal (
        if wanted
        then serialize_nodes app.crates m.nodes v2ray
        else serialize_v2ray_plain app.crates m.nodes))

    detail : Text
    detail = str "all sources failed: " ++ join (str "; ") (map error_line m.errors)

    by_test :
        (c : Bool)
        → (is_bad_gateway (continued (λ u. body) (raise_if c (bad_gateway detail) st)) ≡ c)
          × (after (continued (λ u. body) (raise_if c (bad_gateway detail) st)) ≡ st)
    by_test true = (refl, refl)
    by_test false = (internal-is_bad_gateway st _, internal-after st _)

subscribe-v2ray :
    (app : App) (call : Call) (name f : Text) (st : Store) (c : Combined)
    → find_name name st.combineds ≡ some c
    → output_format_from_str f ≡ some v2ray
    → subscribe_handler app call name (ok (record { format = some f })) st
      ≡ v2ray_body app (call.merge (some (member_ids c.id st.members)) st.sources) st
unfolding subscribe_handler format_of body_in
subscribe-v2ray app call name f st c e g =
    ap
      (λ o.
        continued (λ c. format_of (some f) >>= (λ format. body_in app call name c.id format))
          (found_or no_combined o st))
      e
    ∙ ap
        (λ o.
          continued (λ format. body_in app call name c.id format)
            (found_or (bad_request (str "unsupported format")) o st))
        g

-- Where a merge may have nodes, and what is merged is an outcome of `fetch_and_merge`, a request
-- for the v2ray form of a combined subscription that is there is answered by 502 exactly when no
-- member source has given a node and at least one has failed with an error, whatever the order in
-- which the downloads end; the store stays as it was.
pub subscribe-is_bad_gateway :
    (app : App) (call : Call) (name f : Text) (st : Store) (c : Combined)
    → 0 < app.max_nodes
    → MergesSources app call
    → find_name name st.combineds ≡ some c
    → output_format_from_str f ≡ some v2ray
    → let ids = some (member_ids c.id st.members) in
      (is_bad_gateway (subscribe_handler app call name (ok (record { format = some f })) st)
        ≡ every_task_failed (source_tasks app ids (select_rows ids st.sources)))
      × (after (subscribe_handler app call name (ok (record { format = some f })) st) ≡ st)
subscribe-is_bad_gateway app call name f st c z m e g =
    let ids = some (member_ids c.id st.members) in
    let merged = call.merge ids st.sources in
    let reply = subscribe-v2ray app call name f st c e g in
    let (bad, kept) = v2ray_body-is_bad_gateway app merged st in
    (
      ap is_bad_gateway reply
          ∙ (bad
              ∙ all_failed-Merges app ids (select_rows ids st.sources) merged z (m ids st.sources)),
      ap after reply ∙ kept,
    )
