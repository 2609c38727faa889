-- ===== src/Server/Router/SourceWrites.antt =====
-- What the requests on the sources write, and the preview.
use sub_merge.Server.Store.Action.{Outcome, answered, failed, Action, answer, raise, raise_if}
use sub_merge.Base.{ℕ, Bool, true, false, not, ◌||◌, Option, none, some, [], ◌∷◌}
use sub_merge.Base.Text.{Text, str, eqb, is_empty}
use sub_merge.Base.Result.{Result, err, ok}
use sub_merge.Base.Tests.{if◌then◌else◌}
use sub_merge.Base.Keys.{has}
use sub_merge.Error.{raised, panicked, Parsed}
use sub_merge.Model.{ProxyNode}
use sub_merge.Parser.{parse_line, Lines, parse_subscription_text}
use sub_merge.Server.ApiError.{Rejection, ApiError}
use sub_merge.Server.Fetch.{fetch_source}
use sub_merge.Server.Sources.{source_ids, find_source, is_kind}
use sub_merge.Server.Combineds.{find_name, member_ids}
use sub_merge.Server.App.{App, Call, now_text}
use sub_merge.Server.Store.{Store}
use sub_merge.Server.Store.Step.{Step, Steps}
use sub_merge.Server.Routes.Sources.{
  CreateSource, UpdateSource, unwrap_or, no_source, list_sources, insert_source, create_source,
  update_source, refresh_single, refresh_lines, refresh_remote, refresh_source,
}
use sub_merge.Server.Routes.Combineds.{no_combined, list_combineds}
use sub_merge.Server.Routes.Preview.{
  PreviewQuery, ambiguous, bad_query_kind, of_combined, of_source, selection, preview_handler,
}
use sub_merge.Server.Router.Rules.{
  Writes, bind-Writes, body-Writes, path-Writes, query-Writes, found-Writes, pass-Writes,
  admin-Writes, one, not-false,
}

-- A call that writes nothing.
pub single-Writes :
    (st : Store) (name : Text) (r : Parsed ProxyNode) → Writes st (refresh_single name r st)
unfolding refresh_single
single-Writes st name (ok n) = Steps.here
single-Writes st name (err (raised e)) = Steps.here
single-Writes st name (err panicked) = Steps.here

pub lines-Writes :
    (st : Store) (name : Text) (o : Option Lines) → Writes st (refresh_lines name o st)
unfolding refresh_lines
lines-Writes st name none = Steps.here
lines-Writes st name (some r) = Steps.here

pub remote-Writes :
    (app : App) (st : Store) (name : Text) (r : Result Text Text)
    → Writes st (refresh_remote app name r st)
unfolding refresh_remote
remote-Writes app st name (err reason) = Steps.here
remote-Writes app st name (ok text) =
    lines-Writes st name (parse_subscription_text app.crates text app.max_nodes)

pub if-Writes :
    {A : Type 0} (st : Store) (c : Bool) (m k : Action A)
    → Writes st (m st)
    → Writes st (k st)
    → Writes st ((if c then m else k) st)
if-Writes st true m k p q = p
if-Writes st false m k p q = q

pub option-Writes :
    {A B : Type 0} (st : Store) (o : Option A) (f : A → B) (e : ApiError)
    → Writes st (elim o as (λ x. Outcome B) [ some a ↦ answered st (f a) | none ↦ failed st e ])
option-Writes st none f e = Steps.here
option-Writes st (some a) f e = Steps.here

pub selection-Writes :
    (st : Store) (name kind : Option Text) (id : Option ℕ) → Writes st (selection name kind id st)
unfolding selection of_combined of_source
selection-Writes st (some n) kind id =
    option-Writes st (find_name n st.combineds) (λ c. some (member_ids c.id st.members)) no_combined
selection-Writes st none (some k) id = Steps.here
selection-Writes st none none (some id) =
    if-Writes st (has id (source_ids st.sources)) (answer (some (id ∷ []))) (raise no_source)
      Steps.here Steps.here
selection-Writes st none none none = Steps.here

module _ (app : App) (call : Call) (st : Store) where
  pub list_sources-Writes : Writes st (list_sources app call st)
  unfolding list_sources
  list_sources-Writes = admin-Writes st app call _ λ s1. Steps.here

  pub create_source-Writes :
      (body : Result Rejection CreateSource) → Writes st (create_source app call body st)
  unfolding create_source insert_source
  create_source-Writes body = admin-Writes st app call _ λ s1. body-Writes s1 body _ λ b.
      pass-Writes s1 (is_empty b.url || is_empty b.name) _ _ λ e.
        pass-Writes s1 (not (is_kind (unwrap_or b.kind (str "remote")))) _ _ λ k. one (
          Step.inserts_source b.url b.name (unwrap_or b.kind (str "remote")) (now_text app call)
            (not-false _ k))

  pub update_source-Writes :
      (path : Result Rejection ℕ) (body : Result Rejection UpdateSource)
      → Writes st (update_source app call path body st)
  unfolding update_source
  update_source-Writes path body = admin-Writes st app call _ λ s1. path-Writes s1 path _ λ id.
      body-Writes s1 body _ λ b. found-Writes s1 (find_source id s1.sources) _ _ λ old e.
        pass-Writes s1 (not (is_kind (unwrap_or b.kind old.kind))) _ _ λ k. one (
          Step.sets_source id (unwrap_or b.url old.url) (unwrap_or b.name old.name)
            (unwrap_or b.kind old.kind) (not-false _ k))

  pub ended-Writes :
      (end : Store) (c : Bool) (e : ApiError) → Steps st end → Writes st (raise_if c e end)
  ended-Writes end true e s = s
  ended-Writes end false e s = s

  pub refresh_source-Writes :
      (path : Result Rejection ℕ) → Writes st (refresh_source app call path st)
  unfolding refresh_source
  refresh_source-Writes path = admin-Writes st app call _ λ s1. path-Writes s1 path _ λ id.
      found-Writes s1 (find_source id s1.sources) _ _ λ s e.
        if-Writes s1 (eqb s.kind (str "single"))
          (refresh_single s.name (parse_line app.crates s.url))
          (refresh_remote app s.name (fetch_source app.client s.url))
          (single-Writes s1 s.name (parse_line app.crates s.url))
          (remote-Writes app s1 s.name (fetch_source app.client s.url))

  pub list_combineds-Writes : Writes st (list_combineds app call st)
  unfolding list_combineds
  list_combineds-Writes = admin-Writes st app call _ λ s1. Steps.here

  pub preview-Writes :
      (q : Result Rejection PreviewQuery) → Writes st (preview_handler app call q st)
  unfolding preview_handler
  preview-Writes q = admin-Writes st app call _ λ s1. query-Writes s1 q _ λ p.
      pass-Writes s1 (ambiguous p) _ _ λ a. pass-Writes s1 (bad_query_kind p.kind) _ _ λ k.
        bind-Writes s1 (selection p.combined p.kind p.source_id s1) _
          (selection-Writes s1 p.combined p.kind p.source_id) λ s2 ids e. Steps.here
