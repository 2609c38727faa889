-- ===== src/Server/Routes/Sources.antt =====
-- crates/server/src/routes/sources.rs: the handlers of the sources.
use sub_merge.Server.Store.Action.{
  answered, aborted, Action, ◌>>=◌, ◌>>◌, answer, raise, select, found_or, raise_if, modify,
}
use sub_merge.Base.{ℕ, suc, not, ◌||◌, Option, none, some, List, [], ◌∷◌, ◌++◌}
use sub_merge.Base.Text.{Text, str, eqb, is_empty}
use sub_merge.Base.Result.{Result, err, ok}
use sub_merge.Base.Tests.{leb, if◌then◌else◌}
use sub_merge.Base.Lists.{length}
use sub_merge.Base.Keys.{has}
use sub_merge.Base.Sort.{sort}
use sub_merge.Error.{raised, panicked, Parsed}
use sub_merge.Model.{ProxyNode}
use sub_merge.Parser.{parse_line, Lines, parse_subscription_text}
use sub_merge.Server.ApiError.{Rejection, ApiError, bad_request, not_found, invalid_path}
use sub_merge.Server.Fetch.{fetch_source}
use sub_merge.Server.Service.{parse_error_text}
use sub_merge.Server.Sources.{
  SourceDto, source_ids, find_source, new_source, set_source, drop_source, is_kind,
}
use sub_merge.Server.Combineds.{drop_members_in}
use sub_merge.Server.Auth.Admin.{require_admin}
use sub_merge.Server.App.{App, Call, now_text}
use sub_merge.Server.Routes.Auth.{json_body}

pub record CreateSource : Type 0 where
  pub url : Text
  pub name : Text
  pub kind : Option Text

pub record UpdateSource : Type 0 where
  pub url : Option Text
  pub name : Option Text
  pub kind : Option Text

-- `id.map_err(ApiError::from)?`
abbrev pub path_id : {A : Type 0} → Result Rejection A → Action A
path_id (ok id) = answer id
path_id (err r) = raise (invalid_path r)

abbrev pub unwrap_or : {A : Type 0} → Option A → A → A
unwrap_or (some a) b = a
unwrap_or none b = b

abbrev pub bad_kind : ApiError
bad_kind = bad_request (str "kind must be 'single' or 'remote'")

abbrev pub no_source : ApiError
no_source = not_found (str "source not found")

-- `ORDER BY id`
unfoldable pub list_sources : App → Call → Action (List SourceDto)
unfolding sort
list_sources app call = do
  require_admin app call
  select (λ st. sort (λ s t. leb s.id t.id) st.sources)

-- `INSERT INTO sources …`, which gives the row.
unfoldable pub insert_source : Text → Text → Text → Text → Action SourceDto
insert_source url name kind at st =
    let s = new_source st.last_source url name kind at in
    answered (record st { sources = st.sources ++ s ∷ []; last_source = suc st.last_source }) s

unfoldable pub create_source : App → Call → Result Rejection CreateSource → Action SourceDto
create_source app call body = do
  require_admin app call
  b ← json_body body
  raise_if (is_empty b.url || is_empty b.name) (bad_request (str "url and name required"))
  raise_if (not (is_kind (unwrap_or b.kind (str "remote")))) bad_kind
  insert_source b.url b.name (unwrap_or b.kind (str "remote")) (now_text app call)

unfoldable pub update_source :
    App → Call → Result Rejection ℕ → Result Rejection UpdateSource → Action SourceDto
update_source app call path body = do
  require_admin app call
  id ← path_id path
  b ← json_body body
  old ← (λ st. found_or no_source (find_source id st.sources) st)
  raise_if (not (is_kind (unwrap_or b.kind old.kind))) bad_kind
  modify (λ st. record st {
    sources =
        set_source id (unwrap_or b.url old.url) (unwrap_or b.name old.name)
          (unwrap_or b.kind old.kind) st.sources;
  })
  answer (record {
    id = id;
    url = unwrap_or b.url old.url;
    name = unwrap_or b.name old.name;
    kind = unwrap_or b.kind old.kind;
    created_at = old.created_at;
  })

unfoldable pub delete_source : App → Call → Result Rejection ℕ → Action (Unit {0})
delete_source app call path = do
  require_admin app call
  id ← path_id path
  there ← select (λ st. has id (source_ids st.sources))
  modify (λ st. record st {
    sources = drop_source id st.sources;
    members = drop_members_in id st.members;
  })
  raise_if (not there) no_source

-- What a refresh reports: the number of nodes, or the reason why there are none.
pub record Refreshed : Type 0 where
  pub source : Text
  pub outcome : Result Text ℕ

-- A source of the kind "single" is parsed on the spot; a panic of the parser ends the request.
unfoldable pub refresh_single : Text → Parsed ProxyNode → Action Refreshed
refresh_single name (ok n) = answer (record { source = name; outcome = ok 1 })
refresh_single name (err (raised e)) =
    answer (record { source = name; outcome = err (str "parse failed: " ++ parse_error_text e) })
refresh_single name (err panicked) = λ st. aborted st

count_or_reason : List ProxyNode → Result Text ℕ
count_or_reason [] = err (str "no nodes parsed")
count_or_reason (n ∷ ns) = ok (length (n ∷ ns))

unfoldable pub refresh_lines : Text → Option Lines → Action Refreshed
unfolding count_or_reason
refresh_lines name (some r) = answer (record { source = name; outcome = count_or_reason r.nodes })
refresh_lines name none = λ st. aborted st

unfoldable pub refresh_remote : App → Text → Result Text Text → Action Refreshed
unfolding refresh_lines
refresh_remote app name (err reason) = answer (record { source = name; outcome = err reason })
refresh_remote app name (ok text) =
    refresh_lines name (parse_subscription_text app.crates text app.max_nodes)

unfoldable pub refresh_source : App → Call → Result Rejection ℕ → Action Refreshed
unfolding refresh_single refresh_remote
refresh_source app call path = do
  require_admin app call
  id ← path_id path
  s ← (λ st. found_or no_source (find_source id st.sources) st)
  (if eqb s.kind (str "single")
      then refresh_single s.name (parse_line app.crates s.url)
      else refresh_remote app s.name (fetch_source app.client s.url))
