-- ===== src/Server/Service.antt =====
-- crates/server/src/service.rs: `fetch_and_merge`. The tasks of the sources run at once, and their
-- results are joined in the order in which they end.
pub mod Merge
use mathlib.Core.List.{Permᴰ}
use sub_merge.Base.{ℕ, ◌⊎◌, inl, inr, Option, none, some, List, [], ◌∷◌, ◌++◌, map}
use sub_merge.Base.Tests.{if◌then◌else◌}
use sub_merge.Base.Text.{Text, str, eqb}
use sub_merge.Base.Lists.{take}
use sub_merge.Base.Decimal.{to_string}
use sub_merge.Base.Result.{Result, err, ok}
use sub_merge.Crates.{member, Crates}
use sub_merge.Error.{
  ParseError, unsupported_protocol, invalid_uri, invalid_base64, invalid_port, missing_field,
  invalid_value, unsupported, missing, raised, panicked, Parsed,
}
use sub_merge.Model.{ProxyNode}
use sub_merge.Parser.{parse_line, Lines, parse_subscription_text}
use sub_merge.Server.Fetch.{Client, fetch_source}

-- A row of the table of sources, as far as the merge reads it.
pub record Source : Type 0 where
  pub kind : Text
  pub name : Text
  pub url : Text

pub record SourceError : Type 0 where
  pub source_name : Text
  pub reason : Text

-- `ParseError` under `Display`
unfoldable pub parse_error_text : ParseError → Text
parse_error_text unsupported_protocol = str "unsupported protocol"
parse_error_text (invalid_uri s) = str "invalid URI: " ++ s
parse_error_text (invalid_base64 s) = str "invalid base64: " ++ s
parse_error_text invalid_port = str "invalid port"
parse_error_text (missing_field s) = str "missing required field: " ++ s
parse_error_text (invalid_value f v) = str "invalid value for " ++ (f ++ (str ": " ++ v))

-- What `join_next` gives of a task; a task that panicked is `lost`.
pub data Joined : Type 0 where
  finished : Text → Result Text (List ProxyNode) → Joined
  lost : Joined

-- A source of the kind "single" is one line.
unfoldable pub single_task : Text → Parsed ProxyNode → Joined
single_task name (ok n) = finished name (ok (n ∷ []))
single_task name (err (raised e)) = finished name (err (str "parse failed: " ++ parse_error_text e))
single_task name (err panicked) = lost

nodes_or_error : List ProxyNode → ℕ → Result Text (List ProxyNode)
nodes_or_error [] skipped =
    err (str "no nodes parsed (" ++ (to_string skipped ++ str " line(s) skipped)"))
nodes_or_error (n ∷ ns) skipped = ok (n ∷ ns)

parsed_task : Text → Option Lines → Joined
unfolding nodes_or_error
parsed_task name none = lost
parsed_task name (some r) = finished name (nodes_or_error r.nodes r.skipped)

unfoldable pub remote_task : Crates → ℕ → Text → Result Text Text → Joined
unfolding parsed_task
remote_task k max_nodes name (err reason) = finished name (err reason)
remote_task k max_nodes name (ok text) = parsed_task name (parse_subscription_text k text max_nodes)

-- The body of `set.spawn(…)`.
unfoldable pub run_task : Crates → Client → ℕ → Source → Joined
unfolding single_task remote_task
run_task k client max_nodes s =
    if eqb s.kind (str "single")
    then single_task s.name (parse_line k s.url)
    else remote_task k max_nodes s.name (fetch_source client s.url)

-- The nodes and the errors so far.
pub record Merged : Type 0 where
  pub nodes : List ProxyNode
  pub errors : List SourceError

-- One round of the loop on `join_next`.
unfoldable pub join_step : Merged → Joined → Merged
join_step m lost = m
join_step m (finished name (ok ns)) = record m { nodes = m.nodes ++ ns }
join_step m (finished name (err reason)) = record m {
  errors = m.errors ++ record { source_name = name; reason = reason } ∷ [];
}

unfoldable pub join_loop : Merged → List Joined → Merged
unfolding join_step
join_loop m [] = m
join_loop m (j ∷ js) = join_loop (join_step m j) js

-- The sources to fetch, from the ids of a combined subscription or, for `none`, all of them, and
-- what the query answers: a query of members that fails leaves an error, one of all does not.
unfoldable pub rows_or_error : Option (List ℕ) → Text ⊎ List Source → List Source × List SourceError
rows_or_error (some []) answer = ([], [])
rows_or_error (some (id ∷ ids)) (inl e) =
    ([], record { source_name = str "combined"; reason = str "member query failed: " ++ e } ∷ [])
rows_or_error (some (id ∷ ids)) (inr rows) = (rows, [])
rows_or_error none (inl e) = ([], [])
rows_or_error none (inr rows) = (rows, [])

-- The end of `fetch_and_merge`, on the tasks in the order in which they ended.
unfoldable pub merge_joined : ℕ → List SourceError → List Joined → Merged
unfolding join_loop
merge_joined max_nodes errors js =
    let m = join_loop (record { nodes = []; errors = errors }) js in
    record { nodes = take max_nodes m.nodes; errors = m.errors }

-- Every outcome of `fetch_and_merge`: the tasks may end in any order.
pub data Merges (k : Crates) (client : Client) (max_nodes : ℕ) (source_ids : Option (List ℕ))
    (rows : Text ⊎ List Source) : Merged → Type 0 where
  merges :
      {js : List Joined}
      → Permᴰ js (map (run_task k client max_nodes) (rows_or_error source_ids rows).0)
      → Merges k client max_nodes source_ids rows
          (merge_joined max_nodes (rows_or_error source_ids rows).1 js)
