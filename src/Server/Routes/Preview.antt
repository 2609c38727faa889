-- ===== src/Server/Routes/Preview.antt =====
-- crates/server/src/routes/preview.rs: the nodes of a selection of the sources.
use sub_merge.Server.Store.Action.{
  answered, failed, Action, ◌>>=◌, ◌>>◌, answer, raise, select, raise_if,
}
use sub_merge.Base.{ℕ, ◌+◌, Bool, false, not, Option, none, some, List, [], ◌∷◌, ◌++◌, map}
use sub_merge.Base.Text.{Text, str}
use sub_merge.Base.Result.{Result, err, ok}
use sub_merge.Base.Tests.{ltb, leb, if◌then◌else◌}
use sub_merge.Base.Keys.{has}
use sub_merge.Base.Lists.{length}
use sub_merge.Base.Sort.{sort}
use sub_merge.Model.{protocol_as_str, ProxyNode}
use sub_merge.Server.ApiError.{Rejection, bad_request, invalid_query}
use sub_merge.Server.Service.{SourceError, Merged}
use sub_merge.Server.Sources.{source_ids, select_kind, is_kind}
use sub_merge.Server.Combineds.{find_name, member_ids}
use sub_merge.Server.Auth.Admin.{require_admin}
use sub_merge.Server.App.{App, Call}
use sub_merge.Server.Routes.Sources.{no_source}
use sub_merge.Server.Routes.Combineds.{no_combined}

pub record PreviewQuery : Type 0 where
  pub combined : Option Text
  pub kind : Option Text
  pub source_id : Option ℕ

-- `q.map_err(ApiError::from)?`
abbrev pub query : {A : Type 0} → Result Rejection A → Action A
query (ok q) = answer q
query (err r) = raise (invalid_query r)

abbrev pub is_some : {A : Type 0} → Option A → ℕ
is_some none = 0
is_some (some a) = 1

-- Whether more than one of the three is given.
unfoldable pub ambiguous : PreviewQuery → Bool
ambiguous q = ltb 1 (is_some q.kind + (is_some q.combined + is_some q.source_id))

abbrev pub bad_query_kind : Option Text → Bool
bad_query_kind none = false
bad_query_kind (some k) = not (is_kind k)

unfoldable pub of_combined : Text → Action (Option (List ℕ))
of_combined name st = elim (find_name name st.combineds) [
  | some c ↦ answered st (some (member_ids c.id st.members))
  | none ↦ failed st no_combined
]

unfoldable pub of_source : ℕ → Action (Option (List ℕ))
of_source id st =
    (if has id (source_ids st.sources) then answer (some (id ∷ [])) else raise no_source) st

-- The ids that are asked for: by combined subscription, by kind, by source, or all.
unfoldable pub selection : Option Text → Option Text → Option ℕ → Action (Option (List ℕ))
unfolding of_combined of_source sort
selection (some name) kind id = of_combined name
selection none (some k) id = select (λ st. some (sort leb (source_ids (select_kind k st.sources))))
selection none none (some id) = of_source id
selection none none none = answer none

pub record PreviewNode : Type 0 where
  pub name : Text
  pub protocol : Text
  pub server : Text
  pub port : ℕ

pub record PreviewResp : Type 0 where
  pub nodes : List PreviewNode
  pub errors : List Text
  pub total : ℕ

abbrev pub preview_node : ProxyNode → PreviewNode
preview_node n = record {
  name = n.name;
  protocol = protocol_as_str n.kind;
  server = n.server;
  port = n.port;
}

-- `format!("{}: {}", e.source_name, e.reason)`
abbrev pub error_line : SourceError → Text
error_line e = e.source_name ++ (str ": " ++ e.reason)

unfoldable pub preview_resp : Merged → PreviewResp
unfolding protocol_as_str
preview_resp m = record {
  nodes = map preview_node m.nodes;
  errors = map error_line m.errors;
  total = length m.nodes;
}

unfoldable pub preview_handler : App → Call → Result Rejection PreviewQuery → Action PreviewResp
preview_handler app call q = do
  require_admin app call
  p ← query q
  raise_if (ambiguous p) (bad_request (str "kind/combined/source_id are mutually exclusive"))
  raise_if (bad_query_kind p.kind) (bad_request (str "kind must be 'single' or 'remote'"))
  ids ← selection p.combined p.kind p.source_id
  select (λ st. preview_resp (call.merge ids st.sources))
