-- ===== src/Server/Router.antt =====
-- crates/server/src/routes/mod.rs: the requests that the router knows, with what axum has read of
-- them, and the handler of each.
use sub_merge.Server.Store.Action.{Action, ◌>>=◌, answer}
use sub_merge.Base.{ℕ, Bool, List}
use sub_merge.Base.Text.{Text}
use sub_merge.Base.Result.{Result}
use sub_merge.Server.ApiError.{Rejection}
use sub_merge.Server.Users.{SetupRequest}
use sub_merge.Server.Sources.{SourceDto}
use sub_merge.Server.App.{App, Call}
use sub_merge.Server.Routes.Auth.{LoginRequest, setup_status, setup_route, login, logout}
use sub_merge.Server.Routes.Config.{ConfigDto, UpdateConfig, get_config, update_config}
use sub_merge.Server.Routes.ClashConfig.{get_clash_config, put_clash_config}
use sub_merge.Server.Routes.Sources.{
  CreateSource, UpdateSource, list_sources, create_source, update_source, delete_source, Refreshed,
  refresh_source,
}
use sub_merge.Server.Routes.Combineds.{
  CombinedDto, CreateCombined, UpdateCombined, list_combineds, create_combined, update_combined,
  delete_combined,
}
use sub_merge.Server.Routes.Preview.{PreviewQuery, PreviewResp, preview_handler}
use sub_merge.Server.Routes.Subscribe.{SubscribeQuery, subscribe_handler}
pub mod Authorized
pub mod Rules
pub mod Inversion
pub mod Settings
pub mod Membership
pub mod Changes
pub mod Listing
pub mod Gateway
pub mod Logins
pub mod AccountWrites
pub mod SourceWrites
pub mod CombinedWrites
pub mod SubscribeWrites
pub mod Writes

pub data Request : Type 0 where
  setup_status_request : Request
  setup_request : Result Rejection SetupRequest → Request
  login_request : Result Rejection LoginRequest → Request
  logout_request : Request
  get_config_request : Request
  update_config_request : Result Rejection UpdateConfig → Request
  get_clash_config_request : Request
  put_clash_config_request : Result Rejection Text → Request
  list_sources_request : Request
  create_source_request : Result Rejection CreateSource → Request
  update_source_request : Result Rejection ℕ → Result Rejection UpdateSource → Request
  delete_source_request : Result Rejection ℕ → Request
  refresh_source_request : Result Rejection ℕ → Request
  list_combineds_request : Request
  create_combined_request : Result Rejection CreateCombined → Request
  update_combined_request : Result Rejection ℕ → Result Rejection UpdateCombined → Request
  delete_combined_request : Result Rejection ℕ → Request
  preview_request : Result Rejection PreviewQuery → Request
  subscribe_request : Text → Result Rejection SubscribeQuery → Request

-- The bodies of the answers.
pub data Answer : Type 0 where
  no_content : Answer
  needs_setup : Bool → Answer
  username : Text → Answer
  token : Text → Answer
  config : ConfigDto → Answer
  clash_template : Text → Answer
  sources : List SourceDto → Answer
  created : SourceDto → Answer
  source : SourceDto → Answer
  refreshed : Refreshed → Answer
  combineds : List CombinedDto → Answer
  created_combined : CombinedDto → Answer
  combined : CombinedDto → Answer
  preview : PreviewResp → Answer
  subscription : Text → Answer

abbrev pub shown : {A : Type 0} → (A → Answer) → Action A → Action Answer
shown f m = m >>= (λ a. answer (f a))

unfoldable pub handle : App → Call → Request → Action Answer
handle app call setup_status_request = shown needs_setup setup_status
handle app call (setup_request b) = shown username (setup_route app call b)
handle app call (login_request b) = shown token (login app call b)
handle app call logout_request = shown (λ u. no_content) (logout app call)
handle app call get_config_request = shown config (get_config app call)
handle app call (update_config_request b) = shown config (update_config app call b)
handle app call get_clash_config_request = shown clash_template (get_clash_config app call)
handle app call (put_clash_config_request b) = shown clash_template (put_clash_config app call b)
handle app call list_sources_request = shown sources (list_sources app call)
handle app call (create_source_request b) = shown created (create_source app call b)
handle app call (update_source_request p b) = shown source (update_source app call p b)
handle app call (delete_source_request p) = shown (λ u. no_content) (delete_source app call p)
handle app call (refresh_source_request p) = shown refreshed (refresh_source app call p)
handle app call list_combineds_request = shown combineds (list_combineds app call)
handle app call (create_combined_request b) = shown created_combined (create_combined app call b)
handle app call (update_combined_request p b) = shown combined (update_combined app call p b)
handle app call (delete_combined_request p) = shown (λ u. no_content) (delete_combined app call p)
handle app call (preview_request q) = shown preview (preview_handler app call q)
handle app call (subscribe_request name q) = shown subscription (subscribe_handler app call name q)
