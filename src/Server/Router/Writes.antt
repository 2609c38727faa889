-- ===== src/Server/Router/Writes.antt =====
-- Every request runs statements of the kinds of Server.Store.Step, whichever way it ends.
use sub_merge.Server.Store.Action.{after}
use sub_merge.Server.App.{App, Call}
use sub_merge.Server.Store.{Store}
use sub_merge.Server.Store.Step.{Steps}
use sub_merge.Server.Routes.Auth.{setup_status, setup_route, login, logout}
use sub_merge.Server.Routes.Config.{get_config, update_config}
use sub_merge.Server.Routes.ClashConfig.{get_clash_config, put_clash_config}
use sub_merge.Server.Routes.Sources.{
  list_sources, create_source, update_source, delete_source, refresh_source,
}
use sub_merge.Server.Routes.Combineds.{
  list_combineds, create_combined, update_combined, delete_combined,
}
use sub_merge.Server.Routes.Preview.{preview_handler}
use sub_merge.Server.Routes.Subscribe.{subscribe_handler}
use sub_merge.Server.Router.{
  Request, setup_status_request, setup_request, login_request, logout_request, get_config_request,
  update_config_request, get_clash_config_request, put_clash_config_request, list_sources_request,
  create_source_request, update_source_request, delete_source_request, refresh_source_request,
  list_combineds_request, create_combined_request, update_combined_request, delete_combined_request,
  preview_request, subscribe_request, no_content, username, token, config, clash_template, sources,
  created, source, refreshed, combineds, created_combined, combined, preview, subscription, handle,
}
use sub_merge.Server.Router.AccountWrites.{
  setup-Writes, login-Writes, logout-Writes, get_config-Writes, update_config-Writes,
  get_clash_config-Writes, put_clash_config-Writes,
}
use sub_merge.Server.Router.SourceWrites.{
  list_sources-Writes, create_source-Writes, update_source-Writes, refresh_source-Writes,
  list_combineds-Writes, preview-Writes,
}
use sub_merge.Server.Router.CombinedWrites.{
  delete_source-Writes, delete_combined-Writes, create_combined-Writes, update_combined-Writes,
}
use sub_merge.Server.Router.SubscribeWrites.{subscribe-Writes, shown-Writes}

-- Every request, whichever way it ends, with an answer, an error or a panic, has written by
-- statements of the kinds of `Step` alone, which keep the tables well formed.
pub handle-Steps :
    (app : App) (call : Call) (r : Request) (st : Store) → Steps st (after (handle app call r st))
unfolding handle setup_status
handle-Steps app call setup_status_request st = Steps.here
handle-Steps app call (setup_request b) st =
    shown-Writes st username (setup_route app call b st) (setup-Writes app call st b)
handle-Steps app call (login_request b) st =
    shown-Writes st token (login app call b st) (login-Writes app call st b)
handle-Steps app call logout_request st =
    shown-Writes st (λ u. no_content) (logout app call st) (logout-Writes app call st)
handle-Steps app call get_config_request st =
    shown-Writes st config (get_config app call st) (get_config-Writes app call st)
handle-Steps app call (update_config_request b) st =
    shown-Writes st config (update_config app call b st) (update_config-Writes app call st b)
handle-Steps app call get_clash_config_request st =
    shown-Writes st clash_template (get_clash_config app call st)
      (get_clash_config-Writes app call st)
handle-Steps app call (put_clash_config_request b) st =
    shown-Writes st clash_template (put_clash_config app call b st)
      (put_clash_config-Writes app call st b)
handle-Steps app call list_sources_request st =
    shown-Writes st sources (list_sources app call st) (list_sources-Writes app call st)
handle-Steps app call (create_source_request b) st =
    shown-Writes st created (create_source app call b st) (create_source-Writes app call st b)
handle-Steps app call (update_source_request p b) st =
    shown-Writes st source (update_source app call p b st) (update_source-Writes app call st p b)
handle-Steps app call (delete_source_request p) st =
    shown-Writes st (λ u. no_content) (delete_source app call p st)
      (delete_source-Writes app call st p)
handle-Steps app call (refresh_source_request p) st =
    shown-Writes st refreshed (refresh_source app call p st) (refresh_source-Writes app call st p)
handle-Steps app call list_combineds_request st =
    shown-Writes st combineds (list_combineds app call st) (list_combineds-Writes app call st)
handle-Steps app call (create_combined_request b) st =
    shown-Writes st created_combined (create_combined app call b st)
      (create_combined-Writes app call st b)
handle-Steps app call (update_combined_request p b) st =
    shown-Writes st combined (update_combined app call p b st)
      (update_combined-Writes app call st p b)
handle-Steps app call (delete_combined_request p) st =
    shown-Writes st (λ u. no_content) (delete_combined app call p st)
      (delete_combined-Writes app call st p)
handle-Steps app call (preview_request q) st =
    shown-Writes st preview (preview_handler app call q st) (preview-Writes app call st q)
handle-Steps app call (subscribe_request name q) st =
    shown-Writes st subscription (subscribe_handler app call name q st)
      (subscribe-Writes app call st name q)
