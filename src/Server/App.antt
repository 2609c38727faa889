-- ===== src/Server/App.antt =====
-- crates/server/src/state.rs and config.rs, as far as the handlers read them, and what a request
-- brings besides its body.
use sub_merge.Base.{ℕ, inr, Option, List}
use sub_merge.Base.Text.{Text}
use sub_merge.Crates.{Crates}
use sub_merge.Server.Fetch.{Client}
use sub_merge.Server.Service.{Merged, Merges}
use sub_merge.Server.Sessions.{Clockwork}
use sub_merge.Server.Users.{Argon}
use sub_merge.Server.Sources.{SourceDto, select_rows}
use sub_merge.Server.Auth.{Headers}

-- The crates that the handlers call, the HTTP client, and two numbers of `AppConfig`.
pub record App : Type 0 where
  pub crates : Crates
  pub clock : Clockwork
  pub argon : Argon
  pub client : Client
  pub session_ttl_days : ℕ
  pub max_nodes : ℕ

-- The moment of the request, its headers, the random token that `gen_token` would give, and what
-- `fetch_and_merge` gives on ids and the rows of the sources.
pub record Call : Type 0 where
  pub now : ℕ
  pub headers : Headers
  pub fresh_token : Text
  pub merge : Option (List ℕ) → List SourceDto → Merged

-- What is merged is an outcome of `fetch_and_merge` on the rows that the ids select.
abbrev pub MergesSources : App → Call → Type 0
MergesSources app call =
    (ids : Option (List ℕ)) (ss : List SourceDto)
    → Merges app.crates app.client app.max_nodes ids (inr (select_rows ids ss)) (call.merge ids ss)

-- `Utc::now().to_rfc3339()`
abbrev pub now_text : App → Call → Text
now_text app call = app.clock.to_rfc3339 call.now
