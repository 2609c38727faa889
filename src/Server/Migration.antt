-- ===== src/Server/Migration.antt =====
-- `init_db` of crates/server/src/db.rs: the tables that a new file gets, and what is made of an old
-- one. A table of an old file may lack a column; the cell that a row then has here is not read.
pub mod Rows
pub mod Migrated
use sub_merge.Base.{ℕ, Bool, true, false, Option, none, some, List, [], ◌++◌, map}
use sub_merge.Base.Tests.{if◌then◌else◌}
use sub_merge.Base.Lists.{take}
use sub_merge.Base.Text.{Text, str, is_empty, contains}
use sub_merge.Base.Result.{Result, err, ok, ◌>>=◌}
use sub_merge.Server.Sources.{SourceDto}
use sub_merge.Server.Sessions.{Session}
use sub_merge.Server.Users.{User}
use sub_merge.Server.Combineds.{Combined, Membership}
use sub_merge.Server.Store.{Store}

pub record SourceTable : Type 0 where
  pub has_kind : Bool
  pub has_enabled : Bool
  pub rows : List SourceDto

pub record SessionTable : Type 0 where
  pub has_last_used_at : Bool
  pub rows : List Session

-- A file, in which any table may be missing; the counters of AUTOINCREMENT are kept beside them.
pub record File : Type 0 where
  pub sources : Option SourceTable
  pub settings : Option (List (Text × Text))
  pub combineds : Option (List Combined)
  pub members : Option (List Membership)
  pub users : Option (List User)
  pub sessions : Option SessionTable
  pub last_source : ℕ
  pub last_combined : ℕ

-- `CREATE TABLE IF NOT EXISTS`
abbrev pub create_if_missing {ℓ} : {A : Type ℓ} → A → Option A → A
create_if_missing new none = new
create_if_missing new (some old) = old

abbrev pub new_sources : SourceTable
new_sources = record { has_kind = true; has_enabled = false; rows = [] }

abbrev pub new_sessions : SessionTable
new_sessions = record { has_last_used_at = true; rows = [] }

abbrev pub as_remote : SourceDto → SourceDto
as_remote s = record s { kind = str "remote" }

-- `ALTER TABLE sources ADD COLUMN kind TEXT NOT NULL DEFAULT 'remote'`, with SQLite's message.
unfoldable pub add_kind : SourceTable → Result Text SourceTable
add_kind t =
    if t.has_kind
    then err (str "duplicate column name: kind")
    else ok (record t { has_kind = true; rows = map as_remote t.rows })

-- `ALTER TABLE sources DROP COLUMN enabled`
unfoldable pub drop_enabled : SourceTable → Result Text SourceTable
drop_enabled t =
    if t.has_enabled
    then ok (record t { has_enabled = false })
    else err (str "no such column: \"enabled\"")

abbrev pub never_used : Session → Session
never_used s = record s { last_used_at = [] }

-- `ALTER TABLE sessions ADD COLUMN last_used_at TEXT NOT NULL DEFAULT ''`
unfoldable pub add_last_used_at : SessionTable → Result Text SessionTable
add_last_used_at t =
    if t.has_last_used_at
    then err (str "duplicate column name: last_used_at")
    else ok (record { has_last_used_at = true; rows = map never_used t.rows })

-- `if let Err(e) = … && !e.to_string().contains(…) { return Err(e) }`: the table behind it.
abbrev pub tolerate {ℓ} : {A : Type ℓ} → Text → A → Result Text A → Result Text A
tolerate message before (ok after) = ok after
tolerate message before (err e) = if contains message e then ok before else err e

-- `UPDATE sessions SET last_used_at = … WHERE last_used_at = ''`
abbrev pub backfill : Text → Session → Session
backfill now s = if is_empty s.last_used_at then record s { last_used_at = now } else s

-- `UPDATE sessions SET last_used_at = substr(last_used_at, 1, 19) || 'Z' WHERE last_used_at LIKE
-- '%.%'`
unfoldable pub cut_fraction : Session → Session
cut_fraction s =
    if contains (str ".") s.last_used_at
    then record s { last_used_at = take 19 s.last_used_at ++ str "Z" }
    else s

-- The tables behind the start, where `now` is `strftime('%Y-%m-%dT%H:%M:%SZ', 'now')`.
unfoldable pub init_db : Text → File → Result Text Store
unfolding add_kind drop_enabled add_last_used_at cut_fraction
init_db now file = do
  let old = create_if_missing new_sources file.sources
  kinds ← tolerate (str "duplicate column name") old (add_kind old)
  sources ← tolerate (str "no such column") kinds (drop_enabled kinds)
  let known = create_if_missing new_sessions file.sessions
  sessions ← tolerate (str "duplicate column name") known (add_last_used_at known)
  ok (record {
    users = create_if_missing [] file.users;
    sessions = map cut_fraction (map (backfill now) sessions.rows);
    settings = create_if_missing [] file.settings;
    sources = sources.rows;
    last_source = file.last_source;
    combineds = create_if_missing [] file.combineds;
    last_combined = file.last_combined;
    members = create_if_missing [] file.members;
  })

-- The file that holds a store, as the next start finds it.
abbrev pub file_of : Store → File
file_of st = record {
  sources = some (record { has_kind = true; has_enabled = false; rows = st.sources });
  settings = some st.settings;
  combineds = some st.combineds;
  members = some st.members;
  users = some st.users;
  sessions = some (record { has_last_used_at = true; rows = st.sessions });
  last_source = st.last_source;
  last_combined = st.last_combined;
}
