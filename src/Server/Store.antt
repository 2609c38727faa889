-- ===== src/Server/Store.antt =====
-- crates/server/src/db.rs: the tables of the database together, and the table of settings.
use sub_merge.Base.{ℕ, ◌≡◌, refl, Option, none, some, List, [], ◌∷◌, arith}
use sub_merge.Base.Tests.{if◌then◌else◌}
use sub_merge.Base.Text.{Text, eqb, eqb_iff}
use sub_merge.Server.Sessions.{Session}
use sub_merge.Server.Users.{User}
use sub_merge.Server.Sources.{SourceDto}
use sub_merge.Server.Combineds.{Combined, Membership}
pub mod Action
pub mod Step
pub mod Rows
pub mod Valid

-- `last_source` and `last_combined` are the counters of AUTOINCREMENT.
pub record Store : Type 0 where
  pub users : List User
  pub sessions : List Session
  pub settings : List (Text × Text)
  pub sources : List SourceDto
  pub last_source : ℕ
  pub combineds : List Combined
  pub last_combined : ℕ
  pub members : List Membership

-- The tables that `init_db` creates on a new file.
abbrev pub empty_store : Store
empty_store = record {
  users = [];
  sessions = [];
  settings = [];
  sources = [];
  last_source = 0;
  combineds = [];
  last_combined = 0;
  members = [];
}

-- `SELECT value FROM settings WHERE key = ?`
unfoldable pub get_setting : Text → List (Text × Text) → Option Text
get_setting key [] = none
get_setting key ((k, v) ∷ rows) = if eqb k key then some v else get_setting key rows

-- `INSERT … ON CONFLICT(key) DO UPDATE SET value = excluded.value`
unfoldable pub set_setting : Text → Text → List (Text × Text) → List (Text × Text)
set_setting key value [] = (key, value) ∷ []
set_setting key value ((k, v) ∷ rows) =
    let rest = set_setting key value rows in if eqb k key then (k, value) ∷ rows else (k, v) ∷ rest

pub get_setting-set_setting :
    (key k value : Text) (rows : List (Text × Text))
    → get_setting k (set_setting key value rows)
      ≡ (if eqb key k then some value else get_setting k rows)
unfolding get_setting set_setting
get_setting-set_setting key k value [] = refl
get_setting-set_setting key k value ((i, v) ∷ rows) =
    ground
      (arith, eqb_iff i key, eqb_iff i k, eqb_iff key k, get_setting-set_setting key k value rows)
