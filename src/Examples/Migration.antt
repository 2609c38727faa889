-- ===== src/Examples/Migration.antt =====
-- An old file with sources that have no kind, and a session with a fraction of a second.
use sub_merge.Base.{◌≡◌, refl, true, false, none, some, [], ◌∷◌}
use sub_merge.Base.Text.{Text, str, starts_with, contains}
use sub_merge.Base.Result.{ok}
use sub_merge.Server.Sources.{SourceDto}
use sub_merge.Server.Sessions.{Session}
use sub_merge.Server.Store.{Store}
use sub_merge.Server.Migration.{File, init_db, file_of}
use sub_merge.Server.Migration.Migrated.{Migrates, init_db-Migrates}

abbrev stamp : Text
stamp = str "2026-08-07T14:25:09Z"

abbrev old_source : SourceDto
old_source = record { id = 1; url = str "http://a"; name = str "a"; kind = []; created_at = stamp }

abbrev old_session : Session
old_session = record {
  token_hash = str "h";
  created_at = stamp;
  last_used_at = str "2026-08-07T14:25:09.123+00:00";
}

abbrev old_file : File
old_file = record {
  sources = some (record { has_kind = false; has_enabled = true; rows = old_source ∷ [] });
  settings = none;
  combineds = none;
  members = none;
  users = none;
  sessions = some (record { has_last_used_at = true; rows = old_session ∷ [] });
  last_source = 1;
  last_combined = 0;
}

init_db-Migrates_example :
    (st : Store) × (init_db stamp old_file ≡ ok st)
    × Migrates stamp old_file st
    × (init_db (str "2027-01-01T00:00:00Z") (file_of st) ≡ ok st)
unfolding contains starts_with
init_db-Migrates_example =
    init_db-Migrates stamp (str "2027-01-01T00:00:00Z") old_file
      (record { ne-nil = refl; no_point = refl }) (refl, tt)
