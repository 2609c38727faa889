-- ===== src/Server/Migration/Migrated.antt =====
-- What `init_db` makes of an old file, and of the file that it left.
use sub_merge.Base.{
  ◌≡◌, refl, ap, ◌∙◌, Bool, true, false, Option, none, some, List, [], ◌++◌, map, arith,
}
use sub_merge.Base.Lists.{take, All}
use sub_merge.Base.Text.{Text, str, is_empty, starts_with, contains}
use sub_merge.Base.Result.{ok}
use sub_merge.Server.Sources.{SourceDto}
use sub_merge.Server.Sessions.{Session, find_session}
use sub_merge.Server.Store.{Store}
use sub_merge.Server.Migration.{
  SourceTable, SessionTable, File, create_if_missing, new_sources, new_sessions, add_kind,
  drop_enabled, add_last_used_at, tolerate, init_db, file_of,
}
use sub_merge.Server.Migration.Rows.{
  has_point, IsSettled, IsDated, IsStamp, sessions_of, sources_of, rows_of, renewed,
  renewed-IsSettled, renewed-never_used, renewed-settled, same_hashes, same_created,
  find_session-renewed, find_session-cut,
}

-- What a start makes of a file: sources without a kind are remote; the sessions keep their tokens,
-- their moments of creation and their order; their last uses are settled, a settled row is as it
-- was, a fraction of a second is cut off, and where the column was lacking all sessions are
-- renewed. All else is as it was, a missing table being empty.
pub record Migrates (now : Text) (file : File) (st : Store) : Type 0 where
  pub sources : st.sources ≡ sources_of file.sources
  pub hashes :
      map (λ s. s.token_hash) st.sessions ≡ map (λ s. s.token_hash) (sessions_of file.sessions)
  pub created :
      map (λ s. s.created_at) st.sessions ≡ map (λ s. s.created_at) (sessions_of file.sessions)
  pub settled : All IsSettled st.sessions
  pub in_place :
      (hash : Text) (s : Session)
      → find_session hash (sessions_of file.sessions) ≡ some s
      → IsSettled s
      → find_session hash st.sessions ≡ some s
  pub cut :
      (hash : Text) (s : Session)
      → find_session hash (sessions_of file.sessions) ≡ some s
      → is_empty s.last_used_at ≡ false
      → has_point s.last_used_at ≡ true
      → find_session hash st.sessions
        ≡ some (record s { last_used_at = take 19 s.last_used_at ++ str "Z" })
  pub all_renewed :
      (t : SessionTable)
      → file.sessions ≡ some t
      → t.has_last_used_at ≡ false
      → All (λ s. s.last_used_at ≡ now) st.sessions
  pub users : st.users ≡ rows_of file.users
  pub settings : st.settings ≡ rows_of file.settings
  pub combineds : st.combineds ≡ rows_of file.combineds
  pub members : st.members ≡ rows_of file.members
  pub counters : (st.last_source ≡ file.last_source) × (st.last_combined ≡ file.last_combined)

missing-rows_of : {A : Type 0} (o : Option (List A)) → create_if_missing [] o ≡ rows_of o
missing-rows_of none = refl
missing-rows_of (some rows) = refl

-- The tables behind the start.
abbrev migrated : Text → File → Store
migrated now file = record {
  users = create_if_missing [] file.users;
  sessions = renewed now (sessions_of file.sessions);
  settings = create_if_missing [] file.settings;
  sources = sources_of file.sources;
  last_source = file.last_source;
  combineds = create_if_missing [] file.combineds;
  last_combined = file.last_combined;
  members = create_if_missing [] file.members;
}

-- Both messages of SQLite are tolerated, so that no error is left.
kinds_tolerated :
    (o : Option SourceTable)
    → let old = create_if_missing new_sources o in
      (kinds after : SourceTable) × (tolerate (str "duplicate column name") old (add_kind old)
        ≡ ok kinds)
      × (tolerate (str "no such column") kinds (drop_enabled kinds) ≡ ok after)
      × (after.rows ≡ sources_of o)
unfolding add_kind drop_enabled contains starts_with
kinds_tolerated none = (new_sources, new_sources, refl, refl, refl)
kinds_tolerated (some t) = by_flags t.has_kind t.has_enabled t.rows
  where
    by_flags :
        (k e : Bool) (rows : List SourceDto)
        → let old : SourceTable = record { has_kind = k; has_enabled = e; rows = rows } in
          (kinds after : SourceTable) × (tolerate (str "duplicate column name") old (add_kind old)
            ≡ ok kinds)
          × (tolerate (str "no such column") kinds (drop_enabled kinds) ≡ ok after)
          × (after.rows ≡ sources_of (some old))
    by_flags true true rows = (_, _, refl, refl, refl)
    by_flags true false rows = (_, _, refl, refl, refl)
    by_flags false true rows = (_, _, refl, refl, refl)
    by_flags false false rows = (_, _, refl, refl, refl)

uses_tolerated :
    (o : Option SessionTable)
    → let known = create_if_missing new_sessions o in
      (after : SessionTable) × (tolerate
          (str "duplicate column name")
          known
          (add_last_used_at known)
        ≡ ok after)
      × (after.rows ≡ sessions_of o)
unfolding add_last_used_at contains starts_with
uses_tolerated none = (new_sessions, refl, refl)
uses_tolerated (some t) = by_flag t.has_last_used_at t.rows
  where
    by_flag :
        (u : Bool) (rows : List Session)
        → let known : SessionTable = record { has_last_used_at = u; rows = rows } in
          (after : SessionTable) × (tolerate
              (str "duplicate column name")
              known
              (add_last_used_at known)
            ≡ ok after)
          × (after.rows ≡ sessions_of (some known))
    by_flag true rows = (_, refl, refl)
    by_flag false rows = (_, refl, refl)

init_db-migrated : (now : Text) (file : File) → init_db now file ≡ ok (migrated now file)
unfolding init_db
init_db-migrated now file =
    let (kinds, after, e1, e2, r) = kinds_tolerated file.sources in
    let (uses, e3, r') = uses_tolerated file.sessions in
    rw (e1) (rw (e2) (rw (e3) (rw (r, r') refl)))

migrated-again :
    (later : Text) (st : Store) → All IsSettled st.sessions → migrated later (file_of st) ≡ st
migrated-again later st h =
    ap (λ ss. record st { sessions = ss }) (renewed-settled later st.sessions h)

sessions-renewed :
    (now : Text)
    → IsStamp now
    → (o : Option SessionTable) (t : SessionTable) → o ≡ some t
    → t.has_last_used_at ≡ false
    → All (λ s. s.last_used_at ≡ now) (renewed now (sessions_of o))
sessions-renewed now stamp none t e n = ground arith
sessions-renewed now stamp (some t') t e n =
    rw (ap has_column e ∙ n) (renewed-never_used now stamp t'.rows)
  where
    has_column : Option SessionTable → Bool
    has_column none = true
    has_column (some x) = x.has_last_used_at

-- At a time that SQLite prints, and where a fraction of a second in a last use stands behind the 19
-- characters of date and time, the start migrates every file, whichever tables and columns it
-- lacks, without an error, keeping every row of every table, and the next start, whenever it is, leaves the tables as they are.
pub init_db-Migrates :
    (now later : Text) (file : File)
    → IsStamp now
    → All IsDated (sessions_of file.sessions)
    → (st : Store) × (init_db now file ≡ ok st)
      × Migrates now file st
      × (init_db later (file_of st) ≡ ok st)
init_db-Migrates now later file stamp dated =
    let rows = sessions_of file.sessions in
    let settled = renewed-IsSettled now stamp rows dated in
    (
      migrated now file,
      init_db-migrated now file,
      record {
        sources = refl;
        hashes = same_hashes now rows;
        created = same_created now rows;
        settled = settled;
        in_place = λ hash s f h. find_session-renewed now hash rows s f h;
        cut = λ hash s f e p. find_session-cut now hash rows s f e p;
        all_renewed = sessions-renewed now stamp file.sessions;
        users = missing-rows_of file.users;
        settings = missing-rows_of file.settings;
        combineds = missing-rows_of file.combineds;
        members = missing-rows_of file.members;
        counters = (refl, refl);
      },
      init_db-migrated later (file_of (migrated now file))
          ∙ ap ok (migrated-again later (migrated now file) settled),
    )
