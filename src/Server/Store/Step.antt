-- ===== src/Server/Store/Step.antt =====
-- The statements that write to the database, each of them one step, under what the handlers have
-- checked before. The statements of requests that run at once may alternate in any way.
use sub_merge.Base.{ℕ, suc, ◌≡◌, true, false, List, [], ◌∷◌, ◌++◌}
use sub_merge.Base.Text.{Text}
use sub_merge.Base.Keys.{has}
use sub_merge.Server.Sessions.{Session}
use sub_merge.Server.Users.{User, insert_if_empty, set_hash, valid_username}
use sub_merge.Server.Sources.{new_source, set_source, drop_source, is_kind}
use sub_merge.Server.Combineds.{
  combined_keys, taken, set_name, drop_combined, drop_members_of, drop_members_in,
  insert_members_sql,
}
use sub_merge.Server.Store.{Store}
use sub_merge.Server.Routes.Names.{valid_combined_name}

pub data Step : Store → Store → Type 0 where
  -- Any statement on the sessions or on the settings.
  writes_sessions : {st : Store} (ss : List Session) → Step st (record st { sessions = ss })
  writes_settings :
      {st : Store} (rows : List (Text × Text)) → Step st (record st { settings = rows })
  inserts_user :
      {st : Store} (u : User)
      → valid_username u.username ≡ true
      → Step st (record st { users = (insert_if_empty u st.users).0 })
  sets_hash :
      {st : Store} (hash name : Text) → Step st (record st { users = set_hash hash name st.users })
  inserts_source :
      {st : Store} (url name kind at : Text)
      → is_kind kind ≡ true
      → Step st (record st {
        sources = st.sources ++ new_source st.last_source url name kind at ∷ [];
        last_source = suc st.last_source;
      })
  sets_source :
      {st : Store} (id : ℕ) (url name kind : Text)
      → is_kind kind ≡ true
      → Step st (record st { sources = set_source id url name kind st.sources })
  deletes_source :
      {st : Store} (id : ℕ)
      → Step st (record st {
        sources = drop_source id st.sources;
        members = drop_members_in id st.members;
      })
  -- The transaction of `create_combined`.
  inserts_combined :
      {st : Store} (name at : Text) (ids : List ℕ)
      → valid_combined_name name ≡ true
      → taken name 0 st.combineds ≡ false
      → Step st (record st {
        combineds =
            st.combineds ++ record { id = suc st.last_combined; name = name; created_at = at } ∷ [];
        last_combined = suc st.last_combined;
        members = insert_members_sql (suc st.last_combined) ids st.sources st.members;
      })
  renames_combined :
      {st : Store} (name : Text) (id : ℕ)
      → valid_combined_name name ≡ true
      → taken name id st.combineds ≡ false
      → Step st (record st { combineds = set_name name id st.combineds })
  -- The transaction of `update_combined`, in which the constraint of the foreign key holds.
  replaces_members :
      {st : Store} (id : ℕ) (ids : List ℕ)
      → has id (combined_keys st.combineds) ≡ true
      → Step st (record st {
        members = insert_members_sql id ids st.sources (drop_members_of id st.members);
      })
  deletes_combined :
      {st : Store} (id : ℕ)
      → Step st (record st {
        combineds = drop_combined id st.combineds;
        members = drop_members_of id st.members;
      })

-- Any number of statements.
pub data Steps (st : Store) : Store → Type 0 where
  here : Steps st st
  next : {mid end : Store} → Steps st mid → Step mid end → Steps st end
