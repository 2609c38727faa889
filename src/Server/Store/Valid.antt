-- ===== src/Server/Store/Valid.antt =====
-- What holds of the tables after any statements, in any order.
use sub_merge.Base.{ℕ, suc, ◌≤◌, ◌≡◌, sym, subst, true, not, List, [], ◌∷◌, ◌++◌, arith}
use sub_merge.Base.Tests.{◌==◌}
use sub_merge.Base.Lists.{length, All, All-append}
use sub_merge.Base.Keys.{
  has, Ascending, Ascending-filter, Ascending-append, map-filter, map-append_one, All-filter,
}
use sub_merge.Server.Users.{User, valid_username}
use sub_merge.Server.Sources.{SourceDto, source_ids, new_source, is_kind, source_ids-set_source}
use sub_merge.Server.Combineds.{Combined, Membership, combined_keys, drop_members_of}
use sub_merge.Server.Combineds.Names.{
  NamesDistinct, combined_keys-set_name, NamesDistinct-append, NamesDistinct-filter,
  NamesDistinct-set_name, All-set_name,
}
use sub_merge.Server.Combineds.Members.{
  Distinct, Refers, Distinct-filter, Refers-insert_members, Distinct-insert_members,
}
use sub_merge.Server.Store.{Store, empty_store}
use sub_merge.Server.Store.Step.{Step, Steps}
use sub_merge.Server.Routes.Names.{valid_combined_name}
use sub_merge.Server.Store.Rows.{
  insert_if_empty-one, insert_if_empty-names, length-set_hash, set_hash-names, set_source-kinds,
  Refers-weaken, has-append_one, has-last, Refers-drop_source, Refers-drop_combined,
}

-- The members refer to rows that are there, as the foreign keys want, and no member stands twice.
abbrev pub MembersOf : List Combined → List SourceDto → List Membership → Type 0
MembersOf cs ss ms = Refers (combined_keys cs) (source_ids ss) ms × Distinct ms

pub record ValidUsers (us : List User) : Type 0 where
  pub at_most_one : length us ≤ 1
  pub valid_names : All (λ u. valid_username u.username ≡ true) us

-- The ids rise from 1 to at most the counter.
pub record ValidSources (ss : List SourceDto) (last : ℕ) : Type 0 where
  pub keys : Ascending 0 (source_ids ss) last
  pub kinds : All (λ s. is_kind s.kind ≡ true) ss

pub record ValidCombineds (cs : List Combined) (last : ℕ) : Type 0 where
  pub keys : Ascending 0 (combined_keys cs) last
  pub valid_names : All (λ c. valid_combined_name c.name ≡ true) cs
  pub distinct_names : NamesDistinct cs

pub record WellFormed (st : Store) : Type 0 where
  pub users : ValidUsers st.users
  pub sources : ValidSources st.sources st.last_source
  pub combineds : ValidCombineds st.combineds st.last_combined
  pub members : MembersOf st.combineds st.sources st.members

Step-WellFormed : {st end : Store} → Step st end → WellFormed st → WellFormed end
Step-WellFormed (Step.writes_sessions ss) w = record {
  users = w.users;
  sources = w.sources;
  combineds = w.combineds;
  members = w.members;
}
Step-WellFormed (Step.writes_settings rows) w = record {
  users = w.users;
  sources = w.sources;
  combineds = w.combineds;
  members = w.members;
}
Step-WellFormed (Step.inserts_user {st} u v) w = record {
  users = record {
    at_most_one = insert_if_empty-one u st.users w.users.at_most_one;
    valid_names = insert_if_empty-names u st.users v w.users.valid_names;
  };
  sources = w.sources;
  combineds = w.combineds;
  members = w.members;
}
Step-WellFormed (Step.sets_hash {st} hash name) w = record {
  users = record {
    at_most_one = rw (length-set_hash hash name st.users) w.users.at_most_one;
    valid_names =
        set_hash-names (λ t. valid_username t ≡ true) hash name st.users w.users.valid_names;
  };
  sources = w.sources;
  combineds = w.combineds;
  members = w.members;
}
Step-WellFormed (Step.inserts_source {st} url name kind at k) w =
    let s = new_source st.last_source url name kind at in
    let keys_eq = map-append_one (λ s. s.id) st.sources s in
    record {
      users = w.users;
      sources = record {
        keys =
            rw (keys_eq) (Ascending-append 0 st.last_source (source_ids st.sources) w.sources.keys);
        kinds = All-append (λ s. is_kind s.kind ≡ true) st.sources (s ∷ []) w.sources.kinds (k, tt);
      };
      combineds = w.combineds;
      members = (
        Refers-weaken (combined_keys st.combineds) (combined_keys st.combineds)
            (source_ids st.sources) (source_ids (st.sources ++ s ∷ [])) st.members (λ n h. h)
            (λ n h. rw (keys_eq) (has-append_one n (suc st.last_source) (source_ids st.sources) h))
            w.members.0,
        w.members.1,
      );
    }
Step-WellFormed (Step.sets_source {st} id url name kind k) w =
    let ids_eq = source_ids-set_source id url name kind st.sources in
    record {
      users = w.users;
      sources = record {
        keys = rw (ids_eq) w.sources.keys;
        kinds = set_source-kinds id url name kind st.sources k w.sources.kinds;
      };
      combineds = w.combineds;
      members = (
        subst (λ ids. Refers (combined_keys st.combineds) ids st.members) (sym ids_eq) w.members.0,
        w.members.1,
      );
    }
Step-WellFormed (Step.deletes_source {st} id) w = record {
  users = w.users;
  sources = record {
    keys = rw (map-filter (λ s. s.id) (λ k. not (k == id)) st.sources) (
        Ascending-filter 0 st.last_source (λ k. not (k == id)) (source_ids st.sources)
          w.sources.keys);
    kinds =
        All-filter (λ s. is_kind s.kind ≡ true) (λ s. not (s.id == id)) st.sources w.sources.kinds;
  };
  combineds = w.combineds;
  members = (
    Refers-drop_source (combined_keys st.combineds) id st.sources st.members w.members.0,
    Distinct-filter (λ m. not (m.1 == id)) st.members w.members.1,
  );
}
Step-WellFormed (Step.inserts_combined {st} name at ids v t) w =
    let id = suc st.last_combined in
    let c : Combined = record { id = id; name = name; created_at = at } in
    let keys_eq = map-append_one (λ c. c.id) st.combineds c in
    record {
      users = w.users;
      sources = w.sources;
      combineds = record {
        keys =
            rw (keys_eq)
              (Ascending-append 0 st.last_combined (combined_keys st.combineds) w.combineds.keys);
        valid_names =
            All-append (λ c. valid_combined_name c.name ≡ true) st.combineds (c ∷ [])
              w.combineds.valid_names (v, tt);
        distinct_names =
            NamesDistinct-append st.combineds c st.last_combined w.combineds.keys
              w.combineds.distinct_names t;
      };
      members = (
        Refers-insert_members (combined_keys (st.combineds ++ c ∷ [])) ids st.sources id st.members
            (rw (keys_eq) (has-last id (combined_keys st.combineds)))
            (Refers-weaken (combined_keys st.combineds) (combined_keys (st.combineds ++ c ∷ []))
              (source_ids st.sources) (source_ids st.sources) st.members
              (λ n h. rw (keys_eq) (has-append_one n id (combined_keys st.combineds) h)) (λ n h. h)
              w.members.0),
        Distinct-insert_members ids st.sources id st.members w.members.1,
      );
    }
Step-WellFormed (Step.renames_combined {st} name id v t) w =
    let keys_eq = combined_keys-set_name name id st.combineds in
    record {
      users = w.users;
      sources = w.sources;
      combineds = record {
        keys = rw (keys_eq) w.combineds.keys;
        valid_names =
            All-set_name (λ n. valid_combined_name n ≡ true) name id st.combineds v
              w.combineds.valid_names;
        distinct_names =
            NamesDistinct-set_name name id 0 st.last_combined st.combineds w.combineds.keys
              w.combineds.distinct_names t;
      };
      members = (
        subst (λ ids. Refers ids (source_ids st.sources) st.members) (sym keys_eq) w.members.0,
        w.members.1,
      );
    }
Step-WellFormed (Step.replaces_members {st} id ids h) w = record {
  users = w.users;
  sources = w.sources;
  combineds = w.combineds;
  members = (
    Refers-insert_members (combined_keys st.combineds) ids st.sources id
        (drop_members_of id st.members) h
        (All-filter
          (λ m.
            (has m.0 (combined_keys st.combineds) ≡ true)
            × (has m.1 (source_ids st.sources) ≡ true))
          (λ m. not (m.0 == id)) st.members w.members.0),
    Distinct-insert_members ids st.sources id (drop_members_of id st.members)
        (Distinct-filter (λ m. not (m.0 == id)) st.members w.members.1),
  );
}
Step-WellFormed (Step.deletes_combined {st} id) w = record {
  users = w.users;
  sources = w.sources;
  combineds = record {
    keys = rw (map-filter (λ c. c.id) (λ k. not (k == id)) st.combineds) (
        Ascending-filter 0 st.last_combined (λ k. not (k == id)) (combined_keys st.combineds)
          w.combineds.keys);
    valid_names =
        All-filter (λ c. valid_combined_name c.name ≡ true) (λ c. not (c.id == id)) st.combineds
          w.combineds.valid_names;
    distinct_names =
        NamesDistinct-filter (λ c. not (c.id == id)) st.combineds w.combineds.distinct_names;
  };
  members = (
    Refers-drop_combined id st.combineds (source_ids st.sources) st.members w.members.0,
    Distinct-filter (λ m. not (m.0 == id)) st.members w.members.1,
  );
}

pub empty_store-WellFormed : WellFormed empty_store
empty_store-WellFormed = record {
  users = record { at_most_one = omega arith; valid_names = tt };
  sources = record { keys = omega arith; kinds = tt };
  combineds = record { keys = omega arith; valid_names = tt; distinct_names = tt };
  members = (tt, tt);
}

-- Whatever statements the handlers have run on tables that are well formed, in any order and of any
-- requests that run at once, there is at most one user; ids rise and stay within their counter; a
-- source is "single" or "remote"; names of combined subscriptions are safe in a path and pairwise
-- distinct; and a member refers to rows that are there and stands once.
pub Steps-WellFormed : {st end : Store} → WellFormed st → Steps st end → WellFormed end
Steps-WellFormed w Steps.here = w
Steps-WellFormed w (Steps.next r s) = Step-WellFormed s (Steps-WellFormed w r)
