-- ===== src/Server/Router/Membership.antt =====
-- The members of a combined subscription behind the requests that change them.
use sub_merge.Server.Store.Action.{Outcome, answered, failed, aborted}
use sub_merge.Base.{
  ℕ, suc, ◌≤◌, ◌<◌, ◌≡◌, refl, sym, ◌∙◌, subst, inl, inr, true, false, not, ◌&&◌, some, List, [],
  ◌∷◌, ◌++◌, arith,
}
use sub_merge.Base.Text.{Text, eqb_iff}
use sub_merge.Base.Result.{ok}
use sub_merge.Base.Tests.{◌==◌, ==_iff, Bool-cases}
use sub_merge.Base.Lists.{All}
use sub_merge.Base.Keys.{has, Ascending, has-above, has-below, has-range}
use sub_merge.Base.Sort.{NoRepeat, Ascending-sort}
use sub_merge.Server.Sources.{SourceDto, source_ids}
use sub_merge.Server.Combineds.{
  Combined, Membership, combined_keys, find_name, taken, is_member, insert_members_sql, sources_of,
  member_ids,
}
use sub_merge.Server.Combineds.Names.{used, used-taken}
use sub_merge.Server.Combineds.Members.{
  Distinct, Refers, is_member-insert_members, has-sources_of, has-member_ids,
}
use sub_merge.Server.App.{App, Call, now_text}
use sub_merge.Server.Store.{Store}
use sub_merge.Server.Store.Valid.{WellFormed, Steps-WellFormed}
use sub_merge.Server.Routes.Sources.{unwrap_or}
use sub_merge.Server.Routes.Combineds.{
  CombinedDto, CreateCombined, name_exists, dto, insert_combined, create_combined,
}
use sub_merge.Server.Routes.Names.{valid_combined_name}
use sub_merge.Server.Router.Rules.{not-false}
use sub_merge.Server.Store.Step.{Step, Steps}
use sub_merge.Server.Router.Inversion.{
  continued-answered, pass-answered, admin-answered, constraint-answered,
}

sources_of-NoRepeat : (c : ℕ) (ms : List Membership) → Distinct ms → NoRepeat (sources_of c ms)
unfolding sources_of
sources_of-NoRepeat c [] h = tt
sources_of-NoRepeat c ((d, s) ∷ ms) (n, h) = elim (Bool-cases (d == c)) [
  | inl e ↦ rw (e) (
    has-sources_of c s ms ∙ subst (λ x. is_member x s ms ≡ false) ((==_iff d c).0 e) n,
    sources_of-NoRepeat c ms h,
  )
  | inr e ↦ rw (e) (sources_of-NoRepeat c ms h)
]

sources_of-range :
    (c last : ℕ) (cs ss : List ℕ) (ms : List Membership)
    → Ascending 0 ss last
    → Refers cs ss ms
    → All (λ x. (0 < x) × (x ≤ last)) (sources_of c ms)
unfolding sources_of
sources_of-range c last cs ss [] a h = tt
sources_of-range c last cs ss (m ∷ ms) a ((p, q), h) = elim (Bool-cases (m.0 == c)) [
  | inl e ↦ rw (e) (has-range m.1 0 last ss a q, sources_of-range c last cs ss ms a h)
  | inr e ↦ rw (e) (sources_of-range c last cs ss ms a h)
]

-- The ids of the members rise strictly, within the counter of the sources.
pub member_ids-Ascending :
    (c : ℕ) (st : Store) → WellFormed st → Ascending 0 (member_ids c st.members) st.last_source
unfolding member_ids
member_ids-Ascending c st w =
    Ascending-sort 0 st.last_source (sources_of c st.members) (omega arith)
      (sources_of-NoRepeat c st.members w.members.1)
      (sources_of-range c st.last_source (combined_keys st.combineds) (source_ids st.sources)
        st.members w.sources.keys w.members.0)

-- A combined subscription that is not there has no members.
is_member-absent :
    (c s : ℕ) (cs ss : List ℕ) (ms : List Membership)
    → Refers cs ss ms
    → has c cs ≡ false
    → is_member c s ms ≡ false
unfolding is_member
is_member-absent c s cs ss [] h n = refl
is_member-absent c s cs ss ((d, t) ∷ ms) ((p, q), h) n = elim (Bool-cases (d == c)) [
  | inl e ↦ absurd (true-ne-false (sym (subst (λ x. has x cs ≡ true) ((==_iff d c).0 e) p) ∙ n))
  | inr e ↦ rw (e) (is_member-absent c s cs ss ms h n)
]
  where
    true-ne-false : true ≡ false → ⊥
    true-ne-false x = ground arith

find_name-append :
    (name : Text) (cs : List Combined) (c : Combined)
    → used name cs ≡ false
    → c.name ≡ name
    → find_name name (cs ++ c ∷ []) ≡ some c
unfolding find_name used
find_name-append name [] c u e = rw ((eqb_iff c.name name).1 e)
find_name-append name (d ∷ cs) c u e = ground (arith, find_name-append name cs c)

-- The new row, and the store with it and its members.
abbrev created_row : Text → Text → Store → Combined
created_row name at st = record { id = suc st.last_combined; name = name; created_at = at }

abbrev with_combined : Text → Text → List ℕ → Store → Store
with_combined name at ids st = record st {
  combineds = st.combineds ++ created_row name at st ∷ [];
  last_combined = suc st.last_combined;
  members = insert_members_sql (suc st.last_combined) ids st.sources st.members;
}

insert_combined-answered :
    (name at : Text) (ids : List ℕ) (st final : Store) (c : Combined)
    → insert_combined name at ids st ≡ answered final c
    → (taken name 0 st.combineds ≡ false)
      × (with_combined name at ids st ≡ final)
      × (created_row name at st ≡ c)
unfolding insert_combined
insert_combined-answered name at ids st final c h =
    constraint-answered st (with_combined name at ids st) final (taken name 0 st.combineds)
      name_exists (created_row name at st) c h

-- What the ids of a request make of the members of a combined subscription that had none.
fresh_members :
    (id s : ℕ) (ids : List ℕ) (ss : List SourceDto) (ms : List Membership)
    → is_member id s ms ≡ false
    → has s (member_ids id (insert_members_sql id ids ss ms)) ≡ (has s (source_ids ss) && has s ids)
fresh_members id s ids ss ms n =
    has-member_ids id s (insert_members_sql id ids ss ms)
    ∙ (is_member-insert_members id s id ids ss ms ∙ ground arith)

-- How an answer ended, if it did.
abbrev pub Ends : {A : Type 0} → (Store → A → Type 0) → Outcome A → Type 0
Ends P (answered st a) = P st a
Ends P (failed st e) = ⊥
Ends P (aborted st) = ⊥

-- The answer lists the members of the combined subscription that stands under the name: those of
-- the ids that name a source, each once and in ascending order.
abbrev pub ListsMembers : Text → List ℕ → List SourceDto → Store → CombinedDto → Type 0
ListsMembers name ids ss final d =
    (c : Combined) × (find_name name final.combineds ≡ some c)
    × (c.id ≡ d.id)
    × (d.source_ids ≡ member_ids d.id final.members)
    × ((s : ℕ) → has s d.source_ids ≡ (has s (source_ids ss) && has s ids))
    × Ascending 0 d.source_ids final.last_source

inserted-ListsMembers :
    (name at : Text) (ids : List ℕ) (st : Store)
    → WellFormed st
    → valid_combined_name name ≡ true
    → taken name 0 st.combineds ≡ false
    → ListsMembers name ids st.sources (with_combined name at ids st) (
        dto
          (created_row name at st)
          (member_ids (created_row name at st).id (with_combined name at ids st).members))
inserted-ListsMembers name at ids st w v t =
    let id = suc st.last_combined in
    let absent =
      has-above id 0 st.last_combined (combined_keys st.combineds) w.combineds.keys (omega arith) in
    (
      created_row name at st,
      find_name-append name st.combineds (created_row name at st)
          (used-taken name 0 st.combineds t (
            has-below 0 0 st.last_combined (combined_keys st.combineds) w.combineds.keys
              (omega arith)))
          refl,
      refl,
      refl,
      λ s. fresh_members id s ids st.sources st.members (
          is_member-absent id s (combined_keys st.combineds) (source_ids st.sources) st.members
            w.members.0 absent),
      member_ids-Ascending id (with_combined name at ids st)
          (Steps-WellFormed w (Steps.next Steps.here (Step.inserts_combined name at ids v t))),
    )

-- A request that creates a combined subscription and is answered leaves it under its name, and its
-- members are the sources among the requested ids that are there, each once and in ascending order;
-- the answer lists them.
pub create_combined-ListsMembers :
    (app : App) (call : Call) (b : CreateCombined) (st final : Store) (d : CombinedDto)
    → WellFormed st
    → create_combined app call (ok b) st ≡ answered final d
    → ListsMembers b.name (unwrap_or b.source_ids []) st.sources final d
unfolding create_combined
create_combined-ListsMembers app call b st final d w h =
    let ids = unwrap_or b.source_ids [] in
    let at = now_text app call in
    let (ss, h1) = admin-answered app call st _ h in
    let s1 : Store = record st { sessions = ss } in
    let w1 : WellFormed s1 = Steps-WellFormed w (Steps.next Steps.here (Step.writes_sessions ss)) in
    let (v, h2) = pass-answered s1 (not (valid_combined_name b.name)) _ _ h1 in
    let (s2, c, e, h3) = continued-answered (insert_combined b.name at ids s1) _ h2 in
    let (t, q, r) = insert_combined-answered b.name at ids s1 s2 c e in
    let start = inserted-ListsMembers b.name at ids s1 w1 (not-false _ v) t in
    let row = created_row b.name at s1 in
    subst (Ends (ListsMembers b.name ids st.sources)) h3 (
      subst (λ y. ListsMembers b.name ids st.sources s2 (dto y (member_ids y.id s2.members))) r
        (subst (λ x. ListsMembers b.name ids st.sources x (dto row (member_ids row.id x.members))) q
          start))
