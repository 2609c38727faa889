-- ===== src/Server/Router/Changes.antt =====
-- What a deletion, or a new list of members, does to the combined subscriptions.
use sub_merge.Server.Store.Action.{answered, raise_if, after}
use sub_merge.Base.{
  ℕ, ◌≡◌, refl, sym, ap, ◌∙◌, subst, inl, inr, Bool, true, false, not, ◌&&◌, ◌||◌, Option, none,
  some, List, [], ◌∷◌, arith,
}
use sub_merge.Base.Text.{Text}
use sub_merge.Base.Result.{ok}
use sub_merge.Base.Tests.{◌==◌, ==_iff, Bool-cases}
use sub_merge.Base.Keys.{filter, has}
use sub_merge.Server.Sources.{source_ids, drop_source, has-drop_source}
use sub_merge.Server.Combineds.{
  Membership, find_combined, drop_members_of, drop_members_in, is_member, insert_members_sql,
  member_ids,
}
use sub_merge.Server.Combineds.Members.{is_member-insert_members, has-member_ids}
use sub_merge.Server.App.{App, Call}
use sub_merge.Server.Store.{Store}
use sub_merge.Server.Routes.Sources.{no_source, delete_source}
use sub_merge.Server.Routes.Combineds.{
  CombinedDto, UpdateCombined, rename_combined, update_name, replace_members, update_combined,
}
use sub_merge.Server.Router.Inversion.{continued-answered, found-answered, admin-answered}
use sub_merge.Server.Router.Membership.{Ends}

is_member-drop_in :
    (c s id : ℕ) (ms : List Membership)
    → is_member c s (drop_members_in id ms) ≡ (is_member c s ms && not (s == id))
unfolding is_member filter
is_member-drop_in c s id [] = refl
is_member-drop_in c s id ((d, t) ∷ ms) = elim (Bool-cases (t == id)) [
  | inl e ↦ rw (e) (is_member-drop_in c s id ms ∙ ground (arith, ==_iff t id))
  | inr e ↦ rw (e) (ground (arith, is_member-drop_in c s id ms))
]

is_member-drop_of :
    (c s id : ℕ) (ms : List Membership)
    → is_member c s (drop_members_of id ms) ≡ (is_member c s ms && not (c == id))
unfolding is_member filter
is_member-drop_of c s id [] = refl
is_member-drop_of c s id ((d, t) ∷ ms) = elim (Bool-cases (d == id)) [
  | inl e ↦ rw (e) (is_member-drop_of c s id ms ∙ ground arith)
  | inr e ↦ rw (e) (ground (arith, is_member-drop_of c s id ms))
]

-- What a deleted source leaves.
abbrev pub ForgetsSource : ℕ → Store → Store → Type 0
ForgetsSource id st final =
    (has id (source_ids st.sources) ≡ true)
    × ((n : ℕ)
        → has n (source_ids final.sources) ≡ (has n (source_ids st.sources) && not (n == id)))
    × ((c s : ℕ)
        → has s (member_ids c final.members) ≡ (has s (member_ids c st.members) && not (s == id)))
    × (final.combineds ≡ st.combineds)

abbrev without_source : ℕ → Store → Store
without_source id st = record st {
  sources = drop_source id st.sources;
  members = drop_members_in id st.members;
}

without_source-forgets :
    (id : ℕ) (st : Store)
    → not (has id (source_ids st.sources)) ≡ false
    → ForgetsSource id st (without_source id st)
without_source-forgets id st h = (
  ground arith,
  λ n. has-drop_source n id st.sources,
  λ c s.
      has-member_ids c s (drop_members_in id st.members)
      ∙ (is_member-drop_in c s id st.members
          ∙ ap (λ b. b && not (s == id)) (sym (has-member_ids c s st.members))),
  refl,
)

-- A deletion of a source that is answered found the source, and takes it, and nothing else, out of
-- the table and out of the members of every combined subscription.
pub delete_source-ForgetsSource :
    (app : App) (call : Call) (id : ℕ) (st final : Store) (u : Unit {0})
    → delete_source app call (ok id) st ≡ answered final u
    → ForgetsSource id st final
unfolding delete_source
delete_source-ForgetsSource app call id st final u h =
    let (ss, h1) = admin-answered app call st _ h in
    let s1 : Store = record st { sessions = ss } in
    let (there, q) = checked (without_source id s1) (not (has id (source_ids st.sources))) h1 in
    subst (ForgetsSource id st) q (without_source-forgets id s1 there)
  where
    checked :
        (s : Store) (c : Bool)
        → raise_if c no_source s ≡ answered final u
        → (c ≡ false) × (s ≡ final)
    checked s true h = ground arith
    checked s false h = (refl, ap after h)

-- The members of one combined subscription are those of the ids that name a source; those of every
-- other are as before.
abbrev pub HasMembers : ℕ → List ℕ → Store → Store → CombinedDto → Type 0
HasMembers id ids st final d =
    (d.id ≡ id)
    × ((s : ℕ) → has s d.source_ids ≡ (has s (source_ids st.sources) && has s ids))
    × (d.source_ids ≡ member_ids id final.members)
    × ((c s : ℕ)
        → (c == id) ≡ false
        → has s (member_ids c final.members) ≡ has s (member_ids c st.members))

abbrev replaced : ℕ → List ℕ → Store → Store
replaced id ids st = record st {
  members = insert_members_sql id ids st.sources (drop_members_of id st.members);
}

replaced-members :
    (id : ℕ) (ids : List ℕ) (st : Store) (c s : ℕ)
    → has s (member_ids c (replaced id ids st).members) ≡ (
        (has s (member_ids c st.members) && not (c == id))
        || (id == c && (has s (source_ids st.sources) && has s ids)))
replaced-members id ids st c s =
    has-member_ids c s (replaced id ids st).members
    ∙ (is_member-insert_members c s id ids st.sources (drop_members_of id st.members)
        ∙ ap (λ b. b || (id == c && (has s (source_ids st.sources) && has s ids)))
            (is_member-drop_of c s id st.members
              ∙ ap (λ b. b && not (c == id)) (sym (has-member_ids c s st.members))))

-- A change of the name touches neither sources nor members.
update_name-keeps :
    (st final : Store) (id : ℕ) (old : Text) (o : Option Text) (name : Text)
    → update_name id old o st ≡ answered final name
    → (final.sources ≡ st.sources) × (final.members ≡ st.members)
unfolding update_name rename_combined
update_name-keeps st final id old none n h = (ground arith, ground arith)
update_name-keeps st final id old (some name) n h = (ground arith, ground arith)

abbrev updated_dto : ℕ → Text → Text → Store → CombinedDto
updated_dto id name at st = record {
  id = id;
  name = name;
  created_at = at;
  source_ids = member_ids id st.members;
}

replaced-HasMembers :
    (id : ℕ) (ids : List ℕ) (name at : Text) (st mid : Store)
    → mid.sources ≡ st.sources
    → mid.members ≡ st.members
    → HasMembers id ids st (replaced id ids mid) (updated_dto id name at (replaced id ids mid))
replaced-HasMembers id ids name at st mid p q = (
  refl,
  λ s.
      subst
        (λ ss.
          has s (member_ids id (replaced id ids mid).members)
          ≡ (has s (source_ids ss) && has s ids))
        p
        (replaced-members id ids mid id s
          ∙ own (has s (member_ids id mid.members)) (has s (source_ids mid.sources) && has s ids)),
  refl,
  λ c s n.
      subst (λ ms. has s (member_ids c (replaced id ids mid).members) ≡ has s (member_ids c ms)) q
        (replaced-members id ids mid c s
          ∙ other c (has s (member_ids c mid.members)) (has s (source_ids mid.sources) && has s ids)
              n),
)
  where
    own : (a b : Bool) → ((a && not (id == id)) || (id == id && b)) ≡ b
    own a b = ground arith

    other : (c : ℕ) (a b : Bool) → (c == id) ≡ false → ((a && not (c == id)) || (id == c && b)) ≡ a
    other c a b n = ground arith

-- A request that gives a combined subscription new members and is answered makes exactly those of
-- the ids that name a source its members; no other combined subscription gains or loses one.
pub update_combined-HasMembers :
    (app : App) (call : Call) (id : ℕ) (b : UpdateCombined) (ids : List ℕ) (st final : Store)
    (d : CombinedDto)
    → b.source_ids ≡ some ids
    → update_combined app call (ok id) (ok b) st ≡ answered final d
    → HasMembers id ids st final d
unfolding update_combined replace_members
update_combined-HasMembers app call id b ids st final d o h =
    let (ss, h1) = admin-answered app call st _ h in
    let s1 : Store = record st { sessions = ss } in
    let (old, e, h2) = found-answered s1 (find_combined id s1.combineds) _ _ h1 in
    let (s2, name, n, h3) = continued-answered (update_name id old.name b.name s1) _ h2 in
    let (s3, u, m, h4) = continued-answered (replace_members id b.source_ids s2) _ h3 in
    let (p, q) = update_name-keeps s1 s2 id old.name b.name name n in
    let at_members : replaced id ids s2 ≡ s3 =
      ap after (subst (λ x. replace_members id x s2 ≡ answered s3 u) o m) in
    subst (Ends (HasMembers id ids st)) h4 (
      subst (λ x. HasMembers id ids st x (updated_dto id name old.created_at x)) at_members
        (replaced-HasMembers id ids name old.created_at st s2 p q))
