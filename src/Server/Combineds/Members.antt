-- ===== src/Server/Combineds/Members.antt =====
-- The memberships under the statements on their table.
use sub_merge.Base.{
  ℕ, ◌≡◌, refl, ap, ◌∙◌, inl, inr, Bool, true, false, ◌&&◌, ◌||◌, List, [], ◌∷◌, ◌++◌, map, arith,
}
use sub_merge.Base.Tests.{◌==◌, Bool-cases}
use sub_merge.Base.Lists.{All, All-append}
use sub_merge.Base.Keys.{filter, has, has-filter, map-filter}
use sub_merge.Base.Sort.{has-sort}
use sub_merge.Server.Sources.{SourceDto, source_ids, select_in}
use sub_merge.Server.Combineds.{
  Membership, is_member, insert_or_ignore, insert_members_sql, sources_of, member_ids,
}

-- No row stands twice.
abbrev pub Distinct : List Membership → Type 0
Distinct [] = Unit
Distinct ((c, s) ∷ ms) = (is_member c s ms ≡ false) × Distinct ms

-- Every row refers to a row of either table.
abbrev pub Refers : List ℕ → List ℕ → List Membership → Type 0
Refers cs ss = All (λ m. (has m.0 cs ≡ true) × (has m.1 ss ≡ true))

is_member-append :
    (c s a b : ℕ) (ms : List Membership)
    → is_member c s (ms ++ (a, b) ∷ []) ≡ (is_member c s ms || (a == c && b == s))
unfolding is_member
is_member-append c s a b [] = ground arith
is_member-append c s a b ((d, t) ∷ ms) = ground (arith, is_member-append c s a b ms)

Distinct-append :
    (a b : ℕ) (ms : List Membership)
    → Distinct ms
    → is_member a b ms ≡ false
    → Distinct (ms ++ (a, b) ∷ [])
unfolding is_member
Distinct-append a b [] h n = (refl, tt)
Distinct-append a b ((c, s) ∷ ms) (m, h) n =
    (ground (arith, is_member-append c s a b ms), Distinct-append a b ms h (ground arith))

pub Distinct-insert :
    (rows ms : List Membership) → Distinct ms → Distinct (insert_or_ignore rows ms)
unfolding insert_or_ignore
Distinct-insert [] ms h = h
Distinct-insert ((c, s) ∷ rows) ms h = elim (Bool-cases (is_member c s ms)) [
  | inl e ↦ rw (e) (Distinct-insert rows ms h)
  | inr e ↦ rw (e) (Distinct-insert rows (ms ++ (c, s) ∷ []) (Distinct-append c s ms h e))
]

is_member-filter :
    (c s : ℕ) (p : Membership → Bool) (ms : List Membership)
    → is_member c s ms ≡ false
    → is_member c s (filter p ms) ≡ false
unfolding is_member filter
is_member-filter c s p [] h = refl
is_member-filter c s p (m ∷ ms) h = ground (arith, is_member-filter c s p ms)

pub Distinct-filter :
    (p : Membership → Bool) (ms : List Membership) → Distinct ms → Distinct (filter p ms)
unfolding filter
Distinct-filter p [] h = tt
Distinct-filter p ((c, s) ∷ ms) (m, h) = elim (Bool-cases (p (c, s))) [
  | inl e ↦ rw (e) (is_member-filter c s p ms m, Distinct-filter p ms h)
  | inr e ↦ rw (e) (Distinct-filter p ms h)
]

is_member-same :
    (a b c s : ℕ) (ms : List Membership)
    → is_member a b ms ≡ true
    → (a == c && b == s) ≡ true
    → is_member c s ms ≡ true
unfolding is_member
is_member-same a b c s [] h q = ground arith
is_member-same a b c s (m ∷ ms) h q = ground (arith, is_member-same a b c s ms)

pub is_member-insert :
    (c s : ℕ) (rows ms : List Membership)
    → is_member c s (insert_or_ignore rows ms) ≡ (is_member c s ms || is_member c s rows)
unfolding insert_or_ignore is_member
is_member-insert c s [] ms = ground arith
is_member-insert c s ((a, b) ∷ rows) ms = elim (Bool-cases (is_member a b ms)) [
  | inl e ↦ rw (e) (is_member-insert c s rows ms ∙ ground (arith, is_member-same a b c s ms e))
  | inr e ↦
      rw (e) (
        is_member-insert c s rows (ms ++ (a, b) ∷ []) ∙ ground (arith, is_member-append c s a b ms))
]

pub Refers-insert :
    (cs ss : List ℕ) (rows ms : List Membership)
    → Refers cs ss ms
    → Refers cs ss rows
    → Refers cs ss (insert_or_ignore rows ms)
unfolding insert_or_ignore
Refers-insert cs ss [] ms h k = h
Refers-insert cs ss ((c, s) ∷ rows) ms h (q, k) = elim (Bool-cases (is_member c s ms)) [
  | inl e ↦ rw (e) (Refers-insert cs ss rows ms h k)
  | inr e ↦ rw (e) (
      Refers-insert cs ss rows (ms ++ (c, s) ∷ [])
        (All-append (λ m. (has m.0 cs ≡ true) × (has m.1 ss ≡ true)) ms ((c, s) ∷ []) h (q, tt)) k)
]

-- The rows that a request for the ids adds, of the sources `xs` that are among `ss`.
Refers-rows :
    (cs ss xs : List ℕ) (id : ℕ)
    → has id cs ≡ true
    → ((n : ℕ) → has n xs ≡ true → has n ss ≡ true)
    → Refers cs ss (map (λ s. (id, s)) xs)
unfolding has
Refers-rows cs ss [] id h k = tt
Refers-rows cs ss (x ∷ xs) id h k =
    ((h, k x (ground arith)), Refers-rows cs ss xs id h (λ n q. k n (ground arith)))

source_ids-select_in :
    (n : ℕ) (ids : List ℕ) (ss : List SourceDto)
    → has n (source_ids (select_in ids ss)) ≡ (has n (source_ids ss) && has n ids)
source_ids-select_in n ids ss =
    ap (has n) (map-filter (λ s. s.id) (λ k. has k ids) ss)
    ∙ has-filter n (λ k. has k ids) (source_ids ss)

pub Refers-insert_members :
    (cs ids : List ℕ) (ss : List SourceDto) (id : ℕ) (ms : List Membership)
    → has id cs ≡ true
    → Refers cs (source_ids ss) ms
    → Refers cs (source_ids ss) (insert_members_sql id ids ss ms)
unfolding insert_members_sql
Refers-insert_members cs [] ss id ms h r = r
Refers-insert_members cs (x ∷ xs) ss id ms h r =
    Refers-insert cs (source_ids ss) (map (λ s. (id, s)) (source_ids (select_in (x ∷ xs) ss))) ms r
      (Refers-rows cs (source_ids ss) (source_ids (select_in (x ∷ xs) ss)) id h
        (λ n q. ground (arith, source_ids-select_in n (x ∷ xs) ss)))

pub Distinct-insert_members :
    (ids : List ℕ) (ss : List SourceDto) (id : ℕ) (ms : List Membership)
    → Distinct ms
    → Distinct (insert_members_sql id ids ss ms)
unfolding insert_members_sql
Distinct-insert_members [] ss id ms h = h
Distinct-insert_members (x ∷ xs) ss id ms h =
    Distinct-insert (map (λ s. (id, s)) (source_ids (select_in (x ∷ xs) ss))) ms h

is_member-rows :
    (c s id : ℕ) (xs : List ℕ) → is_member c s (map (λ x. (id, x)) xs) ≡ (id == c && has s xs)
unfolding is_member has
is_member-rows c s id [] = ground arith
is_member-rows c s id (x ∷ xs) = ground (arith, is_member-rows c s id xs)

-- Of the ids of a request exactly those that name a source become members, beside the old members.
pub is_member-insert_members :
    (c s id : ℕ) (ids : List ℕ) (ss : List SourceDto) (ms : List Membership)
    → is_member c s (insert_members_sql id ids ss ms)
      ≡ (is_member c s ms || (id == c && (has s (source_ids ss) && has s ids)))
unfolding insert_members_sql has
is_member-insert_members c s id [] ss ms = ground arith
is_member-insert_members c s id (x ∷ xs) ss ms =
    is_member-insert c s (map (λ y. (id, y)) (source_ids (select_in (x ∷ xs) ss))) ms
    ∙ ap (λ b. is_member c s ms || b)
        (is_member-rows c s id (source_ids (select_in (x ∷ xs) ss))
          ∙ ap (λ b. id == c && b) (source_ids-select_in s (x ∷ xs) ss))

pub has-sources_of : (c s : ℕ) (ms : List Membership) → has s (sources_of c ms) ≡ is_member c s ms
unfolding has sources_of is_member
has-sources_of c s [] = refl
has-sources_of c s (m ∷ ms) = ground (arith, has-sources_of c s ms)

-- The ids that `member_ids` lists are the members.
pub has-member_ids : (c s : ℕ) (ms : List Membership) → has s (member_ids c ms) ≡ is_member c s ms
unfolding member_ids
has-member_ids c s ms = has-sort s (sources_of c ms) ∙ has-sources_of c s ms
