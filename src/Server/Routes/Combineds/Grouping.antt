-- ===== src/Server/Routes/Combineds/Grouping.antt =====
-- The list of all combined subscriptions: one query for all members, grouped in memory.
use mathlib.Core.Path.{fun_ext}
use sub_merge.Base.{
  ℕ, ◌≤◌, ◌≡◌, refl, sym, ap, ◌∙◌, subst, ◌⊎◌, inl, inr, true, false, List, [], ◌∷◌, ◌++◌, map,
  append-nil, append_assoc, arith,
}
use sub_merge.Base.Tests.{leb, ◌==◌, if◌then◌else◌, ==_iff, Bool-cases, leb-yes}
use sub_merge.Base.Lists.{All, All-map}
use sub_merge.Base.Keys.{Ascending}
use sub_merge.Base.Sort.{insert, sort}
use sub_merge.Server.Combineds.{Combined, Membership, combined_keys, sources_of, member_ids}
use sub_merge.Server.Routes.Combineds.{
  CombinedDto, dto, le_member, Groups, push_source, group_members, group_of, without_group, dtos,
  listed,
}

group_of-push :
    (id c s : ℕ) (gs : Groups)
    → group_of id (push_source (c, s) gs)
      ≡ (if c == id then group_of id gs ++ s ∷ [] else group_of id gs)
unfolding group_of push_source
group_of-push id c s [] = ground arith
group_of-push id c s ((d, ids) ∷ gs) = ground (arith, group_of-push id c s gs)

group_of-group_members :
    (id : ℕ) (gs : Groups) (ms : List Membership)
    → group_of id (group_members gs ms) ≡ group_of id gs ++ sources_of id ms
unfolding group_members sources_of
group_of-group_members id gs [] = sym (append-nil (group_of id gs))
group_of-group_members id gs ((c, s) ∷ ms) =
    group_of-group_members id (push_source (c, s) gs) ms
    ∙ (ap (λ ids. ids ++ sources_of id ms) (group_of-push id c s gs)
        ∙ pushed (Bool-cases (c == id)))
  where
    pushed :
        ((c == id) ≡ true) ⊎ ((c == id) ≡ false)
        → (if c == id then group_of id gs ++ s ∷ [] else group_of id gs) ++ sources_of id ms
          ≡ group_of id gs ++ (if c == id then s ∷ sources_of id ms else sources_of id ms)
    pushed (inl e) = rw (e) (append_assoc (group_of id gs) (s ∷ []) (sources_of id ms))
    pushed (inr e) = rw (e) refl

-- Rows in the order of the query.
abbrev IsSorted : List Membership → Type 0
IsSorted [] = Unit
IsSorted (m ∷ ms) = All (λ n. le_member m n ≡ true) ms × IsSorted ms

le_member_trans :
    (a b c : Membership) → le_member a b ≡ true → le_member b c ≡ true → le_member a c ≡ true
le_member_trans (a, s) (b, t) (c, u) h k = ground arith

le_member-total : (a b : Membership) → le_member a b ≡ false → le_member b a ≡ true
le_member-total (a, s) (b, t) h = ground arith

All-le-insert :
    (x m : Membership) (ms : List Membership)
    → le_member x m ≡ true
    → All (λ n. le_member x n ≡ true) ms
    → All (λ n. le_member x n ≡ true) (insert le_member m ms)
unfolding insert
All-le-insert x m [] p h = (p, tt)
All-le-insert x m (n ∷ ms) p (q, h) = elim (Bool-cases (le_member m n)) [
  | inl e ↦ rw (e) (p, (q, h))
  | inr e ↦ rw (e) (q, All-le-insert x m ms p h)
]

All-le_trans :
    (a b : Membership) (ms : List Membership)
    → le_member a b ≡ true
    → All (λ n. le_member b n ≡ true) ms
    → All (λ n. le_member a n ≡ true) ms
All-le_trans a b ms p h =
    All-map {Q = λ n. le_member a n ≡ true} (λ n q. le_member_trans a b n p q) ms h

insert-IsSorted :
    (m : Membership) (ms : List Membership) → IsSorted ms → IsSorted (insert le_member m ms)
unfolding insert
insert-IsSorted m [] h = (tt, tt)
insert-IsSorted m (n ∷ ms) (q, h) = elim (Bool-cases (le_member m n)) [
  | inl e ↦ rw (e) ((e, All-le_trans m n ms e q), (q, h))
  | inr e ↦ rw (e) (All-le-insert n m ms (le_member-total m n e) q, insert-IsSorted m ms h)
]

sort-IsSorted : (ms : List Membership) → IsSorted (sort le_member ms)
unfolding sort
sort-IsSorted [] = tt
sort-IsSorted (m ∷ ms) = insert-IsSorted m (sort le_member ms) (sort-IsSorted ms)

insert-least :
    (m : Membership) (ms : List Membership)
    → All (λ n. le_member m n ≡ true) ms
    → insert leb m.1 (sources_of m.0 ms) ≡ m.1 ∷ sources_of m.0 ms
unfolding insert sources_of
insert-least m [] h = refl
insert-least (c, s) ((d, t) ∷ ms) (q, h) = elim (Bool-cases (d == c)) [
  | inl e ↦ rw (e) (rw (least q e) refl)
  | inr e ↦ rw (e) (insert-least (c, s) ms h)
]
  where
    least : le_member (c, s) (d, t) ≡ true → (d == c) ≡ true → leb s t ≡ true
    least q e = ground arith

least_at :
    (id : ℕ) (m : Membership) (ms : List Membership)
    → m.0 ≡ id
    → All (λ n. le_member m n ≡ true) ms
    → insert leb m.1 (sources_of id ms) ≡ m.1 ∷ sources_of id ms
least_at id m ms e h =
    subst (λ x. insert leb m.1 (sources_of x ms) ≡ m.1 ∷ sources_of x ms) e (insert-least m ms h)

greater :
    (id c s d t : ℕ)
    → le_member (c, s) (d, t) ≡ false
    → (d == id) ≡ true
    → (c == id) ≡ true
    → leb s t ≡ false
greater id c s d t e f g = ground arith

-- The rows of one combined subscription after an insertion into rows in order.
sources_of-insert :
    (id : ℕ) (m : Membership) (ms : List Membership)
    → IsSorted ms
    → sources_of id (insert le_member m ms)
      ≡ (if m.0 == id then insert leb m.1 (sources_of id ms) else sources_of id ms)
unfolding insert sources_of
sources_of-insert id m [] h = refl
sources_of-insert id (c, s) ((d, t) ∷ ms) (q, h) = elim (Bool-cases (le_member (c, s) (d, t))) [
  | inl e ↦
      let before : All (λ n. le_member (c, s) n ≡ true) ((d, t) ∷ ms) =
        (e, All-le_trans (c, s) (d, t) ms e q) in
      rw (e) (elim (Bool-cases (c == id)) [
        | inl g ↦ rw (g) (sym (least_at id (c, s) ((d, t) ∷ ms) ((==_iff c id).0 g) before))
        | inr g ↦ rw (g) refl
      ])
  | inr e ↦
      let ih = sources_of-insert id (c, s) ms h in
      rw (e) (elim (Bool-cases (d == id)) [
        | inl f ↦ rw (f) (
            ap (λ xs. t ∷ xs) ih ∙ elim (Bool-cases (c == id)) [
              | inl g ↦ rw (g) (rw (greater id c s d t e f g) refl)
              | inr g ↦ rw (g) refl
            ])
        | inr f ↦ rw (f) ih
      ])
]

sources_of-sort :
    (id : ℕ) (ms : List Membership) → sources_of id (sort le_member ms) ≡ member_ids id ms
unfolding sort sources_of member_ids
sources_of-sort id [] = refl
sources_of-sort id (m ∷ ms) =
    sources_of-insert id m (sort le_member ms) (sort-IsSorted ms) ∙ elim (Bool-cases (m.0 == id)) [
      | inl e ↦ rw (e) (ap (insert leb m.1) (sources_of-sort id ms))
      | inr e ↦ rw (e) (sources_of-sort id ms)
    ]

group_of-without :
    (id c : ℕ) (gs : Groups) → (c == id) ≡ false → group_of id (without_group c gs) ≡ group_of id gs
unfolding group_of without_group
group_of-without id c [] h = refl
group_of-without id c ((d, ids) ∷ gs) h = ground (arith, group_of-without id c gs)

-- The answers, where each row asks the map for its own key.
looked_up :
    (gs gs' : Groups) (cs : List Combined)
    → All (λ c. group_of c.id gs ≡ group_of c.id gs') cs
    → map (λ c. dto c (group_of c.id gs)) cs ≡ map (λ c. dto c (group_of c.id gs')) cs
looked_up gs gs' [] h = refl
looked_up gs gs' (c ∷ cs) (e, h) =
    ap (λ ids. dto c ids ∷ map (λ c. dto c (group_of c.id gs)) cs) e
    ∙ ap (λ ds. dto c (group_of c.id gs') ∷ ds) (looked_up gs gs' cs h)

others :
    (id low high : ℕ) (gs : Groups) (cs : List Combined)
    → Ascending low (combined_keys cs) high
    → id ≤ low
    → All (λ c. group_of c.id (without_group id gs) ≡ group_of c.id gs) cs
others id low high gs [] a l = tt
others id low high gs (c ∷ cs) (m, a) l =
    (group_of-without c.id id gs (ground arith), others id c.id high gs cs a (omega arith))

dtos-map :
    (low high : ℕ) (gs : Groups) (cs : List Combined)
    → Ascending low (combined_keys cs) high
    → dtos gs cs ≡ map (λ c. dto c (group_of c.id gs)) cs
unfolding dtos
dtos-map low high gs [] a = refl
dtos-map low high gs (c ∷ cs) (l, a) =
    ap (λ ds. dto c (group_of c.id gs) ∷ ds)
      (dtos-map c.id high (without_group c.id gs) cs a
        ∙ looked_up (without_group c.id gs) gs cs (others c.id c.id high gs cs a (omega arith)))

sort-Ascending :
    (low high : ℕ) (cs : List Combined)
    → Ascending low (combined_keys cs) high
    → sort (λ c d. leb c.id d.id) cs ≡ cs
unfolding sort insert
sort-Ascending low high [] a = refl
sort-Ascending low high (c ∷ cs) (l, a) =
    ap (insert (λ c d. leb c.id d.id) c) (sort-Ascending c.id high cs a) ∙ first cs a
  where
    first :
        (cs : List Combined)
        → Ascending c.id (combined_keys cs) high
        → insert (λ c d. leb c.id d.id) c cs ≡ c ∷ cs
    first [] a = refl
    first (d ∷ cs) (l, a) = rw (leb-yes c.id d.id (omega arith)) refl

-- Where the ids of the combined subscriptions rise, the list made of one query for all members and
-- a map is the list that one query of members for each combined subscription would give.
pub listed-member_ids :
    (cs : List Combined) (ms : List Membership) (high : ℕ)
    → Ascending 0 (combined_keys cs) high
    → listed cs ms ≡ map (λ c. dto c (member_ids c.id ms)) cs
unfolding listed
listed-member_ids cs ms high a =
    let gs = group_members [] (sort le_member ms) in
    ap (dtos gs) (sort-Ascending 0 high cs a)
    ∙ (dtos-map 0 high gs cs a
        ∙ ap (λ (f : Combined → CombinedDto). map f cs)
            (fun_ext (λ c.
              ap (dto c)
                (group_of-group_members c.id [] (sort le_member ms) ∙ sources_of-sort c.id ms))))
