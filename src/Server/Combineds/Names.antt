-- ===== src/Server/Combineds/Names.antt =====
-- The keys and the names of the combined subscriptions under the statements on their table.
use sub_merge.Base.{
  ℕ, ◌≡◌, refl, sym, ap, ◌∙◌, inl, inr, Bool, true, false, not, ◌&&◌, ◌||◌, some, List, [], ◌∷◌,
  ◌++◌, arith,
}
use sub_merge.Base.Tests.{◌==◌, ==_iff, Bool-cases}
use sub_merge.Base.Text.{Text, eqb, eqb_iff}
use sub_merge.Base.Lists.{All}
use sub_merge.Base.Keys.{filter, has, Ascending, has-filter, has-below, map-filter}
use sub_merge.Server.Combineds.{
  Combined, combined_keys, find_combined, taken, set_name, drop_combined,
}

-- Whether a row has the name.
unfoldable pub used : Text → List Combined → Bool
used name [] = false
used name (c ∷ cs) = eqb c.name name || used name cs

-- No two rows have one name.
abbrev pub NamesDistinct : List Combined → Type 0
NamesDistinct [] = Unit
NamesDistinct (c ∷ cs) = (used c.name cs ≡ false) × NamesDistinct cs

pub has-drop_combined :
    (n id : ℕ) (cs : List Combined)
    → has n (combined_keys (drop_combined id cs)) ≡ (has n (combined_keys cs) && not (n == id))
has-drop_combined n id cs =
    ap (has n) (map-filter (λ c. c.id) (λ k. not (k == id)) cs)
    ∙ has-filter n (λ k. not (k == id)) (combined_keys cs)

pub combined_keys-set_name :
    (name : Text) (id : ℕ) (cs : List Combined)
    → combined_keys (set_name name id cs) ≡ combined_keys cs
unfolding set_name
combined_keys-set_name name id [] = refl
combined_keys-set_name name id (c ∷ cs) = ground (arith, combined_keys-set_name name id cs)

pub has-find_combined :
    (id : ℕ) (cs : List Combined) (c : Combined)
    → find_combined id cs ≡ some c
    → (has id (combined_keys cs) ≡ true) × (c.id ≡ id)
unfolding find_combined has
has-find_combined id [] c e = ground arith
has-find_combined id (d ∷ cs) c e = ground (arith, has-find_combined id cs c)

used-append :
    (n : Text) (cs : List Combined) (c : Combined)
    → used n (cs ++ c ∷ []) ≡ (used n cs || eqb c.name n)
unfolding used
used-append n [] c = ground arith
used-append n (d ∷ cs) c = ground (arith, used-append n cs c)

-- A name that no row has, under the id of no row.
pub used-taken :
    (name : Text) (id : ℕ) (cs : List Combined)
    → taken name id cs ≡ false
    → has id (combined_keys cs) ≡ false
    → used name cs ≡ false
unfolding taken used has
used-taken name id [] t h = refl
used-taken name id (c ∷ cs) t h = ground (arith, used-taken name id cs)

eqb_swap : (a b : Text) → eqb a b ≡ false → eqb b a ≡ false
eqb_swap a b h = elim (Bool-cases (eqb b a)) [
  | inl e ↦ absurd (true-ne-false (sym ((eqb_iff a b).1 (sym ((eqb_iff b a).0 e))) ∙ h))
  | inr e ↦ e
]
  where
    true-ne-false : true ≡ false → ⊥
    true-ne-false q = ground arith

NamesDistinct-snoc :
    (cs : List Combined) (c : Combined)
    → NamesDistinct cs
    → used c.name cs ≡ false
    → NamesDistinct (cs ++ c ∷ [])
unfolding used
NamesDistinct-snoc [] c h u = (refl, tt)
NamesDistinct-snoc (d ∷ cs) c (n, h) u = (
  ground (arith, used-append d.name cs c, eqb_swap d.name c.name),
  NamesDistinct-snoc cs c h (ground arith),
)

pub NamesDistinct-append :
    (cs : List Combined) (c : Combined) (high : ℕ)
    → Ascending 0 (combined_keys cs) high
    → NamesDistinct cs
    → taken c.name 0 cs ≡ false
    → NamesDistinct (cs ++ c ∷ [])
NamesDistinct-append cs c high a h t =
    NamesDistinct-snoc cs c h
      (used-taken c.name 0 cs t (has-below 0 0 high (combined_keys cs) a (omega arith)))

used-filter :
    (n : Text) (p : Combined → Bool) (cs : List Combined)
    → used n cs ≡ false
    → used n (filter p cs) ≡ false
unfolding used filter
used-filter n p [] h = refl
used-filter n p (c ∷ cs) h = ground (arith, used-filter n p cs)

pub NamesDistinct-filter :
    (p : Combined → Bool) (cs : List Combined) → NamesDistinct cs → NamesDistinct (filter p cs)
unfolding filter
NamesDistinct-filter p [] h = tt
NamesDistinct-filter p (c ∷ cs) (n, h) = elim (Bool-cases (p c)) [
  | inl e ↦ rw (e) (used-filter c.name p cs n, NamesDistinct-filter p cs h)
  | inr e ↦ rw (e) (NamesDistinct-filter p cs h)
]

-- A row of another name stays of another name.
used-set_name :
    (n name : Text) (id : ℕ) (cs : List Combined)
    → used n cs ≡ false
    → eqb name n ≡ false
    → used n (set_name name id cs) ≡ false
unfolding used set_name
used-set_name n name id [] u e = refl
used-set_name n name id (c ∷ cs) u e = ground (arith, used-set_name n name id cs)

set_name_absent :
    (name : Text) (id : ℕ) (cs : List Combined)
    → has id (combined_keys cs) ≡ false
    → set_name name id cs ≡ cs
unfolding set_name has
set_name_absent name id [] h = refl
set_name_absent name id (c ∷ cs) h = ground (arith, set_name_absent name id cs)

pub NamesDistinct-set_name :
    (name : Text) (id low high : ℕ) (cs : List Combined)
    → Ascending low (combined_keys cs) high
    → NamesDistinct cs
    → taken name id cs ≡ false
    → NamesDistinct (set_name name id cs)
unfolding set_name taken used
NamesDistinct-set_name name id low high [] a h t = tt
NamesDistinct-set_name name id low high (c ∷ cs) (l, a) (n, h) t = elim (Bool-cases (c.id == id)) [
  | inl e ↦
      let gone =
        has-below id c.id high (combined_keys cs) a (omega (arith, (==_iff c.id id).0 e)) in
      rw (e) (rw (set_name_absent name id cs gone) (used-taken name id cs (ground arith) gone, h))
  | inr e ↦ rw (e) (
    used-set_name c.name name id cs n (eqb_swap c.name name (ground arith)),
    NamesDistinct-set_name name id c.id high cs a h (ground arith),
  )
]

pub All-set_name :
    (P : Text → Type 0) (name : Text) (id : ℕ) (cs : List Combined)
    → P name
    → All (λ c. P c.name) cs
    → All (λ c. P c.name) (set_name name id cs)
unfolding set_name
All-set_name P name id [] q h = tt
All-set_name P name id (c ∷ cs) q (p, h) = elim (Bool-cases (c.id == id)) [
  | inl e ↦ rw (e) (q, All-set_name P name id cs q h)
  | inr e ↦ rw (e) (p, All-set_name P name id cs q h)
]
