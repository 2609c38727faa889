-- ===== src/Base/Sort.antt =====
-- `ORDER BY`: a list in order under a test `le`.
use sub_merge.Base.{
  ℕ, ◌≤◌, ◌<◌, ◌≡◌, refl, ap, ◌∙◌, inl, inr, Bool, false, ◌||◌, List, [], ◌∷◌, arith,
}
use sub_merge.Base.Tests.{leb, ◌==◌, if◌then◌else◌, Bool-cases}
use sub_merge.Base.Lists.{All}
use sub_merge.Base.Keys.{has, Ascending}

module _ {ℓ} {A : Type ℓ} (le : A → A → Bool) where
  unfoldable pub insert : A → List A → List A
  insert x [] = x ∷ []
  insert x (y ∷ ys) = let rest = insert x ys in if le x y then x ∷ y ∷ ys else y ∷ rest

  unfoldable pub sort : List A → List A
  unfolding insert
  sort [] = []
  sort (x ∷ xs) = insert x (sort xs)

pub has-insert : (n x : ℕ) (xs : List ℕ) → has n (insert leb x xs) ≡ (x == n || has n xs)
unfolding insert has
has-insert n x [] = refl
has-insert n x (y ∷ xs) = ground (arith, has-insert n x xs)

pub has-sort : (n : ℕ) (xs : List ℕ) → has n (sort leb xs) ≡ has n xs
unfolding sort has
has-sort n [] = refl
has-sort n (x ∷ xs) = has-insert n x (sort leb xs) ∙ ap (λ b. x == n || b) (has-sort n xs)

-- No key twice.
abbrev pub NoRepeat : List ℕ → Type 0
NoRepeat [] = Unit
NoRepeat (x ∷ xs) = (has x xs ≡ false) × NoRepeat xs

Ascending-insert :
    (low high x : ℕ) (ys : List ℕ)
    → Ascending low ys high
    → low < x
    → x ≤ high
    → has x ys ≡ false
    → Ascending low (insert leb x ys) high
unfolding insert has
Ascending-insert low high x [] h l u n = (l, u)
Ascending-insert low high x (y ∷ ys) (m, h) l u n = elim (Bool-cases (leb x y)) [
  | inl e ↦ rw (e) (l, (ground arith, h))
  | inr e ↦ rw (e) (m, Ascending-insert y high x ys h (ground arith) u (ground arith))
]

-- Keys in a range, none of them twice, in order rise strictly.
pub Ascending-sort :
    (low high : ℕ) (xs : List ℕ)
    → low ≤ high
    → NoRepeat xs
    → All (λ x. (low < x) × (x ≤ high)) xs
    → Ascending low (sort leb xs) high
unfolding sort
Ascending-sort low high [] b n h = b
Ascending-sort low high (x ∷ xs) b (m, n) ((l, u), h) =
    Ascending-insert low high x (sort leb xs) (Ascending-sort low high xs b n h) l u
      (has-sort x xs ∙ m)
