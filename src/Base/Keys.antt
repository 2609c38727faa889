-- ===== src/Base/Keys.antt =====
-- Rows under numeric keys: what is kept by a query, which keys there are, and keys in order.
use sub_merge.Base.{
  ℕ, suc, ◌≤◌, ◌<◌, ◌≡◌, refl, ap, inl, inr, Bool, true, false, ◌&&◌, ◌||◌, List, [], ◌∷◌, ◌++◌,
  map, arith,
}
use sub_merge.Base.Tests.{◌==◌, if◌then◌else◌, ==_iff, Bool-cases}
use sub_merge.Base.Lists.{All}

module _ {ℓ} {A : Type ℓ} where
  -- The elements that pass a Boolean test.
  unfoldable pub filter : (A → Bool) → List A → List A
  filter p [] = []
  filter p (x ∷ xs) = let rest = filter p xs in if p x then x ∷ rest else rest

-- Whether a key is in a list.
unfoldable pub has : ℕ → List ℕ → Bool
has n [] = false
has n (x ∷ xs) = x == n || has n xs

-- The keys rise strictly from above `low`, and none is above `high`.
abbrev pub Ascending : ℕ → List ℕ → ℕ → Type 0
Ascending low [] high = low ≤ high
Ascending low (x ∷ xs) high = (low < x) × Ascending x xs high

pub has-append : (n : ℕ) (xs ys : List ℕ) → has n (xs ++ ys) ≡ (has n xs || has n ys)
unfolding has
has-append n [] ys = refl
has-append n (x ∷ xs) ys = ground (arith, has-append n xs ys)

pub has-filter : (n : ℕ) (p : ℕ → Bool) (xs : List ℕ) → has n (filter p xs) ≡ (has n xs && p n)
unfolding has filter
has-filter n p [] = refl
has-filter n p (x ∷ xs) = elim (Bool-cases (x == n)) [
  | inl e ↦ rw ((==_iff x n).0 e) (ground (arith, has-filter n p xs))
  | inr e ↦ elim (Bool-cases (p x)) [
    | inl q ↦ rw (q) (rw (e) (has-filter n p xs))
    | inr q ↦ rw (q) (rw (e) (has-filter n p xs))
  ]
]

pub Ascending-bound : (low high : ℕ) (xs : List ℕ) → Ascending low xs high → low ≤ high
Ascending-bound low high [] h = h
Ascending-bound low high (x ∷ xs) (l, h) = omega (arith, Ascending-bound x high xs h)

pub Ascending-weaken :
    (low low' high : ℕ) (xs : List ℕ) → low ≤ low' → Ascending low' xs high → Ascending low xs high
Ascending-weaken low low' high [] l h = omega arith
Ascending-weaken low low' high (x ∷ xs) l (m, h) = (omega arith, h)

pub Ascending-filter :
    (low high : ℕ) (p : ℕ → Bool) (xs : List ℕ)
    → Ascending low xs high
    → Ascending low (filter p xs) high
unfolding filter
Ascending-filter low high p [] h = h
Ascending-filter low high p (x ∷ xs) (l, h) = elim (Bool-cases (p x)) [
  | inl e ↦ rw (e) (l, Ascending-filter x high p xs h)
  | inr e ↦
      rw (e)
        (Ascending-weaken low x high (filter p xs) (omega arith) (Ascending-filter x high p xs h))
]

pub Ascending-append :
    (low high : ℕ) (xs : List ℕ)
    → Ascending low xs high
    → Ascending low (xs ++ suc high ∷ []) (suc high)
Ascending-append low high [] h = (omega arith, omega arith)
Ascending-append low high (x ∷ xs) (l, h) = (l, Ascending-append x high xs h)

-- A key above the bound, or not above the lower bound, is not there.
pub has-above : (n low high : ℕ) (xs : List ℕ) → Ascending low xs high → high < n → has n xs ≡ false
unfolding has
has-above n low high [] h l = refl
has-above n low high (x ∷ xs) (m, h) l =
    ground (arith, has-above n x high xs h l, Ascending-bound x high xs h)

pub has-below : (n low high : ℕ) (xs : List ℕ) → Ascending low xs high → n ≤ low → has n xs ≡ false
unfolding has
has-below n low high [] h l = refl
has-below n low high (x ∷ xs) (m, h) l = ground (arith, has-below n x high xs h (omega arith))

pub map-filter {ℓ} :
    {A : Type ℓ} (f : A → ℕ) (p : ℕ → Bool) (xs : List A)
    → map f (filter (λ x. p (f x)) xs) ≡ filter p (map f xs)
unfolding filter
map-filter f p [] = refl
map-filter f p (x ∷ xs) = elim (Bool-cases (p (f x))) [
  | inl e ↦ rw (e) (ap (λ ys. f x ∷ ys) (map-filter f p xs))
  | inr e ↦ rw (e) (map-filter f p xs)
]

pub map-append_one {ℓ} :
    {A : Type ℓ} (f : A → ℕ) (xs : List A) (x : A) → map f (xs ++ x ∷ []) ≡ map f xs ++ f x ∷ []
map-append_one f [] x = refl
map-append_one f (y ∷ xs) x = ap (λ ys. f y ∷ ys) (map-append_one f xs x)

pub All-filter {ℓ κ} :
    {A : Type ℓ} (P : A → Type κ) (p : A → Bool) (xs : List A) → All P xs → All P (filter p xs)
unfolding filter
All-filter P p [] h = tt
All-filter P p (x ∷ xs) (q, h) = elim (Bool-cases (p x)) [
  | inl e ↦ rw (e) (q, All-filter P p xs h)
  | inr e ↦ rw (e) (All-filter P p xs h)
]

-- A key that is there is within the bounds.
pub has-range :
    (n low high : ℕ) (xs : List ℕ)
    → Ascending low xs high
    → has n xs ≡ true
    → (low < n) × (n ≤ high)
unfolding has
has-range n low high [] h e = ground arith
has-range n low high (x ∷ xs) (l, h) e = elim (Bool-cases (x == n)) [
  | inl q ↦ let x_eq = (==_iff x n).0 q in (omega arith, omega (arith, Ascending-bound x high xs h))
  | inr q ↦ let r = has-range n x high xs h (rw (q) at e) in (omega arith, r.1)
]
