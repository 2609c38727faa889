-- ===== src/Base/Split.antt =====
-- Cutting text at a character: `split_once`, `rsplit_once`, `split`, `lines` and `join`.
use Prim.Native.Nat.{ℕ}
use mathlib.Core.Path.{◌≡◌, refl, ap}
use mathlib.Core.List.{List, [], ◌∷◌, ◌++◌}
use mathlib.Core.Option.{Option, none, some}
use native.Mathlib.Omega.{arith}
use sub_merge.Base.Tests.{◌==◌, if◌then◌else◌}
use sub_merge.Base.Lists.{All}
use sub_merge.Base.Text.{Text, Absent}

abbrev prepend : ℕ → Option (Text × Text) → Option (Text × Text)
prepend x none = none
prepend x (some (a, b)) = some (x ∷ a, b)

-- `find(c)` with the slices before and behind the match, and `split_once(c)`: the first `c`.
unfoldable pub split_once : ℕ → Text → Option (Text × Text)
split_once c [] = none
split_once c (x ∷ s) = if x == c then some ([], s) else prepend x (split_once c s)

abbrev or_here : ℕ → ℕ → Text → Option (Text × Text) → Option (Text × Text)
or_here c x s none = if x == c then some ([], s) else none
or_here c x s (some (a, b)) = some (x ∷ a, b)

-- `rfind(c)` with the slices before and behind the match: the last `c`.
unfoldable pub rsplit_once : ℕ → Text → Option (Text × Text)
rsplit_once c [] = none
rsplit_once c (x ∷ s) = or_here c x s (rsplit_once c s)

abbrev cons_first : ℕ → List Text → List Text
cons_first x [] = (x ∷ []) ∷ []
cons_first x (w ∷ ws) = (x ∷ w) ∷ ws

-- `split(c)`: one part more than there are `c`s.
unfoldable pub split : ℕ → Text → List Text
split c [] = [] ∷ []
split c (x ∷ s) = let rest = split c s in if x == c then [] ∷ rest else cons_first x rest

-- `parts.join(sep)`
unfoldable pub join : Text → List Text → Text
join sep [] = []
join sep (w ∷ []) = w
join sep (w ∷ (v ∷ ws)) = w ++ (sep ++ join sep (v ∷ ws))

pub split_once-absent : (c : ℕ) (s : Text) → Absent c s → split_once c s ≡ none
unfolding split_once
split_once-absent c [] h = refl
split_once-absent c (x ∷ s) (p, h) = ground (arith, split_once-absent c s h)

pub split_once-append :
    (c : ℕ) (a b : Text) → Absent c a → split_once c (a ++ (c ∷ b)) ≡ some (a, b)
unfolding split_once
split_once-append c [] b h = ground arith
split_once-append c (x ∷ a) b (p, h) = ground (arith, split_once-append c a b h)

pub rsplit_once-absent : (c : ℕ) (s : Text) → Absent c s → rsplit_once c s ≡ none
unfolding rsplit_once
rsplit_once-absent c [] h = refl
rsplit_once-absent c (x ∷ s) (p, h) = ground (arith, rsplit_once-absent c s h)

pub rsplit_once-append :
    (c : ℕ) (a b : Text) → Absent c b → rsplit_once c (a ++ (c ∷ b)) ≡ some (a, b)
unfolding rsplit_once
rsplit_once-append c [] b h = ground (arith, rsplit_once-absent c b h)
rsplit_once-append c (x ∷ a) b h = ground (arith, rsplit_once-append c a b h)

pub split-absent : (c : ℕ) (s : Text) → Absent c s → split c s ≡ s ∷ []
unfolding split
split-absent c [] h = refl
split-absent c (x ∷ s) (p, h) = ground (arith, split-absent c s h)

pub split-append : (c : ℕ) (a b : Text) → Absent c a → split c (a ++ (c ∷ b)) ≡ a ∷ split c b
unfolding split
split-append c [] b h = ground arith
split-append c (x ∷ a) b (p, h) = ground (arith, split-append c a b h)

-- Splitting undoes joining, if there is a part and no part holds the separator.
pub split-join :
    (c : ℕ) (w : Text) (ws : List Text)
    → All (Absent c) (w ∷ ws)
    → split c (join (c ∷ []) (w ∷ ws)) ≡ w ∷ ws
unfolding join
split-join c w [] (p, _) = split-absent c w p
split-join c w (v ∷ ws) (p, h) = rw (split-append c w _ p) (ap (λ t. w ∷ t) (split-join c v ws h))
