-- ===== src/Base/Trimming.antt =====
-- What trimming drops of a text.
use Prim.Native.Nat.{ℕ}
use mathlib.Core.Path.{◌≡◌, refl}
use mathlib.Core.Bool.{Bool, true, false}
use mathlib.Core.List.{[], ◌∷◌, ◌++◌}
use sub_merge.Base.Lists.{All}
use sub_merge.Base.Text.{Text, drop_while, drop_end}

pub drop_end-none : (p : ℕ → Bool) (s : Text) → All (λ c. p c ≡ false) s → drop_end p s ≡ s
unfolding drop_end
drop_end-none p [] h = refl
drop_end-none p (c ∷ []) (e, _) = rw e
drop_end-none p (c ∷ (d ∷ s)) (e, h) = rw (drop_end-none p (d ∷ s) h, drop_end)

pub drop_while-none : (p : ℕ → Bool) (s : Text) → All (λ c. p c ≡ false) s → drop_while p s ≡ s
unfolding drop_while
drop_while-none p [] h = refl
drop_while-none p (c ∷ s) (e, h) = rw (e, drop_while)

drop_end_whole : (p : ℕ → Bool) (s : Text) → All (λ c. p c ≡ true) s → drop_end p s ≡ []
unfolding drop_end
drop_end_whole p [] h = refl
drop_end_whole p (c ∷ s) (e, h) = rw (drop_end_whole p s h, drop_end) (rw e)

drop_end-cons-append :
    (p : ℕ → Bool) (c : ℕ) (s t : Text)
    → p c ≡ false
    → drop_end p (s ++ t) ≡ s
    → drop_end p (c ∷ (s ++ t)) ≡ c ∷ s
unfolding drop_end
drop_end-cons-append p c [] t e h = rw (h, drop_end) (rw e)
drop_end-cons-append p c (d ∷ s) t e h = rw (h, drop_end)

pub drop_end-append :
    (p : ℕ → Bool) (s t : Text)
    → All (λ c. p c ≡ false) s
    → All (λ c. p c ≡ true) t
    → drop_end p (s ++ t) ≡ s
drop_end-append p [] t h k = drop_end_whole p t k
drop_end-append p (c ∷ s) t (e, h) k = drop_end-cons-append p c s t e (drop_end-append p s t h k)
