-- ===== src/Server/Sessions/Table.antt =====
-- The rows of the table under the queries.
use mathlib.Core.Option
use sub_merge.Base.{
  ◌≡◌, refl, sym, ap, subst, inl, inr, true, false, none, some, List, [], ◌∷◌, ◌++◌, arith,
}
use sub_merge.Base.Tests.{if◌then◌else◌, Bool-cases}
use sub_merge.Base.Text.{Text, eqb, eqb_iff}
use sub_merge.Server.Sessions.{Session, find_session, delete_hash, touched, touch}

eqb-false : (a h g : Text) → eqb a h ≡ true → eqb h g ≡ false → eqb a g ≡ false
eqb-false a h g e n = subst (λ t. eqb t g ≡ false) (sym ((eqb_iff a h).0 e)) n

pub find_session-delete_same :
    (h : Text) (ss : List Session) → find_session h (delete_hash h ss) ≡ none
unfolding find_session delete_hash
find_session-delete_same h [] = refl
find_session-delete_same h (s ∷ ss) = elim (Bool-cases (eqb s.token_hash h)) [
  | inl e ↦ rw (e) (find_session-delete_same h ss)
  | inr e ↦ rw (e) (rw (e) (find_session-delete_same h ss))
]

pub find_session-delete_other :
    (h g : Text) (ss : List Session)
    → eqb h g ≡ false
    → find_session g (delete_hash h ss) ≡ find_session g ss
unfolding find_session delete_hash
find_session-delete_other h g [] n = refl
find_session-delete_other h g (s ∷ ss) n = elim (Bool-cases (eqb s.token_hash h)) [
  | inl e ↦ rw (e) (rw (eqb-false s.token_hash h g e n) (find_session-delete_other h g ss n))
  | inr e ↦
      rw (e)
        (ap (λ o. if eqb s.token_hash g then some s else o) (find_session-delete_other h g ss n))
]

pub find_session-touch_same :
    (now h : Text) (ss : List Session)
    → find_session h (touch now h ss) ≡ Option.map (touched now) (find_session h ss)
unfolding find_session touch
find_session-touch_same now h [] = refl
find_session-touch_same now h (s ∷ ss) = elim (Bool-cases (eqb s.token_hash h)) [
  | inl e ↦ rw (e) (rw (e))
  | inr e ↦ rw (e) (rw (e) (find_session-touch_same now h ss))
]

pub find_session-touch_other :
    (now h g : Text) (ss : List Session)
    → eqb h g ≡ false
    → find_session g (touch now h ss) ≡ find_session g ss
unfolding find_session touch
find_session-touch_other now h g [] n = refl
find_session-touch_other now h g (s ∷ ss) n = elim (Bool-cases (eqb s.token_hash h)) [
  | inl e ↦ rw (e) (rw (eqb-false s.token_hash h g e n) (find_session-touch_other now h g ss n))
  | inr e ↦
      rw (e)
        (ap (λ o. if eqb s.token_hash g then some s else o) (find_session-touch_other now h g ss n))
]

pub find_session-append :
    (h : Text) (ss : List Session) (s : Session)
    → find_session h ss ≡ none
    → eqb s.token_hash h ≡ true
    → find_session h (ss ++ s ∷ []) ≡ some s
unfolding find_session
find_session-append h [] s n e = rw (e)
find_session-append h (t ∷ ss) s n e = elim (Bool-cases (eqb t.token_hash h)) [
  | inl f ↦ absurd (some-ne-none (rw (f) at n))
  | inr f ↦ rw (f) (find_session-append h ss s (rw (f) at n) e)
]
  where
    some-ne-none : some t ≡ none → ⊥
    some-ne-none q = ground arith
