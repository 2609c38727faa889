-- ===== src/Server/Migration/Rows.antt =====
-- The rows under the statements of `init_db`.
use sub_merge.Base.{
  ℕ, ◌≡◌, refl, ap, ◌∙◌, inl, inr, Bool, true, false, ◌||◌, Option, none, some, List, [], ◌∷◌, ◌++◌,
  map, arith,
}
use sub_merge.Base.Tests.{if◌then◌else◌, Bool-cases}
use sub_merge.Base.Lists.{take, All}
use sub_merge.Base.Text.{Text, str, eqb, is_empty, starts_with, contains}
use sub_merge.Server.Sources.{SourceDto}
use sub_merge.Server.Sessions.{Session, find_session}
use sub_merge.Server.Migration.{
  SourceTable, SessionTable, as_remote, never_used, backfill, cut_fraction,
}

abbrev pub has_point : Text → Bool
has_point = contains (str ".")

-- A last use that no start touches: there, and without a fraction of a second.
abbrev pub IsSettled : Session → Type 0
IsSettled s = (is_empty s.last_used_at ≡ false) × (has_point s.last_used_at ≡ false)

-- A last use whose fraction, if there is one, stands behind the 19 characters of date and time.
abbrev pub IsDated : Session → Type 0
IsDated s = has_point (take 19 s.last_used_at) ≡ false

-- What `strftime` prints.
pub record IsStamp (now : Text) : Type 0 where
  pub ne-nil : is_empty now ≡ false
  pub no_point : has_point now ≡ false

-- The rows under the column that they lacked.
abbrev pub sessions_of : Option SessionTable → List Session
sessions_of none = []
sessions_of (some t) = if t.has_last_used_at then t.rows else map never_used t.rows

abbrev pub sources_of : Option SourceTable → List SourceDto
sources_of none = []
sources_of (some t) = if t.has_kind then t.rows else map as_remote t.rows

-- The rows of a table that may be missing.
abbrev pub rows_of {ℓ} : {A : Type ℓ} → Option (List A) → List A
rows_of none = []
rows_of (some rows) = rows

abbrev pub renewed : Text → List Session → List Session
renewed now ss = map cut_fraction (map (backfill now) ss)

has_point-append : (a b : Text) → has_point (a ++ b) ≡ has_point a || has_point b
unfolding contains starts_with
has_point-append [] b = refl
has_point-append (c ∷ a) b = ground (arith, has_point-append a b)

ne-nil-append : (a : Text) (c : ℕ) → is_empty (a ++ (c ∷ [])) ≡ false
ne-nil-append [] c = refl
ne-nil-append (d ∷ a) c = refl

cut_fraction-IsSettled :
    (s : Session) → is_empty s.last_used_at ≡ false → IsDated s → IsSettled (cut_fraction s)
unfolding cut_fraction
cut_fraction-IsSettled s n d = elim (Bool-cases (has_point s.last_used_at)) [
  | inl p ↦ rw (p) (
    ne-nil-append (take 19 s.last_used_at) b'Z',
    has_point-append (take 19 s.last_used_at) (str "Z")
        ∙ rw (d) (unfold contains starts_with in refl),
  )
  | inr p ↦ rw (p) (n, p)
]

cut_fraction-settled : (s : Session) → has_point s.last_used_at ≡ false → cut_fraction s ≡ s
unfolding cut_fraction
cut_fraction-settled s p = rw (p) refl

module _ (now : Text) (stamp : IsStamp now) where
  IsSettled-renewed : (s : Session) → IsDated s → IsSettled (cut_fraction (backfill now s))
  IsSettled-renewed s d = elim (Bool-cases (is_empty s.last_used_at)) [
    | inl e ↦ rw (e) (
        rw (cut_fraction-settled (record s { last_used_at = now }) stamp.no_point)
          (stamp.ne-nil, stamp.no_point))
    | inr e ↦ rw (e) (cut_fraction-IsSettled s e d)
  ]

  pub renewed-IsSettled : (ss : List Session) → All IsDated ss → All IsSettled (renewed now ss)
  renewed-IsSettled [] d = tt
  renewed-IsSettled (s ∷ ss) (d, ds) = (IsSettled-renewed s d, renewed-IsSettled ss ds)

  pub renewed-never_used :
      (ss : List Session) → All (λ s. s.last_used_at ≡ now) (renewed now (map never_used ss))
  renewed-never_used [] = tt
  renewed-never_used (s ∷ ss) = (
    ap (λ x. x.last_used_at)
        (cut_fraction-settled (record s { last_used_at = now }) stamp.no_point),
    renewed-never_used ss,
  )

IsSettled-stays : (now : Text) (s : Session) → IsSettled s → cut_fraction (backfill now s) ≡ s
IsSettled-stays now s (e, p) = rw (e) (cut_fraction-settled s p)

pub renewed-settled : (now : Text) (ss : List Session) → All IsSettled ss → renewed now ss ≡ ss
renewed-settled now [] h = refl
renewed-settled now (s ∷ ss) (p, h) = rw (IsSettled-stays now s p, renewed-settled now ss h) refl

same_hash : (now : Text) (s : Session) → (cut_fraction (backfill now s)).token_hash ≡ s.token_hash
unfolding cut_fraction
same_hash now s = ground arith

pub same_hashes :
    (now : Text) (ss : List Session)
    → map (λ s. s.token_hash) (renewed now ss) ≡ map (λ s. s.token_hash) ss
same_hashes now [] = refl
same_hashes now (s ∷ ss) = rw (same_hash now s, same_hashes now ss) refl

same_created_at :
    (now : Text) (s : Session) → (cut_fraction (backfill now s)).created_at ≡ s.created_at
unfolding cut_fraction
same_created_at now s = ground arith

pub same_created :
    (now : Text) (ss : List Session)
    → map (λ s. s.created_at) (renewed now ss) ≡ map (λ s. s.created_at) ss
same_created now [] = refl
same_created now (s ∷ ss) = rw (same_created_at now s, same_created now ss) refl

find_session-renews :
    (now hash : Text) (ss : List Session) (s : Session)
    → find_session hash ss ≡ some s
    → find_session hash (renewed now ss) ≡ some (cut_fraction (backfill now s))
unfolding find_session
find_session-renews now hash [] s f = ground arith
find_session-renews now hash (t ∷ ss) s f = elim (Bool-cases (eqb t.token_hash hash)) [
  | inl e ↦
      let same : t ≡ s = some-injective (rw (e) at f) in
      rw (ap (λ x. eqb x hash) (same_hash now t) ∙ e)
        (ap (λ x. some (cut_fraction (backfill now x))) same)
  | inr e ↦
      rw (ap (λ x. eqb x hash) (same_hash now t) ∙ e)
        (find_session-renews now hash ss s (rw (e) at f))
]
  where
    some-injective : {a b : Session} → some a ≡ some b → a ≡ b
    some-injective q = ground arith

pub find_session-renewed :
    (now hash : Text) (ss : List Session) (s : Session)
    → find_session hash ss ≡ some s
    → IsSettled s
    → find_session hash (renewed now ss) ≡ some s
find_session-renewed now hash ss s f h =
    find_session-renews now hash ss s f ∙ ap some (IsSettled-stays now s h)

-- A last use with a fraction keeps its first 19 characters.
pub find_session-cut :
    (now hash : Text) (ss : List Session) (s : Session)
    → find_session hash ss ≡ some s
    → is_empty s.last_used_at ≡ false
    → has_point s.last_used_at ≡ true
    → find_session hash (renewed now ss)
      ≡ some (record s { last_used_at = take 19 s.last_used_at ++ str "Z" })
unfolding cut_fraction
find_session-cut now hash ss s f e p = find_session-renews now hash ss s f ∙ rw (e) (rw (p) refl)
