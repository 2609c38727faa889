-- ===== src/Server/Sessions.antt =====
-- crates/server/src/db.rs: the table of sessions. The queries succeed, but for an insert under a
-- primary key that is there.
pub mod Table
pub mod Judged
pub mod Lifetime
pub mod Cleanup
use sub_merge.Base.{
  ℕ, ◌+◌, ◌-◌, ◌*◌, ◌/◌, ◌^◌, Bool, true, false, not, ◌&&◌, ◌||◌, Option, none, some, List, [], ◌∷◌,
  ◌++◌,
}
use sub_merge.Base.Tests.{ltb, leb, ◌==◌, if◌then◌else◌}
use sub_merge.Base.Text.{Text, Bytes, eqb, utf8}

-- A row; the table knows a token by its SHA-256.
pub record Session : Type 0 where
  pub token_hash : Text
  pub created_at : Text
  pub last_used_at : Text

-- What the module uses of sha2 and of chrono. A moment is a number of nanoseconds, counted from
-- `DateTime::<Utc>::MIN_UTC`, which is at a whole second.
pub record Clockwork : Type 0 where
  pub sha256_hex : Text → Text
  pub to_rfc3339 : ℕ → Text
  pub parse_from_rfc3339 : Text → Option ℕ
  -- `DateTime::<Utc>::MAX_UTC`, beyond which an addition panics.
  pub max_utc : ℕ
  -- The greatest number of days of `TimeDelta::try_days`.
  pub max_days : ℕ

abbrev pub second : ℕ
second = 10 ^ 9

abbrev pub day : ℕ
day = 86400 * second

-- `with_nanosecond(0)`
abbrev pub whole_seconds : ℕ → ℕ
whole_seconds t = t / second * second

unfoldable pub find_session : Text → List Session → Option Session
find_session hash [] = none
find_session hash (s ∷ ss) = if eqb s.token_hash hash then some s else find_session hash ss

-- `DELETE FROM sessions WHERE token_hash = ?`
unfoldable pub delete_hash : Text → List Session → List Session
delete_hash hash [] = []
delete_hash hash (s ∷ ss) =
    let rest = delete_hash hash ss in if eqb s.token_hash hash then rest else s ∷ rest

abbrev pub touched : Text → Session → Session
touched now s = record s { last_used_at = now }

-- `UPDATE sessions SET last_used_at = ? WHERE token_hash = ?`
unfoldable pub touch : Text → Text → List Session → List Session
touch now hash [] = []
touch now hash (s ∷ ss) =
    let rest = touch now hash ss in if eqb s.token_hash hash then touched now s ∷ rest else s ∷ rest

-- What a call returns with the table behind it, or a panic.
pub data Reply (A : Type 0) : Type 0 where
  replies : List Session → A → Reply A
  refuses : List Session → Reply A
  panics : Reply A

-- The insert of a row whose key is there is an error.
unfoldable pub create_session : Clockwork → ℕ → Text → List Session → Reply Text
create_session c now token ss =
    let at = c.to_rfc3339 (whole_seconds now) in
    elim (find_session (c.sha256_hex token) ss) [
      | some s ↦ refuses ss
      | none ↦
          replies
            (ss
              ++ record { token_hash = c.sha256_hex token; created_at = at; last_used_at = at }
                ∷ [])
            token
    ]

pub data Validity : Type 0 where
  alive : Validity
  expired : Validity
  overflowed : Validity

-- `last + ttl < Utc::now()`, where the sum panics beyond the last moment.
abbrev pub compared : Clockwork → ℕ → ℕ → Option ℕ → Validity
compared c now ttl none = expired
compared c now ttl (some last) =
    if ltb c.max_utc (last + ttl)
    then overflowed
    else if ltb (last + ttl) now
    then expired
    else alive

-- The chain `if let Ok(ttl) = i64::try_from(…) && ttl > 0 && let Some(ttl) = try_days(ttl)`.
unfoldable pub validity : Clockwork → ℕ → ℕ → Text → Validity
validity c now ttl_days last_used =
    if ltb ttl_days (2 ^ 63) && (ltb 0 ttl_days && leb ttl_days c.max_days)
    then compared c now (ttl_days * day) (c.parse_from_rfc3339 last_used)
    else alive

-- The end of `validate_session`: an expired session is deleted, another one is renewed.
abbrev pub settle : Clockwork → ℕ → Text → List Session → Validity → Reply Bool
settle c now hash ss alive = replies (touch (c.to_rfc3339 (whole_seconds now)) hash ss) true
settle c now hash ss expired = replies (delete_hash hash ss) false
settle c now hash ss overflowed = panics

abbrev pub settle_found : Clockwork → ℕ → ℕ → Text → List Session → Option Session → Reply Bool
unfolding validity
settle_found c now ttl_days hash ss none = replies ss false
settle_found c now ttl_days hash ss (some s) =
    settle c now hash ss (validity c now ttl_days s.last_used_at)

unfoldable pub validate_session : Clockwork → ℕ → ℕ → Text → List Session → Reply Bool
unfolding find_session touch delete_hash validity
validate_session c now ttl_days token ss =
    settle_found c now ttl_days (c.sha256_hex token) ss (find_session (c.sha256_hex token) ss)

unfoldable pub delete_session : Clockwork → Text → List Session → List Session
unfolding delete_hash
delete_session c token ss = delete_hash (c.sha256_hex token) ss

unfoldable pub delete_all_sessions : List Session → List Session
delete_all_sessions ss = []

-- `<` of SQLite on texts, which compares their bytes.
unfoldable pub lt_bytes : Bytes → Bytes → Bool
lt_bytes [] [] = false
lt_bytes [] (y ∷ ys) = true
lt_bytes (x ∷ xs) [] = false
lt_bytes (x ∷ xs) (y ∷ ys) = ltb x y || (x == y && lt_bytes xs ys)

abbrev pub used_before : Text → Session → Bool
used_before cutoff s = lt_bytes (utf8 s.last_used_at) (utf8 cutoff)

-- `DELETE FROM sessions WHERE last_used_at < ?`
unfoldable pub delete_before : Text → List Session → List Session
delete_before cutoff [] = []
delete_before cutoff (s ∷ ss) =
    let rest = delete_before cutoff ss in if used_before cutoff s then rest else s ∷ rest

-- The cutoff; `Utc::now() - ttl` panics before the first moment.
abbrev pub cutoff : ℕ → ℕ → ℕ
cutoff now ttl_days = whole_seconds (now - ttl_days * day)

unfoldable pub delete_expired_sessions : Clockwork → ℕ → ℕ → List Session → Reply (Unit {0})
unfolding delete_before
delete_expired_sessions c now ttl_days ss =
    if not (ltb ttl_days (2 ^ 63))
    then replies ss tt
    else if ttl_days == 0
    then replies ss tt
    else if not (leb ttl_days c.max_days)
    then replies ss tt
    else if ltb now (ttl_days * day)
    then panics
    else replies (delete_before (c.to_rfc3339 (cutoff now ttl_days)) ss) tt
