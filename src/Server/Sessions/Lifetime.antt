-- ===== src/Server/Sessions/Lifetime.antt =====
-- The life of a session: what creation, validation and deletion do to the table.
use mathlib.Core.Option
use sub_merge.Base.{
  ℕ, ◌+◌, ◌*◌, ◌^◌, ◌≤◌, ◌<◌, ◌≡◌, refl, ap, ◌∙◌, inl, inr, Bool, true, false, ◌&&◌, Option, none,
  some, List, [], ◌∷◌, ◌++◌,
}
use sub_merge.Base.Tests.{ltb, leb, if◌then◌else◌, ltb-not, Option-cases, ltb-yes, leb-yes}
use sub_merge.Base.Text.{Text, eqb, eqb_iff}
use sub_merge.Server.Sessions.{
  Session, Clockwork, day, whole_seconds, find_session, delete_hash, touched, touch, Reply, replies,
  panics, create_session, Validity, alive, expired, overflowed, compared, validity, settle,
  settle_found, validate_session, delete_session, delete_all_sessions,
}
use sub_merge.Server.Sessions.Judged.{IsAlive, IsExpired, Overflows, Judges, validity-Judges}
use sub_merge.Server.Sessions.Table.{
  find_session-delete_same, find_session-delete_other, find_session-touch_same,
  find_session-touch_other, find_session-append,
}

-- The table `after` has `row` for one key, and is the table `before` at every other key.
pub record Updates (before after : List Session) (hash : Text) (row : Option Session) : Type 0 where
  pub at_key : find_session hash after ≡ row
  pub elsewhere : (g : Text) → eqb hash g ≡ false → find_session g after ≡ find_session g before

-- What a validation may do, seen through the keys alone: refuse an unknown session, forget an
-- expired one, renew one that is alive, or panic where the last day is no moment of chrono.
pub data Validates (c : Clockwork) (now ttl_days : ℕ) (hash : Text) (before : List Session)
    : Reply Bool → Type 0 where
  unknown :
      find_session hash before ≡ none → Validates c now ttl_days hash before (replies before false)
  forgotten :
      {after : List Session} {s : Session}
      → find_session hash before ≡ some s
      → IsExpired c now ttl_days s.last_used_at
      → Updates before after hash none
      → Validates c now ttl_days hash before (replies after false)
  renews :
      {after : List Session} {s : Session}
      → find_session hash before ≡ some s
      → IsAlive c now ttl_days s.last_used_at
      → Updates before after hash (some (touched (c.to_rfc3339 (whole_seconds now)) s))
      → Validates c now ttl_days hash before (replies after true)
  overflows :
      {s : Session}
      → find_session hash before ≡ some s
      → Overflows c now ttl_days s.last_used_at
      → Validates c now ttl_days hash before panics

module _ (c : Clockwork) where
  settle-Validates :
      (now ttl_days : ℕ) (hash : Text) (ss : List Session) (s : Session) (v : Validity)
      → find_session hash ss ≡ some s
      → Judges c now ttl_days s.last_used_at v
      → Validates c now ttl_days hash ss (settle c now hash ss v)
  settle-Validates now ttl_days hash ss s alive e j =
      let t = c.to_rfc3339 (whole_seconds now) in
      renews {s = s} e j record {
        at_key = find_session-touch_same t hash ss ∙ ap (Option.map (touched t)) e;
        elsewhere = λ g n. find_session-touch_other t hash g ss n;
      }
  settle-Validates now ttl_days hash ss s expired e j = forgotten {s = s} e j record {
    at_key = find_session-delete_same hash ss;
    elsewhere = λ g n. find_session-delete_other hash g ss n;
  }
  settle-Validates now ttl_days hash ss s overflowed e j = overflows {s = s} e j

  -- For every table, token, moment and number of days, `validate_session` refuses a token with no
  -- row and keeps the table; it renews the row and accepts, if the number of days is no limit
  -- (zero, or too large for an i64 or for chrono) or the last day is a moment of chrono and not
  -- over; and if the number of days is a limit, it forgets the row and refuses, where the last use
  -- cannot be read or its last day is over, and panics, where the last day is beyond the last
  -- moment of chrono. In each case no other row changes.
  pub validate_session-Validates :
      (now ttl_days : ℕ) (token : Text) (ss : List Session)
      → Validates c now ttl_days (c.sha256_hex token) ss (validate_session c now ttl_days token ss)
  unfolding validate_session
  validate_session-Validates now ttl_days token ss =
      elim (Option-cases (find_session (c.sha256_hex token) ss)) [
        | inl e ↦ rw (e) (unknown e)
        | inr (s, e) ↦ rw (e) (
            settle-Validates now ttl_days (c.sha256_hex token) ss s
              (validity c now ttl_days s.last_used_at) e
              (validity-Judges c now ttl_days s.last_used_at))
      ]

  -- After `delete_session`, or `delete_all_sessions`, the token is refused at any moment and under
  -- any number of days.
  validate_session-delete :
      (now ttl_days : ℕ) (token : Text) (ss : List Session)
      → (validate_session c now ttl_days token (delete_session c token ss)
          ≡ replies (delete_session c token ss) false)
        × (validate_session c now ttl_days token (delete_all_sessions ss) ≡ replies [] false)
  unfolding validate_session delete_session delete_all_sessions find_session
  validate_session-delete now ttl_days token ss =
      (rw (find_session-delete_same (c.sha256_hex token) ss), refl)

  if-alive : (b : Bool) (v : Validity) → v ≡ alive → (if b then v else alive) ≡ alive
  if-alive true v e = e
  if-alive false v e = refl

  compared-alive :
      (later ttl last : ℕ)
      → later ≤ last + ttl
      → last + ttl ≤ c.max_utc
      → compared c later ttl (some last) ≡ alive
  compared-alive later ttl last l u =
      rw (ltb-not c.max_utc (last + ttl) u) (rw (ltb-not (last + ttl) later l))

  pub validity-alive :
      (later ttl_days last : ℕ) (text : Text)
      → c.parse_from_rfc3339 text ≡ some last
      → later ≤ last + ttl_days * day
      → last + ttl_days * day ≤ c.max_utc
      → validity c later ttl_days text ≡ alive
  unfolding validity
  validity-alive later ttl_days last text p l u =
      if-alive _ _
        (ap (compared c later (ttl_days * day)) p ∙ compared-alive later (ttl_days * day) last l u)

  -- A session that `create_session` has made is accepted up to `ttl_days` days after the whole
  -- second of its creation, where chrono reads back the moment that it wrote and the last moment
  -- of chrono is not passed.
  pub validate_session-create :
      (now later ttl_days : ℕ) (token : Text) (ss : List Session)
      → find_session (c.sha256_hex token) ss ≡ none
      → c.parse_from_rfc3339 (c.to_rfc3339 (whole_seconds now)) ≡ some (whole_seconds now)
      → later ≤ whole_seconds now + ttl_days * day
      → whole_seconds now + ttl_days * day ≤ c.max_utc
      → (made renewed : List Session) × (create_session c now token ss ≡ replies made token)
        × (validate_session c later ttl_days token made ≡ replies renewed true)
  unfolding create_session validate_session validity
  validate_session-create now later ttl_days token ss n p l u =
      let hash = c.sha256_hex token in
      let at = c.to_rfc3339 (whole_seconds now) in
      let s : Session = record { token_hash = hash; created_at = at; last_used_at = at } in
      let f = find_session-append hash ss s n ((eqb_iff hash hash).1 refl) in
      (
        ss ++ s ∷ [],
        touch (c.to_rfc3339 (whole_seconds later)) hash (ss ++ s ∷ []),
        rw (n, create_session) refl,
        ap (settle_found c later ttl_days hash (ss ++ s ∷ [])) f
            ∙ ap (settle c later hash (ss ++ s ∷ []))
                (validity-alive later ttl_days (whole_seconds now) at p l u),
      )

  pub compared-expired :
      (later ttl last : ℕ)
      → last + ttl < later
      → last + ttl ≤ c.max_utc
      → compared c later ttl (some last) ≡ expired
  compared-expired later ttl last l u =
      rw (ltb-not c.max_utc (last + ttl) u) (rw (ltb-yes (last + ttl) later l))

  pub in_force :
      (ttl_days : ℕ)
      → 0 < ttl_days
      → ttl_days < 2 ^ 63
      → ttl_days ≤ c.max_days
      → (ltb ttl_days (2 ^ 63) && (ltb 0 ttl_days && leb ttl_days c.max_days)) ≡ true
  in_force ttl_days z w m =
      rw (ltb-yes ttl_days (2 ^ 63) w) (rw (ltb-yes 0 ttl_days z) (leb-yes ttl_days c.max_days m))

  -- A session that was last used more than `ttl_days` days ago is refused, and its row is gone, so
  -- that it is refused from then on; this where the number of days is positive, below 2 ^ 63 and
  -- known to chrono, and the last moment of chrono is not passed.
  pub validate_session-expired :
      (later ttl_days last : ℕ) (token : Text) (ss : List Session) (s : Session)
      → find_session (c.sha256_hex token) ss ≡ some s
      → c.parse_from_rfc3339 s.last_used_at ≡ some last
      → 0 < ttl_days
      → ttl_days < 2 ^ 63
      → ttl_days ≤ c.max_days
      → last + ttl_days * day < later
      → last + ttl_days * day ≤ c.max_utc
      → (left : List Session) × (validate_session c later ttl_days token ss ≡ replies left false)
        × ((at days : ℕ) → validate_session c at days token left ≡ replies left false)
  unfolding validate_session validity
  validate_session-expired later ttl_days last token ss s f p z w m l u =
      let hash = c.sha256_hex token in
      (
        delete_hash hash ss,
        ap (settle_found c later ttl_days hash ss) f
            ∙ ap (settle c later hash ss) (
                ap
                  (λ b.
                    if b
                    then compared c later (ttl_days * day) (c.parse_from_rfc3339 s.last_used_at)
                    else alive)
                  (in_force ttl_days z w m)
                ∙ (ap (compared c later (ttl_days * day)) p
                    ∙ compared-expired later (ttl_days * day) last l u)),
        (λ at days. rw (find_session-delete_same hash ss)),
      )
