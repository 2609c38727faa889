-- ===== src/Server/Sessions/Cleanup.antt =====
-- The clean-up at the start, beside the check of a session.
use sub_merge.Base.{ℕ, ◌+◌, ◌*◌, ◌≤◌, ◌<◌, ◌≡◌, ◌↔◌, ◌⊎◌, true, some, List}
use sub_merge.Base.Text.{Text}
use sub_merge.Server.Sessions.{
  Session, Clockwork, second, day, find_session, expired, validity, used_before,
}

-- Beside the text of the cutoff, the text of a last use is read as a moment and sorts as it: so for
-- RFC 3339 texts of UTC in whole seconds, of years of four digits.
abbrev pub SortsAs : Clockwork → ℕ → Session → Type 0
SortsAs c cut s =
    (last : ℕ) × (c.parse_from_rfc3339 s.last_used_at ≡ some last)
    × ((used_before (c.to_rfc3339 cut) s ≡ true) ↔ (last < cut))

-- What the clean-up makes of the row of a key: it goes only if a validation from then on would
-- refuse it as expired, and it stays only if its days, and one second, are not over.
abbrev pub Cleaned : Clockwork → ℕ → ℕ → Text → Session → List Session → Type 0
Cleaned c now ttl_days hash s left =
    ((find_session hash left ≡ some s)
      × ((last : ℕ) × (c.parse_from_rfc3339 s.last_used_at ≡ some last)
          × (now < last + ttl_days * day + second)))
    ⊎ ((later : ℕ) → now ≤ later → validity c later ttl_days s.last_used_at ≡ expired)
