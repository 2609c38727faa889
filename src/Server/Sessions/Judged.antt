-- ===== src/Server/Sessions/Judged.antt =====
-- The check of the last use in `validate_session`, described by the order of moments.
use sub_merge.Base.{
  ℕ, ◌+◌, ◌*◌, ◌^◌, ◌≤◌, ◌<◌, ◌≡◌, refl, ◌⊎◌, inl, inr, true, false, ◌&&◌, Option, none, some,
  arith,
}
use sub_merge.Base.Tests.{ltb, leb, Bool-cases}
use sub_merge.Base.Text.{Text}
use sub_merge.Server.Sessions.{
  Clockwork, day, Validity, alive, expired, overflowed, compared, validity,
}

-- The number of days limits a session.
abbrev pub InForce : Clockwork → ℕ → Type 0
InForce c ttl_days = (0 < ttl_days) × (ttl_days < 2 ^ 63) × (ttl_days ≤ c.max_days)

-- The text is that of a moment with a property.
abbrev pub ReadsAs : Clockwork → Text → (ℕ → Type 0) → Type 0
ReadsAs c text p = (last : ℕ) × (c.parse_from_rfc3339 text ≡ some last) × p last

-- No limit, or the last day is a moment of chrono and not over.
abbrev pub IsAlive : Clockwork → ℕ → ℕ → Text → Type 0
IsAlive c now ttl_days text =
    (¬ InForce c ttl_days)
    ⊎ ReadsAs c text (λ last. (last + ttl_days * day ≤ c.max_utc) × (now ≤ last + ttl_days * day))

-- The last use cannot be read, or its last day is over.
abbrev pub IsExpired : Clockwork → ℕ → ℕ → Text → Type 0
IsExpired c now ttl_days text =
    InForce c ttl_days
    × ((c.parse_from_rfc3339 text ≡ none)
        ⊎ ReadsAs c text
            (λ last. (last + ttl_days * day ≤ c.max_utc) × (last + ttl_days * day < now)))

-- The last day is no moment of chrono.
abbrev pub Overflows : Clockwork → ℕ → ℕ → Text → Type 0
Overflows c now ttl_days text =
    InForce c ttl_days × ReadsAs c text (λ last. c.max_utc < last + ttl_days * day)

abbrev pub Judges : Clockwork → ℕ → ℕ → Text → Validity → Type 0
Judges c now ttl_days text alive = IsAlive c now ttl_days text
Judges c now ttl_days text expired = IsExpired c now ttl_days text
Judges c now ttl_days text overflowed = Overflows c now ttl_days text

module _ (c : Clockwork) (now ttl_days : ℕ) (text : Text) where
  compared-Judges :
      (o : Option ℕ)
      → InForce c ttl_days
      → c.parse_from_rfc3339 text ≡ o
      → Judges c now ttl_days text (compared c now (ttl_days * day) o)
  compared-Judges none f e = (f, inl e)
  compared-Judges (some last) f e = elim (Bool-cases (ltb c.max_utc (last + ttl_days * day))) [
    | inl p ↦ rw (p) (f, (last, e, ground arith))
    | inr p ↦ rw (p) (elim (Bool-cases (ltb (last + ttl_days * day) now)) [
      | inl q ↦ rw (q) (f, inr (last, e, (ground arith, ground arith)))
      | inr q ↦ rw (q) (inr (last, e, (ground arith, ground arith)))
    ])
  ]

  force-cases :
      (((ltb ttl_days (2 ^ 63) && (ltb 0 ttl_days && leb ttl_days c.max_days)) ≡ true)
        × InForce c ttl_days)
      ⊎ (((ltb ttl_days (2 ^ 63) && (ltb 0 ttl_days && leb ttl_days c.max_days)) ≡ false)
          × (¬ InForce c ttl_days))
  force-cases = ground arith

  -- `validity` judges by the order of moments.
  pub validity-Judges : Judges c now ttl_days text (validity c now ttl_days text)
  unfolding validity
  validity-Judges = elim force-cases [
    | inl (e, f) ↦ rw (e) (compared-Judges (c.parse_from_rfc3339 text) f refl)
    | inr (e, n) ↦ rw (e) (inl n)
  ]
