-- ===== src/Server/Router/Authorized.antt =====
-- Which requests need a session, and what they do without one.
use sub_merge.Server.Store.Action.{
  Outcome, answered, failed, aborted, Action, ◌>>=◌, answer, on_reply, on_sessions, raise_if,
}
use sub_merge.Base.{◌≡◌, refl, ap, ◌∙◌, ◌⊎◌, inl, inr, Bool, true, not, Option, none, some, List}
use sub_merge.Base.Text.{Text, str}
use sub_merge.Base.Result.{Result, err, ok}
use sub_merge.Server.ApiError.{ApiError, unauthorized}
use sub_merge.Server.Sessions.{
  Session, whole_seconds, find_session, touch, Reply, replies, Validity, validity, settle,
  settle_found, validate_session,
}
use sub_merge.Server.Auth.{parse_bearer}
use sub_merge.Server.Auth.Admin.{bearer_or_unauthorized, require_admin}
use sub_merge.Server.App.{App, Call}
use sub_merge.Server.Store.{Store}
use sub_merge.Server.Routes.Config.{get_config, update_config}
use sub_merge.Server.Routes.ClashConfig.{get_clash_config, put_clash_config}
use sub_merge.Server.Routes.Sources.{
  list_sources, create_source, update_source, delete_source, refresh_source,
}
use sub_merge.Server.Routes.Combineds.{
  list_combineds, create_combined, update_combined, delete_combined,
}
use sub_merge.Server.Routes.Preview.{preview_handler}
use sub_merge.Server.Router.{
  Request, setup_status_request, setup_request, login_request, logout_request, get_config_request,
  update_config_request, get_clash_config_request, put_clash_config_request, list_sources_request,
  create_source_request, update_source_request, delete_source_request, refresh_source_request,
  list_combineds_request, create_combined_request, update_combined_request, delete_combined_request,
  preview_request, subscribe_request, Answer, handle,
}
use sub_merge.Server.Router.Rules.{continued}

-- The requests under /admin, but for the set-up, the login and the logout.
abbrev pub NeedsAdmin : Request → Type 0
NeedsAdmin setup_status_request = ⊥
NeedsAdmin (setup_request b) = ⊥
NeedsAdmin (login_request b) = ⊥
NeedsAdmin logout_request = ⊥
NeedsAdmin (subscribe_request name q) = ⊥
NeedsAdmin _ = Unit

-- The request carries the token of a session that is in the table and within its days.
abbrev pub Admitted : App → Call → Store → Type 0
Admitted app call st =
    (secret : Text) × (s : Session) × (parse_bearer call.headers ≡ ok secret)
    × (find_session (app.clock.sha256_hex secret) st.sessions ≡ some s)
    × (validity app.clock call.now app.session_ttl_days s.last_used_at ≡ Validity.alive)

-- The end is 401 with at most the sessions changed, or a panic that changes nothing.
abbrev pub Refused : {A : Type 0} → Store → Outcome A → Type 0
Refused st o =
    ((ss : List Session) × (msg : Text) × (o
        ≡ failed (record st { sessions = ss }) (unauthorized msg)))
    ⊎ (o ≡ aborted st)

module _ {A B : Type 0} (st : Store) where
  Refused-continued : (o : Outcome A) (f : A → Action B) → Refused st o → Refused st (continued f o)
  Refused-continued o f (inl (ss, msg, e)) = inl (ss, msg, ap (continued f) e)
  Refused-continued o f (inr e) = inr (ap (continued f) e)

module _ (app : App) (call : Call) (st : Store) where
  abbrev invalid : ApiError
  invalid = unauthorized (str "invalid session")

  -- The end of `require_admin` on what `validate_session` replied.
  abbrev ended : Reply Bool → Outcome (Unit {0})
  ended r = continued (λ v. raise_if (not v) invalid) (on_reply r st)

  settled :
      (hash secret : Text) (s : Session) (v : Validity)
      → (v ≡ Validity.alive → Admitted app call st)
      → ¬ Admitted app call st
      → Refused st (ended (settle app.clock call.now hash st.sessions v))
  settled hash secret s Validity.alive h n = absurd (n (h refl))
  settled hash secret s Validity.expired h n = inl (_, _, refl)
  settled hash secret s Validity.overflowed h n = inr refl

  found :
      (secret : Text) (o : Option Session)
      → parse_bearer call.headers ≡ ok secret
      → find_session (app.clock.sha256_hex secret) st.sessions ≡ o
      → ¬ Admitted app call st
      → Refused st (
          ended (
            settle_found app.clock call.now app.session_ttl_days
              (app.clock.sha256_hex secret)
              st.sessions
              o))
  unfolding validity
  found secret none p e n = inl (st.sessions, _, refl)
  found secret (some s) p e n =
      settled (app.clock.sha256_hex secret) secret s
        (validity app.clock call.now app.session_ttl_days s.last_used_at)
        (λ a. (secret, s, p, e, a)) n

  gate :
      (r : Result Text Text)
      → parse_bearer call.headers ≡ r
      → ¬ Admitted app call st
      → Refused st (
          continued
            (λ secret.
              on_sessions (validate_session app.clock call.now app.session_ttl_days secret)
              >>= (λ v. raise_if (not v) invalid))
            (bearer_or_unauthorized r st))
  unfolding validate_session validity
  gate (err msg) p n = inl (st.sessions, msg, refl)
  gate (ok secret) p n =
      found secret (find_session (app.clock.sha256_hex secret) st.sessions) p refl n

  require_admin-Refused : ¬ Admitted app call st → Refused st (require_admin app call st)
  unfolding require_admin
  require_admin-Refused n = gate (parse_bearer call.headers) refl n

  accepted :
      (secret : Text) (s : Session)
      → find_session (app.clock.sha256_hex secret) st.sessions ≡ some s
      → validity app.clock call.now app.session_ttl_days s.last_used_at ≡ Validity.alive
      → validate_session app.clock call.now app.session_ttl_days secret st.sessions
        ≡ replies
            (touch
              (app.clock.to_rfc3339 (whole_seconds call.now))
              (app.clock.sha256_hex secret)
              st.sessions)
            true
  unfolding validate_session validity
  accepted secret s f v =
      let hash = app.clock.sha256_hex secret in
      ap (settle_found app.clock call.now app.session_ttl_days hash st.sessions) f
      ∙ ap (settle app.clock call.now hash st.sessions) v

  -- An admitted request passes, and has at most the sessions changed.
  pub require_admin-Admitted :
      Admitted app call st
      → (ss : List Session) × (require_admin app call st
          ≡ answered (record st { sessions = ss }) tt)
  unfolding require_admin
  require_admin-Admitted (secret, s, b, f, v) = (
    touch (app.clock.to_rfc3339 (whole_seconds call.now)) (app.clock.sha256_hex secret) st.sessions,
    ap
          (λ r.
            continued
              (λ token.
                on_sessions (validate_session app.clock call.now app.session_ttl_days token)
                >>= (λ v. raise_if (not v) invalid))
              (bearer_or_unauthorized r st))
          b
        ∙ ap ended (accepted secret s f v),
  )

  guarded :
      {A : Type 0} (m : Action A) (f : A → Answer)
      → ¬ Admitted app call st
      → Refused st (continued (λ a. answer (f a)) (continued (λ u. m) (require_admin app call st)))
  guarded m f n =
      Refused-continued st (continued (λ u. m) (require_admin app call st)) (λ a. answer (f a))
        (Refused-continued st (require_admin app call st) (λ u. m) (require_admin-Refused n))

  -- A request that needs the administrator and does not carry the token of a session that is there
  -- and within its days ends with 401, with at most the sessions changed, or by the panic of
  -- `validate_session`, with nothing changed.
  pub handle-Refused :
      (r : Request) → NeedsAdmin r → ¬ Admitted app call st → Refused st (handle app call r st)
  unfolding handle get_config update_config get_clash_config put_clash_config list_sources
      create_source update_source delete_source refresh_source list_combineds create_combined
      update_combined delete_combined preview_handler
  handle-Refused setup_status_request h n = absurd h
  handle-Refused (setup_request b) h n = absurd h
  handle-Refused (login_request b) h n = absurd h
  handle-Refused logout_request h n = absurd h
  handle-Refused (subscribe_request name q) h n = absurd h
  handle-Refused get_config_request h n = guarded _ _ n
  handle-Refused (update_config_request b) h n = guarded _ _ n
  handle-Refused get_clash_config_request h n = guarded _ _ n
  handle-Refused (put_clash_config_request b) h n = guarded _ _ n
  handle-Refused list_sources_request h n = guarded _ _ n
  handle-Refused (create_source_request b) h n = guarded _ _ n
  handle-Refused (update_source_request p b) h n = guarded _ _ n
  handle-Refused (delete_source_request p) h n = guarded _ _ n
  handle-Refused (refresh_source_request p) h n = guarded _ _ n
  handle-Refused list_combineds_request h n = guarded _ _ n
  handle-Refused (create_combined_request b) h n = guarded _ _ n
  handle-Refused (update_combined_request p b) h n = guarded _ _ n
  handle-Refused (delete_combined_request p) h n = guarded _ _ n
  handle-Refused (preview_request q) h n = guarded _ _ n
