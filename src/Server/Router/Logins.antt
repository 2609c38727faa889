-- ===== src/Server/Router/Logins.antt =====
-- From the login to the logout.
use sub_merge.Server.Store.Action.{answered, on_reply, after}
use sub_merge.Base.{
  ℕ, ◌+◌, ◌*◌, ◌≤◌, ◌≡◌, refl, sym, ap, ◌∙◌, subst, true, false, not, Option, none, some, List, [],
  ◌∷◌, ◌++◌, arith,
}
use sub_merge.Base.Text.{Text, eqb, eqb_iff, trim}
use sub_merge.Base.Result.{Result, err, ok}
use sub_merge.Server.Sessions.{
  Session, Clockwork, day, whole_seconds, find_session, delete_hash, replies, create_session,
  delete_session,
}
use sub_merge.Server.Sessions.Lifetime.{validity-alive}
use sub_merge.Server.Sessions.Table.{
  find_session-delete_same, find_session-delete_other, find_session-append,
}
use sub_merge.Server.Users.{verify_user}
use sub_merge.Server.Auth.{Headers, parse_bearer, extract_bearer}
use sub_merge.Server.App.{App, Call}
use sub_merge.Server.Store.{Store}
use sub_merge.Server.Routes.Auth.{LoginRequest, login, logout}
use sub_merge.Server.Router.Membership.{Ends}
use sub_merge.Server.Router.Rules.{not-false}
use sub_merge.Server.Router.Inversion.{found-answered, pass-answered}
use sub_merge.Server.Router.Authorized.{Admitted, require_admin-Admitted}
use sub_merge.Server.Auth.Admin.{require_admin}

-- The row of a session made now.
abbrev fresh_row : Clockwork → ℕ → Text → Session
fresh_row c now secret =
    let at = c.to_rfc3339 (whole_seconds now) in
    record { token_hash = c.sha256_hex secret; created_at = at; last_used_at = at }

create_session-fresh :
    (c : Clockwork) (now : ℕ) (secret : Text) (ss : List Session)
    → find_session (c.sha256_hex secret) ss ≡ none
    → create_session c now secret ss ≡ replies (ss ++ fresh_row c now secret ∷ []) secret
unfolding create_session
create_session-fresh c now secret ss n = rw (n, create_session) refl

-- `require_admin` lets the request pass.
abbrev pub Passes : App → Call → Store → Type 0
Passes app call st =
    (ss : List Session) × (require_admin app call st ≡ answered (record st { sessions = ss }) tt)

-- A login leaves the token that it answers as one with which requests pass, for as long as the days
-- of a session last.
abbrev pub LogsIn : App → Call → Store → Store → Text → Type 0
LogsIn app call st final t =
    (t ≡ call.fresh_token)
    × (final.users ≡ st.users)
    × ((later : Call)
        → parse_bearer later.headers ≡ ok t
        → later.now ≤ whole_seconds call.now + app.session_ttl_days * day
        → Passes app later final)

made-LogsIn :
    (app : App) (call : Call) (st : Store)
    → find_session (app.clock.sha256_hex call.fresh_token) st.sessions ≡ none
    → app.clock.parse_from_rfc3339 (app.clock.to_rfc3339 (whole_seconds call.now))
      ≡ some (whole_seconds call.now)
    → whole_seconds call.now + app.session_ttl_days * day ≤ app.clock.max_utc
    → LogsIn app call st
        (record st { sessions = st.sessions ++ fresh_row app.clock call.now call.fresh_token ∷ [] })
        call.fresh_token
made-LogsIn app call st n p u =
    let hash = app.clock.sha256_hex call.fresh_token in
    let row = fresh_row app.clock call.now call.fresh_token in
    (
      refl,
      refl,
      λ later b l.
          require_admin-Admitted app later (record st { sessions = st.sessions ++ row ∷ [] })
            (
              call.fresh_token,
              row,
              b,
              find_session-append hash st.sessions row n ((eqb_iff hash hash).1 refl),
              validity-alive app.clock later.now app.session_ttl_days (whole_seconds call.now)
                  row.last_used_at p l u,
            ),
    )

-- A login that is answered has checked the password of a known user, and the token that it answers
-- is one with which every request that carries it passes `require_admin`, up to the last day of the
-- session; this where the fresh token is that of no session yet, chrono reads back the moment that
-- it wrote, and the last day is a moment of chrono.
pub login-LogsIn :
    (app : App) (call : Call) (b : LoginRequest) (st final : Store) (t : Text)
    → find_session (app.clock.sha256_hex call.fresh_token) st.sessions ≡ none
    → app.clock.parse_from_rfc3339 (app.clock.to_rfc3339 (whole_seconds call.now))
      ≡ some (whole_seconds call.now)
    → whole_seconds call.now + app.session_ttl_days * day ≤ app.clock.max_utc
    → login app call (ok b) st ≡ answered final t
    → (verify_user app.argon (trim b.username) b.password st.users ≡ true)
      × LogsIn app call st final t
unfolding login
login-LogsIn app call b st final t n p u h =
    let known = verify_user app.argon (trim b.username) b.password st.users in
    let (v, h1) = pass-answered st (not known) _ _ h in
    let made =
      sym (
        ap (λ r. on_reply r st)
          (create_session-fresh app.clock call.now call.fresh_token st.sessions n))
      ∙ h1 in
    (not-false known v, subst (Ends (LogsIn app call st)) made (made-LogsIn app call st n p u))

bearer-extracted :
    (headers : Headers) (secret : Text)
    → extract_bearer headers ≡ some secret
    → parse_bearer headers ≡ ok secret
unfolding extract_bearer
bearer-extracted headers secret h = by_result (parse_bearer headers) h
  where
    by_result :
        (r : Result Text Text)
        → ◌≡◌ {A = Option Text} (elim r [ ok t ↦ some t | err msg ↦ none ]) (some secret)
        → r ≡ ok secret
    by_result (ok t) h = ground arith
    by_result (err msg) h = ground arith

ok-injective : {r : Result Text Text} {a b : Text} → r ≡ ok a → r ≡ ok b → a ≡ b
ok-injective p q = ground arith

none-ne-some : {o : Option Session} {s : Session} → o ≡ none → o ≡ some s → ⊥
none-ne-some p q = ground arith

-- What a logout leaves.
abbrev pub LogsOut : App → Text → Store → Store → Type 0
LogsOut app secret st final =
    ((later : Call) → parse_bearer later.headers ≡ ok secret → ¬ Admitted app later final)
    × ((g : Text)
        → eqb (app.clock.sha256_hex secret) g ≡ false
        → find_session g final.sessions ≡ find_session g st.sessions)
    × (final ≡ record st { sessions = final.sessions })

deleted-LogsOut :
    (app : App) (secret : Text) (st : Store)
    → LogsOut app secret st (record st { sessions = delete_session app.clock secret st.sessions })
unfolding delete_session
deleted-LogsOut app secret st =
    let hash = app.clock.sha256_hex secret in
    (
      λ later p (other, s, q, f, v).
          none-ne-some
            (ap (λ t. find_session (app.clock.sha256_hex t) (delete_hash hash st.sessions))
                (ok-injective q p)
              ∙ find_session-delete_same hash st.sessions)
            f,
      λ g n. find_session-delete_other hash g st.sessions n,
      refl,
    )

-- After a logout that is answered, no request with the same token is admitted, at any moment; the
-- rows of all other sessions, and all other tables, are as they were.
pub logout-LogsOut :
    (app : App) (call : Call) (st final : Store) (u : Unit {0})
    → logout app call st ≡ answered final u
    → (secret : Text) × (parse_bearer call.headers ≡ ok secret) × LogsOut app secret st final
unfolding logout
logout-LogsOut app call st final u h =
    let (secret, e, h1) = found-answered st (extract_bearer call.headers) _ _ h in
    (
      secret,
      bearer-extracted call.headers secret e,
      subst (LogsOut app secret st) (ap after h1) (deleted-LogsOut app secret st),
    )
