-- ===== src/Server/Router/Inversion.antt =====
-- What is known of the parts of a handler that has answered.
use sub_merge.Server.Store.Action.{
  Outcome, answered, failed, aborted, Action, ◌>>=◌, found_or, on_reply, on_sessions, raise_if,
  after,
}
use sub_merge.Base.{
  ◌≡◌, refl, ap, ◌∙◌, subst, Bool, true, false, not, Option, none, some, List, arith,
}
use sub_merge.Base.Text.{Text, str}
use sub_merge.Base.Result.{Result, err, ok}
use sub_merge.Base.Tests.{if◌then◌else◌}
use sub_merge.Server.ApiError.{ApiError, unauthorized}
use sub_merge.Server.Sessions.{Session, Reply, replies, refuses, panics, validate_session}
use sub_merge.Server.Auth.{parse_bearer}
use sub_merge.Server.Auth.Admin.{bearer_or_unauthorized, require_admin}
use sub_merge.Server.App.{App, Call}
use sub_merge.Server.Store.{Store}
use sub_merge.Server.Router.Rules.{continued}

module _ {A B : Type 0} {end : Store} {b : B} where
  pub continued-answered :
      (o : Outcome A) (f : A → Action B)
      → continued f o ≡ answered end b
      → (mid : Store) × (a : A) × (o ≡ answered mid a) × (f a mid ≡ answered end b)
  continued-answered (answered mid a) f h = (mid, a, refl, h)
  continued-answered (failed mid e) f h = ground arith
  continued-answered (aborted mid) f h = ground arith

  pub found-answered :
      (st : Store) (o : Option A) (e : ApiError) (f : A → Action B)
      → continued f (found_or e o st) ≡ answered end b
      → (a : A) × (o ≡ some a) × (f a st ≡ answered end b)
  found-answered st (some a) e f h = (a, refl, h)
  found-answered st none e f h = ground arith

module _ {B : Type 0} {end : Store} {b : B} where
  pub pass-answered :
      (st : Store) (c : Bool) (e : ApiError) (m : Action B)
      → continued (λ u. m) (raise_if c e st) ≡ answered end b
      → (c ≡ false) × (m st ≡ answered end b)
  pass-answered st true e m h = ground arith
  pass-answered st false e m h = (refl, h)

reply-answered :
    {A : Type 0} (st mid : Store) (r : Reply A) (a : A)
    → on_reply r st ≡ answered mid a
    → (ss : List Session) × (mid ≡ record st { sessions = ss })
reply-answered st mid (replies ss x) a h = (ss, ground arith)
reply-answered st mid (refuses ss) a h = ground arith
reply-answered st mid panics a h = ground arith

module _ (app : App) (call : Call) (st mid : Store) (u : Unit {0}) where
  gate-answered :
      (r : Result Text Text)
      → continued
          (λ secret.
            on_sessions (validate_session app.clock call.now app.session_ttl_days secret)
            >>= (λ v. raise_if (not v) (unauthorized (str "invalid session"))))
          (bearer_or_unauthorized r st)
        ≡ answered mid u
      → (ss : List Session) × (mid ≡ record st { sessions = ss })
  gate-answered (err msg) h = ground arith
  gate-answered (ok secret) h =
      let r = validate_session app.clock call.now app.session_ttl_days secret st.sessions in
      let (s1, v, e, h1) = continued-answered (on_reply r st) _ h in
      let (ss, q) = reply-answered st s1 r v e in (ss, kept s1 (not v) h1 ∙ q)
    where
      kept :
          (s1 : Store) (c : Bool)
          → raise_if c (unauthorized (str "invalid session")) s1 ≡ answered mid u
          → mid ≡ s1
      kept s1 true h = ground arith
      kept s1 false h = ground arith

-- Behind the check of the session only the sessions have changed.
pub admin-answered :
    {B : Type 0} {end : Store} {b : B} (app : App) (call : Call) (st : Store) (m : Action B)
    → continued (λ u. m) (require_admin app call st) ≡ answered end b
    → (ss : List Session) × (m (record st { sessions = ss }) ≡ answered end b)
unfolding require_admin
admin-answered {B} {end} {b} app call st m h =
    let (mid, u, e, h1) = continued-answered (require_admin app call st) (λ u. m) h in
    let (ss, q) = gate-answered app call st mid u (parse_bearer call.headers) e in
    (ss, subst (λ s. m s ≡ answered end b) q h1)

-- A statement under a constraint.
pub constraint-answered :
    {A : Type 0} (st mid final : Store) (c : Bool) (e : ApiError) (x y : A)
    → (if c then failed st e else answered mid x) ≡ answered final y
    → (c ≡ false) × (mid ≡ final) × (x ≡ y)
constraint-answered st mid final true e x y h = ground arith
constraint-answered st mid final false e x y h = (refl, ap after h, ground arith)
