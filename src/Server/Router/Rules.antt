-- ===== src/Server/Router/Rules.antt =====
-- What the parts of a handler write: rules for each way to begin one.
use sub_merge.Server.Store.Action.{
  Outcome, answered, failed, aborted, Action, ◌>>=◌, lift, found_or, on_reply, on_sessions,
  raise_if, after,
}
use sub_merge.Base.{◌≡◌, refl, Bool, true, false, not, Option, none, some, arith}
use sub_merge.Base.Text.{Text, str}
use sub_merge.Base.Result.{Result, err, ok}
use sub_merge.Server.ApiError.{Rejection, ApiError, unauthorized}
use sub_merge.Server.Sessions.{Reply, replies, refuses, panics, validate_session}
use sub_merge.Server.Auth.{parse_bearer}
use sub_merge.Server.Auth.Admin.{bearer_or_unauthorized, require_admin}
use sub_merge.Server.App.{App, Call}
use sub_merge.Server.Store.{Store}
use sub_merge.Server.Store.Step.{Step, Steps}
use sub_merge.Server.Routes.Auth.{json_body}
use sub_merge.Server.Routes.Sources.{path_id}
use sub_merge.Server.Routes.Preview.{query}

pub Steps-trans : {a b c : Store} → Steps a b → Steps b c → Steps a c
Steps-trans p Steps.here = p
Steps-trans p (Steps.next q s) = Steps.next (Steps-trans p q) s

-- What a call that begins at `st` leaves is reached by statements.
abbrev pub Writes : {A : Type 0} → Store → Outcome A → Type 0
Writes st o = Steps st (after o)

-- A call and what follows it.
abbrev pub continued : {A B : Type 0} → (A → Action B) → Outcome A → Outcome B
continued f o = elim o [
  | answered st a ↦ f a st
  | failed st e ↦ failed st e
  | aborted st ↦ aborted st
]

module _ {A B : Type 0} (st : Store) where
  pub bind-Writes :
      (o : Outcome A) (f : A → Action B)
      → Writes st o
      → ((st' : Store) (a : A) → o ≡ answered st' a → Writes st' (f a st'))
      → Writes st (continued f o)
  bind-Writes (answered st' a) f w h = Steps-trans w (h st' a refl)
  bind-Writes (failed st' e) f w h = w
  bind-Writes (aborted st') f w h = w

  pub body-Writes :
      (r : Result Rejection A) (f : A → Action B)
      → ((a : A) → Writes st (f a st))
      → Writes st (continued f (json_body r st))
  body-Writes (ok a) f h = h a
  body-Writes (err e) f h = Steps.here

  pub path-Writes :
      (r : Result Rejection A) (f : A → Action B)
      → ((a : A) → Writes st (f a st))
      → Writes st (continued f (path_id r st))
  path-Writes (ok a) f h = h a
  path-Writes (err e) f h = Steps.here

  pub query-Writes :
      (r : Result Rejection A) (f : A → Action B)
      → ((a : A) → Writes st (f a st))
      → Writes st (continued f (query r st))
  query-Writes (ok a) f h = h a
  query-Writes (err e) f h = Steps.here

  pub lift-Writes :
      (r : Result ApiError A) (f : A → Action B)
      → ((a : A) → r ≡ ok a → Writes st (f a st))
      → Writes st (continued f (lift r st))
  lift-Writes (ok a) f h = h a refl
  lift-Writes (err e) f h = Steps.here

  pub found-Writes :
      (o : Option A) (e : ApiError) (f : A → Action B)
      → ((a : A) → o ≡ some a → Writes st (f a st))
      → Writes st (continued f (found_or e o st))
  found-Writes (some a) e f h = h a refl
  found-Writes none e f h = Steps.here

  pub reply-Writes :
      (r : Reply A) (f : A → Action B)
      → ((st' : Store) (a : A) → Writes st' (f a st'))
      → Writes st (continued f (on_reply r st))
  reply-Writes (replies ss a) f h =
      Steps-trans (Steps.next Steps.here (Step.writes_sessions ss)) (h _ a)
  reply-Writes (refuses ss) f h = Steps.next Steps.here (Step.writes_sessions ss)
  reply-Writes panics f h = Steps.here

module _ {B : Type 0} (st : Store) where
  pub pass-Writes :
      (c : Bool) (e : ApiError) (m : Action B)
      → (c ≡ false → Writes st (m st))
      → Writes st (continued (λ u. m) (raise_if c e st))
  pass-Writes true e m h = Steps.here
  pass-Writes false e m h = h refl

  pub admin-Writes :
      (app : App) (call : Call) (m : Action B)
      → ((st' : Store) → Writes st' (m st'))
      → Writes st (continued (λ u. m) (require_admin app call st))
  unfolding require_admin
  admin-Writes app call m h =
      bind-Writes st (require_admin app call st) (λ u. m) (gate (parse_bearer call.headers))
        (λ st' a e. h st')
    where
      gate :
          (r : Result Text Text)
          → Writes st (
              continued
                (λ bearer.
                  on_sessions (validate_session app.clock call.now app.session_ttl_days bearer)
                  >>= (λ v. raise_if (not v) (unauthorized (str "invalid session"))))
                (bearer_or_unauthorized r st))
      gate (err msg) = Steps.here
      gate (ok bearer) =
          reply-Writes st
            (validate_session app.clock call.now app.session_ttl_days bearer st.sessions)
            (λ v. raise_if (not v) (unauthorized (str "invalid session")))
            (λ st' v. ended st' (not v))
        where
          ended :
              (st' : Store) (c : Bool)
              → Writes st' (raise_if c (unauthorized (str "invalid session")) st')
          ended st' true = Steps.here
          ended st' false = Steps.here

pub one : {a b : Store} → Step a b → Steps a b
one s = Steps.next Steps.here s

pub not-false : (b : Bool) → not b ≡ false → b ≡ true
not-false true h = refl
not-false false h = ground arith
