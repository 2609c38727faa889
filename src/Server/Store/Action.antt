-- ===== src/Server/Store/Action.antt =====
-- A handler: it reads and writes the store, and ends with an answer, with an error, or by a panic.
-- What was written stays written whichever way it ends.
use sub_merge.Base.{Bool, true, false, Option, none, some, List}
use sub_merge.Base.Text.{str}
use sub_merge.Base.Result.{Result, err, ok}
use sub_merge.Server.ApiError.{ApiError, internal}
use sub_merge.Server.Sessions.{Session, Reply, replies, refuses, panics}
use sub_merge.Server.Store.{Store}

pub data Outcome (A : Type 0) : Type 0 where
  answered : Store → A → Outcome A
  failed : Store → ApiError → Outcome A
  aborted : Store → Outcome A

abbrev pub Action : Type 0 → Type 0
Action A = Store → Outcome A

infixl 5 ◌>>=◌
abbrev pub ◌>>=◌ : {A B : Type 0} → Action A → (A → Action B) → Action B
◌>>=◌ m f st = elim (m st) [
  | answered st' a ↦ f a st'
  | failed st' e ↦ failed st' e
  | aborted st' ↦ aborted st'
]

infixl 5 ◌>>◌
abbrev pub ◌>>◌ : {A B : Type 0} → Action A → Action B → Action B
m >> k = m >>= λ _. k

module _ {A : Type 0} where
  abbrev pub answer : A → Action A
  answer a st = answered st a

  abbrev pub raise : ApiError → Action A
  raise e st = failed st e

  -- A query.
  abbrev pub select : (Store → A) → Action A
  select f st = answered st (f st)

  -- `?` on a result.
  abbrev pub lift : Result ApiError A → Action A
  lift (ok a) st = answered st a
  lift (err e) st = failed st e

  -- `ok_or_else(|| e)?`
  abbrev pub found_or : ApiError → Option A → Action A
  found_or e (some a) st = answered st a
  found_or e none st = failed st e

  -- A call on the table of sessions.
  abbrev pub on_reply : Reply A → Action A
  on_reply (replies ss a) st = answered (record st { sessions = ss }) a
  on_reply (refuses ss) st =
      failed (record st { sessions = ss }) (internal (str "UNIQUE constraint failed"))
  on_reply panics st = aborted st

abbrev pub on_sessions : {A : Type 0} → (List Session → Reply A) → Action A
on_sessions f st = on_reply (f st.sessions) st

-- `if c { return Err(e) }`
abbrev pub raise_if : Bool → ApiError → Action (Unit {0})
raise_if true e st = failed st e
raise_if false e st = answered st tt

abbrev pub modify : (Store → Store) → Action (Unit {0})
modify f st = answered (f st) tt

-- The store that a call leaves.
abbrev pub after : {A : Type 0} → Outcome A → Store
after (answered st a) = st
after (failed st e) = st
after (aborted st) = st
