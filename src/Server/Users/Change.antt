-- ===== src/Server/Users/Change.antt =====
-- What the set-up of the administrator and the change of a password do.
use sub_merge.Base.{
  ℕ, ◌≤◌, ◌≡◌, refl, sym, ap, ◌∙◌, subst, inl, inr, Bool, true, false, not, Option, none, some,
  List, [], ◌∷◌, ◌++◌, map, arith,
}
use sub_merge.Base.Tests.{ltb, if◌then◌else◌, Bool-cases}
use sub_merge.Base.Text.{Text, str, eqb, eqb_iff, len, trim}
use sub_merge.Base.Lists.{length}
use sub_merge.Base.Result.{Result, err, ok, ok_or, ◌>>=◌}
use sub_merge.Server.Sessions.{delete_all_sessions}
use sub_merge.Server.Users.{
  User, Argon, hash_failed, find_user, insert_if_empty, create_user_if_empty, verified, verify_user,
  set_hash, update_password, get_username, valid_username, SetupRequest, created_or_conflict, setup,
  Accounts, change_password,
}
use sub_merge.Server.ApiError.{ApiError, internal}

-- A sequence that succeeds, taken apart.
bind-ok :
    {A B : Type 0} (m : Result ApiError A) (f : A → Result ApiError B) {b : B}
    → (m >>= f) ≡ ok b
    → (a : A) × (m ≡ ok a) × (f a ≡ ok b)
bind-ok (ok a) f h = (a, refl, h)
bind-ok (err e) f h = ground arith

passes :
    {A : Type 0} (c : Bool) (e : ApiError) (m : Result ApiError A) {b : A}
    → (if c then err e else m) ≡ ok b
    → (c ≡ false) × (m ≡ ok b)
passes true e m h = ground arith
passes false e m h = (refl, h)

given : {A : Type 0} (o : Option A) (e : ApiError) {a : A} → ok_or o e ≡ ok a → o ≡ some a
given none e h = ground arith
given (some x) e h = ground arith

created-ok :
    (u : User) (us us' : List User)
    → created_or_conflict (insert_if_empty u us) ≡ ok us'
    → (us ≡ []) × (us' ≡ u ∷ [])
created-ok u [] us' h = (refl, ground arith)
created-ok u (v ∷ vs) us' h = ground arith

not-false : (b : Bool) → not b ≡ false → b ≡ true
not-false true h = refl
not-false false h = ground arith

ok-injective : {A : Type 0} {x y : A} {m : Result ApiError A} → m ≡ ok x → m ≡ ok y → x ≡ y
ok-injective h g = ground arith

not_less : (m n : ℕ) → ltb m n ≡ false → n ≤ m
not_less m n h = ground arith

abbrev rehashed : Text → User → Option User
rehashed hash u = some (record u { password_hash = hash })

find_user-same :
    (name hash : Text) (us : List User) (u : User)
    → find_user name us ≡ some u
    → find_user name (set_hash hash name us) ≡ some (record u { password_hash = hash })
unfolding find_user set_hash
find_user-same name hash [] u h = ground arith
find_user-same name hash (v ∷ us) u h = elim (Bool-cases (eqb v.username name)) [
  | inl e ↦ rw (e) (rw (e) (ap (rehashed hash) (some-injective (rw (e) at h))))
  | inr e ↦ rw (e) (rw (e) (find_user-same name hash us u (rw (e) at h)))
]
  where
    some-injective : some v ≡ some u → v ≡ u
    some-injective q = ground arith

usernames-set_hash :
    (name hash : Text) (us : List User)
    → map (λ u. u.username) (set_hash hash name us) ≡ map (λ u. u.username) us
unfolding set_hash
usernames-set_hash name hash [] = refl
usernames-set_hash name hash (u ∷ us) = elim (Bool-cases (eqb u.username name)) [
  | inl e ↦ rw (e) (ap (λ ns. u.username ∷ ns) (usernames-set_hash name hash us))
  | inr e ↦ rw (e) (ap (λ ns. u.username ∷ ns) (usernames-set_hash name hash us))
]

created-inserts :
    (u : User) (us us' : List User)
    → created_or_conflict (insert_if_empty u us) ≡ ok us'
    → us' ≡ (insert_if_empty u us).0
created-inserts u [] us' h = ground arith
created-inserts u (v ∷ vs) us' h = ground arith

-- A set-up writes by one conditional insert, of a valid name.
pub setup-inserts :
    (a : Argon) (now : Text) (b : SetupRequest) (us us' : List User)
    → setup a now b us ≡ ok us'
    → (u : User) × (valid_username u.username ≡ true) × (us' ≡ (insert_if_empty u us).0)
unfolding setup create_user_if_empty
setup-inserts a now b us us' h =
    let name = trim b.username in
    let (v, h1) = passes (not (valid_username name)) _ _ h in
    let (s, h2) = passes (ltb (len b.password) 8) _ _ h1 in
    let (c, h3) = passes (not (eqb b.password b.password_confirm)) _ _ h2 in
    let (r, e, h4) = bind-ok (create_user_if_empty a now name b.password us) _ h3 in
    let (hash, g, h5) = bind-ok (ok_or (a.hash_password b.password) hash_failed) _ e in
    let u : User = record { username = name; password_hash = hash; created_at = now } in
    (
      u,
      not-false _ v,
      created-inserts u us us'
          (subst (λ t. created_or_conflict t ≡ ok us') (sym (ok-injective refl h5)) h4),
    )

-- A change of password writes one hash.
pub change_password-sets :
    (a : Argon) (old new : Text) (st st' : Accounts)
    → change_password a old new st ≡ ok st'
    → (hash : Text) × (name : Text) × (st'.users ≡ set_hash hash name st.users)
unfolding change_password update_password
change_password-sets a old new st st' h =
    let (name, e, h1) =
      bind-ok (ok_or (get_username st.users) (internal (str "no admin user"))) _ h in
    let (v, h2) = passes (not (verify_user a name old st.users)) _ _ h1 in
    let (s, h3) = passes (ltb (len new) 8) _ _ h2 in
    let (us, f, h4) = bind-ok (update_password a name new st.users) _ h3 in
    let (hash, g, h5) = bind-ok (ok_or (a.hash_password new) hash_failed) _ f in
    let (u, w, h6) =
      bind-ok (ok_or (find_user name st.users) (internal (str "no user with username " ++ name))) _
        h5 in
    (hash, name, sym (ap (λ t. t.users) (ok-injective refl h4)) ∙ sym (ok-injective refl h6))

module _ (a : Argon)
    (l : (p h : Text) → a.hash_password p ≡ some h → a.verify_password_hash p h ≡ true) where
  find_one : (name : Text) (u : User) → u.username ≡ name → find_user name (u ∷ []) ≡ some u
  unfolding find_user
  find_one name u e = rw ((eqb_iff u.username name).1 e)

  verify_user-first :
      (name p h at : Text)
      → a.hash_password p ≡ some h
      → verify_user a name p (record { username = name; password_hash = h; created_at = at } ∷ [])
        ≡ true
  unfolding verify_user find_user
  verify_user-first name p h at e =
      let u : User = record { username = name; password_hash = h; created_at = at } in
      ap (verified a p) (find_one name u refl) ∙ l p h e

  -- If argon2 accepts what it has hashed, then a set-up that succeeds found no user, and leaves
  -- exactly one, whose trimmed name is valid, with whom the password of the request logs in.
  pub setup-first :
      (now : Text) (b : SetupRequest) (us us' : List User)
      → setup a now b us ≡ ok us'
      → (us ≡ [])
        × (length us' ≡ 1)
        × (valid_username (trim b.username) ≡ true)
        × (8 ≤ len b.password)
        × (verify_user a (trim b.username) b.password us' ≡ true)
  unfolding setup create_user_if_empty
  setup-first now b us us' h =
      let name = trim b.username in
      let (v, h1) = passes (not (valid_username name)) _ _ h in
      let (s, h2) = passes (ltb (len b.password) 8) _ _ h1 in
      let (c, h3) = passes (not (eqb b.password b.password_confirm)) _ _ h2 in
      let (r, e, h4) = bind-ok (create_user_if_empty a now name b.password us) _ h3 in
      let (hash, g, h5) = bind-ok (ok_or (a.hash_password b.password) hash_failed) _ e in
      let (n, m) =
        created-ok (record { username = name; password_hash = hash; created_at = now }) us us'
          (subst (λ t. created_or_conflict t ≡ ok us') (sym (ok-injective refl h5)) h4) in
      (
        n,
        rw m,
        not-false _ v,
        not_less (len b.password) 8 s,
        rw m (verify_user-first name b.password hash now (given _ _ g)),
      )

  -- If argon2 accepts what it has hashed, then a change of password that succeeds had the old
  -- password of the first user, keeps the names of all users, leaves no session, and from then on
  -- the new password, of 8 bytes at least, is the one of that user.
  pub change_password-relogin :
      (old new : Text) (st st' : Accounts)
      → change_password a old new st ≡ ok st'
      → (name : Text) × (get_username st.users ≡ some name)
        × (verify_user a name old st.users ≡ true)
        × (8 ≤ len new)
        × (map (λ u. u.username) st'.users ≡ map (λ u. u.username) st.users)
        × (st'.sessions ≡ [])
        × (verify_user a name new st'.users ≡ true)
  unfolding change_password update_password verify_user delete_all_sessions
  change_password-relogin old new st st' h =
      let (name, e, h1) =
        bind-ok (ok_or (get_username st.users) (internal (str "no admin user"))) _ h in
      let (v, h2) = passes (not (verify_user a name old st.users)) _ _ h1 in
      let (s, h3) = passes (ltb (len new) 8) _ _ h2 in
      let (us, f, h4) = bind-ok (update_password a name new st.users) _ h3 in
      let (hash, g, h5) = bind-ok (ok_or (a.hash_password new) hash_failed) _ f in
      let (u, w, h6) =
        bind-ok (ok_or (find_user name st.users) (internal (str "no user with username " ++ name)))
          _ h5 in
      let users_eq : us ≡ set_hash hash name st.users = sym (ok-injective refl h6) in
      let st_eq : record { users = us; sessions = [] } ≡ st' = ok-injective refl h4 in
      (
        name,
        given _ _ e,
        not-false _ v,
        not_less (len new) 8 s,
        subst (λ t. map (λ u. u.username) t.users ≡ map (λ u. u.username) st.users) st_eq
            (subst (λ t. map (λ u. u.username) t ≡ map (λ u. u.username) st.users) (sym users_eq)
              (usernames-set_hash name hash st.users)),
        subst (λ t. t.sessions ≡ []) st_eq refl,
        subst (λ t. verify_user a name new t.users ≡ true) st_eq
            (subst (λ t. verify_user a name new t ≡ true) (sym users_eq)
              (ap (verified a new) (find_user-same name hash st.users u (given _ _ w))
                ∙ l new hash (given _ _ g))),
      )
