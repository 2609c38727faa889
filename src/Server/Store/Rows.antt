-- ===== src/Server/Store/Rows.antt =====
-- What the statements keep of the rows of each table.
use sub_merge.Base.{ℕ, ◌≤◌, ◌≡◌, refl, inl, inr, true, List, [], ◌∷◌, ◌++◌, arith}
use sub_merge.Base.Tests.{◌==◌, Bool-cases}
use sub_merge.Base.Text.{Text, eqb}
use sub_merge.Base.Lists.{length, All}
use sub_merge.Base.Keys.{filter, has, has-append}
use sub_merge.Server.Users.{User, insert_if_empty, set_hash, valid_username}
use sub_merge.Server.Sources.{
  SourceDto, source_ids, set_source, drop_source, is_kind, has-drop_source,
}
use sub_merge.Server.Combineds.{
  Combined, Membership, combined_keys, drop_combined, drop_members_of, drop_members_in,
}
use sub_merge.Server.Combineds.Names.{has-drop_combined}
use sub_merge.Server.Combineds.Members.{Refers}

pub insert_if_empty-one :
    (u : User) (us : List User) → length us ≤ 1 → length (insert_if_empty u us).0 ≤ 1
insert_if_empty-one u [] h = omega arith
insert_if_empty-one u (v ∷ us) h = h

pub insert_if_empty-names :
    (u : User) (us : List User)
    → valid_username u.username ≡ true
    → All (λ u. valid_username u.username ≡ true) us
    → All (λ u. valid_username u.username ≡ true) (insert_if_empty u us).0
insert_if_empty-names u [] h k = (h, tt)
insert_if_empty-names u (v ∷ us) h k = k

pub length-set_hash :
    (hash name : Text) (us : List User) → length (set_hash hash name us) ≡ length us
unfolding set_hash
length-set_hash hash name [] = refl
length-set_hash hash name (u ∷ us) = ground (arith, length-set_hash hash name us)

pub set_hash-names :
    (P : Text → Type 0) (hash name : Text) (us : List User)
    → All (λ u. P u.username) us
    → All (λ u. P u.username) (set_hash hash name us)
unfolding set_hash
set_hash-names P hash name [] h = tt
set_hash-names P hash name (u ∷ us) (p, h) = elim (Bool-cases (eqb u.username name)) [
  | inl e ↦ rw (e) (p, set_hash-names P hash name us h)
  | inr e ↦ rw (e) (p, set_hash-names P hash name us h)
]

pub set_source-kinds :
    (id : ℕ) (url name kind : Text) (ss : List SourceDto)
    → is_kind kind ≡ true
    → All (λ s. is_kind s.kind ≡ true) ss
    → All (λ s. is_kind s.kind ≡ true) (set_source id url name kind ss)
unfolding set_source
set_source-kinds id url name kind [] q h = tt
set_source-kinds id url name kind (s ∷ ss) q (p, h) = elim (Bool-cases (s.id == id)) [
  | inl e ↦ rw (e) (q, set_source-kinds id url name kind ss q h)
  | inr e ↦ rw (e) (p, set_source-kinds id url name kind ss q h)
]

-- A larger table has all that the members refer to.
pub Refers-weaken :
    (cs cs' ss ss' : List ℕ) (ms : List Membership)
    → ((n : ℕ) → has n cs ≡ true → has n cs' ≡ true)
    → ((n : ℕ) → has n ss ≡ true → has n ss' ≡ true)
    → Refers cs ss ms
    → Refers cs' ss' ms
Refers-weaken cs cs' ss ss' [] f g h = tt
Refers-weaken cs cs' ss ss' (m ∷ ms) f g ((p, q), h) =
    ((f m.0 p, g m.1 q), Refers-weaken cs cs' ss ss' ms f g h)

pub has-append_one : (n k : ℕ) (xs : List ℕ) → has n xs ≡ true → has n (xs ++ k ∷ []) ≡ true
has-append_one n k xs h = ground (arith, has-append n xs (k ∷ []))

pub has-last : (n : ℕ) (xs : List ℕ) → has n (xs ++ n ∷ []) ≡ true
unfolding has
has-last n xs = ground (arith, has-append n xs (n ∷ []))

-- What the deletion of a source, or of a combined subscription, leaves.
pub Refers-drop_source :
    (cs : List ℕ) (id : ℕ) (ss : List SourceDto) (ms : List Membership)
    → Refers cs (source_ids ss) ms
    → Refers cs (source_ids (drop_source id ss)) (drop_members_in id ms)
unfolding filter
Refers-drop_source cs id ss [] h = tt
Refers-drop_source cs id ss (m ∷ ms) ((p, q), h) = elim (Bool-cases (m.1 == id)) [
  | inl e ↦ rw (e) (Refers-drop_source cs id ss ms h)
  | inr e ↦
      rw (e) ((p, ground (arith, has-drop_source m.1 id ss)), Refers-drop_source cs id ss ms h)
]

pub Refers-drop_combined :
    (id : ℕ) (cs : List Combined) (ss : List ℕ) (ms : List Membership)
    → Refers (combined_keys cs) ss ms
    → Refers (combined_keys (drop_combined id cs)) ss (drop_members_of id ms)
unfolding filter
Refers-drop_combined id cs ss [] h = tt
Refers-drop_combined id cs ss (m ∷ ms) ((p, q), h) = elim (Bool-cases (m.0 == id)) [
  | inl e ↦ rw (e) (Refers-drop_combined id cs ss ms h)
  | inr e ↦
      rw (e) ((ground (arith, has-drop_combined m.0 id cs), q), Refers-drop_combined id cs ss ms h)
]
