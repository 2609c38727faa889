-- ===== src/Server/Combineds.antt =====
-- The tables `combined_subs` and `combined_sources` of crates/server/src/db.rs, under the queries
-- of routes/combineds.rs.
pub mod Names
pub mod Members
use sub_merge.Base.{ℕ, Bool, false, not, ◌&&◌, ◌||◌, Option, none, some, List, [], ◌∷◌, ◌++◌, map}
use sub_merge.Base.Tests.{leb, ◌==◌, if◌then◌else◌}
use sub_merge.Base.Text.{Text, eqb}
use sub_merge.Base.Keys.{filter}
use sub_merge.Base.Sort.{sort}
use sub_merge.Server.Sources.{SourceDto, source_ids, select_in}

-- A row of `combined_subs`.
pub record Combined : Type 0 where
  pub id : ℕ
  pub name : Text
  pub created_at : Text

-- A row of `combined_sources`: the id of the combined subscription, then that of the source.
abbrev pub Membership : Type 0
Membership = ℕ × ℕ

abbrev pub combined_keys : List Combined → List ℕ
combined_keys = map (λ c. c.id)

-- `SELECT name, created_at FROM combined_subs WHERE id = ?`
unfoldable pub find_combined : ℕ → List Combined → Option Combined
find_combined id [] = none
find_combined id (c ∷ cs) = if c.id == id then some c else find_combined id cs

-- `SELECT id FROM combined_subs WHERE name = ?`
unfoldable pub find_name : Text → List Combined → Option Combined
find_name name [] = none
find_name name (c ∷ cs) = if eqb c.name name then some c else find_name name cs

-- Whether another row than that of the id has the name: the constraint UNIQUE.
unfoldable pub taken : Text → ℕ → List Combined → Bool
taken name id [] = false
taken name id (c ∷ cs) = (eqb c.name name && not (c.id == id)) || taken name id cs

-- `UPDATE combined_subs SET name = ? WHERE id = ?`
unfoldable pub set_name : Text → ℕ → List Combined → List Combined
set_name name id [] = []
set_name name id (c ∷ cs) =
    let rest = set_name name id cs in
    if c.id == id then record c { name = name } ∷ rest else c ∷ rest

-- `DELETE FROM combined_subs WHERE id = ?`
abbrev pub drop_combined : ℕ → List Combined → List Combined
drop_combined id = filter (λ c. not (c.id == id))

-- `ON DELETE CASCADE`, and `DELETE FROM combined_sources WHERE combined_id = ?`
abbrev pub drop_members_of : ℕ → List Membership → List Membership
drop_members_of id = filter (λ m. not (m.0 == id))

-- `ON DELETE CASCADE` of a source.
abbrev pub drop_members_in : ℕ → List Membership → List Membership
drop_members_in id = filter (λ m. not (m.1 == id))

unfoldable pub is_member : ℕ → ℕ → List Membership → Bool
is_member c s [] = false
is_member c s (m ∷ ms) = (m.0 == c && m.1 == s) || is_member c s ms

-- `INSERT OR IGNORE`, one row after the other.
unfoldable pub insert_or_ignore : List Membership → List Membership → List Membership
unfolding is_member
insert_or_ignore [] ms = ms
insert_or_ignore ((c, s) ∷ rows) ms =
    insert_or_ignore rows (if is_member c s ms then ms else ms ++ (c, s) ∷ [])

-- `insert_members_sql`: the ids that name no source are left out.
unfoldable pub insert_members_sql : ℕ → List ℕ → List SourceDto → List Membership → List Membership
unfolding insert_or_ignore filter
insert_members_sql id [] ss ms = ms
insert_members_sql id (x ∷ xs) ss ms =
    insert_or_ignore (map (λ s. (id, s)) (source_ids (select_in (x ∷ xs) ss))) ms

-- `SELECT source_id FROM combined_sources WHERE combined_id = ?`
unfoldable pub sources_of : ℕ → List Membership → List ℕ
sources_of id [] = []
sources_of id (m ∷ ms) = let rest = sources_of id ms in if m.0 == id then m.1 ∷ rest else rest

-- The same, `ORDER BY source_id`.
unfoldable pub member_ids : ℕ → List Membership → List ℕ
unfolding sort sources_of
member_ids id ms = sort leb (sources_of id ms)
