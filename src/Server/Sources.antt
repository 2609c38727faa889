-- ===== src/Server/Sources.antt =====
-- The table `sources` of crates/server/src/db.rs, under the queries of routes/sources.rs and
-- service.rs. An id is a natural number: rows have ids from 1 on, and an id below zero in a request
-- is read as 0, which no row has either.
use sub_merge.Base.{
  ℕ, suc, ◌≡◌, refl, ap, ◌∙◌, Bool, true, not, ◌&&◌, ◌||◌, Option, none, some, List, [], ◌∷◌, map,
  arith,
}
use sub_merge.Base.Tests.{◌==◌, if◌then◌else◌}
use sub_merge.Base.Text.{Text, str, eqb}
use sub_merge.Base.Keys.{filter, has, has-filter, map-filter}
use sub_merge.Server.Service.{Source}

pub record SourceDto : Type 0 where
  pub id : ℕ
  pub url : Text
  pub name : Text
  pub kind : Text
  pub created_at : Text

abbrev pub source_ids : List SourceDto → List ℕ
source_ids = map (λ s. s.id)

-- `SELECT … FROM sources WHERE id = ?`
unfoldable pub find_source : ℕ → List SourceDto → Option SourceDto
find_source id [] = none
find_source id (s ∷ ss) = if s.id == id then some s else find_source id ss

-- `INSERT INTO sources … VALUES (?, ?, ?, ?)`, under the next id of AUTOINCREMENT.
abbrev pub new_source : ℕ → Text → Text → Text → Text → SourceDto
new_source last url name kind created_at = record {
  id = suc last;
  url = url;
  name = name;
  kind = kind;
  created_at = created_at;
}

abbrev pub changed : Text → Text → Text → SourceDto → SourceDto
changed url name kind s = record s { url = url; name = name; kind = kind }

-- `UPDATE sources SET url = ?, name = ?, kind = ? WHERE id = ?`
unfoldable pub set_source : ℕ → Text → Text → Text → List SourceDto → List SourceDto
set_source id url name kind [] = []
set_source id url name kind (s ∷ ss) =
    let rest = set_source id url name kind ss in
    if s.id == id then changed url name kind s ∷ rest else s ∷ rest

-- `DELETE FROM sources WHERE id = ?`
abbrev pub drop_source : ℕ → List SourceDto → List SourceDto
drop_source id = filter (λ s. not (s.id == id))

-- `SELECT … FROM sources WHERE id IN (…)`
abbrev pub select_in : List ℕ → List SourceDto → List SourceDto
select_in ids = filter (λ s. has s.id ids)

-- `SELECT … FROM sources WHERE kind = ?`
abbrev pub select_kind : Text → List SourceDto → List SourceDto
select_kind kind = filter (λ s. eqb s.kind kind)

-- The columns that `fetch_and_merge` reads, of the sources it is asked for.
abbrev pub row_of : SourceDto → Source
row_of s = record { kind = s.kind; name = s.name; url = s.url }

unfoldable pub select_rows : Option (List ℕ) → List SourceDto → List Source
select_rows (some ids) ss = map row_of (select_in ids ss)
select_rows none ss = map row_of ss

-- `matches!(kind, "single" | "remote")`
abbrev pub is_kind : Text → Bool
is_kind k = eqb k (str "single") || eqb k (str "remote")

pub has-drop_source :
    (n id : ℕ) (ss : List SourceDto)
    → has n (source_ids (drop_source id ss)) ≡ (has n (source_ids ss) && not (n == id))
has-drop_source n id ss =
    ap (has n) (map-filter (λ s. s.id) (λ k. not (k == id)) ss)
    ∙ has-filter n (λ k. not (k == id)) (source_ids ss)

pub source_ids-set_source :
    (id : ℕ) (url name kind : Text) (ss : List SourceDto)
    → source_ids (set_source id url name kind ss) ≡ source_ids ss
unfolding set_source
source_ids-set_source id url name kind [] = refl
source_ids-set_source id url name kind (s ∷ ss) =
    ground (arith, source_ids-set_source id url name kind ss)

pub has-find_source :
    (id : ℕ) (ss : List SourceDto) (s : SourceDto)
    → find_source id ss ≡ some s
    → (has id (source_ids ss) ≡ true) × (s.id ≡ id)
unfolding find_source has
has-find_source id [] s e = ground arith
has-find_source id (t ∷ ss) s e = ground (arith, has-find_source id ss s)
