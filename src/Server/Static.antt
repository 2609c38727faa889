-- ===== src/Server/Static.antt =====
-- crates/server/src/static.rs: the files of the web interface. The file system is a function from a
-- path below `web_dist` to the bytes of the file, if it can be read.
use sub_merge.Base.{
  ◌≡◌, refl, ap, ◌∙◌, inl, inr, Bool, false, ◌||◌, Option, none, some, [], ◌∷◌, arith,
}
use sub_merge.Base.Text.{
  Text, Bytes, str, is_empty, starts_with, contains, drop_while, trim_start_matches,
}
use sub_merge.Base.Result.{err, ok}
use sub_merge.Base.Tests.{if◌then◌else◌, Bool-cases}
use sub_merge.Crates.{Crates}
use sub_merge.Uri.{percent_decode}
use sub_merge.Error.{Parsed}
use sub_merge.Server.ApiError.{ApiError, not_found}

abbrev pub Files : Type 0
Files = Text → Option Bytes

pub data Served : Type 0 where
  error_response : ApiError → Served
  forbidden : Served
  -- A file, whose type is guessed from its path.
  file : Text → Bytes → Served
  index : Bytes → Served
  missing_index : Served

abbrev pub or_raw : Text → Parsed Text → Text
or_raw p (ok d) = d
or_raw p (err e) = p

-- The namespaces of the API, on the decoded path.
unfoldable pub is_api : Text → Bool
is_api p =
    starts_with p (str "api") || (starts_with p (str "admin") || starts_with p (str "subscribe"))

abbrev pub or_index : Text → Text
or_index p = if is_empty p then str "index.html" else p

abbrev pub index_or_missing : Option Bytes → Served
index_or_missing (some bytes) = index bytes
index_or_missing none = missing_index

abbrev pub file_or_index : Files → Text → Option Bytes → Served
file_or_index files rel (some bytes) = file rel bytes
file_or_index files rel none = index_or_missing (files (str "index.html"))

unfoldable pub fallback : Crates → Files → Text → Served
unfolding is_api
fallback k files path =
    let p = trim_start_matches b'/' path in
    if is_api (or_raw p (percent_decode k p))
    then error_response (not_found (str "route not found"))
    else if contains (str "..") (or_index p)
    then forbidden
    else file_or_index files (or_index p) (files (or_index p))

-- Below `web_dist`: no step up, and not from the root.
abbrev pub IsInside : Text → Type 0
IsInside rel = (contains (str "..") rel ≡ false) × (starts_with rel (str "/") ≡ false)

trim_start-relative : (path : Text) → starts_with (trim_start_matches b'/' path) (str "/") ≡ false
unfolding starts_with drop_while
trim_start-relative [] = refl
trim_start-relative (c ∷ s) = ground (arith, trim_start-relative s)

or_index-relative :
    (p : Text) → starts_with p (str "/") ≡ false → starts_with (or_index p) (str "/") ≡ false
unfolding starts_with
or_index-relative [] h = refl
or_index-relative (c ∷ s) h = h

index-IsInside : IsInside (str "index.html")
unfolding contains starts_with
index-IsInside = (refl, refl)

served-inside :
    (files files' : Files) (rel : Text)
    → ((rel : Text) → IsInside rel → files rel ≡ files' rel)
    → starts_with rel (str "/") ≡ false
    → (if contains (str "..") rel then forbidden else file_or_index files rel (files rel))
      ≡ (if contains (str "..") rel then forbidden else file_or_index files' rel (files' rel))
served-inside files files' rel h r = elim (Bool-cases (contains (str "..") rel)) [
  | inl e ↦ rw (e) refl
  | inr e ↦ rw (e) (ap (file_or_index files rel) (h rel (e, r)) ∙ indexed (files' rel))
]
  where
    indexed : (o : Option Bytes) → file_or_index files rel o ≡ file_or_index files' rel o
    indexed (some b) = refl
    indexed none = ap index_or_missing (h (str "index.html") index-IsInside)

-- Whatever the path of a request, the answer depends only on the files at paths below `web_dist`
-- that do not step up.
pub fallback-inside :
    (k : Crates) (files files' : Files) (path : Text)
    → ((rel : Text) → IsInside rel → files rel ≡ files' rel)
    → fallback k files path ≡ fallback k files' path
unfolding fallback
fallback-inside k files files' path h =
    let p = trim_start_matches b'/' path in
    ap
      (λ s.
        if is_api (or_raw p (percent_decode k p))
        then error_response (not_found (str "route not found"))
        else s)
      (served-inside files files' (or_index p) h (or_index-relative p (trim_start-relative path)))
