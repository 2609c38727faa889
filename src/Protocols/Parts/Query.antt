-- ===== src/Protocols/Parts/Query.antt =====
-- The loop over a query, on what the serializers write.
use sub_merge.Base.{
  ℕ, ◌≡◌, refl, sym, ap, ◌∙◌, subst, ◌≢◌, Bool, true, false, ◌||◌, Option, none, some, List, [],
  ◌∷◌, ◌++◌, append-nil, append_assoc, arith,
}
use sub_merge.Base.Tests.{◌==◌}
use sub_merge.Base.Lists.{all, All, All-append, All-map, all_sound}
use sub_merge.Base.Text.{Text, IsScalar, Absent}
use sub_merge.Base.Split.{join, split_once-absent, split_once-append, split-join}
use sub_merge.Crates.{Crates}
use sub_merge.Crates.Laws.{Documented}
use sub_merge.Uri.{percent_decode, percent_decode_or_default, urlencode}
use sub_merge.Uri.Percent.{is_unreserved, urlencode-IsUnreserved, percent_decode-urlencode}
use sub_merge.Protocols.Parts.{
  cut, or_default, fragment, when, each, query_suffix, push_params, query_step, query_loop,
  read_query,
}

pub cut-append : (c : ℕ) (a b : Text) → Absent c a → cut c (a ++ (c ∷ b)) ≡ (a, some b)
unfolding cut
cut-append c a b h = rw (split_once-append c a b h, cut)

pub cut-absent : (c : ℕ) (a : Text) → Absent c a → cut c a ≡ (a, none)
unfolding cut
cut-absent c a h = rw (split_once-absent c a h, cut)

abbrev pub name_part : Text → Option Text
name_part [] = none
name_part (c ∷ s) = some (c ∷ s)

-- The name behind `#` is cut off, and an empty name leaves no fragment.
pub cut-fragment :
    (a name : Text) → Absent b'#' a → cut b'#' (a ++ fragment name) ≡ (a, name_part name)
unfolding fragment
cut-fragment a [] h = rw append-nil (cut-absent b'#' a h)
cut-fragment a (c ∷ s) h = cut-append b'#' a (c ∷ s) h

pub or_default-name_part : (name : Text) → or_default (name_part name) ≡ name
or_default-name_part [] = refl
or_default-name_part (c ∷ s) = refl

module _ (k : Crates) (d : Documented k) where
  pub decode_or_default-urlencode :
      (s : Text) → All IsScalar s → percent_decode_or_default k (urlencode k s) ≡ s
  unfolding percent_decode
  decode_or_default-urlencode s h = rw (percent_decode-urlencode k d s h, percent_decode_or_default)

  pub decode_or_default_plain :
      (s : Text) → Absent b'%' s → All IsScalar s → percent_decode_or_default k s ≡ s
  unfolding percent_decode
  decode_or_default_plain s h i = rw (d.percent_decode_plain s h i, percent_decode_or_default)

module _ {ℓ} {S : Type ℓ} (k : Crates) (step : S → Text → Text → S) where
  pub query_step-pair :
      (st : S) (key v : Text)
      → Absent b'=' key
      → query_step k step st (key ++ (b'=' ∷ v)) ≡ step st key (percent_decode_or_default k v)
  unfolding query_step
  query_step-pair st key v h = rw (split_once-append b'=' key v h, query_step)

  pub query_loop-append :
      (st : S) (ps qs : List Text)
      → query_loop k step st (ps ++ qs) ≡ query_loop k step (query_loop k step st ps) qs
  unfolding query_loop
  query_loop-append st [] qs = refl
  query_loop-append st (p ∷ ps) qs = query_loop-append (query_step k step st p) ps qs

  -- What `query_suffix` writes behind the port is read by the loop as the same parameters.
  pub read_query-join :
      (st : S) (p : Text) (ps : List Text)
      → All (Absent b'&') (p ∷ ps)
      → read_query k step st (some (join (b'&' ∷ []) (p ∷ ps))) ≡ query_loop k step st (p ∷ ps)
  unfolding read_query
  read_query-join st p ps h = ap (query_loop k step st) (split-join b'&' p ps h)

-- `push_params` behind a first parameter is `join`.
pub append-push_params :
    (p : Text) (ps : List Text) → p ++ push_params ps ≡ join (b'&' ∷ []) (p ∷ ps)
unfolding push_params join
append-push_params p [] = append-nil p
append-push_params p (q ∷ ps) = ap (λ t. p ++ (b'&' ∷ t)) (append-push_params q ps)

-- A character of a written parameter: none of `#`, `?`, `@`, `&`.
abbrev pub is_param : ℕ → Bool
is_param c = is_unreserved c || (c == b'=' || (c == b'/' || c == b','))

abbrev pub IsParam : ℕ → Type 0
IsParam c = is_param c ≡ true

pub IsParam-Absent : (c : ℕ) (s : Text) → is_param c ≡ false → All IsParam s → Absent c s
IsParam-Absent c s n h = All-map (λ x p e. cc (subst (λ y. is_param y ≡ true) e p)) s h

pub when-All {ℓ κ} : {A : Type ℓ} (P : A → Type κ) (b : Bool) {a : A} → P a → All P (when b a)
when-All P true p = (p, tt)
when-All P false p = tt

pub each-All {ℓ κ μ} :
    {A : Type ℓ} {B : Type κ} (P : B → Type μ) (o : Option A) (f : A → B)
    → ((a : A) → P (f a))
    → All P (each o f)
each-All P none f p = tt
each-All P (some a) f p = (p a, tt)

module _ (k : Crates) (d : Documented k) where
  -- `key=` with an encoded value behind it.
  pub pair-IsParam : (key s : Text) → all is_param key ≡ true → All IsParam (key ++ urlencode k s)
  pair-IsParam key s h =
      All-append IsParam key _ (all_sound is_param key h)
        (All-map (λ c u. ground arith) _ (urlencode-IsUnreserved k d s))

-- A fixed first parameter with pushed ones behind it is a query.
pub pushed_query :
    (p : Text) (ps : List Text) (rest : Text)
    → b'?' ∷ (p ++ (push_params ps ++ rest)) ≡ query_suffix (p ∷ ps) ++ rest
unfolding query_suffix
pushed_query p ps rest =
    ap (λ t. b'?' ∷ t)
      (sym (append_assoc p (push_params ps) rest) ∙ ap (λ t. t ++ rest) (append-push_params p ps))

join-Absent :
    (c : ℕ) (ps : List Text) → c ≢ b'&' → All (Absent c) ps → Absent c (join (b'&' ∷ []) ps)
unfolding join
join-Absent c [] n h = tt
join-Absent c (p ∷ []) n h = h.0
join-Absent c (p ∷ (q ∷ ps)) n (a, h) =
    All-append (λ x. x ≢ c) p _ a (λ e. n (sym e), join-Absent c (q ∷ ps) n h)

params-Absent :
    (c : ℕ) (ps : List Text) → is_param c ≡ false → All (All IsParam) ps → All (Absent c) ps
params-Absent c ps e h = All-map (λ p. IsParam-Absent c p e) ps h

pub query_suffix-Absent :
    (c : ℕ) (ps : List Text)
    → c ≢ b'&'
    → c ≢ b'?'
    → is_param c ≡ false
    → All (All IsParam) ps
    → Absent c (query_suffix ps)
unfolding query_suffix
query_suffix-Absent c [] n m e h = tt
query_suffix-Absent c (p ∷ ps) n m e h =
    (λ x. m (sym x), join-Absent c (p ∷ ps) n (params-Absent c (p ∷ ps) e h))

-- The query behind `?`, if there is a parameter.
abbrev pub query_text : List Text → Option Text
query_text [] = none
query_text (p ∷ ps) = some (join (b'&' ∷ []) (p ∷ ps))

module _ {ℓ} {S : Type ℓ} (k : Crates) (step : S → Text → Text → S) where
  pub read_query-params :
      (st : S) (p : Text) (ps : List Text)
      → All (All IsParam) (p ∷ ps)
      → read_query k step st (some (join (b'&' ∷ []) (p ∷ ps))) ≡ query_loop k step st (p ∷ ps)
  read_query-params st p ps h = read_query-join k step st p ps (params-Absent b'&' (p ∷ ps) refl h)

  pub read_query-text :
      (st : S) (ps : List Text)
      → All (All IsParam) ps
      → read_query k step st (query_text ps) ≡ query_loop k step st ps
  read_query-text st [] h = unfold read_query query_loop in refl
  read_query-text st (p ∷ ps) h = read_query-params st p ps h
