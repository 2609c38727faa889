-- ===== src/Server/Service/Merge.antt =====
-- What a merge has of its sources, whatever the order in which the tasks ended.
use mathlib.Core.List.{Permᴰ}
use mathlib.Core.List.Permᴰ
use sub_merge.Base.{
  ℕ, suc, ◌≤◌, ◌≡◌, refl, sym, ap, ◌∙◌, subst, ◌⊎◌, Option, List, [], ◌∷◌, ◌++◌, map, append-nil,
  append_assoc, arith,
}
use sub_merge.Base.Text.{Text}
use sub_merge.Base.Lists.{length, take, length-take, take_all}
use sub_merge.Base.Result.{err, ok}
use sub_merge.Crates.{Crates}
use sub_merge.Model.{ProxyNode}
use sub_merge.Server.Fetch.{Client}
use sub_merge.Server.Service.{
  Source, SourceError, Joined, finished, lost, run_task, Merged, join_step, join_loop,
  rows_or_error, merge_joined, Merges, merges,
}

-- What one task contributes.
abbrev pub nodes_of : Joined → List ProxyNode
nodes_of lost = []
nodes_of (finished name (ok ns)) = ns
nodes_of (finished name (err reason)) = []

abbrev pub errors_of : Joined → List SourceError
errors_of lost = []
errors_of (finished name (ok ns)) = []
errors_of (finished name (err reason)) = record { source_name = name; reason = reason } ∷ []

module _ {ℓ κ} {A : Type ℓ} {B : Type κ} (f : A → List B) where
  -- The contributions in order.
  abbrev pub gather : List A → List B
  gather [] = []
  gather (x ∷ xs) = f x ++ gather xs

  append-Permᴰ : (xs ys zs : List B) → Permᴰ (xs ++ (ys ++ zs)) (ys ++ (xs ++ zs))
  append-Permᴰ [] ys zs = Permᴰ.refl (ys ++ zs)
  append-Permᴰ (x ∷ xs) ys zs =
      Permᴰ.trans (Permᴰ.cons refl (append-Permᴰ xs ys zs))
        (Permᴰ.symm (Permᴰ.middle x ys (xs ++ zs)))

  pub gather-Permᴰ : {xs ys : List A} → Permᴰ xs ys → Permᴰ (gather xs) (gather ys)
  gather-Permᴰ Permᴰ.nil = Permᴰ.nil
  gather-Permᴰ (Permᴰ.cons {a = a} {b = b} {l₁ = l₁} {l₂ = l₂} e p) =
      subst (λ t. Permᴰ (f a ++ gather l₁) (f t ++ gather l₂)) e
        (Permᴰ.append_left (f a) (gather-Permᴰ p))
  gather-Permᴰ (Permᴰ.swap {a = a} {b = b} {a' = a'} {b' = b'} {l = l} e h) =
      subst (λ t. Permᴰ (f a ++ (f b ++ gather l)) (f t ++ (f b' ++ gather l))) h
        (subst (λ t. Permᴰ (f a ++ (f b ++ gather l)) (f b ++ (f t ++ gather l))) e
          (append-Permᴰ (f a) (f b) (gather l)))
  gather-Permᴰ (Permᴰ.trans p q) = Permᴰ.trans (gather-Permᴰ p) (gather-Permᴰ q)

pub join_loop-nodes :
    (m : Merged) (js : List Joined) → (join_loop m js).nodes ≡ m.nodes ++ gather nodes_of js
unfolding join_loop join_step
join_loop-nodes m [] = sym (append-nil m.nodes)
join_loop-nodes m (lost ∷ js) = join_loop-nodes m js
join_loop-nodes m (finished name (err r) ∷ js) =
    join_loop-nodes (join_step m (finished name (err r))) js
join_loop-nodes m (finished name (ok ns) ∷ js) =
    join_loop-nodes (join_step m (finished name (ok ns))) js
    ∙ append_assoc m.nodes ns (gather nodes_of js)

pub join_loop-errors :
    (m : Merged) (js : List Joined) → (join_loop m js).errors ≡ m.errors ++ gather errors_of js
unfolding join_loop join_step
join_loop-errors m [] = sym (append-nil m.errors)
join_loop-errors m (lost ∷ js) = join_loop-errors m js
join_loop-errors m (finished name (ok ns) ∷ js) =
    join_loop-errors (join_step m (finished name (ok ns))) js
join_loop-errors m (finished name (err r) ∷ js) =
    join_loop-errors (join_step m (finished name (err r))) js
    ∙ append_assoc m.errors (errors_of (finished name (err r))) (gather errors_of js)

Permᴰ-length : {xs ys : List ProxyNode} → Permᴰ xs ys → length xs ≡ length ys
Permᴰ-length Permᴰ.nil = refl
Permᴰ-length (Permᴰ.cons e p) = ap suc (Permᴰ-length p)
Permᴰ-length (Permᴰ.swap e h) = refl
Permᴰ-length (Permᴰ.trans p q) = Permᴰ-length p ∙ Permᴰ-length q

module _ (k : Crates) (client : Client) (max_nodes : ℕ) (source_ids : Option (List ℕ))
    (rows : Text ⊎ List Source) where
  -- The tasks, and what they contribute, in the order of the rows.
  abbrev pub tasks : List Joined
  tasks = map (run_task k client max_nodes) (rows_or_error source_ids rows).0

  -- What is known of an outcome.
  pub record IsMerge (m : Merged) : Type 0 where
    pub bounded : length m.nodes ≤ max_nodes
    pub first_nodes :
        (ended : List Joined) × Permᴰ ended tasks
        × (m.nodes ≡ take max_nodes (gather nodes_of ended))
    pub has_nodes :
        length (gather nodes_of tasks) ≤ max_nodes → Permᴰ m.nodes (gather nodes_of tasks)
    pub has_errors : Permᴰ m.errors ((rows_or_error source_ids rows).1 ++ gather errors_of tasks)

  -- Every outcome of a merge, whatever the order in which the tasks end, has at most `max_nodes`
  -- nodes, which are the first of those of the tasks in the order in which these ended; its errors are, up to order, the error of the query and one for each task that failed;
  -- and if all nodes of all tasks are within the bound, its nodes are those, up to order.
  pub Merges-IsMerge : {m : Merged} → Merges k client max_nodes source_ids rows m → IsMerge m
  unfolding merge_joined
  Merges-IsMerge (merges {js} p) =
      let es = (rows_or_error source_ids rows).1 in
      let start : Merged = record { nodes = []; errors = es } in
      let perm = gather-Permᴰ nodes_of p in
      record {
        bounded = length-take max_nodes (join_loop start js).nodes;
        first_nodes = (js, p, ap (take max_nodes) (join_loop-nodes start js));
        has_nodes = λ h.
            subst (λ ns. Permᴰ ns (gather nodes_of tasks))
              (sym (
                take_all max_nodes (join_loop start js).nodes
                  (rw (join_loop-nodes start js) (omega (arith, Permᴰ-length perm)))))
              (subst (λ ns. Permᴰ ns (gather nodes_of tasks)) (sym (join_loop-nodes start js))
                perm);
        has_errors =
            subst (λ xs. Permᴰ xs (es ++ gather errors_of tasks)) (sym (join_loop-errors start js))
              (Permᴰ.append_left es (gather-Permᴰ errors_of p));
      }
