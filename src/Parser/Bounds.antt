-- ===== src/Parser/Bounds.antt =====
-- What the loop of `parse_lines` keeps of the lines, and how much.
use mathlib.Core.Option
use sub_merge.Base.{
  ℕ, zero, suc, ◌+◌, ◌≤◌, ◌<◌, ◌≡◌, refl, sym, ap, ◌∙◌, subst, ◌≢◌, ◌⊎◌, inl, inr, true, false,
  Option, none, some, List, [], ◌∷◌, ◌++◌, append-nil, append_assoc, arith,
}
use sub_merge.Base.Tests.{leb, if◌then◌else◌, ltb-not, ltb-yes}
use sub_merge.Base.Lists.{length, take, length-append, take_all, All}
use sub_merge.Base.Text.{Text, len}
use sub_merge.Base.Result.{err, ok}
use sub_merge.Crates.{Crates}
use sub_merge.Error.{raised, panicked, Parsed}
use sub_merge.Model.{ProxyNode}
use sub_merge.Parser.{
  parse_line, max_line_len, lines, Lines, LineOutcome, pushed, skip, abort, outcome_of,
  line_outcome, parse_lines_from, no_lines, parse_lines,
}

leb-eq : (m n : ℕ) → (leb m n ≡ true × m ≤ n) ⊎ (leb m n ≡ false × n < m)
leb-eq m n = ground arith

outcome-cases : (o : LineOutcome) → (o ≡ skip) ⊎ ((o ≡ abort) ⊎ ((n : ProxyNode) × (o ≡ pushed n)))
outcome-cases skip = inl refl
outcome-cases abort = inr (inl refl)
outcome-cases (pushed n) = inr (inr (n, refl))

abbrev accept : LineOutcome → List ProxyNode → List ProxyNode
accept (pushed n) ns = n ∷ ns
accept _ ns = ns

abbrev node_before : Parsed ProxyNode → List ProxyNode → List ProxyNode
node_before (ok n) ns = n ∷ ns
node_before (err e) ns = ns

-- The nodes of the lines of at most 1 MiB that `parse_line` reads, without a bound.
unfoldable pub accepted : Crates → List Text → List ProxyNode
accepted k [] = []
accepted k (line ∷ rest) =
    if leb (len line) 1048576
    then node_before (parse_line k line) (accepted k rest)
    else accepted k rest

accept-outcome_of :
    (m : Parsed ProxyNode) (ns : List ProxyNode) → accept (outcome_of m) ns ≡ node_before m ns
accept-outcome_of (ok n) ns = refl
accept-outcome_of (err (raised e)) ns = refl
accept-outcome_of (err panicked) ns = refl

-- One round of the loop treats a line as `accepted` does.
pub accepted-accept :
    (k : Crates) (line : Text) (ls : List Text)
    → accepted k (line ∷ ls) ≡ accept (line_outcome k line) (accepted k ls)
unfolding accepted line_outcome
accepted-accept k line ls = elim (leb-eq (len line) 1048576) [
  | inl (t, h) ↦
      rw (t, ltb-not max_line_len (len line) h)
        (sym (accept-outcome_of (parse_line k line) (accepted k ls)))
  | inr (t, h) ↦ rw (t, ltb-yes max_line_len (len line) h) refl
]

abbrev push_node : Lines → ProxyNode → Lines
push_node acc n = record acc { nodes = acc.nodes ++ n ∷ [] }

abbrev skip_line : Lines → Lines
skip_line acc = record acc { skipped = acc.skipped + 1 }

-- The runs of the loop: `Run acc ls o` ends with `o`, from `acc` and in front of `ls`.
pub data Run (k : Crates) (max_nodes : ℕ) : Lines → List Text → Option Lines → Type 0 where
  finished : {acc : Lines} → Run k max_nodes acc [] (some acc)
  full :
      {acc : Lines} {l : Text} {ls : List Text}
      → max_nodes ≤ length acc.nodes
      → Run k max_nodes acc (l ∷ ls) (some acc)
  pushes :
      {acc : Lines} {l : Text} {ls : List Text} {n : ProxyNode} {o : Option Lines}
      → length acc.nodes < max_nodes
      → line_outcome k l ≡ pushed n
      → Run k max_nodes (push_node acc n) ls o
      → Run k max_nodes acc (l ∷ ls) o
  skips :
      {acc : Lines} {l : Text} {ls : List Text} {o : Option Lines}
      → length acc.nodes < max_nodes
      → line_outcome k l ≡ skip
      → Run k max_nodes (skip_line acc) ls o
      → Run k max_nodes acc (l ∷ ls) o
  aborts :
      {acc : Lines} {l : Text} {ls : List Text}
      → line_outcome k l ≡ abort
      → Run k max_nodes acc (l ∷ ls) none

-- Lines on which, where they are not too long, the parser does not panic.
abbrev pub NeverAborts : Crates → List Text → Type 0
NeverAborts k ls = All (λ l. len l ≤ 1048576 → parse_line k l ≢ err panicked) ls

outcome_of-abort : (m : Parsed ProxyNode) → outcome_of m ≡ abort → m ≡ err panicked
outcome_of-abort (ok n) e = ground arith
outcome_of-abort (err (raised x)) e = ground arith
outcome_of-abort (err panicked) e = refl

no_abort :
    (k : Crates) (l : Text)
    → (len l ≤ 1048576 → parse_line k l ≢ err panicked)
    → line_outcome k l ≢ abort
unfolding line_outcome
no_abort k l n e = elim (leb-eq (len l) 1048576) [
  | inl (t, h) ↦ n h (
      outcome_of-abort (parse_line k l) (
        sym (
          ap (λ b. if b then skip else outcome_of (parse_line k l))
            (ltb-not max_line_len (len l) h))
        ∙ e))
  | inr (t, h) ↦ skip-ne-abort (
      sym
        (ap (λ b. if b then skip else outcome_of (parse_line k l)) (ltb-yes max_line_len (len l) h))
      ∙ e)
]
  where
    skip-ne-abort : skip ≡ abort → ⊥
    skip-ne-abort e = ground arith

module _ (k : Crates) (max_nodes : ℕ) where
  pub loop-Run :
      (acc : Lines) (ls : List Text) → Run k max_nodes acc ls (parse_lines_from k max_nodes acc ls)
  unfolding parse_lines_from
  loop-Run acc [] = finished
  loop-Run acc (line ∷ rest) = elim (leb-eq max_nodes (length acc.nodes)) [
    | inl (t, h) ↦ rw (t) (full h)
    | inr (t, h) ↦ rw (t) (elim (outcome-cases (line_outcome k line)) [
      | inl e ↦ rw (e) (skips h e (loop-Run (skip_line acc) rest))
      | inr (inl e) ↦ rw (e) (aborts e)
      | inr (inr (n, e)) ↦ rw (e) (pushes h e (loop-Run (push_node acc n) rest))
    ])
  ]

  take_front :
      (xs ys : List ProxyNode) (n : ℕ) → n ≤ length xs → length xs ≤ n → take n (xs ++ ys) ≡ xs
  take_front [] ys zero p q = refl
  take_front [] ys (suc n) p q = absurd (omega arith)
  take_front (x ∷ xs) ys zero p q = absurd (omega arith)
  take_front (x ∷ xs) ys (suc n) p q = rw (take_front xs ys n (omega arith) (omega arith))

  append_one : (xs ys : List ProxyNode) (n : ProxyNode) → (xs ++ n ∷ []) ++ ys ≡ xs ++ n ∷ ys
  append_one xs ys n = append_assoc xs (n ∷ []) ys

  length-push :
      (acc : Lines) (n : ProxyNode) → length (push_node acc n).nodes ≡ suc (length acc.nodes)
  length-push acc n = omega (arith, length-append acc.nodes (n ∷ []))

  Run-length :
      {acc r : Lines} {ls : List Text}
      → length acc.nodes ≤ max_nodes
      → Run k max_nodes acc ls (some r)
      → (length r.nodes ≤ max_nodes)
        × (length r.nodes + r.skipped ≤ (length acc.nodes + acc.skipped) + length ls)
  Run-length h finished = (h, omega arith)
  Run-length h (full p) = (h, omega arith)
  Run-length h (pushes {acc} {n = n} p e run) =
      let l = length-push acc n in let (a, b) = Run-length (omega arith) run in (a, omega arith)
  Run-length h (skips p e run) = let (a, b) = Run-length h run in (a, omega arith)

  -- For every text and every bound, a result of `parse_lines` has at most `max_nodes` nodes, and
  -- its nodes and its skipped lines are together at most the lines of the text.
  pub parse_lines-length :
      (text : Text) (r : Lines)
      → parse_lines k text max_nodes ≡ some r
      → (length r.nodes ≤ max_nodes) × (length r.nodes + r.skipped ≤ length (lines text))
  unfolding parse_lines
  parse_lines-length text r e =
      let run =
        subst (λ o. Run k max_nodes no_lines (lines text) o) e (loop-Run no_lines (lines text)) in
      let (a, b) = Run-length {r = r} (omega arith) run in (a, omega arith)

  Run-accepted :
      {acc : Lines} {ls : List Text} {o : Option Lines}
      → length acc.nodes ≤ max_nodes
      → Run k max_nodes acc ls o
      → NeverAborts k ls
      → Option.map (λ r. r.nodes) o ≡ some (take max_nodes (acc.nodes ++ accepted k ls))
  Run-accepted {acc} h finished a =
      unfold accepted in rw (append-nil acc.nodes, take_all max_nodes acc.nodes h)
  Run-accepted {acc} h (full {l = l} {ls = ls} p) a =
      ap some (sym (take_front acc.nodes (accepted k (l ∷ ls)) max_nodes p h))
  Run-accepted h (pushes {acc} {l = l} {ls = ls} {n = n} p e run) (_, a) =
      let added = length-push acc n in
      Run-accepted (omega arith) run a
      ∙ rw (accepted-accept k l ls) (rw (e, append_one acc.nodes (accepted k ls) n))
  Run-accepted h (skips {acc} {l = l} {ls = ls} p e run) (_, a) =
      Run-accepted h run a ∙ rw (accepted-accept k l ls) (rw (e))
  Run-accepted h (aborts {l = l} e) (n, a) = absurd (no_abort k l n e)

  -- For every text none of whose lines of at most 1 MiB makes a parser panic, `parse_lines` returns
  -- the first `max_nodes` of the nodes of those of its lines that have at most 1 MiB and that
  -- `parse_line` reads, in the order of the lines.
  pub parse_lines-accepted :
      (text : Text)
      → NeverAborts k (lines text)
      → Option.map (λ r. r.nodes) (parse_lines k text max_nodes)
        ≡ some (take max_nodes (accepted k (lines text)))
  unfolding parse_lines
  parse_lines-accepted text h = Run-accepted (omega arith) (loop-Run no_lines (lines text)) h
