-- ===== src/Parser/Subscription.antt =====
-- What `parse_lines` and `parse_subscription_text` hand on to the merge.
use sub_merge.Base.{
  ℕ, ◌≤◌, ◌≡◌, subst, inl, inr, Bool, true, false, Option, none, some, List, [], ◌∷◌, arith,
}
use sub_merge.Base.Tests.{ltb, if◌then◌else◌, Option-cases}
use sub_merge.Base.Lists.{length, length-take, All, All-append}
use sub_merge.Base.Text.{Text, len}
use sub_merge.Base.Result.{err, ok}
use sub_merge.Crates.{Crates}
use sub_merge.Error.{raised, panicked, Parsed}
use sub_merge.Model.{ProxyNode}
use sub_merge.Parser.{
  parse_line, max_line_len, lines, Lines, pushed, skip, outcome_of, line_outcome, no_lines,
  parse_lines, looks_clash, subscription_body, clash_or_lines, parse_subscription_text,
}
use sub_merge.Parser.Ready.{IsNode}
use sub_merge.Parser.Dispatch.{Reads, reads, refuses, panics, parse_line-Reads}
use sub_merge.Parser.Bounds.{Run, finished, full, pushes, skips, loop-Run, parse_lines-length}
use sub_merge.Parser.ClashNode.{parse_clash_yaml}

outcome-pushed :
    (b : Bool) (m : Parsed ProxyNode) (n : ProxyNode)
    → (if b then skip else outcome_of m) ≡ pushed n
    → m ≡ ok n
outcome-pushed true m n e = ground arith
outcome-pushed false (ok a) n e = ground arith
outcome-pushed false (err (raised x)) n e = ground arith
outcome-pushed false (err panicked) n e = ground arith

-- The node of a parse, if there is one, is good.
abbrev IsGood : Parsed ProxyNode → Type 0
IsGood (ok n) = IsNode n.kind n
IsGood (err e) = Unit

Reads-IsGood : {l : Text} {m : Parsed ProxyNode} → Reads l m → IsGood m
Reads-IsGood (reads s h) = h
Reads-IsGood refuses = tt
Reads-IsGood (panics s) = tt

module _ (k : Crates) (max_nodes : ℕ) where
  pushed-IsNode : (l : Text) (n : ProxyNode) → line_outcome k l ≡ pushed n → IsNode n.kind n
  unfolding line_outcome
  pushed-IsNode l n e =
      subst IsGood (outcome-pushed (ltb max_line_len (len l)) (parse_line k l) n e)
        (Reads-IsGood (parse_line-Reads k l))

  abbrev pub AllNodes : List ProxyNode → Type 0
  AllNodes ns = All (λ n. IsNode n.kind n) ns

  Run-AllNodes :
      {acc r : Lines} {ls : List Text}
      → Run k max_nodes acc ls (some r)
      → AllNodes acc.nodes
      → AllNodes r.nodes
  Run-AllNodes finished h = h
  Run-AllNodes (full p) h = h
  Run-AllNodes (pushes {acc} {l} {n = n} p e run) h =
      Run-AllNodes run (All-append _ acc.nodes (n ∷ []) h (pushed-IsNode l n e, tt))
  Run-AllNodes (skips p e run) h = Run-AllNodes run h

  -- For every text, each node of a result of `parse_lines` has a port below 65536 and the fields
  -- that the serializer of its kind asks for.
  pub parse_lines-IsNode :
      (text : Text) (r : Lines) → parse_lines k text max_nodes ≡ some r → AllNodes r.nodes
  unfolding parse_lines
  parse_lines-IsNode text r e =
      Run-AllNodes
        (subst (λ o. Run k max_nodes no_lines (lines text) o) e
          (loop-Run k max_nodes no_lines (lines text)))
        tt

  -- The nodes of a result, if there is one, are within the bound.
  abbrev IsBounded : Option Lines → Type 0
  IsBounded none = Unit
  IsBounded (some r) = length r.nodes ≤ max_nodes

  parse_lines-IsBounded : (text : Text) → IsBounded (parse_lines k text max_nodes)
  parse_lines-IsBounded text = elim (Option-cases (parse_lines k text max_nodes)) [
    | inl e ↦ rw (e) tt
    | inr (r, e) ↦ rw (e) ((parse_lines-length k max_nodes text r e).0)
  ]

  clash_or_lines-IsBounded :
      (text : Text) (m : Parsed (List ProxyNode)) → IsBounded (clash_or_lines k text max_nodes m)
  unfolding clash_or_lines
  clash_or_lines-IsBounded text (ok nodes) = length-take max_nodes nodes
  clash_or_lines-IsBounded text (err e) = parse_lines-IsBounded text

  if-IsBounded :
      (b : Bool) (o p : Option Lines) → IsBounded o → IsBounded p → IsBounded (if b then o else p)
  if-IsBounded true o p h g = h
  if-IsBounded false o p h g = g

  -- For every text and every bound, a result of `parse_subscription_text` has at most `max_nodes`
  -- nodes, whether it is read as Clash YAML, as base64 or as lines.
  pub parse_subscription_text-length :
      (text : Text) (r : Lines)
      → parse_subscription_text k text max_nodes ≡ some r
      → length r.nodes ≤ max_nodes
  unfolding parse_subscription_text
  parse_subscription_text-length text r e = subst IsBounded e (
      if-IsBounded (looks_clash text) _ _ (clash_or_lines-IsBounded text (parse_clash_yaml k text))
        (parse_lines-IsBounded (subscription_body k text)))
