-- ===== src/Parser/Panic.antt =====
-- When the parser of ssr panics.
use mathlib.Core.Option
use sub_merge.Base.{
  ℕ, zero, suc, ◌≡◌, refl, sym, ap, ◌∙◌, ◌↔◌, ◌⊎◌, inl, inr, true, false, Option, none, some, List,
  [], ◌∷◌, arith,
}
use sub_merge.Base.Tests.{◌==◌, Bool-cases, Option-cases}
use sub_merge.Base.Lists.{All, All-map}
use sub_merge.Base.Text.{Text, str, starts_with, trim}
use sub_merge.Base.Split.{split}
use sub_merge.Base.Result.{err, ◌>>=◌}
use sub_merge.Crates.{Crates}
use sub_merge.Error.{panicked, Parsed}
use sub_merge.Model.{ProxyNode}
use sub_merge.Protocols.Parts.{or_else}
use sub_merge.Protocols.Ssr.{
  is_ssr, find, separator, char_at, cut_main, ssr_node, parse_ssr_decoded,
}
use sub_merge.Parser.{parse_line}
use sub_merge.Parser.Outcome.{Ensures, returns, fails}
use sub_merge.Parser.Dispatch.{Reads, reads, refuses, panics, ssr_node-Ensures, parse_line-Reads}
use sub_merge.Parser.Bounds.{NeverAborts}

-- The decoded text starts with its separator.
abbrev pub StartsWithSeparator : Text → Type 0
StartsWithSeparator s =
    (starts_with s (str "/?") ≡ true)
    ⊎ ((find (str "/?") s ≡ none) × (starts_with s (str "?") ≡ true))

find-zero : (p s : Text) → (find p s ≡ some 0) ↔ (starts_with s p ≡ true)
unfolding find
find-zero p [] = elim (Bool-cases (starts_with [] p)) [
  | inl e ↦ rw (e) (ground arith)
  | inr e ↦ rw (e) (ground arith)
]
find-zero p (c ∷ s) = elim (Bool-cases (starts_with (c ∷ s) p)) [
  | inl e ↦ rw (e) (ground arith)
  | inr e ↦ rw (e) ((λ h. absurd (map_suc-ne (find p s) h)), (λ h. ground arith))
]
  where
    map_suc-ne : (o : Option ℕ) → Option.map suc o ≡ some 0 → ⊥
    map_suc-ne none h = ground arith
    map_suc-ne (some n) h = ground arith

some-ne-none : {n : ℕ} {o : Option ℕ} → o ≡ some n → o ≡ none → ⊥
some-ne-none e h = ground arith

separator-zero : (s : Text) → (separator s ≡ some 0) ↔ StartsWithSeparator s
unfolding separator
separator-zero s =
    let slash = find-zero (str "/?") s in
    let bare = find-zero (str "?") s in
    elim (Option-cases (find (str "/?") s)) [
      | inl e ↦ (
        (λ h. inr (e, bare.0 (sym (ap (λ o. or_else o (find (str "?") s)) e) ∙ h))),
        (λ h. elim h [
          | inl q ↦ absurd (some-ne-none (slash.1 q) e)
          | inr (_, q) ↦ ap (λ o. or_else o (find (str "?") s)) e ∙ bare.1 q
        ]),
      )
      | inr (n, e) ↦ (
        (λ h. inl (slash.0 (e ∙ (sym (ap (λ o. or_else o (find (str "?") s)) e) ∙ h)))),
        (λ h. elim h [
          | inl q ↦ ap (λ o. or_else o (find (str "?") s)) e ∙ (sym e ∙ slash.1 q)
          | inr (q, _) ↦ absurd (some-ne-none e q)
        ]),
      )
    ]

never-panicked :
    {P : ProxyNode → Type 0} {m : Parsed ProxyNode} → Ensures P m → m ≡ err panicked → ⊥
never-panicked (returns h) e = ground arith
never-panicked fails e = ground arith

module _ (k : Crates) where
  node_of : Text → Option ℕ → Parsed ProxyNode
  node_of s o = do (main, query) ← cut_main s o; ssr_node k s query (split b':' main)

  node_of-panics : (s : Text) (o : Option ℕ) → (node_of s o ≡ err panicked) ↔ (o ≡ some 0)
  unfolding node_of cut_main
  node_of-panics s none =
      ((λ h. absurd (never-panicked (ssr_node-Ensures k s _ _) h)), (λ h. ground arith))
  node_of-panics s (some zero) = ((λ h. refl), (λ h. refl))
  node_of-panics s (some (suc i)) = elim (Bool-cases (char_at s i == b'/')) [
    | inl e ↦
        rw (e) ((λ h. absurd (never-panicked (ssr_node-Ensures k s _ _) h)), (λ h. ground arith))
    | inr e ↦
        rw (e) ((λ h. absurd (never-panicked (ssr_node-Ensures k s _ _) h)), (λ h. ground arith))
  ]

  -- `parse_ssr_decoded` panics on exactly the texts that start with their separator: those that
  -- start with `/?`, and those that start with `?` and hold no `/?`.
  pub parse_ssr_decoded-panics :
      (s : Text) → (parse_ssr_decoded k s ≡ err panicked) ↔ StartsWithSeparator s
  unfolding parse_ssr_decoded node_of
  parse_ssr_decoded-panics s =
      let p = node_of-panics s (separator s) in
      let z = separator-zero s in ((λ h. z.0 (p.0 h)), (λ h. p.1 (z.1 h)))

  Reads-panicked :
      (l : Text) (m : Parsed ProxyNode) → Reads l m → m ≡ err panicked → is_ssr l ≡ true
  Reads-panicked l _ (reads s h) e = ground arith
  Reads-panicked l _ refuses e = ground arith
  Reads-panicked l _ (panics s) e = s

  -- Lines of which none, trimmed, starts with `ssr://` make no parser panic.
  pub NeverAborts-not_ssr :
      (ls : List Text) → All (λ l. is_ssr (trim l) ≡ false) ls → NeverAborts k ls
  NeverAborts-not_ssr ls h =
      All-map
        (λ l p short e.
          false-ne-true (sym p ∙ Reads-panicked (trim l) (parse_line k l) (parse_line-Reads k l) e))
        ls h
    where
      false-ne-true : false ≡ true → ⊥
      false-ne-true e = ground arith
