-- ===== src/Uri/Percent.antt =====
-- `urlencode` and `percent_decode` of crates/proxy-core/src/uri.rs.
use sub_merge.Base.{ℕ, ◌≡◌, refl, ap, subst, ◌⊎◌, inl, inr, Bool, true, false, ◌||◌, [], ◌∷◌, arith}
use sub_merge.Base.Tests.{◌==◌}
use sub_merge.Base.Lists.{All, All-map}
use sub_merge.Base.Text.{Text, is_empty, is_ascii_alphanumeric, IsScalar, Absent}
use sub_merge.Base.Result.{ok}
use sub_merge.Crates.{Crates}
use sub_merge.Crates.Laws.{IsEncoded, Documented}
use sub_merge.Uri.{percent_decode, urlencode_set, urlencode}

-- The characters of a percent-encoded text: RFC 3986's unreserved ones, and `%`.
abbrev pub is_unreserved : ℕ → Bool
is_unreserved c =
    is_ascii_alphanumeric c || (c == b'%' || (c == b'-' || (c == b'.' || (c == b'_' || c == b'~'))))

abbrev pub IsUnreserved : ℕ → Type 0
IsUnreserved c = is_unreserved c ≡ true

IsEncoded-IsUnreserved : (c : ℕ) → IsEncoded urlencode_set c → IsUnreserved c
IsEncoded-IsUnreserved c h = ground arith

List-cases : (s : Text) → (s ≡ []) ⊎ (is_empty s ≡ false)
List-cases [] = inl refl
List-cases (c ∷ s) = inr refl

module _ (k : Crates) (d : Documented k) where
  pub urlencode-IsUnreserved : (s : Text) → All IsUnreserved (urlencode k s)
  unfolding urlencode
  urlencode-IsUnreserved s =
      All-map IsEncoded-IsUnreserved _ (d.percent_encode-IsEncoded urlencode_set s)

  -- What is not unreserved, such as a delimiter of the URI, does not occur in encoded text.
  pub urlencode-Absent : (c : ℕ) (s : Text) → is_unreserved c ≡ false → Absent c (urlencode k s)
  urlencode-Absent c s h =
      All-map (λ x u e. cc (subst (λ y. is_unreserved y ≡ true) e u)) _ (urlencode-IsUnreserved s)

  -- Any text made of Unicode scalar values, percent-encoded by `urlencode`, is decoded to itself.
  pub percent_decode-urlencode :
      (s : Text) → All IsScalar s → percent_decode k (urlencode k s) ≡ ok s
  unfolding percent_decode urlencode
  percent_decode-urlencode s h = rw (d.percent_decode-encode urlencode_set s refl h)

  percent_decode_nil : percent_decode k [] ≡ ok []
  unfolding percent_decode
  percent_decode_nil = rw (d.percent_decode_plain [] tt tt)

  pub urlencode-nil : urlencode k [] ≡ []
  unfolding urlencode
  urlencode-nil = d.percent_encode-nil urlencode_set

  -- Text that is not empty is not encoded as nothing.
  pub urlencode-ne-nil :
      (c : ℕ) (s : Text) → All IsScalar (c ∷ s) → is_empty (urlencode k (c ∷ s)) ≡ false
  urlencode-ne-nil c s h = elim (List-cases (urlencode k (c ∷ s))) [
    | inr e ↦ e
    | inl e ↦ cc (percent_decode-urlencode (c ∷ s) h, ap (percent_decode k) e, percent_decode_nil)
  ]
