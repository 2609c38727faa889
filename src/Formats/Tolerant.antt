-- ===== src/Formats/Tolerant.antt =====
-- What the Clash document does with a node that cannot be written.
use sub_merge.Base.{◌≡◌, refl, ap, List, [], ◌∷◌, ◌++◌}
use sub_merge.Base.Text.{Text}
use sub_merge.Base.Result.{ok, err}
use sub_merge.Crates.{Crates}
use sub_merge.Error.{SerializeError}
use sub_merge.Model.{ProxyNode}
use sub_merge.Formats.Clash.{proxy_to_clash}
use sub_merge.Formats.Document.{keep_written, written_nodes, serialize_clash}

module _ (k : Crates) where
  written_nodes-skip :
      (ns : List ProxyNode) (n : ProxyNode) (ms : List ProxyNode) {e : SerializeError}
      → proxy_to_clash k n ≡ err e
      → written_nodes k (ns ++ n ∷ ms) ≡ written_nodes k (ns ++ ms)
  unfolding written_nodes
  written_nodes-skip [] n ms h = rw (h)
  written_nodes-skip (m ∷ ns) n ms h =
      ap (keep_written m (proxy_to_clash k m)) (written_nodes-skip ns n ms h)

  -- The Clash output always has a result, and a node that cannot be written changes nothing: the
  -- document is the one of the list without that node.
  pub serialize_clash-skip :
      (ns : List ProxyNode) (n : ProxyNode) (ms : List ProxyNode) {e : SerializeError}
      → proxy_to_clash k n ≡ err e
      → (s : Text) × (serialize_clash k (ns ++ n ∷ ms) ≡ ok s)
        × (serialize_clash k (ns ++ ms) ≡ ok s)
  unfolding serialize_clash
  serialize_clash-skip ns n ms h = (_, rw (written_nodes-skip ns n ms h), refl)
