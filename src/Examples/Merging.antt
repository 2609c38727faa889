-- ===== src/Examples/Merging.antt =====
-- A download and a merge of two sources whose tasks end in reverse order.
use mathlib.Core.List.{Permᴰ}
use sub_merge.Base.{◌≡◌, refl, ◌⊎◌, inr, true, none, List, [], ◌∷◌, map}
use sub_merge.Base.Text.{Text, str}
use sub_merge.Base.Lists.{take}
use sub_merge.Base.Result.{ok}
use sub_merge.Crates.Sample.{sample}
use sub_merge.Server.Fetch.{Client, max_body_bytes, read_body, concat, read_body-concat}
use sub_merge.Server.Service.{Source, Joined, run_task, rows_or_error, merge_joined, merges}
use sub_merge.Server.Service.Merge.{IsMerge, Merges-IsMerge}
use sub_merge.Examples.Lines.{one_line}

read_body-concat_example :
    read_body [] (map inr (str "abc" ∷ str "de" ∷ []))
    ≡ ok (take max_body_bytes (concat (str "abc" ∷ str "de" ∷ [])))
read_body-concat_example = read_body-concat (str "abc" ∷ str "de" ∷ [])

-- A client that answers every address with one link, and two sources.
abbrev pub client : Client
client =
    λ url. inr (record { is_success = true; status = str "200 OK"; chunks = inr one_line ∷ [] })

abbrev two_sources : Text ⊎ List Source
two_sources = inr (
    record { kind = str "remote"; name = str "a"; url = str "http://a.io/sub" }
    ∷ record { kind = str "single"; name = str "b"; url = str "nonsense" }
    ∷ [])

abbrev reversed : List Joined
reversed =
    run_task sample client 5 (record { kind = str "single"; name = str "b"; url = str "nonsense" })
    ∷ run_task sample client 5
        (record { kind = str "remote"; name = str "a"; url = str "http://a.io/sub" })
    ∷ []

Merges-IsMerge_example : IsMerge sample client 5 none two_sources (merge_joined 5 [] reversed)
unfolding rows_or_error
Merges-IsMerge_example =
    Merges-IsMerge sample client 5 none two_sources (merges {js = reversed} (Permᴰ.swap refl refl))
