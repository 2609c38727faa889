-- ===== src/Formats/Document.antt =====
-- crates/proxy-core/src/formats/clash.rs: `serialize_clash`, the whole document.
use sub_merge.Base.{ℕ, List, [], ◌∷◌, ◌++◌}
use sub_merge.Base.Text.{Text, str}
use sub_merge.Base.Result.{ok, err}
use sub_merge.Crates.{Crates}
use sub_merge.Error.{Serialized}
use sub_merge.Model.{ProxyNode}
use sub_merge.Formats.Clash.{clash_yaml_str, proxy_to_clash}

-- `if let Ok(line) = … { ok.push((n, line)) }`, in front of the rest.
abbrev pub keep_written :
    ProxyNode → Serialized Text → List (ProxyNode × Text) → List (ProxyNode × Text)
keep_written n (ok line) rest = (n, line) ∷ rest
keep_written n (err e) rest = rest

-- The first loop: the nodes that serialize, with their parts; the others are left out.
unfoldable pub written_nodes : Crates → List ProxyNode → List (ProxyNode × Text)
written_nodes k [] = []
written_nodes k (n ∷ ns) = keep_written n (proxy_to_clash k n) (written_nodes k ns)

-- The parts of the nodes, in order.
unfoldable pub parts : List (ProxyNode × Text) → Text
parts [] = []
parts ((n, line) ∷ ns) = line ++ parts ns

-- The names of the nodes as members of a group.
unfoldable pub members : Crates → List (ProxyNode × Text) → Text
members k [] = []
members k ((n, line) ∷ ns) =
    str "      - " ++ (clash_yaml_str k n.name ++ (str "\n" ++ members k ns))

abbrev pub preamble : Text
preamble = str "mixed-port: 7890\nallow-lan: false\nmode: rule\nlog-level: info\n\n"

-- U+FE0F, which stands behind the sign of the second group.
abbrev variation_selector : ℕ
variation_selector = 65039

-- `if !ok.is_empty() { … }`: the two groups and the rule.
unfoldable pub groups : Crates → List (ProxyNode × Text) → Text
unfolding members
groups k [] = []
groups k (n ∷ ns) =
    str "\nproxy-groups:\n"
    ++ (str "  - name: \"🚀 节点选择\"\n    type: select\n    proxies:\n"
        ++ (members k (n ∷ ns)
            ++ (str "      - DIRECT\n"
                ++ (str "  - name: \"♻"
                    ++ (variation_selector
                        ∷ (str
                              " 自动选择\"\n    type: url-test\n    url: http://www.gstatic.com/generate_204\n    interval: 300\n    proxies:\n"
                            ++ (members k (n ∷ ns) ++ str "\nrules:\n  - MATCH,🚀 节点选择\n")))))))

unfoldable pub serialize_clash : Crates → List ProxyNode → Serialized Text
unfolding written_nodes parts groups
serialize_clash k nodes =
    let written = written_nodes k nodes in
    ok (preamble ++ (str "proxies:\n" ++ (parts written ++ groups k written)))
