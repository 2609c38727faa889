-- ===== src/Server/Routes/Template.antt =====
-- The template that crates/server/src/routes/clash_config.rs starts with.
use sub_merge.Base.{List, [], ◌∷◌, ◌++◌}
use sub_merge.Base.Text.{Text, str}

-- The lines, each with its end.
unlines : List Text → Text
unlines [] = []
unlines (l ∷ ls) = l ++ (10 ∷ unlines ls)

unfoldable pub default_template : Text
unfolding unlines
default_template = unlines (
    str "mixed-port: 7890"
    ∷ str "allow-lan: false"
    ∷ str "mode: rule"
    ∷ str "log-level: info"
    ∷ str ""
    ∷ str "ipv6: false"
    ∷ str ""
    ∷ str "dns:"
    ∷ str "  enable: true"
    ∷ str "  listen: 0.0.0.0:53"
    ∷ str "  ipv6: false"
    ∷ str "  enhanced-mode: fake-ip"
    ∷ str "  fake-ip-range: 198.18.0.1/16"
    ∷ str "  fake-ip-filter:"
    ∷ str "    - \"*.lan\""
    ∷ str "    - \"*.local\""
    ∷ str "    - \"+.msftconnecttest.com\""
    ∷ str "    - \"+.msftncsi.com\""
    ∷ str "    - \"time.*.com\""
    ∷ str "    - \"time.*.gov\""
    ∷ str "    - \"time.*.edu.cn\""
    ∷ str "    - \"*.ntp.org.cn\""
    ∷ str "    - \"*.pool.ntp.org\""
    ∷ str "    - \"time.cloudflare.com\""
    ∷ str "  nameserver:"
    ∷ str "    - 119.29.29.29"
    ∷ str "  fallback:"
    ∷ str "    - 1.1.1.1"
    ∷ str "  proxy-server-nameserver:"
    ∷ str "    - 119.29.29.29"
    ∷ str "  nameserver-policy:"
    ∷ str "    \"geosite:cn\":"
    ∷ str "      - 119.29.29.29"
    ∷ str "  fallback-filter:"
    ∷ str "    geoip: true"
    ∷ str "    geoip-code: CN"
    ∷ str "    ipcidr:"
    ∷ str "      - 240.0.0.0/4"
    ∷ str ""
    ∷ str "rule-providers:"
    ∷ str "  geosite-google:"
    ∷ str "    type: http"
    ∷ str "    behavior: domain"
    ∷ str "    format: mrs"
    ∷ str
        "    url: \"https://gh-proxy.org/https://github.com/MetaCubeX/meta-rules-dat/raw/meta/geo/geosite/google.mrs\""
    ∷ str "    path: ./ruleset/geosite-google.mrs"
    ∷ str "    interval: 86400"
    ∷ str "  geosite-youtube:"
    ∷ str "    type: http"
    ∷ str "    behavior: domain"
    ∷ str "    format: mrs"
    ∷ str
        "    url: \"https://gh-proxy.org/https://github.com/MetaCubeX/meta-rules-dat/raw/meta/geo/geosite/youtube.mrs\""
    ∷ str "    path: ./ruleset/geosite-youtube.mrs"
    ∷ str "    interval: 86400"
    ∷ str "  geosite-nodeseek:"
    ∷ str "    type: http"
    ∷ str "    behavior: domain"
    ∷ str "    format: mrs"
    ∷ str
        "    url: \"https://gh-proxy.org/https://github.com/MetaCubeX/meta-rules-dat/raw/meta/geo/geosite/nodeseek.mrs\""
    ∷ str "    path: ./ruleset/geosite-nodeseek.mrs"
    ∷ str "    interval: 86400"
    ∷ str "  geosite-cn:"
    ∷ str "    type: http"
    ∷ str "    behavior: domain"
    ∷ str "    format: mrs"
    ∷ str
        "    url: \"https://gh-proxy.org/https://github.com/MetaCubeX/meta-rules-dat/raw/meta/geo/geosite/cn.mrs\""
    ∷ str "    path: ./ruleset/geosite-cn.mrs"
    ∷ str "    interval: 86400"
    ∷ str "  geoip-cn:"
    ∷ str "    type: http"
    ∷ str "    behavior: ipcidr"
    ∷ str "    format: mrs"
    ∷ str
        "    url: \"https://gh-proxy.org/https://github.com/MetaCubeX/meta-rules-dat/raw/meta/geo/geoip/cn.mrs\""
    ∷ str "    path: ./ruleset/geoip-cn.mrs"
    ∷ str "    interval: 86400"
    ∷ str ""
    ∷ str "rules:"
    ∷ str "  - RULE-SET,geosite-google,节点选择"
    ∷ str "  - RULE-SET,geosite-youtube,节点选择"
    ∷ str "  - RULE-SET,geosite-nodeseek,节点选择"
    ∷ str "  - RULE-SET,geosite-cn,DIRECT"
    ∷ str "  - RULE-SET,geoip-cn,DIRECT"
    ∷ str "  - MATCH,节点选择"
    ∷ [])
