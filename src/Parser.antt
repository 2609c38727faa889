-- ===== src/Parser.antt =====
-- crates/proxy-core/src/parser.rs: the dispatch on the scheme, and the subscription formats.
pub mod Outcome
pub mod Dispatch
pub mod Ready
pub mod Sound
pub mod Bounds
pub mod Subscription
pub mod ClashNode
pub mod Complete
pub mod Panic
pub mod Joined
use sub_merge.Base.{ℕ, ◌+◌, ◌*◌, Bool, not, ◌&&◌, ◌||◌, Option, none, some, List, [], ◌∷◌, ◌++◌}
use sub_merge.Base.Tests.{ltb, leb, ◌==◌, if◌then◌else◌}
use sub_merge.Base.Lists.{length, take, any}
use sub_merge.Base.Text.{Text, str, is_empty, len, starts_with, contains, trim_start, trim}
use sub_merge.Base.Split.{split}
use sub_merge.Base.Result.{ok, err}
use sub_merge.Crates.{Crates}
use sub_merge.Error.{unsupported_protocol, raised, panicked, Parsed, fail}
use sub_merge.Model.{ProxyNode}
use sub_merge.Uri.{decode_base64_url_string}
use sub_merge.Protocols.Ss.{is_ss, parse_ss}
use sub_merge.Protocols.Ssr.{is_ssr, parse_ssr}
use sub_merge.Protocols.Socks5.{is_socks5, parse_socks5}
use sub_merge.Protocols.Http.{is_http, parse_http}
use sub_merge.Protocols.Vmess.{is_vmess, parse_vmess}
use sub_merge.Protocols.Vless.{is_vless, parse_vless}
use sub_merge.Protocols.Trojan.{is_trojan, parse_trojan}
use sub_merge.Protocols.Hysteria.{is_hysteria, parse_hysteria}
use sub_merge.Protocols.Hysteria2.{is_hysteria2, parse_hysteria2}
use sub_merge.Protocols.Tuic.{is_tuic, parse_tuic}
use sub_merge.Protocols.Wireguard.{is_wireguard, parse_wireguard}
use sub_merge.Parser.ClashNode.{parse_clash_yaml}

-- The ladder of `parse_line`, on a trimmed line that is not empty.
unfoldable pub dispatch : Crates → Text → Parsed ProxyNode
dispatch k l =
    if is_ss l
    then parse_ss k l
    else if is_ssr l
    then parse_ssr k l
    else if is_vmess l
    then parse_vmess k l
    else if is_vless l
    then parse_vless k l
    else if is_trojan l
    then parse_trojan k l
    else if is_socks5 l
    then parse_socks5 k l
    else if is_http l
    then parse_http k l
    else if is_hysteria2 l
    then parse_hysteria2 k l
    else if is_hysteria l
    then parse_hysteria k l
    else if is_tuic l
    then parse_tuic k l
    else if is_wireguard l
    then parse_wireguard k l
    else fail unsupported_protocol

unfoldable pub parse_line : Crates → Text → Parsed ProxyNode
unfolding dispatch
parse_line k line =
    let l = trim line in if is_empty l then fail unsupported_protocol else dispatch k l

abbrev pub max_line_len : ℕ
max_line_len = 1024 * 1024

-- `lines()`: a carriage return in front of a newline is dropped, and so is an empty last part.
unfoldable pub strip_cr : Text → Text
strip_cr [] = []
strip_cr (c ∷ []) = if c == b'\r' then [] else c ∷ []
strip_cr (c ∷ (d ∷ s)) = c ∷ strip_cr (d ∷ s)

unfoldable pub ended_lines : List Text → List Text
unfolding strip_cr
ended_lines [] = []
ended_lines (w ∷ []) = if is_empty w then [] else w ∷ []
ended_lines (w ∷ (v ∷ ws)) = strip_cr w ∷ ended_lines (v ∷ ws)

unfoldable pub lines : Text → List Text
unfolding ended_lines split
lines s = ended_lines (split b'\n' s)

-- The nodes in order and the number of skipped lines. A panic ends the whole call.
pub record Lines : Type 0 where
  pub nodes : List ProxyNode
  pub skipped : ℕ

pub data LineOutcome : Type 0 where
  pushed : ProxyNode → LineOutcome
  skip : LineOutcome
  abort : LineOutcome

-- The `match parse_line(line)` of one round.
abbrev pub outcome_of : Parsed ProxyNode → LineOutcome
outcome_of (ok n) = pushed n
outcome_of (err (raised e)) = skip
outcome_of (err panicked) = abort

-- The size check and the parse of one round.
unfoldable pub line_outcome : Crates → Text → LineOutcome
line_outcome k line = if ltb max_line_len (len line) then skip else outcome_of (parse_line k line)

-- The loop of `parse_lines`; `none` is a panic.
unfoldable pub parse_lines_from : Crates → ℕ → Lines → List Text → Option Lines
parse_lines_from k max_nodes acc [] = some acc
parse_lines_from k max_nodes acc (line ∷ rest) =
    if leb max_nodes (length acc.nodes) then some acc else elim (line_outcome k line) [
      | pushed n ↦ parse_lines_from k max_nodes (record acc { nodes = acc.nodes ++ n ∷ [] }) rest
      | skip ↦ parse_lines_from k max_nodes (record acc { skipped = acc.skipped + 1 }) rest
      | abort ↦ none
    ]

abbrev pub no_lines : Lines
no_lines = record { nodes = []; skipped = 0 }

unfoldable pub parse_lines : Crates → Text → ℕ → Option Lines
unfolding parse_lines_from
parse_lines k text max_nodes = parse_lines_from k max_nodes no_lines (lines text)

-- `unwrap_or_else(|_| text.to_string())`
unfoldable pub parse_v2ray_subscription : Crates → Text → ℕ → Option Lines
parse_v2ray_subscription k text max_nodes = elim (decode_base64_url_string k text) [
  | ok body ↦ parse_lines k body max_nodes
  | err e ↦ parse_lines k text max_nodes
]

unfoldable pub looks_clash : Text → Bool
looks_clash text = any (λ l. starts_with (trim_start l) (str "proxies:")) (lines text)

unfoldable pub looks_base64 : Text → Bool
looks_base64 trimmed = not (contains (str "://") trimmed) && ltb 16 (len trimmed)

-- The `if let` chain behind the base64 attempt: the text whose lines are parsed.
abbrev decoded_or : Text → Parsed Text → Text
decoded_or text (ok decoded) =
    if contains (str "\n") decoded || contains (str "://") decoded then decoded else text
decoded_or text (err e) = text

unfoldable pub subscription_body : Crates → Text → Text
unfolding looks_base64
subscription_body k text =
    if looks_base64 (trim text)
    then decoded_or text (decode_base64_url_string k (trim text))
    else text

-- A Clash document that does not parse is read as lines.
unfoldable pub clash_or_lines : Crates → Text → ℕ → Parsed (List ProxyNode) → Option Lines
clash_or_lines k text max_nodes (ok nodes) =
    some (record { nodes = take max_nodes nodes; skipped = 0 })
clash_or_lines k text max_nodes (err e) = parse_lines k text max_nodes

unfoldable pub parse_subscription_text : Crates → Text → ℕ → Option Lines
unfolding looks_clash subscription_body clash_or_lines
parse_subscription_text k text max_nodes =
    if looks_clash text
    then clash_or_lines k text max_nodes (parse_clash_yaml k text)
    else parse_lines k (subscription_body k text) max_nodes
