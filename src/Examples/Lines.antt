-- ===== src/Examples/Lines.antt =====
-- The dispatch and the loop over the lines at concrete texts.
use mathlib.Core.Option
use sub_merge.Base.{◌≤◌, ◌≡◌, refl, ◌↔◌, true, false, none, some, [], ◌∷◌, ◌++◌}
use sub_merge.Base.Text.{
  Text, str, eqb, utf8, starts_with, strip_prefix, contains, is_whitespace, drop_while, drop_end,
  trim,
}
use sub_merge.Base.Lists.{length, take, All}
use sub_merge.Base.Split.{split_once, rsplit_once, split}
use sub_merge.Base.Result.{err, ok}
use sub_merge.Crates.Sample.{sample}
use sub_merge.Error.{panicked}
use sub_merge.Model.{trojan, hysteria2, ProxyNode, new_node}
use sub_merge.Uri.{percent_decode, split_authority, host_and_port, parse_host_port}
use sub_merge.Protocols.Parts.{cut, read_query, transport_of}
use sub_merge.Protocols.Ss.{is_ss}
use sub_merge.Protocols.Ssr.{is_ssr, parse_ssr_decoded}
use sub_merge.Protocols.Vmess.{is_vmess}
use sub_merge.Protocols.Vless.{is_vless}
use sub_merge.Protocols.Trojan.{is_trojan, trojan_node, parse_trojan}
use sub_merge.Protocols.Tuic.{is_tuic}
use sub_merge.Protocols.Socks5.{is_socks5}
use sub_merge.Protocols.Http.{is_http}
use sub_merge.Protocols.Hysteria.{is_hysteria}
use sub_merge.Protocols.Hysteria2.{is_hysteria2, parse_hysteria2}
use sub_merge.Protocols.Wireguard.{is_wireguard}
use sub_merge.Parser.{
  dispatch, parse_line, strip_cr, ended_lines, lines, Lines, line_outcome, parse_lines, looks_clash,
  looks_base64, subscription_body, parse_subscription_text,
}
use sub_merge.Parser.Dispatch.{Reads, parse_line-Reads}
use sub_merge.Parser.Bounds.{accepted, NeverAborts, parse_lines-accepted}
use sub_merge.Parser.Subscription.{parse_subscription_text-length}
use sub_merge.Parser.Complete.{dispatch-parser_of, dispatch-accepts}
use sub_merge.Parser.Panic.{StartsWithSeparator, parse_ssr_decoded-panics, NeverAborts-not_ssr}
use sub_merge.Crates.Sample.Percent.{decode_text}

abbrev pub short_link : Text
short_link = str "trojan://pw@a.io:443"

abbrev two_lines : Text
two_lines = str "trojan://pw@a.io:443\r\nftp://x\nvless://id@b.io:80"

parse_line-Reads_example : Reads (trim short_link) (parse_line sample short_link)
parse_line-Reads_example = parse_line-Reads sample short_link

parse_ssr_decoded-panics_example :
    (parse_ssr_decoded sample (str "?x") ≡ err panicked) ↔ StartsWithSeparator (str "?x")
parse_ssr_decoded-panics_example = parse_ssr_decoded-panics sample (str "?x")

dispatch-parser_of_example :
    All
      (λ s. dispatch sample (s ++ str "a@b.io:1") ≡ parse_hysteria2 sample (s ++ str "a@b.io:1"))
      (str "hysteria2://" ∷ str "hy2://" ∷ [])
dispatch-parser_of_example = dispatch-parser_of sample hysteria2 (str "a@b.io:1")

two_lines-not_ssr : All (λ l. is_ssr (trim l) ≡ false) (lines two_lines)
unfolding lines ended_lines strip_cr split is_ssr trim drop_while drop_end is_whitespace starts_with
two_lines-not_ssr = (refl, (refl, (refl, tt)))

two_lines-NeverAborts : NeverAborts sample (lines two_lines)
two_lines-NeverAborts = NeverAborts-not_ssr sample (lines two_lines) two_lines-not_ssr

parse_lines-accepted_example :
    Option.map (λ r. r.nodes) (parse_lines sample two_lines 10)
    ≡ some (take 10 (accepted sample (lines two_lines)))
parse_lines-accepted_example = parse_lines-accepted sample 10 two_lines two_lines-NeverAborts

abbrev pub pw_node : ProxyNode
pw_node = record (new_node [] trojan (str "a.io") 443) {
  password = some (str "pw");
  tls =
      some (record { enabled = true; sni = none; alpn = []; insecure = false; fingerprint = none });
}

abbrev pub one_line : Text
one_line = str "trojan://pw@a.io:443\nx"

abbrev pub one_line_result : Lines
one_line_result = record { nodes = pw_node ∷ []; skipped = 1 }

pub one_line_run : parse_lines sample one_line 10 ≡ some one_line_result
unfolding parse_lines lines line_outcome utf8 parse_line trim is_ss starts_with is_ssr is_vmess
    is_vless is_trojan parse_trojan strip_prefix parse_host_port cut split_once split_authority
    rsplit_once host_and_port percent_decode decode_text trojan_node read_query transport_of
    is_socks5 is_http is_hysteria is_hysteria2 is_tuic is_wireguard eqb
one_line_run = refl

one_line_subscription : parse_subscription_text sample one_line 10 ≡ some one_line_result
unfolding parse_subscription_text looks_clash subscription_body looks_base64 contains starts_with
    trim drop_while drop_end is_whitespace lines ended_lines strip_cr split utf8
one_line_subscription = one_line_run

parse_subscription_text-length_example : length one_line_result.nodes ≤ 10
parse_subscription_text-length_example =
    parse_subscription_text-length sample 10 one_line one_line_result one_line_subscription

short_link-accepted : parse_trojan sample short_link ≡ ok pw_node
unfolding parse_trojan strip_prefix parse_host_port cut split_once split_authority rsplit_once
    host_and_port percent_decode decode_text trojan_node read_query transport_of eqb
short_link-accepted = refl

dispatch-accepts_example : dispatch sample short_link ≡ ok pw_node
dispatch-accepts_example = dispatch-accepts sample trojan short_link pw_node short_link-accepted
