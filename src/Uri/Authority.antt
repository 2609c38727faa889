-- ===== src/Uri/Authority.antt =====
-- `split_authority` and `parse_host_port` of crates/proxy-core/src/uri.rs.
use sub_merge.Base.{ℕ, ◌<◌, ◌≡◌, ◌≢◌, none, [], ◌∷◌, ◌++◌, arith}
use sub_merge.Base.Lists.{All-map}
use sub_merge.Base.Text.{Text, strip_prefix, Absent}
use sub_merge.Base.Split.{rsplit_once-absent, rsplit_once-append}
use sub_merge.Base.Decimal.{to_string, u16_size, to_string-IsDigit, parse-to_string}
use sub_merge.Base.Result.{ok}
use sub_merge.Uri.{split_authority, host_and_port, parse_host_port}

pub split_authority-append :
    (user host : Text) → Absent b'@' host → split_authority (user ++ (b'@' ∷ host)) ≡ (user, host)
unfolding split_authority
split_authority-append user host h = rw (rsplit_once-append b'@' user host h, split_authority)

pub split_authority-absent : (host : Text) → Absent b'@' host → split_authority host ≡ ([], host)
unfolding split_authority
split_authority-absent host h = rw (rsplit_once-absent b'@' host h, split_authority)

-- A host that is printed with no brackets round it.
abbrev pub IsBare : Text → Type 0
IsBare [] = Unit
IsBare (c ∷ s) = c ≢ b'['

IsBare-strip :
    (host rest : Text) → IsBare host → strip_prefix (b'[' ∷ []) (host ++ (b':' ∷ rest)) ≡ none
unfolding strip_prefix
IsBare-strip [] rest h = ground arith
IsBare-strip (c ∷ s) rest h = ground arith

to_string-Absent_colon : (n : ℕ) → Absent b':' (to_string n)
to_string-Absent_colon n = All-map (λ c h. omega arith) (to_string n) (to_string-IsDigit n)

-- `host:port` is read back: the last colon separates, so the host may hold colons itself.
pub parse_host_port-bare :
    (host : Text) (port : ℕ)
    → IsBare host
    → port < u16_size
    → parse_host_port (host ++ (b':' ∷ to_string port)) ≡ ok (host, port)
unfolding parse_host_port
parse_host_port-bare host port h p =
    rw (IsBare-strip host (to_string port) h, host_and_port)
      (rw (rsplit_once-append b':' host (to_string port) (to_string-Absent_colon port))
        (rw (parse-to_string u16_size port p)))
