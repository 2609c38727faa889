-- ===== src/Protocols/Parts.antt =====
-- The pieces that the files of crates/proxy-core/src/protocols repeat: cutting off the fragment and
-- the query, the loop over the query's pairs, and writing parameters and the name.
pub mod Query
pub mod Authority
use sub_merge.Base.{ℕ, Bool, true, false, ◌||◌, Option, none, some, List, [], ◌∷◌, ◌++◌}
use sub_merge.Base.Tests.{if◌then◌else◌}
use sub_merge.Base.Text.{Text, str, eqb, trim_start_matches}
use sub_merge.Base.Split.{split_once, split, join}
use sub_merge.Base.Result.{ok, err}
use sub_merge.Crates.{Crates}
use sub_merge.Error.{unsupported, Serialized}
use sub_merge.Model.{
  Protocol, is_kind, protocol_as_str, WebsocketConfig, GrpcConfig, HttpUpgradeConfig, Transport,
  ProxyNode, over_websocket, over_grpc, over_http_upgrade,
}
use sub_merge.Uri.{percent_decode_or_default}

-- `match s.find(c) { Some(i) => (&s[..i], Some(&s[i + 1..])), None => (s, None) }`
unfoldable pub cut : ℕ → Text → Text × Option Text
cut c s = elim (split_once c s) [ none ↦ (s, none) | some (a, b) ↦ (a, some b) ]

-- `fragment.map(|f| f.to_string()).unwrap_or_default()`, `unwrap_or_default()`
abbrev pub or_default : Option Text → Text
or_default none = []
or_default (some s) = s

abbrev pub or_else {ℓ} : {A : Type ℓ} → Option A → Option A → Option A
or_else none b = b
or_else (some a) b = some a

-- The serializers' guard on the kind of the node.
abbrev pub check_kind : Protocol → ProxyNode → Serialized (Unit {0})
check_kind p node =
    if is_kind node.kind p then ok tt else err (unsupported (protocol_as_str node.kind))

-- `if !name.is_empty() { out.push('#'); out.push_str(name) }`
unfoldable pub fragment : Text → Text
fragment [] = []
fragment (c ∷ s) = b'#' ∷ c ∷ s

-- A parameter that is pushed only if a test holds, or a value is there.
abbrev pub when {ℓ} : {A : Type ℓ} → Bool → A → List A
when true a = a ∷ []
when false a = []

abbrev pub each {ℓ κ} : {A : Type ℓ} {B : Type κ} → Option A → (A → B) → List B
each none f = []
each (some a) f = f a ∷ []

-- `if !query.is_empty() { out.push('?'); out.push_str(&query.join("&")) }`
unfoldable pub query_suffix : List Text → Text
query_suffix [] = []
query_suffix (p ∷ ps) = b'?' ∷ join (b'&' ∷ []) (p ∷ ps)

-- `out.push_str("&…")` for each parameter.
unfoldable pub push_params : List Text → Text
push_params [] = []
push_params (p ∷ ps) = b'&' ∷ (p ++ push_params ps)

-- `v == "1" || v == "true"`
unfoldable pub truthy : Text → Bool
truthy v = eqb v (str "1") || eqb v (str "true")

-- `v.split(',').map(|s| s.to_string()).collect()`
abbrev pub comma_list : Text → List Text
comma_list v = split b',' v

module _ {ℓ} {S : Type ℓ} (k : Crates) (step : S → Text → Text → S) where
  -- One round of `for kv in q.split('&')`: a part with no `=` is skipped, the value is decoded.
  unfoldable pub query_step : S → Text → S
  query_step st kv = elim (split_once b'=' kv) [
    | none ↦ st
    | some (key, v) ↦ step st key (percent_decode_or_default k v)
  ]

  unfoldable pub query_loop : S → List Text → S
  query_loop st [] = st
  query_loop st (kv ∷ kvs) = query_loop (query_step st kv) kvs

  -- `if let Some(q) = query { for … }`
  unfoldable pub read_query : S → Option Text → S
  unfolding query_loop query_step
  read_query st none = st
  read_query st (some q) = query_loop st (split b'&' q)

-- What `trojan`, `vless` and `vmess` write of a transport: the net, the host and the path.
pub record Stream : Type 0 where
  pub net : Text
  pub host : Text
  pub path : Text

abbrev pub stream_with :
    Text → Option WebsocketConfig → Option GrpcConfig → Option HttpUpgradeConfig → Stream
stream_with upgrade (some ws) g h = record {
  net = str "ws";
  host = or_default ws.host;
  path = ws.path;
}
stream_with upgrade none (some g) h = record {
  net = str "grpc";
  host = [];
  path = b'/' ∷ g.service_name;
}
stream_with upgrade none none (some h) = record {
  net = upgrade;
  host = or_default h.host;
  path = h.path;
}
stream_with upgrade none none none = record { net = str "tcp"; host = []; path = [] }

-- The `match &node.transport`, with the name of the HTTP upgrade.
unfoldable pub stream_of : Text → Option Transport → Stream
stream_of upgrade none = record { net = str "tcp"; host = []; path = [] }
stream_of upgrade (some t) = stream_with upgrade t.websocket t.grpc t.http_upgrade

-- The `match net.as_str()` that builds a transport from the query of `trojan` and `vless`.
unfoldable pub transport_of : Text → Text → Option Text → Option Transport
transport_of net path host =
    if eqb net (str "ws") || eqb net (str "websocket")
    then some (over_websocket path host)
    else if eqb net (str "grpc")
    then some (over_grpc (trim_start_matches b'/' path))
    else if eqb net (str "httpupgrade")
    then some (over_http_upgrade path host)
    else none
