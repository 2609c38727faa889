-- ===== src/Protocols/Wireguard/RoundTrip.antt =====
-- A wireguard node through `serialize_wireguard` and `parse_wireguard`.
use sub_merge.Base.{ℕ, ◌≡◌, refl, ap, ◌∙◌, some, List, [], ◌∷◌, ◌++◌, append_assoc, arith}
use sub_merge.Base.Lists.{All, all_sound}
use sub_merge.Base.Text.{Text, str, eqb, IsScalar, Absent, strip_prefix-append}
use sub_merge.Base.Split.{split_once, join}
use sub_merge.Base.Decimal.{to_string}
use sub_merge.Base.Result.{ok}
use sub_merge.Crates.{Crates}
use sub_merge.Crates.Laws.{Documented}
use sub_merge.Model.{wireguard, ProxyNode, new_node}
use sub_merge.Uri.{urlencode}
use sub_merge.Uri.Percent.{urlencode-Absent}
use sub_merge.Protocols.Parts.{cut, fragment, query_suffix, query_step, query_loop}
use sub_merge.Protocols.Parts.Query.{
  or_default-name_part, decode_or_default-urlencode, query_step-pair, is_param, IsParam,
  pair-IsParam, query_text, read_query-text,
}
use sub_merge.Protocols.Parts.Authority.{
  authority, IsHost, cuts, cut_query_first, split_authority-plain,
}
use sub_merge.Protocols.Hysteria2.RoundTrip.{decoded_userinfo-urlencode}
use sub_merge.Protocols.Wireguard.{
  KeyQuery, wireguard_param, wireguard_node, parse_wireguard, serialize_wireguard,
}

-- The node that comes back.
abbrev pub wireguard_kept : ProxyNode → ProxyNode
wireguard_kept node = record (new_node node.name wireguard node.server node.port) {
  uuid = node.uuid;
  password = node.password;
}

-- A wireguard node with both keys, whose texts are Rust strings.
pub record IsWireguard (node : ProxyNode) (public_key private_key : Text) : Type 0 where
  pub is_wireguard : node.kind ≡ wireguard
  pub has_public : node.password ≡ some public_key
  pub has_private : node.uuid ≡ some private_key
  pub public_scalar : All IsScalar public_key
  pub private_scalar : All IsScalar private_key
  pub host : IsHost node.server node.port

module _ (k : Crates) (d : Documented k) where
  abbrev loop : KeyQuery → List Text → KeyQuery
  loop = query_loop k wireguard_param

  abbrev fixed : List Text
  fixed = str "reserved=0,0,0" ∷ str "mtu=1420" ∷ str "ip=10.0.0.1/24" ∷ []

  abbrev params : Text → Text → List Text
  params public_key private_key =
      (str "publicKey=" ++ urlencode k public_key)
      ∷ (str "privateKey=" ++ urlencode k private_key)
      ∷ fixed

  step_encoded :
      (q : KeyQuery) (key s : Text)
      → Absent b'=' key
      → All IsScalar s
      → query_step k wireguard_param q (key ++ (b'=' ∷ urlencode k s)) ≡ wireguard_param q key s
  step_encoded q key s a h =
      query_step-pair k wireguard_param q key (urlencode k s) a
      ∙ ap (wireguard_param q key) (decode_or_default-urlencode k d s h)

  loop_public :
      (q : KeyQuery) (s : Text)
      → All IsScalar s
      → query_step k wireguard_param q (str "publicKey=" ++ urlencode k s)
        ≡ record q { public_key = some s }
  unfolding wireguard_param eqb
  loop_public q s h = step_encoded q (str "publicKey") s (omega arith) h

  loop_private :
      (q : KeyQuery) (s : Text)
      → All IsScalar s
      → query_step k wireguard_param q (str "privateKey=" ++ urlencode k s)
        ≡ record q { private_key = some s }
  unfolding wireguard_param eqb
  loop_private q s h = step_encoded q (str "privateKey") s (omega arith) h

  loop-fixed : (q : KeyQuery) → loop q fixed ≡ q
  unfolding query_loop query_step split_once wireguard_param eqb
  loop-fixed q = refl

  loop-params :
      (q : KeyQuery) (public_key private_key : Text)
      → All IsScalar public_key
      → All IsScalar private_key
      → loop q (params public_key private_key)
        ≡ record { public_key = some public_key; private_key = some private_key }
  unfolding query_loop
  loop-params q public_key private_key h h' =
      ap (λ q'. loop q' ((str "privateKey=" ++ urlencode k private_key) ∷ fixed))
        (loop_public q public_key h)
      ∙ ap (λ q'. loop q' fixed)
          (loop_private (record q { public_key = some public_key }) private_key h')
      ∙ loop-fixed _

  params-IsParam : (u v : Text) → All (All IsParam) (params u v)
  params-IsParam u v = (
    pair-IsParam k d (str "publicKey=") u refl,
    (
      pair-IsParam k d (str "privateKey=") v refl,
      (
        all_sound is_param (str "reserved=0,0,0") refl,
        (
          all_sound is_param (str "mtu=1420") refl,
          (all_sound is_param (str "ip=10.0.0.1/24") refl, tt),
        ),
      ),
    ),
  )

  abbrev wireguard_uri : ProxyNode → Text → Text → Text
  wireguard_uri node u v =
      str "wireguard://"
      ++ authority (urlencode k u) node.server node.port
          (query_suffix (params u v) ++ fragment node.name)

  serialize_wireguard-uri :
      (node : ProxyNode) {u v : Text}
      → IsWireguard node u v
      → serialize_wireguard k node ≡ ok (wireguard_uri node u v)
  unfolding serialize_wireguard query_suffix join
  serialize_wireguard-uri node {u} {v} h = simp append_assoc (ground arith)

  query_cut :
      (u v : Text) {host : Text} {port : ℕ}
      → IsHost host port
      → cut b'?' (authority (urlencode k u) host port (query_suffix (params u v)))
        ≡ (urlencode k u ++ (b'@' ∷ (host ++ (b':' ∷ to_string port))), query_text (params u v))
  unfolding query_suffix
  query_cut u v h = cut_query_first h (urlencode k u) _ (urlencode-Absent k d b'?' u refl)

  parse_wireguard-uri :
      (node : ProxyNode) {u v : Text}
      → IsWireguard node u v
      → parse_wireguard k (wireguard_uri node u v) ≡ ok (wireguard_kept node)
  unfolding parse_wireguard
  parse_wireguard-uri node {u} {v} h =
      let ps = params u v in
      let p = params-IsParam u v in
      let user = urlencode k u in
      let c = cuts user ps node.name h.host (urlencode-Absent k d b'#' u refl) p in
      rw (strip_prefix-append (str "wireguard://") _) (
        rw c.at_hash (
          rw (query_cut u v h.host) (
            rw (split_authority-plain h.host user) (
              rw c.at_port (
                rw (decoded_userinfo-urlencode k d u h.public_scalar) (
                  rw (or_default-name_part node.name) (
                    rw (read_query-text k wireguard_param _ ps p) (
                      rw (loop-params _ u v h.public_scalar h.private_scalar)
                        (unfold wireguard_node in ground arith)))))))))

  -- A wireguard node with both keys, a plain server and texts made of Unicode scalar values is
  -- serialized, and the URI parses to the same name, server, port and keys.
  pub parse-serialize_wireguard :
      (node : ProxyNode) {u v : Text}
      → IsWireguard node u v
      → (uri : Text) × (serialize_wireguard k node ≡ ok uri)
        × (parse_wireguard k uri ≡ ok (wireguard_kept node))
  parse-serialize_wireguard node {u} {v} h =
      (wireguard_uri node u v, serialize_wireguard-uri node h, parse_wireguard-uri node h)
