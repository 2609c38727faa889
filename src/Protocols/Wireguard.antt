-- ===== src/Protocols/Wireguard.antt =====
-- crates/proxy-core/src/protocols/wireguard.rs. The parsed `ip` list is dropped, as in the source.
pub mod RoundTrip
use sub_merge.Base.{ℕ, Bool, Option, none, some, ◌∷◌, ◌++◌}
use sub_merge.Base.Tests.{if◌then◌else◌}
use sub_merge.Base.Text.{Text, str, eqb, starts_with, strip_prefix}
use sub_merge.Base.Decimal.{to_string}
use sub_merge.Base.Result.{ok, ◌>>=◌, ◌>>◌, ok_or}
use sub_merge.Crates.{Crates}
use sub_merge.Error.{unsupported_protocol, missing_field, missing, Parsed, require, Serialized}
use sub_merge.Model.{wireguard, ProxyNode, new_node}
use sub_merge.Uri.{urlencode, split_authority, parse_host_port}
use sub_merge.Protocols.Parts.{cut, or_default, check_kind, fragment, read_query}
use sub_merge.Protocols.Hysteria2.{decoded_userinfo}

unfoldable pub is_wireguard : Text → Bool
is_wireguard uri = starts_with uri (str "wireguard://")

pub record KeyQuery : Type 0 where
  pub public_key : Option Text
  pub private_key : Option Text

unfoldable pub wireguard_param : KeyQuery → Text → Text → KeyQuery
wireguard_param q key v =
    if eqb key (str "publicKey")
    then record q { public_key = some v }
    else if eqb key (str "privateKey")
    then record q { private_key = some v }
    else q

-- The check behind the loop and the node.
unfoldable pub wireguard_node : Text → Text → ℕ → KeyQuery → Parsed ProxyNode
wireguard_node name server port q = do
  public_key ← require q.public_key (missing_field (str "publicKey"))
  ok (record (new_node name wireguard server port) {
    uuid = q.private_key;
    password = some public_key;
  })

unfoldable pub parse_wireguard : Crates → Text → Parsed ProxyNode
parse_wireguard k uri = do
  rest ← require (strip_prefix (str "wireguard://") uri) unsupported_protocol
  let (host_query, fragment) = cut b'#' rest
  let (auth_query, query) = cut b'?' host_query
  let (userinfo, hostpart) = split_authority auth_query
  (server, port) ← parse_host_port hostpart
  public_key ← decoded_userinfo k userinfo
  wireguard_node (or_default fragment) server port
      (read_query k wireguard_param (record { public_key = public_key; private_key = none }) query)

unfoldable pub serialize_wireguard : Crates → ProxyNode → Serialized Text
serialize_wireguard k node = do
  check_kind wireguard node
  public_key ← ok_or node.password (missing (str "publicKey"))
  private_key ← ok_or node.uuid (missing (str "privateKey"))
  ok (
      str "wireguard://"
      ++ (urlencode k public_key
          ++ (b'@'
              ∷ (node.server
                  ++ (b':'
                      ∷ (to_string node.port
                          ++ (str "?publicKey="
                              ++ (urlencode k public_key
                                  ++ (str "&privateKey="
                                      ++ (urlencode k private_key
                                          ++ (str "&reserved=0,0,0&mtu=1420&ip=10.0.0.1/24"
                                              ++ fragment node.name)))))))))))
