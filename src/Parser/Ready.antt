-- ===== src/Parser/Ready.antt =====
-- What the serializers need of a node, and what a parser promises of its node.
use sub_merge.Base.{◌<◌, ◌≡◌, Option, none, some}
use sub_merge.Base.Decimal.{u16_size}
use sub_merge.Model.{Protocol, ss, ssr, vless, trojan, wireguard, ProxyNode}

abbrev pub Given {ℓ} : {A : Type ℓ} → Option A → Type 0
Given none = ⊥
Given (some a) = Unit

-- The fields without which the serializer of the node's kind fails, but for the private key of
-- wireguard, which a link may lack.
abbrev pub HasFields : Protocol → ProxyNode → Type 0
HasFields ss n = Given n.crypto × Given n.password
HasFields ssr n = Given n.crypto × Given n.password
HasFields vless n = Given n.uuid
HasFields trojan n = Given n.password
HasFields wireguard n = Given n.password
HasFields _ n = Unit

abbrev pub IsReady : ProxyNode → Type 0
IsReady n = HasFields n.kind n

pub record IsNode (p : Protocol) (n : ProxyNode) : Type 0 where
  pub has_kind : n.kind ≡ p
  pub in_range : n.port < u16_size
  pub ready : IsReady n
