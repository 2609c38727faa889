-- ===== src/Formats.antt =====
-- crates/proxy-core/src/formats/ and serializer.rs: the two outputs for a list of nodes.
pub mod V2ray
pub mod Clash
pub mod Document
pub mod Template
pub mod Laws
pub mod Sections
pub mod Tolerant
pub mod RoundTrip
use sub_merge.Base.{◌||◌, Option, none, some, List}
use sub_merge.Base.Tests.{if◌then◌else◌}
use sub_merge.Base.Text.{Text, str, eqb, to_ascii_lowercase}
use sub_merge.Crates.{Crates}
use sub_merge.Error.{Serialized}
use sub_merge.Model.{ProxyNode}
use sub_merge.Formats.V2ray.{serialize_v2ray}
use sub_merge.Formats.Document.{serialize_clash}

pub data OutputFormat : Type 0 where
  clash : OutputFormat
  v2ray : OutputFormat

unfoldable pub output_format_from_str : Text → Option OutputFormat
output_format_from_str s =
    let l = to_ascii_lowercase s in
    if eqb l (str "clash") || (eqb l (str "clashyaml") || eqb l (str "yaml"))
    then some clash
    else if eqb l (str "v2ray") || (eqb l (str "v2r") || eqb l (str "base64"))
    then some v2ray
    else none

unfoldable pub serialize_nodes : Crates → List ProxyNode → OutputFormat → Serialized Text
serialize_nodes k nodes clash = serialize_clash k nodes
serialize_nodes k nodes v2ray = serialize_v2ray k nodes
