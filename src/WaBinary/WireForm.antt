-- ===== src/WaBinary/WireForm.antt =====
-- What the binary XML of wa/wabinary keeps of a node, and which nodes it can carry.
use whatsapp_cli.Common.{◌+◌, ◌*◌, ◌^◌, ◌<◌, [], true, false}
use whatsapp_cli.Common.Tests.{if◌then◌else◌}
use whatsapp_cli.Common.Lists.{length}
use whatsapp_cli.Common.Utf8.{codes, same_bytes}
use whatsapp_cli.WaBinary.Node.{
  Node, node, no_attrs, Value, null, text, number, flag, jid, blob, children, Nodes, nil, cons,
}
use whatsapp_cli.WaBinary.Encoder.{decimal, count_attrs, count_nodes}
use whatsapp_cli.WaBinary.Strings.{IsWritable, wire_text}
use whatsapp_cli.WaBinary.Jids.{IsWritableJid, wire_jid}
use whatsapp_cli.WaBinary.Attributes.{IsWritableAttrs, collect_attrs}

-- What a node is read as. Content that is text may come back as bytes (`wire_text`), a list of no
-- nodes as the empty text, and a node with the tag "0" as the node of an empty list.
unfoldable mutual
  pub wire_node : Node → Node
  wire_node (node tag attrs content) =
      let content' = wire_content content in
      if same_bytes tag (codes "0")
      then node [] no_attrs null
      else node tag (collect_attrs attrs no_attrs) content'

  pub wire_content : Value → Value
  wire_content null = null
  wire_content (text s) = wire_text s
  wire_content (number n) = wire_text (decimal n)
  wire_content (flag true) = wire_text (codes "true")
  wire_content (flag false) = wire_text (codes "false")
  wire_content (jid j) = jid (wire_jid j)
  wire_content (blob bytes) = blob bytes
  wire_content (children nil) = text []
  wire_content (children (cons n ns)) = children (cons (wire_node n) (wire_nodes ns))

  pub wire_nodes : Nodes → Nodes
  wire_nodes nil = nil
  wire_nodes (cons n ns) = cons (wire_node n) (wire_nodes ns)

-- A node that the wire can carry: its texts are, its bytes are below 2 ^ 31, and its counts fit.
unfoldable mutual
  pub IsWritableNode : Node → Type 0
  IsWritableNode (node tag attrs content) =
      IsWritable tag
      × IsWritableAttrs attrs
      × (2 * count_attrs attrs + 2 < 2 ^ 16)
      × IsWritableContent content

  pub IsWritableContent : Value → Type 0
  IsWritableContent null = Unit {0}
  IsWritableContent (text s) = IsWritable s
  IsWritableContent (number n) = IsWritable (decimal n)
  IsWritableContent (flag b) = Unit {0}
  IsWritableContent (jid j) = IsWritableJid j
  IsWritableContent (blob bytes) = length bytes < 2 ^ 31
  IsWritableContent (children ns) = (count_nodes ns < 2 ^ 16) × IsWritableNodes ns

  pub IsWritableNodes : Nodes → Type 0
  IsWritableNodes nil = Unit {0}
  IsWritableNodes (cons n ns) = IsWritableNode n × IsWritableNodes ns
