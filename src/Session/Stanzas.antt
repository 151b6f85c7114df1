-- ===== src/Session/Stanzas.antt =====
-- The stanzas that `InboundSession` sends, and its tests of the ones that it gets (wa/session.py).
use whatsapp_cli.Common.{Bool, true, false, not, ◌||◌, Option, none, some, []}
use whatsapp_cli.Common.Tests.{if◌then◌else◌}
use whatsapp_cli.Common.Utf8.{Str, codes, same_bytes}
use whatsapp_cli.WaBinary.Node.{
  Jid, default_user_server, Node, node, tag_of, attrs_of, Attrs, no_attrs, attr, Value, null, text,
  number, flag, jid, children, Nodes, nil, cons, get_children, get_attr, attr_or, set_attr, is_text,
  truthy,
}
use whatsapp_cli.WaBinary.Encoder.{decimal}
use whatsapp_cli.WaBinary.JidText.{str_jid}

-- `_SERVER`
abbrev pub server : Value
server =
    jid (record { user = []; server = default_user_server; agent = 0; device = 0; integrator = 0 })

abbrev pub has_tag : Node → Str → Bool
has_tag n tag = same_bytes (tag_of n) tag

-- `str(value)`
unfoldable pub str_of : (Value → Str) → Value → Str
str_of repr null = codes "None"
str_of repr (text s) = s
str_of repr (number n) = decimal n
str_of repr (flag true) = codes "True"
str_of repr (flag false) = codes "False"
str_of repr (jid j) = str_jid j
str_of repr v = repr v

-- `str(node.attrs.get("id", "") or "")`
unfoldable pub id_of : (Value → Str) → Node → Str
unfolding str_of
id_of repr n = let v = attr_or (codes "id") (text []) n in if truthy v then str_of repr v else []

-- `any(child.tag == tag for child in …)`
unfoldable pub any_tag : Str → Nodes → Bool
any_tag tag nil = false
any_tag tag (cons n ns) = has_tag n tag || any_tag tag ns

unfoldable pub is_server_ping : Node → Bool
unfolding any_tag
is_server_ping n =
    if not (has_tag n (codes "iq")) || not (is_text (attr_or (codes "type") null n) (codes "get"))
    then false
    else let xmlns = attr_or (codes "xmlns") (text []) n in
      if is_text xmlns (codes "urn:xmpp:ping") || is_text xmlns (codes "w:p")
      then true
      else any_tag (codes "ping") (get_children n)

-- `attrs[key] = node.attrs[key]`, where the node has it
abbrev pub copy_attr : Str → Node → Attrs → Attrs
copy_attr key n attrs = elim (get_attr key (attrs_of n)) [
  | none ↦ attrs
  | some v ↦ set_attr key v attrs
]

-- `node.attrs.get("id", "")` and `node.attrs.get("from", _SERVER)`
abbrev pub id_attr : Node → Value
id_attr = attr_or (codes "id") (text [])

abbrev pub from_attr : Node → Value
from_attr = attr_or (codes "from") server

unfoldable pub iq_result : Node → Node
iq_result n =
    node (codes "iq")
      (attr (codes "to") (from_attr n)
        (attr (codes "id") (id_attr n) (attr (codes "type") (text (codes "result")) no_attrs)))
      null

-- What `_ack_stanza` sends.
unfoldable pub ack_stanza : Node → Node
ack_stanza n =
    let base =
      attr (codes "class") (text (tag_of n))
        (attr (codes "id") (id_attr n) (attr (codes "to") (from_attr n) no_attrs)) in
    let routed = copy_attr (codes "recipient") n (copy_attr (codes "participant") n base) in
    node (codes "ack")
      (if has_tag n (codes "message") then routed else copy_attr (codes "type") n routed) null

-- `sender.user in {own_pn.user, own_lid.user if own_lid else None}`, for a sender that is a JID
abbrev pub is_own : Jid → Option Jid → Value → Bool
is_own own_pn none (jid sender) = same_bytes sender.user own_pn.user
is_own own_pn (some own_lid) (jid sender) =
    same_bytes sender.user own_pn.user || same_bytes sender.user own_lid.user
is_own own_pn own_lid _ = false

unfoldable pub is_own_echo : Jid → Option Jid → Node → Bool
is_own_echo own_pn own_lid n =
    let participant = attr_or (codes "participant") null n in
    is_own own_pn own_lid
      (if truthy participant then participant else attr_or (codes "from") null n)

-- What `_send_receipt` sends.
unfoldable pub receipt : Bool → Node → Node
receipt own_echo n =
    let base = attr (codes "id") (id_attr n) (attr (codes "to") (from_attr n) no_attrs) in
    let routed = copy_attr (codes "recipient") n (copy_attr (codes "participant") n base) in
    node (codes "receipt")
      (if own_echo then set_attr (codes "type") (text (codes "sender")) routed else routed) null

-- What `_send_protocol_receipt` sends.
unfoldable pub protocol_receipt : Jid → Node → Str → Node
protocol_receipt own_pn n receipt_type =
    let phone : Jid = record {
      user = own_pn.user;
      server = default_user_server;
      agent = 0;
      device = 0;
      integrator = 0;
    } in
    node (codes "receipt")
      (attr (codes "id") (id_attr n)
        (attr (codes "type") (text receipt_type) (attr (codes "to") (jid phone) no_attrs)))
      null

-- What `_send_keepalive` sends.
unfoldable pub keepalive : Str → Node
keepalive iq_id =
    node (codes "iq")
      (attr (codes "to") server (
        attr (codes "type") (text (codes "get"))
          (attr (codes "id") (text iq_id) (attr (codes "xmlns") (text (codes "w:p")) no_attrs))))
      (children (cons (node (codes "ping") no_attrs null) nil))
