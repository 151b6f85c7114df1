-- ===== src/WaBinary/Node.antt =====
-- wa/wabinary/node.py and the JID type of wa/wabinary/jid.py. A value is what an attribute or a
-- content may be in Python, for ints that are not negative; the lists are the dict of attributes, in
-- insertion order, and the list of children.
use whatsapp_cli.Common.{ℕ, Bool, true, false, ◌&&◌, ◌||◌, Option, none, some, List, [], ◌∷◌}
use whatsapp_cli.Common.Tests.{◌==◌, ltb, if◌then◌else◌}
use whatsapp_cli.Common.Utf8.{Bytes, Str, codes, same_bytes}

abbrev pub default_user_server : Str
default_user_server = codes "s.whatsapp.net"

abbrev pub hidden_user_server : Str
hidden_user_server = codes "lid"

abbrev pub messenger_server : Str
messenger_server = codes "msgr"

abbrev pub interop_server : Str
interop_server = codes "interop"

abbrev pub hosted_server : Str
hosted_server = codes "hosted"

abbrev pub hosted_lid_server : Str
hosted_lid_server = codes "hosted.lid"

pub record Jid : Type 0 where
  pub user : Str
  pub server : Str
  pub agent : ℕ
  pub device : ℕ
  pub integrator : ℕ

unfoldable pub is_ad : Jid → Bool
is_ad j =
    ((same_bytes j.server default_user_server || same_bytes j.server hidden_user_server)
      && ltb 0 j.device)
    || (same_bytes j.server hosted_server || same_bytes j.server hosted_lid_server)

unfoldable pub actual_agent : Jid → ℕ
actual_agent j =
    if j.agent == 0 then (if same_bytes j.server hidden_user_server then 1 else 0) else j.agent

mutual
  pub data Node : Type 0 where
    node : Str → Attrs → Value → Node

  pub data Attrs : Type 0 where
    no_attrs : Attrs
    attr : Str → Value → Attrs → Attrs

  pub data Value : Type 0 where
    null : Value
    text : Str → Value
    number : ℕ → Value
    flag : Bool → Value
    jid : Jid → Value
    blob : Bytes → Value
    children : Nodes → Value

  pub data Nodes : Type 0 where
    nil : Nodes
    cons : Node → Nodes → Nodes

abbrev pub tag_of : Node → Str
tag_of (node tag attrs content) = tag

unfoldable pub get_children : Node → Nodes
get_children (node tag attrs (children ns)) = ns
get_children (node tag attrs _) = nil

-- The inner loop of `get_child_by_tag`.
unfoldable pub find_child : Str → Nodes → Option Node
find_child tag nil = none
find_child tag (cons child rest) =
    if same_bytes (tag_of child) tag then some child else find_child tag rest

unfoldable pub get_child_by_tag : Node → List Str → Option Node
unfolding get_children find_child
get_child_by_tag cur [] = some cur
get_child_by_tag cur (tag ∷ tags) = elim (find_child tag (get_children cur)) [
  | none ↦ none
  | some found ↦ get_child_by_tag found tags
]

-- `attrs[key] = value`
unfoldable pub set_attr : Str → Value → Attrs → Attrs
set_attr key value no_attrs = attr key value no_attrs
set_attr key value (attr k v attrs) =
    if same_bytes k key then attr k value attrs else attr k v (set_attr key value attrs)

-- `attrs.get(key)`
unfoldable pub get_attr : Str → Attrs → Option Value
get_attr key no_attrs = none
get_attr key (attr k v attrs) = if same_bytes k key then some v else get_attr key attrs

abbrev pub attrs_of : Node → Attrs
attrs_of (node tag attrs content) = attrs

-- `attrs.get(key, default)`
unfoldable pub attr_or : Str → Value → Node → Value
attr_or key default n = elim (get_attr key (attrs_of n)) [ none ↦ default | some v ↦ v ]

-- `value == literal`, for a `str` literal
abbrev pub is_text : Value → Str → Bool
is_text (text s) t = same_bytes s t
is_text _ t = false

-- Python's truth of a value; a JID, which is a dataclass, is true.
abbrev pub truthy : Value → Bool
truthy null = false
truthy (text []) = false
truthy (text (c ∷ s)) = true
truthy (number n) = ltb 0 n
truthy (flag b) = b
truthy (jid j) = true
truthy (blob []) = false
truthy (blob (b ∷ bs)) = true
truthy (children nil) = false
truthy (children (cons n ns)) = true
