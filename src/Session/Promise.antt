-- ===== src/Session/Promise.antt =====
-- What the server is promised for each stanza that a session of wa/session.py reads, written out
-- apart from the code: the waiter of a stanza, the stanzas that answer it attribute by attribute, and
-- the receipts that the handler of messages asks for.
use whatsapp_cli.Common.{
  ℕ, ◌≡◌, Bool, true, false, ◌&&◌, ◌||◌, Option, none, some, List, [], ◌∷◌, ◌++◌, map,
}
use whatsapp_cli.Common.Tests.{◌==◌, if◌then◌else◌}
use whatsapp_cli.Common.Outcome.{Outcome, ok, raise}
use whatsapp_cli.Common.Action.{after_step}
use whatsapp_cli.Common.Utf8.{Str, codes, same_bytes}
use whatsapp_cli.Common.Dict.{lookup}
use whatsapp_cli.WaBinary.Node.{
  Jid, Node, node, tag_of, attrs_of, Attrs, no_attrs, attr, Value, null, text, number, flag, jid,
  blob, children, Nodes, nil, cons, get_children, get_attr,
}
use whatsapp_cli.Session.State.{Outside, FutureState, pending, result, InboundSession}

-- The value of an attribute, or what stands for it where it is absent
abbrev pub given : Str → Value → Node → Value
given key default n = elim (get_attr key (attrs_of n)) [ none ↦ default | some v ↦ v ]

-- The attribute as it is, if it is there
abbrev pub same_attr : Str → Node → Attrs → Attrs
same_attr key n rest = elim (get_attr key (attrs_of n)) [ none ↦ rest | some v ↦ attr key v rest ]

abbrev pub says : Node → Str → Str → Bool
says n key word = elim (get_attr key (attrs_of n)) [
  | none ↦ false
  | some v ↦ elim v [ text s ↦ same_bytes s word | _ ↦ false ]
]

abbrev pub to_server : Value
to_server =
    jid
      (record { user = []; server = codes "s.whatsapp.net"; agent = 0; device = 0; integrator = 0 })

-- `<iq type="result">` to the sender, with the id of the stanza
abbrev pub result_for : Node → Node
result_for n =
    node (codes "iq")
      (attr (codes "to") (given (codes "from") to_server n) (
        attr (codes "id") (given (codes "id") (text []) n)
          (attr (codes "type") (text (codes "result")) no_attrs)))
      null

-- `<ack>` of the stanza's class, with its route, and its type unless it is a message
abbrev pub ack_for : Node → Node
ack_for n =
    node (codes "ack")
      (attr (codes "class") (text (tag_of n)) (
        attr (codes "id") (given (codes "id") (text []) n) (
          attr (codes "to") (given (codes "from") to_server n) (
            same_attr (codes "participant") n (
              same_attr (codes "recipient") n (
                if same_bytes (tag_of n) (codes "message")
                then no_attrs
                else same_attr (codes "type") n no_attrs))))))
      null

-- `<receipt>` with the stanza's route, of type `sender` on an echo of our own
abbrev pub receipt_for : Bool → Node → Node
receipt_for echo n =
    node (codes "receipt")
      (attr (codes "id") (given (codes "id") (text []) n) (
        attr (codes "to") (given (codes "from") to_server n) (
          same_attr (codes "participant") n (
            same_attr (codes "recipient") n
              (if echo then attr (codes "type") (text (codes "sender")) no_attrs else no_attrs)))))
      null

-- `<receipt>` of a type to our own phone
abbrev pub phone_receipt_for : Jid → Node → Str → Node
phone_receipt_for own_pn n receipt_type =
    node (codes "receipt")
      (attr (codes "id") (given (codes "id") (text []) n) (
        attr (codes "type") (text receipt_type) (
          attr (codes "to")
            (jid (record {
              user = own_pn.user;
              server = codes "s.whatsapp.net";
              agent = 0;
              device = 0;
              integrator = 0;
            }))
            no_attrs)))
      null

-- A child with a tag
unfoldable pub some_child : Str → Nodes → Bool
some_child tag nil = false
some_child tag (cons n ns) = if same_bytes (tag_of n) tag then true else some_child tag ns

-- `<iq type="get">` of one of the two namespaces of pings, or with a `<ping>` in it
abbrev pub asks_ping : Node → Bool
asks_ping n =
    says n (codes "type") (codes "get")
    && (says n (codes "xmlns") (codes "urn:xmpp:ping")
        || (says n (codes "xmlns") (codes "w:p") || some_child (codes "ping") (get_children n)))

-- A message by one of our own accounts, from its participant or, without one, from its sender
abbrev pub by_us : Jid → Option Jid → Value → Bool
by_us own_pn own_lid v = elim v [
  | jid j ↦
      same_bytes j.user own_pn.user
      || (elim own_lid [ none ↦ false | some lid ↦ same_bytes j.user lid.user ])
  | _ ↦ false
]

-- What Python takes for false
abbrev pub falsy : Value → Bool
falsy v = elim v [
  | null ↦ true
  | text s ↦ elim s [ [] ↦ true | c ∷ cs ↦ false ]
  | number n ↦ n == 0
  | flag b ↦ elim b [ true ↦ false | false ↦ true ]
  | jid j ↦ false
  | blob b ↦ elim b [ [] ↦ true | c ∷ cs ↦ false ]
  | children ns ↦ elim ns [ nil ↦ true | cons n ms ↦ false ]
]

abbrev pub our_echo : Jid → Option Jid → Node → Bool
our_echo own_pn own_lid n =
    let participant = given (codes "participant") null n in
    by_us own_pn own_lid (if falsy participant then given (codes "from") null n else participant)

-- The text of the id; `text_of` is Python's `str`.
abbrev pub id_text : (Value → Str) → Node → Str
id_text text_of n = let id = given (codes "id") (text []) n in if falsy id then [] else text_of id

-- The stanzas promised for a stanza, and for a message what its handler asks for
pub data Kind : Type 0 where
  wants_result wants_receipts wants_ack wants_nothing : Kind

unfoldable pub kind_for : Node → Kind
unfolding some_child
kind_for n =
    if same_bytes (tag_of n) (codes "iq") && (asks_ping n || says n (codes "type") (codes "set"))
    then wants_result
    else if same_bytes (tag_of n) (codes "message")
    then wants_receipts
    else if same_bytes (tag_of n) (codes "notification")
        || (same_bytes (tag_of n) (codes "call") || same_bytes (tag_of n) (codes "receipt"))
    then wants_ack
    else wants_nothing

abbrev pub for_our_phone : Node → List Str → List Str
for_our_phone n extra =
    if says n (codes "category") (codes "peer") then extra ++ codes "peer_msg" ∷ [] else extra

unfoldable pub answers_to : Kind → Jid → Option Jid → Node → List Str → List Node
answers_to wants_result own_pn own_lid n extra = result_for n ∷ []
answers_to wants_receipts own_pn own_lid n extra =
    ack_for n
    ∷ receipt_for (our_echo own_pn own_lid n) n
    ∷ (if our_echo own_pn own_lid n
        then map (phone_receipt_for own_pn n) (for_our_phone n extra)
        else [])
answers_to wants_ack own_pn own_lid n extra = ack_for n ∷ []
answers_to wants_nothing own_pn own_lid n extra = []

-- A future gets a stanza, if it is pending.
abbrev pub resolved : ℕ → Node → (ℕ → FutureState) → ℕ → FutureState
resolved r n futures r' = elim (futures r') [
  | pending ↦ if r' == r then result n else pending
  | state ↦ state
]

module _ {W : Type 0} (o : Outside W) where
  -- Stanzas sent in order, until a send raises
  unfoldable pub send_each : List Node → W → W × Outcome (Unit {0})
  send_each [] w = (w, ok tt)
  send_each (n ∷ ns) w = after_step (o.send n w) (λ u. send_each ns)

  -- What the handler of messages leaves and asks for: nothing where it raises
  abbrev pub told_by : Option (Node → W → W × Outcome (List Str)) → Node → W → W × List Str
  told_by none n w = (w, [])
  told_by (some f) n w = ((f n w).0, elim ((f n w).1) [ raise e ↦ [] | ok extra ↦ extra ])

  abbrev pub told : Node → W → W × List Str
  told = told_by o.on_message

  abbrev pub told_of : Kind → Node → W → W × List Str
  told_of wants_receipts n w = told n w
  told_of _ n w = (w, [])

module _ {W : Type 0} where
  -- The future of a call that waits for the stanza
  pub data Awaited (text_of : Value → Str) (s : InboundSession W) (n : Node) (r : ℕ) : Type 0 where
    by_iq : tag_of n ≡ codes "iq" → lookup (id_text text_of n) s.iq ≡ some r → Awaited text_of s n r
    by_ack :
        tag_of n ≡ codes "ack" → lookup (id_text text_of n) s.ack ≡ some r → Awaited text_of s n r
