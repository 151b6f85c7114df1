-- ===== src/Session/Owed.antt =====
-- `handle` of wa/session.py as one table of what a stanza is owed, made of the code's own tests and
-- stanzas. It is a step towards Session/Promised.antt.
use whatsapp_cli.Common.{
  ℕ, ◌+◌, ◌≡◌, refl, sym, ◌∙◌, Bool, true, false, ◌&&◌, ◌||◌, Option, none, some, List, [], ◌∷◌,
  ◌++◌, map,
}
use whatsapp_cli.Common.Tests.{if◌then◌else◌}
use whatsapp_cli.Common.Outcome.{Outcome, ok, raise}
use whatsapp_cli.Common.Action.{Action, after_step, otherwise, for_each, after_step-done}
use whatsapp_cli.Common.Utf8.{Str, codes}
use whatsapp_cli.WaBinary.Node.{Jid, Node, null, attr_or, is_text}
use whatsapp_cli.Session.State.{Outside, result, InboundSession, settle}
use whatsapp_cli.Session.Stanzas.{
  has_tag, is_server_ping, iq_result, ack_stanza, is_own_echo, receipt, protocol_receipt,
}
use whatsapp_cli.Session.Handle.{
  send_node, waiter, message_receipts, send_ack, send_receipt, send_protocol_receipt, acknowledge,
  handle_message, handle_unsolicited, handle,
}

-- The rows of the table.
pub data Row : Type 0 where
  request message event other : Row

unfoldable pub row_of : Node → Row
row_of n =
    if has_tag n (codes "iq")
      && (is_server_ping n || is_text (attr_or (codes "type") null n) (codes "set"))
    then request
    else if has_tag n (codes "message")
    then message
    else if has_tag n (codes "notification")
        || (has_tag n (codes "call") || has_tag n (codes "receipt"))
    then event
    else other

-- The receipts for our phone: those that the handler of messages asks for, then that of a peer.
unfoldable pub phone_receipts : Node → List Str → List Str
phone_receipts n extra =
    if is_text (attr_or (codes "category") null n) (codes "peer")
    then extra ++ codes "peer_msg" ∷ []
    else extra

-- The stanzas owed, in order.
unfoldable pub owed : Jid → Option Jid → Node → List Str → List Node
unfolding row_of phone_receipts
owed own_pn own_lid n extra = elim (row_of n) [
  | request ↦ iq_result n ∷ []
  | message ↦
      let echo = is_own_echo own_pn own_lid n in
      ack_stanza n
      ∷ receipt echo n
      ∷ (if echo then map (protocol_receipt own_pn n) (phone_receipts n extra) else [])
  | event ↦ ack_stanza n ∷ []
  | other ↦ []
]

module _ {W : Type 0} (o : Outside W) where
  -- The receipts that `on_message` adds; it is called for messages.
  unfoldable pub asked : Node → Action (InboundSession W) (List Str)
  unfolding row_of message_receipts
  asked n s = elim (row_of n) [ message ↦ message_receipts o n s | _ ↦ (s, ok []) ]

  -- A send changes what is outside of the session and nothing of the session.
  sent_then :
      {B : Type 0} (n : Node) (s : InboundSession W) (k k' : Unit {0} → Action (InboundSession W) B)
      → ((w : W) → k tt (record s { outside = w }) ≡ k' tt (record s { outside = w }))
      → after_step (send_node o n s) k ≡ after_step (send_node o n s) k'
  unfolding send_node
  sent_then n s k k' same = go ((o.send n s.outside).0) ((o.send n s.outside).1)
    where
      go :
          (w : W) (r : Outcome (Unit {0}))
          → after_step (record s { outside = w }, r) k ≡ after_step (record s { outside = w }, r) k'
      go w (raise e) = refl
      go w (ok tt) = same w

  for_each-send_protocol_receipt :
      (n : Node) (rs : List Str) (s : InboundSession W)
      → for_each (send_protocol_receipt o n) rs s
        ≡ for_each (send_node o) (map (protocol_receipt s.own_pn n) rs) s
  unfolding for_each send_protocol_receipt
  for_each-send_protocol_receipt n [] s = refl
  for_each-send_protocol_receipt n (r ∷ rs) s =
      sent_then (protocol_receipt s.own_pn n r) s (λ u. for_each (send_protocol_receipt o n) rs)
        (λ u. for_each (send_node o) (map (protocol_receipt s.own_pn n) rs))
        (λ w. for_each-send_protocol_receipt n rs (record s { outside = w }))

  -- The receipts for our phone, on an echo of our own.
  abbrev phone_nodes : Jid → Node → List Str → Bool → List Node
  phone_nodes own_pn n extra echo =
      if echo then map (protocol_receipt own_pn n) (phone_receipts n extra) else []

  to_phone :
      (n : Node) (extra : List Str) (s : InboundSession W) (echo : Bool)
      → (if echo
          then for_each (send_protocol_receipt o n) (phone_receipts n extra) s
          else (s, ok tt))
        ≡ for_each (send_node o) (phone_nodes s.own_pn n extra echo) s
  unfolding for_each
  to_phone n extra s true = for_each-send_protocol_receipt n (phone_receipts n extra) s
  to_phone n extra s false = refl

  acknowledge-for_each :
      (n : Node) (extra : List Str) (s : InboundSession W)
      → acknowledge o n extra s
        ≡ for_each
            (send_node o)
            (ack_stanza n
              ∷ receipt (is_own_echo s.own_pn s.own_lid n) n
              ∷ phone_nodes s.own_pn n extra (is_own_echo s.own_pn s.own_lid n))
            s
  unfolding for_each acknowledge send_ack send_receipt phone_receipts
  acknowledge-for_each n extra s =
      let echo = is_own_echo s.own_pn s.own_lid n in
      let rest = phone_nodes s.own_pn n extra echo in
      sent_then (ack_stanza n) s _ (λ u. for_each (send_node o) (receipt echo n ∷ rest))
        (λ w.
          sent_then (receipt echo n) (record s { outside = w }) _ (λ u. for_each (send_node o) rest)
            (λ w'. to_phone n extra (record s { outside = w' }) echo))

  pub receipts_asked :
      (n : Node) (s : InboundSession W)
      → (w : W) × (extra : List Str) × (message_receipts o n s
          ≡ (record s { outside = w }, ok extra))
  unfolding message_receipts
  receipts_asked n s = by_handler o.on_message
    where
      by_outcome :
          (w : W) (r : Outcome (List Str))
          → (w' : W) × (extra : List Str) × (otherwise (record s { outside = w }, r) []
              ≡ (record s { outside = w' }, ok extra))
      by_outcome w (raise e) = (w, [], refl)
      by_outcome w (ok extra) = (w, extra, refl)

      by_handler :
          (h : Option (Node → W → W × Outcome (List Str)))
          → (w : W) × (extra : List Str) × (◌≡◌ {A = InboundSession W × Outcome (List Str)}
              (elim h [
                | none ↦ (s, ok [])
                | some f ↦
                    otherwise (record s { outside = (f n s.outside).0 }, (f n s.outside).1) []
              ])
              (record s { outside = w }, ok extra))
      by_handler none = (s.outside, [], refl)
      by_handler (some f) = by_outcome (f n s.outside).0 (f n s.outside).1

  message_owed :
      (n : Node) (s : InboundSession W)
      → handle_message o n s
        ≡ after_step (message_receipts o n s) (λ extra. for_each (send_node o) (
            ack_stanza n
            ∷ receipt (is_own_echo s.own_pn s.own_lid n) n
            ∷ phone_nodes s.own_pn n extra (is_own_echo s.own_pn s.own_lid n)))
  unfolding handle_message
  message_owed n s =
      let (w, extra, e) = receipts_asked n s in
      rw (e) (acknowledge-for_each n extra (record s { outside = w }))

  pub unsolicited_owed :
      (n : Node) (s : InboundSession W)
      → handle_unsolicited o n s
        ≡ after_step (asked n s) (λ extra. for_each (send_node o) (owed s.own_pn s.own_lid n extra))
  unfolding handle_unsolicited asked owed row_of for_each send_ack
  unsolicited_owed n s =
      by_tests
        (has_tag n (codes "iq")
          && (is_server_ping n || is_text (attr_or (codes "type") null n) (codes "set")))
        (has_tag n (codes "message"))
        (has_tag n (codes "notification")
          || (has_tag n (codes "call") || has_tag n (codes "receipt")))
    where
      row : Bool → Bool → Bool → Row
      row b1 b2 b3 = if b1 then request else if b2 then message else if b3 then event else other

      by_tests :
          (b1 b2 b3 : Bool)
          → (if b1
                then send_node o (iq_result n)
                else if b2
                then handle_message o n
                else if b3
                then send_ack o n
                else (λ t. (t, ok tt)))
              s
            ≡ after_step
                (elim (row b1 b2 b3) [ message ↦ message_receipts o n s | _ ↦ (s, ok []) ])
                (λ extra. for_each (send_node o) (elim (row b1 b2 b3) [
                  | request ↦ iq_result n ∷ []
                  | message ↦
                      ack_stanza n
                      ∷ receipt (is_own_echo s.own_pn s.own_lid n) n
                      ∷ phone_nodes s.own_pn n extra (is_own_echo s.own_pn s.own_lid n)
                  | event ↦ ack_stanza n ∷ []
                  | other ↦ []
                ]))
      by_tests true b2 b3 = sym (after_step-done (send_node o (iq_result n) s))
      by_tests false true b3 = message_owed n s
      by_tests false false true = sym (after_step-done (send_node o (ack_stanza n) s))
      by_tests false false false = refl

  -- The session that has counted a stanza, and has taken the time of one that nobody waits for.
  abbrev pub counted : InboundSession W → InboundSession W
  counted s = record s { frames_seen = s.frames_seen + 1 }

  abbrev pub arrived : InboundSession W → InboundSession W
  arrived s = record (counted s) { last_unsolicited_ts = o.clock s.outside }

  pub waiter-counted : (n : Node) (s : InboundSession W) → waiter o n (counted s) ≡ waiter o n s
  unfolding waiter
  waiter-counted n s = refl

  -- A stanza that somebody waits for, and any other
  pub waited :
      (n : Node) (s : InboundSession W) (r : ℕ)
      → waiter o n s ≡ some r
      → handle o n s ≡ (record (counted s) { futures = settle r (result n) s.futures }, ok tt)
  unfolding handle
  waited n s r h = rw (waiter-counted n s ∙ h, handle) refl

  pub unasked :
      (n : Node) (s : InboundSession W)
      → waiter o n s ≡ none
      → handle o n s
        ≡ after_step
            (asked n (arrived s))
            (λ extra. for_each (send_node o) (owed s.own_pn s.own_lid n extra))
  unfolding handle
  unasked n s h = rw (waiter-counted n s ∙ h, handle) (unsolicited_owed n (arrived s))
