-- ===== src/Session/Handle.antt =====
-- The operations of `InboundSession` in wa/session.py as state passing. The tasks of the event loop
-- switch only where a call awaits: what a handler reads of the session and writes to it is done
-- before its first send, so that a whole call is one step.
use whatsapp_cli.Common.{
  ℕ, ◌+◌, Bool, true, false, ◌&&◌, ◌||◌, Option, none, some, List, [], ◌∷◌, ◌++◌,
}
use whatsapp_cli.Common.Tests.{if◌then◌else◌}
use whatsapp_cli.Common.Outcome.{Outcome, ok, raise, connection_error, timeout_error}
use whatsapp_cli.Common.Action.{Action, ◌>>=◌, ◌>>◌, done, for_each, otherwise}
use whatsapp_cli.Common.Utf8.{Bytes, Str, codes}
use whatsapp_cli.Common.Dict.{lookup}
use whatsapp_cli.WaBinary.Node.{Node, null, attr_or, is_text}
use whatsapp_cli.Session.State.{
  Outside, result, InboundSession, iq_bucket, settle, make_future, fail_waiters,
}
use whatsapp_cli.Session.Stanzas.{
  has_tag, id_of, is_server_ping, iq_result, ack_stanza, is_own_echo, receipt, protocol_receipt,
  keepalive,
}

module _ {W : Type 0} (o : Outside W) where
  -- A call that leaves the session.
  abbrev pub outside_call : {A : Type 0} → Action W A → Action (InboundSession W) A
  outside_call call s = let (w, r) = call s.outside in (record s { outside = w }, r)

  unfoldable pub send_node : Node → Action (InboundSession W) (Unit {0})
  send_node n = outside_call (o.send n)

  abbrev pub own_echo : InboundSession W → Node → Bool
  own_echo s n = is_own_echo s.own_pn s.own_lid n

  -- The waiter of a stanza, if there is one.
  unfoldable pub waiter : Node → InboundSession W → Option ℕ
  waiter n s =
      if has_tag n (codes "iq")
      then lookup (id_of o.repr n) s.iq
      else if has_tag n (codes "ack")
      then lookup (id_of o.repr n) s.ack
      else none

  -- `extra = list(self._on_message(node) or ())`, empty where that raises
  unfoldable pub message_receipts : Node → Action (InboundSession W) (List Str)
  message_receipts n s = elim o.on_message [
    | none ↦ (s, ok [])
    | some f ↦ otherwise (outside_call (f n) s) []
  ]

  unfoldable pub send_ack : Node → Action (InboundSession W) (Unit {0})
  unfolding send_node
  send_ack n = send_node (ack_stanza n)

  unfoldable pub send_receipt : Node → Action (InboundSession W) (Unit {0})
  unfolding send_node
  send_receipt n s = send_node (receipt (own_echo s n) n) s

  unfoldable pub send_protocol_receipt : Node → Str → Action (InboundSession W) (Unit {0})
  unfolding send_node
  send_protocol_receipt n receipt_type s = send_node (protocol_receipt s.own_pn n receipt_type) s

  -- What `handle` does with a `<message>` after `on_message`.
  unfoldable pub acknowledge : Node → List Str → Action (InboundSession W) (Unit {0})
  unfolding send_ack send_receipt send_protocol_receipt for_each
  acknowledge n extra = do
    send_ack n
    send_receipt n
    λ s.
        if own_echo s n
        then for_each (send_protocol_receipt n)
            (if is_text (attr_or (codes "category") null n) (codes "peer")
              then extra ++ codes "peer_msg" ∷ []
              else extra)
            s
        else (s, ok tt)

  unfoldable pub handle_message : Node → Action (InboundSession W) (Unit {0})
  unfolding message_receipts acknowledge
  handle_message n = message_receipts n >>= acknowledge n

  -- A stanza for which nobody waits.
  unfoldable pub handle_unsolicited : Node → Action (InboundSession W) (Unit {0})
  unfolding send_node send_ack handle_message
  handle_unsolicited n =
      if has_tag n (codes "iq")
        && (is_server_ping n || is_text (attr_or (codes "type") null n) (codes "set"))
      then send_node (iq_result n)
      else if has_tag n (codes "message")
      then handle_message n
      else if has_tag n (codes "notification")
          || (has_tag n (codes "call") || has_tag n (codes "receipt"))
      then send_ack n
      else done

  unfoldable pub handle : Node → Action (InboundSession W) (Unit {0})
  unfolding waiter settle handle_unsolicited
  handle n s =
      let counted = record s { frames_seen = s.frames_seen + 1 } in
      elim (waiter n counted) [
        | some r ↦ (record counted { futures = settle r (result n) s.futures }, ok tt)
        | none ↦ handle_unsolicited n (record counted { last_unsolicited_ts = o.clock s.outside })
      ]

  -- `node = decode_node(self.ns.decrypt_frame(ct))` and `handle`, where exceptions are logged
  unfoldable pub handle_opened : Outcome Node → InboundSession W → InboundSession W
  unfolding handle
  handle_opened (raise e) s = s
  handle_opened (ok n) s = (handle n s).0

  -- What a round does with the outcome of `recv`, and whether there is another round.
  unfoldable pub after_recv : Outcome Bytes → Action (InboundSession W) Bool
  unfolding handle_opened fail_waiters
  after_recv (raise timeout_error) s = (s, ok true)
  after_recv (raise connection_error) s =
      (fail_waiters connection_error (record s { disconnected = true }), ok false)
  after_recv (raise e) s = (s, raise e)
  after_recv (ok ct) s =
      let (w, opened) = o.open_frame ct s.outside in
      (handle_opened opened (record s { outside = w }), ok true)

  -- One round of the loop of `_read_loop`
  unfoldable pub read_round : Action (InboundSession W) Bool
  unfolding after_recv
  read_round s = let (w, r) = o.recv s.outside in after_recv r (record s { outside = w })

  -- `_send_keepalive`, for the random id
  unfoldable pub send_keepalive : Str → InboundSession W → InboundSession W
  unfolding make_future send_node
  send_keepalive iq_id s = (send_node (keepalive iq_id) (make_future iq_bucket iq_id s)).0
