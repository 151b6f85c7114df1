-- ===== src/Session/Promised.antt =====
-- `handle` of wa/session.py keeps the promises of Session/Promise.antt.
use whatsapp_cli.Common.{
  ℕ, inl, inr, ◌+◌, ◌≡◌, refl, sym, ap, subst, ◌∙◌, ◌⊎◌, Bool, true, false, Option, none, some,
  List, [], ◌∷◌,
}
use whatsapp_cli.Common.Tests.{◌==◌, ==_refl, ==_iff, if◌then◌else◌, Bool-cases, Option-cases}
use whatsapp_cli.Common.Outcome.{Outcome, ok, raise}
use whatsapp_cli.Common.Action.{otherwise, after_step, for_each}
use whatsapp_cli.Common.Dict.{lookup}
use whatsapp_cli.Common.Utf8.{Str, codes, same_bytes, same_bytes_iff}
use whatsapp_cli.WaBinary.Node.{Node, tag_of}
use whatsapp_cli.Session.State.{
  Outside, FutureState, pending, result, exception, cancelled, is_done, InboundSession, settle,
}
use whatsapp_cli.Session.Stanzas.{str_of, id_of}
use whatsapp_cli.Session.Handle.{send_node, waiter, message_receipts, handle}
use whatsapp_cli.Session.Owed.{
  Row, request, message, event, other, row_of, owed, asked, arrived, waited, unasked,
}
use whatsapp_cli.Session.Promise.{
  kind_for, answers_to, resolved, send_each, told, told_by, told_of, Awaited, by_iq, by_ack,
}
use whatsapp_cli.Session.Spelled.{id_of-id_text}
use whatsapp_cli.Session.Rows.{kind_of, kind_of-row_of, owed-answers_to}

at_itself :
    (r : ℕ) (n : Node) (futures : ℕ → FutureState) (state : FutureState)
    → futures r ≡ state
    → settle r (result n) futures r ≡ resolved r n futures r
unfolding settle
at_itself r n futures pending h = rw (h, resolved, ==_refl r) refl
at_itself r n futures cancelled h = rw (h, resolved) h
at_itself r n futures (result m) h = rw (h, resolved) h
at_itself r n futures (exception e) h = rw (h, resolved) h

settle-other :
    (r r' : ℕ) (n : Node) (futures : ℕ → FutureState)
    → (r' == r) ≡ false
    → settle r (result n) futures r' ≡ futures r'
unfolding settle
settle-other r r' n futures e = elim (Bool-cases (is_done (futures r))) [
  | inl h ↦ rw (h) refl
  | inr h ↦ rw (h, e) refl
]

resolved-other :
    (r r' : ℕ) (n : Node) (futures : ℕ → FutureState) (state : FutureState)
    → (r' == r) ≡ false
    → futures r' ≡ state
    → resolved r n futures r' ≡ futures r'
resolved-other r r' n futures pending e h = rw (h, resolved, e) refl
resolved-other r r' n futures cancelled e h = rw (h, resolved) refl
resolved-other r r' n futures (result m) e h = rw (h, resolved) refl
resolved-other r r' n futures (exception x) e h = rw (h, resolved) refl

settle-resolved :
    (r : ℕ) (n : Node) (futures : ℕ → FutureState)
    → settle r (result n) futures ≡ resolved r n futures
settle-resolved r n futures = λ i r'. at_each r' i
  where
    at_each : (r' : ℕ) → settle r (result n) futures r' ≡ resolved r n futures r'
    at_each r' = elim (Bool-cases (r' == r)) [
      | inl e ↦
          let same = (==_iff r' r).0 e in
          subst (λ x. settle r (result n) futures x ≡ resolved r n futures x) (sym same)
            (at_itself r n futures (futures r) refl)
      | inr e ↦
          settle-other r r' n futures e ∙ sym (resolved-other r r' n futures (futures r') e refl)
    ]

module _ {W : Type 0} (o : Outside W) where
  after_send :
      (s : InboundSession W) (ns : List Node)
      → ((w : W)
          → for_each (send_node o) ns (record s { outside = w })
            ≡ (record s { outside = (send_each o ns w).0 }, (send_each o ns w).1))
      → (w : W) (r : Outcome (Unit {0}))
      → after_step (record s { outside = w }, r) (λ u. for_each (send_node o) ns) ≡ (
        record s { outside = (after_step (w, r) (λ u. send_each o ns)).0 },
        (after_step (w, r) (λ u. send_each o ns)).1,
      )
  after_send s ns same w (raise e) = refl
  after_send s ns same w (ok u) = same w

  for_each-send_each :
      (ns : List Node) (s : InboundSession W)
      → for_each (send_node o) ns s
        ≡ (record s { outside = (send_each o ns s.outside).0 }, (send_each o ns s.outside).1)
  unfolding for_each send_node send_each
  for_each-send_each [] s = refl
  for_each-send_each (n ∷ ns) s =
      after_send s ns (λ w. for_each-send_each ns (record s { outside = w })) (o.send n s.outside).0
        (o.send n s.outside).1

  message_receipts-told :
      (n : Node) (s : InboundSession W)
      → message_receipts o n s
        ≡ (record s { outside = (told o n s.outside).0 }, ok (told o n s.outside).1)
  unfolding message_receipts
  message_receipts-told n s = by_handler o.on_message
    where
      by_outcome :
          (w : W) (r : Outcome (List Str))
          → otherwise (record s { outside = w }, r) []
            ≡ (record s { outside = w }, ok (elim r [ raise e ↦ [] | ok extra ↦ extra ]))
      by_outcome w (raise e) = refl
      by_outcome w (ok extra) = refl

      by_handler :
          (h : Option (Node → W → W × Outcome (List Str)))
          → ◌≡◌ {A = InboundSession W × Outcome (List Str)}
              (elim h [
                | none ↦ (s, ok [])
                | some f ↦
                    otherwise (record s { outside = (f n s.outside).0 }, (f n s.outside).1) []
              ])
              (record s { outside = (told_by o h n s.outside).0 }, ok (told_by o h n s.outside).1)
      by_handler none = refl
      by_handler (some f) = by_outcome (f n s.outside).0 (f n s.outside).1

  asked-told_of :
      (n : Node) (s : InboundSession W)
      → asked o n s ≡ (
        record s { outside = (told_of o (kind_for n) n s.outside).0 },
        ok (told_of o (kind_for n) n s.outside).1,
      )
  unfolding asked kind_of
  asked-told_of n s = by_row (row_of n) ∙ (λ i. (
    record s { outside = (told_of o (kind_of-row_of n i) n s.outside).0 },
    ok (told_of o (kind_of-row_of n i) n s.outside).1,
  ))
    where
      by_row :
          (r : Row)
          → ◌≡◌ {A = InboundSession W × Outcome (List Str)}
              (elim r [ message ↦ message_receipts o n s | _ ↦ (s, ok []) ])
              (
                record s { outside = (told_of o (kind_of r) n s.outside).0 },
                ok (told_of o (kind_of r) n s.outside).1,
              )
      by_row request = refl
      by_row message = message_receipts-told n s
      by_row event = refl
      by_row other = refl

  waiter-Awaited :
      (n : Node) (s : InboundSession W) (r : ℕ)
      → waiter o n s ≡ some r
      → Awaited (str_of o.repr) s n r
  unfolding waiter
  waiter-Awaited n s r =
      by_tag (same_bytes (tag_of n) (codes "iq")) (same_bytes (tag_of n) (codes "ack")) refl refl
    where
      by_tag :
          (b c : Bool)
          → same_bytes (tag_of n) (codes "iq") ≡ b
          → same_bytes (tag_of n) (codes "ack") ≡ c
          → (if b
              then lookup (id_of o.repr n) s.iq
              else if c
              then lookup (id_of o.repr n) s.ack
              else none)
            ≡ some r
          → Awaited (str_of o.repr) s n r
      by_tag true c iq ack h =
          by_iq ((same_bytes_iff (tag_of n) (codes "iq")).0 iq)
            (subst (λ id. lookup id s.iq ≡ some r) (id_of-id_text o.repr n) h)
      by_tag false true iq ack h =
          by_ack ((same_bytes_iff (tag_of n) (codes "ack")).0 ack)
            (subst (λ id. lookup id s.ack ≡ some r) (id_of-id_text o.repr n) h)
      by_tag false false iq ack h = cc h

  Awaited-waiter :
      (n : Node) (s : InboundSession W) (r : ℕ)
      → Awaited (str_of o.repr) s n r
      → waiter o n s ≡ some r
  unfolding waiter same_bytes
  Awaited-waiter n s r (by_iq t h) = rw (t, id_of-id_text o.repr n) h
  Awaited-waiter n s r (by_ack t h) = rw (t, id_of-id_text o.repr n) h

  -- The session that has counted a stanza, and the one that a stanza leaves for which nobody waits
  abbrev pub counted : InboundSession W → InboundSession W
  counted s = record s { frames_seen = s.frames_seen + 1 }

  abbrev pub answered : Node → InboundSession W → InboundSession W × Outcome (Unit {0})
  answered n s =
      let asked = told_of o (kind_for n) n s.outside in
      let sent = send_each o (answers_to (kind_for n) s.own_pn s.own_lid n asked.1) asked.0 in
      (record (counted s) { last_unsolicited_ts = o.clock s.outside; outside = sent.0 }, sent.1)

  -- What a stanza does: the future that waits for it gets it, or nobody waits for it, and the stanzas
  -- promised for it are sent.
  abbrev pub Promised : Node → InboundSession W → InboundSession W × Outcome (Unit {0}) → Type 0
  Promised n s done =
      ((r : ℕ) × Awaited (str_of o.repr) s n r
        × (done ≡ (record (counted s) { futures = resolved r n s.futures }, ok tt)))
      ⊎ (¬ ((r : ℕ) × Awaited (str_of o.repr) s n r) × (done ≡ answered n s))

  unawaited :
      (n : Node) (s : InboundSession W)
      → after_step
          (asked o n (arrived o s))
          (λ extra. for_each (send_node o) (owed s.own_pn s.own_lid n extra))
        ≡ answered n s
  unawaited n s =
      ap (λ p. after_step p (λ extra. for_each (send_node o) (owed s.own_pn s.own_lid n extra)))
        (asked-told_of n (arrived o s))
      ∙ ap
          (λ ns.
            for_each (send_node o) ns
              (record (arrived o s) { outside = (told_of o (kind_for n) n s.outside).0 }))
          (owed-answers_to s.own_pn s.own_lid n (told_of o (kind_for n) n s.outside).1)
      ∙ for_each-send_each
          (answers_to (kind_for n) s.own_pn s.own_lid n (told_of o (kind_for n) n s.outside).1)
          (record (arrived o s) { outside = (told_of o (kind_for n) n s.outside).0 })

  -- On every stanza `handle` counts it and gives it to the pending future of a call that waits for it, an
  -- IQ with the id of an IQ call or an ack with the id of an ack call, and sends nothing; or no call waits
  -- for it, and then the idle clock is set and the stanzas promised for it are sent in order until a send
  -- raises, which is then what `handle` raises: a result for a ping or set, an ack for an event, and
  -- for a message, also where its handler raised, an ack, a receipt and, on an echo of our
  -- own, the receipts for our phone.
  pub handle_owed : (n : Node) (s : InboundSession W) → Promised n s (handle o n s)
  handle_owed n s = elim (Option-cases (waiter o n s)) [
    | inl h ↦ inr (λ (r, a). cc (Awaited-waiter n s r a, h), unasked o n s h ∙ unawaited n s)
    | inr (r, h) ↦ inl (
      r,
      waiter-Awaited n s r h,
      waited o n s r h
          ∙ ap (λ f. (record (counted s) { futures = f }, ok tt)) (settle-resolved r n s.futures),
    )
  ]
