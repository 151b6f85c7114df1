-- ===== src/Session/Futures.antt =====
-- How the operations of wa/session.py change the two dicts of waiters and the futures.
use whatsapp_cli.Common.{
  ℕ, ◌⊎◌, inl, inr, ◌+◌, ◌≡◌, refl, Bool, true, false, ◌&&◌, none, some, List, [], ◌∷◌,
}
use whatsapp_cli.Common.Tests.{if◌then◌else◌, Bool-cases}
use whatsapp_cli.Common.Outcome.{Outcome, ok, raise}
use whatsapp_cli.Common.Action.{after_step, for_each}
use whatsapp_cli.Common.Utf8.{Str, same_bytes, same_bytes_iff}
use whatsapp_cli.Common.Dict.{lookup, lookup-insert, lookup-remove}
use whatsapp_cli.WaBinary.Node.{Node}
use whatsapp_cli.Session.State.{
  Outside, pending, InboundSession, Bucket, iq_bucket, ack_bucket, bucket_of, set_future, settle,
  is_done, FutureState, make_future,
}
use whatsapp_cli.Session.Handle.{send_node, message_receipts, handle_unsolicited}
use whatsapp_cli.Session.Owed.{
  Row, row_of, request, message, event, other, owed, asked, receipts_asked, unsolicited_owed,
}
use whatsapp_cli.Session.Calls.{pop}

abbrev pub same_bucket : Bucket → Bucket → Bool
same_bucket iq_bucket iq_bucket = true
same_bucket ack_bucket ack_bucket = true
same_bucket _ _ = false

pub same_bucket_eq : (b b' : Bucket) → same_bucket b b' ≡ true → b ≡ b'
same_bucket_eq iq_bucket iq_bucket h = refl
same_bucket_eq ack_bucket ack_bucket h = refl
same_bucket_eq iq_bucket ack_bucket h = absurd (cc h)
same_bucket_eq ack_bucket iq_bucket h = absurd (cc h)

pub settle_done :
    (r : ℕ) (state : FutureState) (futures : ℕ → FutureState)
    → is_done (futures r) ≡ true
    → settle r state futures ≡ futures
unfolding settle
settle_done r state futures e = rw (e) refl

pub settle_pending :
    (r : ℕ) (state : FutureState) (futures : ℕ → FutureState)
    → is_done (futures r) ≡ false
    → settle r state futures ≡ set_future futures r state
unfolding settle
settle_pending r state futures e = rw (e) refl

module _ {W : Type 0} where
  pub lookup-make_future :
      (b : Bucket) (key : Str) (s : InboundSession W) (b' : Bucket) (k : Str)
      → lookup k (bucket_of b' (make_future b key s)) ≡ (
          if same_bucket b b' && same_bytes key k
          then some s.next_future
          else lookup k (bucket_of b' s))
  unfolding make_future
  lookup-make_future iq_bucket key s iq_bucket k = lookup-insert key s.next_future s.iq k
  lookup-make_future ack_bucket key s ack_bucket k = lookup-insert key s.next_future s.ack k
  lookup-make_future iq_bucket key s ack_bucket k = refl
  lookup-make_future ack_bucket key s iq_bucket k = refl

  pub lookup-pop :
      (b : Bucket) (key : Str) (s : InboundSession W) (b' : Bucket) (k : Str)
      → lookup k (bucket_of b' (pop b key s))
        ≡ (if same_bucket b b' && same_bytes key k then none else lookup k (bucket_of b' s))
  unfolding pop
  lookup-pop iq_bucket key s iq_bucket k = lookup-remove key s.iq k
  lookup-pop ack_bucket key s ack_bucket k = lookup-remove key s.ack k
  lookup-pop iq_bucket key s ack_bucket k = refl
  lookup-pop ack_bucket key s iq_bucket k = refl

  -- An entry of the bucket then is the new one or an old one.
  pub lookup-make_future_cases :
      (b : Bucket) (key : Str) (s : InboundSession W) (b' : Bucket) (k : Str) {r : ℕ}
      → lookup k (bucket_of b' (make_future b key s)) ≡ some r
      → ((b ≡ b') × (key ≡ k) × (s.next_future ≡ r)) ⊎ (lookup k (bucket_of b' s) ≡ some r)
  lookup-make_future_cases b key s b' k h =
      let e = lookup-make_future b key s b' k in
      elim (Bool-cases (same_bucket b b')) [
        | inl c ↦ elim (Bool-cases (same_bytes key k)) [
          | inl d ↦ inl (same_bucket_eq b b' c, (same_bytes_iff key k).0 d, cc (e, h, c, d))
          | inr d ↦ inr (cc (e, h, c, d))
        ]
        | inr c ↦ inr (cc (e, h, c))
      ]

  pub lookup-pop_old :
      (b : Bucket) (key : Str) (s : InboundSession W) (b' : Bucket) (k : Str) {r : ℕ}
      → lookup k (bucket_of b' (pop b key s)) ≡ some r
      → lookup k (bucket_of b' s) ≡ some r
  lookup-pop_old b key s b' k h =
      let e = lookup-pop b key s b' k in
      elim (Bool-cases (same_bucket b b' && same_bytes key k)) [
        | inl c ↦ absurd (cc (e, h, c))
        | inr c ↦ cc (e, h, c)
      ]

  pub futures-make_future :
      (b : Bucket) (key : Str) (s : InboundSession W)
      → ((make_future b key s).futures ≡ set_future s.futures s.next_future pending)
        × ((make_future b key s).next_future ≡ s.next_future + 1)
  unfolding make_future
  futures-make_future iq_bucket key s = (refl, refl)
  futures-make_future ack_bucket key s = (refl, refl)

  pub futures-pop :
      (b : Bucket) (key : Str) (s : InboundSession W)
      → ((pop b key s).futures ≡ s.futures) × ((pop b key s).next_future ≡ s.next_future)
  unfolding pop
  futures-pop iq_bucket key s = (refl, refl)
  futures-pop ack_bucket key s = (refl, refl)

  pub bucket_of_outside :
      (b : Bucket) (s : InboundSession W) (w : W)
      → bucket_of b (record s { outside = w }) ≡ bucket_of b s
  bucket_of_outside iq_bucket s w = refl
  bucket_of_outside ack_bucket s w = refl

-- What changes nothing of the session itself.
abbrev pub Kept : {W : Type 0} → InboundSession W → InboundSession W → Type 0
Kept {W = W} s s' = (w : W) × (s' ≡ record s { outside = w })

module _ {W : Type 0} (o : Outside W) where
  pub send_node-Kept : (n : Node) (s : InboundSession W) → Kept s (send_node o n s).0
  unfolding send_node
  send_node-Kept n s = ((o.send n s.outside).0, refl)

  after_step-Kept :
      (s : InboundSession W) (w : W) (r : Outcome (Unit {0})) (ns : List Node)
      → ((w' : W)
          → Kept
              (record s { outside = w' })
              (for_each (send_node o) ns (record s { outside = w' })).0)
      → Kept s (after_step (record s { outside = w }, r) (λ u. for_each (send_node o) ns)).0
  after_step-Kept s w (raise e) ns rest = (w, refl)
  after_step-Kept s w (ok u) ns rest = let (w', e) = rest w in (w', e)

  for_each-Kept : (ns : List Node) (s : InboundSession W) → Kept s (for_each (send_node o) ns s).0
  unfolding for_each send_node
  for_each-Kept [] s = (s.outside, refl)
  for_each-Kept (n ∷ ns) s =
      after_step-Kept s (o.send n s.outside).0 (o.send n s.outside).1 ns
        (λ w. for_each-Kept ns (record s { outside = w }))

  asked_extra :
      (n : Node) (s : InboundSession W)
      → (w : W) × (extra : List Str) × (asked o n s ≡ (record s { outside = w }, ok extra))
  unfolding asked
  asked_extra n s = by_row (row_of n)
    where
      by_row :
          (row : Row)
          → (w : W) × (extra : List Str) × (◌≡◌ {A = InboundSession W × Outcome (List Str)}
              (elim row [ message ↦ message_receipts o n s | _ ↦ (s, ok []) ])
              (record s { outside = w }, ok extra))
      by_row message = receipts_asked o n s
      by_row request = (s.outside, [], refl)
      by_row event = (s.outside, [], refl)
      by_row other = (s.outside, [], refl)

  pub handle_unsolicited-Kept :
      (n : Node) (s : InboundSession W) → Kept s (handle_unsolicited o n s).0
  handle_unsolicited-Kept n s =
      let (w, extra, e) = asked_extra n s in
      let (w', e') = for_each-Kept (owed s.own_pn s.own_lid n extra) (record s { outside = w }) in
      (w', rw (unsolicited_owed o n s, e) e')
