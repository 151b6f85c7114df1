-- ===== src/Session/Invariant.antt =====
-- The invariant of wa/session.py over all runs: the reader, the calls that wait and the end of the
-- session in any order.
use whatsapp_cli.Common.{
  ℕ, ◌+◌, ◌<◌, ◌≡◌, refl, sym, ◌∙◌, true, some, List, [], ◌∷◌, arith, inl, inr, subst, ◌⊎◌,
}
use whatsapp_cli.Common.Lists.{All}
use whatsapp_cli.Common.Outcome.{Exc, Outcome, ok, raise, connection_error, timeout_error}
use whatsapp_cli.Common.Tests.{◌==◌, Bool-cases, Option-cases}
use whatsapp_cli.Common.Utf8.{Bytes, Str, codes}
use whatsapp_cli.Common.Dict.{lookup, values}
use whatsapp_cli.WaBinary.Node.{Node, Value, get_attr, attrs_of}
use whatsapp_cli.Session.State.{
  Outside, FutureState, cancelled, result, exception, InboundSession, Bucket, iq_bucket, ack_bucket,
  bucket_of, set_future, settle, settle_all, make_future, fail_waiters, stop,
}
use whatsapp_cli.Session.Stanzas.{str_of}
use whatsapp_cli.Session.Handle.{send_node, handle_opened, after_recv, read_round}
use whatsapp_cli.Session.Futures.{futures-make_future, futures-pop, send_node-Kept}
use whatsapp_cli.Session.Answers.{
  Owner, Answers, Owned, same-Owned, extend, extend_old, extend_new, make_future-Owned, pop-Owned,
  futures-Owned, settle_answered, Evolves, Kept-Evolves, handle-Evolves,
}
use whatsapp_cli.Session.Calls.{Call, pop, next_call, after_send, request_iq, time_out, System}

module _ {W : Type 0} (o : Outside W) where
  settle_all_answered :
      (owner : Owner) (rs : List ℕ) (e : Exc) (futures : ℕ → FutureState)
      → ((r : ℕ) (n : Node) → futures r ≡ result n → Answers o (owner r) n)
      → (r : ℕ) (n : Node) → settle_all rs (exception e) futures r ≡ result n
      → Answers o (owner r) n
  unfolding settle_all
  settle_all_answered owner [] e futures old = old
  settle_all_answered owner (r ∷ rs) e futures old =
      settle_all_answered owner rs e (settle r (exception e) futures)
        (settle_answered o owner r (exception e) futures (λ n h. absurd (cc h)) old)

  fail_waiters-Owned :
      (owner : Owner) (e : Exc) (s : InboundSession W)
      → Owned o owner s
      → Owned o owner (fail_waiters e s)
  unfolding fail_waiters lookup
  fail_waiters-Owned owner e s own = (
    empty,
    settle_all_answered owner (values s.ack) e (settle_all (values s.iq) (exception e) s.futures)
        (settle_all_answered owner (values s.iq) e s.futures own.1),
  )
    where
      empty :
          (b : Bucket) (key : Str) (r : ℕ)
          → lookup key (bucket_of b (fail_waiters e s)) ≡ some r
          → (owner r ≡ (b, key)) × (r < s.next_future)
      empty iq_bucket key r h = absurd (cc h)
      empty ack_bucket key r h = absurd (cc h)

  handle_opened-Evolves :
      (owner : Owner) (r : Outcome Node) (s : InboundSession W)
      → Owned o owner s
      → Evolves o owner s (handle_opened o r s)
  unfolding handle_opened
  handle_opened-Evolves owner (raise e) s own = (own, refl)
  handle_opened-Evolves owner (ok n) s own = handle-Evolves o owner n s own

  fail_waiters-Evolves :
      (owner : Owner) (e : Exc) (s : InboundSession W)
      → Owned o owner s
      → Evolves o owner s (fail_waiters e s)
  unfolding fail_waiters
  fail_waiters-Evolves owner e s own = (fail_waiters-Owned owner e s own, refl)

  after_recv-Evolves :
      (owner : Owner) (r : Outcome Bytes) (s : InboundSession W)
      → Owned o owner s
      → Evolves o owner s (after_recv o r s).0
  unfolding after_recv
  after_recv-Evolves owner (raise timeout_error) s own = (own, refl)
  after_recv-Evolves owner (raise connection_error) s own =
      let closed = record s { disconnected = true } in
      fail_waiters-Evolves owner connection_error closed
        (same-Owned o owner s closed refl refl refl refl own)
  after_recv-Evolves owner (raise _) s own = (own, refl)
  after_recv-Evolves owner (ok ct) s own =
      let (w, opened) = o.open_frame ct s.outside in
      handle_opened-Evolves owner opened (record s { outside = w })
        (same-Owned o owner s (record s { outside = w }) refl refl refl refl own)

  pub read_round-Evolves :
      (owner : Owner) (s : InboundSession W)
      → Owned o owner s
      → Evolves o owner s (read_round o s).0
  unfolding read_round
  read_round-Evolves owner s own =
      let (w, r) = o.recv s.outside in
      after_recv-Evolves owner r (record s { outside = w })
        (same-Owned o owner s (record s { outside = w }) refl refl refl refl own)

  pub stop-Evolves :
      (owner : Owner) (s : InboundSession W) → Owned o owner s → Evolves o owner s (stop s)
  unfolding stop
  stop-Evolves owner s own =
      fail_waiters-Evolves owner connection_error (record s { stopped = true })
        (same-Owned o owner s (record s { stopped = true }) refl refl refl refl own)

  -- What holds after a future was made: the calls that wait keep their owners.
  abbrev pub Grows : Owner → Bucket → Str → InboundSession W → InboundSession W → Type 0
  Grows owner b key s s' =
      Owned o (extend owner s.next_future b key) s' × (s'.next_future ≡ s.next_future + 1)

  pub make_future-Grows :
      (owner : Owner) (b : Bucket) (key : Str) (s : InboundSession W)
      → Owned o owner s
      → Grows owner b key s (make_future b key s)
  make_future-Grows owner b key s own =
      (make_future-Owned o owner b key s own, (futures-make_future b key s).1)

  pub sent-Grows :
      (owner : Owner) (b : Bucket) (key : Str) (n : Node) (s : InboundSession W)
      → Owned o owner s
      → Grows owner b key s (send_node o n (make_future b key s)).0
  sent-Grows owner b key n s own =
      let (grown, count) = make_future-Grows owner b key s own in
      let (kept, same) =
        Kept-Evolves o (extend owner s.next_future b key) (make_future b key s) _
          (send_node-Kept o n (make_future b key s)) grown in
      (kept, same ∙ count)

  pub pop-Evolves :
      (owner : Owner) (b : Bucket) (key : Str) (s : InboundSession W)
      → Owned o owner s
      → Evolves o owner s (pop b key s)
  pop-Evolves owner b key s own = (pop-Owned o owner b key s own, (futures-pop b key s).1)

  cancelled_answered :
      (owner : Owner) (r : ℕ) (futures : ℕ → FutureState)
      → ((r' : ℕ) (n : Node) → futures r' ≡ result n → Answers o (owner r') n)
      → (r' : ℕ) (n : Node) → set_future futures r cancelled r' ≡ result n
      → Answers o (owner r') n
  cancelled_answered owner r futures old r' n h = elim (Bool-cases (r' == r)) [
    | inl e ↦ absurd (cc (e, h))
    | inr e ↦ old r' n (cc (e, h))
  ]

  pub time_out-Evolves :
      (owner : Owner) (c : Call) (s : InboundSession W)
      → Owned o owner s
      → Evolves o owner s (time_out c s)
  unfolding time_out
  time_out-Evolves owner c s own =
      let futures = set_future s.futures c.future cancelled in
      pop-Evolves owner c.bucket c.key (record s { futures = futures })
        (futures-Owned o owner futures s (cancelled_answered owner c.future s.futures own.1) own)

  -- What the request's own attributes say.
  abbrev pub HasId : Node → Value → Type 0
  HasId n v = get_attr (codes "id") (attrs_of n) ≡ some v

  -- The call of a request that was sent, and the state that it leaves.
  pub request_iq_sent :
      (n : Node) (s s' : InboundSession W) (c : Call)
      → request_iq o n s ≡ (s', ok c)
      → (v : Value) × (HasId n v
          × ((c ≡ next_call iq_bucket (str_of o.repr v) s)
              × (s' ≡ (send_node o n (make_future iq_bucket (str_of o.repr v) s)).0)))
  unfolding request_iq
  request_iq_sent n s s' c h = elim (Option-cases (get_attr (codes "id") (attrs_of n))) [
    | inl e ↦ absurd (cc (e, h))
    | inr (v, e) ↦
        let key = str_of o.repr v in
        (v, (e, by_send key (send_node o n (make_future iq_bucket key s)) (cc (e, h))))
  ]
    where
      by_send :
          (key : Str) (m : InboundSession W × Outcome (Unit {0}))
          → after_send (next_call iq_bucket key s) m ≡ (s', ok c)
          → (c ≡ next_call iq_bucket key s) × (s' ≡ m.0)
      by_send key (t, raise e) h = absurd (cc h)
      by_send key (t, ok u) h = (cc h, cc h)

  pub refused_state :
      (n : Node) (s s' : InboundSession W) (e : Exc)
      → request_iq o n s ≡ (s', raise e)
      → (s' ≡ s)
        ⊎ ((v : Value) × (HasId n v
              × (s'
                  ≡ pop iq_bucket
                      (str_of o.repr v)
                      (send_node o n (make_future iq_bucket (str_of o.repr v) s)).0)))
  unfolding request_iq
  refused_state n s s' e h = elim (Option-cases (get_attr (codes "id") (attrs_of n))) [
    | inl q ↦ inl (cc (q, h))
    | inr (v, q) ↦
        let key = str_of o.repr v in
        inr (v, (q, by_send key (send_node o n (make_future iq_bucket key s)) (cc (q, h))))
  ]
    where
      by_send :
          (key : Str) (m : InboundSession W × Outcome (Unit {0}))
          → after_send (next_call iq_bucket key s) m ≡ (s', raise e)
          → s' ≡ pop iq_bucket key m.0
      by_send key (t, raise e) h = cc h
      by_send key (t, ok u) h = absurd (cc h)

  -- The owner of a call's future is the call's own bucket and key.
  abbrev pub OwnsCall : Owner → ℕ → Call → Type 0
  OwnsCall owner bound c = (owner c.future ≡ (c.bucket, c.key)) × (c.future < bound)

  abbrev pub SystemOwned : Owner → System W → Type 0
  SystemOwned owner t = Owned o owner t.session × All (OwnsCall owner t.session.next_future) t.calls

  pub extend-calls :
      (owner : Owner) (r : ℕ) (b : Bucket) (key : Str) (cs : List Call)
      → All (OwnsCall owner r) cs
      → All (OwnsCall (extend owner r b key) (r + 1)) cs
  extend-calls owner r b key [] own = tt
  extend-calls owner r b key (c ∷ cs) ((own, below), rest) = (
    (extend_old owner r b key c.future below ∙ own, omega arith),
    extend-calls owner r b key cs rest,
  )

  pub evolved :
      (owner : Owner) (t : System W) (s : InboundSession W) (cs : List Call)
      → Evolves o owner t.session s
      → All (OwnsCall owner t.session.next_future) cs
      → SystemOwned owner (record { session = s; calls = cs })
  evolved owner t s cs (own, e) calls =
      (own, subst (λ bound. All (OwnsCall owner bound) cs) (sym e) calls)

  pub started :
      (owner : Owner) (b : Bucket) (key : Str) (s s' : InboundSession W) (cs : List Call)
      → Grows owner b key s s'
      → All (OwnsCall owner s.next_future) cs
      → SystemOwned
          (extend owner s.next_future b key)
          (record { session = s'; calls = next_call b key s ∷ cs })
  started owner b key s s' cs (own, e) calls = (
    own,
    subst
        (λ bound. All (OwnsCall (extend owner s.next_future b key) bound) (next_call b key s ∷ cs))
        (sym e)
        (
          (extend_new owner s.next_future b key, omega arith),
          extend-calls owner s.next_future b key cs calls,
        ),
  )
