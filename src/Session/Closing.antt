-- ===== src/Session/Closing.antt =====
-- What the end of a session of wa/session.py does to the calls that wait.
use whatsapp_cli.Common.{
  ℕ, ◌<◌, ◌≡◌, refl, sym, ap, ◌∙◌, true, false, ◌&&◌, none, some, List, [], ◌∷◌, arith, inl, inr,
  subst,
}
use whatsapp_cli.Common.Tests.{◌==◌, ==_iff, Bool-cases, Option-cases}
use whatsapp_cli.Common.Outcome.{Exc, Outcome, ok, raise, connection_error, timeout_error}
use whatsapp_cli.Common.Utf8.{Bytes, Str, same_bytes}
use whatsapp_cli.Common.Dict.{Dict, lookup, values}
use whatsapp_cli.WaBinary.Node.{Node}
use whatsapp_cli.Session.State.{
  Outside, FutureState, pending, cancelled, result, exception, is_done, InboundSession, Bucket,
  iq_bucket, ack_bucket, bucket_of, set_future, settle, settle_all, make_future, fail_waiters, stop,
}
use whatsapp_cli.Session.Handle.{waiter, handle, handle_opened, after_recv, read_round}
use whatsapp_cli.Session.Owed.{waiter-counted, counted, arrived}
use whatsapp_cli.Session.Futures.{
  same_bucket, lookup-make_future, lookup-pop, futures-make_future, futures-pop, settle_done,
  settle_pending, bucket_of_outside, Kept, handle_unsolicited-Kept,
}
use whatsapp_cli.Session.Calls.{Call, pop}

-- A future that was settled once stays so.
settle_monotone :
    (r : ℕ) (state : FutureState) (futures : ℕ → FutureState) (r' : ℕ)
    → is_done state ≡ true
    → settle r state futures r' ≡ pending
    → (futures r' ≡ pending) × ((r' == r) ≡ false)
settle_monotone r state futures r' d h = elim (Bool-cases (is_done (futures r))) [
  | inl e ↦
      let h' : futures r' ≡ pending = ap (λ f. f r') (sym (settle_done r state futures e)) ∙ h in
      (
        h',
        elim (Bool-cases (r' == r)) [
          | inl e' ↦ absurd (cc (e, h', (==_iff r' r).0 e'))
          | inr e' ↦ e'
        ],
      )
  | inr e ↦
      let h' : set_future futures r state r' ≡ pending =
        ap (λ f. f r') (sym (settle_pending r state futures e)) ∙ h in
      elim (Bool-cases (r' == r)) [ inl e' ↦ absurd (cc (e', h', d)) | inr e' ↦ (cc (e', h'), e') ]
]

settle_all_monotone :
    (rs : List ℕ) (e : Exc) (futures : ℕ → FutureState) (r : ℕ)
    → settle_all rs (exception e) futures r ≡ pending
    → futures r ≡ pending
unfolding settle_all
settle_all_monotone [] e futures r h = h
settle_all_monotone (r' ∷ rs) e futures r h =
    (settle_monotone r' (exception e) futures r refl
      (settle_all_monotone rs e (settle r' (exception e) futures) r h)).0

-- Of the futures in a dict none is left pending.
settle_all-values :
    (d : Dict ℕ) (e : Exc) (futures : ℕ → FutureState) (key : Str) (r : ℕ)
    → lookup key d ≡ some r
    → settle_all (values d) (exception e) futures r ≡ pending
    → ⊥
unfolding settle_all values lookup
settle_all-values [] e futures key r h p = absurd (cc h)
settle_all-values ((k, r') ∷ d) e futures key r h p = elim (Bool-cases (same_bytes k key)) [
  | inl c ↦
      let (_, ne) =
        settle_monotone r' (exception e) futures r refl
          (settle_all_monotone (values d) e (settle r' (exception e) futures) r p) in
      let same : r' ≡ r = cc (c, h) in absurd (ground (arith, ne, same))
  | inr c ↦ settle_all-values d e (settle r' (exception e) futures) key r (cc (c, h)) p
]

-- Another id in its bucket, or the other bucket
abbrev pub Differs : Bucket → Str → Call → Type 0
Differs b key c = (same_bucket b c.bucket && same_bytes key c.key) ≡ false

module _ {W : Type 0} where
  -- While its future is pending, a call has its entry in the bucket.
  abbrev pub Waits : InboundSession W → Call → Type 0
  Waits s c = s.futures c.future ≡ pending → lookup c.key (bucket_of c.bucket s) ≡ some c.future

  -- No stop of the session leaves a call pending.
  pub fail_waiters_done :
      (e : Exc) (s : InboundSession W) (c : Call)
      → Waits s c
      → (fail_waiters e s).futures c.future ≡ pending
      → ⊥
  unfolding fail_waiters
  fail_waiters_done e s c waits p =
      let after_iq = settle_all_monotone (values s.ack) e _ c.future p in
      by_bucket c.bucket (waits (settle_all_monotone (values s.iq) e s.futures c.future after_iq))
        after_iq p
    where
      by_bucket :
          (b : Bucket)
          → lookup c.key (bucket_of b s) ≡ some c.future
          → settle_all (values s.iq) (exception e) s.futures c.future ≡ pending
          → settle_all
              (values s.ack)
              (exception e)
              (settle_all (values s.iq) (exception e) s.futures)
              c.future
            ≡ pending
          → ⊥
      by_bucket iq_bucket h after_iq p =
          settle_all-values s.iq e s.futures c.key c.future h after_iq
      by_bucket ack_bucket h after_iq p = settle_all-values s.ack e _ c.key c.future h p

  pub fail_waiters-Waits :
      (e : Exc) (s : InboundSession W) (c : Call) → Waits s c → Waits (fail_waiters e s) c
  fail_waiters-Waits e s c waits p = absurd (fail_waiters_done e s c waits p)

  pub make_future-Waits :
      (b : Bucket) (key : Str) (s : InboundSession W) (c : Call)
      → Differs b key c
      → c.future < s.next_future
      → Waits s c
      → Waits (make_future b key s) c
  make_future-Waits b key s c differs below waits p =
      let (ef, _) = futures-make_future b key s in
      let p' : set_future s.futures s.next_future pending c.future ≡ pending =
        ap (λ f. f c.future) (sym ef) ∙ p in
      let other : (c.future == s.next_future) ≡ false = ground arith in
      cc (lookup-make_future b key s c.bucket c.key, differs, waits (cc (other, p')))

  pub pop-Waits :
      (b : Bucket) (key : Str) (s : InboundSession W) (c : Call)
      → Differs b key c
      → Waits s c
      → Waits (pop b key s) c
  pop-Waits b key s c differs waits p =
      let (ef, _) = futures-pop b key s in
      cc (lookup-pop b key s c.bucket c.key, differs, waits (ap (λ f. f c.future) (sym ef) ∙ p))

  -- What leaves the buckets as they are, and makes no future pending.
  same-Waits :
      (s s' : InboundSession W) (c : Call)
      → ((b : Bucket) → bucket_of b s' ≡ bucket_of b s)
      → (s'.futures c.future ≡ pending → s.futures c.future ≡ pending)
      → Waits s c
      → Waits s' c
  same-Waits s s' c buckets back waits p = ap (lookup c.key) (buckets c.bucket) ∙ waits (back p)

  pub Kept-Waits : (s s' : InboundSession W) (c : Call) → Kept s s' → Waits s c → Waits s' c
  Kept-Waits s s' c (w, e) waits =
      subst (λ t. Waits t c) (sym e)
        (same-Waits s (record s { outside = w }) c (λ b. bucket_of_outside b s w) (λ p. p) waits)

  pub cancelled-Waits :
      (r : ℕ) (s : InboundSession W) (c : Call)
      → Waits s c
      → Waits (record s { futures = set_future s.futures r cancelled }) c
  cancelled-Waits r s c =
      same-Waits s (record s { futures = set_future s.futures r cancelled }) c buckets back
    where
      buckets :
          (b : Bucket)
          → bucket_of b (record s { futures = set_future s.futures r cancelled }) ≡ bucket_of b s
      buckets iq_bucket = refl
      buckets ack_bucket = refl

      back : set_future s.futures r cancelled c.future ≡ pending → s.futures c.future ≡ pending
      back p = elim (Bool-cases (c.future == r)) [ inl e ↦ absurd (cc (e, p)) | inr e ↦ cc (e, p) ]

module _ {W : Type 0} (o : Outside W) where
  counted-Waits :
      (futures : ℕ → FutureState) (s : InboundSession W) (c : Call)
      → (futures c.future ≡ pending → s.futures c.future ≡ pending)
      → Waits s c
      → Waits (record (counted o s) { futures = futures }) c
  counted-Waits futures s c back =
      same-Waits s (record (counted o s) { futures = futures }) c buckets back
    where
      buckets :
          (b : Bucket) → bucket_of b (record (counted o s) { futures = futures }) ≡ bucket_of b s
      buckets iq_bucket = refl
      buckets ack_bucket = refl

  arrived-Waits : (s : InboundSession W) (c : Call) → Waits s c → Waits (arrived o s) c
  arrived-Waits s c = same-Waits s (arrived o s) c buckets (λ p. p)
    where
      buckets : (b : Bucket) → bucket_of b (arrived o s) ≡ bucket_of b s
      buckets iq_bucket = refl
      buckets ack_bucket = refl

  pub handle-Waits :
      (n : Node) (s : InboundSession W) (c : Call) → Waits s c → Waits (handle o n s).0 c
  unfolding handle
  handle-Waits n s c waits = elim (Option-cases (waiter o n s)) [
    | inl h ↦
        let h' : waiter o n (counted o s) ≡ none = waiter-counted o n s ∙ h in
        rw (h', handle)
          (Kept-Waits (arrived o s) _ c (handle_unsolicited-Kept o n (arrived o s))
            (arrived-Waits s c waits))
    | inr (r, h) ↦
        let h' : waiter o n (counted o s) ≡ some r = waiter-counted o n s ∙ h in
        rw (h', handle)
          (counted-Waits (settle r (result n) s.futures) s c
            (λ p. (settle_monotone r (result n) s.futures c.future refl p).0) waits)
  ]

  handle_opened-Waits :
      (r : Outcome Node) (s : InboundSession W) (c : Call)
      → Waits s c
      → Waits (handle_opened o r s) c
  unfolding handle_opened
  handle_opened-Waits (raise e) s c waits = waits
  handle_opened-Waits (ok n) s c waits = handle-Waits n s c waits

  pub stopped-Waits :
      (s : InboundSession W) (c : Call) → Waits s c → Waits (record s { stopped = true }) c
  stopped-Waits s c = same-Waits s (record s { stopped = true }) c buckets (λ p. p)
    where
      buckets : (b : Bucket) → bucket_of b (record s { stopped = true }) ≡ bucket_of b s
      buckets iq_bucket = refl
      buckets ack_bucket = refl

  pub disconnected-Waits :
      (s : InboundSession W) (c : Call) → Waits s c → Waits (record s { disconnected = true }) c
  disconnected-Waits s c = same-Waits s (record s { disconnected = true }) c buckets (λ p. p)
    where
      buckets : (b : Bucket) → bucket_of b (record s { disconnected = true }) ≡ bucket_of b s
      buckets iq_bucket = refl
      buckets ack_bucket = refl

  after_recv-Waits :
      (r : Outcome Bytes) (s : InboundSession W) (c : Call)
      → Waits s c
      → Waits (after_recv o r s).0 c
  unfolding after_recv
  after_recv-Waits (raise timeout_error) s c waits = waits
  after_recv-Waits (raise connection_error) s c waits =
      fail_waiters-Waits connection_error (record s { disconnected = true }) c
        (disconnected-Waits s c waits)
  after_recv-Waits (raise _) s c waits = waits
  after_recv-Waits (ok ct) s c waits =
      let (w, opened) = o.open_frame ct s.outside in
      handle_opened-Waits opened (record s { outside = w }) c
        (Kept-Waits s (record s { outside = w }) c (w, refl) waits)

  pub read_round-Waits : (s : InboundSession W) (c : Call) → Waits s c → Waits (read_round o s).0 c
  unfolding read_round
  read_round-Waits s c waits =
      let (w, r) = o.recv s.outside in
      after_recv-Waits r (record s { outside = w }) c
        (Kept-Waits s (record s { outside = w }) c (w, refl) waits)

  pub stop-Waits : (s : InboundSession W) (c : Call) → Waits s c → Waits (stop s) c
  unfolding stop
  stop-Waits s c waits =
      fail_waiters-Waits connection_error (record s { stopped = true }) c (stopped-Waits s c waits)
