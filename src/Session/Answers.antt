-- ===== src/Session/Answers.antt =====
-- In every state that a session of wa/session.py reaches, a future has one owner, the bucket and key
-- it was made for, and holds no stanza but one of that kind and id.
use whatsapp_cli.Common.{
  ℕ, ◌+◌, ◌<◌, ◌≡◌, refl, sym, ap, ap₂, ◌∙◌, true, none, some, arith, inl, inr, subst,
}
use whatsapp_cli.Common.Tests.{◌==◌, ==_iff, if◌then◌else◌, Bool-cases, Option-cases}
use whatsapp_cli.Common.Utf8.{Str, codes}
use whatsapp_cli.Common.Dict.{lookup}
use whatsapp_cli.WaBinary.Node.{Node}
use whatsapp_cli.Session.State.{
  Outside, FutureState, pending, result, is_done, InboundSession, Bucket, iq_bucket, ack_bucket,
  bucket_of, set_future, settle, make_future,
}
use whatsapp_cli.Session.Stanzas.{has_tag, id_of}
use whatsapp_cli.Session.Handle.{waiter, handle}
use whatsapp_cli.Session.Owed.{waiter-counted, counted, arrived}
use whatsapp_cli.Session.Futures.{
  futures-make_future, futures-pop, settle_done, settle_pending, Kept, lookup-make_future_cases,
  lookup-pop_old, handle_unsolicited-Kept,
}
use whatsapp_cli.Session.Calls.{pop}

abbrev pub Owner : Type 0
Owner = ℕ → Bucket × Str

abbrev pub tag_for : Bucket → Str
tag_for iq_bucket = codes "iq"
tag_for ack_bucket = codes "ack"

abbrev pub extend : Owner → ℕ → Bucket → Str → Owner
extend owner r b key r' = if r' == r then (b, key) else owner r'

pub extend_old :
    (owner : Owner) (r : ℕ) (b : Bucket) (key : Str) (r' : ℕ)
    → r' < r
    → extend owner r b key r' ≡ owner r'
extend_old owner r b key r' h = ground arith

pub extend_new :
    (owner : Owner) (r : ℕ) (b : Bucket) (key : Str) → extend owner r b key r ≡ (b, key)
extend_new owner r b key = ground arith

module _ {W : Type 0} (o : Outside W) where
  -- A stanza of the kind and id that the owner waits for.
  abbrev pub Answers : Bucket × Str → Node → Type 0
  Answers (b, key) n = (has_tag n (tag_for b) ≡ true) × (id_of o.repr n ≡ key)

  abbrev pub Owned : Owner → InboundSession W → Type 0
  Owned owner s =
      ((b : Bucket) (key : Str) (r : ℕ)
        → lookup key (bucket_of b s) ≡ some r
        → (owner r ≡ (b, key)) × (r < s.next_future))
      × ((r : ℕ) (n : Node) → s.futures r ≡ result n → Answers (owner r) n)

  -- Nothing else of the session counts.
  pub same-Owned :
      (owner : Owner) (s s' : InboundSession W)
      → s'.iq ≡ s.iq
      → s'.ack ≡ s.ack
      → s'.futures ≡ s.futures
      → s'.next_future ≡ s.next_future
      → Owned owner s
      → Owned owner s'
  same-Owned owner s s' ei ea ef en (held, answered) = (
    (λ b key r h.
        let (own, below) = held b key r (ap (lookup key) (sym (same b)) ∙ h) in
        (own, rw (en) below)),
    (λ r n h. answered r n (ap (λ f. f r) (sym ef) ∙ h)),
  )
    where
      same : (b : Bucket) → bucket_of b s' ≡ bucket_of b s
      same iq_bucket = ei
      same ack_bucket = ea

  pub Kept-Owned :
      (owner : Owner) (s s' : InboundSession W) → Kept s s' → Owned owner s → Owned owner s'
  Kept-Owned owner s s' (w, e) own =
      subst (Owned owner) (sym e)
        (same-Owned owner s (record s { outside = w }) refl refl refl refl own)

  -- A new future belongs to the call that made it.
  pub make_future-Owned :
      (owner : Owner) (b : Bucket) (key : Str) (s : InboundSession W)
      → Owned owner s
      → Owned (extend owner s.next_future b key) (make_future b key s)
  make_future-Owned owner b key s (held, answered) = (held', answered')
    where
      made :
          ((make_future b key s).futures ≡ set_future s.futures s.next_future pending)
          × ((make_future b key s).next_future ≡ s.next_future + 1)
      made = futures-make_future b key s

      held' :
          (b' : Bucket) (k : Str) (r : ℕ)
          → lookup k (bucket_of b' (make_future b key s)) ≡ some r
          → (extend owner s.next_future b key r ≡ (b', k)) × (r < (make_future b key s).next_future)
      held' b' k r h = elim (lookup-make_future_cases b key s b' k h) [
        | inl (eb, ek, er) ↦ (
          ap (extend owner s.next_future b key) (sym er)
              ∙ extend_new owner s.next_future b key
              ∙ ap₂ (λ x y. (x, y)) eb ek,
          rw (made.1) (omega (arith, er)),
        )
        | inr old ↦
            let (own, below) = held b' k r old in
            (extend_old owner s.next_future b key r below ∙ own, rw (made.1) (omega arith))
      ]

      answered' :
          (r : ℕ) (n : Node)
          → (make_future b key s).futures r ≡ result n
          → Answers (extend owner s.next_future b key r) n
      answered' r n h =
          let h' : set_future s.futures s.next_future pending r ≡ result n =
            ap (λ f. f r) (sym made.0) ∙ h in
          elim (Bool-cases (r == s.next_future)) [
            | inl e ↦ absurd (cc (e, h'))
            | inr e ↦ rw (e) (answered r n (cc (e, h')))
          ]

  pub pop-Owned :
      (owner : Owner) (b : Bucket) (key : Str) (s : InboundSession W)
      → Owned owner s
      → Owned owner (pop b key s)
  pop-Owned owner b key s (held, answered) =
      let (ef, en) = futures-pop b key s in
      (
        (λ b' k r h. rw (en) (held b' k r (lookup-pop_old b key s b' k h))),
        (λ r n h. answered r n (ap (λ f. f r) (sym ef) ∙ h)),
      )

  -- Setting futures to anything but a stanza that they do not wait for.
  pub futures-Owned :
      (owner : Owner) (futures : ℕ → FutureState) (s : InboundSession W)
      → ((r : ℕ) (n : Node) → futures r ≡ result n → Answers (owner r) n)
      → Owned owner s
      → Owned owner (record s { futures = futures })
  futures-Owned owner futures s answered' (held, answered) = (held', answered')
    where
      held' :
          (b : Bucket) (key : Str) (r : ℕ)
          → lookup key (bucket_of b (record s { futures = futures })) ≡ some r
          → (owner r ≡ (b, key)) × (r < s.next_future)
      held' iq_bucket = held iq_bucket
      held' ack_bucket = held ack_bucket

  pub settle_answered :
      (owner : Owner) (r : ℕ) (state : FutureState) (futures : ℕ → FutureState)
      → ((n : Node) → state ≡ result n → Answers (owner r) n)
      → ((r' : ℕ) (n : Node) → futures r' ≡ result n → Answers (owner r') n)
      → (r' : ℕ) (n : Node) → settle r state futures r' ≡ result n
      → Answers (owner r') n
  settle_answered owner r state futures new old r' n h = elim (Bool-cases (is_done (futures r))) [
    | inl e ↦ old r' n (ap (λ f. f r') (sym (settle_done r state futures e)) ∙ h)
    | inr e ↦
        let h' = ap (λ f. f r') (sym (settle_pending r state futures e)) ∙ h in
        elim (Bool-cases (r' == r)) [
          | inl e' ↦
              subst (λ x. Answers (owner x) n) (sym ((==_iff r' r).0 e')) (new n (cc (e', h')))
          | inr e' ↦ old r' n (cc (e', h'))
        ]
  ]

  waiter_held :
      (owner : Owner) (n : Node) (s : InboundSession W) (r : ℕ)
      → Owned owner s
      → waiter o n s ≡ some r
      → Answers (owner r) n
  unfolding waiter
  waiter_held owner n s r (held, answered) h = elim (Bool-cases (has_tag n (codes "iq"))) [
    | inl e ↦
        let (own, below) = held iq_bucket (id_of o.repr n) r (cc (e, h)) in
        subst (λ x. Answers x n) (sym own) (e, refl)
    | inr e ↦ elim (Bool-cases (has_tag n (codes "ack"))) [
      | inl f ↦
          let (own, below) = held ack_bucket (id_of o.repr n) r (cc (e, f, h)) in
          subst (λ x. Answers x n) (sym own) (f, refl)
      | inr f ↦ absurd (cc (e, f, h))
    ]
  ]

  -- No future is made, and the owner stays.
  abbrev pub Evolves : Owner → InboundSession W → InboundSession W → Type 0
  Evolves owner s s' = Owned owner s' × (s'.next_future ≡ s.next_future)

  pub Kept-Evolves :
      (owner : Owner) (s s' : InboundSession W) → Kept s s' → Owned owner s → Evolves owner s s'
  Kept-Evolves owner s s' (w, e) own =
      (Kept-Owned owner s s' (w, e) own, ap (λ (t : InboundSession W). t.next_future) e)

  pub handle-Evolves :
      (owner : Owner) (n : Node) (s : InboundSession W)
      → Owned owner s
      → Evolves owner s (handle o n s).0
  unfolding handle
  handle-Evolves owner n s own = elim (Option-cases (waiter o n s)) [
    | inl h ↦
        let h' : waiter o n (counted o s) ≡ none = waiter-counted o n s ∙ h in
        rw (h', handle)
          (Kept-Evolves owner (arrived o s) _ (handle_unsolicited-Kept o n (arrived o s))
            (same-Owned owner s (arrived o s) refl refl refl refl own))
    | inr (r, h) ↦
        let h' : waiter o n (counted o s) ≡ some r = waiter-counted o n s ∙ h in
        rw (h', handle)
          (
            futures-Owned owner (settle r (result n) s.futures) (counted o s)
                (settle_answered owner r (result n) s.futures
                  (λ n' e. subst (Answers (owner r)) (cc e) (waiter_held owner n s r own h)) own.1)
                (same-Owned owner s (counted o s) refl refl refl refl own),
            refl,
          )
  ]
