-- ===== src/Session/Ending.antt =====
-- The runs of a session of wa/session.py in which no new id is one that a call waits for.
use whatsapp_cli.Common.{
  ℕ, ◌≡◌, refl, sym, ap, ap₂, ◌∙◌, true, ◌&&◌, Option, List, [], ◌∷◌, ◌++◌, inl, inr, subst,
}
use whatsapp_cli.Common.Tests.{Bool-cases}
use whatsapp_cli.Common.Lists.{All, All-middle}
use whatsapp_cli.Common.Outcome.{Outcome, ok}
use whatsapp_cli.Common.Utf8.{Str, same_bytes, same_bytes_refl, same_bytes_iff}
use whatsapp_cli.WaBinary.Node.{Node, Value}
use whatsapp_cli.Session.State.{
  Outside, cancelled, is_done, InboundSession, Bucket, iq_bucket, ack_bucket, set_future,
  make_future, stop, new_session,
}
use whatsapp_cli.Session.Stanzas.{str_of, keepalive}
use whatsapp_cli.Session.Handle.{send_node, handle, read_round, send_keepalive}
use whatsapp_cli.Session.Futures.{same_bucket, lookup-make_future, send_node-Kept}
use whatsapp_cli.Session.Answers.{Owner}
use whatsapp_cli.Session.Invariant.{HasId, request_iq_sent, refused_state, OwnsCall}
use whatsapp_cli.Session.Closing.{
  Waits, Differs, make_future-Waits, pop-Waits, Kept-Waits, cancelled-Waits, handle-Waits,
  read_round-Waits, stop-Waits,
}
use whatsapp_cli.Session.Ends.{Ends, Ends-done}
use whatsapp_cli.Session.Runs.{Fine, Step-Fine, new_session-Fine, alone}
use whatsapp_cli.Session.Calls.{
  Call, pop, next_call, wait_ack, time_out, System, Step, request, refused, await_ack, resume,
  timeout, read, replay, ping, close,
}

abbrev pub DiffersFrom : Call → Call → Type 0
DiffersFrom c c' = Differs c.bucket c.key c'

-- The calls that wait have different ids, in each bucket.
abbrev pub Distinct : List Call → Type 0
Distinct [] = Unit
Distinct (c ∷ cs) = All (DiffersFrom c) cs × Distinct cs

same_bucket_comm : (b b' : Bucket) → same_bucket b b' ≡ same_bucket b' b
same_bucket_comm iq_bucket iq_bucket = refl
same_bucket_comm ack_bucket ack_bucket = refl
same_bucket_comm iq_bucket ack_bucket = refl
same_bucket_comm ack_bucket iq_bucket = refl

same_bytes_comm : (xs ys : Str) → same_bytes xs ys ≡ same_bytes ys xs
same_bytes_comm xs ys = elim (Bool-cases (same_bytes xs ys)) [
  | inl e ↦ cc (e, (same_bytes_iff ys xs).1 (sym ((same_bytes_iff xs ys).0 e)))
  | inr e ↦ elim (Bool-cases (same_bytes ys xs)) [
    | inl f ↦ absurd (cc (e, (same_bytes_iff xs ys).1 (sym ((same_bytes_iff ys xs).0 f))))
    | inr f ↦ cc (e, f)
  ]
]

DiffersFrom-comm : (c c' : Call) → DiffersFrom c c' → DiffersFrom c' c
DiffersFrom-comm c c' d =
    ap₂ (λ x y. x && y) (same_bucket_comm c'.bucket c.bucket) (same_bytes_comm c'.key c.key) ∙ d

-- One call of several taken out.
Distinct-middle :
    (before after : List Call) (c : Call)
    → Distinct (before ++ c ∷ after)
    → All (DiffersFrom c) (before ++ after) × Distinct (before ++ after)
Distinct-middle [] after c d = d
Distinct-middle (c' ∷ before) after c (others, d) =
    let (differ, d') = Distinct-middle before after c d in
    let (one, rest) = All-middle (DiffersFrom c') before after c others in
    ((DiffersFrom-comm c' c one, differ), (rest, d'))

same_bucket_refl : (b : Bucket) → same_bucket b b ≡ true
same_bucket_refl iq_bucket = refl
same_bucket_refl ack_bucket = refl

-- From two facts on each element to a third
All-map₂ :
    {A : Type 0} (P Q R : A → Type 0) (xs : List A)
    → ((x : A) → P x → Q x → R x)
    → All P xs
    → All Q xs
    → All R xs
All-map₂ P Q R [] f ps qs = tt
All-map₂ P Q R (x ∷ xs) f (p, ps) (q, qs) = (f x p q, All-map₂ P Q R xs f ps qs)

module _ {W : Type 0} (o : Outside W) where
  -- A step that brings an id brings one that no call waits for.
  abbrev pub NewId : {t u : System W} → Step o t u → Type 0
  NewId {t = t} (request n s c h e) =
      (v : Value) → HasId o n v → All (Differs iq_bucket (str_of o.repr v)) t.calls
  NewId {t = t} (refused n s x h e) =
      (v : Value) → HasId o n v → All (Differs iq_bucket (str_of o.repr v)) t.calls
  NewId {t = t} (await_ack msg_id e) = All (Differs ack_bucket msg_id) t.calls
  NewId {t = t} (ping iq_id e) = All (Differs iq_bucket iq_id) t.calls
  NewId _ = Unit

  pub data FreshRun (t : System W) : System W → Type 0 where
    start : FreshRun t t
    step : {u v : System W} → FreshRun t u → (st : Step o u v) → NewId st → FreshRun t v

  -- Each call that waits is in place, and has an id of its own.
  abbrev Ready : System W → Type 0
  Ready t = All (Waits t.session) t.calls × Distinct t.calls

  evolves :
      (s s' : InboundSession W) (cs : List Call)
      → ((c : Call) → Waits s c → Waits s' c)
      → All (Waits s) cs
      → All (Waits s') cs
  evolves s s' cs f waits = All-map₂ (Waits s) (Waits s) (Waits s') cs (λ c w _. f c w) waits waits

  -- The state behind a new future, for the calls that waited before.
  grown :
      (owner : Owner) (b : Bucket) (key : Str) (s : InboundSession W) (cs : List Call)
      → All (Differs b key) cs
      → All (OwnsCall o owner s.next_future) cs
      → All (Waits s) cs
      → All (Waits (make_future b key s)) cs
  grown owner b key s cs new owned waits =
      All-map₂ (λ c. Differs b key c × OwnsCall o owner s.next_future c) (Waits s)
        (Waits (make_future b key s)) cs (λ c p w. make_future-Waits b key s c p.0 p.1.1 w)
        (All-map₂ (Differs b key) (OwnsCall o owner s.next_future)
          (λ c. Differs b key c × OwnsCall o owner s.next_future c) cs (λ c d w. (d, w)) new owned)
        waits

  sent :
      (n : Node) (s : InboundSession W) (cs : List Call)
      → All (Waits s) cs
      → All (Waits (send_node o n s).0) cs
  sent n s cs =
      evolves s (send_node o n s).0 cs
        (λ c. Kept-Waits s (send_node o n s).0 c (send_node-Kept o n s))

  -- The call that made the future is in place.
  new_call-Waits :
      (b : Bucket) (key : Str) (s : InboundSession W)
      → Waits (make_future b key s) (next_call b key s)
  new_call-Waits b key s p =
      cc (lookup-make_future b key s b key, same_bytes_refl key, same_bucket_refl b)

  popped :
      (b : Bucket) (key : Str) (s : InboundSession W) (cs : List Call)
      → All (Differs b key) cs
      → All (Waits s) cs
      → All (Waits (pop b key s)) cs
  popped b key s cs =
      All-map₂ (Differs b key) (Waits s) (Waits (pop b key s)) cs (pop-Waits b key s)

  Step-Ready : (t u : System W) (st : Step o t u) → NewId st → Fine o t → Ready t → Ready u
  unfolding wait_ack send_keepalive time_out
  Step-Ready t u (request n s c h e) new (owner, (own, calls)) (waits, distinct) =
      let (v, (has, (ec, es))) = request_iq_sent o n t.session s c h in
      let key = str_of o.repr v in
      let made = make_future iq_bucket key t.session in
      subst Ready
        (sym (
          e
          ∙ ap₂
              (λ (s' : InboundSession W) (c' : Call). record { session = s'; calls = c' ∷ t.calls })
              es ec))
        (
          (
            (Kept-Waits made (send_node o n made).0 (next_call iq_bucket key t.session)
                (send_node-Kept o n made) (new_call-Waits iq_bucket key t.session)),
            sent n made t.calls
                (grown owner iq_bucket key t.session t.calls (new v has) calls waits),
          ),
          (new v has, distinct),
        )
  Step-Ready t u (refused n s x h e) new (owner, (own, calls)) (waits, distinct) =
      elim (refused_state o n t.session s x h) [
        | inl es ↦
            subst Ready
              (sym
                (e ∙ ap (λ (s' : InboundSession W). record { session = s'; calls = t.calls }) es))
              (waits, distinct)
        | inr (v, (has, es)) ↦
            let key = str_of o.repr v in
            let made = make_future iq_bucket key t.session in
            subst Ready
              (sym
                (e ∙ ap (λ (s' : InboundSession W). record { session = s'; calls = t.calls }) es))
              (
                popped iq_bucket key (send_node o n made).0 t.calls (new v has) (
                    sent n made t.calls
                      (grown owner iq_bucket key t.session t.calls (new v has) calls waits)),
                distinct,
              )
      ]
  Step-Ready t u (await_ack msg_id e) new (owner, (own, calls)) (waits, distinct) =
      subst Ready (sym e) (
        (
          new_call-Waits ack_bucket msg_id t.session,
          grown owner ack_bucket msg_id t.session t.calls new calls waits,
        ),
        (new, distinct),
      )
  Step-Ready t u (resume before after c outcome ec es e) new fine (waits, distinct) =
      let (differ, distinct') = Distinct-middle before after c (subst Distinct ec distinct) in
      subst Ready (sym e) (
        popped c.bucket c.key t.session (before ++ after) differ
            (All-middle (Waits t.session) before after c
              (subst (All (Waits t.session)) ec waits)).1,
        distinct',
      )
  Step-Ready t u (timeout before after c ec es e) new fine (waits, distinct) =
      let (differ, distinct') = Distinct-middle before after c (subst Distinct ec distinct) in
      let left = record t.session { futures = set_future t.session.futures c.future cancelled } in
      subst Ready (sym e) (
        popped c.bucket c.key left (before ++ after) differ (
            evolves t.session left (before ++ after) (cancelled-Waits c.future t.session)
              (All-middle (Waits t.session) before after c
                (subst (All (Waits t.session)) ec waits)).1),
        distinct',
      )
  Step-Ready t u (read e) new fine (waits, distinct) = subst Ready (sym e) (
    evolves t.session (read_round o t.session).0 t.calls (read_round-Waits o t.session) waits,
    distinct,
  )
  Step-Ready t u (replay n e) new fine (waits, distinct) = subst Ready (sym e) (
    evolves t.session (handle o n t.session).0 t.calls (handle-Waits o n t.session) waits,
    distinct,
  )
  Step-Ready t u (ping iq_id e) new (owner, (own, calls)) (waits, distinct) = subst Ready (sym e) (
    sent (keepalive iq_id) (make_future iq_bucket iq_id t.session) t.calls
        (grown owner iq_bucket iq_id t.session t.calls new calls waits),
    distinct,
  )
  Step-Ready t u (close e) new fine (waits, distinct) =
      subst Ready (sym e)
        (evolves t.session (stop t.session) t.calls (stop-Waits o t.session) waits, distinct)

  FreshRun-Ready : (t u : System W) → FreshRun t u → Fine o t → Ready t → Fine o u × Ready u
  FreshRun-Ready t u start fine ready = (fine, ready)
  FreshRun-Ready t u (step {u = v} run st new) fine ready =
      let (fine', ready') = FreshRun-Ready t v run fine ready in
      (Step-Fine o v u st fine', Step-Ready v u st new fine' ready')

  -- In a run in which each id that a call or a keepalive brings is none that a call waits for, take
  -- any state and any call that waits in it. If the session then ends, by `stop` or by a round of the
  -- reader that finds the connection closed, the call's future is done: no call waits for an answer
  -- that cannot come.
  pub end_reaches_every_call :
      (int_of : Str → Outcome ℕ) (device_jid device_lid : Option Str) (w : W) (now : ℕ)
      (s s' : InboundSession W) (t : System W) (before after : List Call) (c : Call)
      → new_session int_of device_jid device_lid w now ≡ ok s
      → FreshRun (alone o s) t
      → t.calls ≡ before ++ c ∷ after
      → Ends o t.session s'
      → is_done (s'.futures c.future) ≡ true
  end_reaches_every_call int_of device_jid device_lid w now s s' t before after c made run ec end =
      let (fine, (waits, distinct)) =
        FreshRun-Ready (alone o s) t run
          (new_session-Fine o int_of device_jid device_lid w now s made) (tt, tt) in
      let (mine, rest) =
        All-middle (Waits t.session) before after c (subst (All (Waits t.session)) ec waits) in
      Ends-done o t.session s' c mine end
