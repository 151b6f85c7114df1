-- ===== src/Session/Runs.antt =====
-- All runs of a session of wa/session.py: what a call that waits can get.
use whatsapp_cli.Common.{
  ℕ, ◌<◌, ◌≡◌, sym, ap, ap₂, ◌∙◌, true, Option, some, List, [], ◌∷◌, ◌++◌, inl, inr, subst,
}
use whatsapp_cli.Common.Lists.{All, All-middle}
use whatsapp_cli.Common.Outcome.{Outcome, ok}
use whatsapp_cli.Common.Utf8.{Str}
use whatsapp_cli.Common.Dict.{lookup}
use whatsapp_cli.WaBinary.Node.{Node, Jid}
use whatsapp_cli.Session.State.{
  Outside, FutureState, result, exception, InboundSession, Bucket, iq_bucket, ack_bucket, bucket_of,
  new_session, fresh_session, new_session-fresh_session,
}
use whatsapp_cli.Session.Stanzas.{str_of, has_tag, id_of, keepalive}
use whatsapp_cli.Session.Handle.{send_keepalive}
use whatsapp_cli.Session.Answers.{Owner, tag_for, Answers, extend, handle-Evolves}
use whatsapp_cli.Session.Invariant.{
  Grows, sent-Grows, make_future-Grows, pop-Evolves, time_out-Evolves, read_round-Evolves,
  stop-Evolves, request_iq_sent, refused_state, OwnsCall, SystemOwned, extend-calls, evolved,
  started,
}
use whatsapp_cli.Session.Calls.{
  Call, settled, pop, wait_ack, System, Step, request, refused, await_ack, resume, timeout, read,
  replay, ping, close, Reach, here, next,
}

settled_result : (state : FutureState) (n : Node) → settled state ≡ some (ok n) → state ≡ result n
settled_result (result m) n h = cc h
settled_result (exception e) n h = absurd (cc h)
settled_result _ n h = absurd (cc h)

module _ {W : Type 0} (o : Outside W) where
  -- Some owner for each future
  abbrev pub Fine : System W → Type 0
  Fine t = (owner : Owner) × SystemOwned o owner t

  -- A future that no call waits for: that of a keepalive, or of a request whose send failed.
  unused :
      (owner : Owner) (b : Bucket) (key : Str) (t : System W) (s : InboundSession W)
      → Grows o owner b key t.session s
      → All (OwnsCall o owner t.session.next_future) t.calls
      → Fine (record { session = s; calls = t.calls })
  unused owner b key t s (own, e) calls =
      let owner' = extend owner t.session.next_future b key in
      (
        owner',
        (
          own,
          subst (λ bound. All (OwnsCall o owner' bound) t.calls) (sym e)
              (extend-calls o owner t.session.next_future b key t.calls calls),
        ),
      )

  popped :
      (owner : Owner) (b : Bucket) (key : Str) (s s' : InboundSession W)
      → Grows o owner b key s s'
      → Grows o owner b key s (pop b key s')
  popped owner b key s s' (own, e) =
      let (own', e') = pop-Evolves o (extend owner s.next_future b key) b key s' own in
      (own', e' ∙ e)

  Fine-of : (u v : System W) → u ≡ v → Fine v → Fine u
  Fine-of u v e fine = subst Fine (sym e) fine

  pub Step-Fine : (t u : System W) → Step o t u → Fine t → Fine u
  unfolding wait_ack send_keepalive
  Step-Fine t u (request n s c h e) (owner, (own, calls)) =
      let (v, (_, (ec, es))) = request_iq_sent o n t.session s c h in
      let key = str_of o.repr v in
      Fine-of u _
        (e
          ∙ ap₂
              (λ (s' : InboundSession W) (c' : Call). record { session = s'; calls = c' ∷ t.calls })
              es ec)
        (
          extend owner t.session.next_future iq_bucket key,
          started o owner iq_bucket key t.session _ t.calls
              (sent-Grows o owner iq_bucket key n t.session own) calls,
        )
  Step-Fine t u (refused n s x h e) (owner, (own, calls)) =
      elim (refused_state o n t.session s x h) [
        | inl es ↦
            Fine-of u t
              (e ∙ ap (λ (s' : InboundSession W). record { session = s'; calls = t.calls }) es)
              (owner, (own, calls))
        | inr (v, (_, es)) ↦
            let key = str_of o.repr v in
            Fine-of u _
              (e ∙ ap (λ (s' : InboundSession W). record { session = s'; calls = t.calls }) es)
              (unused owner iq_bucket key t _
                (popped owner iq_bucket key t.session _
                  (sent-Grows o owner iq_bucket key n t.session own))
                calls)
      ]
  Step-Fine t u (await_ack msg_id e) (owner, (own, calls)) = Fine-of u _ e (
    extend owner t.session.next_future ack_bucket msg_id,
    started o owner ack_bucket msg_id t.session _ t.calls
        (make_future-Grows o owner ack_bucket msg_id t.session own) calls,
  )
  Step-Fine t u (resume before after c outcome ec es e) (owner, (own, calls)) = Fine-of u _ e (
    owner,
    evolved o owner t _ (before ++ after) (pop-Evolves o owner c.bucket c.key t.session own)
        (All-middle _ before after c
          (subst (All (OwnsCall o owner t.session.next_future)) ec calls)).1,
  )
  Step-Fine t u (timeout before after c ec es e) (owner, (own, calls)) = Fine-of u _ e (
    owner,
    evolved o owner t _ (before ++ after) (time_out-Evolves o owner c t.session own)
        (All-middle _ before after c
          (subst (All (OwnsCall o owner t.session.next_future)) ec calls)).1,
  )
  Step-Fine t u (read e) (owner, (own, calls)) =
      Fine-of u _ e
        (owner, evolved o owner t _ t.calls (read_round-Evolves o owner t.session own) calls)
  Step-Fine t u (replay n e) (owner, (own, calls)) =
      Fine-of u _ e
        (owner, evolved o owner t _ t.calls (handle-Evolves o owner n t.session own) calls)
  Step-Fine t u (ping iq_id e) (owner, (own, calls)) = Fine-of u _ e (
      unused owner iq_bucket iq_id t _
        (sent-Grows o owner iq_bucket iq_id (keepalive iq_id) t.session own) calls)
  Step-Fine t u (close e) (owner, (own, calls)) =
      Fine-of u _ e (owner, evolved o owner t _ t.calls (stop-Evolves o owner t.session own) calls)

  Reach-Fine : (t u : System W) → Reach o t u → Fine t → Fine u
  Reach-Fine t u here fine = fine
  Reach-Fine t u (next {u = v} run st) fine = Step-Fine v u st (Reach-Fine t v run fine)

  abbrev pub alone : InboundSession W → System W
  alone s = record { session = s; calls = [] }

  pub new_session-Fine :
      (int_of : Str → Outcome ℕ) (device_jid device_lid : Option Str) (w : W) (now : ℕ)
      (s : InboundSession W)
      → new_session int_of device_jid device_lid w now ≡ ok s
      → Fine (alone s)
  unfolding lookup
  new_session-Fine int_of device_jid device_lid w now s h =
      let (own_pn, own_lid, e) = new_session-fresh_session int_of device_jid device_lid w now s h in
      subst (λ s'. Fine (alone s')) e
        ((λ r. (iq_bucket, [])), ((empty own_pn own_lid, λ r n q. absurd (cc q)), tt))
    where
      empty :
          (own_pn : Jid) (own_lid : Option Jid) (b : Bucket) (key : Str) (r : ℕ)
          → lookup key (bucket_of b (fresh_session own_pn own_lid w now)) ≡ some r
          → (◌≡◌ {A = Bucket × Str} (iq_bucket, []) (b, key)) × (r < 0)
      empty own_pn own_lid iq_bucket key r q = absurd (cc q)
      empty own_pn own_lid ack_bucket key r q = absurd (cc q)

  -- In every state that a new session reaches, whatever the reader, the calls, the keepalives and the
  -- end of the session do and in whatever order, if the future of a call that waits holds a stanza,
  -- that is of the kind the call waits for and has the call's id.
  pub answers_its_call :
      (int_of : Str → Outcome ℕ) (device_jid device_lid : Option Str) (w : W) (now : ℕ)
      (s : InboundSession W) (t : System W) (before after : List Call) (c : Call) (n : Node)
      → new_session int_of device_jid device_lid w now ≡ ok s
      → Reach o (alone s) t
      → t.calls ≡ before ++ c ∷ after
      → settled (t.session.futures c.future) ≡ some (ok n)
      → (has_tag n (tag_for c.bucket) ≡ true) × (id_of o.repr n ≡ c.key)
  answers_its_call int_of device_jid device_lid w now s t before after c n start run ec h =
      let (owner, (own, calls)) =
        Reach-Fine (alone s) t run (new_session-Fine int_of device_jid device_lid w now s start) in
      let (mine, rest) =
        All-middle _ before after c
          (subst (All (OwnsCall o owner t.session.next_future)) ec calls) in
      subst (λ x. Answers o x n) mine.0 (own.1 c.future n (settled_result _ n h))
