-- ===== src/Session/Calls.antt =====
-- `request_iq` and `wait_ack` of wa/session.py, and the session with the calls that wait. A call
-- is cut where it awaits its future: it starts, and later it ends with the future's outcome or with a
-- timeout. `wait_for` cancels the future of a call that it times out, and `finally` removes the
-- key from the bucket in each case.
use whatsapp_cli.Common.{ℕ, ◌≡◌, Option, none, some, List, ◌∷◌, ◌++◌}
use whatsapp_cli.Common.Outcome.{Exc, Outcome, ok, raise, key_error}
use whatsapp_cli.Common.Utf8.{Str, codes}
use whatsapp_cli.Common.Dict.{remove}
use whatsapp_cli.WaBinary.Node.{Node, attrs_of, get_attr}
use whatsapp_cli.Session.State.{
  Outside, FutureState, pending, cancelled, result, exception, InboundSession, Bucket, iq_bucket,
  ack_bucket, bucket_of, set_bucket, set_future, make_future, stop,
}
use whatsapp_cli.Session.Stanzas.{str_of}
use whatsapp_cli.Session.Handle.{send_node, handle, read_round, send_keepalive}

-- A call that waits: the bucket and key of its `finally`, and its future.
pub record Call : Type 0 where
  pub bucket : Bucket
  pub key : Str
  pub future : ℕ

-- What `await fut` gives once the future is done.
abbrev pub settled : FutureState → Option (Outcome Node)
settled (result n) = some (ok n)
settled (exception e) = some (raise e)
settled _ = none

module _ {W : Type 0} where
  -- `self._iq.pop(iq_id, None)` and `self._ack.pop(msg_id, None)`
  unfoldable pub pop : Bucket → Str → InboundSession W → InboundSession W
  pop b key s = set_bucket b (remove key (bucket_of b s)) s

  abbrev pub next_call : Bucket → Str → InboundSession W → Call
  next_call b key s = record { bucket = b; key = key; future = s.next_future }

  -- What `request_iq` does with the outcome of its send.
  abbrev pub after_send :
      Call → InboundSession W × Outcome (Unit {0}) → InboundSession W × Outcome Call
  after_send c (s, raise e) = (pop c.bucket c.key s, raise e)
  after_send c (s, ok u) = (s, ok c)

  -- `request_iq` up to its await
  unfoldable pub request_iq : Outside W → Node → InboundSession W → InboundSession W × Outcome Call
  unfolding make_future send_node pop
  request_iq o n s = elim (get_attr (codes "id") (attrs_of n)) [
    | none ↦ (s, raise key_error)
    | some v ↦
        let key = str_of o.repr v in
        after_send (next_call iq_bucket key s) (send_node o n (make_future iq_bucket key s))
  ]

  -- `wait_ack` up to its await
  unfoldable pub wait_ack : Str → InboundSession W → InboundSession W × Call
  unfolding make_future
  wait_ack msg_id s = (make_future ack_bucket msg_id s, next_call ack_bucket msg_id s)

  -- The rest of a call whose time is over.
  unfoldable pub time_out : Call → InboundSession W → InboundSession W
  unfolding pop
  time_out c s = pop c.bucket c.key (record s { futures = set_future s.futures c.future cancelled })

-- A session and the calls that wait.
pub record System (W : Type 0) : Type 0 where
  pub session : InboundSession W
  pub calls : List Call

-- What may happen next, in any order: a call starts, or is refused as it starts, or ends; the reader
-- takes a round; a stanza that came early is replayed; a keepalive is sent; the session is stopped.
pub data Step {W : Type 0} (o : Outside W) (t : System W) (u : System W) : Type 0 where
  request :
      (n : Node) (s : InboundSession W) (c : Call)
      → request_iq o n t.session ≡ (s, ok c)
      → u ≡ record { session = s; calls = c ∷ t.calls }
      → Step o t u
  refused :
      (n : Node) (s : InboundSession W) (e : Exc)
      → request_iq o n t.session ≡ (s, raise e)
      → u ≡ record { session = s; calls = t.calls }
      → Step o t u
  await_ack :
      (msg_id : Str)
      → u ≡ record {
        session = (wait_ack msg_id t.session).0;
        calls = (wait_ack msg_id t.session).1 ∷ t.calls;
      }
      → Step o t u
  resume :
      (before after : List Call) (c : Call) (outcome : Outcome Node)
      → t.calls ≡ before ++ c ∷ after
      → settled (t.session.futures c.future) ≡ some outcome
      → u ≡ record { session = pop c.bucket c.key t.session; calls = before ++ after }
      → Step o t u
  timeout :
      (before after : List Call) (c : Call)
      → t.calls ≡ before ++ c ∷ after
      → t.session.futures c.future ≡ pending
      → u ≡ record { session = time_out c t.session; calls = before ++ after }
      → Step o t u
  read : u ≡ record { session = (read_round o t.session).0; calls = t.calls } → Step o t u
  replay :
      (n : Node) → u ≡ record { session = (handle o n t.session).0; calls = t.calls } → Step o t u
  ping :
      (iq_id : Str)
      → u ≡ record { session = send_keepalive o iq_id t.session; calls = t.calls }
      → Step o t u
  close : u ≡ record { session = stop t.session; calls = t.calls } → Step o t u

pub data Reach {W : Type 0} (o : Outside W) (t : System W) : System W → Type 0 where
  here : Reach o t t
  next : {u v : System W} → Reach o t u → Step o u v → Reach o t v
