-- ===== src/Session/State.antt =====
-- The state of `InboundSession` in wa/session.py. Futures are objects that a bucket and a waiting
-- call share: a bucket holds references to them. What is outside of the session, of the type `W`,
-- is the socket and the Noise state, the clock and what `on_message` keeps.
use whatsapp_cli.Common.{none, some, ◌≡◌, ℕ, ◌+◌, Bool, true, false, Option, List, [], ◌∷◌}
use whatsapp_cli.Common.Tests.{◌==◌, if◌then◌else◌}
use whatsapp_cli.Common.Outcome.{Exc, Outcome, ok, ◌>>=◌, connection_error, returned_then}
use whatsapp_cli.Common.Utf8.{Bytes, Str}
use whatsapp_cli.Common.Dict.{Dict, insert, values}
use whatsapp_cli.WaBinary.Node.{Jid, Node, Value, default_user_server}
use whatsapp_cli.WaBinary.JidText.{parse}

-- The calls that leave the session: `fs.send(ns.encrypt_frame(encode_node(node)))`, `fs.recv`,
-- `decode_node(ns.decrypt_frame(ct))`, the handler of messages and the clock. `repr` is Python's text
-- of bytes and of lists of nodes.
pub record Outside (W : Type 0) : Type 0 where
  pub send : Node → W → W × Outcome (Unit {0})
  pub recv : W → W × Outcome Bytes
  pub open_frame : Bytes → W → W × Outcome Node
  pub on_message : Option (Node → W → W × Outcome (List Str))
  pub clock : W → ℕ
  pub repr : Value → Str

-- An `asyncio.Future`
pub data FutureState : Type 0 where
  pending cancelled : FutureState
  result : Node → FutureState
  exception : Exc → FutureState

abbrev pub is_done : FutureState → Bool
is_done pending = false
is_done _ = true

pub record InboundSession (W : Type 0) : Type 0 where
  pub outside : W
  pub own_pn : Jid
  pub own_lid : Option Jid
  pub iq : Dict ℕ
  pub ack : Dict ℕ
  pub futures : ℕ → FutureState
  pub next_future : ℕ
  pub stopped : Bool
  pub disconnected : Bool
  pub frames_seen : ℕ
  pub last_unsolicited_ts : ℕ

-- The two dicts of waiters.
pub data Bucket : Type 0 where
  iq_bucket ack_bucket : Bucket

abbrev pub set_future : (ℕ → FutureState) → ℕ → FutureState → ℕ → FutureState
set_future futures r state r' = if r' == r then state else futures r'

-- `if not fut.done(): fut.set_…(…)`
unfoldable pub settle : ℕ → FutureState → (ℕ → FutureState) → ℕ → FutureState
settle r state futures = if is_done (futures r) then futures else set_future futures r state

unfoldable pub settle_all : List ℕ → FutureState → (ℕ → FutureState) → ℕ → FutureState
settle_all [] state futures = futures
settle_all (r ∷ rs) state futures = settle_all rs state (settle r state futures)

module _ {W : Type 0} where
  abbrev pub bucket_of : Bucket → InboundSession W → Dict ℕ
  bucket_of iq_bucket s = s.iq
  bucket_of ack_bucket s = s.ack

  abbrev pub set_bucket : Bucket → Dict ℕ → InboundSession W → InboundSession W
  set_bucket iq_bucket d s = record s { iq = d }
  set_bucket ack_bucket d s = record s { ack = d }

  -- The reference of the new future is the number of those made before.
  unfoldable pub make_future : Bucket → Str → InboundSession W → InboundSession W
  make_future b key s =
      let r = s.next_future in
      set_bucket b (insert key r (bucket_of b s))
        (record s { futures = set_future s.futures r pending; next_future = r + 1 })

  unfoldable pub fail_waiters : Exc → InboundSession W → InboundSession W
  unfolding settle_all
  fail_waiters e s = record s {
    futures =
        settle_all (values s.ack) (exception e) (settle_all (values s.iq) (exception e) s.futures);
    iq = [];
    ack = [];
  }

  -- The state that `stop` leaves, the task being cancelled.
  unfoldable pub stop : InboundSession W → InboundSession W
  unfolding fail_waiters
  stop s = fail_waiters connection_error (record s { stopped = true })

-- `JID.parse(jid) if jid else default`
abbrev pub parse_or : {A : Type 0} → (Str → Outcome A) → Option Str → A → Outcome A
parse_or parse_jid none default = ok default
parse_or parse_jid (some []) default = ok default
parse_or parse_jid (some (c ∷ cs)) default = parse_jid (c ∷ cs)

abbrev pub fresh_session : {W : Type 0} → Jid → Option Jid → W → ℕ → InboundSession W
fresh_session own_pn own_lid w now = record {
  outside = w;
  own_pn = own_pn;
  own_lid = own_lid;
  iq = [];
  ack = [];
  futures = λ r. pending;
  next_future = 0;
  stopped = false;
  disconnected = false;
  frames_seen = 0;
  last_unsolicited_ts = now;
}

abbrev pub own_pn_of : (Str → Outcome ℕ) → Option Str → Outcome Jid
own_pn_of int_of device_jid =
    parse_or (parse int_of) device_jid
      (record { user = []; server = default_user_server; agent = 0; device = 0; integrator = 0 })

abbrev pub own_lid_of : (Str → Outcome ℕ) → Option Str → Outcome (Option Jid)
own_lid_of int_of device_lid = parse_or (λ s. parse int_of s >>= λ j. ok (some j)) device_lid none

-- `__init__`, for the device's JIDs, what is outside and the time
unfoldable pub new_session :
    {W : Type 0} (int_of : Str → Outcome ℕ)
    → Option Str
    → Option Str
    → W
    → ℕ
    → Outcome (InboundSession W)
new_session int_of device_jid device_lid w now = do
  own_pn ← own_pn_of int_of device_jid
  own_lid ← own_lid_of int_of device_lid
  ok (fresh_session own_pn own_lid w now)

pub new_session-fresh_session :
    {W : Type 0} (int_of : Str → Outcome ℕ) (device_jid device_lid : Option Str) (w : W) (now : ℕ)
    (s : InboundSession W)
    → new_session int_of device_jid device_lid w now ≡ ok s
    → (own_pn : Jid) × (own_lid : Option Jid) × (fresh_session own_pn own_lid w now ≡ s)
unfolding new_session
new_session-fresh_session int_of device_jid device_lid w now s h =
    let (own_pn, (_, h')) = returned_then (own_pn_of int_of device_jid) _ h in
    let (own_lid, (_, h'')) = returned_then (own_lid_of int_of device_lid) _ h' in
    (own_pn, own_lid, cc h'')
