-- ===== src/SessionExamples.antt =====
-- The theorems on the live session at concrete inputs.
use whatsapp_cli.Common.{ℕ, ◌+◌, ◌≡◌, refl, true, none, some, List, [], ◌∷◌, ◌++◌, arith}
use whatsapp_cli.Common.Outcome.{Outcome, ok, raise, value_error, timeout_error}
use whatsapp_cli.Common.Utf8.{Str, codes, same_bytes}
use whatsapp_cli.Common.Dict.{lookup, insert}
use whatsapp_cli.WaBinary.JidText.{split_first, split_last, parse_agent, parse_user, parse}
use whatsapp_cli.WaBinary.Node.{Jid, Node, node, no_attrs, attr, null, text, jid, get_attr, attr_or}
use whatsapp_cli.Session.State.{
  Outside, pending, InboundSession, iq_bucket, settle, make_future, stop, is_done, new_session,
  fresh_session,
}
use whatsapp_cli.Session.Stanzas.{has_tag, str_of, id_of}
use whatsapp_cli.Session.Handle.{send_node, waiter, handle}
use whatsapp_cli.Session.Promised.{Promised, handle_owed}
use whatsapp_cli.Session.Calls.{
  Call, settled, request_iq, System, Step, request, replay, Reach, here, next,
}
use whatsapp_cli.Session.Runs.{alone, answers_its_call}
use whatsapp_cli.Session.Ends.{by_stop}
use whatsapp_cli.Session.Ending.{FreshRun, start, step, end_reaches_every_call}
use whatsapp_cli.Session.Drain.{Drained, drain, drain_ends}

-- The clock, which each send moves, and what was sent
abbrev Desk : Type 0
Desk = ℕ × List Node

abbrev desk : Outside Desk
desk = record {
  send = λ n w. ((w.0 + 1, w.1 ++ (n ∷ [])), ok tt);
  recv = λ w. (w, raise timeout_error);
  open_frame = λ ct w. (w, raise value_error);
  on_message = some (λ n w. (w, ok (codes "hist_sync" ∷ [])));
  clock = λ w. w.0;
  repr = λ v. [];
}

abbrev no_int : Str → Outcome ℕ
no_int s = raise value_error

abbrev own_jid : Jid
own_jid = record {
  user = codes "49";
  server = codes "s.whatsapp.net";
  agent = 0;
  device = 0;
  integrator = 0;
}

abbrev at_start : InboundSession Desk
at_start = fresh_session own_jid none (5, []) 5

new_session_start :
    new_session no_int (some (codes "49@s.whatsapp.net")) none (5, []) 5 ≡ ok at_start
unfolding new_session parse parse_user parse_agent split_first split_last same_bytes
new_session_start = refl

abbrev query : Node
query = node (codes "iq") (attr (codes "id") (text (codes "q1")) no_attrs) null

abbrev answer : Node
answer =
    node (codes "iq")
      (attr (codes "type") (text (codes "result")) (attr (codes "id") (text (codes "q1")) no_attrs))
      null

abbrev asking : InboundSession Desk
asking = record at_start {
  outside = (6, query ∷ []);
  iq = (codes "q1", 0) ∷ [];
  next_future = 1;
  futures = λ r. pending;
}

abbrev q1 : Call
q1 = record { bucket = iq_bucket; key = codes "q1"; future = 0 }

abbrev asked_system : System Desk
asked_system = record { session = (request_iq desk query at_start).0; calls = q1 ∷ [] }

abbrev answered_system : System Desk
answered_system = record {
  session = (handle desk answer (request_iq desk query at_start).0).0;
  calls = q1 ∷ [];
}

request_q1 : request_iq desk query at_start ≡ ((request_iq desk query at_start).0, ok q1)
unfolding request_iq get_attr same_bytes make_future send_node str_of insert
request_q1 = refl

abbrev asks : Step desk (alone desk at_start) asked_system
asks = request query (request_iq desk query at_start).0 q1 request_q1 refl

run_to_answer : Reach desk (alone desk at_start) answered_system
run_to_answer = next (next here asks) (replay answer refl)

answer_arrived : settled (answered_system.session.futures q1.future) ≡ some (ok answer)
unfolding request_iq get_attr same_bytes make_future send_node str_of insert handle waiter id_of
    attr_or lookup settle
answer_arrived = refl

answers_its_call_example :
    (has_tag answer (codes "iq") ≡ true) × (id_of desk.repr answer ≡ codes "q1")
answers_its_call_example =
    answers_its_call desk no_int (some (codes "49@s.whatsapp.net")) none (5, []) 5 at_start
      answered_system [] [] q1 answer new_session_start run_to_answer refl answer_arrived

fresh_run : FreshRun desk (alone desk at_start) asked_system
fresh_run = step start asks (λ v h. tt)

end_reaches_every_call_example : is_done ((stop asked_system.session).futures q1.future) ≡ true
end_reaches_every_call_example =
    end_reaches_every_call desk no_int (some (codes "49@s.whatsapp.net")) none (5, []) 5 at_start
      (stop asked_system.session) asked_system [] [] q1 new_session_start fresh_run refl by_stop

-- Our phone echoes a message of ours.
abbrev echo : Node
echo =
    node (codes "message")
      (attr (codes "id") (text (codes "m1")) (
        attr (codes "from") (jid own_jid) (attr (codes "category") (text (codes "peer")) no_attrs)))
      null

handle_owed_example : Promised desk echo at_start (handle desk echo at_start)
handle_owed_example = handle_owed desk echo at_start

-- Nothing arrives while the task sleeps.
abbrev rest_of : ℕ → InboundSession Desk → InboundSession Desk
rest_of n s = record s { outside = (s.outside.0 + n, s.outside.1) }

drain_ends_example :
    Drained desk rest_of
      (λ s. codes "00")
      6005
      1000
      (drain desk rest_of (λ s. codes "00") 6000 1000 at_start)
drain_ends_example =
    drain_ends desk rest_of (λ s. codes "00") (λ n s. omega arith) (λ n w. omega arith) 6000 1000
      at_start
