-- ===== src/Session/Ends.antt =====
-- The two ways in which a session of wa/session.py ends, and that each leaves no call pending.
use whatsapp_cli.Common.{◌≡◌, refl, sym, ap, ◌∙◌, true}
use whatsapp_cli.Common.Outcome.{raise, connection_error}
use whatsapp_cli.Session.State.{
  Outside, FutureState, pending, is_done, InboundSession, fail_waiters, stop,
}
use whatsapp_cli.Session.Handle.{after_recv, read_round}
use whatsapp_cli.Session.Calls.{Call}
use whatsapp_cli.Session.Closing.{
  Waits, Kept-Waits, fail_waiters_done, stopped-Waits, disconnected-Waits,
}

done_unless_pending : (state : FutureState) → (state ≡ pending → ⊥) → is_done state ≡ true
done_unless_pending pending never = absurd (never refl)
done_unless_pending _ never = refl

module _ {W : Type 0} (o : Outside W) where
  -- A session ends when it is stopped, or when its reader finds the connection closed.
  pub data Ends (s : InboundSession W) : InboundSession W → Type 0 where
    by_stop : Ends s (stop s)
    by_close : (w : W) → o.recv s.outside ≡ (w, raise connection_error) → Ends s (read_round o s).0

  closed_round :
      (s : InboundSession W) (w : W)
      → o.recv s.outside ≡ (w, raise connection_error)
      → (read_round o s).0
        ≡ fail_waiters connection_error (record s { outside = w; disconnected = true })
  unfolding read_round after_recv
  closed_round s w h = rw (h, after_recv) refl

  fails :
      (s s' : InboundSession W) (c : Call)
      → Waits s c
      → Ends s s'
      → s'.futures c.future ≡ pending
      → ⊥
  unfolding stop
  fails s s' c waits by_stop p =
      fail_waiters_done connection_error (record s { stopped = true }) c (stopped-Waits o s c waits)
        p
  fails s s' c waits (by_close w h) p =
      let left = record s { outside = w } in
      fail_waiters_done connection_error (record left { disconnected = true }) c
        (disconnected-Waits o left c (Kept-Waits s left c (w, refl) waits))
        (ap (λ (t : InboundSession W). t.futures c.future) (sym (closed_round s w h)) ∙ p)

  pub Ends-done :
      (s s' : InboundSession W) (c : Call)
      → Waits s c
      → Ends s s'
      → is_done (s'.futures c.future) ≡ true
  Ends-done s s' c waits end = done_unless_pending _ (fails s s' c waits end)
