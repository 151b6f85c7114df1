-- ===== src/Session/Drain.antt =====
-- `drain` of wa/session.py. Times are milliseconds. `sleep` is what the other tasks of the event loop
-- do while this one sleeps, and `token` is `secrets.token_hex(4)`.
use whatsapp_cli.Common.{
  ℕ, zero, suc, ◌+◌, ◌-◌, ◌/◌, ◌*◌, ◌≤◌, ◌<◌, min, ◌≡◌, refl, ◌∙◌, Bool, true, false, ◌++◌, arith,
  ◌⊎◌, inl, inr,
}
use whatsapp_cli.Common.Tests.{leb, ltb, if◌then◌else◌, Bool-cases}
use whatsapp_cli.Common.Outcome.{Outcome, ok, raise, recursion_error}
use whatsapp_cli.Common.Utf8.{Str, codes}
use whatsapp_cli.WaBinary.Node.{Node}
use whatsapp_cli.Session.State.{Outside, InboundSession, make_future}
use whatsapp_cli.Session.Stanzas.{keepalive}
use whatsapp_cli.Session.Handle.{send_node, send_keepalive}

-- `KEEPALIVE_S`
abbrev pub keepalive_ms : ℕ
keepalive_ms = 20000

-- `max(0.05, min(wait, 0.25))`
unfoldable pub pause : ℕ → ℕ → ℕ → ℕ → ℕ → ℕ
pause idle deadline last_unsolicited last_ka now =
    let wait =
      min (idle + last_unsolicited - now) (min (deadline - now) (keepalive_ms + last_ka - now)) in
    let short = min wait 250 in if ltb short 50 then 50 else short

no_break :
    {A : Type 0} (a b c : Bool) (x y : A)
    → a ≡ false
    → b ≡ false
    → c ≡ false
    → (if a then x else if b then x else if c then x else y) ≡ y
no_break a b c x y ea eb ec = rw (ea, eb, ec) refl

module _ {W : Type 0} (o : Outside W) (sleep : ℕ → InboundSession W → InboundSession W)
    (token : InboundSession W → Str) where
  abbrev pub time_of : InboundSession W → ℕ
  time_of s = o.clock s.outside

  -- `now - last_ka >= KEEPALIVE_S`, and `last_ka` from then on
  abbrev pub due : ℕ → InboundSession W → Bool
  due last_ka s = leb (last_ka + keepalive_ms) (time_of s)

  abbrev pub next_ka : ℕ → InboundSession W → ℕ
  next_ka last_ka s = if due last_ka s then time_of s else last_ka

  -- The session after the keepalive, if one is due, and the sleep.
  unfoldable pub next_round : ℕ → ℕ → ℕ → InboundSession W → InboundSession W
  unfolding pause send_keepalive
  next_round deadline idle last_ka s =
      sleep (pause idle deadline s.last_unsolicited_ts (next_ka last_ka s) (time_of s))
        (if due last_ka s then send_keepalive o (codes "ka-" ++ token s) s else s)

  unfoldable pub drain_loop : ℕ → ℕ → ℕ → ℕ → InboundSession W → InboundSession W × Outcome ℕ
  unfolding next_round
  drain_loop zero deadline idle last_ka s = (s, raise recursion_error)
  drain_loop (suc rounds) deadline idle last_ka s =
      let rest =
        drain_loop rounds deadline idle (next_ka last_ka s) (next_round deadline idle last_ka s) in
      if s.disconnected
      then (s, ok s.frames_seen)
      else if leb deadline (time_of s)
      then (s, ok s.frames_seen)
      else if leb (s.last_unsolicited_ts + idle) (time_of s)
      then (s, ok s.frames_seen)
      else rest

  unfoldable pub drain : ℕ → ℕ → InboundSession W → InboundSession W × Outcome ℕ
  unfolding drain_loop
  drain seconds idle s =
      let started = time_of s in
      drain_loop (suc (seconds / 50 + 1)) (started + seconds) idle started
        (record s { last_unsolicited_ts = started })

  -- Why the loop may break.
  abbrev pub IsOver : ℕ → ℕ → InboundSession W → Type 0
  IsOver deadline idle s =
      (s.disconnected ≡ true)
      ⊎ ((deadline ≤ time_of s) ⊎ (s.last_unsolicited_ts + idle ≤ time_of s))

  abbrev pub Drained : ℕ → ℕ → InboundSession W × Outcome ℕ → Type 0
  Drained deadline idle m =
      (s : InboundSession W) × ((m ≡ (s, ok s.frames_seen)) × IsOver deadline idle s)

  module _ (slept : (n : ℕ) (s : InboundSession W) → time_of s + n ≤ time_of (sleep n s))
      (sent : (n : Node) (w : W) → o.clock w ≤ o.clock (o.send n w).0) where
    keepalive_later :
        (iq_id : Str) (s : InboundSession W) → time_of s ≤ time_of (send_keepalive o iq_id s)
    unfolding send_keepalive send_node make_future
    keepalive_later iq_id s = sent (keepalive iq_id) s.outside

    pause_long : (idle deadline last last_ka now : ℕ) → 50 ≤ pause idle deadline last last_ka now
    unfolding pause
    pause_long idle deadline last last_ka now = ground arith

    maybe_later :
        (due : Bool) (iq_id : Str) (s : InboundSession W)
        → time_of s ≤ time_of (if due then send_keepalive o iq_id s else s)
    maybe_later true iq_id s = keepalive_later iq_id s
    maybe_later false iq_id s = omega arith

    next_round_later :
        (deadline idle last_ka : ℕ) (s : InboundSession W)
        → time_of s + 50 ≤ time_of (next_round deadline idle last_ka s)
    unfolding next_round
    next_round_later deadline idle last_ka s =
        let n = pause idle deadline s.last_unsolicited_ts (next_ka last_ka s) (time_of s) in
        let iq_id = codes "ka-" ++ token s in
        let s' = if due last_ka s then send_keepalive o iq_id s else s in
        let long = pause_long idle deadline s.last_unsolicited_ts (next_ka last_ka s) (time_of s) in
        omega (arith, maybe_later (due last_ka s) iq_id s, slept n s', long)

    round_ends :
        (rounds deadline idle last_ka : ℕ) (s : InboundSession W)
        → (time_of s < deadline
            → Drained deadline idle (
                drain_loop rounds deadline idle
                  (next_ka last_ka s)
                  (next_round deadline idle last_ka s)))
        → Drained deadline idle (drain_loop (suc rounds) deadline idle last_ka s)
    unfolding drain_loop
    round_ends rounds deadline idle last_ka s go_on = elim (Bool-cases s.disconnected) [
      | inl e ↦ (s, (rw (e) refl, inl e))
      | inr e ↦ elim (Bool-cases (leb deadline (time_of s))) [
        | inl f ↦ (s, (rw (e, f) refl, inr (inl (ground arith))))
        | inr f ↦ elim (Bool-cases (leb (s.last_unsolicited_ts + idle) (time_of s))) [
          | inl g ↦ (s, (rw (e, f, g) refl, inr (inr (ground arith))))
          | inr g ↦
              let (s', (m, over)) = go_on (ground arith) in
              (s', (no_break s.disconnected _ _ _ _ e f g ∙ m, over))
        ]
      ]
    ]

    -- Each round takes 50 milliseconds or more.
    loop_ends :
        (rounds deadline idle last_ka : ℕ) (s : InboundSession W)
        → deadline ≤ time_of s + rounds * 50
        → Drained deadline idle (drain_loop (suc rounds) deadline idle last_ka s)
    loop_ends zero deadline idle last_ka s h =
        round_ends zero deadline idle last_ka s (λ before. absurd (omega arith))
    loop_ends (suc rounds) deadline idle last_ka s h =
        round_ends (suc rounds) deadline idle last_ka s (λ before.
          loop_ends rounds deadline idle (next_ka last_ka s) (next_round deadline idle last_ka s)
            (omega (arith, next_round_later deadline idle last_ka s)))

    -- If a sleep takes its time and a send does not turn the clock back, `drain` ends whatever the
    -- other tasks do meanwhile. It gives the number of frames that the session it leaves has seen, and
    -- that is disconnected, or the hard cap is reached, or nothing unsolicited came for the idle time.
    pub drain_ends :
        (seconds idle : ℕ) (s : InboundSession W)
        → Drained (time_of s + seconds) idle (drain seconds idle s)
    unfolding drain
    drain_ends seconds idle s =
        loop_ends (seconds / 50 + 1) (time_of s + seconds) idle (time_of s)
          (record s { last_unsolicited_ts = time_of s }) (omega arith)
