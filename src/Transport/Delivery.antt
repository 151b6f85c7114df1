-- ===== src/Transport/Delivery.antt =====
-- From `send` at one end to `frames()` at the other.
use whatsapp_cli.Common.{
  ◌≡◌, refl, sym, ap, ap₂, ◌∙◌, Bool, true, false, none, some, List, [], ◌∷◌, ◌++◌, map, arith,
  append_assoc, append-nil, map-append,
}
use whatsapp_cli.Common.Tests.{if◌then◌else◌}
use whatsapp_cli.Common.Lists.{length, length-append, All}
use whatsapp_cli.Common.Outcome.{Outcome, ok, raise, ◌>>=◌, returned_first}
use whatsapp_cli.Common.Utf8.{Bytes}
use whatsapp_cli.Transport.Framing.{feed}
use whatsapp_cli.Transport.Chunks.{feed-append, feed_two}
use whatsapp_cli.Transport.Frames.{framed, framed_all, Fits, encode_frame_ok, feed-framed_all}
use whatsapp_cli.Transport.Socket.{
  FrameSocket, WsMessage, binary, closing, put, put_all, pump_loop, read_pump, send, send_all,
  frames, FramesEnd, returned, wa_header, new_socket,
}

-- `b"".join(chunks)`
unfoldable pub join : List Bytes → Bytes
join [] = []
join (c ∷ cs) = c ++ join cs

abbrev pub IsParsed : Bytes → Type 0
IsParsed buf = feed buf [] ≡ ok ([], buf)

append_cancel : (fs gs : List Bytes) → fs ++ gs ≡ fs → gs ≡ []
append_cancel fs [] e = refl
append_cancel fs (g ∷ gs) e =
    absurd (omega (arith, length-append fs (g ∷ gs), ap (λ (t : List Bytes). length t) e))

feed_two_after :
    (buf chunk chunk' rest : Bytes) (fs : List Bytes) (o : Outcome (List Bytes × Bytes))
    → feed buf chunk ≡ ok (fs, rest)
    → feed rest chunk' ≡ o
    → feed_two buf chunk chunk' ≡ (o >>= λ q. ok (fs ++ q.0, q.1))
unfolding feed_two
feed_two_after buf chunk chunk' rest fs o h p = rw (h, p)

same_state :
    (buf rest rest' : Bytes) (fs gs : List Bytes)
    → feed buf [] ≡ ok (gs, rest')
    → ◌≡◌ {A = Outcome (List Bytes × Bytes)} (ok (fs ++ gs, rest')) (ok (fs, rest))
    → buf ≡ rest
    → IsParsed rest
same_state buf rest rest' fs gs p e b =
    let e0 : fs ++ gs ≡ fs = cc in let none_left = append_cancel fs gs e0 in cc

-- `feed` leaves nothing that another round would find.
pub feed-IsParsed :
    (buf chunk rest : Bytes) (fs : List Bytes) → feed buf chunk ≡ ok (fs, rest) → IsParsed rest
feed-IsParsed buf chunk rest fs h = go (feed rest []) refl
  where
    whole : feed_two buf chunk [] ≡ ok (fs, rest)
    whole = sym (feed-append buf chunk []) ∙ ap (feed buf) (append-nil chunk) ∙ h

    go : (o : Outcome (List Bytes × Bytes)) → feed rest [] ≡ o → IsParsed rest
    go (raise e) p = cc (whole, feed_two_after buf chunk [] rest fs (raise e) h p)
    go (ok (gs, rest')) p =
        same_state rest rest rest' fs gs p
          (sym (feed_two_after buf chunk [] rest fs (ok (gs, rest')) h p) ∙ whole) refl

put_all_incoming :
    (s : FrameSocket) (fs : List Bytes)
    → put_all s fs ≡ record s { incoming = s.incoming ++ map some fs }
unfolding put_all put
put_all_incoming s [] = ap (λ t. record s { incoming = t }) (sym (append-nil s.incoming))
put_all_incoming s (f ∷ fs) =
    put_all_incoming (put s (some f)) fs
    ∙ ap (λ t. record s { incoming = t }) (append_assoc s.incoming (some f ∷ []) (map some fs))

-- The state after frames `fs` have been queued and `buf` is left over.
abbrev queued : FrameSocket → List Bytes → Bytes → FrameSocket
queued s fs buf = record s { buf = buf; incoming = s.incoming ++ map some fs }

queued_none : (s : FrameSocket) → queued s [] s.buf ≡ s
queued_none s = ap (λ t. record s { incoming = t }) (append-nil s.incoming)

queued_twice :
    (s : FrameSocket) (fs gs : List Bytes) (buf buf' : Bytes)
    → queued (queued s fs buf) gs buf' ≡ queued s (fs ++ gs) buf'
queued_twice s fs gs buf buf' =
    ap (λ t. record s { buf = buf'; incoming = t })
      (append_assoc s.incoming (map some fs) (map some gs)
        ∙ ap (λ t. s.incoming ++ t) (sym (map-append some fs gs)))

pump_loop-binary :
    (s : FrameSocket) (chunk : Bytes) (rest : List WsMessage) (fs : List Bytes) (buf : Bytes)
    → feed s.buf chunk ≡ ok (fs, buf)
    → pump_loop s (binary chunk ∷ rest) ≡ pump_loop (queued s fs buf) rest
unfolding pump_loop
pump_loop-binary s chunk rest fs buf h =
    rw (h, pump_loop) (ap (λ t. pump_loop t rest) (put_all_incoming (record s { buf = buf }) fs))

pump_loop_closing :
    (s : FrameSocket) (rest : List WsMessage) → pump_loop s (closing ∷ rest) ≡ (s, ok tt)
unfolding pump_loop
pump_loop_closing s rest = refl

-- What feeding the rest of a stream must have given.
feed_two_rest :
    (buf chunk chunk' rest : Bytes) (fs gs : List Bytes) (end : Bytes)
    → feed buf chunk ≡ ok (gs, rest)
    → feed_two buf chunk chunk' ≡ ok (fs, end)
    → (hs : List Bytes) × (feed rest chunk' ≡ ok (hs, end)) × (gs ++ hs ≡ fs)
feed_two_rest buf chunk chunk' rest fs gs end h whole = go (feed rest chunk') refl
  where
    go :
        (o : Outcome (List Bytes × Bytes))
        → feed rest chunk' ≡ o
        → (hs : List Bytes) × (feed rest chunk' ≡ ok (hs, end)) × (gs ++ hs ≡ fs)
    go (raise e) p = absurd (cc (whole, feed_two_after buf chunk chunk' rest gs (raise e) h p))
    go (ok (hs, end')) p =
        let e = feed_two_after buf chunk chunk' rest gs (ok (hs, end')) h p in
        (hs, cc (whole, e, p), cc (whole, e))

feed_two_first :
    (buf chunk chunk' : Bytes) {p : List Bytes × Bytes}
    → feed_two buf chunk chunk' ≡ ok p
    → (q : List Bytes × Bytes) × (feed buf chunk ≡ ok q)
unfolding feed_two
feed_two_first buf chunk chunk' h = returned_first (feed buf chunk) _ h

-- The read loop over the chunks of a stream, up to a closing message: what it queues is what one
-- `feed` of the whole stream finds.
pump_loop-chunks :
    (chunks : List Bytes) (s : FrameSocket) (rest : List WsMessage) (fs : List Bytes) (buf : Bytes)
    → IsParsed s.buf
    → feed s.buf (join chunks) ≡ ok (fs, buf)
    → pump_loop s (map binary chunks ++ (closing ∷ rest)) ≡ (queued s fs buf, ok tt)
unfolding join
pump_loop-chunks [] s rest fs buf parsed h =
    let e : fs ≡ [] = cc (h, parsed) in
    let e' : buf ≡ s.buf = cc (h, parsed) in
    pump_loop_closing s rest
    ∙ ap (λ t. (t, ok tt)) (sym (ap₂ (λ f b. queued s f b) e e' ∙ queued_none s))
pump_loop-chunks (c ∷ cs) s rest fs buf parsed h =
    let whole = sym (feed-append s.buf c (join cs)) ∙ h in
    let ((gs, b), first) = feed_two_first s.buf c (join cs) whole in
    let (hs, second, e) = feed_two_rest s.buf c (join cs) b fs gs buf first whole in
    pump_loop-binary s c (map binary cs ++ (closing ∷ rest)) gs b first
    ∙ pump_loop-chunks cs (queued s gs b) rest hs buf (feed-IsParsed s.buf c b gs first) second
    ∙ ap (λ t. (t, ok tt)) (queued_twice s gs hs b buf ∙ ap (λ f. queued s f buf) e)

frames-sent : (fs : List Bytes) → frames (map some fs ++ (none ∷ [])) ≡ (fs, returned)
unfolding frames
frames-sent [] = refl
frames-sent (f ∷ fs) = ap (λ (t : List Bytes × FramesEnd). (f ∷ t.0, t.1)) (frames-sent fs)

incoming-read_pump :
    (on_disconnect : Bool) (s s' : FrameSocket) (messages : List WsMessage) (o : Outcome Unit)
    → pump_loop s messages ≡ (s', o)
    → (read_pump on_disconnect s messages).0.incoming ≡ s'.incoming ++ (none ∷ [])
unfolding read_pump
incoming-read_pump true s s' messages o h = rw h
incoming-read_pump false s s' messages o h = rw h

outcome-read_pump :
    (on_disconnect : Bool) (s s' : FrameSocket) (messages : List WsMessage) (o : Outcome Unit)
    → pump_loop s messages ≡ (s', o)
    → (read_pump on_disconnect s messages).1 ≡ o
unfolding read_pump
outcome-read_pump true s s' messages o h = rw h
outcome-read_pump false s s' messages o h = rw h

new-IsParsed : IsParsed []
new-IsParsed = unfold framed_all in feed-framed_all [] tt

-- However the WebSocket cuts the frames of some payloads into binary messages before it closes,
-- the read loop of a new socket returns and has queued those payloads in order and the sentinel, and
-- `frames()` yields the payloads and returns.
pub frames-read_pump :
    (on_disconnect : Bool) (chunks payloads : List Bytes) (rest : List WsMessage)
    → All Fits payloads
    → join chunks ≡ framed_all payloads
    → ((read_pump on_disconnect new_socket (map binary chunks ++ (closing ∷ rest))).1 ≡ ok tt)
      × (((read_pump on_disconnect new_socket (map binary chunks ++ (closing ∷ rest))).0.incoming
            ≡ map some payloads ++ (none ∷ []))
          × (frames
                (read_pump on_disconnect new_socket
                  (map binary chunks ++ (closing ∷ rest))).0.incoming
              ≡ (payloads, returned)))
frames-read_pump on_disconnect chunks payloads rest h cut =
    let whole = ap (feed []) cut ∙ feed-framed_all payloads h in
    let loop = pump_loop-chunks chunks new_socket rest payloads [] new-IsParsed whole in
    let queue = incoming-read_pump on_disconnect new_socket _ _ (ok tt) loop in
    (
      outcome-read_pump on_disconnect new_socket _ _ (ok tt) loop,
      (queue, ap frames queue ∙ frames-sent payloads),
    )

-- The bytes that the payloads become, with the connection header if it has not been sent.
abbrev pub stream : Bool → List Bytes → Bytes
stream sent [] = []
stream true payloads = framed_all payloads
stream false payloads = wa_header ++ framed_all payloads

join-append : (xs ys : List Bytes) → join (xs ++ ys) ≡ join xs ++ join ys
unfolding join
join-append [] ys = refl
join-append (x ∷ xs) ys =
    ap (λ t. x ++ t) (join-append xs ys) ∙ sym (append_assoc x (join xs) (join ys))

abbrev message : Bool → Bytes → Bytes
message sent p = if sent then framed p else wa_header ++ framed p

abbrev sent_one : FrameSocket → Bytes → FrameSocket
sent_one s p = record s { header_sent = true; outbox = s.outbox ++ (message s.header_sent p ∷ []) }

send_ok : (s : FrameSocket) (p : Bytes) → s.opened ≡ true → Fits p → send s p ≡ ok (sent_one s p)
unfolding send
send_ok s p h fits = rw (h, encode_frame_ok p fits)

stream-cons :
    (sent : Bool) (p : Bytes) (ps : List Bytes)
    → message sent p ++ stream true ps ≡ stream sent (p ∷ ps)
unfolding framed_all
stream-cons true p [] = refl
stream-cons true p (q ∷ ps) = refl
stream-cons false p [] = refl
stream-cons false p (q ∷ ps) = refl

join-sent_one :
    (s : FrameSocket) (p : Bytes)
    → join (sent_one s p).outbox ≡ join s.outbox ++ message s.header_sent p
join-sent_one s p =
    join-append s.outbox (message s.header_sent p ∷ [])
    ∙ ap (λ t. join s.outbox ++ t) (unfold join in append-nil (message s.header_sent p))

-- Sending payloads that fit, on an open socket, succeeds; the bytes that go out are their frames in
-- order, behind the connection header exactly if the socket has not sent it before.
pub send_all-stream :
    (s : FrameSocket) (payloads : List Bytes)
    → s.opened ≡ true
    → All Fits payloads
    → (s' : FrameSocket) × (send_all s payloads ≡ ok s')
      × (join s'.outbox ≡ join s.outbox ++ stream s.header_sent payloads)
unfolding send_all
send_all-stream s [] h fits = (s, refl, sym (append-nil (join s.outbox)))
send_all-stream s (p ∷ ps) h (hp, fits) =
    let (s', done, out) = send_all-stream (sent_one s p) ps h fits in
    (
      s',
      ap (λ m. m >>= λ t. send_all t ps) (send_ok s p h hp) ∙ done,
      out
          ∙ ap (λ t. t ++ stream true ps) (join-sent_one s p)
          ∙ append_assoc (join s.outbox) (message s.header_sent p) (stream true ps)
          ∙ ap (λ t. join s.outbox ++ t) (stream-cons s.header_sent p ps),
    )
