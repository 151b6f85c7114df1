-- ===== src/Transport/Socket.antt =====
-- `FrameSocket` of wa/transport/framesocket.py: its state, and its operations as explicit state
-- passing. The WebSocket is a list of messages that it will deliver and a list of those it was given.
use whatsapp_cli.Common.{ℕ, ◌+◌, Bool, true, false, Option, none, some, List, [], ◌∷◌, ◌++◌}
use whatsapp_cli.Common.Tests.{if◌then◌else◌}
use whatsapp_cli.Common.Outcome.{
  Outcome, ok, raise, ◌>>=◌, assertion_error, runtime_error, connection_error, timeout_error,
}
use whatsapp_cli.Common.Utf8.{Bytes}
use whatsapp_cli.Transport.Framing.{feed, encode_frame}

-- `b'WA' || 0x06 || DICT_VERSION`
abbrev pub wa_header : Bytes
wa_header = 87 ∷ 65 ∷ 6 ∷ 3 ∷ []

-- `opened` says whether `_ws` is set, and `outbox` lists what `send_bytes` was given.
pub record FrameSocket : Type 0 where
  pub opened : Bool
  pub buf : Bytes
  pub header_sent : Bool
  pub incoming : List (Option Bytes)
  pub outbox : List Bytes
  pub disconnects : ℕ

abbrev pub new_socket : FrameSocket
new_socket = record {
  opened = false;
  buf = [];
  header_sent = false;
  incoming = [];
  outbox = [];
  disconnects = 0;
}

unfoldable pub connect : FrameSocket → Outcome FrameSocket
connect s = if s.opened then raise runtime_error else ok (record s { opened = true })

-- `close` drops the connection and keeps the parser, the queue and `_header_sent`.
unfoldable pub close : FrameSocket → FrameSocket
close s = record s { opened = false }

unfoldable pub put : FrameSocket → Option Bytes → FrameSocket
put s frame = record s { incoming = s.incoming ++ (frame ∷ []) }

unfoldable pub put_all : FrameSocket → List Bytes → FrameSocket
unfolding put
put_all s [] = s
put_all s (frame ∷ frames) = put_all (put s (some frame)) frames

-- A message of the WebSocket, by its type.
pub data WsMessage : Type 0 where
  binary : Bytes → WsMessage
  closing : WsMessage
  other : WsMessage

-- The `async for` of `_read_pump`. It ends at a CLOSE, CLOSED or ERROR message, where the stream
-- does, or by what `feed` raises, which it does on no bytes (Transport/Frames.antt).
unfoldable pub pump_loop : FrameSocket → List WsMessage → FrameSocket × Outcome (Unit {0})
pump_loop s [] = (s, ok tt)
pump_loop s (closing ∷ rest) = (s, ok tt)
pump_loop s (other ∷ rest) = pump_loop s rest
pump_loop s (binary chunk ∷ rest) = elim (feed s.buf chunk) [
  | raise e ↦ (record s { buf = s.buf ++ chunk }, raise e)
  | ok (frames, buf) ↦ pump_loop (put_all (record s { buf = buf }) frames) rest
]

-- The `finally` part: the sentinel, and the callback if there is one.
unfoldable pub read_pump : Bool → FrameSocket → List WsMessage → FrameSocket × Outcome (Unit {0})
unfolding put
read_pump on_disconnect s messages =
    let (s', result) = pump_loop s messages in
    let s'' = put s' none in
    (if on_disconnect then record s'' { disconnects = s''.disconnects + 1 } else s'', result)

unfoldable pub send : FrameSocket → Bytes → Outcome FrameSocket
send s payload =
    if s.opened
    then (do
      buf ← encode_frame payload
      let message = if s.header_sent then buf else wa_header ++ buf
      ok (record s { header_sent = true; outbox = s.outbox ++ (message ∷ []) }))
    else raise assertion_error

unfoldable pub send_all : FrameSocket → List Bytes → Outcome FrameSocket
send_all s [] = ok s
send_all s (p ∷ ps) = do s' ← send s p; send_all s' ps

-- `recv` with a queue in which nothing more arrives before the timeout.
unfoldable pub take_from : List (Option Bytes) → FrameSocket → Outcome Bytes × FrameSocket
take_from [] s = (raise timeout_error, s)
take_from (none ∷ rest) s = (raise connection_error, record s { incoming = rest })
take_from (some frame ∷ rest) s = (ok frame, record s { incoming = rest })

unfoldable pub recv : FrameSocket → Outcome Bytes × FrameSocket
unfolding take_from
recv s = take_from s.incoming s

-- How the generator of `frames()` stands: it has returned, or it waits for the queue.
pub data FramesEnd : Type 0 where
  returned waiting : FramesEnd

-- What `frames()` yields from a queue, and how it stands then: it returns at the sentinel only.
unfoldable pub frames : List (Option Bytes) → List Bytes × FramesEnd
frames [] = ([], waiting)
frames (none ∷ rest) = ([], returned)
frames (some frame ∷ rest) = let (yielded, end) = frames rest in (frame ∷ yielded, end)
