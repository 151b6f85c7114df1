-- ===== src/Transport/Framing.antt =====
-- `FrameParser` and `encode_frame` of wa/transport/framesocket.py. The parser's state is its buffer.
use whatsapp_cli.Common.{
  ℕ, zero, suc, ◌+◌, ◌*◌, ◌/◌, ◌%◌, ◌^◌, bit_or, Option, none, some, List, [], ◌∷◌, ◌++◌,
}
use whatsapp_cli.Common.Tests.{ltb, leb, if◌then◌else◌}
use whatsapp_cli.Common.Lists.{length, slice, drop}
use whatsapp_cli.Common.Outcome.{Outcome, ok, raise, value_error, recursion_error}
use whatsapp_cli.Common.Utf8.{Bytes}

abbrev pub frame_len_bytes : ℕ
frame_len_bytes = 3

abbrev pub frame_max_size : ℕ
frame_max_size = 2 ^ 24

-- The length prefix, once three bytes are buffered.
unfoldable pub prefix_length : Bytes → Option ℕ
prefix_length (b0 ∷ b1 ∷ b2 ∷ rest) = some (bit_or (bit_or (b0 * 2 ^ 16) (b1 * 2 ^ 8)) b2)
prefix_length _ = none

-- The `while True` loop of `feed`. Every frame takes three bytes at least, so one round more than
-- there are bytes is enough.
unfoldable pub parse_loop : ℕ → Bytes → List Bytes → Outcome (List Bytes × Bytes)
parse_loop zero buf frames = raise recursion_error
parse_loop (suc rounds) buf frames = elim (prefix_length buf) [
  | none ↦ ok (frames, buf)
  | some length' ↦
      if ltb frame_max_size length'
      then raise value_error
      else let total = frame_len_bytes + length' in
        let frame = slice buf frame_len_bytes total in
        let more = parse_loop rounds (drop total buf) (frames ++ (frame ∷ [])) in
        if ltb (length buf) total then ok (frames, buf) else more
]

-- The frames that are complete, and the new buffer.
unfoldable pub feed : Bytes → Bytes → Outcome (List Bytes × Bytes)
feed buf chunk = let buf' = buf ++ chunk in parse_loop (length buf' + 1) buf' []

unfoldable pub encode_frame : Bytes → Outcome Bytes
encode_frame payload =
    let n = length payload in
    if leb frame_max_size n
    then raise value_error
    else ok ((n / 2 ^ 16 % 256) ∷ (n / 2 ^ 8 % 256) ∷ (n % 256) ∷ payload)
