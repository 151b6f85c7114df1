-- ===== src/Protobuf/RoundTrip.antt =====
-- `decode_fields` of wa/pbutil.py on what the builders of wa/peerreq.py wrote.
use whatsapp_cli.Common.{
  ℕ, zero, suc, ◌+◌, ◌-◌, ◌*◌, ◌/◌, ◌%◌, ◌^◌, ◌≤◌, ◌<◌, ◌≡◌, refl, ap, ap₂, ◌∙◌, List, [], ◌∷◌,
  ◌++◌, arith, append_assoc,
}
use whatsapp_cli.Common.Tests.{lt→ltb}
use whatsapp_cli.Common.Lists.{
  length, length-append, take-append, drop, drop_past, below_length, past_end, slice, All,
}
use whatsapp_cli.Common.Bits.{shifted_bit_or}
use whatsapp_cli.Common.Outcome.{ok}
use whatsapp_cli.Common.Utf8.{Bytes}
use whatsapp_cli.Protobuf.Writer.{varint, tag, length_delim, varint_field}
use whatsapp_cli.Protobuf.Reader.{
  Value, int, raw, Fields, read_varint, read_value, append_value, decode_loop, decode_fields,
}
use whatsapp_cli.Protobuf.Varint.{read_varint-varint, length-varint}

-- One field of a message, as the builders write it.
abbrev pub Field : Type 0
Field = ℕ × Value

unfoldable pub encode_field : Field → Bytes
encode_field (field_num, int n) = varint_field field_num n
encode_field (field_num, raw body) = length_delim field_num body

unfoldable pub encode_fields : List Field → Bytes
encode_fields [] = []
encode_fields (f ∷ fs) = encode_field f ++ encode_fields fs

-- What the wire can carry: 64-bit tags, numbers and lengths.
abbrev pub IsFieldValue : Value → Type 0
IsFieldValue (int n) = n < 2 ^ 64
IsFieldValue (raw body) = length body < 2 ^ 64

abbrev pub IsField : Field → Type 0
IsField (field_num, v) = (field_num < 2 ^ 61) × IsFieldValue v

-- The dict that the fields make, in order.
unfoldable pub collect : List Field → Fields → Fields
collect [] out = out
collect ((field_num, v) ∷ fs) out = collect fs (append_value field_num v out)

abbrev wire_of : Value → ℕ
wire_of (int n) = 0
wire_of (raw body) = 2

abbrev payload : Value → Bytes
payload (int n) = varint n
payload (raw body) = varint (length body) ++ body

encode_field_parts :
    (field_num : ℕ) (v : Value)
    → encode_field (field_num, v) ≡ varint (field_num * 8 + wire_of v) ++ payload v
unfolding encode_field varint_field length_delim tag
encode_field_parts field_num (int n) =
    ap (λ t. varint t ++ varint n) (shifted_bit_or 3 field_num 0 (omega arith))
encode_field_parts field_num (raw body) =
    ap (λ t. varint t ++ (varint (length body) ++ body))
      (shifted_bit_or 3 field_num 2 (omega arith))

slice-drop :
    (bytes body rest : Bytes) (j : ℕ)
    → drop j bytes ≡ body ++ rest
    → slice bytes j (j + length body) ≡ body
slice-drop bytes body rest j h =
    let e : j + length body - j ≡ length body = omega arith in rw e (rw h (take-append body rest))

read_value-payload :
    (v : Value) (bytes : Bytes) (i : ℕ) (rest : Bytes)
    → drop i bytes ≡ payload v ++ rest
    → IsFieldValue v
    → read_value (wire_of v) bytes i ≡ ok (v, i + length (payload v))
read_value-payload (int n) bytes i rest here fits =
    unfold read_value in rw (read_varint-varint bytes i n rest here fits)
read_value-payload (raw body) bytes i rest here fits =
    let here' : drop i bytes ≡ varint (length body) ++ (body ++ rest) =
      here ∙ append_assoc (varint (length body)) body rest in
    let j = i + length (varint (length body)) in
    unfold read_value in
    rw (read_varint-varint bytes i (length body) (body ++ rest) here' fits) (
      rw
        (slice-drop bytes body rest j
          (drop_past i bytes (varint (length body)) (body ++ rest) here'))
        (ground (arith, length-append (varint (length body)) body)))

wire_mod : (f : ℕ) (v : Value) → (f * 8 + wire_of v) % 8 ≡ wire_of v
wire_mod f (int n) = omega arith
wire_mod f (raw body) = omega arith

wire_div : (f : ℕ) (v : Value) → (f * 8 + wire_of v) / 8 ≡ f
wire_div f (int n) = omega arith
wire_div f (raw body) = omega arith

wire_fits : (f : ℕ) (v : Value) → f < 2 ^ 61 → f * 8 + wire_of v < 2 ^ 64
wire_fits f (int n) h = omega arith
wire_fits f (raw body) h = omega arith

-- One round of the loop.
decode_loop_step :
    (fuel : ℕ) (bytes : Bytes) (i j k t : ℕ) (v : Value) (out : Fields)
    → i < length bytes
    → read_varint bytes i ≡ ok (t, j)
    → read_value (t % 8) bytes j ≡ ok (v, k)
    → decode_loop (suc fuel) bytes i out ≡ decode_loop fuel bytes k (append_value (t / 2 ^ 3) v out)
decode_loop_step fuel bytes i j k t v out more e e' =
    unfold decode_loop in rw (lt→ltb i (length bytes) more) (rw e (rw e'))

decode_loop_end :
    (fuel : ℕ) (bytes : Bytes) (i : ℕ) (out : Fields)
    → length bytes ≤ i
    → decode_loop fuel bytes i out ≡ ok out
unfolding decode_loop
decode_loop_end zero bytes i out h = ground arith
decode_loop_end (suc fuel) bytes i out h = ground arith

decode_loop_field :
    (fuel : ℕ) (bytes : Bytes) (i field_num : ℕ) (v : Value) (rest : Bytes) (out : Fields)
    → drop i bytes ≡ encode_field (field_num, v) ++ rest
    → IsField (field_num, v)
    → decode_loop (suc fuel) bytes i out
      ≡ decode_loop fuel bytes
          (i + length (encode_field (field_num, v)))
          (append_value field_num v out)
decode_loop_field fuel bytes i field_num v rest out here (low, fits) =
    let t = field_num * 8 + wire_of v in
    let e = encode_field_parts field_num v in
    let j = i + length (varint t) in
    let here' : drop i bytes ≡ varint t ++ (payload v ++ rest) =
      here ∙ ap (λ (xs : Bytes). xs ++ rest) e ∙ append_assoc (varint t) (payload v) rest in
    let wire : t % 8 ≡ wire_of v = wire_mod field_num v in
    let field : t / 2 ^ 3 ≡ field_num = wire_div field_num v in
    let len : length (encode_field (field_num, v)) ≡ length (varint t) + length (payload v) =
      ap length e ∙ length-append (varint t) (payload v) in
    let stop : j + length (payload v) ≡ i + length (encode_field (field_num, v)) =
      omega (arith, len) in
    let value : read_value (t % 8) bytes j ≡ ok (v, j + length (payload v)) = rw wire (
      read_value-payload v bytes j rest (drop_past i bytes (varint t) (payload v ++ rest) here')
        fits) in
    decode_loop_step fuel bytes i j (j + length (payload v)) t v out
      (below_length i bytes (varint t) (payload v ++ rest) here' (length-varint t).0)
      (read_varint-varint bytes i t (payload v ++ rest) here' (wire_fits field_num v low)) value
    ∙ ap₂ (λ (f k : ℕ). decode_loop fuel bytes k (append_value f v out)) field stop

encode_fields_longer :
    (f : ℕ) (v : Value) (fs : List Field)
    → length (encode_fields fs) < length (encode_fields ((f, v) ∷ fs))
unfolding encode_fields
encode_fields_longer f v fs = omega (
  arith,
  length-append (encode_field (f, v)) (encode_fields fs),
  ap (λ (t : Bytes). length t) (encode_field_parts f v),
  length-append (varint (f * 8 + wire_of v)) (payload v),
  length-varint (f * 8 + wire_of v),
)

decode_loop-encode_fields :
    (fs : List Field) (fuel : ℕ) (bytes : Bytes) (i : ℕ) (out : Fields)
    → drop i bytes ≡ encode_fields fs
    → length (encode_fields fs) ≤ fuel
    → All IsField fs
    → decode_loop fuel bytes i out ≡ ok (collect fs out)
unfolding collect
decode_loop-encode_fields [] fuel bytes i out here enough h =
    decode_loop_end fuel bytes i out (past_end i bytes (unfold encode_fields in here))
decode_loop-encode_fields ((f, v) ∷ fs) zero bytes i out here enough h =
    absurd (omega (arith, encode_fields_longer f v fs))
decode_loop-encode_fields ((f, v) ∷ fs) (suc fuel) bytes i out here enough (hf, hfs) =
    let here' : drop i bytes ≡ encode_field (f, v) ++ encode_fields fs =
      unfold encode_fields in here in
    decode_loop_field fuel bytes i f v (encode_fields fs) out here' hf
    ∙ decode_loop-encode_fields fs fuel bytes _ (append_value f v out)
        (drop_past i bytes (encode_field (f, v)) (encode_fields fs) here')
        (omega (arith, encode_fields_longer f v fs)) hfs

-- Decoding what the builders wrote gives the dict of its fields, in wire order.
pub decode_fields-encode_fields :
    (fs : List Field) → All IsField fs → decode_fields (encode_fields fs) ≡ ok (collect fs [])
unfolding decode_fields
decode_fields-encode_fields fs h =
    decode_loop-encode_fields fs _ (encode_fields fs) 0 [] refl (omega arith) h
