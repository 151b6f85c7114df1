-- ===== src/Protobuf/Lookup.antt =====
-- Looking up a field in the dict that `decode_fields` returns, and messages of a few fields.
use whatsapp_cli.Common.{
  ℕ, ◌≤◌, ◌<◌, ◌^◌, ◌≡◌, refl, sym, ap, ◌∙◌, Option, none, some, List, [], ◌∷◌, ◌++◌, arith,
  append_assoc, append-nil,
}
use whatsapp_cli.Common.Tests.{◌==◌, if◌then◌else◌}
use whatsapp_cli.Common.Lists.{length, length-append, All}
use whatsapp_cli.Common.Outcome.{ok}
use whatsapp_cli.Common.Utf8.{Bytes}
use whatsapp_cli.Protobuf.Writer.{length_delim, varint, tag}
use whatsapp_cli.Protobuf.Reader.{Value, int, raw, Fields, get, append_value, decode_fields}
use whatsapp_cli.Protobuf.RoundTrip.{
  Field, IsField, encode_field, encode_fields, collect, decode_fields-encode_fields,
}

-- The values of one field number, in wire order.
unfoldable pub values : ℕ → List Field → List Value
values f [] = []
values f ((n, v) ∷ fs) = if n == f then v ∷ values f fs else values f fs

-- A key is there exactly if it has a value.
unfoldable pub extend : Option (List Value) → List Value → Option (List Value)
extend none [] = none
extend none (v ∷ vs) = some (v ∷ vs)
extend (some us) vs = some (us ++ vs)

get-append_value :
    (f n : ℕ) (v : Value) (out : Fields)
    → get f (append_value n v out) ≡ (if n == f then extend (get f out) (v ∷ []) else get f out)
unfolding get append_value extend
get-append_value f n v [] = ground arith
get-append_value f n v ((m, us) ∷ out) = ground (arith, get-append_value f n v out)

extend-extend :
    (o : Option (List Value)) (v : Value) (vs : List Value)
    → extend (extend o (v ∷ [])) vs ≡ extend o (v ∷ vs)
unfolding extend
extend-extend none v vs = refl
extend-extend (some us) v vs = ap some (append_assoc us (v ∷ []) vs)

extend-nil : (o : Option (List Value)) → extend o [] ≡ o
unfolding extend
extend-nil none = refl
extend-nil (some us) = ap some (append-nil us)

get-collect :
    (f : ℕ) (fs : List Field) (out : Fields)
    → get f (collect fs out) ≡ extend (get f out) (values f fs)
unfolding collect values
get-collect f [] out = sym (extend-nil (get f out))
get-collect f ((n, v) ∷ fs) out = ground (
  arith,
  get-collect f fs (append_value n v out),
  get-append_value f n v out,
  extend-extend (get f out) v (values f fs),
)

-- In the dict read back from what the builders wrote, each field number has the values written
-- under it, in their order, and a number that was not written has no entry.
pub decode_fields_lookup :
    (fs : List Field)
    → All IsField fs
    → (out : Fields) × (decode_fields (encode_fields fs) ≡ ok out)
      × ((f : ℕ) → get f out ≡ extend none (values f fs))
decode_fields_lookup fs h =
    (collect fs [], decode_fields-encode_fields fs h, λ f. unfold get in get-collect f fs [])

pub encode_fields-append :
    (fs gs : List Field) → encode_fields (fs ++ gs) ≡ encode_fields fs ++ encode_fields gs
unfolding encode_fields
encode_fields-append [] gs = refl
encode_fields-append (f ∷ fs) gs =
    ap (λ t. encode_field f ++ t) (encode_fields-append fs gs)
    ∙ sym (append_assoc (encode_field f) (encode_fields fs) (encode_fields gs))

-- A nested message is no longer than the field that holds it.
pub length-length_delim : (f : ℕ) (body : Bytes) → length body ≤ length (length_delim f body)
unfolding length_delim
length-length_delim f body = omega (
  arith,
  length-append (tag f 2) (varint (length body) ++ body),
  length-append (varint (length body)) body,
)

-- Field numbers and numbers that the wire can carry, whatever the lengths.
abbrev pub IsNumbered : Field → Type 0
IsNumbered (f, int n) = (f < 2 ^ 61) × (n < 2 ^ 64)
IsNumbered (f, raw body) = f < 2 ^ 61

length-encode_field : (f : ℕ) (body : Bytes) → length body ≤ length (encode_field (f, raw body))
unfolding encode_field
length-encode_field = length-length_delim

fields_fit :
    (fs : List Field) → All IsNumbered fs → length (encode_fields fs) < 2 ^ 64 → All IsField fs
unfolding encode_fields
fields_fit [] h fits = tt
fields_fit ((f, int n) ∷ fs) (hf, h) fits = (
  hf,
  fields_fit fs h (omega (arith, length-append (encode_field (f, int n)) (encode_fields fs))),
)
fields_fit ((f, raw body) ∷ fs) (hf, h) fits =
    let len = length-append (encode_field (f, raw body)) (encode_fields fs) in
    ((hf, omega (arith, len, length-encode_field f body)), fields_fit fs h (omega (arith, len)))

-- A message below 2 ^ 64 bytes reads back, since all that it nests is shorter.
pub decode_message :
    (fs : List Field)
    → All IsNumbered fs
    → length (encode_fields fs) < 2 ^ 64
    → decode_fields (encode_fields fs) ≡ ok (collect fs [])
decode_message fs h fits = decode_fields-encode_fields fs (fields_fit fs h fits)

-- A field inside a message is no longer than the message.
pub length-encode_fields_head :
    (f : ℕ) (body : Bytes) (fs : List Field)
    → length body ≤ length (encode_fields ((f, raw body) ∷ fs))
unfolding encode_fields
length-encode_fields_head f body fs = omega (
  arith,
  length-append (encode_field (f, raw body)) (encode_fields fs),
  length-encode_field f body,
)

pub length-encode_fields_tail :
    (f : Field) (fs : List Field) → length (encode_fields fs) ≤ length (encode_fields (f ∷ fs))
unfolding encode_fields
length-encode_fields_tail f fs = omega (arith, length-append (encode_field f) (encode_fields fs))
