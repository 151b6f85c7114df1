-- ===== src/Protobuf/Reader.antt =====
-- wa/pbutil.py: the schema-free protobuf reader. A dict of field numbers is an association list in
-- insertion order.
use whatsapp_cli.Common.{
  ℕ, zero, suc, ◌+◌, ◌*◌, ◌/◌, ◌%◌, ◌^◌, bit_or, bit_and, Option, none, some, List, [], ◌∷◌, ◌++◌,
}
use whatsapp_cli.Common.Tests.{◌==◌, ltb, leb, if◌then◌else◌}
use whatsapp_cli.Common.Lists.{length, get_elem?, slice}
use whatsapp_cli.Common.Outcome.{
  Outcome, ok, raise, ◌>>=◌, index_error, value_error, recursion_error,
}
use whatsapp_cli.Common.Utf8.{Bytes}

-- A value is an int or bytes.
pub data Value : Type 0 where
  int : ℕ → Value
  raw : Bytes → Value

abbrev pub Fields : Type 0
Fields = List (ℕ × List Value)

abbrev pub wire_varint : ℕ
wire_varint = 0

abbrev pub wire_64bit : ℕ
wire_64bit = 1

abbrev pub wire_len_delim : ℕ
wire_len_delim = 2

abbrev pub wire_32bit : ℕ
wire_32bit = 5

-- `data[i]`
unfoldable pub byte_at : Bytes → ℕ → Outcome ℕ
byte_at bytes i = elim (get_elem? bytes i) [ none ↦ raise index_error | some b ↦ ok b ]

-- `int.from_bytes(bytes, "little")`
unfoldable pub from_little : Bytes → ℕ
from_little [] = 0
from_little (b ∷ bs) = b + 256 * from_little bs

-- One more byte and the next shift; ten rounds bring the shift to 70, where the code raises.
unfoldable pub read_varint_loop : ℕ → Bytes → ℕ → ℕ → ℕ → Outcome (ℕ × ℕ)
read_varint_loop zero bytes i result shift = raise recursion_error
read_varint_loop (suc rounds) bytes i result shift = do
  b ← byte_at bytes i
  let result' = bit_or result (b % 128 * 2 ^ shift)
  let more = read_varint_loop rounds bytes (i + 1) result' (shift + 7)
  if bit_and b 0x80 == 0
      then ok (result', i + 1)
      else if leb 64 (shift + 7)
      then raise value_error
      else more

unfoldable pub read_varint : Bytes → ℕ → Outcome (ℕ × ℕ)
read_varint bytes i = read_varint_loop 10 bytes i 0 0

-- `out.setdefault(field, []).append(v)`
unfoldable pub append_value : ℕ → Value → Fields → Fields
append_value field v [] = (field, v ∷ []) ∷ []
append_value field v ((f, vs) ∷ out) =
    let rest = append_value field v out in
    if f == field then (f, vs ++ (v ∷ [])) ∷ out else (f, vs) ∷ rest

-- The value behind a tag, by its wire type.
unfoldable pub read_value : ℕ → Bytes → ℕ → Outcome (Value × ℕ)
read_value wire bytes i =
    if wire == wire_varint
    then (do (v, j) ← read_varint bytes i; ok (int v, j))
    else if wire == wire_64bit
    then ok (int (from_little (slice bytes i (i + 8))), i + 8)
    else if wire == wire_len_delim
    then (do (length, j) ← read_varint bytes i; ok (raw (slice bytes j (j + length)), j + length))
    else if wire == wire_32bit
    then ok (int (from_little (slice bytes i (i + 4))), i + 4)
    else raise value_error

unfoldable pub decode_loop : ℕ → Bytes → ℕ → Fields → Outcome Fields
decode_loop zero bytes i out = if ltb i (length bytes) then raise recursion_error else ok out
decode_loop (suc fuel) bytes i out =
    if ltb i (length bytes)
    then (do
      (tag, j) ← read_varint bytes i
      (v, k) ← read_value (tag % 8) bytes j
      decode_loop fuel bytes k (append_value (tag / 2 ^ 3) v out))
    else ok out

-- Every field takes a byte at least, so as many rounds as bytes are enough.
unfoldable pub decode_fields : Bytes → Outcome Fields
decode_fields bytes = decode_loop (length bytes) bytes 0 []

-- `fields.get(field)`
unfoldable pub get : ℕ → Fields → Option (List Value)
get field [] = none
get field ((f, vs) ∷ out) = if f == field then some vs else get field out
