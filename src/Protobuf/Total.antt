-- ===== src/Protobuf/Total.antt =====
-- `decode_fields` of wa/pbutil.py on any bytes: how far each step goes, and how it can fail.
use whatsapp_cli.Common.{
  ℕ, zero, suc, ◌+◌, ◌*◌, ◌/◌, ◌%◌, ◌^◌, ◌≤◌, ◌<◌, bit_or, bit_and, ◌≡◌, ◌⊎◌, inl, inr, some, [],
  ◌∷◌, arith,
}
use whatsapp_cli.Common.Tests.{◌==◌, leb, if◌then◌else◌, Option-cases}
use whatsapp_cli.Common.Lists.{length, get_elem?}
use whatsapp_cli.Common.Outcome.{Exc, ok, raise, index_error, value_error, Outcome-cases}
use whatsapp_cli.Common.Utf8.{Bytes}
use whatsapp_cli.Protobuf.Reader.{
  Value, Fields, byte_at, read_varint_loop, read_varint, read_value, append_value, decode_loop,
  decode_fields,
}

abbrev pub IsParseError : Exc → Type 0
IsParseError e = (e ≡ index_error) ⊎ (e ≡ value_error)

get_elem?-lt-length : (xs : Bytes) (i b : ℕ) → get_elem? xs i ≡ some b → i < length xs
get_elem?-lt-length [] i b h = cc
get_elem?-lt-length (x ∷ xs) zero b h = omega arith
get_elem?-lt-length (x ∷ xs) (suc i) b h = omega (arith, get_elem?-lt-length xs i b h)

byte_at-lt-length : (bytes : Bytes) (i b : ℕ) → byte_at bytes i ≡ ok b → i < length bytes
unfolding byte_at
byte_at-lt-length bytes i b h = elim (Option-cases (get_elem? bytes i)) [
  | inl e ↦ cc (rw (e, byte_at) at h)
  | inr (c, e) ↦ get_elem?-lt-length bytes i c e
]

byte_at_error : (bytes : Bytes) (i : ℕ) (e : Exc) → byte_at bytes i ≡ raise e → e ≡ index_error
unfolding byte_at
byte_at_error bytes i e h = ground arith

-- One round, split on the byte that it reads.
read_varint_loop_round :
    (rounds : ℕ) (bytes : Bytes) (i result shift b : ℕ)
    → byte_at bytes i ≡ ok b
    → read_varint_loop (suc rounds) bytes i result shift ≡ (
        if bit_and b 0x80 == 0
        then ok (bit_or result (b % 128 * 2 ^ shift), i + 1)
        else if leb 64 (shift + 7)
        then raise value_error
        else read_varint_loop rounds bytes
            (i + 1)
            (bit_or result (b % 128 * 2 ^ shift))
            (shift + 7))
unfolding read_varint_loop
read_varint_loop_round rounds bytes i result shift b h = rw h

read_varint_loop_stop :
    (rounds : ℕ) (bytes : Bytes) (i result shift : ℕ) (e : Exc)
    → byte_at bytes i ≡ raise e
    → read_varint_loop (suc rounds) bytes i result shift ≡ raise e
unfolding read_varint_loop
read_varint_loop_stop rounds bytes i result shift e h = rw h

read_varint_loop_moves :
    (rounds : ℕ) (bytes : Bytes) (i result shift n j : ℕ)
    → read_varint_loop rounds bytes i result shift ≡ ok (n, j)
    → (i < j) × (j ≤ length bytes) × (j ≤ i + rounds)
read_varint_loop_moves zero bytes i result shift n j h = unfold read_varint_loop in cc h
read_varint_loop_moves (suc rounds) bytes i result shift n j h =
    elim (Outcome-cases (byte_at bytes i)) [
      | inl (e, stop) ↦ cc (read_varint_loop_stop rounds bytes i result shift e stop)
      | inr (b, here) ↦ ground (
        arith,
        read_varint_loop_round rounds bytes i result shift b here,
        byte_at-lt-length bytes i b here,
        read_varint_loop_moves rounds bytes (i + 1) (bit_or result (b % 128 * 2 ^ shift))
            (shift + 7) n j,
      )
    ]

-- Ten rounds always come to an end of the code's own: a last byte, a missing byte, or "too long".
read_varint_loop_error :
    (rounds : ℕ) (bytes : Bytes) (i result shift : ℕ) (e : Exc)
    → 0 < rounds
    → 64 ≤ shift + 7 * rounds
    → read_varint_loop rounds bytes i result shift ≡ raise e
    → IsParseError e
read_varint_loop_error zero bytes i result shift e some_left long h = absurd (omega arith)
read_varint_loop_error (suc rounds) bytes i result shift e some_left long h =
    elim (Outcome-cases (byte_at bytes i)) [
      | inl (e', stop) ↦ ground (
        arith,
        read_varint_loop_stop rounds bytes i result shift e' stop,
        byte_at_error bytes i e' stop,
      )
      | inr (b, here) ↦ ground (
        arith,
        read_varint_loop_round rounds bytes i result shift b here,
        read_varint_loop_error rounds bytes (i + 1) (bit_or result (b % 128 * 2 ^ shift))
            (shift + 7) e,
      )
    ]

-- A varint takes one to ten bytes, all of them inside the buffer.
pub read_varint_moves :
    (bytes : Bytes) (i n j : ℕ)
    → read_varint bytes i ≡ ok (n, j)
    → (i < j) × (j ≤ length bytes) × (j ≤ i + 10)
unfolding read_varint
read_varint_moves bytes i n j h = read_varint_loop_moves 10 bytes i 0 0 n j h

read_varint_error :
    (bytes : Bytes) (i : ℕ) (e : Exc) → read_varint bytes i ≡ raise e → IsParseError e
unfolding read_varint
read_varint_error bytes i e h =
    read_varint_loop_error 10 bytes i 0 0 e (omega arith) (omega arith) h

read_value_moves :
    (wire : ℕ) (bytes : Bytes) (i : ℕ) (v : Value) (j : ℕ)
    → read_value wire bytes i ≡ ok (v, j)
    → i ≤ j
unfolding read_value
read_value_moves wire bytes i v j h = elim (Outcome-cases (read_varint bytes i)) [
  | inl (e, stop) ↦ ground (arith, stop)
  | inr ((n, k), here) ↦ ground (arith, here, read_varint_moves bytes i n k)
]

read_value_error :
    (wire : ℕ) (bytes : Bytes) (i : ℕ) (e : Exc)
    → read_value wire bytes i ≡ raise e
    → IsParseError e
unfolding read_value
read_value_error wire bytes i e h = elim (Outcome-cases (read_varint bytes i)) [
  | inl (e', stop) ↦ ground (arith, stop, read_varint_error bytes i e' stop)
  | inr ((n, k), here) ↦ ground (arith, here)
]

decode_loop_error :
    (fuel : ℕ) (bytes : Bytes) (i : ℕ) (out : Fields) (e : Exc)
    → length bytes ≤ i + fuel
    → decode_loop fuel bytes i out ≡ raise e
    → IsParseError e
unfolding decode_loop
decode_loop_error zero bytes i out e enough h = ground arith
decode_loop_error (suc fuel) bytes i out e enough h = elim (Outcome-cases (read_varint bytes i)) [
  | inl (e', stop) ↦ ground (arith, stop, read_varint_error bytes i e' stop)
  | inr ((t, j), tag) ↦ elim (Outcome-cases (read_value (t % 8) bytes j)) [
    | inl (e', stop) ↦ ground (arith, tag, stop, read_value_error (t % 8) bytes j e' stop)
    | inr ((v, k), value) ↦ ground (
      arith,
      tag,
      value,
      read_varint_moves bytes i t j tag,
      read_value_moves (t % 8) bytes j v k value,
      decode_loop_error fuel bytes k (append_value (t / 2 ^ 3) v out) e,
    )
  ]
]

-- On every input `decode_fields` ends by itself, and what it can raise is IndexError or ValueError:
-- the rounds given to its loop never run out.
pub decode_fields_error : (bytes : Bytes) (e : Exc) → decode_fields bytes ≡ raise e → IsParseError e
unfolding decode_fields
decode_fields_error bytes e h = decode_loop_error (length bytes) bytes 0 [] e (omega arith) h
