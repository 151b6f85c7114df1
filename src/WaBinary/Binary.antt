-- ===== src/WaBinary/Binary.antt =====
-- Reading back the byte strings that wa/wabinary/encoder.py writes with their length.
use whatsapp_cli.Common.{
  ℕ, suc, ◌+◌, ◌-◌, ◌*◌, ◌/◌, ◌%◌, ◌^◌, ◌≤◌, ◌<◌, bit_or, bit_and, ◌≡◌, refl, ap, ◌∙◌, Bool, false,
  [], ◌∷◌, ◌++◌, arith, inl, inr, append_assoc,
}
use whatsapp_cli.Common.Tests.{ltb, Bool-cases}
use whatsapp_cli.Common.Lists.{length, length-append, drop, take, slice, drop_past, take-append}
use whatsapp_cli.Common.Bits.{shifted_bit_or, bit_and_0x0f}
use whatsapp_cli.Common.Outcome.{ok}
use whatsapp_cli.Common.Utf8.{Bytes}
use whatsapp_cli.WaBinary.Tokens.{binary_8, binary_20, binary_32}
use whatsapp_cli.WaBinary.Node.{Value, blob}
use whatsapp_cli.WaBinary.Packing.{read_u8_at}
use whatsapp_cli.WaBinary.Encoder.{
  push_u16_be, push_u20_be, push_u32_be, write_byte_length, write_bytes,
}
use whatsapp_cli.WaBinary.Decoder.{
  read_u16_be, read_u20_be, read_u32_be, kind_of, read_binary, next_value, read_kind, read_value,
}

-- Reading a value at `enc` gives `v` and moves behind it.
abbrev pub Reads : ℕ → Bool → Bytes → Value → Type 0
Reads depth as_string enc v =
    (bytes : Bytes) (pos : ℕ) (rest : Bytes)
    → drop pos bytes ≡ enc ++ rest
    → next_value (read_value bytes depth) bytes as_string pos ≡ ok (v, pos + length enc)

-- The tag at a position decides.
pub next_value_at :
    (depth : ℕ) (as_string : Bool) (bytes : Bytes) (pos tag : ℕ) (rest : Bytes)
    → drop pos bytes ≡ tag ∷ rest
    → next_value (read_value bytes (suc depth)) bytes as_string pos
      ≡ read_kind (read_value bytes depth) bytes (kind_of tag) as_string tag (pos + 1)
unfolding next_value
next_value_at depth as_string bytes pos tag rest h =
    rw (read_u8_at bytes pos tag rest h) (unfold read_value in refl)

pub slice_at :
    (bytes body rest : Bytes) (j : ℕ)
    → drop j bytes ≡ body ++ rest
    → slice bytes j (j + length body) ≡ body
slice_at bytes body rest j h =
    let same : j + length body - j ≡ length body = omega arith in
    ap (λ k. take k (drop j bytes)) same ∙ ap (λ t. take (length body) t) h ∙ take-append body rest

pub read_u16_be-push_u16_be :
    (v : ℕ) (bytes : Bytes) (pos : ℕ) (rest : Bytes)
    → drop pos bytes ≡ push_u16_be v ++ rest
    → read_u16_be bytes pos ≡ (v % 2 ^ 16, pos + 2)
unfolding read_u16_be
read_u16_be-push_u16_be v bytes pos rest h =
    let value : (0 * 256 + v / 2 ^ 8 % 256) * 256 + v % 256 ≡ v % 2 ^ 16 = omega arith in
    rw (slice_at bytes (push_u16_be v) rest pos h) (ap (λ (n : ℕ). (n, pos + 2)) value)

read_u32_be-push_u32_be :
    (v : ℕ) (bytes : Bytes) (pos : ℕ) (rest : Bytes)
    → v < 2 ^ 32
    → drop pos bytes ≡ push_u32_be v ++ rest
    → read_u32_be bytes pos ≡ (v, pos + 4)
unfolding read_u32_be
read_u32_be-push_u32_be v bytes pos rest small h =
    let value : (((0 * 256 + v / 2 ^ 24 % 256) * 256 + v / 2 ^ 16 % 256) * 256 + v / 2 ^ 8 % 256)
            * 256
          + v % 256
        ≡ v =
      omega arith in
    rw (slice_at bytes (push_u32_be v) rest pos h) (ap (λ (n : ℕ). (n, pos + 4)) value)

twenty_bits :
    (v : ℕ)
    → v < 2 ^ 20
    → bit_or (bit_or (bit_and (v / 2 ^ 16 % 16) 0x0f * 2 ^ 16) (v / 2 ^ 8 % 256 * 2 ^ 8)) (v % 256)
      ≡ v
twenty_bits v h =
    let high : bit_and (v / 2 ^ 16 % 16) 0x0f ≡ v / 2 ^ 16 =
      bit_and_0x0f (v / 2 ^ 16 % 16) (omega arith) ∙ omega arith in
    let middle : bit_or (v / 2 ^ 16 * 2 ^ 16) (v / 2 ^ 8 % 256 * 2 ^ 8) ≡ v / 2 ^ 8 * 2 ^ 8 =
      shifted_bit_or 16 (v / 2 ^ 16) (v / 2 ^ 8 % 256 * 2 ^ 8) (omega arith) ∙ omega arith in
    rw high (rw middle (shifted_bit_or 8 (v / 2 ^ 8) (v % 256) (omega arith) ∙ omega arith))

read_u20_be-push_u20_be :
    (v : ℕ) (bytes : Bytes) (pos : ℕ) (rest : Bytes)
    → v < 2 ^ 20
    → drop pos bytes ≡ push_u20_be v ++ rest
    → read_u20_be bytes pos ≡ ok (v, pos + 3)
unfolding read_u20_be
read_u20_be-push_u20_be v bytes pos rest small h =
    let b0 = v / 2 ^ 16 % 16 in
    let b1 = v / 2 ^ 8 % 256 in
    let b2 = v % 256 in
    let far : pos + 1 + 1 + 1 ≡ pos + 3 = omega arith in
    let h1 : drop (pos + 1) bytes ≡ b1 ∷ b2 ∷ rest =
      drop_past pos bytes (b0 ∷ []) (b1 ∷ b2 ∷ rest) h in
    let h2 : drop (pos + 1 + 1) bytes ≡ b2 ∷ rest =
      drop_past (pos + 1) bytes (b1 ∷ []) (b2 ∷ rest) h1 in
    rw (read_u8_at bytes pos b0 (b1 ∷ b2 ∷ rest) h) (
      rw (read_u8_at bytes (pos + 1) b1 (b2 ∷ rest) h1) (
        rw (read_u8_at bytes (pos + 1 + 1) b2 rest h2)
          (rw far (ap (λ (n : ℕ). ok (n, pos + 3)) (twenty_bits v small)))))

-- A length as it is written, and that the reader then takes as many bytes from behind it.
record Measured (n : ℕ) : Type 0 where
  start : Bytes
  written : write_byte_length n ≡ ok start
  some_bytes : 2 ≤ length start
  reads :
      (depth : ℕ) (as_string : Bool) (bytes : Bytes) (pos : ℕ) (rest : Bytes)
      → drop pos bytes ≡ start ++ rest
      → next_value (read_value bytes (suc depth)) bytes as_string pos
        ≡ read_binary as_string bytes (n, pos + length start)

Measured-short : (n : ℕ) → n < 256 → Measured n
Measured-short n h = record {
  start = binary_8 ∷ (n % 256) ∷ [];
  written = unfold write_byte_length in ground arith;
  some_bytes = omega arith;
  reads = λ depth as_string bytes pos rest here.
      let here' = drop_past pos bytes (binary_8 ∷ []) ((n % 256) ∷ rest) here in
      let same : n % 256 ≡ n = omega arith in
      let far : pos + 1 + 1 ≡ pos + 2 = omega arith in
      next_value_at depth as_string bytes pos binary_8 ((n % 256) ∷ rest) here
      ∙ (unfold read_kind kind_of in
          rw (read_u8_at bytes (pos + 1) (n % 256) rest here') (rw (same, far) refl));
}

Measured-middle : (n : ℕ) → 256 ≤ n → n < 2 ^ 20 → Measured n
Measured-middle n low h = record {
  start = binary_20 ∷ push_u20_be n;
  written = unfold write_byte_length in ground arith;
  some_bytes = omega arith;
  reads = λ depth as_string bytes pos rest here.
      let here' = drop_past pos bytes (binary_20 ∷ []) (push_u20_be n ++ rest) here in
      let far : pos + 1 + 3 ≡ pos + 4 = omega arith in
      next_value_at depth as_string bytes pos binary_20 (push_u20_be n ++ rest) here
      ∙ (unfold read_kind kind_of in
          rw (read_u20_be-push_u20_be n bytes (pos + 1) rest h here') (rw far refl));
}

Measured-long : (n : ℕ) → 2 ^ 20 ≤ n → n < 2 ^ 31 → Measured n
Measured-long n low h = record {
  start = binary_32 ∷ push_u32_be n;
  written = unfold write_byte_length in ground arith;
  some_bytes = omega arith;
  reads = λ depth as_string bytes pos rest here.
      let here' = drop_past pos bytes (binary_32 ∷ []) (push_u32_be n ++ rest) here in
      let far : pos + 1 + 4 ≡ pos + 5 = omega arith in
      next_value_at depth as_string bytes pos binary_32 (push_u32_be n ++ rest) here
      ∙ (unfold read_kind kind_of in
          rw (read_u32_be-push_u32_be n bytes (pos + 1) rest (omega arith) here') (rw far refl));
}

measured : (n : ℕ) → n < 2 ^ 31 → Measured n
measured n h = elim (Bool-cases (ltb n 256)) [
  | inl short ↦ Measured-short n (ground arith)
  | inr long ↦ elim (Bool-cases (ltb n (2 ^ 20))) [
    | inl middle ↦ Measured-middle n (ground arith) (ground arith)
    | inr longer ↦ Measured-long n (ground arith) h
  ]
]

-- Byte strings below 2 ^ 31 bytes are written, and read back as bytes where bytes are wanted.
pub record WrittenBytes (body : Bytes) : Type 0 where
  pub enc : Bytes
  pub written : write_bytes body ≡ ok enc
  pub some_bytes : 1 ≤ length enc
  pub reads :
      (depth : ℕ) (as_string : Bool) (v : Value)
      → ((bytes : Bytes) (pos : ℕ)
          → slice bytes pos (pos + length body) ≡ body
          → read_binary as_string bytes (length body, pos) ≡ ok (v, pos + length body))
      → Reads (suc depth) as_string enc v

pub written_bytes : (body : Bytes) → length body < 2 ^ 31 → WrittenBytes body
written_bytes body h =
    let m = measured (length body) h in
    record {
      enc = m.start ++ body;
      written = unfold write_bytes in rw m.written refl;
      some_bytes = omega (arith, length-append m.start body, m.some_bytes);
      reads = λ depth as_string v binary bytes pos rest here.
          let here' : drop pos bytes ≡ m.start ++ (body ++ rest) =
            here ∙ append_assoc m.start body rest in
          let pos' = pos + length m.start in
          let far : pos' + length body ≡ pos + length (m.start ++ body) =
            omega (arith, length-append m.start body) in
          m.reads depth as_string bytes pos (body ++ rest) here'
          ∙ binary bytes pos'
              (slice_at bytes body rest pos' (drop_past pos bytes m.start (body ++ rest) here'))
          ∙ ap (λ (k : ℕ). ok (v, k)) far;
    }

pub read_binary_blob :
    (body bytes : Bytes) (pos : ℕ)
    → slice bytes pos (pos + length body) ≡ body
    → read_binary false bytes (length body, pos) ≡ ok (blob body, pos + length body)
unfolding read_binary
read_binary_blob body bytes pos h = ap (λ (b : Bytes). ok (blob b, pos + length body)) h
