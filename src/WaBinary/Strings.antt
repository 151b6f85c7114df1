-- ===== src/WaBinary/Strings.antt =====
-- Reading back the strings that wa/wabinary/encoder.py writes: tokens, packed strings, raw text.
use whatsapp_cli.Common.{
  ℕ, suc, ◌+◌, ◌-◌, ◌%◌, ◌^◌, ◌≤◌, ◌<◌, ◌≡◌, refl, ap, ◌∙◌, Bool, true, false, none, some, List, [],
  ◌∷◌, ◌++◌, arith, inl, inr, String,
}
use whatsapp_cli.Common.Tests.{if◌then◌else◌, Bool-cases, Option-cases}
use whatsapp_cli.Common.Lists.{length, get_elem?, drop, slice, drop_past}
use whatsapp_cli.Common.Outcome.{Outcome, ok, raise}
use whatsapp_cli.Common.Utf8.{Bytes, Str, IsText, utf8_encode, utf8_decode-utf8_encode}
use whatsapp_cli.WaBinary.Tokens.{
  dictionary_first, hex_8, nibble_8, single_byte_tokens, double_byte_tokens, token_at,
  single_byte_index, double_byte_index, single_byte_index_sound, double_byte_index_sound,
}
use whatsapp_cli.WaBinary.Node.{Value, text, blob}
use whatsapp_cli.WaBinary.Packed.{
  in_nibble_alphabet, in_hex_alphabet, valid_packed, pack_nibble, pack_hex, write_packed,
  unpack_nibble, unpack_hex, read_u8, read_packed,
}
use whatsapp_cli.WaBinary.Packing.{
  nibble-IsPacking, hex-IsPacking, read_packed-write_packed, read_u8_at,
}
use whatsapp_cli.WaBinary.Encoder.{write_string, write_untokened, write_string_raw}
use whatsapp_cli.WaBinary.Decoder.{
  single_token, dictionary, kind_of, read_token, read_pair, read_binary, read_string, next_string,
  next_value, read_kind, read_value,
}
use whatsapp_cli.WaBinary.Binary.{Reads, next_value_at, written_bytes, read_binary_blob}

-- What a string is read as where bytes are wanted: text without a token that no packing fits comes
-- back as the bytes of its UTF-8.
unfoldable pub wire_text : Str → Value
wire_text s = elim (single_byte_index s) [
  | some i ↦ text s
  | none ↦ elim (double_byte_index s) [
    | some p ↦ text s
    | none ↦
        if valid_packed in_nibble_alphabet s
        then text s
        else if valid_packed in_hex_alphabet s
        then text s
        else blob (utf8_encode s)
  ]
]

-- A string that can be written.
abbrev pub IsWritable : Str → Type 0
IsWritable s = IsText s × (length (utf8_encode s) < 2 ^ 31)

-- How a string is written, and what it is read as.
pub record WrittenString (writer : Str → Outcome Bytes) (s : Str) (content : Value) : Type 0 where
  pub enc : Bytes
  pub written : writer s ≡ ok enc
  pub some_bytes : 1 ≤ length enc
  pub as_text : (depth : ℕ) → Reads (suc depth) true enc (text s)
  pub as_content : (depth : ℕ) → Reads (suc depth) false enc content

kind_of_single : (i : ℕ) → 1 ≤ i → i ≤ 235 → kind_of i ≡ single_token
unfolding kind_of
kind_of_single i h h' = ground arith

kind_of_dictionary : (d : ℕ) → d ≤ 3 → kind_of (236 + d) ≡ dictionary
unfolding kind_of
kind_of_dictionary d h = ground arith

read_token_at :
    (toks : List String) (i : ℕ) (s : Str)
    → token_at toks i ≡ some s
    → read_token toks i ≡ ok (text s)
unfolding read_token
read_token_at toks i s h = rw (h, read_token) refl

read_pair_at :
    (d i : ℕ) (dict : List String) (s : Str)
    → get_elem? double_byte_tokens d ≡ some dict
    → token_at dict i ≡ some s
    → read_pair d i ≡ ok (text s)
unfolding read_pair
read_pair_at d i dict s h h' = rw (h, read_pair) (read_token_at dict i s h')

read_single :
    (s : Str) (i depth : ℕ) (as_string : Bool)
    → single_byte_index s ≡ some i
    → Reads (suc depth) as_string ((i % 256) ∷ []) (text s)
read_single s i depth as_string e bytes pos rest here =
    let (positive, small, token) = single_byte_index_sound s i e in
    let same : i % 256 ≡ i = omega arith in
    let here' : drop pos bytes ≡ i ∷ rest = here ∙ ap (λ (k : ℕ). k ∷ rest) same in
    next_value_at depth as_string bytes pos i rest here'
    ∙ (rw (kind_of_single i positive small)
        (unfold read_kind in rw (read_token_at single_byte_tokens i s token) refl))

read_double :
    (s : Str) (d i depth : ℕ) (as_string : Bool)
    → double_byte_index s ≡ some (d, i)
    → Reads (suc depth) as_string (((dictionary_first + d) % 256) ∷ (i % 256) ∷ []) (text s)
read_double s d i depth as_string e bytes pos rest here =
    let (small, small', dict, there, token) = double_byte_index_sound s d i e in
    let same : (dictionary_first + d) % 256 ≡ 236 + d = omega arith in
    let same' : i % 256 ≡ i = omega arith in
    let here' : drop pos bytes ≡ (236 + d) ∷ i ∷ rest =
      here
      ∙ ap (λ (k : ℕ). k ∷ (i % 256) ∷ rest) same
      ∙ ap (λ (k : ℕ). (236 + d) ∷ k ∷ rest) same' in
    let next =
      read_u8_at bytes (pos + 1) i rest (drop_past pos bytes ((236 + d) ∷ []) (i ∷ rest) here') in
    let index : 236 + d - dictionary_first ≡ d = omega arith in
    let far : pos + 1 + 1 ≡ pos + 2 = omega arith in
    next_value_at depth as_string bytes pos (236 + d) (i ∷ rest) here'
    ∙ (rw (kind_of_dictionary d small) (
        unfold read_kind in
        rw next (rw (index, far) (rw (read_pair_at d i dict s there token) refl))))

module _ (s : Str) where
  single_written :
      (i : ℕ) → single_byte_index s ≡ some i → WrittenString write_string s (wire_text s)
  single_written i e = record {
    enc = (i % 256) ∷ [];
    written = unfold write_string in rw (e, write_string) refl;
    some_bytes = omega arith;
    as_text = λ depth. read_single s i depth true e;
    as_content = λ depth. unfold wire_text in rw (e, wire_text) (read_single s i depth false e);
  }

  double_written :
      (d i : ℕ)
      → single_byte_index s ≡ none
      → double_byte_index s ≡ some (d, i)
      → WrittenString write_string s (wire_text s)
  double_written d i e e' = record {
    enc = ((dictionary_first + d) % 256) ∷ (i % 256) ∷ [];
    written = unfold write_string in rw (e, write_string) (rw e' refl);
    some_bytes = omega arith;
    as_text = λ depth. read_double s d i depth true e';
    as_content =
        λ depth. unfold wire_text in rw (e, wire_text) (rw e' (read_double s d i depth false e'));
  }

  nibbles_written :
      valid_packed in_nibble_alphabet s ≡ true
      → WrittenString (write_packed pack_nibble nibble_8) s (text s)
  nibbles_written h =
      let (body, writes, reads) = read_packed-write_packed nibble-IsPacking nibble_8 s h in
      record {
        enc = nibble_8 ∷ body;
        written = writes;
        some_bytes = omega arith;
        as_text = λ depth. nibbles_read body reads depth true;
        as_content = λ depth. nibbles_read body reads depth false;
      }
    where
      nibbles_read :
          (body : Bytes)
          → ((bytes : Bytes) (pos : ℕ) (rest : Bytes)
              → drop pos bytes ≡ body ++ rest
              → read_packed unpack_nibble bytes pos ≡ ok (s, pos + length body))
          → (depth : ℕ) (as_string : Bool) → Reads (suc depth) as_string (nibble_8 ∷ body) (text s)
      nibbles_read body reads depth as_string bytes pos rest here =
          let next =
            reads bytes (pos + 1) rest (drop_past pos bytes (nibble_8 ∷ []) (body ++ rest) here) in
          let far : pos + 1 + length body ≡ pos + suc (length body) = omega arith in
          next_value_at depth as_string bytes pos nibble_8 (body ++ rest) here
          ∙ (unfold read_kind kind_of in rw next (rw far refl))

  hexes_written :
      valid_packed in_hex_alphabet s ≡ true → WrittenString (write_packed pack_hex hex_8) s (text s)
  hexes_written h =
      let (body, writes, reads) = read_packed-write_packed hex-IsPacking hex_8 s h in
      record {
        enc = hex_8 ∷ body;
        written = writes;
        some_bytes = omega arith;
        as_text = λ depth. hexes_read body reads depth true;
        as_content = λ depth. hexes_read body reads depth false;
      }
    where
      hexes_read :
          (body : Bytes)
          → ((bytes : Bytes) (pos : ℕ) (rest : Bytes)
              → drop pos bytes ≡ body ++ rest
              → read_packed unpack_hex bytes pos ≡ ok (s, pos + length body))
          → (depth : ℕ) (as_string : Bool) → Reads (suc depth) as_string (hex_8 ∷ body) (text s)
      hexes_read body reads depth as_string bytes pos rest here =
          let next =
            reads bytes (pos + 1) rest (drop_past pos bytes (hex_8 ∷ []) (body ++ rest) here) in
          let far : pos + 1 + length body ≡ pos + suc (length body) = omega arith in
          next_value_at depth as_string bytes pos hex_8 (body ++ rest) here
          ∙ (unfold read_kind kind_of in rw next (rw far refl))

  raw_written : IsWritable s → WrittenString write_string_raw s (blob (utf8_encode s))
  raw_written (is_text, fits) =
      let w = written_bytes (utf8_encode s) fits in
      record {
        enc = w.enc;
        written = unfold write_string_raw in w.written;
        some_bytes = w.some_bytes;
        as_text = λ depth. w.reads depth true (text s) decoded;
        as_content =
            λ depth. w.reads depth false (blob (utf8_encode s)) (read_binary_blob (utf8_encode s));
      }
    where
      decoded :
          (bytes : Bytes) (pos : ℕ)
          → slice bytes pos (pos + length (utf8_encode s)) ≡ utf8_encode s
          → read_binary true bytes (length (utf8_encode s), pos)
            ≡ ok (text s, pos + length (utf8_encode s))
      decoded bytes pos h =
          unfold read_binary in rw (h, read_binary) (rw (utf8_decode-utf8_encode s is_text) refl)

  -- With another writer that does the same, and the content it is read as.
  as_written :
      {writer' : Str → Outcome Bytes} {v' : Value} (writer : Str → Outcome Bytes) (v : Value)
      → writer' s ≡ writer s
      → v' ≡ v
      → WrittenString writer s v
      → WrittenString writer' s v'
  as_written writer v same same' w = record {
    enc = w.enc;
    written = same ∙ w.written;
    some_bytes = w.some_bytes;
    as_text = w.as_text;
    as_content = λ depth. rw same' (w.as_content depth);
  }

  module _ (e : single_byte_index s ≡ none) (e' : double_byte_index s ≡ none) where
    writer_here : write_string s ≡ write_untokened s
    writer_here = unfold write_string in rw (e, write_string) (rw e' refl)

    untokened_written : IsWritable s → WrittenString write_string s (wire_text s)
    untokened_written h = elim (Bool-cases (valid_packed in_nibble_alphabet s)) [
      | inl n ↦
          as_written (write_packed pack_nibble nibble_8) (text s)
            (writer_here ∙ (unfold write_untokened in ground (arith, n)))
            (unfold wire_text in rw (e, wire_text) (rw e' (rw n refl))) (nibbles_written n)
      | inr n ↦ elim (Bool-cases (valid_packed in_hex_alphabet s)) [
        | inl x ↦
            as_written (write_packed pack_hex hex_8) (text s)
              (writer_here ∙ (unfold write_untokened in ground (arith, n, x)))
              (unfold wire_text in rw (e, wire_text) (rw e' (rw (n, x) refl))) (hexes_written x)
        | inr x ↦
            as_written write_string_raw (blob (utf8_encode s))
              (writer_here ∙ (unfold write_untokened in ground (arith, n, x)))
              (unfold wire_text in rw (e, wire_text) (rw e' (rw (n, x) refl))) (raw_written h)
      ]
    ]

-- Every string of text below 2 ^ 31 bytes is written, and is read back as itself where text is
-- wanted, and as `wire_text` says where bytes are.
pub written_string : (s : Str) → IsWritable s → WrittenString write_string s (wire_text s)
written_string s h = elim (Option-cases (single_byte_index s)) [
  | inr (i, e) ↦ single_written s i e
  | inl e ↦ elim (Option-cases (double_byte_index s)) [
    | inr ((d, i), e') ↦ double_written s d i e e'
    | inl e' ↦ untokened_written s e e' h
  ]
]

next_string_of_next_value :
    (read : Bool → ℕ → ℕ → Outcome (Value × ℕ)) (bytes : Bytes) (pos : ℕ) (s : Str) (pos' : ℕ)
    → next_value read bytes true pos ≡ ok (text s, pos')
    → next_string read bytes pos ≡ ok (s, pos')
next_string_of_next_value read bytes pos s pos' h = go (read_u8 bytes pos) refl
  where
    go : (o : Outcome (ℕ × ℕ)) → read_u8 bytes pos ≡ o → next_string read bytes pos ≡ ok (s, pos')
    go (raise e) at = absurd (unfold next_value in ground (arith, at, h))
    go (ok (tag, pos1)) at =
        let value : read true tag pos1 ≡ ok (text s, pos') =
          unfold next_value in ground (arith, at, h) in
        unfold next_string read_string in ground (arith, at, value)

-- A string of text below 2 ^ 31 bytes is written, and `_read_string` gives it back, wherever it
-- stands in a buffer, with the position behind it.
pub next_string-write_string :
    (s : Str)
    → IsWritable s
    → (enc : Bytes) × (write_string s ≡ ok enc)
      × (1 ≤ length enc)
      × ((depth : ℕ) (bytes : Bytes) (pos : ℕ) (rest : Bytes)
          → drop pos bytes ≡ enc ++ rest
          → next_string (read_value bytes (suc depth)) bytes pos ≡ ok (s, pos + length enc))
next_string-write_string s h =
    let w = written_string s h in
    (
      w.enc,
      w.written,
      w.some_bytes,
      λ depth bytes pos rest here.
          next_string_of_next_value (read_value bytes (suc depth)) bytes pos s (pos + length w.enc)
            (w.as_text depth bytes pos rest here),
    )
