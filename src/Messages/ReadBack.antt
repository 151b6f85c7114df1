-- ===== src/Messages/ReadBack.antt =====
-- The text that `_extract_text` of wa/cli.py finds in the messages that the builders wrote.
use whatsapp_cli.Common.{ℕ, suc, ◌<◌, ◌^◌, ◌≡◌, refl, ◌∙◌, some, [], ◌∷◌, arith, append-nil}
use whatsapp_cli.Common.Lists.{length}
use whatsapp_cli.Common.Utf8.{Bytes, Str, IsText, utf8_encode, utf8_decode-utf8_encode}
use whatsapp_cli.Protobuf.Writer.{string_field}
use whatsapp_cli.Protobuf.Reader.{raw, get, append_value}
use whatsapp_cli.Protobuf.RoundTrip.{encode_field, encode_fields, collect}
use whatsapp_cli.Protobuf.Lookup.{
  decode_message, length-encode_fields_head, length-encode_fields_tail,
}
use whatsapp_cli.Messages.Build.{build_message_plaintext, build_reply_plaintext, wrap_device_sent}
use whatsapp_cli.Messages.Quoted.{first_bytes}
use whatsapp_cli.Messages.Replies.{
  context_fields, extended_fields, single, sent_fields, device_sent_fields,
  wrap_device_sent_as_fields, reply_as_fields,
}
use whatsapp_cli.Messages.Text.{
  nonempty, text_in, inner_text, caption_of, flag_of, content_text, wrapped_text, extract_text,
}

plain_as_fields :
    (text : Str) → build_message_plaintext text ≡ encode_fields (single 1 (utf8_encode text))
unfolding build_message_plaintext encode_fields encode_field string_field
plain_as_fields text = simp append-nil

extract_text-single :
    (levels : ℕ) (text : Str)
    → IsText text
    → length (encode_fields (single 1 (utf8_encode text))) < 2 ^ 64
    → extract_text (suc levels) (encode_fields (single 1 (utf8_encode text))) ≡ text
extract_text-single levels text h fits =
    let e = decode_message (single 1 (utf8_encode text)) (omega arith) fits in
    unfold extract_text in
    rw (e, extract_text)
      (unfold collect append_value first_bytes get content_text in
        rw (utf8_decode-utf8_encode text h, content_text) refl)

-- The text of a message is read back at each of the levels that the search may go down.
pub extract_text-build_message_plaintext :
    (levels : ℕ) (text : Str)
    → IsText text
    → length (build_message_plaintext text) < 2 ^ 64
    → extract_text (suc levels) (build_message_plaintext text) ≡ text
extract_text-build_message_plaintext levels text h fits =
    let e = plain_as_fields text in rw e (extract_text-single levels text h (rw e at fits))

inner_text-extended :
    (c : ℕ) (cs : Str) (context : Bytes)
    → IsText (c ∷ cs)
    → length (encode_fields (extended_fields (c ∷ cs) context)) < 2 ^ 64
    → inner_text 1 (encode_fields (extended_fields (c ∷ cs) context)) ≡ some (c ∷ cs)
inner_text-extended c cs context h fits =
    let e = decode_message (extended_fields (c ∷ cs) context) (omega arith) fits in
    unfold inner_text in
    rw (e, inner_text)
      (unfold collect append_value first_bytes get text_in in
        rw (utf8_decode-utf8_encode (c ∷ cs) h, nonempty) refl)

extract_text-content :
    (levels : ℕ) (content : Bytes) (text : Str)
    → inner_text 1 content ≡ some text
    → length (encode_fields (single 6 content)) < 2 ^ 64
    → extract_text (suc levels) (encode_fields (single 6 content)) ≡ text
extract_text-content levels content text h fits =
    let e = decode_message (single 6 content) (omega arith) fits in
    unfold extract_text in
    rw (e, extract_text)
      (unfold collect append_value first_bytes get content_text in rw (h, content_text) refl)

no_text : (deeper : Str) → elim deeper as (λ x. Str) [ [] ↦ [] | c ∷ s ↦ c ∷ s ] ≡ deeper
no_text [] = refl
no_text (c ∷ s) = refl

extract_text-wrapper :
    (levels : ℕ) (destination message : Bytes)
    → length (encode_fields (device_sent_fields destination message)) < 2 ^ 64
    → extract_text (suc levels) (encode_fields (device_sent_fields destination message))
      ≡ extract_text levels message
extract_text-wrapper levels destination message fits =
    let inner = sent_fields destination message in
    let shorter = length-encode_fields_head 31 (encode_fields inner) [] in
    let e = decode_message (device_sent_fields destination message) (omega arith) fits in
    let e' = decode_message inner (omega arith) (omega arith) in
    unfold extract_text in
    rw (e, extract_text)
      (unfold collect append_value first_bytes get content_text caption_of flag_of wrapped_text in
        rw (e', wrapped_text) (no_text (extract_text levels message)))

extract_text-reply :
    (levels c : ℕ) (cs quoted_id participant quoted_text : Str)
    → IsText (c ∷ cs)
    → length (build_reply_plaintext (c ∷ cs) quoted_id participant quoted_text) < 2 ^ 64
    → extract_text (suc levels) (build_reply_plaintext (c ∷ cs) quoted_id participant quoted_text)
      ≡ c ∷ cs
extract_text-reply levels c cs quoted_id participant quoted_text h fits =
    let context = encode_fields (context_fields quoted_id participant quoted_text) in
    let extended = encode_fields (extended_fields (c ∷ cs) context) in
    let e = reply_as_fields (c ∷ cs) quoted_id participant quoted_text in
    let fits' : length (encode_fields (single 6 extended)) < 2 ^ 64 = rw e at fits in
    let below = length-encode_fields_head 6 extended [] in
    rw e (
      extract_text-content levels extended (c ∷ cs)
        (inner_text-extended c cs context h (omega arith)) fits')

extract_text-wrap_device_sent :
    (levels : ℕ) (message : Bytes) (destination : Str)
    → length (wrap_device_sent message destination) < 2 ^ 64
    → extract_text (suc levels) (wrap_device_sent message destination) ≡ extract_text levels message
extract_text-wrap_device_sent levels message destination fits =
    let e = wrap_device_sent_as_fields message destination in
    rw e (extract_text-wrapper levels (utf8_encode destination) message (rw e at fits))

-- A message is no longer than the copy of it for our own devices.
length-wrap_device_sent :
    (message : Bytes) (destination : Str)
    → length (wrap_device_sent message destination) < 2 ^ 64
    → length message < 2 ^ 64
length-wrap_device_sent message destination fits =
    let inner = sent_fields (utf8_encode destination) message in
    let e = wrap_device_sent_as_fields message destination in
    let fits' : length (encode_fields (device_sent_fields (utf8_encode destination) message))
        < 2 ^ 64 =
      rw e at fits in
    let outer = length-encode_fields_head 31 (encode_fields inner) [] in
    let tail = length-encode_fields_tail (1, raw (utf8_encode destination)) (single 2 message) in
    let head = length-encode_fields_head 2 message [] in omega arith

-- The text of a reply that is not empty is read back, at each of the levels that the search may go
-- down, from the reply and, one level up, from the copy of it for our own devices.
pub extract_text-build_reply_plaintext :
    (levels : ℕ) (c : ℕ) (cs quoted_id participant quoted_text destination : Str)
    → IsText (c ∷ cs)
    → length (
        wrap_device_sent
          (build_reply_plaintext (c ∷ cs) quoted_id participant quoted_text)
          destination)
      < 2 ^ 64
    → (extract_text (suc levels) (build_reply_plaintext (c ∷ cs) quoted_id participant quoted_text)
        ≡ c ∷ cs)
      × (extract_text (suc (suc levels)) (
            wrap_device_sent
              (build_reply_plaintext (c ∷ cs) quoted_id participant quoted_text)
              destination)
          ≡ c ∷ cs)
extract_text-build_reply_plaintext levels c cs quoted_id participant quoted_text destination h
      fits =
    let reply = build_reply_plaintext (c ∷ cs) quoted_id participant quoted_text in
    let shorter = length-wrap_device_sent reply destination fits in
    (
      extract_text-reply levels c cs quoted_id participant quoted_text h shorter,
      extract_text-wrap_device_sent (suc levels) reply destination fits
          ∙ extract_text-reply levels c cs quoted_id participant quoted_text h shorter,
    )
