-- ===== src/Messages/Replies.antt =====
-- What the readers find in the messages that the builders wrote.
use whatsapp_cli.Common.{ℕ, suc, ◌<◌, ◌^◌, ◌≡◌, refl, ap, some, List, [], ◌∷◌, arith, append-nil}
use whatsapp_cli.Common.Lists.{length}
use whatsapp_cli.Common.Outcome.{ok}
use whatsapp_cli.Common.Utf8.{
  Bytes, Str, IsText, utf8_encode, utf8_encode-ne-nil, utf8_decode-utf8_encode,
  utf8_decode_replace-utf8_encode,
}
use whatsapp_cli.Protobuf.Writer.{string_field}
use whatsapp_cli.Protobuf.Reader.{raw, get, append_value}
use whatsapp_cli.Protobuf.RoundTrip.{Field, encode_field, encode_fields, collect}
use whatsapp_cli.Protobuf.Lookup.{
  decode_message, length-encode_fields_head, length-encode_fields_tail,
}
use whatsapp_cli.Messages.Build.{build_reply_plaintext, wrap_device_sent}
use whatsapp_cli.Messages.Quoted.{
  first_bytes, decode_text, text_or_empty, quoted_stanza, quoted_of_content, quoted_in_content,
  nested_message, extract_quoted_id, catch_value_error, device_sent_destination, replaced_or_empty,
  destination_of,
}

text_or_empty-utf8_encode : (s : Str) → IsText s → text_or_empty (some (utf8_encode s)) ≡ ok s
text_or_empty-utf8_encode [] h = unfold text_or_empty utf8_encode in refl
text_or_empty-utf8_encode (c ∷ s) h = go (utf8_encode (c ∷ s)) refl
  where
    go : (bs : Bytes) → utf8_encode (c ∷ s) ≡ bs → text_or_empty (some bs) ≡ ok (c ∷ s)
    go [] e = absurd (utf8_encode-ne-nil c s e)
    go (b ∷ bs) e =
        unfold text_or_empty decode_text in
        rw (← e) (rw (utf8_decode-utf8_encode (c ∷ s) h, decode_text))

abbrev pub context_fields : Str → Str → Str → List Field
context_fields quoted_id participant quoted_text =
    (1, raw (utf8_encode quoted_id))
    ∷ (2, raw (utf8_encode participant))
    ∷ (3, raw (string_field 1 quoted_text))
    ∷ []

abbrev pub extended_fields : Str → Bytes → List Field
extended_fields text context = (1, raw (utf8_encode text)) ∷ (17, raw context) ∷ []

abbrev pub single : ℕ → Bytes → List Field
single f body = (f, raw body) ∷ []

abbrev pub sent_fields : Bytes → Bytes → List Field
sent_fields destination message = (1, raw destination) ∷ (2, raw message) ∷ []

abbrev pub device_sent_fields : Bytes → Bytes → List Field
device_sent_fields destination message = single 31 (encode_fields (sent_fields destination message))

pub wrap_device_sent_as_fields :
    (message : Bytes) (destination : Str)
    → wrap_device_sent message destination
      ≡ encode_fields (device_sent_fields (utf8_encode destination) message)
unfolding wrap_device_sent encode_fields encode_field string_field
wrap_device_sent_as_fields message destination = simp append-nil

pub reply_as_fields :
    (text quoted_id participant quoted_text : Str)
    → build_reply_plaintext text quoted_id participant quoted_text
      ≡ encode_fields (
          single 6 (
            encode_fields (
              extended_fields text
                (encode_fields (context_fields quoted_id participant quoted_text)))))
unfolding build_reply_plaintext encode_fields encode_field string_field
reply_as_fields text quoted_id participant quoted_text = simp append-nil

quoted_stanza-context :
    (quoted_id participant quoted_text : Str)
    → IsText quoted_id
    → length (encode_fields (context_fields quoted_id participant quoted_text)) < 2 ^ 64
    → quoted_stanza (some (encode_fields (context_fields quoted_id participant quoted_text)))
      ≡ ok quoted_id
quoted_stanza-context quoted_id participant quoted_text h fits =
    let e = decode_message (context_fields quoted_id participant quoted_text) (omega arith) fits in
    unfold quoted_stanza in
    rw e (unfold collect append_value first_bytes get in text_or_empty-utf8_encode quoted_id h)

quoted_of_content-extended :
    (text : Str) (context : Bytes) (quoted_id : Str)
    → quoted_stanza (some context) ≡ ok quoted_id
    → length (encode_fields (extended_fields text context)) < 2 ^ 64
    → quoted_of_content (encode_fields (extended_fields text context)) ≡ ok quoted_id
quoted_of_content-extended text context quoted_id h fits =
    let e = decode_message (extended_fields text context) (omega arith) fits in
    unfold quoted_of_content in
    rw e (unfold collect append_value first_bytes get in rw h (unfold catch_value_error in refl))

-- One level of the search in a message whose only field is a content message.
extract_quoted_id-content :
    (levels : ℕ) (content : Bytes) (quoted_id : Str)
    → quoted_of_content content ≡ ok quoted_id
    → length (encode_fields (single 6 content)) < 2 ^ 64
    → extract_quoted_id (suc levels) (encode_fields (single 6 content)) ≡ ok quoted_id
extract_quoted_id-content levels content quoted_id h fits =
    let e = decode_message (single 6 content) (omega arith) fits in
    unfold extract_quoted_id in
    rw (e, extract_quoted_id) (unfold collect append_value first_bytes get quoted_in_content in h)

extract_quoted_id-wrapper :
    (levels : ℕ) (destination message : Bytes) (quoted_id : Str)
    → extract_quoted_id levels message ≡ ok quoted_id
    → length (encode_fields (device_sent_fields destination message)) < 2 ^ 64
    → extract_quoted_id (suc levels) (encode_fields (device_sent_fields destination message))
      ≡ ok quoted_id
extract_quoted_id-wrapper levels destination message quoted_id h fits =
    let inner = sent_fields destination message in
    let shorter = length-encode_fields_head 31 (encode_fields inner) [] in
    let e = decode_message (device_sent_fields destination message) (omega arith) fits in
    let e' = decode_message inner (omega arith) (omega arith) in
    unfold extract_quoted_id in
    rw (e, extract_quoted_id)
      (unfold collect append_value first_bytes get quoted_in_content nested_message in
        rw (e', nested_message) h)

-- A reply carries the quoted id: reading it back gives what the builder was given, at each of the
-- levels that the search may go down.
pub extract_quoted_id-build_reply_plaintext :
    (levels : ℕ) (text quoted_id participant quoted_text : Str)
    → IsText quoted_id
    → length (build_reply_plaintext text quoted_id participant quoted_text) < 2 ^ 64
    → extract_quoted_id (suc levels) (build_reply_plaintext text quoted_id participant quoted_text)
      ≡ ok quoted_id
extract_quoted_id-build_reply_plaintext levels text quoted_id participant quoted_text h fits =
    let context = encode_fields (context_fields quoted_id participant quoted_text) in
    let extended = encode_fields (extended_fields text context) in
    let e = reply_as_fields text quoted_id participant quoted_text in
    let fits' : length (encode_fields (single 6 extended)) < 2 ^ 64 = rw e at fits in
    let below = length-encode_fields_head 6 extended [] in
    let below' = length-encode_fields_head 17 context [] in
    let below'' = length-encode_fields_tail (1, raw (utf8_encode text)) (single 17 context) in
    rw e (
      extract_quoted_id-content levels extended quoted_id
        (quoted_of_content-extended text context quoted_id
          (quoted_stanza-context quoted_id participant quoted_text h (omega arith)) (omega arith))
        fits')

-- A message wrapped for our own devices quotes what the message inside quotes, one level up.
pub extract_quoted_id-wrap_device_sent :
    (levels : ℕ) (message : Bytes) (destination quoted_id : Str)
    → extract_quoted_id levels message ≡ ok quoted_id
    → length (wrap_device_sent message destination) < 2 ^ 64
    → extract_quoted_id (suc levels) (wrap_device_sent message destination) ≡ ok quoted_id
extract_quoted_id-wrap_device_sent levels message destination quoted_id h fits =
    let e = wrap_device_sent_as_fields message destination in
    rw e (
      extract_quoted_id-wrapper levels (utf8_encode destination) message quoted_id h (rw e at fits))

-- The chat named by a wrapped message is the one that it was wrapped for.
pub device_sent_destination-wrap_device_sent :
    (message : Bytes) (destination : Str)
    → IsText destination
    → length (wrap_device_sent message destination) < 2 ^ 64
    → device_sent_destination (wrap_device_sent message destination) ≡ ok destination
device_sent_destination-wrap_device_sent message destination h fits =
    let as_fields = wrap_device_sent_as_fields message destination in
    let inner = sent_fields (utf8_encode destination) message in
    let shorter = length-encode_fields_head 31 (encode_fields inner) [] in
    let fits' : length (encode_fields (single 31 (encode_fields inner))) < 2 ^ 64 =
      rw as_fields at fits in
    let e = decode_message (single 31 (encode_fields inner)) (omega arith) fits' in
    let e' = decode_message inner (omega arith) (omega arith) in
    rw as_fields (
      unfold device_sent_destination in
      rw e (
        unfold collect append_value first_bytes get destination_of catch_value_error
          replaced_or_empty in
        rw e' (ap ok (utf8_decode_replace-utf8_encode destination h))))
