-- ===== src/Examples.antt =====
-- The theorems at concrete inputs.
use whatsapp_cli.Common.{
  ℕ, ◌+◌, ◌^◌, ◌%◌, ◌≤◌, ◌<◌, ◌≡◌, refl, ◌↔◌, true, false, none, some, List, [], ◌∷◌, ◌++◌, map,
  arith, String,
}
use whatsapp_cli.Common.Lists.{length, replicate, get_elem?}
use whatsapp_cli.Common.Outcome.{Outcome, ok, raise, index_error}
use whatsapp_cli.Common.Utf8.{Bytes, codes, utf8_encode, same_bytes}
use whatsapp_cli.Protobuf.Writer.{varint, length_delim, tag, string_field}
use whatsapp_cli.Protobuf.Reader.{
  int, raw, Fields, byte_at, read_varint_loop, read_varint, read_value, append_value, decode_loop,
  decode_fields, get,
}
use whatsapp_cli.Protobuf.Varint.{read_varint-varint}
use whatsapp_cli.Protobuf.RoundTrip.{Field, encode_fields}
use whatsapp_cli.Protobuf.Lookup.{values, extend, decode_fields_lookup}
use whatsapp_cli.Protobuf.Total.{IsParseError, read_varint_moves, decode_fields_error}
use whatsapp_cli.Messages.Build.{build_reply_plaintext, wrap_device_sent}
use whatsapp_cli.Messages.Quoted.{
  quoted_in_content, first_bytes, quoted_of_content, catch_value_error, extract_quoted_id,
  device_sent_destination,
}
use whatsapp_cli.Messages.Errors.{extract_quoted_id_error}
use whatsapp_cli.Messages.Replies.{
  extract_quoted_id-build_reply_plaintext, extract_quoted_id-wrap_device_sent,
  device_sent_destination-wrap_device_sent,
}
use whatsapp_cli.Transport.Framing.{feed}
use whatsapp_cli.Transport.Chunks.{feed_two, feed-append}
use whatsapp_cli.Transport.Frames.{framed_all, feed_returns, feed-framed_all}
use whatsapp_cli.Transport.Socket.{
  FrameSocket, WsMessage, binary, closing, other, read_pump, frames, returned, send_all,
}
use whatsapp_cli.Transport.Delivery.{join, stream, frames-read_pump, send_all-stream}
use whatsapp_cli.Noise.Primitives.{Primitives, transparent, transparent-Correct}
use whatsapp_cli.Noise.Symmetric.{NoiseHandshake, NoiseSocket, generate_iv}
use whatsapp_cli.Protobuf.Writer.{pad_for_signal}
use whatsapp_cli.Media.Cipher.{
  unpad, BlockCipher, Sound, media_info, EncryptedMedia, encrypt_media, decrypt_media,
}
use whatsapp_cli.Media.RoundTrip.{unpad-pad_for_signal, decrypt_media-encrypt_media}
use whatsapp_cli.Noise.Lockstep.{InStep, seal_all, open_all, open_all-seal_all}
use whatsapp_cli.Noise.Nonce.{generate_iv_iff}
use whatsapp_cli.Noise.Certificates.{
  Certificate, CertificateParsers, verify_cert_chain, TrustedChain, verify_cert_chain_iff,
}
use whatsapp_cli.Noise.Handshake.{HandshakeBindings, KeyPair, do_handshake}
use whatsapp_cli.Noise.Responder.{write_second}
use whatsapp_cli.Noise.Agreement.{Agreed, handshake_agrees}
use whatsapp_cli.WaBinary.Tokens.{
  single_byte_tokens, double_byte_tokens, single_byte_index, double_byte_index, token_at,
  single_byte_index_sound, double_byte_index_sound,
}

-- Protobuf

abbrev some_fields : List Field
some_fields = (1, raw (104 ∷ 105 ∷ [])) ∷ (5, int 300) ∷ (1, raw []) ∷ []

read_varint-varint_example : read_varint (7 ∷ varint 300 ++ (9 ∷ [])) 1 ≡ ok (300, 3)
unfolding varint
read_varint-varint_example =
    read_varint-varint (7 ∷ varint 300 ++ (9 ∷ [])) 1 300 (9 ∷ []) refl (omega arith)

decode_fields_lookup_example :
    (out : Fields) × (decode_fields (encode_fields some_fields) ≡ ok out)
    × ((f : ℕ) → get f out ≡ extend none (values f some_fields))
decode_fields_lookup_example = decode_fields_lookup some_fields (ground arith)

read_varint_moves_example : (1 < 3) × (3 ≤ 4) × (3 ≤ 1 + 10)
unfolding varint
read_varint_moves_example =
    read_varint_moves (7 ∷ varint 300 ++ (9 ∷ [])) 1 300 3 read_varint-varint_example

decode_fields_error_example : IsParseError index_error
unfolding decode_loop read_varint read_varint_loop byte_at read_value
decode_fields_error_example =
    decode_fields_error (10 ∷ []) index_error (unfold decode_fields in refl)

-- Messages

abbrev reply : Bytes
reply = build_reply_plaintext (codes "ok") (codes "3EB0") (codes "33@s.whatsapp.net") (codes "hé")

length-reply : length reply ≡ 41
unfolding build_reply_plaintext length_delim tag varint string_field utf8_encode
length-reply = refl

length-sent : length (wrap_device_sent reply (codes "44@s.whatsapp.net")) ≡ 65
unfolding wrap_device_sent build_reply_plaintext length_delim tag varint string_field utf8_encode
length-sent = refl

length-sent' : length (wrap_device_sent (10 ∷ 1 ∷ 65 ∷ []) (codes "44@s.whatsapp.net")) ≡ 27
unfolding wrap_device_sent length_delim tag varint string_field utf8_encode
length-sent' = refl

extract_quoted_id-build_reply_plaintext_example : extract_quoted_id 5 reply ≡ ok (codes "3EB0")
extract_quoted_id-build_reply_plaintext_example =
    extract_quoted_id-build_reply_plaintext 4 (codes "ok") (codes "3EB0")
      (codes "33@s.whatsapp.net") (codes "hé") (ground arith) (omega (arith, length-reply))

extract_quoted_id-wrap_device_sent_example :
    extract_quoted_id 5 (wrap_device_sent reply (codes "44@s.whatsapp.net")) ≡ ok (codes "3EB0")
extract_quoted_id-wrap_device_sent_example =
    extract_quoted_id-wrap_device_sent 4 reply (codes "44@s.whatsapp.net") (codes "3EB0")
      (extract_quoted_id-build_reply_plaintext 3 (codes "ok") (codes "3EB0")
        (codes "33@s.whatsapp.net") (codes "hé") (ground arith) (omega (arith, length-reply)))
      (omega (arith, length-sent))

device_sent_destination-wrap_device_sent_example :
    device_sent_destination (wrap_device_sent (10 ∷ 1 ∷ 65 ∷ []) (codes "44@s.whatsapp.net"))
    ≡ ok (codes "44@s.whatsapp.net")
device_sent_destination-wrap_device_sent_example =
    device_sent_destination-wrap_device_sent (10 ∷ 1 ∷ 65 ∷ []) (codes "44@s.whatsapp.net")
      (ground arith) (omega (arith, length-sent'))

-- A reply whose content ends inside a varint.
abbrev broken_reply : Bytes
broken_reply = 50 ∷ 1 ∷ 10 ∷ []

extract_quoted_id-broken_reply : extract_quoted_id 5 broken_reply ≡ raise index_error
unfolding extract_quoted_id decode_fields decode_loop read_varint read_varint_loop byte_at
    read_value quoted_in_content first_bytes get append_value quoted_of_content catch_value_error
extract_quoted_id-broken_reply = refl

extract_quoted_id_error_example : index_error ≡ index_error
extract_quoted_id_error_example =
    extract_quoted_id_error 5 broken_reply index_error extract_quoted_id-broken_reply

-- Transport

feed-append_example :
    feed (0 ∷ []) ((0 ∷ 2 ∷ 7 ∷ []) ++ (8 ∷ 0 ∷ []))
    ≡ feed_two (0 ∷ []) (0 ∷ 2 ∷ 7 ∷ []) (8 ∷ 0 ∷ [])
feed-append_example = feed-append (0 ∷ []) (0 ∷ 2 ∷ 7 ∷ []) (8 ∷ 0 ∷ [])

feed_returns_example : (p : List Bytes × Bytes) × (feed (0 ∷ []) (0 ∷ 2 ∷ 7 ∷ 255 ∷ 3 ∷ []) ≡ ok p)
feed_returns_example = feed_returns (0 ∷ []) (0 ∷ 2 ∷ 7 ∷ 255 ∷ 3 ∷ []) (omega arith) (omega arith)

abbrev some_payloads : List Bytes
some_payloads = (7 ∷ 8 ∷ []) ∷ [] ∷ (9 ∷ []) ∷ []

feed-framed_all_example : feed [] (framed_all some_payloads) ≡ ok (some_payloads, [])
feed-framed_all_example = feed-framed_all some_payloads (omega arith)

abbrev some_chunks : List Bytes
some_chunks = (0 ∷ 0 ∷ []) ∷ (2 ∷ 7 ∷ []) ∷ (8 ∷ 0 ∷ 0 ∷ 0 ∷ 0 ∷ 0 ∷ []) ∷ (1 ∷ 9 ∷ []) ∷ []

abbrev pumped : FrameSocket × Outcome (Unit {0})
pumped =
    read_pump true whatsapp_cli.Transport.Socket.new_socket
      (map binary some_chunks ++ (closing ∷ other ∷ []))

frames-read_pump_example :
    (pumped.1 ≡ ok tt)
    × ((pumped.0.incoming ≡ map some some_payloads ++ (none ∷ []))
        × (frames pumped.0.incoming ≡ (some_payloads, returned)))
unfolding join
frames-read_pump_example =
    frames-read_pump true some_chunks some_payloads (other ∷ []) (omega arith)
      (unfold framed_all in refl)

abbrev opened_socket : FrameSocket
opened_socket = record whatsapp_cli.Transport.Socket.new_socket { opened = true }

send_all-stream_example :
    (s' : FrameSocket) × (send_all opened_socket some_payloads ≡ ok s')
    × (join s'.outbox ≡ join [] ++ stream false some_payloads)
send_all-stream_example = send_all-stream opened_socket some_payloads refl (omega arith)

-- Noise

abbrev keyed : NoiseHandshake
keyed = record { hash = 1 ∷ []; salt = 2 ∷ []; aead = some (3 ∷ []); counter = 4 }

abbrev socket : NoiseSocket
socket = record { write_key = 1 ∷ []; read_key = 1 ∷ []; write_ctr = 0; read_ctr = 0 }

open_all-seal_all_example :
    (r' : NoiseSocket) × (open_all transparent socket (seal_all transparent socket some_payloads).1
      ≡ (r', ok some_payloads))
    × InStep (seal_all transparent socket some_payloads).0 r'
open_all-seal_all_example =
    open_all-seal_all transparent transparent-Correct some_payloads socket socket
      (record { same_key = refl; same_ctr = refl })

generate_iv_iff_example :
    (generate_iv 3 ≡ generate_iv (2 ^ 32 + 3) → 3 % 2 ^ 32 ≡ (2 ^ 32 + 3) % 2 ^ 32)
    × (3 % 2 ^ 32 ≡ (2 ^ 32 + 3) % 2 ^ 32 → generate_iv 3 ≡ generate_iv (2 ^ 32 + 3))
generate_iv_iff_example = generate_iv_iff 3 (2 ^ 32 + 3)

abbrev key : ℕ → KeyPair
key b = record { priv = replicate 32 b; public' = replicate 32 b }

abbrev certificate : Certificate
certificate = record { details = 1 ∷ []; signature = replicate 64 1 }

-- Every chain parses to two certificates for the key of fives.
abbrev some_parsers : CertificateParsers
some_parsers = record {
  parse_chain = λ bytes. ok (certificate, certificate);
  parse_details = λ bytes. ok (record { serial = 0; issuer_serial = 0; key = replicate 32 5 });
}

abbrev some_bindings : HandshakeBindings
some_bindings = record {
  client_hello = λ eph. eph;
  parse_reply = λ bytes.
      ok (record { ephemeral = replicate 32 4; static_ct = replicate 32 5; payload_ct = 1 ∷ [] });
  client_finish = λ static_ct payload_ct. static_ct ++ payload_ct;
}

verify_cert_chain_iff_example :
    (verify_cert_chain transparent some_parsers (1 ∷ []) (replicate 32 5) ≡ ok tt)
    ↔ TrustedChain transparent some_parsers (1 ∷ []) (replicate 32 5)
verify_cert_chain_iff_example =
    verify_cert_chain_iff transparent some_parsers (1 ∷ []) (replicate 32 5)

handshake_agrees_example :
    Agreed transparent some_parsers some_bindings
      (write_second transparent
        (replicate 32 4, replicate 32 4)
        (replicate 32 5, replicate 32 5)
        (replicate 32 2)
        (1 ∷ [])).0
      (key 4)
      (key 2)
      (key 3)
      (9 ∷ [])
      (do_handshake transparent some_parsers some_bindings (key 2) (key 3) (9 ∷ []) (ok []))
unfolding same_bytes
handshake_agrees_example =
    handshake_agrees transparent some_parsers some_bindings transparent-Correct (key 2) (key 3)
      (key 4) (key 5) (9 ∷ []) (1 ∷ []) [] refl refl refl refl refl refl refl refl refl
      (unfold verify_cert_chain in refl)

-- Media

unpad-pad_for_signal_example : unpad (pad_for_signal 4 (7 ∷ 8 ∷ [])) ≡ 7 ∷ 8 ∷ []
unpad-pad_for_signal_example = unpad-pad_for_signal 4 (7 ∷ 8 ∷ [])

abbrev constant_digest : Primitives
constant_digest = record transparent { hmac_sha256 = λ k m. replicate 32 1 }

abbrev no_cipher : BlockCipher
no_cipher = record {
  encrypt_blocks = λ k iv blocks. blocks;
  decrypt_blocks = λ k iv blocks. ok blocks;
}

no_cipher-Sound : Sound constant_digest no_cipher
no_cipher-Sound = record {
  undoes = λ k iv blocks h. refl;
  same_length = λ k iv blocks. refl;
  digest_length = λ k m. refl;
}

decrypt_media-encrypt_media_example :
    (m : EncryptedMedia) × (encrypt_media constant_digest no_cipher
        (1 ∷ [])
        (7 ∷ 8 ∷ [])
        (codes "image")
      ≡ ok m)
    × (decrypt_media constant_digest no_cipher
          (1 ∷ [])
          m.ciphertext
          (codes "image")
          (some m.file_enc_sha256)
        ≡ ok (7 ∷ 8 ∷ []))
unfolding same_bytes
decrypt_media-encrypt_media_example =
    decrypt_media-encrypt_media constant_digest no_cipher no_cipher-Sound (1 ∷ []) (7 ∷ 8 ∷ [])
      (codes "image") (codes "WhatsApp Image Keys") true (unfold media_info in refl)

-- Tokens

single_byte_index_sound_example :
    (1 ≤ 4) × (4 ≤ 235) × (token_at single_byte_tokens 4 ≡ some (codes "type"))
unfolding same_bytes
single_byte_index_sound_example =
    single_byte_index_sound (codes "type") 4 (unfold single_byte_index in refl)

double_byte_index_sound_example :
    (0 ≤ 3)
    × (0 < 256)
    × (dict : List String) × (get_elem? double_byte_tokens 0 ≡ some dict)
    × (token_at dict 0 ≡ some (codes "read-self"))
unfolding same_bytes
double_byte_index_sound_example =
    double_byte_index_sound (codes "read-self") 0 0 (unfold double_byte_index in refl)
