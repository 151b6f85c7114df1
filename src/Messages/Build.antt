-- ===== src/Messages/Build.antt =====
-- The outbound builders of wa/messages.py and wa/cli.py.
use whatsapp_cli.Common.{ℕ, Option, none, some, [], ◌∷◌, ◌++◌}
use whatsapp_cli.Common.Tests.{◌==◌, if◌then◌else◌}
use whatsapp_cli.Common.Utf8.{Bytes, Str}
use whatsapp_cli.Protobuf.Writer.{length_delim, string_field, varint_field}

pub record DocumentInfo : Type 0 where
  pub url : Str
  pub direct_path : Str
  pub mimetype : Str
  pub file_name : Str
  pub media_key : Bytes
  pub file_sha256 : Bytes
  pub file_enc_sha256 : Bytes
  pub file_length : ℕ
  pub media_key_timestamp : ℕ
  pub caption : Option Str
  pub title : Option Str
  pub jpeg_thumbnail : Option Bytes
  pub thumbnail_width : Option ℕ
  pub thumbnail_height : Option ℕ

abbrev pub bytes_field : ℕ → Bytes → Bytes
bytes_field = length_delim

-- `if value: body += field(value)`: `None` and what is empty or zero are left out.
unfoldable pub optional_bytes : (Bytes → Bytes) → Option Bytes → Bytes
optional_bytes field none = []
optional_bytes field (some []) = []
optional_bytes field (some (c ∷ s)) = field (c ∷ s)

unfoldable pub optional_number : ℕ → Option ℕ → Bytes
optional_number field_num none = []
optional_number field_num (some n) = if n == 0 then [] else varint_field field_num n

unfoldable pub thumbnail_fields : DocumentInfo → Option Bytes → Bytes
unfolding optional_number
thumbnail_fields doc none = []
thumbnail_fields doc (some []) = []
thumbnail_fields doc (some (b ∷ bs)) =
    bytes_field 16 (b ∷ bs)
    ++ (optional_number 18 doc.thumbnail_height ++ optional_number 19 doc.thumbnail_width)

unfoldable pub build_document_message : DocumentInfo → Bytes
unfolding optional_bytes thumbnail_fields
build_document_message doc =
    string_field 1 doc.url
    ++ (string_field 2 doc.mimetype
        ++ (optional_bytes (string_field 3) doc.title
            ++ (bytes_field 4 doc.file_sha256
                ++ (varint_field 5 doc.file_length
                    ++ (bytes_field 7 doc.media_key
                        ++ (string_field 8 doc.file_name
                            ++ (bytes_field 9 doc.file_enc_sha256
                                ++ (string_field 10 doc.direct_path
                                    ++ (varint_field 11 doc.media_key_timestamp
                                        ++ (thumbnail_fields doc doc.jpeg_thumbnail
                                            ++ optional_bytes (string_field 20)
                                                doc.caption))))))))))

unfoldable pub build_document_plaintext : DocumentInfo → Bytes
build_document_plaintext doc = length_delim 7 (build_document_message doc)

unfoldable pub wrap_device_sent : Bytes → Str → Bytes
wrap_device_sent message_plaintext destination_jid =
    length_delim 31 (string_field 1 destination_jid ++ length_delim 2 message_plaintext)

unfoldable pub build_document_dsm_plaintext : DocumentInfo → Str → Bytes
build_document_dsm_plaintext doc destination_jid =
    let inner = build_document_plaintext doc in
    let dsm = string_field 1 destination_jid ++ length_delim 2 inner in length_delim 31 dsm

unfoldable pub build_reply_plaintext : Str → Str → Str → Str → Bytes
build_reply_plaintext text quoted_id quoted_participant quoted_text =
    let quoted = string_field 1 quoted_text in
    let context =
      string_field 1 quoted_id ++ (string_field 2 quoted_participant ++ length_delim 3 quoted) in
    let extended = string_field 1 text ++ length_delim 17 context in length_delim 6 extended

-- `_build_message_plaintext` and `_build_dsm_plaintext` of wa/cli.py
unfoldable pub build_message_plaintext : Str → Bytes
build_message_plaintext text = string_field 1 text

unfoldable pub build_dsm_plaintext : Str → Str → Bytes
build_dsm_plaintext text destination_jid =
    let inner = string_field 1 text in
    let dsm = string_field 1 destination_jid ++ length_delim 2 inner in length_delim 31 dsm
