-- ===== src/Messages/MediaRef.antt =====
-- `extract_media` of wa/messages.py: what is needed to download the attachment of a message.
use whatsapp_cli.Common.{
  ℕ, zero, suc, Bool, true, false, ◌&&◌, ◌||◌, Option, none, some, List, [], ◌∷◌,
}
use whatsapp_cli.Common.Tests.{ltb, if◌then◌else◌}
use whatsapp_cli.Common.Outcome.{Outcome, ok, raise, ◌>>=◌}
use whatsapp_cli.Common.Utf8.{Bytes, Str, codes, same_bytes, utf8_decode_replace}
use whatsapp_cli.Common.Base64.{b64encode}
use whatsapp_cli.Common.Dict.{Dict, lookup}
use whatsapp_cli.Protobuf.Reader.{Value, int, raw, Fields, get, decode_fields}
use whatsapp_cli.Messages.Quoted.{first_bytes, wrappers, nested_message, is_value_error}

-- A value of the reference is a text or a number.
pub data RefValue : Type 0 where
  ref_text : Str → RefValue
  ref_number : ℕ → RefValue

pub record MediaRef : Type 0 where
  pub kind : Str
  pub entries : Dict RefValue

-- The rows of `_MEDIA_LAYOUT`: the field of the message, its kind, and the fields by name.
pub record Layout : Type 0 where
  pub field : ℕ
  pub layout_kind : Str
  pub names : List (Str × ℕ)

abbrev pub media_layout : List Layout
media_layout =
    record {
      field = 8;
      layout_kind = codes "audio";
      names =
          (codes "url", 1)
          ∷ (codes "mimetype", 2)
          ∷ (codes "file_sha256", 3)
          ∷ (codes "file_length", 4)
          ∷ (codes "seconds", 5)
          ∷ (codes "ptt", 6)
          ∷ (codes "media_key", 7)
          ∷ (codes "file_enc_sha256", 8)
          ∷ (codes "direct_path", 9)
          ∷ [];
    }
    ∷ record {
      field = 3;
      layout_kind = codes "image";
      names =
          (codes "url", 1)
          ∷ (codes "mimetype", 2)
          ∷ (codes "file_sha256", 4)
          ∷ (codes "file_length", 5)
          ∷ (codes "media_key", 8)
          ∷ (codes "file_enc_sha256", 9)
          ∷ (codes "direct_path", 11)
          ∷ [];
    }
    ∷ record {
      field = 9;
      layout_kind = codes "video";
      names =
          (codes "url", 1)
          ∷ (codes "mimetype", 2)
          ∷ (codes "file_sha256", 3)
          ∷ (codes "file_length", 4)
          ∷ (codes "seconds", 5)
          ∷ (codes "media_key", 6)
          ∷ (codes "file_enc_sha256", 11)
          ∷ (codes "direct_path", 13)
          ∷ [];
    }
    ∷ record {
      field = 7;
      layout_kind = codes "document";
      names =
          (codes "url", 1)
          ∷ (codes "mimetype", 2)
          ∷ (codes "file_sha256", 4)
          ∷ (codes "file_length", 5)
          ∷ (codes "media_key", 7)
          ∷ (codes "file_name", 8)
          ∷ (codes "file_enc_sha256", 9)
          ∷ (codes "direct_path", 10)
          ∷ [];
    }
    ∷ []

abbrev pub is_bytes_key : Str → Bool
is_bytes_key name =
    same_bytes name (codes "media_key")
    || (same_bytes name (codes "file_sha256") || same_bytes name (codes "file_enc_sha256"))

unfoldable pub ref_value : Str → Value → RefValue
ref_value name (int n) = ref_number n
ref_value name (raw b) = ref_text (if is_bytes_key name then b64encode b else utf8_decode_replace b)

-- The loop over the names of a layout
unfoldable pub ref_entries : List (Str × ℕ) → Fields → Dict RefValue
unfolding ref_value
ref_entries [] inner = []
ref_entries ((name, num) ∷ names) inner =
    let others = ref_entries names inner in
    elim (get num inner) [
      | none ↦ others
      | some vs ↦ elim vs [ [] ↦ others | v ∷ more ↦ (name, ref_value name v) ∷ others ]
    ]

-- `ref.get(name)` in a condition
abbrev pub is_given : Option RefValue → Bool
is_given none = false
is_given (some (ref_number n)) = ltb 0 n
is_given (some (ref_text [])) = false
is_given (some (ref_text (c ∷ s))) = true

unfoldable pub downloadable : Dict RefValue → Bool
downloadable entries =
    is_given (lookup (codes "media_key") entries)
    && (is_given (lookup (codes "url") entries) || is_given (lookup (codes "direct_path") entries))

unfoldable pub media_of_content : Layout → Bytes → Outcome (Option MediaRef)
unfolding ref_entries downloadable
media_of_content layout content = elim (decode_fields content) [
  | raise e ↦ elim (is_value_error e) [ true ↦ ok none | false ↦ raise e ]
  | ok inner ↦
      let entries = ref_entries layout.names inner in
      ok (
        if downloadable entries
        then some (record { kind = layout.layout_kind; entries = entries })
        else none)
]

-- The first loop: the first kind of media that is there decides; `none` means that none is.
unfoldable pub media_in_content : List Layout → Fields → Option (Outcome (Option MediaRef))
unfolding media_of_content
media_in_content [] top = none
media_in_content (layout ∷ rest) top = elim (first_bytes top layout.field) [
  | none ↦ media_in_content rest top
  | some content ↦ some (media_of_content layout content)
]

-- `levels` is 5 - `_depth`.
unfoldable pub extract_media : ℕ → Bytes → Outcome (Option MediaRef)
unfolding media_in_content
extract_media zero plaintext = ok none
extract_media (suc levels) plaintext = elim (decode_fields plaintext) [
  | raise e ↦ ok none
  | ok top ↦ elim (media_in_content media_layout top) [
    | some found ↦ found
    | none ↦
        nested_message wrappers top
        >>= elim [ none ↦ ok none | some nested ↦ extract_media levels nested ]
  ]
]
