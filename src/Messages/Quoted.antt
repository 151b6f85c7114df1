-- ===== src/Messages/Quoted.antt =====
-- The readers of wa/messages.py that look into a decrypted Message: the quoted id of a reply, and the
-- chat that a message of our own phone went to. What they do not catch comes out as a raise.
use whatsapp_cli.Common.{ℕ, zero, suc, Bool, true, false, Option, none, some, List, [], ◌∷◌}
use whatsapp_cli.Common.Outcome.{Exc, Outcome, ok, raise, ◌>>=◌, value_error, unicode_error}
use whatsapp_cli.Common.Utf8.{Bytes, Str, utf8_decode, utf8_decode_replace}
use whatsapp_cli.Protobuf.Reader.{Value, raw, Fields, get, decode_fields}

unfoldable pub first_of_values : Option (List Value) → Option Bytes
first_of_values (some (raw b ∷ vs)) = some b
first_of_values _ = none

unfoldable pub first_bytes : Fields → ℕ → Option Bytes
unfolding first_of_values
first_bytes fields field = first_of_values (get field fields)

-- `bytes.decode("utf-8")`
unfoldable pub decode_text : Bytes → Outcome Str
decode_text bytes = elim (utf8_decode bytes) [ none ↦ raise unicode_error | some s ↦ ok s ]

-- `stanza.decode("utf-8") if stanza else ""`
unfoldable pub text_or_empty : Option Bytes → Outcome Str
unfolding decode_text
text_or_empty none = ok []
text_or_empty (some []) = ok []
text_or_empty (some (b ∷ bs)) = decode_text (b ∷ bs)

-- UnicodeDecodeError is a ValueError; IndexError is none.
unfoldable pub is_value_error : Exc → Bool
is_value_error value_error = true
is_value_error unicode_error = true
is_value_error _ = false

-- `try: … except ValueError: handler`
unfoldable pub catch_value_error {ℓ} : {A : Type ℓ} → Outcome A → Outcome A → Outcome A
unfolding is_value_error
catch_value_error (ok a) handler = ok a
catch_value_error (raise e) handler = elim (is_value_error e) [ true ↦ handler | false ↦ raise e ]

abbrev pub content_with_context : List ℕ
content_with_context = 6 ∷ 3 ∷ 9 ∷ 7 ∷ 8 ∷ 26 ∷ []

abbrev pub wrappers : List (ℕ × ℕ)
wrappers = (31, 2) ∷ (40, 1) ∷ (37, 1) ∷ (55, 1) ∷ (53, 1) ∷ []

-- The stanza id in the ContextInfo of one content message.
unfoldable pub quoted_stanza : Option Bytes → Outcome Str
unfolding text_or_empty
quoted_stanza none = ok []
quoted_stanza (some ctx) = do fields ← decode_fields ctx; text_or_empty (first_bytes fields 1)

unfoldable pub quoted_of_content : Bytes → Outcome Str
unfolding quoted_stanza
quoted_of_content content =
    catch_value_error (do fields ← decode_fields content; quoted_stanza (first_bytes fields 17))
      (ok [])

-- The first loop: the first content field that is there decides; `none` means that none is.
unfoldable pub quoted_in_content : List ℕ → Fields → Option (Outcome Str)
quoted_in_content [] top = none
quoted_in_content (field ∷ rest) top = elim (first_bytes top field) [
  | none ↦ quoted_in_content rest top
  | some content ↦ some (quoted_of_content content)
]

-- The loop over the wrappers: the first nested Message, if any.
unfoldable pub nested_message : List (ℕ × ℕ) → Fields → Outcome (Option Bytes)
nested_message [] top = ok none
nested_message ((outer, inner) ∷ rest) top = elim (first_bytes top outer) [
  | none ↦ nested_message rest top
  | some wrapped ↦ elim (decode_fields wrapped) [
    | ok fields ↦ elim (first_bytes fields inner) [
      | none ↦ nested_message rest top
      | some nested ↦ ok (some nested)
    ]
    | raise e ↦ elim (is_value_error e) [ true ↦ nested_message rest top | false ↦ raise e ]
  ]
]

-- `levels` is 5 - `_depth`: the code gives up where `_depth > 4`.
unfoldable pub extract_quoted_id : ℕ → Bytes → Outcome Str
extract_quoted_id zero plaintext = ok []
extract_quoted_id (suc levels) plaintext = elim (decode_fields plaintext) [
  | raise e ↦ ok []
  | ok top ↦ elim (quoted_in_content content_with_context top) [
    | some found ↦ found
    | none ↦
        nested_message wrappers top
        >>= elim [ none ↦ ok [] | some nested ↦ extract_quoted_id levels nested ]
  ]
]

-- `dest.decode("utf-8", "replace") if dest else ""`
unfoldable pub replaced_or_empty : Option Bytes → Str
replaced_or_empty none = []
replaced_or_empty (some bytes) = utf8_decode_replace bytes

unfoldable pub destination_of : Option Bytes → Outcome Str
unfolding replaced_or_empty
destination_of none = ok []
destination_of (some dsm) = do
  fields ← decode_fields dsm
  ok (replaced_or_empty (first_bytes fields 1))

unfoldable pub device_sent_destination : Bytes → Outcome Str
device_sent_destination plaintext =
    catch_value_error (do fields ← decode_fields plaintext; destination_of (first_bytes fields 31))
      (ok [])
