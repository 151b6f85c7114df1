-- ===== src/History/Conversation.antt =====
-- The conversations of wa/history.py. The rows of a generator that were given before it raises stay
-- given, so that they come with the outcome.
use whatsapp_cli.Common.{ℕ, Bool, false, not, Option, none, some, List, [], ◌∷◌}
use whatsapp_cli.Common.Tests.{◌==◌, ltb, if◌then◌else◌}
use whatsapp_cli.Common.Lists.{is_empty}
use whatsapp_cli.Common.Outcome.{Outcome, ok, raise, ◌>>=◌}
use whatsapp_cli.Common.Utf8.{Bytes, Str, codes, utf8_decode}
use whatsapp_cli.Protobuf.Reader.{Value, int, raw, Fields, get, decode_fields}
use whatsapp_cli.Messages.Quoted.{first_bytes, extract_quoted_id}
use whatsapp_cli.Messages.Text.{extract_text}
use whatsapp_cli.Messages.MediaRef.{MediaRef, extract_media}
use whatsapp_cli.History.Sync.{first_value, values_of, all_bytes}

pub record HistoryMessage : Type 0 where
  pub chat_jid : Str
  pub sender_jid : Str
  pub sender_name : Str
  pub timestamp : ℕ
  pub text : Str
  pub from_me : Bool
  pub msg_id : Str
  pub quoted_id : Str
  pub media : Option MediaRef

-- A value that is an int
abbrev pub number_of : Option Value → Option ℕ
number_of (some (int n)) = some n
number_of _ = none

unfoldable pub conversation_end_type : Bytes → Outcome (Option ℕ)
conversation_end_type conv_bytes = do
  conv ← decode_fields conv_bytes
  ok (number_of (first_value conv 11))

-- The text of bytes that are there and UTF-8
unfoldable pub text_or_blank : Option Bytes → Str
text_or_blank none = []
text_or_blank (some b) = elim (utf8_decode b) [ none ↦ [] | some s ↦ s ]

abbrev pub or_nought : Option ℕ → ℕ
or_nought none = 0
or_nought (some n) = n

unfoldable pub conversation_name : Bytes → Outcome (Str × Str × ℕ)
unfolding text_or_blank
conversation_name conv_bytes = do
  conv ← decode_fields conv_bytes
  ok (
    text_or_blank (first_bytes conv 1),
    text_or_blank (first_bytes conv 13),
    or_nought (number_of (first_value conv 5)),
  )

-- The key of a message: the fields of its bytes, none where it has none
unfoldable pub key_of : Option Bytes → Outcome Fields
key_of none = ok []
key_of (some b) = decode_fields b

-- `bool(value)`
abbrev pub is_true : Option Value → Bool
is_true none = false
is_true (some (int n)) = ltb 0 n
is_true (some (raw b)) = not (is_empty b)

-- `a or b`
abbrev pub first_text : Str → Str → Str
first_text [] b = b
first_text (c ∷ cs) b = c ∷ cs

-- What the message itself holds: text, the id of a quoted message and a reference to media
abbrev pub Content : Type 0
Content = Str × Str × Option MediaRef

unfoldable pub content_in : Option Bytes → Outcome Content
content_in none = ok ([], [], none)
content_in (some message) = do
  quoted_id ← extract_quoted_id 5 message
  media ← extract_media 5 message
  ok (extract_text 5 message, quoted_id, media)

-- `STUB_CIPHERTEXT` and `PLACEHOLDER_TEXT`
abbrev pub stub_ciphertext : ℕ
stub_ciphertext = 2

abbrev pub placeholder_text : Str
placeholder_text = codes "[waiting for this message]"

abbrev pub is_stub : Option ℕ → Bool
is_stub none = false
is_stub (some n) = n == stub_ciphertext

unfoldable pub text_or_placeholder : Str → Fields → Str
text_or_placeholder [] wmi =
    if is_stub (number_of (first_value wmi 24)) then placeholder_text else []
text_or_placeholder (c ∷ cs) wmi = c ∷ cs

-- `int(timestamp)` of a value that is not an int is `int` of bytes, an argument.
abbrev pub timestamp_of : (Bytes → Outcome ℕ) → Option Value → Outcome ℕ
timestamp_of int_of_bytes none = ok 0
timestamp_of int_of_bytes (some (int n)) = ok n
timestamp_of int_of_bytes (some (raw b)) = int_of_bytes b

-- The row of one WebMessageInfo
unfoldable pub row_of_message : (Bytes → Outcome ℕ) → Str → Bytes → Outcome HistoryMessage
unfolding key_of content_in text_or_placeholder
row_of_message int_of_bytes chat_id wmi_bytes = do
  wmi ← decode_fields wmi_bytes
  key ← key_of (first_bytes wmi 1)
  (text, quoted_id, media) ← content_in (first_bytes wmi 2)
  timestamp ← timestamp_of int_of_bytes (first_value wmi 3)
  ok (record {
    chat_jid = chat_id;
    sender_jid =
        first_text
          (first_text (text_or_blank (first_bytes key 4)) (text_or_blank (first_bytes wmi 5)))
          chat_id;
    sender_name = text_or_blank (first_bytes wmi 19);
    timestamp = timestamp;
    text = text_or_placeholder text wmi;
    from_me = is_true (first_value key 2);
    msg_id = text_or_blank (first_bytes key 3);
    quoted_id = quoted_id;
    media = media;
  })

-- One HistorySyncMsg: its row, if it has a message
unfoldable pub row_of_entry : (Bytes → Outcome ℕ) → Str → Bytes → Outcome (Option HistoryMessage)
unfolding row_of_message
row_of_entry int_of_bytes chat_id hsm_bytes = do
  hsm ← decode_fields hsm_bytes
  elim (first_bytes hsm 1) [
    | none ↦ ok none
    | some wmi_bytes ↦ row_of_message int_of_bytes chat_id wmi_bytes >>= λ row. ok (some row)
  ]

abbrev pub Rows : Type 0
Rows = List HistoryMessage × Outcome (Unit {0})

unfoldable pub rows_of : (Bytes → Outcome ℕ) → Str → List Bytes → Rows
unfolding row_of_entry
rows_of int_of_bytes chat_id [] = ([], ok tt)
rows_of int_of_bytes chat_id (entry ∷ entries) =
    let rest = rows_of int_of_bytes chat_id entries in
    elim (row_of_entry int_of_bytes chat_id entry) [
      | raise e ↦ ([], raise e)
      | ok found ↦ elim found [ none ↦ rest | some row ↦ (row ∷ rest.0, rest.1) ]
    ]

unfoldable pub iter_conversation_messages : (Bytes → Outcome ℕ) → Bytes → Rows
unfolding conversation_name rows_of
iter_conversation_messages int_of_bytes conv_bytes = elim (conversation_name conv_bytes) [
  | raise e ↦ ([], raise e)
  | ok names ↦ elim (decode_fields conv_bytes) [
    | raise e ↦ ([], raise e)
    | ok conv ↦ rows_of int_of_bytes names.0 (all_bytes (values_of (get 2 conv)))
  ]
]
