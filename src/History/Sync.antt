-- ===== src/History/Sync.antt =====
-- The notification and the payload of wa/history.py. `zlib.decompress` is an argument; the name of the
-- sync type, which only the logs show, is left out.
use whatsapp_cli.Common.{ℕ, Bool, true, false, not, ◌&&◌, Option, none, some, List, [], ◌∷◌}
use whatsapp_cli.Common.Tests.{if◌then◌else◌}
use whatsapp_cli.Common.Lists.{length, is_empty}
use whatsapp_cli.Common.Outcome.{Exc, Outcome, ok, raise, ◌>>=◌, index_error}
use whatsapp_cli.Common.Utf8.{Bytes, Str, utf8_decode}
use whatsapp_cli.Protobuf.Reader.{Value, int, raw, Fields, get, decode_fields}
use whatsapp_cli.Messages.Quoted.{first_bytes, is_value_error}

-- `f[tag][0] if f.get(tag) else None`
abbrev pub head_of : Option (List Value) → Option Value
head_of (some (v ∷ vs)) = some v
head_of _ = none

abbrev pub first_value : Fields → ℕ → Option Value
first_value f tag = head_of (get tag f)

pub record HistorySyncNotification : Type 0 where
  pub file_sha256 : Option Value
  pub file_length : Option Value
  pub media_key : Option Value
  pub file_enc_sha256 : Option Value
  pub direct_path : Option Value
  pub sync_type : Option Value
  pub chunk_order : Option Value
  pub original_message_id : Option Value
  pub progress : Option Value
  pub inline_payload : Option Value
  pub request_id : Option Value

unfoldable pub decode_history_sync_notification : Bytes → Outcome HistorySyncNotification
decode_history_sync_notification hsn_bytes = do
  f ← decode_fields hsn_bytes
  ok (record {
    file_sha256 = first_value f 1;
    file_length = first_value f 2;
    media_key = first_value f 3;
    file_enc_sha256 = first_value f 4;
    direct_path = first_value f 5;
    sync_type = first_value f 6;
    chunk_order = first_value f 7;
    original_message_id = first_value f 8;
    progress = first_value f 9;
    inline_payload = first_value f 11;
    request_id = first_value f 12;
  })

-- `except (ValueError, IndexError)`
unfoldable pub is_malformed : Exc → Bool
is_malformed index_error = true
is_malformed e = is_value_error e

abbrev pub or_malformed : Outcome (Option Bytes) → Outcome (Option Bytes)
or_malformed (ok o) = ok o
or_malformed (raise e) = if is_malformed e then ok none else raise e

unfoldable pub notification_of : Option Bytes → Outcome (Option Bytes)
notification_of none = ok none
notification_of (some protocol) = do fields ← decode_fields protocol; ok (first_bytes fields 6)

unfoldable pub history_sync_notification_bytes : Bytes → Outcome (Option Bytes)
unfolding notification_of is_malformed
history_sync_notification_bytes message =
    or_malformed (decode_fields message >>= λ top. notification_of (first_bytes top 12))

abbrev pub is_there : Option Bytes → Bool
is_there none = false
is_there (some b) = true

unfoldable pub is_history_sync_notification : Bytes → Outcome Bool
unfolding history_sync_notification_bytes
is_history_sync_notification message = do
  found ← history_sync_notification_bytes message
  ok (is_there found)

-- The bytes among the values of a field
unfoldable pub all_bytes : List Value → List Bytes
all_bytes [] = []
all_bytes (raw b ∷ vs) = b ∷ all_bytes vs
all_bytes (int n ∷ vs) = all_bytes vs

abbrev pub values_of : Option (List Value) → List Value
values_of none = []
values_of (some vs) = vs

-- The text of a field, empty where it is absent or no bytes; `none` where the bytes are not UTF-8
unfoldable pub utf8_field : Option Value → Option Str
utf8_field (some (raw b)) = utf8_decode b
utf8_field (some (int n)) = some []
utf8_field none = some []

-- Two fields of one entry; `none` where one of them is not UTF-8
unfoldable pub text_pair : Bytes → Outcome (Option (Str × Str))
unfolding utf8_field
text_pair entry = do
  f ← decode_fields entry
  ok (elim (utf8_field (first_value f 1)) [
    | none ↦ none
    | some a ↦ elim (utf8_field (first_value f 2)) [ none ↦ none | some b ↦ some (a, b) ]
  ])

unfoldable pub pushnames_of : List Bytes → Outcome (List (Str × Str))
unfolding text_pair
pushnames_of [] = ok []
pushnames_of (entry ∷ entries) = do
  pair ← text_pair entry
  rest ← pushnames_of entries
  ok (elim pair [ none ↦ rest | some p ↦ p ∷ rest ])

-- The pairs of a LID and its phone number, where both are there
unfoldable pub lid_to_pn_of : List Bytes → Outcome (List (Str × Str))
unfolding text_pair
lid_to_pn_of [] = ok []
lid_to_pn_of (entry ∷ entries) = do
  pair ← text_pair entry
  rest ← lid_to_pn_of entries
  ok (elim pair [
    | none ↦ rest
    | some p ↦ if not (is_empty p.0) && not (is_empty p.1) then (p.1, p.0) ∷ rest else rest
  ])

pub record HistorySync : Type 0 where
  pub sync_type : Option Value
  pub conversations : List Bytes
  pub pushnames : List (Str × Str)
  pub lid_to_pn : List (Str × Str)
  pub raw_size : ℕ

unfoldable pub parse_history_sync : (Bytes → Outcome Bytes) → Bytes → Outcome HistorySync
unfolding pushnames_of lid_to_pn_of all_bytes
parse_history_sync decompress payload = do
  decompressed ← decompress payload
  f ← decode_fields decompressed
  pushnames ← pushnames_of (all_bytes (values_of (get 7 f)))
  lid_to_pn ← lid_to_pn_of (all_bytes (values_of (get 15 f)))
  ok (record {
    sync_type = first_value f 1;
    conversations = all_bytes (values_of (get 2 f));
    pushnames = pushnames;
    lid_to_pn = lid_to_pn;
    raw_size = length decompressed;
  })
