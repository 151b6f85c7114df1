-- ===== src/History/Notified.antt =====
-- Whether a message carries a history notification (wa/history.py) is answered on every input.
use whatsapp_cli.Common.{◌≡◌, refl, ◌⊎◌, inl, inr, true, Option, none, some}
use whatsapp_cli.Common.Tests.{Option-cases}
use whatsapp_cli.Common.Outcome.{Exc, Outcome, ok, raise, ◌>>=◌, Outcome-cases}
use whatsapp_cli.Common.Utf8.{Bytes}
use whatsapp_cli.Protobuf.Reader.{Fields, decode_fields}
use whatsapp_cli.Protobuf.Total.{IsParseError, decode_fields_error}
use whatsapp_cli.Messages.Quoted.{first_bytes, is_value_error}
use whatsapp_cli.History.Sync.{is_malformed, notification_of, history_sync_notification_bytes}

parse_error_caught : (e : Exc) → IsParseError e → is_malformed e ≡ true
unfolding is_malformed is_value_error
parse_error_caught e (inl h) = rw (h) refl
parse_error_caught e (inr h) = rw (h) refl

-- What the message carries, and what is found: nothing where any part is missing or malformed.
pub record Carries (message hsn : Bytes) : Type 0 where
  pub top : Fields
  pub protocol : Bytes
  pub fields : Fields
  pub message_parses : decode_fields message ≡ ok top
  pub protocol_there : first_bytes top 12 ≡ some protocol
  pub protocol_parses : decode_fields protocol ≡ ok fields
  pub notification_there : first_bytes fields 6 ≡ some hsn

-- What the two levels of decoding give.
abbrev decoded : Bytes → Outcome (Option Bytes)
decoded message = decode_fields message >>= λ top. notification_of (first_bytes top 12)

answers :
    (message : Bytes) (o : Option Bytes)
    → decoded message ≡ ok o
    → history_sync_notification_bytes message ≡ ok o
unfolding history_sync_notification_bytes
answers message o h = rw (h) refl

malformed :
    (message : Bytes) (e : Exc)
    → decoded message ≡ raise e
    → IsParseError e
    → history_sync_notification_bytes message ≡ ok none
unfolding history_sync_notification_bytes
malformed message e h p = rw (h, parse_error_caught e p) refl

-- The reader of the notification gives an answer on every message, and raises on none. It is some
-- bytes exactly if the message parses and has a protocolMessage that parses and has them.
pub history_sync_notification_bytes_returns :
    (message : Bytes)
    → ((hsn : Bytes) × ((history_sync_notification_bytes message ≡ ok (some hsn))
          × Carries message hsn))
      ⊎ ((history_sync_notification_bytes message ≡ ok none)
          × ((hsn : Bytes) → Carries message hsn → ⊥))
unfolding notification_of
history_sync_notification_bytes_returns message = elim (Outcome-cases (decode_fields message)) [
  | inl (e, h) ↦ inr (
    malformed message e (rw (h) refl) (decode_fields_error message e h),
    λ hsn c. cc (h, c.message_parses),
  )
  | inr (top, h) ↦ elim (Option-cases (first_bytes top 12)) [
    | inl h12 ↦ inr (
      answers message none (rw (h, h12) refl),
      λ hsn c.
          let same : top ≡ c.top = cc (h, c.message_parses) in cc (same, h12, c.protocol_there),
    )
    | inr (protocol, h12) ↦ elim (Outcome-cases (decode_fields protocol)) [
      | inl (e, hp) ↦ inr (
        malformed message e (rw (h, h12, hp) refl) (decode_fields_error protocol e hp),
        λ hsn c.
            let same : top ≡ c.top = cc (h, c.message_parses) in
            let same' : protocol ≡ c.protocol = cc (same, h12, c.protocol_there) in
            cc (same', hp, c.protocol_parses),
      )
      | inr (fields, hp) ↦ elim (Option-cases (first_bytes fields 6)) [
        | inl h6 ↦ inr (
          answers message none (rw (h, h12, hp, h6) refl),
          λ hsn c.
              let same : top ≡ c.top = cc (h, c.message_parses) in
              let same' : protocol ≡ c.protocol = cc (same, h12, c.protocol_there) in
              let same'' : fields ≡ c.fields = cc (same', hp, c.protocol_parses) in
              cc (same'', h6, c.notification_there),
        )
        | inr (hsn, h6) ↦ inl (
          hsn,
          (
            answers message (some hsn) (rw (h, h12, hp, h6) refl),
            record {
              top = top;
              protocol = protocol;
              fields = fields;
              message_parses = h;
              protocol_there = h12;
              protocol_parses = hp;
              notification_there = h6;
            },
          ),
        )
      ]
    ]
  ]
]
