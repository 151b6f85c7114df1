-- ===== src/MessageExamples.antt =====
-- The theorems on the text of messages, the hash of devices and the history at concrete inputs.
use mathlib.Core.List.Perm as Perm
use whatsapp_cli.WaBinary.Node.{Jid}
use whatsapp_cli.Noise.Primitives.{transparent}
use whatsapp_cli.Messages.Phash.{phash}
use whatsapp_cli.Messages.PhashOrder.{phash-perm}
use whatsapp_cli.Common.{ℕ, ◌≡◌, refl, ◌⊎◌, none, some, [], ◌∷◌, arith}
use whatsapp_cli.Common.Lists.{length}
use whatsapp_cli.Common.Outcome.{ok}
use whatsapp_cli.Common.Utf8.{Bytes, codes, utf8_encode}
use whatsapp_cli.Protobuf.Writer.{varint, length_delim, string_field, tag}
use whatsapp_cli.Messages.Build.{build_reply_plaintext, wrap_device_sent}
use whatsapp_cli.Messages.Text.{extract_text}
use whatsapp_cli.Messages.ReadBack.{extract_text-build_reply_plaintext}
use whatsapp_cli.History.Sync.{history_sync_notification_bytes}
use whatsapp_cli.History.Notified.{Carries, history_sync_notification_bytes_returns}

abbrev reply : Bytes
reply = build_reply_plaintext (codes "ok") (codes "3EB0") (codes "33@s.whatsapp.net") (codes "hé")

length-copy : length (wrap_device_sent reply (codes "44@s.whatsapp.net")) ≡ 65
unfolding wrap_device_sent build_reply_plaintext length_delim tag varint string_field utf8_encode
length-copy = refl

extract_text-build_reply_plaintext_example :
    (extract_text 4 reply ≡ codes "ok")
    × (extract_text 5 (wrap_device_sent reply (codes "44@s.whatsapp.net")) ≡ codes "ok")
extract_text-build_reply_plaintext_example =
    extract_text-build_reply_plaintext 3 111 (codes "k") (codes "3EB0") (codes "33@s.whatsapp.net")
      (codes "hé") (codes "44@s.whatsapp.net") (ground arith) (omega (arith, length-copy))

-- A message with the notification `[7]`
abbrev notified : Bytes
notified = 98 ∷ 3 ∷ 50 ∷ 1 ∷ 7 ∷ []

history_sync_notification_bytes_returns_example :
    ((hsn : Bytes) × ((history_sync_notification_bytes notified ≡ ok (some hsn))
        × Carries notified hsn))
    ⊎ ((history_sync_notification_bytes notified ≡ ok none)
        × ((hsn : Bytes) → Carries notified hsn → ⊥))
history_sync_notification_bytes_returns_example = history_sync_notification_bytes_returns notified

abbrev device_of : ℕ → Jid
device_of device = record {
  user = codes "33";
  server = codes "lid";
  agent = 0;
  device = device;
  integrator = 0;
}

phash-perm_example :
    phash transparent (device_of 2 ∷ device_of 1 ∷ [])
    ≡ phash transparent (device_of 1 ∷ device_of 2 ∷ [])
phash-perm_example =
    phash-perm transparent (device_of 2 ∷ device_of 1 ∷ []) (device_of 1 ∷ device_of 2 ∷ [])
      (Perm.swap (device_of 1) (device_of 2) [])
