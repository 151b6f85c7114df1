-- ===== src/WaBinary/JidForms.antt =====
-- Which JIDs come back as they were, and which do not.
use whatsapp_cli.Common.{ℕ, zero, suc, ◌+◌, ◌%◌, ◌<◌, ◌≡◌, refl, ap, ◌∙◌, Bool, true, ◌++◌, arith}
use whatsapp_cli.Common.Tests.{ltb}
use whatsapp_cli.Common.Lists.{length, drop}
use whatsapp_cli.Common.Outcome.{ok}
use whatsapp_cli.Common.Utf8.{Bytes, Str, same_bytes}
use whatsapp_cli.WaBinary.Node.{Jid, is_ad, actual_agent, default_user_server, hosted_server, jid}
use whatsapp_cli.WaBinary.Encoder.{write_jid}
use whatsapp_cli.WaBinary.Decoder.{server_of_agent, next_value, read_value}
use whatsapp_cli.WaBinary.Jids.{IsWritableJid, plain_jid, wire_jid, next_value-write_jid}

-- A device of a phone number.
abbrev pub user_jid : Str → ℕ → Jid
user_jid user device = plain_jid user default_user_server 0 device 0

-- A hosted account, as `JID.parse` makes it, without an agent.
abbrev pub hosted_jid : Str → ℕ → Jid
hosted_jid user device = plain_jid user hosted_server 0 device 0

wire_jid_user :
    (user : Str) (device : ℕ)
    → device < 256
    → wire_jid (user_jid user device) ≡ user_jid user device
unfolding wire_jid is_ad actual_agent server_of_agent same_bytes
wire_jid_user user zero h = refl
wire_jid_user user (suc d) h =
    let positive : ltb 0 (suc d) ≡ true = ground arith in
    let same : suc d % 256 ≡ suc d = omega arith in rw positive (ap (λ k. user_jid user k) same)

wire_jid_hosted :
    (user : Str) (device : ℕ) → wire_jid (hosted_jid user device) ≡ user_jid user (device % 256)
unfolding wire_jid is_ad actual_agent server_of_agent same_bytes
wire_jid_hosted user device = refl

-- The JID of a phone number's device below 256 is read back as it was written.
next_value-write_jid_user :
    (user : Str) (device : ℕ)
    → IsWritableJid (user_jid user device)
    → device < 256
    → (enc : Bytes) × (write_jid (user_jid user device) ≡ ok enc)
      × ((depth : ℕ) (as_string : Bool) (bytes : Bytes) (pos : ℕ) (rest : Bytes)
          → drop pos bytes ≡ enc ++ rest
          → next_value (read_value bytes (suc (suc depth))) bytes as_string pos
            ≡ ok (jid (user_jid user device), pos + length enc))
next_value-write_jid_user user device h small =
    let (enc, written, reads) = next_value-write_jid (user_jid user device) h in
    (
      enc,
      written,
      λ depth as_string bytes pos rest here.
          reads depth as_string bytes pos rest here
          ∙ ap (λ j. ok (jid j, pos + length enc)) (wire_jid_user user device small),
    )

-- The JID of a hosted account without an agent is read back as that of a phone number: the byte of
-- the agent, from which the reader takes the server, is 0.
pub next_value-write_jid_hosted :
    (user : Str) (device : ℕ)
    → IsWritableJid (hosted_jid user device)
    → (enc : Bytes) × (write_jid (hosted_jid user device) ≡ ok enc)
      × ((depth : ℕ) (as_string : Bool) (bytes : Bytes) (pos : ℕ) (rest : Bytes)
          → drop pos bytes ≡ enc ++ rest
          → next_value (read_value bytes (suc (suc depth))) bytes as_string pos
            ≡ ok (jid (user_jid user (device % 256)), pos + length enc))
next_value-write_jid_hosted user device h =
    let (enc, written, reads) = next_value-write_jid (hosted_jid user device) h in
    (
      enc,
      written,
      λ depth as_string bytes pos rest here.
          reads depth as_string bytes pos rest here
          ∙ ap (λ j. ok (jid j, pos + length enc)) (wire_jid_hosted user device),
    )
