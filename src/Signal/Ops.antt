-- ===== src/Signal/Ops.antt =====
-- The operations of `SignalSession` (wa/signal/session.py).
use whatsapp_cli.Common.{ℕ, Bool, true, false, Option, none, some, List, ◌∷◌}
use whatsapp_cli.Common.Tests.{◌==◌, if◌then◌else◌}
use whatsapp_cli.Common.Outcome.{Outcome, ok, raise}
use whatsapp_cli.Common.Action.{Action, ◌>>=◌, ◌>>◌, for_each, return}
use whatsapp_cli.Common.Utf8.{Bytes, Str, codes}
use whatsapp_cli.Media.Cipher.{unpad}
use whatsapp_cli.Device.State.{OneTimePrekey}
use whatsapp_cli.Signal.State.{
  SessionBundle, Libsignal, SignalSession, parsed, on_store, persist_session, persist_sender_key,
}

module _ {Store Record KeyRecord : Type 0} (lib : Libsignal Store Record KeyRecord) where
  unfoldable pub decrypt_pkmsg : Str → ℕ → Bytes → Action (SignalSession Store) Bytes
  decrypt_pkmsg jid_user device_num ciphertext = do
    msg ← parsed (lib.prekey_message ciphertext)
    plaintext ← on_store (lib.message_decrypt_prekey (jid_user, device_num) msg)
    persist_session lib (jid_user, device_num)
    return (unpad plaintext)

  unfoldable pub decrypt_msg : Str → ℕ → Bytes → Action (SignalSession Store) Bytes
  decrypt_msg jid_user device_num ciphertext = do
    msg ← parsed (lib.signal_message ciphertext)
    plaintext ← on_store (lib.message_decrypt_signal (jid_user, device_num) msg)
    persist_session lib (jid_user, device_num)
    return (unpad plaintext)

  -- The ciphertext and the type of its `<enc>`
  unfoldable pub encrypt_msg : Str → ℕ → Bytes → Action (SignalSession Store) (Bytes × Str)
  encrypt_msg jid_user device_num plaintext = do
    (ct, mtype) ← on_store (lib.message_encrypt (jid_user, device_num) plaintext)
    persist_session lib (jid_user, device_num)
    return (ct, if mtype == 3 then codes "pkmsg" else codes "msg")

  abbrev pub optional_key : Option Bytes → Outcome (Option Bytes)
  optional_key none = ok none
  optional_key (some key) = elim (lib.public_key (5 ∷ key)) [
    | raise e ↦ raise e
    | ok k ↦ ok (some k)
  ]

  -- The arguments as a record, without the DJB type byte on its keys
  unfoldable pub install_prekey_bundle :
      Str → ℕ → SessionBundle → Action (SignalSession Store) (Unit {0})
  install_prekey_bundle jid_user device_num b = do
    ik ← parsed (lib.identity_key (5 ∷ b.identity))
    spk ← parsed (lib.public_key (5 ∷ b.signed_pre_key))
    opk ← parsed (optional_key b.pre_key)
    on_store (
        lib.process_prekey_bundle (jid_user, device_num)
          (record b {
            device_num = device_num;
            pre_key = opk;
            signed_pre_key = spk;
            identity = ik;
          }))
    persist_session lib (jid_user, device_num)

  unfoldable pub has_session : Str → ℕ → SignalSession Store → Bool
  has_session jid_user device_num s = elim (lib.load_session s.store (jid_user, device_num)) [
    | raise e ↦ false
    | ok o ↦ elim o [ none ↦ false | some r ↦ true ]
  ]

  unfoldable pub process_sender_key_distribution :
      Str → Str → ℕ → Bytes → Action (SignalSession Store) (Unit {0})
  process_sender_key_distribution group_id sender_user sender_device skdm_bytes = do
    skdm ← parsed (lib.distribution_message skdm_bytes)
    on_store (lib.process_distribution (group_id, (sender_user, sender_device)) skdm)
    persist_sender_key lib (group_id, (sender_user, sender_device))

  unfoldable pub decrypt_skmsg : Str → Str → ℕ → Bytes → Action (SignalSession Store) Bytes
  decrypt_skmsg group_id sender_user sender_device ciphertext = do
    skm ← parsed (lib.sender_key_message ciphertext)
    plaintext ← on_store (lib.group_decrypt (group_id, (sender_user, sender_device)) skm)
    persist_sender_key lib (group_id, (sender_user, sender_device))
    return (unpad plaintext)

  unfoldable pub create_sender_key_distribution : Str → Str → ℕ → Action (SignalSession Store) Bytes
  create_sender_key_distribution group_id sender_user sender_device = do
    skdm ← on_store (lib.create_distribution (group_id, (sender_user, sender_device)))
    persist_sender_key lib (group_id, (sender_user, sender_device))
    return skdm

  unfoldable pub group_encrypt : Str → Str → ℕ → Bytes → Action (SignalSession Store) Bytes
  group_encrypt group_id sender_user sender_device plaintext = do
    ct ← on_store (lib.group_encrypt (group_id, (sender_user, sender_device)) plaintext)
    persist_sender_key lib (group_id, (sender_user, sender_device))
    return ct

  unfoldable pub save_prekey : OneTimePrekey → Action (SignalSession Store) (Unit {0})
  save_prekey k = do
    pub_key ← parsed (lib.public_key (5 ∷ k.pub_key))
    priv ← parsed (lib.private_key k.priv)
    on_store (lib.save_pre_key k.key_id (pub_key, priv))

  unfoldable pub save_one_time_prekeys :
      List OneTimePrekey → Action (SignalSession Store) (Unit {0})
  unfolding save_prekey
  save_one_time_prekeys = for_each save_prekey
