-- ===== src/Signal/Mirror.antt =====
-- The file of wa/signal/session.py after any run of its operations.
use whatsapp_cli.Common.{ℕ, List, [], ◌∷◌}
use whatsapp_cli.Common.Outcome.{Outcome}
use whatsapp_cli.Common.Action.{Action, after_step, for_each, return}
use whatsapp_cli.Common.Utf8.{Bytes, Str}
use whatsapp_cli.Device.State.{OneTimePrekey}
use whatsapp_cli.Signal.State.{
  Address, SenderKeyName, SessionBundle, Libsignal, SignalSession, with_store, persist_sender_key,
}
use whatsapp_cli.Signal.Ops.{
  decrypt_pkmsg, decrypt_msg, encrypt_msg, install_prekey_bundle, process_sender_key_distribution,
  optional_key, decrypt_skmsg, create_sender_key_distribution, group_encrypt, save_prekey,
  save_one_time_prekeys,
}
use whatsapp_cli.Signal.Saved.{
  Leaves, Establishes, Saved, Keeps, then-Keeps, other_call, session_call, last_call,
  persist_sender_key-Keeps,
}

-- What the package documents of its sessions: a message of a peer, or its bundle, leaves a session
-- with it where the call returns and touches no other; groups and prekeys touch none.
pub record KeepsSessions {Store Record KeyRecord : Type 0} (lib : Libsignal Store Record KeyRecord)
    : Type 0 where
  pub of_prekey :
      (a : Address) (m : Bytes) (st : Store)
      → Establishes lib a st (lib.message_decrypt_prekey a m st)
  pub of_signal :
      (a : Address) (m : Bytes) (st : Store)
      → Establishes lib a st (lib.message_decrypt_signal a m st)
  pub of_encrypt :
      (a : Address) (m : Bytes) (st : Store) → Establishes lib a st (lib.message_encrypt a m st)
  pub of_bundle :
      (a : Address) (b : SessionBundle) (st : Store)
      → Establishes lib a st (lib.process_prekey_bundle a b st)
  pub of_distribution :
      (n : SenderKeyName) (m : Bytes) (st : Store) → Leaves lib st (lib.process_distribution n m st)
  pub of_creation : (n : SenderKeyName) (st : Store) → Leaves lib st (lib.create_distribution n st)
  pub of_group_decrypt :
      (n : SenderKeyName) (m : Bytes) (st : Store) → Leaves lib st (lib.group_decrypt n m st)
  pub of_group_encrypt :
      (n : SenderKeyName) (m : Bytes) (st : Store) → Leaves lib st (lib.group_encrypt n m st)
  pub of_pre_key :
      (id : ℕ) (k : Bytes × Bytes) (st : Store) → Leaves lib st (lib.save_pre_key id k st)

-- The operations with their arguments.
pub data Op : Type 0 where
  of_pkmsg of_msg of_plaintext : Str → ℕ → Bytes → Op
  of_install : Str → ℕ → SessionBundle → Op
  of_skdm of_skmsg of_group_plaintext : Str → Str → ℕ → Bytes → Op
  of_new_skdm : Str → Str → ℕ → Op
  of_prekeys : List OneTimePrekey → Op

module _ {Store Record KeyRecord : Type 0} (lib : Libsignal Store Record KeyRecord) where
  -- The state that an operation leaves, whether it returns or raises.
  unfoldable pub run_op : Op → SignalSession Store → SignalSession Store
  run_op (of_pkmsg user device m) s = (decrypt_pkmsg lib user device m s).0
  run_op (of_msg user device m) s = (decrypt_msg lib user device m s).0
  run_op (of_plaintext user device m) s = (encrypt_msg lib user device m s).0
  run_op (of_install user device b) s = (install_prekey_bundle lib user device b s).0
  run_op (of_skdm group user device m) s =
      (process_sender_key_distribution lib group user device m s).0
  run_op (of_skmsg group user device m) s = (decrypt_skmsg lib group user device m s).0
  run_op (of_group_plaintext group user device m) s = (group_encrypt lib group user device m s).0
  run_op (of_new_skdm group user device) s =
      (create_sender_key_distribution lib group user device s).0
  run_op (of_prekeys keys) s = (save_one_time_prekeys lib keys s).0

  unfoldable pub run_all : List Op → SignalSession Store → SignalSession Store
  unfolding run_op
  run_all [] s = s
  run_all (op ∷ ops) s = run_all ops (run_op op s)

  -- A call that leaves the sessions, and the saving of a sender key.
  group_call :
      {A B : Type 0} (name : SenderKeyName) (s : SignalSession Store) (p : Store × Outcome A)
      (rest : A → Action (SignalSession Store) B)
      → Leaves lib s.store p
      → ((a : A) → Keeps lib (rest a))
      → Saved lib s
      → Saved lib
          (after_step
            (with_store s p)
            (λ a s'. after_step (persist_sender_key lib name s') (λ u. rest a))).0
  group_call name s p rest leaves k h =
      then-Keeps lib (with_store s p) _ (other_call lib s p leaves h) λ a s' h'.
        then-Keeps lib (persist_sender_key lib name s') _ (persist_sender_key-Keeps lib name s' h')
          λ u. k a

  module _ (laws : KeepsSessions lib) where
    decrypt_pkmsg-Keeps :
        (user : Str) (device : ℕ) (m : Bytes) → Keeps lib (decrypt_pkmsg lib user device m)
    unfolding decrypt_pkmsg
    decrypt_pkmsg-Keeps user device m s h =
        then-Keeps lib (s, lib.prekey_message m) _ h
          λ msg s' h'.
            session_call lib (user, device) s' _ _ (laws.of_prekey (user, device) msg s'.store)
              (λ a s'' h''. h'') h'

    decrypt_msg-Keeps :
        (user : Str) (device : ℕ) (m : Bytes) → Keeps lib (decrypt_msg lib user device m)
    unfolding decrypt_msg
    decrypt_msg-Keeps user device m s h =
        then-Keeps lib (s, lib.signal_message m) _ h
          λ msg s' h'.
            session_call lib (user, device) s' _ _ (laws.of_signal (user, device) msg s'.store)
              (λ a s'' h''. h'') h'

    encrypt_msg-Keeps :
        (user : Str) (device : ℕ) (m : Bytes) → Keeps lib (encrypt_msg lib user device m)
    unfolding encrypt_msg
    encrypt_msg-Keeps user device m s h =
        session_call lib (user, device) s (lib.message_encrypt (user, device) m s.store) _
          (laws.of_encrypt (user, device) m s.store) (λ a s' h'. h') h

    install_prekey_bundle-Keeps :
        (user : Str) (device : ℕ) (b : SessionBundle)
        → Keeps lib (install_prekey_bundle lib user device b)
    unfolding install_prekey_bundle
    install_prekey_bundle-Keeps user device b s h =
        then-Keeps lib (s, lib.identity_key (5 ∷ b.identity)) _ h
          λ ik s1 h1.
            then-Keeps lib (s1, lib.public_key (5 ∷ b.signed_pre_key)) _ h1
              λ spk s2 h2.
                then-Keeps lib (s2, optional_key lib b.pre_key) _ h2
                  λ opk s3 h3.
                    last_call lib (user, device) s3 _ (laws.of_bundle (user, device) _ s3.store) h3

    process_sender_key_distribution-Keeps :
        (group user : Str) (device : ℕ) (m : Bytes)
        → Keeps lib (process_sender_key_distribution lib group user device m)
    unfolding process_sender_key_distribution
    process_sender_key_distribution-Keeps group user device m s h =
        then-Keeps lib (s, lib.distribution_message m) _ h
          λ skdm s1 h1.
            let name : SenderKeyName = (group, (user, device)) in
            let act = lib.process_distribution name skdm s1.store in
            then-Keeps lib (with_store s1 act) _
              (other_call lib s1 act (laws.of_distribution name skdm s1.store) h1)
              λ u. persist_sender_key-Keeps lib name

    decrypt_skmsg-Keeps :
        (group user : Str) (device : ℕ) (m : Bytes)
        → Keeps lib (decrypt_skmsg lib group user device m)
    unfolding decrypt_skmsg
    decrypt_skmsg-Keeps group user device m s h =
        then-Keeps lib (s, lib.sender_key_message m) _ h
          λ skm s1 h1.
            let name : SenderKeyName = (group, (user, device)) in
            group_call name s1 (lib.group_decrypt name skm s1.store) _
              (laws.of_group_decrypt name skm s1.store) (λ plaintext s2 h2. h2) h1

    create_sender_key_distribution-Keeps :
        (group user : Str) (device : ℕ)
        → Keeps lib (create_sender_key_distribution lib group user device)
    unfolding create_sender_key_distribution
    create_sender_key_distribution-Keeps group user device s h =
        let name : SenderKeyName = (group, (user, device)) in
        group_call name s (lib.create_distribution name s.store) return
          (laws.of_creation name s.store) (λ skdm s2 h2. h2) h

    group_encrypt-Keeps :
        (group user : Str) (device : ℕ) (m : Bytes)
        → Keeps lib (group_encrypt lib group user device m)
    unfolding group_encrypt
    group_encrypt-Keeps group user device m s h =
        let name : SenderKeyName = (group, (user, device)) in
        group_call name s (lib.group_encrypt name m s.store) return
          (laws.of_group_encrypt name m s.store) (λ ct s2 h2. h2) h

    save_prekey-Keeps : (k : OneTimePrekey) → Keeps lib (save_prekey lib k)
    unfolding save_prekey
    save_prekey-Keeps k s h =
        then-Keeps lib (s, lib.public_key (5 ∷ k.pub_key)) _ h
          λ pub_key s1 h1.
            then-Keeps lib (s1, lib.private_key k.priv) _ h1
              λ priv s2 h2.
                other_call lib s2 (lib.save_pre_key k.key_id (pub_key, priv) s2.store)
                  (laws.of_pre_key k.key_id (pub_key, priv) s2.store) h2

    save_one_time_prekeys-Keeps :
        (keys : List OneTimePrekey) → Keeps lib (save_one_time_prekeys lib keys)
    unfolding save_one_time_prekeys for_each
    save_one_time_prekeys-Keeps [] s h = h
    save_one_time_prekeys-Keeps (k ∷ keys) s h =
        then-Keeps lib (save_prekey lib k s) _ (save_prekey-Keeps k s h)
          λ u. save_one_time_prekeys-Keeps keys

    run_op-Saved : (op : Op) (s : SignalSession Store) → Saved lib s → Saved lib (run_op op s)
    unfolding run_op
    run_op-Saved (of_pkmsg user device m) = decrypt_pkmsg-Keeps user device m
    run_op-Saved (of_msg user device m) = decrypt_msg-Keeps user device m
    run_op-Saved (of_plaintext user device m) = encrypt_msg-Keeps user device m
    run_op-Saved (of_install user device b) = install_prekey_bundle-Keeps user device b
    run_op-Saved (of_skdm group user device m) =
        process_sender_key_distribution-Keeps group user device m
    run_op-Saved (of_skmsg group user device m) = decrypt_skmsg-Keeps group user device m
    run_op-Saved (of_group_plaintext group user device m) = group_encrypt-Keeps group user device m
    run_op-Saved (of_new_skdm group user device) =
        create_sender_key_distribution-Keeps group user device
    run_op-Saved (of_prekeys keys) = save_one_time_prekeys-Keeps keys

    -- After any run of operations, where each may raise, the file holds what the object does, and of
    -- every session that is loaded its serialization, if it did before.
    pub run_all-Saved :
        (ops : List Op) (s : SignalSession Store) → Saved lib s → Saved lib (run_all ops s)
    unfolding run_all
    run_all-Saved [] s h = h
    run_all-Saved (op ∷ ops) s h = run_all-Saved ops (run_op op s) (run_op-Saved op s h)
