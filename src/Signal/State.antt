-- ===== src/Signal/State.antt =====
-- The state of `SignalSession` (wa/signal/session.py), and the libsignal package as a record of its
-- functions. A message that the package parsed is the bytes that it serializes to.
use whatsapp_cli.Common.{ℕ, Option, none, some, ◌∷◌, ◌++◌}
use whatsapp_cli.Common.Outcome.{Outcome, ok, raise}
use whatsapp_cli.Common.Action.{Action}
use whatsapp_cli.Common.Utf8.{Bytes, Str}
use whatsapp_cli.Common.Dict.{Dict, insert}
use whatsapp_cli.WaBinary.JidText.{colon}
use whatsapp_cli.WaBinary.Encoder.{decimal}

-- A ProtocolAddress: the user and the number of the device.
abbrev pub Address : Type 0
Address = Str × ℕ

-- A SenderKeyName: the group and the address of the sender.
abbrev pub SenderKeyName : Type 0
SenderKeyName = Str × Address

-- `state.PreKeyBundle`
pub record SessionBundle : Type 0 where
  pub registration_id : ℕ
  pub device_num : ℕ
  pub pre_key_id : Option ℕ
  pub pre_key : Option Bytes
  pub signed_pre_key_id : ℕ
  pub signed_pre_key : Bytes
  pub signature : Bytes
  pub identity : Bytes

pub record Libsignal (Store Record KeyRecord : Type 0) : Type 0 where
  pub prekey_message : Bytes → Outcome Bytes
  pub signal_message : Bytes → Outcome Bytes
  pub sender_key_message : Bytes → Outcome Bytes
  pub distribution_message : Bytes → Outcome Bytes
  pub public_key : Bytes → Outcome Bytes
  pub private_key : Bytes → Outcome Bytes
  pub identity_key : Bytes → Outcome Bytes
  pub message_decrypt_prekey : Address → Bytes → Action Store Bytes
  pub message_decrypt_signal : Address → Bytes → Action Store Bytes
  -- the serialized message and its type
  pub message_encrypt : Address → Bytes → Action Store (Bytes × ℕ)
  pub process_prekey_bundle : Address → SessionBundle → Action Store (Unit {0})
  pub process_distribution : SenderKeyName → Bytes → Action Store (Unit {0})
  pub create_distribution : SenderKeyName → Action Store Bytes
  pub group_decrypt : SenderKeyName → Bytes → Action Store Bytes
  pub group_encrypt : SenderKeyName → Bytes → Action Store Bytes
  pub save_pre_key : ℕ → Bytes × Bytes → Action Store (Unit {0})
  pub load_session : Store → Address → Outcome (Option Record)
  pub store_session : Address → Record → Action Store (Unit {0})
  pub load_sender_key : Store → SenderKeyName → Outcome (Option KeyRecord)
  pub store_sender_key : SenderKeyName → KeyRecord → Action Store (Unit {0})
  pub serialize : Record → Bytes
  pub deserialize : Bytes → Outcome Record
  pub serialize_key : KeyRecord → Bytes
  pub deserialize_key : Bytes → Outcome KeyRecord

-- `saved` is what `signal.json` holds: the sessions and the sender keys.
pub record SignalSession (Store : Type 0) : Type 0 where
  pub store : Store
  pub sessions : Dict Bytes
  pub sender_keys : Dict Bytes
  pub saved : Dict Bytes × Dict Bytes

abbrev pub slash : ℕ
slash = b'/'

-- `f"{name}:{device_id}"`
unfoldable pub session_key : Address → Str
session_key (user, device) = user ++ colon ∷ decimal device

-- `f"{group_id}/{sender_user}:{sender_device}"`
unfoldable pub sender_key_storage_key : SenderKeyName → Str
unfolding session_key
sender_key_storage_key (group, sender) = group ++ slash ∷ session_key sender

module _ {Store : Type 0} where
  -- A call that parses, and a call that changes the store of the package
  abbrev pub parsed : {A : Type 0} → Outcome A → Action (SignalSession Store) A
  parsed o s = (s, o)

  abbrev pub with_store :
      {A : Type 0} → SignalSession Store → Store × Outcome A → SignalSession Store × Outcome A
  with_store s (st, o) = (record s { store = st }, o)

  abbrev pub on_store : {A : Type 0} → Action Store A → Action (SignalSession Store) A
  on_store act s = with_store s (act s.store)

  unfoldable pub save_all : SignalSession Store → SignalSession Store
  save_all s = record s { saved = (s.sessions, s.sender_keys) }

module _ {Store Record KeyRecord : Type 0} (lib : Libsignal Store Record KeyRecord) where
  abbrev pub record_session :
      Address
      → SignalSession Store
      → Outcome (Option Record)
      → SignalSession Store × Outcome (Unit {0})
  record_session addr s (raise e) = (s, raise e)
  record_session addr s (ok none) = (s, ok tt)
  record_session addr s (ok (some r)) = (
    save_all (record s { sessions = insert (session_key addr) (lib.serialize r) s.sessions }),
    ok tt,
  )

  unfoldable pub persist_session : Address → Action (SignalSession Store) (Unit {0})
  persist_session addr s = record_session addr s (lib.load_session s.store addr)

  abbrev pub record_sender_key :
      SenderKeyName
      → SignalSession Store
      → Outcome (Option KeyRecord)
      → SignalSession Store × Outcome (Unit {0})
  record_sender_key name s (raise e) = (s, raise e)
  record_sender_key name s (ok none) = (s, ok tt)
  record_sender_key name s (ok (some r)) = (
    save_all (record s {
      sender_keys = insert (sender_key_storage_key name) (lib.serialize_key r) s.sender_keys;
    }),
    ok tt,
  )

  unfoldable pub persist_sender_key : SenderKeyName → Action (SignalSession Store) (Unit {0})
  persist_sender_key name s = record_sender_key name s (lib.load_sender_key s.store name)
