-- ===== src/Signal/Restore.antt =====
-- `SignalSession._load_all` (wa/signal/session.py): the file is read into a new object.
use whatsapp_cli.Common.{ℕ, Option, none, some, []}
use whatsapp_cli.Common.Outcome.{Outcome, ok}
use whatsapp_cli.Common.Action.{Action, after_step, ◌>>=◌, ◌>>◌, for_each, otherwise, modify}
use whatsapp_cli.Common.Utf8.{Bytes, Str}
use whatsapp_cli.Common.Dict.{Dict, insert}
use whatsapp_cli.WaBinary.JidText.{split_first, split_last, colon}
use whatsapp_cli.Signal.State.{Libsignal, SignalSession, slash, parsed, on_store}

-- `user, _, dev = s.rpartition(":")`
abbrev pub user_and_device : Str → Str × Str
user_and_device s = elim (split_last colon s) [ none ↦ ([], s) | some p ↦ p ]

-- `group_id, _, addr_part = key.partition("/")`
abbrev pub group_and_sender : Str → Str × Str
group_and_sender s = elim (split_first slash s) [ none ↦ (s, []) | some p ↦ p ]

-- `int(text)` is the argument `int_of`.
module _ {Store Record KeyRecord : Type 0} (lib : Libsignal Store Record KeyRecord)
    (int_of : Str → Outcome ℕ) where
  -- … with the user and the number of the device that its key holds
  unfoldable pub restore_at :
      Str → Outcome ℕ → Str → Bytes → Action (SignalSession Store) (Unit {0})
  restore_at user number key raw = do
    device ← parsed number
    r ← parsed (lib.deserialize raw)
    on_store (lib.store_session (user, device) r)
    modify (λ s. record s { sessions = insert key raw s.sessions })

  unfoldable pub restore_session : Str → Bytes → Action (SignalSession Store) (Unit {0})
  unfolding restore_at
  restore_session key raw =
      restore_at (user_and_device key).0 (int_of (user_and_device key).1) key raw

  unfoldable pub restore_sender_key : Str → Bytes → Action (SignalSession Store) (Unit {0})
  restore_sender_key key raw = do
    r ← parsed (lib.deserialize_key raw)
    device ← parsed (int_of (user_and_device (group_and_sender key).1).1)
    on_store (
        lib.store_sender_key
          ((group_and_sender key).0, ((user_and_device (group_and_sender key).1).0, device)) r)
    modify (λ s. record s { sender_keys = insert key raw s.sender_keys })

  -- An entry that cannot be restored is logged and left out.
  unfoldable pub restore_sessions : Dict Bytes → Action (SignalSession Store) (Unit {0})
  unfolding restore_session
  restore_sessions = for_each (λ e s. otherwise (restore_session e.0 e.1 s) tt)

  unfoldable pub restore_sender_keys : Dict Bytes → Action (SignalSession Store) (Unit {0})
  unfolding restore_sender_key
  restore_sender_keys = for_each (λ e s. otherwise (restore_sender_key e.0 e.1 s) tt)

  -- What the file holds: nothing where it is absent or unreadable.
  unfoldable pub load_all :
      Option (Dict Bytes × Dict Bytes) → Action (SignalSession Store) (Unit {0})
  load_all none s = (s, ok tt)
  load_all (some (saved, keys)) s =
      after_step (restore_sessions saved s) (λ u. restore_sender_keys keys)
