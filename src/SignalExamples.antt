-- ===== src/SignalExamples.antt =====
-- The theorem on the Signal sessions at concrete inputs.
use whatsapp_cli.Common.{
  ℕ, ◌≡◌, refl, sym, ap, ◌∙◌, ◌⊎◌, inl, inr, Option, none, some, List, [], ◌∷◌,
}
use whatsapp_cli.Common.Tests.{Bool-cases}
use whatsapp_cli.Common.Outcome.{ok}
use whatsapp_cli.Common.Utf8.{Bytes, codes, same_bytes, same_bytes_iff}
use whatsapp_cli.Common.Dict.{Dict, lookup, insert, lookup-insert}
use whatsapp_cli.WaBinary.Decimals.{horner, horner-decimal}
use whatsapp_cli.Signal.State.{Address, Libsignal, SignalSession, session_key}
use whatsapp_cli.Signal.Keys.{session_key_injective}
use whatsapp_cli.Signal.Saved.{Saved}
use whatsapp_cli.Signal.Mirror.{
  KeepsSessions, Op, of_pkmsg, of_plaintext, of_group_plaintext, run_all,
}
use whatsapp_cli.Signal.Restore.{load_all}
use whatsapp_cli.Signal.Restart.{Restores}
use whatsapp_cli.Signal.Reload.{restart_reads_sessions}

-- A package whose store is a dict, and whose session with an address is the last message.
abbrev last_message : Libsignal (Dict Bytes) Bytes Bytes
last_message = record {
  prekey_message = λ m. ok m;
  signal_message = λ m. ok m;
  sender_key_message = λ m. ok m;
  distribution_message = λ m. ok m;
  public_key = λ k. ok k;
  private_key = λ k. ok k;
  identity_key = λ k. ok k;
  message_decrypt_prekey = λ a m st. (insert (session_key a) m st, ok m);
  message_decrypt_signal = λ a m st. (insert (session_key a) m st, ok m);
  message_encrypt = λ a m st. (insert (session_key a) m st, ok (m, 3));
  process_prekey_bundle = λ a b st. (insert (session_key a) b.identity st, ok tt);
  process_distribution = λ n m st. (st, ok tt);
  create_distribution = λ n st. (st, ok []);
  group_decrypt = λ n m st. (st, ok m);
  group_encrypt = λ n m st. (st, ok m);
  save_pre_key = λ id k st. (st, ok tt);
  load_session = λ st a. ok (lookup (session_key a) st);
  store_session = λ a r st. (insert (session_key a) r st, ok tt);
  load_sender_key = λ st n. ok none;
  store_sender_key = λ n k st. (st, ok tt);
  serialize = λ r. r;
  deserialize = λ b. ok b;
  serialize_key = λ k. k;
  deserialize_key = λ b. ok b;
}

other_session :
    (a : Address) (m : Bytes) (st : Dict Bytes) (b : Address)
    → (b ≡ a)
      ⊎ (last_message.load_session (insert (session_key a) m st) b ≡ last_message.load_session st b)
other_session a m st b = elim (Bool-cases (same_bytes (session_key a) (session_key b))) [
  | inl same ↦
      let e = session_key_injective a b ((same_bytes_iff (session_key a) (session_key b)).0 same) in
      inl (sym e)
  | inr different ↦ inr (
      ap (λ (o : Option Bytes). ok o)
        (lookup-insert (session_key a) m st (session_key b) ∙ rw (different) refl))
]

own_session :
    (a : Address) (m : Bytes) (st : Dict Bytes)
    → last_message.load_session (insert (session_key a) m st) a ≡ ok (some m)
own_session a m st =
    ap (λ (o : Option Bytes). ok o)
      (lookup-insert (session_key a) m st (session_key a)
        ∙ rw ((same_bytes_iff (session_key a) (session_key a)).1 refl) refl)

keeps : KeepsSessions last_message
keeps = record {
  of_prekey = λ a m st. (other_session a m st, (m, own_session a m st));
  of_signal = λ a m st. (other_session a m st, (m, own_session a m st));
  of_encrypt = λ a m st. (other_session a m st, (m, own_session a m st));
  of_bundle = λ a b st. (other_session a b.identity st, (b.identity, own_session a b.identity st));
  of_distribution = λ n m st a. refl;
  of_creation = λ n st a. refl;
  of_group_decrypt = λ n m st a. refl;
  of_group_encrypt = λ n m st a. refl;
  of_pre_key = λ id k st a. refl;
}

restores : Restores last_message
restores = record {
  of_load = λ st a. (lookup (session_key a) st, refl);
  of_serialized = λ r. refl;
  of_store =
      λ a r st. (insert (session_key a) r st, (refl, (other_session a r st, own_session a r st)));
  of_sender_key = λ n k st a. refl;
}

abbrev blank_session : SignalSession (Dict Bytes)
blank_session = record { store = []; sessions = []; sender_keys = []; saved = ([], []) }

blank_session-Saved : Saved last_message blank_session
unfolding lookup
blank_session-Saved = record {
  in_file = refl;
  keys_of_sessions = tt;
  unique = tt;
  of_sessions = λ a. refl;
}

abbrev some_ops : List Op
some_ops =
    of_pkmsg (codes "33") 1 (7 ∷ 1 ∷ [])
    ∷ of_plaintext (codes "44") 0 (9 ∷ [])
    ∷ of_group_plaintext (codes "g") (codes "33") 1 (5 ∷ [])
    ∷ of_plaintext (codes "33") 1 (8 ∷ [])
    ∷ []

restart_reads_sessions_example :
    last_message.load_session
      (load_all last_message
        (λ s. ok (horner 0 s))
        (some (run_all last_message some_ops blank_session).saved)
        blank_session).0.store
      (codes "33", 1)
    ≡ last_message.load_session (run_all last_message some_ops blank_session).store (codes "33", 1)
unfolding lookup
restart_reads_sessions_example =
    restart_reads_sessions last_message (λ s. ok (horner 0 s))
      (λ n. ap (λ (k : ℕ). ok k) (horner-decimal n)) restores keeps some_ops blank_session
      blank_session blank_session-Saved (λ b. refl) (codes "33", 1)
