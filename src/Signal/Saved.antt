-- ===== src/Signal/Saved.antt =====
-- What `signal.json` holds of the sessions, after each operation of wa/signal/session.py.
use whatsapp_cli.Common.{◌≡◌, refl, sym, ap, subst, ◌∙◌, ◌⊎◌, inl, inr, false, Option, none, some}
use whatsapp_cli.Common.Tests.{Bool-cases}
use whatsapp_cli.Common.Outcome.{Outcome, ok, raise}
use whatsapp_cli.Common.Action.{Action, after_step}
use whatsapp_cli.Common.Utf8.{Bytes, Str, same_bytes, same_bytes_iff}
use whatsapp_cli.Common.Dict.{Dict, lookup, insert, lookup-insert}
use whatsapp_cli.Common.Lists.{All}
use whatsapp_cli.Common.DictKeys.{Unique, insert-Unique, insert-All}
use whatsapp_cli.Signal.State.{
  Address, SenderKeyName, Libsignal, SignalSession, session_key, with_store, save_all,
  record_session, persist_session, record_sender_key, persist_sender_key,
}
use whatsapp_cli.Signal.Keys.{session_key_injective}

module _ {Store Record KeyRecord : Type 0} (lib : Libsignal Store Record KeyRecord) where
  -- An outcome of the package leaves the sessions of a store.
  abbrev pub Leaves : {A : Type 0} → Store → Store × Outcome A → Type 0
  Leaves st (st', o) = (a : Address) → lib.load_session st' a ≡ lib.load_session st a

  -- Where it returns, there is a session with an address, and the others are as they were.
  abbrev pub Establishes : {A : Type 0} → Address → Store → Store × Outcome A → Type 0
  Establishes addr st (st', raise e) = Leaves {A = Bytes} st (st', raise e)
  Establishes addr st (st', ok x) =
      ((a : Address) → (a ≡ addr) ⊎ (lib.load_session st' a ≡ lib.load_session st a))
      × ((r : Record) × (lib.load_session st' addr ≡ ok (some r)))

  -- An entry of the file is the session that the store has.
  abbrev pub Matches : Outcome (Option Record) → Option Bytes → Type 0
  Matches (raise e) entry = Unit {0}
  Matches (ok none) entry = entry ≡ none
  Matches (ok (some r)) entry = entry ≡ some (lib.serialize r)

  abbrev pub IsSessionKey : Str → Type 0
  IsSessionKey key = (a : Address) × (key ≡ session_key a)

  -- The file holds what the object does, and of every session that is loaded its serialization.
  pub record Saved (s : SignalSession Store) : Type 0 where
    pub in_file : s.saved ≡ (s.sessions, s.sender_keys)
    pub keys_of_sessions : All (λ e. IsSessionKey e.0) s.sessions
    pub unique : Unique s.sessions
    pub of_sessions :
        (a : Address) → Matches (lib.load_session s.store a) (lookup (session_key a) s.sessions)

  abbrev pub Keeps : {A : Type 0} → Action (SignalSession Store) A → Type 0
  Keeps act = (s : SignalSession Store) → Saved s → Saved (act s).0

  -- A step that keeps it, and what follows.
  pub then-Keeps :
      {A B : Type 0} (p : SignalSession Store × Outcome A)
      (rest : A → Action (SignalSession Store) B)
      → Saved p.0
      → ((a : A) → Keeps (rest a))
      → Saved (after_step p rest).0
  then-Keeps (s, raise e) rest h k = h
  then-Keeps (s, ok a) rest h k = k a s h

  -- A call that leaves the sessions.
  pub other_call :
      {A : Type 0} (s : SignalSession Store) (p : Store × Outcome A)
      → Leaves s.store p
      → Saved s
      → Saved (with_store s p).0
  other_call s (st, o) leaves h = record {
    in_file = h.in_file;
    keys_of_sessions = h.keys_of_sessions;
    unique = h.unique;
    of_sessions = λ a.
        subst (λ o. Matches o (lookup (session_key a) s.sessions)) (sym (leaves a))
          (h.of_sessions a);
  }

  -- The entries after one is written: of its own address and of another one.
  entry_after :
      (addr a : Address) (sessions : Dict Bytes) (r : Record)
      (before after : Outcome (Option Record))
      → Matches before (lookup (session_key a) sessions)
      → ((a ≡ addr) × (after ≡ ok (some r)))
        ⊎ ((same_bytes (session_key addr) (session_key a) ≡ false) × (after ≡ before))
      → Matches after
          (lookup (session_key a) (insert (session_key addr) (lib.serialize r) sessions))
  entry_after addr a sessions r before after m (inl (e, h)) =
      subst
        (λ o.
          Matches o (lookup (session_key a) (insert (session_key addr) (lib.serialize r) sessions)))
        (sym h)
        (lookup-insert (session_key addr) (lib.serialize r) sessions (session_key a)
          ∙ rw ((same_bytes_iff (session_key addr) (session_key a)).1 (ap session_key (sym e)))
              refl)
  entry_after addr a sessions r before after m (inr (different, h)) =
      rw (lookup-insert (session_key addr) (lib.serialize r) sessions (session_key a), different)
        (subst (λ o. Matches o (lookup (session_key a) sessions)) (sym h) m)

  own_or_other :
      (addr a : Address) (r : Record) (before after : Outcome (Option Record))
      → (a ≡ addr) ⊎ (after ≡ before)
      → (a ≡ addr → after ≡ ok (some r))
      → ((a ≡ addr) × (after ≡ ok (some r)))
        ⊎ ((same_bytes (session_key addr) (session_key a) ≡ false) × (after ≡ before))
  own_or_other addr a r before after (inl e) own = inl (e, own e)
  own_or_other addr a r before after (inr e) own =
      elim (Bool-cases (same_bytes (session_key addr) (session_key a))) [
        | inl same ↦
            let key = (same_bytes_iff (session_key addr) (session_key a)).0 same in
            let e' = sym (session_key_injective addr a key) in inl (e', own e')
        | inr different ↦ inr (different, e)
      ]

  -- To save the session that there is now.
  written_session :
      (addr : Address) (s : SignalSession Store) (st : Store) (r : Record)
      → ((a : Address) → (a ≡ addr) ⊎ (lib.load_session st a ≡ lib.load_session s.store a))
      → lib.load_session st addr ≡ ok (some r)
      → Saved s
      → Saved (record_session lib addr (record s { store = st }) (ok (some r))).0
  unfolding save_all
  written_session addr s st r others loaded h = record {
    in_file = refl;
    keys_of_sessions =
        insert-All IsSessionKey (session_key addr) (lib.serialize r) s.sessions (addr, refl)
          h.keys_of_sessions;
    unique = insert-Unique (session_key addr) (lib.serialize r) s.sessions h.unique;
    of_sessions = λ a.
        entry_after addr a s.sessions r (lib.load_session s.store a) (lib.load_session st a)
          (h.of_sessions a)
          (own_or_other addr a r (lib.load_session s.store a) (lib.load_session st a) (others a)
            (λ e. ap (lib.load_session st) e ∙ loaded));
  }

  -- A call of the package that establishes a session, and the saving of it.
  pub session_call :
      {A B : Type 0} (addr : Address) (s : SignalSession Store) (p : Store × Outcome A)
      (rest : A → Action (SignalSession Store) B)
      → Establishes addr s.store p
      → ((a : A) → Keeps (rest a))
      → Saved s
      → Saved
          (after_step
            (with_store s p)
            (λ a s'. after_step (persist_session lib addr s') (λ u. rest a))).0
  unfolding persist_session
  session_call addr s (st, raise e) rest leaves k h =
      other_call {A = Bytes} s (st, raise e) leaves h
  session_call addr s (st, ok a) rest (others, (r, loaded)) k h =
      rw (loaded) (k a _ (written_session addr s st r others loaded h))

  -- … and of one with which the operation ends.
  pub last_call :
      {A : Type 0} (addr : Address) (s : SignalSession Store) (p : Store × Outcome A)
      → Establishes addr s.store p
      → Saved s
      → Saved (after_step (with_store s p) (λ a. persist_session lib addr)).0
  unfolding persist_session
  last_call addr s (st, raise e) leaves h = other_call {A = Bytes} s (st, raise e) leaves h
  last_call addr s (st, ok a) (others, (r, loaded)) h =
      rw (loaded) (written_session addr s st r others loaded h)

  -- To save a sender key saves the sessions as they were.
  sender_key_kept :
      (name : SenderKeyName) (s : SignalSession Store) (o : Outcome (Option KeyRecord))
      → Saved s
      → Saved (record_sender_key lib name s o).0
  sender_key_kept name s (raise e) h = h
  sender_key_kept name s (ok none) h = h
  sender_key_kept name s (ok (some r)) h =
      unfold save_all in
      record {
        in_file = refl;
        keys_of_sessions = h.keys_of_sessions;
        unique = h.unique;
        of_sessions = h.of_sessions;
      }

  pub persist_sender_key-Keeps : (name : SenderKeyName) → Keeps (persist_sender_key lib name)
  unfolding persist_sender_key
  persist_sender_key-Keeps name s h = sender_key_kept name s (lib.load_sender_key s.store name) h
