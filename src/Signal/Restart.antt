-- ===== src/Signal/Restart.antt =====
-- A new `SignalSession` (wa/signal/session.py) reads the sessions that another one saved.
use whatsapp_cli.Common.{
  ℕ, ◌≡◌, refl, sym, ap, ap₂, subst, ◌∙◌, ◌⊎◌, inl, inr, Option, none, some, [], ◌∷◌,
}
use whatsapp_cli.Common.Tests.{Bool-cases}
use whatsapp_cli.Common.Lists.{All}
use whatsapp_cli.Common.Outcome.{Outcome, ok, raise}
use whatsapp_cli.Common.Action.{Action, after_step, for_each, otherwise}
use whatsapp_cli.Common.Utf8.{Bytes, Str, same_bytes, same_bytes_iff}
use whatsapp_cli.Common.Dict.{Dict, lookup, insert}
use whatsapp_cli.WaBinary.Encoder.{decimal}
use whatsapp_cli.Signal.State.{Address, SenderKeyName, Libsignal, SignalSession, session_key}
use whatsapp_cli.Signal.Keys.{session_key_split, session_key_injective}
use whatsapp_cli.Signal.Saved.{Leaves, Matches, Saved, IsSessionKey}
use whatsapp_cli.Signal.Restore.{user_and_device, restore_at, restore_session, restore_sessions}

-- What the package documents of records: a store has what was put into it, and a serialized record
-- is read back.
pub record Restores {Store Record KeyRecord : Type 0} (lib : Libsignal Store Record KeyRecord)
    : Type 0 where
  pub of_load : (st : Store) (a : Address) → (o : Option Record) × (lib.load_session st a ≡ ok o)
  pub of_serialized : (r : Record) → lib.deserialize (lib.serialize r) ≡ ok r
  pub of_store :
      (a : Address) (r : Record) (st : Store)
      → (st' : Store) × ((lib.store_session a r st ≡ (st', ok tt))
          × (((b : Address) → (b ≡ a) ⊎ (lib.load_session st' b ≡ lib.load_session st b))
              × (lib.load_session st' a ≡ ok (some r))))
  pub of_sender_key :
      (n : SenderKeyName) (k : KeyRecord) (st : Store) → Leaves lib st (lib.store_sender_key n k st)

module _ {Store Record KeyRecord : Type 0} (lib : Libsignal Store Record KeyRecord)
    (int_of : Str → Outcome ℕ) (reads : (n : ℕ) → int_of (decimal n) ≡ ok n)
    (laws : Restores lib) where
  -- An entry that is the session of an address in a store.
  pub record Live (live : Store) (e : Str × Bytes) : Type 0 where
    pub address : Address
    pub session : Record
    pub key : e.0 ≡ session_key address
    pub value : e.1 ≡ lib.serialize session
    pub loaded : lib.load_session live address ≡ ok (some session)

  abbrev Step :
      Address → Record → SignalSession Store → SignalSession Store × Outcome (Unit {0}) → Type 0
  Step a r s (s', o) =
      (o ≡ ok tt)
      × (((b : Address) → (b ≡ a) ⊎ (lib.load_session s'.store b ≡ lib.load_session s.store b))
          × (lib.load_session s'.store a ≡ ok (some r)))

  split_key :
      (user : Str) (device : ℕ)
      → user_and_device (session_key (user, device)) ≡ (user, decimal device)
  split_key user device = rw (session_key_split user device, user_and_device) refl

  restore_session-session_key :
      (user : Str) (device : ℕ) (raw : Bytes)
      → restore_session lib int_of (session_key (user, device)) raw
        ≡ restore_at lib int_of user (ok device) (session_key (user, device)) raw
  unfolding restore_session
  restore_session-session_key user device raw =
      ap
        (λ (p : Str × Str). restore_at lib int_of p.0 (int_of p.1) (session_key (user, device)) raw)
        (split_key user device)
      ∙ ap (λ (o : Outcome ℕ). restore_at lib int_of user o (session_key (user, device)) raw)
          (reads device)

  restore_at-stored :
      (user : Str) (device : ℕ) (key : Str) (r : Record) (s : SignalSession Store) (st' : Store)
      → lib.store_session (user, device) r s.store ≡ (st', ok tt)
      → restore_at lib int_of user (ok device) key (lib.serialize r) s
        ≡ (record s { store = st'; sessions = insert key (lib.serialize r) s.sessions }, ok tt)
  unfolding restore_at
  restore_at-stored user device key r s st' h = rw (laws.of_serialized r, h) refl

  restored_at :
      (user : Str) (device : ℕ) (key : Str) (r : Record) (s : SignalSession Store)
      → Step
          (user, device)
          r
          s
          (otherwise (restore_at lib int_of user (ok device) key (lib.serialize r) s) tt)
  restored_at user device key r s =
      let (st', (stored, (others, loaded))) = laws.of_store (user, device) r s.store in
      subst
        (λ (p : SignalSession Store × Outcome (Unit {0})). Step (user, device) r s (otherwise p tt))
        (sym (restore_at-stored user device key r s st' stored)) (refl, (others, loaded))

  restored :
      (a : Address) (r : Record) (s : SignalSession Store)
      → Step a r s (otherwise (restore_session lib int_of (session_key a) (lib.serialize r) s) tt)
  restored (user, device) r s =
      subst
        (λ (act : Action (SignalSession Store) (Unit {0})).
          Step (user, device) r s (otherwise (act s) tt))
        (sym (restore_session-session_key user device (lib.serialize r)))
        (restored_at user device (session_key (user, device)) r s)

  -- After the entries a session is that of the store they were saved from, or it is as it was and
  -- there is no entry for it.
  abbrev pub From : Store → Dict Bytes → Store → Store → Address → Type 0
  From live d before after b =
      (lib.load_session after b ≡ lib.load_session live b)
      ⊎ ((lib.load_session after b ≡ lib.load_session before b) × (lookup (session_key b) d ≡ none))

  own_session :
      (live st : Store) (a b : Address) (r : Record)
      → a ≡ b
      → lib.load_session st a ≡ ok (some r)
      → lib.load_session live a ≡ ok (some r)
      → lib.load_session st b ≡ lib.load_session live b
  own_session live st a b r e h k =
      ap (lib.load_session st) (sym e) ∙ h ∙ sym k ∙ ap (lib.load_session live) e

  entry-From :
      (live before middle after : Store) (a b : Address) (r : Record) (value : Bytes)
      (d : Dict Bytes)
      → ((b ≡ a) ⊎ (lib.load_session middle b ≡ lib.load_session before b))
      → lib.load_session middle a ≡ ok (some r)
      → lib.load_session live a ≡ ok (some r)
      → From live d middle after b
      → From live ((session_key a, value) ∷ d) before after b
  unfolding lookup
  entry-From live before middle after a b r value d others put loaded (inl h) = inl h
  entry-From live before middle after a b r value d (inl e) put loaded (inr (h, absent)) =
      inl (h ∙ own_session live middle a b r (sym e) put loaded)
  entry-From live before middle after a b r value d (inr kept) put loaded (inr (h, absent)) =
      elim (Bool-cases (same_bytes (session_key a) (session_key b))) [
        | inl same ↦
            let e =
              session_key_injective a b ((same_bytes_iff (session_key a) (session_key b)).0 same) in
            inl (h ∙ own_session live middle a b r e put loaded)
        | inr different ↦ inr (h ∙ kept, rw (different) absent)
      ]

  step-From :
      (live : Store) (a b : Address) (r : Record) (value : Bytes) (d : Dict Bytes)
      (s : SignalSession Store) (p : SignalSession Store × Outcome (Unit {0}))
      → Step a r s p
      → lib.load_session live a ≡ ok (some r)
      → ((s' : SignalSession Store)
          → From live d s'.store (restore_sessions lib int_of d s').0.store b)
      → From live
          ((session_key a, value) ∷ d)
          s.store
          (after_step p (λ u. restore_sessions lib int_of d)).0.store
          b
  step-From live a b r value d s (s', raise e) (no_error, h) loaded rest = absurd (cc no_error)
  step-From live a b r value d s (s', ok tt) (returned, (others, put)) loaded rest =
      entry-From live s.store s'.store _ a b r value d (others b) put loaded (rest s')

  pub all_restored :
      (live : Store) (d : Dict Bytes) (s : SignalSession Store)
      → All (Live live) d
      → (b : Address) → From live d s.store (restore_sessions lib int_of d s).0.store b
  unfolding restore_sessions for_each lookup
  all_restored live [] s h b = inr (refl, refl)
  all_restored live ((key, value) ∷ d) s (l, h) b =
      let e : (key, value) ≡ (session_key l.address, lib.serialize l.session) =
        ap₂ (λ x y. (x, y)) l.key l.value in
      subst
        (λ (e : Str × Bytes).
          From live (e ∷ d) s.store
            (after_step (otherwise (restore_session lib int_of e.0 e.1 s) tt)
              (λ u. restore_sessions lib int_of d)).0.store
            b)
        (sym e)
        (step-From live l.address b l.session (lib.serialize l.session) d s
          (otherwise
            (restore_session lib int_of (session_key l.address) (lib.serialize l.session) s) tt)
          (restored l.address l.session s) l.loaded (λ s'. all_restored live d s' h b))

  -- The entries of a saved object are sessions of its store.
  entry-Live :
      (s : SignalSession Store) (key : Str) (value : Bytes) (a : Address)
      → key ≡ session_key a
      → lookup key s.sessions ≡ some value
      → Saved lib s
      → Live s.store (key, value)
  entry-Live s key value a e found h = from_match (laws.of_load s.store a) (h.of_sessions a)
    where
      from_match :
          (o : Option Record) × (lib.load_session s.store a ≡ ok o)
          → Matches lib (lib.load_session s.store a) (lookup (session_key a) s.sessions)
          → Live s.store (key, value)
      from_match (none, l) m = absurd (cc (e, found, (rw l at m)))
      from_match (some r, l) m =
          let saved : lookup (session_key a) s.sessions ≡ some (lib.serialize r) = rw l at m in
          record { address = a; session = r; key = e; value = cc (e, found, saved); loaded = l }

  pub entries-Live :
      (s : SignalSession Store) (d : Dict Bytes)
      → Saved lib s
      → All (λ e. IsSessionKey lib e.0) d
      → All (λ e. lookup e.0 s.sessions ≡ some e.1) d
      → All (Live s.store) d
  entries-Live s [] h ks fs = tt
  entries-Live s ((key, value) ∷ d) h ((a, e), ks) (found, fs) =
      (entry-Live s key value a e found h, entries-Live s d h ks fs)
