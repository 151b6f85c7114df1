-- ===== src/Signal/Reload.antt =====
-- A new `SignalSession` (wa/signal/session.py) after any run of operations of another one.
use whatsapp_cli.Common.{ℕ, ◌≡◌, refl, sym, subst, ◌∙◌, inl, inr, Option, none, some, List, [], ◌∷◌}
use whatsapp_cli.Common.Outcome.{Outcome, ok, raise}
use whatsapp_cli.Common.Action.{Action, after_step, for_each, otherwise}
use whatsapp_cli.Common.Utf8.{Bytes, Str}
use whatsapp_cli.Common.Dict.{Dict}
use whatsapp_cli.Common.DictKeys.{entries_found}
use whatsapp_cli.WaBinary.Encoder.{decimal}
use whatsapp_cli.Signal.State.{Address, SenderKeyName, Libsignal, SignalSession, with_store}
use whatsapp_cli.Signal.Saved.{Leaves, Matches, Saved}
use whatsapp_cli.Signal.Mirror.{KeepsSessions, Op, run_all, run_all-Saved}
use whatsapp_cli.Signal.Restart.{Restores, From, all_restored, entries-Live}
use whatsapp_cli.Signal.Restore.{
  user_and_device, group_and_sender, restore_sender_key, restore_sessions, restore_sender_keys,
  load_all,
}

module _ {Store Record KeyRecord : Type 0} (lib : Libsignal Store Record KeyRecord)
    (int_of : Str → Outcome ℕ) (reads : (n : ℕ) → int_of (decimal n) ≡ ok n)
    (laws : Restores lib) where
  -- To restore sender keys leaves the sessions.
  abbrev LeavesSessions : {A : Type 0} → Action (SignalSession Store) A → Type 0
  LeavesSessions act =
      (s : SignalSession Store) (b : Address)
      → lib.load_session (act s).0.store b ≡ lib.load_session s.store b

  then_leaves :
      {A B : Type 0} (s : SignalSession Store) (p : SignalSession Store × Outcome A)
      (rest : A → Action (SignalSession Store) B) (b : Address)
      → lib.load_session p.0.store b ≡ lib.load_session s.store b
      → ((a : A) → LeavesSessions (rest a))
      → lib.load_session (after_step p rest).0.store b ≡ lib.load_session s.store b
  then_leaves s (s', raise e) rest b h k = h
  then_leaves s (s', ok a) rest b h k = k a s' b ∙ h

  with_store-Leaves :
      {A : Type 0} (s : SignalSession Store) (p : Store × Outcome A) (b : Address)
      → Leaves lib s.store p
      → lib.load_session (with_store s p).0.store b ≡ lib.load_session s.store b
  with_store-Leaves s (st, o) b h = h b

  otherwise_leaves :
      (s : SignalSession Store) (p : SignalSession Store × Outcome (Unit {0})) (b : Address)
      → lib.load_session p.0.store b ≡ lib.load_session s.store b
      → lib.load_session (otherwise p tt).0.store b ≡ lib.load_session s.store b
  otherwise_leaves s (s', raise e) b h = h
  otherwise_leaves s (s', ok tt) b h = h

  restore_sender_key_leaves :
      (key : Str) (raw : Bytes) → LeavesSessions (restore_sender_key lib int_of key raw)
  unfolding restore_sender_key
  restore_sender_key_leaves key raw s b =
      then_leaves s (s, lib.deserialize_key raw) _ b refl
        λ r s1 b1.
          then_leaves s1 (s1, int_of (user_and_device (group_and_sender key).1).1) _ b1 refl
            λ device s2 b2.
              let name : SenderKeyName = (
                (group_and_sender key).0,
                ((user_and_device (group_and_sender key).1).0, device),
              ) in
              let p = lib.store_sender_key name r s2.store in
              then_leaves s2 (with_store s2 p) _ b2
                (with_store-Leaves s2 p b2 (laws.of_sender_key name r s2.store)) λ u s3 b3. refl

  restore_sender_keys_leaves : (d : Dict Bytes) → LeavesSessions (restore_sender_keys lib int_of d)
  unfolding restore_sender_keys for_each
  restore_sender_keys_leaves [] s b = refl
  restore_sender_keys_leaves (e ∷ d) s b =
      then_leaves s (otherwise (restore_sender_key lib int_of e.0 e.1 s) tt) _ b
        (otherwise_leaves s (restore_sender_key lib int_of e.0 e.1 s) b
          (restore_sender_key_leaves e.0 e.1 s b))
        λ u. restore_sender_keys_leaves d

  -- No entry, no session.
  no_session :
      (o : Option Record) (found : Outcome (Option Record)) (entry : Option Bytes)
      → found ≡ ok o
      → entry ≡ none
      → Matches lib found entry
      → found ≡ ok none
  no_session none found entry h e m = h
  no_session (some r) found entry h e m = absurd (cc (e, (rw h at m)))

  restored-From :
      (s : SignalSession Store) (before after : Store) (b : Address)
      → Saved lib s
      → lib.load_session before b ≡ ok none
      → From lib int_of reads laws s.store s.sessions before after b
      → lib.load_session after b ≡ lib.load_session s.store b
  restored-From s before after b h blank (inl same) = same
  restored-From s before after b h blank (inr (same, absent)) =
      let (o, found) = laws.of_load s.store b in
      same
      ∙ blank
      ∙ sym (no_session o (lib.load_session s.store b) _ found absent (h.of_sessions b))

  -- What a saved object's file gives to one that has no sessions.
  load_all-saved :
      (s seeded : SignalSession Store)
      → Saved lib s
      → ((b : Address) → lib.load_session seeded.store b ≡ ok none)
      → (b : Address)
      → lib.load_session (load_all lib int_of (some s.saved) seeded).0.store b
        ≡ lib.load_session s.store b
  unfolding load_all
  load_all-saved s seeded h blank b =
      let live =
        entries-Live lib int_of reads laws s s.sessions h h.keys_of_sessions
          (entries_found s.sessions h.unique) in
      let first = restore_sessions lib int_of s.sessions seeded in
      let all : lib.load_session
            (load_all lib int_of (some (s.sessions, s.sender_keys)) seeded).0.store b
          ≡ lib.load_session s.store b =
        both first b (
          restored-From s seeded.store first.0.store b h (blank b)
            (all_restored lib int_of reads laws s.store s.sessions seeded live b)) in
      subst
        (λ (f : Dict Bytes × Dict Bytes).
          lib.load_session (load_all lib int_of (some f) seeded).0.store b
          ≡ lib.load_session s.store b)
        (sym h.in_file) all
    where
      both :
          (p : SignalSession Store × Outcome (Unit {0})) (b : Address)
          → lib.load_session p.0.store b ≡ lib.load_session s.store b
          → lib.load_session
              (after_step p (λ u. restore_sender_keys lib int_of s.sender_keys)).0.store
              b
            ≡ lib.load_session s.store b
      both p b e = then_leaves s p _ b e λ u. restore_sender_keys_leaves s.sender_keys

  -- After any run of operations of a saved object, where each may raise, a new object without
  -- sessions reads from its file the sessions that it has.
  pub restart_reads_sessions :
      (keeps : KeepsSessions lib) (ops : List Op) (s seeded : SignalSession Store)
      → Saved lib s
      → ((b : Address) → lib.load_session seeded.store b ≡ ok none)
      → (b : Address)
      → lib.load_session (load_all lib int_of (some (run_all lib ops s).saved) seeded).0.store b
        ≡ lib.load_session (run_all lib ops s).store b
  restart_reads_sessions keeps ops s seeded h blank b =
      load_all-saved (run_all lib ops s) seeded (run_all-Saved lib keeps ops s h) blank b
