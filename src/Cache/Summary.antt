-- ===== src/Cache/Summary.antt =====
-- What chats.json of wa/cache.py says of a chat after any run of upserts.
use whatsapp_cli.Common.{
  ℕ, ◌≡◌, refl, ap, ap₂, ◌∙◌, true, ◌&&◌, Option, some, List, [], ◌∷◌, arith, inl, inr,
}
use whatsapp_cli.Common.Tests.{ltb, if◌then◌else◌, Bool-cases}
use whatsapp_cli.Common.Lists.{is_empty}
use whatsapp_cli.Common.Utf8.{Str, same_bytes, same_bytes_iff}
use whatsapp_cli.Common.Dict.{Dict, lookup, insert, lookup-insert}
use whatsapp_cli.Cache.Chats.{
  ChatInfo, entry_of, or_empty, or_zero, with_name, with_ts, with_defaults, upsert_chat,
}

-- The arguments of one call of `upsert_chat`
pub record Upsert : Type 0 where
  pub chat : Str
  pub chat_name : Str
  pub seen : ℕ

unfoldable pub upsert_all : List Upsert → Dict ChatInfo → Dict ChatInfo
upsert_all [] chats = chats
upsert_all (u ∷ us) chats = upsert_all us (upsert_chat u.chat u.chat_name u.seen chats)

-- The name and the time that an entry gives for a chat
abbrev pub given : Option ChatInfo → Str × ℕ
given o = (or_empty (entry_of o).name, or_zero (entry_of o).last_ts)

abbrev pub summary : Str → Dict ChatInfo → Str × ℕ
summary jid chats = given (lookup jid chats)

-- The last name for the chat that is not empty
unfoldable pub latest_name : Str → List Upsert → Str → Str
latest_name jid [] old = old
latest_name jid (u ∷ us) old =
    latest_name jid us
      (if same_bytes u.chat jid then (if is_empty u.chat_name then old else u.chat_name) else old)

abbrev pub later : ℕ → ℕ → ℕ
later m n = if ltb m n then n else m

-- The greatest time for the chat
unfoldable pub newest : Str → List Upsert → ℕ → ℕ
newest jid [] old = old
newest jid (u ∷ us) old = newest jid us (if same_bytes u.chat jid then later old u.seen else old)

with_ts_name : (ts : ℕ) (cur : ChatInfo) → (with_ts ts cur).name ≡ cur.name
with_ts_name ts cur = elim (Bool-cases (ltb 0 ts && ltb (or_zero cur.last_ts) ts)) [
  | inl e ↦ rw (e) refl
  | inr e ↦ rw (e) refl
]

with_name_ts : (name : Str) (cur : ChatInfo) → (with_name name cur).last_ts ≡ cur.last_ts
with_name_ts name cur = elim (Bool-cases (is_empty name)) [
  | inl e ↦ rw (e) refl
  | inr e ↦ rw (e) refl
]

named :
    (name : Str) (cur : ChatInfo)
    → or_empty (with_name name cur).name ≡ (if is_empty name then or_empty cur.name else name)
named name cur = elim (Bool-cases (is_empty name)) [ inl e ↦ rw (e) refl | inr e ↦ rw (e) refl ]

dated :
    (ts : ℕ) (cur : ChatInfo) → or_zero (with_ts ts cur).last_ts ≡ later (or_zero cur.last_ts) ts
dated ts cur = elim (Bool-cases (ltb (or_zero cur.last_ts) ts)) [
  | inl e ↦ let positive : ltb 0 ts ≡ true = ground arith in rw (positive, e) refl
  | inr e ↦ elim (Bool-cases (ltb 0 ts)) [ inl f ↦ rw (f, e) refl | inr f ↦ rw (f, e) refl ]
]

noted_name :
    (name : Str) (ts : ℕ) (cur : ChatInfo)
    → or_empty (with_defaults (with_ts ts (with_name name cur))).name
      ≡ (if is_empty name then or_empty cur.name else name)
noted_name name ts cur =
    ap (λ (o : Option Str). or_empty o) (with_ts_name ts (with_name name cur)) ∙ named name cur

noted_ts :
    (name : Str) (ts : ℕ) (cur : ChatInfo)
    → or_zero (with_defaults (with_ts ts (with_name name cur))).last_ts
      ≡ later (or_zero cur.last_ts) ts
noted_ts name ts cur =
    dated ts (with_name name cur)
    ∙ ap (λ (o : Option ℕ). later (or_zero o) ts) (with_name_ts name cur)

-- One upsert, for the chat that it names and for any other
upsert_summary :
    (u : Upsert) (jid : Str) (chats : Dict ChatInfo)
    → summary jid (upsert_chat u.chat u.chat_name u.seen chats) ≡ (
      (if same_bytes u.chat jid
          then (if is_empty u.chat_name then (summary jid chats).0 else u.chat_name)
          else (summary jid chats).0),
      (if same_bytes u.chat jid then later (summary jid chats).1 u.seen else (summary jid chats).1),
    )
unfolding upsert_chat
upsert_summary u jid chats =
    let cur = entry_of (lookup u.chat chats) in
    let new = with_defaults (with_ts u.seen (with_name u.chat_name cur)) in
    let found = lookup-insert u.chat new chats jid in
    elim (Bool-cases (same_bytes u.chat jid)) [
      | inl e ↦
          let there : lookup jid (insert u.chat new chats) ≡ some new = cc (found, e) in
          rw (e) (
            ap given there
            ∙ ap₂ (λ (x : Str) (y : ℕ). (x, y)) (noted_name u.chat_name u.seen cur)
                (noted_ts u.chat_name u.seen cur)
            ∙ ap
                (λ (k : Str). (
                  (if is_empty u.chat_name then (summary k chats).0 else u.chat_name),
                  later (summary k chats).1 u.seen,
                ))
                ((same_bytes_iff u.chat jid).0 e))
      | inr e ↦
          let there : lookup jid (insert u.chat new chats) ≡ lookup jid chats = cc (found, e) in
          rw (e) (ap given there)
    ]

-- After any run of upserts, the entry of a chat gives the last name for it that was not empty, and the
-- greatest time, of those that the entry had and the run brought; a name is never replaced by an empty
-- one, and the times may come in any order.
pub summary-upsert_all :
    (us : List Upsert) (chats : Dict ChatInfo) (jid : Str)
    → summary jid (upsert_all us chats)
      ≡ (latest_name jid us (summary jid chats).0, newest jid us (summary jid chats).1)
unfolding upsert_all latest_name newest
summary-upsert_all [] chats jid = refl
summary-upsert_all (u ∷ us) chats jid =
    summary-upsert_all us (upsert_chat u.chat u.chat_name u.seen chats) jid
    ∙ ap (λ (p : Str × ℕ). (latest_name jid us p.0, newest jid us p.1)) (upsert_summary u jid chats)
