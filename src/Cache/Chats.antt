-- ===== src/Cache/Chats.antt =====
-- The functions of wa/cache.py on the dicts that its files hold. An entry of chats.json may lack any
-- of its keys.
use whatsapp_cli.Common.{
  ℕ, ◌-◌, Bool, true, false, not, ◌&&◌, ◌||◌, Option, none, some, List, [], ◌∷◌, ◌++◌,
}
use whatsapp_cli.Common.Tests.{◌==◌, ltb, leb, if◌then◌else◌}
use whatsapp_cli.Common.Lists.{is_empty, length, drop}
use whatsapp_cli.Common.Utf8.{Str, codes, same_bytes}
use whatsapp_cli.Common.Dict.{Dict, lookup, insert}
use whatsapp_cli.WaBinary.JidText.{at_sign, split_first}

pub record ChatInfo : Type 0 where
  pub name : Option Str
  pub last_ts : Option ℕ
  pub unread : Option ℕ
  pub archived : Option Bool

-- `chats.get(jid, {})`
abbrev pub entry_of : Option ChatInfo → ChatInfo
entry_of none = record { name = none; last_ts = none; unread = none; archived = none }
entry_of (some info) = info

abbrev pub or_empty : Option Str → Str
or_empty none = []
or_empty (some s) = s

abbrev pub or_zero : Option ℕ → ℕ
or_zero none = 0
or_zero (some n) = n

-- `if name: cur["name"] = name`
abbrev pub with_name : Str → ChatInfo → ChatInfo
with_name name cur = if is_empty name then cur else record cur { name = some name }

-- `if last_ts and last_ts > cur.get("last_ts", 0): cur["last_ts"] = last_ts`
abbrev pub with_ts : ℕ → ChatInfo → ChatInfo
with_ts last_ts cur =
    if ltb 0 last_ts && ltb (or_zero cur.last_ts) last_ts
    then record cur { last_ts = some last_ts }
    else cur

-- The two `setdefault`
abbrev pub with_defaults : ChatInfo → ChatInfo
with_defaults cur = record cur {
  name = some (or_empty cur.name);
  last_ts = some (or_zero cur.last_ts);
}

unfoldable pub upsert_chat : Str → Str → ℕ → Dict ChatInfo → Dict ChatInfo
upsert_chat jid name last_ts chats =
    insert jid (with_defaults (with_ts last_ts (with_name name (entry_of (lookup jid chats)))))
      chats

-- `needle in s`
unfoldable pub starts_with : Str → Str → Bool
starts_with [] s = true
starts_with (c ∷ cs) [] = false
starts_with (c ∷ cs) (x ∷ s) = (c == x) && starts_with cs s

unfoldable pub contains : Str → Str → Bool
unfolding starts_with
contains needle [] = starts_with needle []
contains needle (x ∷ s) = starts_with needle (x ∷ s) || contains needle s

-- `sort(key=last_ts, reverse=True)`, which keeps the order of equal keys
abbrev pub ts_of : Str × ChatInfo → ℕ
ts_of (jid, info) = or_zero info.last_ts

unfoldable pub place : Str × ChatInfo → List (Str × ChatInfo) → List (Str × ChatInfo)
place x [] = x ∷ []
place x (y ∷ ys) = let rest = place x ys in if leb (ts_of y) (ts_of x) then x ∷ y ∷ ys else y ∷ rest

unfoldable pub sort_newest : List (Str × ChatInfo) → List (Str × ChatInfo)
unfolding place
sort_newest [] = []
sort_newest (x ∷ xs) = place x (sort_newest xs)

-- The loop of `find_chat`, for `str.lower`
unfoldable pub matching : (Str → Str) → Str → Dict Str → Dict ChatInfo → List (Str × ChatInfo)
unfolding contains
matching lower query contacts [] = []
matching lower query contacts ((jid, info) ∷ chats) =
    let rest = matching lower query contacts chats in
    let contact_name = or_empty (lookup jid contacts) in
    let haystack = lower (jid ++ codes " " ++ or_empty info.name ++ codes " " ++ contact_name) in
    if contains (lower query) haystack then (jid, info) ∷ rest else rest

unfoldable pub find_chat : (Str → Str) → Str → Dict Str → Dict ChatInfo → List (Str × ChatInfo)
unfolding matching sort_newest
find_chat lower query contacts chats = sort_newest (matching lower query contacts chats)

-- `jid.endswith(suffix)`
unfoldable pub ends_with : Str → Str → Bool
ends_with suffix s =
    leb (length suffix) (length s) && same_bytes (drop (length s - length suffix) s) suffix

-- `jid.split("@")[0]`
unfoldable pub local_part : Str → Str
unfolding split_first
local_part s = elim (split_first at_sign s) [ none ↦ s | some (before, after) ↦ before ]

-- `local.isdigit()`, for what counts as a digit
unfoldable pub all_digits : (ℕ → Bool) → Str → Bool
all_digits is_digit [] = true
all_digits is_digit (c ∷ cs) = is_digit c && all_digits is_digit cs

-- `{pn: lid for lid, pn in lidmap.items()}`
unfoldable pub invert : Dict Str → Dict Str → Dict Str
invert [] inverted = inverted
invert ((lid, pn) ∷ lidmap) inverted = invert lidmap (insert pn lid inverted)

abbrev pub pn_suffix : Str
pn_suffix = codes "@s.whatsapp.net"

abbrev pub lid_suffix : Str
lid_suffix = codes "@lid"

-- `f"{lid}@lid"` for a LID that is there and not empty
abbrev pub lid_or : Option Str → Str → Str
lid_or none jid = jid
lid_or (some []) jid = jid
lid_or (some (c ∷ cs)) jid = (c ∷ cs) ++ lid_suffix

unfoldable pub canonical_jid : (ℕ → Bool) → Dict Str → Str → Str
unfolding local_part all_digits ends_with
canonical_jid is_digit lidmap_inverted s =
    if ends_with pn_suffix s
    then (if (not (is_empty (local_part s)) && all_digits is_digit (local_part s))
          && ltb 13 (length (local_part s))
        then local_part s ++ lid_suffix
        else lid_or (lookup s lidmap_inverted) s)
    else s
