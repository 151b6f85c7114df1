-- ===== src/WaBinary/JidText.antt =====
-- The text forms of wa/wabinary/jid.py. `int(text)` is the argument `int_of`.
use whatsapp_cli.Common.{ℕ, Option, none, some, [], ◌∷◌, ◌++◌}
use whatsapp_cli.Common.Tests.{◌==◌, if◌then◌else◌}
use whatsapp_cli.Common.Outcome.{value_error, Outcome, ok, raise, ◌>>=◌}
use whatsapp_cli.Common.Utf8.{Str, same_bytes}
use whatsapp_cli.WaBinary.Node.{Jid, actual_agent, default_user_server}
use whatsapp_cli.WaBinary.Encoder.{decimal}

abbrev pub at_sign : ℕ
at_sign = b'@'

abbrev pub colon : ℕ
colon = b':'

abbrev pub dot : ℕ
dot = b'.'

-- `s.split(c, 1)`, where there is a `c`
unfoldable pub split_first : ℕ → Str → Option (Str × Str)
split_first c [] = none
split_first c (x ∷ s) =
    let rest = split_first c s in
    if x == c
    then some ([], s)
    else elim rest [ none ↦ none | some (before, after) ↦ some (x ∷ before, after) ]

-- `s.rsplit(c, 1)`, where there is a `c`
unfoldable pub split_last : ℕ → Str → Option (Str × Str)
split_last c [] = none
split_last c (x ∷ s) = elim (split_last c s) [
  | some (before, after) ↦ some (x ∷ before, after)
  | none ↦ if x == c then some ([], s) else none
]

-- `try: agent = int(a) except ValueError: pass`
unfoldable pub with_agent : Str → Str → ℕ → Str × Str → Outcome ℕ → Outcome Jid
with_agent user_part server device (u, a) (ok agent) =
    ok (record { user = u; server = server; agent = agent; device = device; integrator = 0 })
with_agent user_part server device p (raise value_error) =
    ok (record { user = user_part; server = server; agent = 0; device = device; integrator = 0 })
with_agent user_part server device p (raise e) = raise e

unfoldable pub str_jid : Jid → Str
str_jid j = elim j.user [
  | [] ↦ j.server
  | c ∷ cs ↦
      let base = if j.agent == 0 then j.user else j.user ++ dot ∷ decimal j.agent in
      (if j.device == 0 then base else base ++ colon ∷ decimal j.device) ++ at_sign ∷ j.server
]

unfoldable pub ad_string : Jid → Str
ad_string j =
    j.user ++ dot ∷ decimal (actual_agent j) ++ colon ∷ decimal j.device ++ at_sign ∷ j.server

module _ (int_of : Str → Outcome ℕ) where
  unfoldable pub parse_agent : Str → Str → ℕ → Outcome Jid
  unfolding with_agent split_last
  parse_agent user_part server device =
      if same_bytes server default_user_server then plain else elim (split_last dot user_part) [
        | none ↦ plain
        | some p ↦ with_agent user_part server device p (int_of p.1)
      ]
    where
      plain : Outcome Jid
      plain =
          ok (record {
            user = user_part;
            server = server;
            agent = 0;
            device = device;
            integrator = 0;
          })

  unfoldable pub parse_user : Str → Str → Outcome Jid
  unfolding parse_agent split_first
  parse_user user_part server = elim (split_first colon user_part) [
    | none ↦ parse_agent user_part server 0
    | some (user, dev_str) ↦ int_of dev_str >>= parse_agent user server
  ]

  unfoldable pub parse : Str → Outcome Jid
  unfolding parse_user split_first
  parse s = elim (split_first at_sign s) [
    | none ↦ ok (record { user = []; server = s; agent = 0; device = 0; integrator = 0 })
    | some (user_part, server) ↦ parse_user user_part server
  ]
