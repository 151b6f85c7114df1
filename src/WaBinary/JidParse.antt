-- ===== src/WaBinary/JidParse.antt =====
-- The text forms of wa/wabinary/jid.py are read back.
use whatsapp_cli.Common.{
  ℕ, zero, suc, ◌+◌, ◌/◌, ◌%◌, ◌≤◌, ◌<◌, ◌≡◌, refl, Bool, true, false, none, some, [], ◌∷◌, ◌++◌,
  arith, ◌⊎◌,
}
use whatsapp_cli.Common.Tests.{◌==◌, ltb, if◌then◌else◌, ==_refl}
use whatsapp_cli.Common.Lists.{All}
use whatsapp_cli.Common.Outcome.{Outcome}
use whatsapp_cli.Common.Utf8.{Str, same_bytes}
use whatsapp_cli.WaBinary.Node.{Jid, default_user_server}
use whatsapp_cli.WaBinary.Encoder.{decimal, decimal_loop}
use whatsapp_cli.WaBinary.JidText.{at_sign, colon, dot, split_last}

abbrev pub Without : ℕ → Str → Type 0
Without c = All (λ x. (x == c) ≡ false)

split_last-none : (c : ℕ) (xs : Str) → Without c xs → split_last c xs ≡ none
unfolding split_last
split_last-none c [] h = refl
split_last-none c (x ∷ xs) (h, hs) = rw (split_last-none c xs hs, h) refl

pub split_last_at :
    (c : ℕ) (xs ys : Str) → Without c ys → split_last c (xs ++ c ∷ ys) ≡ some (xs, ys)
unfolding split_last
split_last_at c [] ys h = rw (split_last-none c ys h, ==_refl c) refl
split_last_at c (x ∷ xs) ys h = rw (split_last_at c xs ys h) refl

abbrev IsDigit : ℕ → Type 0
IsDigit c = (48 ≤ c) × (c < 58)

digits_loop :
    (rounds n : ℕ) (digits : Str) → All IsDigit digits → All IsDigit (decimal_loop rounds n digits)
unfolding decimal_loop
digits_loop zero n digits h = h
digits_loop (suc rounds) n digits h =
    let more = digits_loop rounds (n / 10) ((48 + n % 10) ∷ digits) (omega arith, h) in
    pick (ltb n 10) ((48 + n % 10) ∷ digits) (decimal_loop rounds (n / 10) ((48 + n % 10) ∷ digits))
      (omega arith, h) more
  where
    pick :
        (b : Bool) (xs ys : Str)
        → All IsDigit xs
        → All IsDigit ys
        → All IsDigit (if b then xs else ys)
    pick true xs ys hx hy = hx
    pick false xs ys hx hy = hy

no_digit : (c : ℕ) (xs : Str) → (c < 48) ⊎ (57 < c) → All IsDigit xs → Without c xs
no_digit c [] h ds = tt
no_digit c (x ∷ xs) h (d, ds) = (ground arith, no_digit c xs h ds)

-- The digits of a number hold none of the signs of a JID.
pub decimal-Without : (c n : ℕ) → (c < 48) ⊎ (57 < c) → Without c (decimal n)
unfolding decimal
decimal-Without c n h = no_digit c (decimal_loop (n + 1) n []) h (digits_loop (n + 1) n [] tt)

-- `user` or `user.agent`
abbrev with_dot : Str → ℕ → Str
with_dot user agent = if agent == 0 then user else user ++ dot ∷ decimal agent

-- and with the device
abbrev with_colon : Str → ℕ → Str
with_colon base device = if device == 0 then base else base ++ colon ∷ decimal device

abbrev jid_of : Str → Str → ℕ → ℕ → Jid
jid_of user server agent device = record {
  user = user;
  server = server;
  agent = agent;
  device = device;
  integrator = 0;
}

-- A user whose text can be read back with its agent: no dot, or no agent and the server of phone numbers.
abbrev pub IsPlain : Jid → Type 0
IsPlain j =
    (Without at_sign j.user × Without colon j.user)
    × (((same_bytes j.server default_user_server ≡ true) × (j.agent ≡ 0))
        ⊎ ((same_bytes j.server default_user_server ≡ false) × Without dot j.user))
