-- ===== src/Signal/Keys.antt =====
-- The keys of `SignalSession._session_key` (wa/signal/session.py) tell addresses apart.
use whatsapp_cli.Common.{ℕ, ◌≡◌, sym, ap, ap₂, ◌∙◌, some, arith, inr}
use whatsapp_cli.Common.Utf8.{Str}
use whatsapp_cli.WaBinary.Encoder.{decimal}
use whatsapp_cli.WaBinary.JidText.{split_last, colon}
use whatsapp_cli.WaBinary.JidParse.{split_last_at, decimal-Without}
use whatsapp_cli.WaBinary.Decimals.{decimal_injective}
use whatsapp_cli.Signal.State.{Address, session_key}

pub session_key_split :
    (user : Str) (device : ℕ)
    → split_last colon (session_key (user, device)) ≡ some (user, decimal device)
unfolding session_key
session_key_split user device =
    split_last_at colon user (decimal device) (decimal-Without colon device (inr (omega arith)))

pub session_key_injective : (a b : Address) → session_key a ≡ session_key b → a ≡ b
session_key_injective (u, d) (v, e) h =
    let same : some (u, decimal d) ≡ some (v, decimal e) =
      sym (session_key_split u d) ∙ ap (split_last colon) h ∙ session_key_split v e in
    let user : u ≡ v = cc same in
    let digits : decimal d ≡ decimal e = cc same in
    ap₂ (λ x y. (x, y)) user (decimal_injective d e digits)
