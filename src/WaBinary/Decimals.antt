-- ===== src/WaBinary/Decimals.antt =====
-- The decimal numbers that f-strings write (wa/wabinary/encoder.py and the JID texts) tell the number.
use whatsapp_cli.Common.{
  ℕ, zero, suc, ◌+◌, ◌-◌, ◌*◌, ◌/◌, ◌%◌, ap, sym, ◌∙◌, ◌<◌, ◌≡◌, [], ◌∷◌, arith, inl, inr,
}
use whatsapp_cli.Common.Tests.{ltb, Bool-cases}
use whatsapp_cli.Common.Utf8.{Str}
use whatsapp_cli.WaBinary.Encoder.{decimal, decimal_loop}

-- `int` on the digits of a number
unfoldable pub horner : ℕ → Str → ℕ
horner n [] = n
horner n (c ∷ cs) = horner (n * 10 + (c - 48)) cs

horner_digit : (n m : ℕ) (cs : Str) → horner n ((48 + m) ∷ cs) ≡ horner (n * 10 + m) cs
unfolding horner
horner_digit n m cs = ap (λ (k : ℕ). horner k cs) (omega arith)

horner-decimal_loop :
    (rounds n : ℕ) (cs : Str) → n < rounds → horner 0 (decimal_loop rounds n cs) ≡ horner n cs
unfolding decimal_loop
horner-decimal_loop zero n cs h = absurd (omega arith)
horner-decimal_loop (suc rounds) n cs h = elim (Bool-cases (ltb n 10)) [
  | inl e ↦ rw (e) (horner_digit 0 (n % 10) cs ∙ ap (λ (k : ℕ). horner k cs) (ground arith))
  | inr e ↦ rw (e) (
      horner-decimal_loop rounds (n / 10) ((48 + n % 10) ∷ cs) (ground arith)
      ∙ horner_digit (n / 10) (n % 10) cs
      ∙ ap (λ (k : ℕ). horner k cs) (omega arith))
]

pub horner-decimal : (n : ℕ) → horner 0 (decimal n) ≡ n
unfolding decimal horner
horner-decimal n = horner-decimal_loop (n + 1) n [] (omega arith)

pub decimal_injective : (n m : ℕ) → decimal n ≡ decimal m → n ≡ m
decimal_injective n m e = sym (horner-decimal n) ∙ ap (horner 0) e ∙ horner-decimal m
