-- ===== src/Noise/Nonce.antt =====
-- The nonces of wa/crypto/noise.py.
use whatsapp_cli.Common.{ℕ, ◌+◌, ◌*◌, ◌%◌, ◌^◌, ◌<◌, ◌≡◌, refl, sym, ap, ◌∙◌, [], ◌∷◌, ◌++◌, arith}
use whatsapp_cli.Common.Lists.{length, replicate}
use whatsapp_cli.Common.Utf8.{Bytes, IsBytes}
use whatsapp_cli.Noise.Symmetric.{pack_u32, generate_iv}

-- The number that four big-endian bytes stand for.
abbrev pub u32_of : Bytes → ℕ
u32_of (a ∷ b ∷ c ∷ d ∷ rest) = a * 2 ^ 24 + b * 2 ^ 16 + c * 2 ^ 8 + d
u32_of _ = 0

pub u32_of-pack_u32 : (n : ℕ) → n < 2 ^ 32 → u32_of (pack_u32 n) ≡ n
unfolding pack_u32
u32_of-pack_u32 n h = omega arith

pub pack_u32-IsBytes : (n : ℕ) → IsBytes (pack_u32 n)
unfolding pack_u32
pack_u32-IsBytes n = omega arith

abbrev last_four : Bytes → Bytes
last_four (a ∷ b ∷ c ∷ d ∷ e ∷ f ∷ g ∷ h ∷ rest) = rest
last_four _ = []

-- Two counters give one nonce exactly if they agree in their low 32 bits: a stream of up to 2 ^ 32
-- frames never repeats a nonce, and the frame after those repeats the first.
pub generate_iv_iff :
    (m n : ℕ)
    → (generate_iv m ≡ generate_iv n → m % 2 ^ 32 ≡ n % 2 ^ 32)
      × (m % 2 ^ 32 ≡ n % 2 ^ 32 → generate_iv m ≡ generate_iv n)
unfolding generate_iv
generate_iv_iff m n = (
  λ e.
      sym (u32_of-pack_u32 (m % 2 ^ 32) (omega arith))
      ∙ ap (λ (t : Bytes). u32_of (last_four t)) e
      ∙ u32_of-pack_u32 (n % 2 ^ 32) (omega arith),
  λ e. ap (λ (t : ℕ). replicate 8 0 ++ pack_u32 t) e,
)

pub length-generate_iv : (n : ℕ) → length (generate_iv n) ≡ 12
unfolding generate_iv pack_u32
length-generate_iv n = refl
