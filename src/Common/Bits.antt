-- ===== src/Common/Bits.antt =====
-- Masks and shifts as arithmetic. Those on one byte are tables checked by evaluation; that of two
-- fields which share no bit holds at every width.
use Prim.Native.Nat.{ℕ, zero, suc, ◌+◌, ◌*◌, ◌/◌, ◌%◌, ◌^◌, ◌≤◌, ◌<◌, max, bit_and, bit_or}
use Prim.Native.Nat.{digits, bit_or-bitwise}
use mathlib.Core.Path.{◌≡◌, refl, ap, ◌∙◌}
use mathlib.Core.Bool.{Bool, true, ◌&&◌}
use native.Mathlib.Nat.{pow-suc}
use native.Mathlib.Omega.{arith}
use whatsapp_cli.Common.Tests.{◌==◌, ==_iff}

unfoldable pub holds_below : ℕ → (ℕ → Bool) → Bool
holds_below zero p = true
holds_below (suc n) p = p n && holds_below n p

holds_below_sound : (n : ℕ) (p : ℕ → Bool) (x : ℕ) → holds_below n p ≡ true → x < n → p x ≡ true
unfolding holds_below
holds_below_sound zero p x h lt = absurd (omega arith)
holds_below_sound (suc n) p x h lt = ground (arith, holds_below_sound n p x)

module _ (f g : ℕ → ℕ) where
  pub byte_table : (n : ℕ) → holds_below n (λ x. f x == g x) ≡ true → (x : ℕ) → x < n → f x ≡ g x
  byte_table n table x h = (==_iff (f x) (g x)).0 (holds_below_sound n (λ y. f y == g y) x table h)

pub bit_and_0x7f : (b : ℕ) → b < 256 → bit_and b 0x7f ≡ b % 128
unfolding holds_below
bit_and_0x7f = byte_table (λ x. bit_and x 0x7f) (λ x. x % 128) 256 refl

pub bit_and_0x80 : (b : ℕ) → b < 256 → bit_and b 0x80 ≡ b / 128 * 128
unfolding holds_below
bit_and_0x80 = byte_table (λ x. bit_and x 0x80) (λ x. x / 128 * 128) 256 refl

pub bit_or_0x80 : (b : ℕ) → b < 128 → bit_or b 0x80 ≡ b + 128
unfolding holds_below
bit_or_0x80 = byte_table (λ x. bit_or x 0x80) (λ x. x + 128) 128 refl

pub bit_and_0x0f : (b : ℕ) → b < 256 → bit_and b 0x0f ≡ b % 16
unfolding holds_below
bit_and_0x0f = byte_table (λ x. bit_and x 0x0f) (λ x. x % 16) 256 refl

pub bit_and_7 : (b : ℕ) → b < 256 → bit_and b 7 ≡ b % 8
unfolding holds_below
bit_and_7 = byte_table (λ x. bit_and x 7) (λ x. x % 8) 256 refl

pub bit_and_2 : (b : ℕ) → b < 256 → bit_and b 2 ≡ b / 2 % 2 * 2
unfolding holds_below
bit_and_2 = byte_table (λ x. bit_and x 2) (λ x. x / 2 % 2 * 2) 256 refl

-- The fuel of the bitwise recursion does not matter once it covers the first argument.
or_digits_stable :
    (j k x y : ℕ) → x ≤ k → x ≤ j → digits (λ c. c) max k x y ≡ digits (λ c. c) max j x y
or_digits_stable zero k zero y below below' = unstarted k y
  where
    unstarted : (k y : ℕ) → digits (λ c. c) max k 0 y ≡ digits (λ c. c) max 0 0 y
    unstarted zero y = refl
    unstarted (suc k) y = refl
or_digits_stable (suc j) zero zero y below below' = refl
or_digits_stable (suc j) (suc k) zero y below below' = refl
or_digits_stable zero k (suc x) y below below' = absurd (omega arith)
or_digits_stable (suc j) zero (suc x) y below below' = absurd (omega arith)
or_digits_stable (suc j) (suc k) (suc x) y below below' =
    omega (arith, or_digits_stable j k (suc x / 2) (y / 2) (omega arith) (omega arith))

-- `|` by its lowest digit.
bit_or_lowest : (a b : ℕ) → bit_or a b ≡ bit_or (a / 2) (b / 2) * 2 + max (a % 2) (b % 2)
bit_or_lowest zero b = omega (arith, bit_or-bitwise 0 b, bit_or-bitwise 0 (b / 2))
bit_or_lowest (suc a) b = omega (
  arith,
  bit_or-bitwise (suc a) b,
  bit_or-bitwise (suc a / 2) (b / 2),
  or_digits_stable (suc a / 2) a (suc a / 2) (b / 2) (omega arith) (omega arith),
)

bit_or_0 : (b : ℕ) → bit_or 0 b ≡ b
bit_or_0 b = bit_or-bitwise 0 b

double : (g s : ℕ) → g * 2 ^ suc s ≡ g * 2 ^ s * 2
double g s = omega (arith, ap (λ (t : ℕ). g * t) (pow-suc 2 s))

-- `low | (g << s)` is a sum where `low` lies below bit `s`.
pub bit_or_shifted : (s low g : ℕ) → low < 2 ^ s → bit_or low (g * 2 ^ s) ≡ low + g * 2 ^ s
bit_or_shifted zero zero g h = bit_or-bitwise 0 (g * 2 ^ 0) ∙ omega arith
bit_or_shifted zero (suc low) g h = absurd (omega arith)
bit_or_shifted (suc s) low g h = ground (
  arith,
  bit_or_lowest low (g * 2 ^ suc s),
  double g s,
  pow-suc 2 s,
  bit_or_shifted s (low / 2) g,
)

bit_or_comm_below : (n a b : ℕ) → a ≤ n → b ≤ n → bit_or a b ≡ bit_or b a
bit_or_comm_below zero zero zero p q = refl
bit_or_comm_below zero zero (suc b) p q = absurd (omega arith)
bit_or_comm_below zero (suc a) b p q = absurd (omega arith)
bit_or_comm_below (suc n) a b p q = omega (
  arith,
  bit_or_lowest a b,
  bit_or_lowest b a,
  bit_or_comm_below n (a / 2) (b / 2) (omega arith) (omega arith),
)

pub bit_or_comm : (a b : ℕ) → bit_or a b ≡ bit_or b a
bit_or_comm a b = bit_or_comm_below (a + b) a b (omega arith) (omega arith)

-- `(g << s) | low`
pub shifted_bit_or : (s g low : ℕ) → low < 2 ^ s → bit_or (g * 2 ^ s) low ≡ g * 2 ^ s + low
shifted_bit_or s g low h = bit_or_comm (g * 2 ^ s) low ∙ bit_or_shifted s low g h ∙ omega arith
