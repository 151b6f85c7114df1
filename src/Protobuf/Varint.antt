-- ===== src/Protobuf/Varint.antt =====
-- Reading back a varint that `_varint` of wa/peerreq.py wrote, at any position of a buffer.
use whatsapp_cli.Common.{
  ℕ, zero, suc, ◌+◌, ◌*◌, ◌/◌, ◌%◌, ◌^◌, ◌≤◌, ◌<◌, ◌≡◌, ap, ◌∙◌, some, [], ◌∷◌, ◌++◌, arith,
}
use whatsapp_cli.Common.Lists.{length, get_elem?, drop, drop_past}
use whatsapp_cli.Common.Bits.{bit_and_0x80, bit_or_0x80, bit_or_shifted}
use whatsapp_cli.Common.Outcome.{ok}
use whatsapp_cli.Common.Utf8.{Bytes}
use whatsapp_cli.Protobuf.Writer.{varint_loop, varint}
use whatsapp_cli.Protobuf.Reader.{byte_at, read_varint_loop, read_varint}
use native.Mathlib.Nat.{div-add-mod}
use native.Mathlib.Decide.{dec_lt}
use native.Mathlib.Numerals.{towards_suc}

get_elem?-drop : (i : ℕ) (xs rest : Bytes) {b : ℕ} → drop i xs ≡ b ∷ rest → get_elem? xs i ≡ some b
get_elem?-drop zero [] rest h = cc
get_elem?-drop zero (x ∷ xs) rest h = cc
get_elem?-drop (suc i) [] rest h = cc
get_elem?-drop (suc i) (x ∷ xs) rest h = get_elem?-drop i xs rest h

pub byte_at-drop :
    (i : ℕ) (bytes rest : Bytes) {b : ℕ} → drop i bytes ≡ b ∷ rest → byte_at bytes i ≡ ok b
unfolding byte_at
byte_at-drop i bytes rest h = rw (get_elem?-drop i bytes rest h, byte_at)

-- One round on a last byte, and on a byte that announces more.
last_group :
    (rounds : ℕ) (bytes : Bytes) (i result shift n : ℕ)
    → byte_at bytes i ≡ ok n
    → n < 128
    → result < 2 ^ shift
    → read_varint_loop (suc rounds) bytes i result shift ≡ ok (result + n * 2 ^ shift, i + 1)
last_group rounds bytes i result shift n at small fits =
    let e : n % 128 ≡ n = omega arith in
    unfold read_varint_loop in
    rw at (rw e (ground (arith, bit_and_0x80 n, bit_or_shifted shift result n)))

inner_group :
    (rounds : ℕ) (bytes : Bytes) (i result shift g : ℕ)
    → byte_at bytes i ≡ ok (g + 128)
    → g < 128
    → result < 2 ^ shift
    → shift + 7 < 64
    → read_varint_loop (suc rounds) bytes i result shift
      ≡ read_varint_loop rounds bytes (i + 1) (result + g * 2 ^ shift) (shift + 7)
inner_group rounds bytes i result shift g at small fits room =
    let e : (g + 128) % 128 ≡ g = omega arith in
    unfold read_varint_loop in
    rw at (rw e (rw (bit_or_shifted shift result g fits) (ground (arith, bit_and_0x80 (g + 128)))))

pow_7 : (s : ℕ) → 2 ^ (s + 7) ≡ 128 * 2 ^ s
pow_7 s = simp towards_suc (omega arith)

split_low : (n s : ℕ) → n * 2 ^ s ≡ n % 128 * 2 ^ s + n / 128 * 2 ^ (s + 7)
split_low n s =
    omega
      (arith, ap (λ (t : ℕ). t * 2 ^ s) (div-add-mod n 128), ap (λ (t : ℕ). n / 128 * t) (pow_7 s))

group_fits : (result g s : ℕ) → result < 2 ^ s → g < 128 → result + g * 2 ^ s < 2 ^ (s + 7)
group_fits result g s h k = grind (arith, pow_7 s)

varint_loop_small : (k n : ℕ) → n < 128 → varint_loop k n ≡ n ∷ []
unfolding varint_loop
varint_loop_small zero n h = ground arith
varint_loop_small (suc k) n h = ground arith

varint_loop_large :
    (k n : ℕ) → 128 ≤ n → varint_loop (suc k) n ≡ (n % 128 + 128) ∷ varint_loop k (n / 128)
unfolding varint_loop
varint_loop_large k n h = ground (arith, bit_or_0x80 (n % 128))

-- Ten rounds are enough: `shift + 7 * k` stays below 64.
read_varint_loop-varint_loop :
    (k rounds : ℕ) (bytes : Bytes) (i : ℕ) (rest : Bytes) (n result shift : ℕ)
    → drop i bytes ≡ varint_loop k n ++ rest
    → n < 128 ^ suc k
    → k < rounds
    → result < 2 ^ shift
    → shift + 7 * k < 64
    → read_varint_loop rounds bytes i result shift
      ≡ ok (result + n * 2 ^ shift, i + length (varint_loop k n))
read_varint_loop-varint_loop k zero bytes i rest n result shift at small more fits room =
    absurd (omega arith)
read_varint_loop-varint_loop zero (suc rounds) bytes i rest n result shift at small more fits room =
    let e = varint_loop_small 0 n (omega arith) in
    rw e (
      last_group rounds bytes i result shift n (byte_at-drop i bytes rest (rw e at at))
        (omega arith) fits)
read_varint_loop-varint_loop (suc k) (suc rounds) bytes i rest n result shift at small more fits
      room =
    elim (dec_lt n 128) [
      | yes p ↦
          let e = varint_loop_small (suc k) n p in
          rw e (
            last_group rounds bytes i result shift n (byte_at-drop i bytes rest (rw e at at)) p
              fits)
      | no p ↦
          let e = varint_loop_large k n (omega arith) in
          let tail = varint_loop k (n / 128) in
          let here : drop i bytes ≡ (n % 128 + 128) ∷ (tail ++ rest) = rw e at at in
          rw e (
            inner_group rounds bytes i result shift (n % 128)
              (byte_at-drop i bytes (tail ++ rest) here) (omega arith) fits (omega arith)
            ∙ read_varint_loop-varint_loop k rounds bytes (i + 1) rest (n / 128)
                (result + n % 128 * 2 ^ shift) (shift + 7)
                (drop_past i bytes ((n % 128 + 128) ∷ []) (tail ++ rest) here) (omega arith)
                (omega arith) (group_fits result (n % 128) shift fits (omega arith)) (omega arith)
            ∙ ground (arith, split_low n shift))
    ]

varint_loop_bounds : (k n : ℕ) → (1 ≤ length (varint_loop k n)) × (length (varint_loop k n) ≤ suc k)
unfolding varint_loop
varint_loop_bounds zero n = omega arith
varint_loop_bounds (suc k) n = ground (arith, varint_loop_bounds k (n / 128))

pub length-varint : (n : ℕ) → (1 ≤ length (varint n)) × (length (varint n) ≤ 10)
unfolding varint
length-varint n = varint_loop_bounds 9 (n % 2 ^ 64)

-- Where a varint below 2 ^ 64 was written, reading gives its number and the position behind it.
pub read_varint-varint :
    (bytes : Bytes) (i n : ℕ) (rest : Bytes)
    → drop i bytes ≡ varint n ++ rest
    → n < 2 ^ 64
    → read_varint bytes i ≡ ok (n, i + length (varint n))
unfolding varint read_varint
read_varint-varint bytes i n rest here small =
    let e : n % 2 ^ 64 ≡ n = omega arith in
    let here' : drop i bytes ≡ varint_loop 9 n ++ rest = rw e at here in
    rw e (
      read_varint_loop-varint_loop 9 10 bytes i rest n 0 0 here' (omega arith) (omega arith)
        (omega arith) (omega arith)
      ∙ ground arith)
