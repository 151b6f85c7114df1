-- ===== src/WaBinary/Packed.antt =====
-- The packed strings of wa/wabinary/encoder.py and decoder.py: two characters to a byte.
use whatsapp_cli.Common.{
  ℕ, zero, suc, ◌+◌, ◌-◌, ◌*◌, ◌/◌, ◌%◌, ◌^◌, bit_or, bit_and, Bool, true, false, not, ◌&&◌, ◌||◌,
  none, some, [], ◌∷◌,
}
use whatsapp_cli.Common.Tests.{◌==◌, ltb, leb, if◌then◌else◌}
use whatsapp_cli.Common.Lists.{length, get_elem?}
use whatsapp_cli.Common.Outcome.{Outcome, ok, raise, ◌>>=◌, index_error, value_error}
use whatsapp_cli.Common.Utf8.{Bytes, Str}
use whatsapp_cli.WaBinary.Tokens.{packed_max}

abbrev pub is_digit : ℕ → Bool
is_digit c = leb b'0' c && leb c b'9'

abbrev pub in_nibble_alphabet : ℕ → Bool
in_nibble_alphabet c = is_digit c || (c == b'-' || c == b'.')

abbrev pub in_hex_alphabet : ℕ → Bool
in_hex_alphabet c = is_digit c || (leb b'A' c && leb c b'F')

unfoldable pub all_in : (ℕ → Bool) → Str → Bool
all_in alphabet [] = true
all_in alphabet (c ∷ s) = alphabet c && all_in alphabet s

-- `_valid_nibble` and `_valid_hex`, by the alphabet.
unfoldable pub valid_packed : (ℕ → Bool) → Str → Bool
unfolding all_in
valid_packed alphabet [] = false
valid_packed alphabet (c ∷ s) =
    if ltb packed_max (length (c ∷ s)) then false else all_in alphabet (c ∷ s)

unfoldable pub pack_nibble : ℕ → Outcome ℕ
pack_nibble c =
    if c == b'-'
    then ok 10
    else if c == b'.'
    then ok 11
    else if c == 0
    then ok 15
    else if is_digit c
    then ok (c - b'0')
    else raise value_error

unfoldable pub pack_hex : ℕ → Outcome ℕ
pack_hex c =
    if is_digit c
    then ok (c - b'0')
    else if leb b'A' c && leb c b'F'
    then ok (10 + c - b'A')
    else if c == 0
    then ok 15
    else raise value_error

-- Both loops of `_write_packed`: the pairs, and the last character of an odd text with a padding 0.
unfoldable pub pack_pairs : (ℕ → Outcome ℕ) → Str → Outcome Bytes
pack_pairs packer [] = ok []
pack_pairs packer (c ∷ []) = do a ← packer c; b ← packer 0; ok (bit_or (a * 2 ^ 4) b % 256 ∷ [])
pack_pairs packer (c ∷ d ∷ s) = do
  a ← packer c
  b ← packer d
  rest ← pack_pairs packer s
  ok (bit_or (a * 2 ^ 4) b % 256 ∷ rest)

unfoldable pub write_packed : (ℕ → Outcome ℕ) → ℕ → Str → Outcome Bytes
write_packed packer type' s = do
  let rounded = (length s + 1) / 2
  let header = if length s % 2 == 0 then rounded else bit_or rounded 0x80
  packed ← pack_pairs packer s
  ok ((type' % 256) ∷ (header % 256) ∷ packed)

unfoldable pub unpack_nibble : ℕ → Outcome ℕ
unpack_nibble v =
    if leb v 9
    then ok (b'0' + v)
    else if v == 10
    then ok b'-'
    else if v == 11
    then ok b'.'
    else raise value_error

unfoldable pub unpack_hex : ℕ → Outcome ℕ
unpack_hex v =
    if leb v 9 then ok (b'0' + v) else if leb v 15 then ok (b'A' + v - 10) else raise value_error

-- `r.read_u8()` at a position
unfoldable pub read_u8 : Bytes → ℕ → Outcome (ℕ × ℕ)
read_u8 bytes pos = elim (get_elem? bytes pos) [
  | none ↦ raise index_error
  | some b ↦ ok (b, pos + 1)
]

-- The loop of `_read_packed` over the bytes that are left.
unfoldable pub unpack_loop : (ℕ → Outcome ℕ) → Bool → Bytes → ℕ → ℕ → Outcome (Str × ℕ)
unpack_loop unpacker odd bytes zero pos = ok ([], pos)
unpack_loop unpacker odd bytes (suc left) pos = do
  (b, pos') ← read_u8 bytes pos
  high ← unpacker (b / 2 ^ 4 % 16)
  if left == 0 && odd then ok (high ∷ [], pos') else (do
    low ← unpacker (b % 16)
    (rest, pos'') ← unpack_loop unpacker odd bytes left pos'
    ok (high ∷ low ∷ rest, pos''))

unfoldable pub read_packed : (ℕ → Outcome ℕ) → Bytes → ℕ → Outcome (Str × ℕ)
read_packed unpacker bytes pos = do
  (header, pos') ← read_u8 bytes pos
  let odd = not (bit_and header 0x80 == 0)
  unpack_loop unpacker odd bytes (header % 128) pos'
