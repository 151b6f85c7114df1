-- ===== src/WaBinary/Packing.antt =====
-- Reading back the packed strings of wa/wabinary/encoder.py.
use whatsapp_cli.Common.{
  ℕ, zero, suc, ◌+◌, ◌*◌, ◌/◌, ◌%◌, ◌^◌, ◌≤◌, ◌<◌, bit_or, bit_and, ◌≡◌, refl, sym, ap, ◌∙◌, Bool,
  true, false, not, ◌&&◌, some, [], ◌∷◌, ◌++◌, arith,
}
use whatsapp_cli.Common.Tests.{◌==◌, if◌then◌else◌}
use whatsapp_cli.Common.Lists.{length, get_elem?, drop, drop_past}
use whatsapp_cli.Common.Bits.{shifted_bit_or, bit_or_0x80, bit_and_0x80}
use whatsapp_cli.Common.Outcome.{Outcome, ok, raise}
use whatsapp_cli.Common.Utf8.{Bytes, Str}
use whatsapp_cli.WaBinary.Packed.{
  in_nibble_alphabet, in_hex_alphabet, all_in, valid_packed, pack_nibble, pack_hex, pack_pairs,
  write_packed, unpack_nibble, unpack_hex, read_u8, unpack_loop, read_packed,
}

-- A packer and an unpacker of one alphabet; the padding has the value 15.
pub record IsPacking (alphabet : ℕ → Bool) (packer unpacker : ℕ → Outcome ℕ) : Type 0 where
  pub code :
      (c : ℕ) → alphabet c ≡ true → (v : ℕ) × (v < 16) × (packer c ≡ ok v) × (unpacker v ≡ ok c)
  pub pad : packer 0 ≡ ok 15

value_of : Outcome ℕ → ℕ
value_of (raise e) = 0
value_of (ok v) = v

pub nibble-IsPacking : IsPacking in_nibble_alphabet pack_nibble unpack_nibble
unfolding pack_nibble unpack_nibble value_of
nibble-IsPacking = record {
  code = λ c h. (value_of (pack_nibble c), ground arith, ground arith, ground arith);
  pad = refl;
}

pub hex-IsPacking : IsPacking in_hex_alphabet pack_hex unpack_hex
unfolding pack_hex unpack_hex value_of
hex-IsPacking = record {
  code = λ c h. (value_of (pack_hex c), ground arith, ground arith, ground arith);
  pad = refl;
}

first_at :
    (bytes : Bytes) (pos b : ℕ) (rest : Bytes)
    → drop pos bytes ≡ b ∷ rest
    → get_elem? bytes pos ≡ some b
first_at [] zero b rest h = absurd cc
first_at [] (suc pos) b rest h = absurd cc
first_at (x ∷ bytes) zero b rest h = ap some (cc h)
first_at (x ∷ bytes) (suc pos) b rest h = first_at bytes pos b rest h

pub read_u8_at :
    (bytes : Bytes) (pos b : ℕ) (rest : Bytes)
    → drop pos bytes ≡ b ∷ rest
    → read_u8 bytes pos ≡ ok (b, pos + 1)
unfolding read_u8
read_u8_at bytes pos b rest h = ground (arith, first_at bytes pos b rest h)

unfoldable pub is_odd : Str → Bool
is_odd [] = false
is_odd (c ∷ []) = true
is_odd (c ∷ d ∷ s) = is_odd s

is_odd-length : (s : Str) → is_odd s ≡ not (length s % 2 == 0)
unfolding is_odd
is_odd-length [] = refl
is_odd-length (c ∷ []) = refl
is_odd-length (c ∷ d ∷ s) =
    let same : length s % 2 ≡ suc (suc (length s)) % 2 = omega arith in
    is_odd-length s ∙ ap (λ k. not (k == 0)) same

-- The byte of two values.
two_nibbles : (a b : ℕ) → a < 16 → b < 16 → bit_or (a * 2 ^ 4) b % 256 ≡ a * 16 + b
two_nibbles a b ha hb = omega (arith, shifted_bit_or 4 a b (omega arith))

-- What packing a text gives: its bytes, how many there are, and that the loop reads the text back.
record Packed (packer unpacker : ℕ → Outcome ℕ) (s : Str) : Type 0 where
  packed : Bytes
  returns : pack_pairs packer s ≡ ok packed
  size : length packed ≡ (length s + 1) / 2
  reads :
      (bytes : Bytes) (pos : ℕ) (rest : Bytes)
      → drop pos bytes ≡ packed ++ rest
      → unpack_loop unpacker (is_odd s) bytes (length packed) pos ≡ ok (s, pos + length packed)

unpack_last :
    (unpacker : ℕ → Outcome ℕ) (bytes : Bytes) (pos pos' b c : ℕ)
    → read_u8 bytes pos ≡ ok (b, pos')
    → unpacker (b / 2 ^ 4 % 16) ≡ ok c
    → unpack_loop unpacker true bytes 1 pos ≡ ok (c ∷ [], pos')
unfolding unpack_loop
unpack_last unpacker bytes pos pos' b c first high = ground (arith, first, high)

unpack_pair :
    (unpacker : ℕ → Outcome ℕ) (odd : Bool) (bytes : Bytes) (left pos pos' pos'' b c d : ℕ)
    (s : Str)
    → read_u8 bytes pos ≡ ok (b, pos')
    → unpacker (b / 2 ^ 4 % 16) ≡ ok c
    → unpacker (b % 16) ≡ ok d
    → (left == 0 && odd) ≡ false
    → unpack_loop unpacker odd bytes left pos' ≡ ok (s, pos'')
    → unpack_loop unpacker odd bytes (suc left) pos ≡ ok (c ∷ d ∷ s, pos'')
unpack_pair unpacker odd bytes left pos pos' pos'' b c d s first high low more rest =
    unfold unpack_loop in
    rw (first, unpack_loop) (rw (high, low, more) (rw (rest, unpack_loop) refl))

not_last : (s : Str) (n : ℕ) → n ≡ (length s + 1) / 2 → (n == 0 && is_odd s) ≡ false
unfolding is_odd
not_last [] n h = ground arith
not_last (c ∷ s) n h = ground arith

abbrev header_byte : ℕ → Bool → ℕ
header_byte n odd = n + (if odd then 128 else 0)

header_written :
    (s : Str)
    → length s ≤ 127
    → (if length s % 2 == 0 then (length s + 1) / 2 else bit_or ((length s + 1) / 2) 0x80) % 256
      ≡ header_byte ((length s + 1) / 2) (is_odd s)
header_written s h = ground (arith, is_odd-length s, bit_or_0x80 ((length s + 1) / 2) (omega arith))

header_flag : (n : ℕ) (odd : Bool) → n < 128 → not (bit_and (header_byte n odd) 0x80 == 0) ≡ odd
header_flag n true h = ground (arith, bit_and_0x80 (n + 128) (omega arith))
header_flag n false h = ground (arith, bit_and_0x80 (n + 0) (omega arith))

header_count : (n : ℕ) (odd : Bool) → n < 128 → header_byte n odd % 128 ≡ n
header_count n true h = omega arith
header_count n false h = omega arith

module _ {alphabet : ℕ → Bool} {packer unpacker : ℕ → Outcome ℕ}
    (p : IsPacking alphabet packer unpacker) where
  high_value :
      (a b c : ℕ)
      → a < 16
      → b < 16
      → unpacker a ≡ ok c
      → unpacker ((a * 16 + b) / 2 ^ 4 % 16) ≡ ok c
  high_value a b c ha hb h =
      let same : (a * 16 + b) / 2 ^ 4 % 16 ≡ a = omega arith in ap unpacker same ∙ h

  low_value : (a b c : ℕ) → b < 16 → unpacker b ≡ ok c → unpacker ((a * 16 + b) % 16) ≡ ok c
  low_value a b c hb h = let same : (a * 16 + b) % 16 ≡ b = omega arith in ap unpacker same ∙ h

  Packed-nil : Packed packer unpacker []
  Packed-nil = record {
    packed = [];
    returns = unfold pack_pairs in refl;
    size = refl;
    reads = λ bytes pos rest h. unfold unpack_loop in ground arith;
  }

  Packed-one : (c : ℕ) → alphabet c ≡ true → Packed packer unpacker (c ∷ [])
  Packed-one c h =
      let (v, small, packs, unpacks) = p.code c h in
      record {
        packed = (v * 16 + 15) ∷ [];
        returns =
            unfold pack_pairs in
            rw (packs, p.pad) (ap (λ (b : ℕ). ok (b ∷ [])) (two_nibbles v 15 small (omega arith)));
        size = refl;
        reads = λ bytes pos rest here.
            unfold is_odd in
            unpack_last unpacker bytes pos (pos + 1) (v * 16 + 15) c
              (read_u8_at bytes pos (v * 16 + 15) rest here)
              (high_value v 15 c small (omega arith) unpacks);
      }

  Packed-pair :
      (c d : ℕ) (s : Str)
      → alphabet c ≡ true
      → alphabet d ≡ true
      → Packed packer unpacker s
      → Packed packer unpacker (c ∷ d ∷ s)
  Packed-pair c d s hc hd f =
      let (v, small, packs, unpacks) = p.code c hc in
      let (w, small', packs', unpacks') = p.code d hd in
      record {
        packed = (v * 16 + w) ∷ f.packed;
        returns =
            unfold pack_pairs in
            rw (packs, packs')
              (rw (f.returns, pack_pairs)
                (ap (λ (b : ℕ). ok (b ∷ f.packed)) (two_nibbles v w small small')));
        size = omega (arith, f.size);
        reads = λ bytes pos rest here.
            let far : pos + 1 + length f.packed ≡ pos + suc (length f.packed) = omega arith in
            unfold is_odd in
            unpack_pair unpacker (is_odd s) bytes (length f.packed) pos (pos + 1)
              (pos + suc (length f.packed)) (v * 16 + w) c d s
              (read_u8_at bytes pos (v * 16 + w) (f.packed ++ rest) here)
              (high_value v w c small small' unpacks) (low_value v w d small' unpacks')
              (not_last s (length f.packed) f.size)
              (f.reads bytes (pos + 1) rest
                  (drop_past pos bytes ((v * 16 + w) ∷ []) (f.packed ++ rest) here)
                ∙ ap (λ (k : ℕ). ok (s, k)) far);
      }

  all_Packed : (s : Str) → all_in alphabet s ≡ true → Packed packer unpacker s
  all_Packed [] h = Packed-nil
  all_Packed (c ∷ []) h = Packed-one c (unfold all_in in ground (arith, h))
  all_Packed (c ∷ d ∷ s) h =
      Packed-pair c d s (unfold all_in in ground (arith, h)) (unfold all_in in ground (arith, h))
        (all_Packed s (unfold all_in in ground (arith, h)))

  -- A text of the alphabet is written as the tag, its header and half as many bytes, and reading from
  -- behind the tag gives it back with the position behind it.
  pub read_packed-write_packed :
      (tag : ℕ) (s : Str)
      → valid_packed alphabet s ≡ true
      → (body : Bytes) × (write_packed packer tag s ≡ ok ((tag % 256) ∷ body))
        × ((bytes : Bytes) (pos : ℕ) (rest : Bytes)
            → drop pos bytes ≡ body ++ rest
            → read_packed unpacker bytes pos ≡ ok (s, pos + length body))
  read_packed-write_packed tag s h =
      let (fits, inside) = valid s h in
      let f = all_Packed s inside in
      let n = length f.packed in
      let odd = is_odd s in
      let written = header_written s fits ∙ ap (λ (k : ℕ). header_byte k odd) (sym f.size) in
      (
        header_byte n odd ∷ f.packed,
        unfold write_packed in
            rw f.returns (ap (λ (b : ℕ). ok ((tag % 256) ∷ b ∷ f.packed)) written),
        λ bytes pos rest here.
            let far : pos + 1 + n ≡ pos + suc n = omega arith in
            unfold read_packed in
            rw (read_u8_at bytes pos (header_byte n odd) (f.packed ++ rest) here) (
              rw
                (
                  header_flag n odd (omega (arith, f.size)),
                  header_count n odd (omega (arith, f.size)),
                )
                (f.reads bytes (pos + 1) rest
                    (drop_past pos bytes (header_byte n odd ∷ []) (f.packed ++ rest) here)
                  ∙ ap (λ (k : ℕ). ok (s, k)) far)),
      )
    where
      valid :
          (s : Str) → valid_packed alphabet s ≡ true → (length s ≤ 127) × (all_in alphabet s ≡ true)
      valid [] h = unfold valid_packed in absurd cc
      valid (c ∷ s) h = unfold valid_packed in ground arith
