-- ===== src/Common/Utf8.antt =====
-- Python's `str.encode("utf-8")` and strict `bytes.decode("utf-8")`, on code points, and `str`
-- literals. A lone surrogate, which `encode` refuses, is outside `IsText`.
use Prim.Native.Nat.{ℕ, zero, suc, ◌+◌, ◌-◌, ◌*◌, ◌/◌, ◌%◌, ◌≤◌, ◌<◌}
use Prim.Native.Char.{code}
use Prim.Native.String.{String}
use mathlib.Core.Path.{◌≡◌, refl, sym, ap, ◌∙◌}
use mathlib.Core.Logic.{◌⊎◌, ◌↔◌}
use mathlib.Core.Bool.{Bool, true, false, ◌&&◌, ◌||◌}
use mathlib.Core.List.{List, [], ◌∷◌, ◌++◌}
use mathlib.Core.Option
use mathlib.Core.Option.{Option, none, some}
use native.Mathlib.Omega.{arith}
use whatsapp_cli.Common.Tests.{◌==◌, ltb, leb, if◌then◌else◌}
use whatsapp_cli.Common.Lists.{drop, length, All}

-- `bytes` and `str`
abbrev pub Bytes : Type 0
Bytes = List ℕ

abbrev pub Str : Type 0
Str = List ℕ

abbrev pub IsByte : ℕ → Type 0
IsByte b = b < 256

abbrev pub IsBytes : Bytes → Type 0
IsBytes = All IsByte

-- a Unicode scalar value
abbrev pub IsScalar : ℕ → Type 0
IsScalar c = (c < 0xd800) ⊎ ((0xdfff < c) × (c < 0x110000))

abbrev pub IsText : Str → Type 0
IsText = All IsScalar

-- a literal
abbrev pub codes : String → Str
codes String.[] = []
codes (String.◌∷◌ c s) = code c ∷ codes s

abbrev pub encode_char : ℕ → Bytes
encode_char c =
    if ltb c 0x80
    then c ∷ []
    else if ltb c 0x800
    then (0xc0 + c / 64) ∷ (0x80 + c % 64) ∷ []
    else if ltb c 0x10000
    then (0xe0 + c / 4096) ∷ (0x80 + c / 64 % 64) ∷ (0x80 + c % 64) ∷ []
    else (0xf0 + c / 262144) ∷ (0x80 + c / 4096 % 64) ∷ (0x80 + c / 64 % 64) ∷ (0x80 + c % 64) ∷ []

unfoldable pub utf8_encode : Str → Bytes
utf8_encode [] = []
utf8_encode (c ∷ s) = encode_char c ++ utf8_encode s

abbrev is_continuation : ℕ → Bool
is_continuation b = leb 0x80 b && ltb b 0xc0

-- Neither overlong nor a surrogate nor past the last code point.
abbrev accept : ℕ → Bool → List ℕ → Option (ℕ × List ℕ)
accept c good rest = if good then some (c, rest) else none

two : ℕ → List ℕ → Option (ℕ × List ℕ)
two b0 [] = none
two b0 (b1 ∷ r) =
    let c = (b0 - 0xc0) * 64 + (b1 - 0x80) in accept c (is_continuation b1 && leb 0x80 c) r

three : ℕ → List ℕ → Option (ℕ × List ℕ)
three b0 (b1 ∷ b2 ∷ r) =
    let c = (b0 - 0xe0) * 4096 + (b1 - 0x80) * 64 + (b2 - 0x80) in
    accept c
      (is_continuation b1
        && (is_continuation b2 && (leb 0x800 c && (ltb c 0xd800 || ltb 0xdfff c))))
      r
three b0 _ = none

four : ℕ → List ℕ → Option (ℕ × List ℕ)
four b0 (b1 ∷ b2 ∷ b3 ∷ r) =
    let c = (b0 - 0xf0) * 262144 + (b1 - 0x80) * 4096 + (b2 - 0x80) * 64 + (b3 - 0x80) in
    accept c
      (is_continuation b1
        && (is_continuation b2 && (is_continuation b3 && (leb 0x10000 c && ltb c 0x110000))))
      r
four b0 _ = none

-- The first code point, and the bytes behind it.
pub decode_char : ℕ → List ℕ → Option (ℕ × List ℕ)
unfolding two three four
decode_char b0 r =
    if ltb b0 0x80
    then some (b0, r)
    else if ltb b0 0xc0
    then none
    else if ltb b0 0xe0
    then two b0 r
    else if ltb b0 0xf0
    then three b0 r
    else if ltb b0 0xf8
    then four b0 r
    else none

pub decode_loop : ℕ → Bytes → Option Str
decode_loop fuel [] = some []
decode_loop zero (b ∷ bs) = none
decode_loop (suc fuel) (b ∷ bs) = elim (decode_char b bs) [
  | none ↦ none
  | some (c, rest) ↦ Option.map (λ s. c ∷ s) (decode_loop fuel rest)
]

-- Every code point takes a byte at least, so as many rounds as bytes are enough.
unfoldable pub utf8_decode : Bytes → Option Str
unfolding decode_loop decode_char
utf8_decode bs = decode_loop (length bs) bs

-- How many of the bytes behind a bad head `decode("utf-8", "replace")` swallows with it: those that
-- could still have belonged to a well-formed sequence.
abbrev second_fits : ℕ → ℕ → Bool
second_fits b0 b1 =
    if b0 == 0xe0
    then leb 0xa0 b1 && ltb b1 0xc0
    else if b0 == 0xed
    then leb 0x80 b1 && ltb b1 0xa0
    else if b0 == 0xf0
    then leb 0x90 b1 && ltb b1 0xc0
    else if b0 == 0xf4
    then leb 0x80 b1 && ltb b1 0x90
    else is_continuation b1

skipped : ℕ → List ℕ → ℕ
skipped b0 [] = 0
skipped b0 (b1 ∷ []) = if leb 0xe0 b0 && (ltb b0 0xf5 && second_fits b0 b1) then 1 else 0
skipped b0 (b1 ∷ b2 ∷ r) =
    if leb 0xe0 b0 && (ltb b0 0xf5 && second_fits b0 b1)
    then (if leb 0xf0 b0 && is_continuation b2 then 2 else 1)
    else 0

replace_loop : ℕ → Bytes → Str
replace_loop fuel [] = []
replace_loop zero (b ∷ bs) = []
replace_loop (suc fuel) (b ∷ bs) = elim (decode_char b bs) [
  | none ↦ 0xfffd ∷ replace_loop fuel (drop (skipped b bs) bs)
  | some (c, rest) ↦ c ∷ replace_loop fuel rest
]

-- `bytes.decode("utf-8", "replace")`, which never raises
unfoldable pub utf8_decode_replace : Bytes → Str
unfolding replace_loop decode_char skipped
utf8_decode_replace bs = replace_loop (length bs) bs

abbrev pub head_byte : ℕ → ℕ
head_byte c =
    if ltb c 0x80
    then c
    else if ltb c 0x800
    then 0xc0 + c / 64
    else if ltb c 0x10000
    then 0xe0 + c / 4096
    else 0xf0 + c / 262144

abbrev pub tail_bytes : ℕ → Bytes
tail_bytes c =
    if ltb c 0x80
    then []
    else if ltb c 0x800
    then (0x80 + c % 64) ∷ []
    else if ltb c 0x10000
    then (0x80 + c / 64 % 64) ∷ (0x80 + c % 64) ∷ []
    else (0x80 + c / 4096 % 64) ∷ (0x80 + c / 64 % 64) ∷ (0x80 + c % 64) ∷ []

encode_char_parts : (c : ℕ) → encode_char c ≡ head_byte c ∷ tail_bytes c
encode_char_parts c = ground arith

decode_char-head_byte :
    (c : ℕ) (rest : Bytes)
    → IsScalar c
    → decode_char (head_byte c) (tail_bytes c ++ rest) ≡ some (c, rest)
unfolding decode_char
decode_char-head_byte c rest h = ground arith

encode_char-ne-nil : (c : ℕ) (rest : Bytes) → suc (length rest) ≤ length (encode_char c ++ rest)
encode_char-ne-nil c rest = ground arith

decode_loop_step :
    (fuel b c : ℕ) (bs rest : Bytes) {s : Str}
    → decode_char b bs ≡ some (c, rest)
    → decode_loop fuel rest ≡ some s
    → decode_loop (suc fuel) (b ∷ bs) ≡ some (c ∷ s)
unfolding decode_loop
decode_loop_step fuel b c bs rest e h = rw (e, decode_loop) (rw h)

decode_loop-utf8_encode :
    (s : Str) (fuel : ℕ)
    → IsText s
    → length (utf8_encode s) ≤ fuel
    → decode_loop fuel (utf8_encode s) ≡ some s
unfolding utf8_encode
decode_loop-utf8_encode [] zero h e = unfold decode_loop in refl
decode_loop-utf8_encode [] (suc fuel) h e = unfold decode_loop in refl
decode_loop-utf8_encode (c ∷ s) zero (hc, hs) e =
    absurd (omega (arith, encode_char-ne-nil c (utf8_encode s)))
decode_loop-utf8_encode (c ∷ s) (suc fuel) (hc, hs) e = rw (encode_char_parts c) (
    decode_loop_step fuel (head_byte c) c _ (utf8_encode s)
      (decode_char-head_byte c (utf8_encode s) hc)
      (decode_loop-utf8_encode s fuel hs (omega (arith, encode_char-ne-nil c (utf8_encode s)))))

-- Decoding gives back every text that was encoded.
pub utf8_decode-utf8_encode : (s : Str) → IsText s → utf8_decode (utf8_encode s) ≡ some s
unfolding utf8_decode
utf8_decode-utf8_encode s h = decode_loop-utf8_encode s _ h (omega arith)

encode_char-IsBytes :
    (c : ℕ) (rest : Bytes) → c < 0x110000 → IsBytes rest → IsBytes (encode_char c ++ rest)
encode_char-IsBytes c rest h r = ground arith

pub utf8_encode-IsBytes : (s : Str) → IsText s → IsBytes (utf8_encode s)
unfolding utf8_encode
utf8_encode-IsBytes [] h = tt
utf8_encode-IsBytes (c ∷ s) (hc, hs) =
    encode_char-IsBytes c (utf8_encode s) (omega arith) (utf8_encode-IsBytes s hs)

replace_loop_step :
    (fuel b c : ℕ) (bs rest : Bytes)
    → decode_char b bs ≡ some (c, rest)
    → replace_loop (suc fuel) (b ∷ bs) ≡ c ∷ replace_loop fuel rest
unfolding replace_loop
replace_loop_step fuel b c bs rest e = rw (e, replace_loop)

replace_loop-utf8_encode :
    (s : Str) (fuel : ℕ)
    → IsText s
    → length (utf8_encode s) ≤ fuel
    → replace_loop fuel (utf8_encode s) ≡ s
unfolding utf8_encode
replace_loop-utf8_encode [] zero h e = unfold replace_loop in refl
replace_loop-utf8_encode [] (suc fuel) h e = unfold replace_loop in refl
replace_loop-utf8_encode (c ∷ s) zero (hc, hs) e =
    absurd (omega (arith, encode_char-ne-nil c (utf8_encode s)))
replace_loop-utf8_encode (c ∷ s) (suc fuel) (hc, hs) e =
    let rest = utf8_encode s in
    let room = encode_char-ne-nil c rest in
    rw (encode_char_parts c) (
      replace_loop_step fuel (head_byte c) c (tail_bytes c ++ rest) rest
        (decode_char-head_byte c rest hc)
      ∙ ap (λ t. c ∷ t) (replace_loop-utf8_encode s fuel hs (omega arith)))

-- The replacing decoder gives back every text too.
pub utf8_decode_replace-utf8_encode : (s : Str) → IsText s → utf8_decode_replace (utf8_encode s) ≡ s
unfolding utf8_decode_replace
utf8_decode_replace-utf8_encode s h = replace_loop-utf8_encode s _ h (omega arith)

pub utf8_encode-ne-nil : (c : ℕ) (s : Str) → ◌≡◌ {A = Bytes} (utf8_encode (c ∷ s)) [] → ⊥
unfolding utf8_encode
utf8_encode-ne-nil c s e =
    omega (arith, ap (λ (t : Bytes). length t) e, encode_char-ne-nil c (utf8_encode s))

-- `==` of two bytes or two str
unfoldable pub same_bytes : List ℕ → List ℕ → Bool
same_bytes [] [] = true
same_bytes [] (y ∷ ys) = false
same_bytes (x ∷ xs) [] = false
same_bytes (x ∷ xs) (y ∷ ys) = (x == y) && same_bytes xs ys

pub same_bytes_refl : (xs : List ℕ) → same_bytes xs xs ≡ true
unfolding same_bytes
same_bytes_refl [] = refl
same_bytes_refl (x ∷ xs) = ground (arith, same_bytes_refl xs)

pub same_bytes_iff : (xs ys : List ℕ) → (same_bytes xs ys ≡ true) ↔ (xs ≡ ys)
same_bytes_iff xs ys = (sound xs ys, λ e. ap (same_bytes xs) (sym e) ∙ same_bytes_refl xs)
  where
    sound : (xs ys : List ℕ) → same_bytes xs ys ≡ true → xs ≡ ys
    sound [] [] h = refl
    sound [] (y ∷ ys) h = unfold same_bytes in cc h
    sound (x ∷ xs) [] h = unfold same_bytes in cc h
    sound (x ∷ xs) (y ∷ ys) h = step (sound xs ys) (unfold same_bytes in h)
      where
        step :
            (same_bytes xs ys ≡ true → xs ≡ ys)
            → ((x == y) && same_bytes xs ys) ≡ true
            → x ∷ xs ≡ y ∷ ys
        step ih e = ground (arith, ih)
