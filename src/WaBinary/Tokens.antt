-- ===== src/WaBinary/Tokens.antt =====
-- wa/wabinary/tokens.py: the tag bytes and the lookups in the token tables.
mod Single
mod Dictionary0
mod Dictionary1
mod Dictionary2
mod Dictionary3
unfoldable pub use Single.{single_byte_tokens}
use Dictionary0.{dictionary_0}
use Dictionary1.{dictionary_1}
use Dictionary2.{dictionary_2}
use Dictionary3.{dictionary_3}
use whatsapp_cli.Common.{
  ℕ, zero, suc, ◌+◌, ◌-◌, ◌≤◌, ◌<◌, ◌≡◌, refl, sym, ap, subst, ◌∙◌, ◌⊎◌, inl, inr, Bool, true,
  false, ◌&&◌, not, Option, none, some, List, [], ◌∷◌, String, arith,
}
use whatsapp_cli.Common.Tests.{if◌then◌else◌, Bool-cases}
use whatsapp_cli.Common.Lists.{length, get_elem?, All}
use whatsapp_cli.Common.Utf8.{Str, codes, same_bytes, same_bytes_iff}

unfoldable pub double_byte_tokens : List (List String)
unfolding dictionary_0 dictionary_1 dictionary_2 dictionary_3
double_byte_tokens = dictionary_0 ∷ dictionary_1 ∷ dictionary_2 ∷ dictionary_3 ∷ []

abbrev pub list_empty : ℕ
list_empty = 0

abbrev pub dictionary_first : ℕ
dictionary_first = 236

abbrev pub dictionary_last : ℕ
dictionary_last = 239

abbrev pub interop_jid : ℕ
interop_jid = 245

abbrev pub fb_jid : ℕ
fb_jid = 246

abbrev pub ad_jid : ℕ
ad_jid = 247

abbrev pub list_8 : ℕ
list_8 = 248

abbrev pub list_16 : ℕ
list_16 = 249

abbrev pub jid_pair : ℕ
jid_pair = 250

abbrev pub hex_8 : ℕ
hex_8 = 251

abbrev pub binary_8 : ℕ
binary_8 = 252

abbrev pub binary_20 : ℕ
binary_20 = 253

abbrev pub binary_32 : ℕ
binary_32 = 254

abbrev pub nibble_8 : ℕ
nibble_8 = 255

abbrev pub packed_max : ℕ
packed_max = 127

abbrev pub is_nonempty : Str → Bool
is_nonempty [] = false
is_nonempty (c ∷ s) = true

-- `_build_indexes` writes `_single_lookup[tok] = i` in order, so the last index of a text stays.
unfoldable pub last_index : Str → ℕ → List String → Option ℕ
last_index s i [] = none
last_index s i (tok ∷ toks) =
    let later = last_index s (i + 1) toks in
    let here = is_nonempty (codes tok) && same_bytes (codes tok) s in
    elim later [ some j ↦ some j | none ↦ if here then some i else none ]

unfoldable pub single_byte_index : Str → Option ℕ
unfolding last_index single_byte_tokens
single_byte_index s = last_index s 0 single_byte_tokens

-- The same for `_double_lookup[tok] = (d, i)`. No token of the dictionaries is empty.
unfoldable pub last_pair : Str → ℕ → List (List String) → Option (ℕ × ℕ)
last_pair s d [] = none
last_pair s d (dict ∷ dicts) = elim (last_pair s (d + 1) dicts) [
  | some p ↦ some p
  | none ↦ elim (last_index s 0 dict) [ some i ↦ some (d, i) | none ↦ none ]
]

unfoldable pub double_byte_index : Str → Option (ℕ × ℕ)
unfolding last_pair last_index double_byte_tokens
double_byte_index s = last_pair s 0 double_byte_tokens

-- The token at an index, as text.
unfoldable pub token_at : List String → ℕ → Option Str
token_at toks i = elim (get_elem? toks i) [ none ↦ none | some t ↦ some (codes t) ]

-- What an index found from position `i` on tells of a table.
record Found (s : Str) (i : ℕ) (toks : List String) (j : ℕ) : Type 0 where
  offset : ℕ
  place : j ≡ i + offset
  inside : offset < length toks
  token : token_at toks offset ≡ some s
  nonempty : is_nonempty s ≡ true

Found-later :
    (s : Str) (i : ℕ) (t : String) (ts : List String) (j : ℕ)
    → Found s (i + 1) ts j
    → Found s i (t ∷ ts) j
Found-later s i t ts j f = record {
  offset = suc f.offset;
  place = omega (arith, f.place);
  inside = omega (arith, f.inside);
  token = unfold token_at in f.token;
  nonempty = f.nonempty;
}

Found-here :
    (s : Str) (i : ℕ) (t : String) (ts : List String)
    → (is_nonempty (codes t) && same_bytes (codes t) s) ≡ true
    → Found s i (t ∷ ts) i
Found-here s i t ts h =
    let e : codes t ≡ s = (same_bytes_iff (codes t) s).0 (ground (arith, h)) in
    record {
      offset = 0;
      place = omega arith;
      inside = omega arith;
      token = unfold token_at in ap some e;
      nonempty = ap is_nonempty (sym e) ∙ ground (arith, h);
    }

last_index_sound :
    (s : Str) (i : ℕ) (toks : List String) (j : ℕ) → last_index s i toks ≡ some j → Found s i toks j
last_index_sound s i [] j h = absurd (unfold last_index in cc h)
last_index_sound s i (t ∷ ts) j h =
    split (last_index s (i + 1) ts) refl (last_index_sound s (i + 1) ts) (Bool-cases here)
  where
    here : Bool
    here = is_nonempty (codes t) && same_bytes (codes t) s

    split :
        (o : Option ℕ)
        → last_index s (i + 1) ts ≡ o
        → ((k : ℕ) → last_index s (i + 1) ts ≡ some k → Found s (i + 1) ts k)
        → (here ≡ true) ⊎ (here ≡ false)
        → Found s i (t ∷ ts) j
    split (some k) e ih c =
        let same : k ≡ j = unfold last_index in ground (arith, h, e) in
        Found-later s i t ts j (subst (λ n. Found s (i + 1) ts n) same (ih k e))
    split none e ih (inl c) =
        let same : i ≡ j = unfold last_index in ground (arith, h, e, c) in
        subst (λ n. Found s i (t ∷ ts) n) same (Found-here s i t ts c)
    split none e ih (inr c) = absurd (unfold last_index in ground (arith, h, e, c))

length-single_byte_tokens : length single_byte_tokens ≡ 236
unfolding single_byte_tokens
length-single_byte_tokens = refl

-- A text that has a single-byte token has one from 1 to 235, which stands for it.
pub single_byte_index_sound :
    (s : Str) (i : ℕ)
    → single_byte_index s ≡ some i
    → (1 ≤ i) × (i ≤ 235) × (token_at single_byte_tokens i ≡ some s)
single_byte_index_sound s i h =
    let f = last_index_sound s 0 single_byte_tokens i (unfold single_byte_index in h) in
    let here : i ≡ f.offset = omega (arith, f.place) in
    let token : token_at single_byte_tokens i ≡ some s =
      ap (token_at single_byte_tokens) here ∙ f.token in
    (positive s i f.nonempty token, omega (arith, f.inside, length-single_byte_tokens), token)
  where
    positive :
        (s : Str) (i : ℕ) → is_nonempty s ≡ true → token_at single_byte_tokens i ≡ some s → 1 ≤ i
    positive [] i n e = cc n
    positive (c ∷ s) zero n e = absurd (unfold token_at single_byte_tokens in cc e)
    positive (c ∷ s) (suc i) n e = omega arith

record FoundPair (s : Str) (d : ℕ) (dicts : List (List String)) (p : ℕ × ℕ) : Type 0 where
  offset : ℕ
  dict : List String
  place : p.0 ≡ d + offset
  there : get_elem? dicts offset ≡ some dict
  found : Found s 0 dict p.1

last_pair_sound :
    (s : Str) (d : ℕ) (dicts : List (List String)) (p : ℕ × ℕ)
    → last_pair s d dicts ≡ some p
    → FoundPair s d dicts p
last_pair_sound s d [] p h = absurd (unfold last_pair in cc h)
last_pair_sound s d (dict ∷ dicts) p h =
    split (last_pair s (d + 1) dicts) (last_index s 0 dict) refl refl
      (last_pair_sound s (d + 1) dicts)
  where
    split :
        (o : Option (ℕ × ℕ)) (o' : Option ℕ)
        → last_pair s (d + 1) dicts ≡ o
        → last_index s 0 dict ≡ o'
        → ((q : ℕ × ℕ) → last_pair s (d + 1) dicts ≡ some q → FoundPair s (d + 1) dicts q)
        → FoundPair s d (dict ∷ dicts) p
    split (some q) o' e e' ih =
        let same : q ≡ p = unfold last_pair in ground (arith, h, e) in
        let f = ih q e in
        subst (λ r. FoundPair s d (dict ∷ dicts) r) same
          (record {
            offset = suc f.offset;
            dict = f.dict;
            place = omega (arith, f.place);
            there = f.there;
            found = f.found;
          })
    split none (some i) e e' ih =
        let same : ◌≡◌ {A = ℕ × ℕ} (d, i) p = unfold last_pair in ground (arith, h, e, e') in
        subst (λ r. FoundPair s d (dict ∷ dicts) r) same
          (record {
            offset = 0;
            dict = dict;
            place = omega arith;
            there = refl;
            found = last_index_sound s 0 dict i e';
          })
    split none none e e' ih = absurd (unfold last_pair in ground (arith, h, e, e'))

dictionary_sizes : All (λ dict. length dict ≡ 256) double_byte_tokens
unfolding double_byte_tokens
dictionary_sizes = (refl, (refl, (refl, (refl, tt))))

size_of :
    (dicts : List (List String)) (d : ℕ) {dict : List String}
    → All (λ x. length x ≡ 256) dicts
    → get_elem? dicts d ≡ some dict
    → (d < length dicts) × (length dict ≡ 256)
size_of [] d h e = cc e
size_of (x ∷ xs) zero {dict} (hx, h) e =
    let same : x ≡ dict = cc e in (omega arith, subst (λ t. length t ≡ 256) same hx)
size_of (x ∷ xs) (suc d) (hx, h) e = let (inside, size) = size_of xs d h e in (omega arith, size)

-- A text that has a double-byte token has one of the four dictionaries and one of its 256 places,
-- where it stands.
pub double_byte_index_sound :
    (s : Str) (d i : ℕ)
    → double_byte_index s ≡ some (d, i)
    → (d ≤ 3)
      × (i < 256)
      × (dict : List String) × (get_elem? double_byte_tokens d ≡ some dict)
      × (token_at dict i ≡ some s)
double_byte_index_sound s d i h =
    let f = last_pair_sound s 0 double_byte_tokens (d, i) (unfold double_byte_index in h) in
    let g = f.found in
    let same : f.offset ≡ d = omega (arith, f.place) in
    let same' : g.offset ≡ i = omega (arith, g.place) in
    let there : get_elem? double_byte_tokens d ≡ some f.dict =
      subst (λ k. get_elem? double_byte_tokens k ≡ some f.dict) same f.there in
    let (inside, size) = size_of double_byte_tokens d dictionary_sizes there in
    (
      omega (arith, inside, four),
      omega (arith, g.inside, size),
      f.dict,
      there,
      subst (λ k. token_at f.dict k ≡ some s) same' g.token,
    )
  where
    four : length double_byte_tokens ≡ 4
    four = unfold double_byte_tokens in refl
