-- ===== src/Messages/PhashOrder.antt =====
-- The hash of `_phash` (wa/cli.py) does not depend on the order of the devices.
use mathlib.Core.List.{Perm, Permᴰ}
use mathlib.Core.List.Perm as Perm
use mathlib.Core.List as List
use native.Mathlib.Nat.{ℕ_set}
use mathlib.Core.Logic.{∥∥₁_elim}
use whatsapp_cli.Common.{
  ◌≡◌, refl, sym, ap, ap₂, ◌∙◌, true, false, List, [], ◌∷◌, map, arith, inl, inr,
}
use whatsapp_cli.Common.Tests.{Bool-cases}
use whatsapp_cli.Common.Utf8.{Str}
use whatsapp_cli.WaBinary.Node.{Jid}
use whatsapp_cli.WaBinary.JidText.{ad_string}
use whatsapp_cli.Noise.Primitives.{Primitives}
use whatsapp_cli.Messages.Phash.{str_le, place_str, sorted, phash}

str_le_total : (s t : Str) → str_le s t ≡ false → str_le t s ≡ true
unfolding str_le
str_le_total [] [] h = refl
str_le_total [] (d ∷ t) h = ground (arith, h)
str_le_total (c ∷ s) [] h = refl
str_le_total (c ∷ s) (d ∷ t) h = ground (arith, str_le_total s t, h)

str_le_antisymm : (s t : Str) → str_le s t ≡ true → str_le t s ≡ true → s ≡ t
unfolding str_le
str_le_antisymm [] [] h h' = refl
str_le_antisymm [] (d ∷ t) h h' = ground (arith, h')
str_le_antisymm (c ∷ s) [] h h' = ground (arith, h)
str_le_antisymm (c ∷ s) (d ∷ t) h h' = ground (arith, str_le_antisymm s t, h, h')

str_le_trans : (s t u : Str) → str_le s t ≡ true → str_le t u ≡ true → str_le s u ≡ true
unfolding str_le
str_le_trans [] t [] h h' = refl
str_le_trans [] t (e ∷ u) h h' = refl
str_le_trans (c ∷ s) [] u h h' = ground (arith, h)
str_le_trans (c ∷ s) (d ∷ t) [] h h' = ground (arith, h')
str_le_trans (c ∷ s) (d ∷ t) (e ∷ u) h h' = ground (arith, str_le_trans s t u, h, h')

place_str_next :
    (s t : Str) (l : List Str)
    → str_le s t ≡ true
    → place_str t l ≡ t ∷ l
    → s ∷ t ∷ l ≡ place_str t (s ∷ l)
unfolding place_str
place_str_next s t l h p = elim (Bool-cases (str_le t s)) [
  | inl h' ↦ let e = str_le_antisymm s t h h' in rw (h') (ap₂ (λ a b. a ∷ b ∷ l) e (sym e))
  | inr h' ↦ rw (h', p) refl
]

place_str_behind :
    (s t u : Str) (l : List Str)
    → str_le s t ≡ true
    → str_le t u ≡ false
    → str_le s u ≡ true
    → s ∷ u ∷ place_str t l ≡ place_str t (s ∷ u ∷ l)
unfolding place_str
place_str_behind s t u l h tu su = elim (Bool-cases (str_le t s)) [
  | inl h' ↦ cc (str_le_antisymm s t h h', tu, su)
  | inr h' ↦ rw (h', tu) refl
]

place_str_le :
    (s t : Str) (l : List Str)
    → str_le s t ≡ true
    → place_str s (place_str t l) ≡ place_str t (place_str s l)
unfolding place_str
place_str_le s t [] h = rw (h) (place_str_next s t [] h refl)
place_str_le s t (u ∷ l) h = elim (Bool-cases (str_le t u)) [
  | inl tu ↦ rw (tu, str_le_trans s t u h tu, h) (place_str_next s t (u ∷ l) h (rw (tu) refl))
  | inr tu ↦ elim (Bool-cases (str_le s u)) [
    | inl su ↦ rw (tu, su) (place_str_behind s t u l h tu su)
    | inr su ↦ rw (tu, su, tu) (ap (◌∷◌ u) (place_str_le s t l h))
  ]
]

-- Two texts are placed in either order.
place_str_comm :
    (s t : Str) (l : List Str) → place_str s (place_str t l) ≡ place_str t (place_str s l)
place_str_comm s t l = elim (Bool-cases (str_le s t)) [
  | inl h ↦ place_str_le s t l h
  | inr h ↦ sym (place_str_le t s l (str_le_total s t h))
]

sorted_same : {l r : List Str} → Permᴰ l r → sorted l ≡ sorted r
unfolding sorted
sorted_same Permᴰ.nil = refl
sorted_same (Permᴰ.cons e p) = ap₂ place_str e (sorted_same p)
sorted_same (Permᴰ.swap {a = a} {b = b} {l = l} e e') =
    place_str_comm a b (sorted l) ∙ ap₂ (λ x y. place_str x (place_str y (sorted l))) e' e
sorted_same (Permᴰ.trans p q) = sorted_same p ∙ sorted_same q

-- A device list and any rearrangement of it have one hash.
pub phash-perm :
    (p : Primitives) (devices others : List Jid)
    → Perm devices others
    → phash p devices ≡ phash p others
phash-perm p devices others h =
    let texts = List.map ad_string devices in
    let same : sorted texts ≡ sorted (List.map ad_string others) =
      ∥∥₁_elim (Perm.map ad_string h)
        (List.is_set (List.is_set ℕ_set) (sorted texts) (sorted (List.map ad_string others)))
        sorted_same in
    unfold phash in rw (same, phash) refl
