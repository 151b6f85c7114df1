-- ===== src/Common/Dict.antt =====
-- Python's dict with `str` keys, as the list of its entries in insertion order.
use mathlib.Core.Path.{◌≡◌, refl, sym, ap, ◌∙◌}
use mathlib.Core.Logic.{inl, inr}
use mathlib.Core.Bool.{true, false}
use mathlib.Core.Option.{Option, none, some}
use mathlib.Core.List.{List, [], ◌∷◌}
use whatsapp_cli.Common.Tests.{if◌then◌else◌, Bool-cases}
use whatsapp_cli.Common.Utf8.{Str, same_bytes, same_bytes_iff}

abbrev pub Dict {ℓ} : Type ℓ → Type ℓ
Dict A = List (Str × A)

-- `d.get(key)`
unfoldable pub lookup {ℓ} : {A : Type ℓ} → Str → Dict A → Option A
lookup key [] = none
lookup key ((k, a) ∷ d) = if same_bytes k key then some a else lookup key d

-- `d[key] = a`
unfoldable pub insert {ℓ} : {A : Type ℓ} → Str → A → Dict A → Dict A
insert key a [] = (key, a) ∷ []
insert key a ((k, b) ∷ d) = if same_bytes k key then (k, a) ∷ d else (k, b) ∷ insert key a d

-- `d.pop(key, None)`: a dict has a key once, so that to filter it out is to remove its entry.
unfoldable pub remove {ℓ} : {A : Type ℓ} → Str → Dict A → Dict A
remove key [] = []
remove key ((k, a) ∷ d) =
    let rest = remove key d in if same_bytes k key then rest else (k, a) ∷ rest

-- `d.values()`
unfoldable pub values {ℓ} : {A : Type ℓ} → Dict A → List A
values [] = []
values ((k, a) ∷ d) = a ∷ values d

-- Two keys that are one agree on every test.
same_key : (k key k' : Str) → same_bytes k key ≡ true → same_bytes k k' ≡ same_bytes key k'
same_key k key k' e = ap (λ x. same_bytes x k') ((same_bytes_iff k key).0 e)

other_key :
    (k' key k : Str) → same_bytes k' key ≡ false → same_bytes k' k ≡ true → same_bytes key k ≡ false
other_key k' key k e f = elim (Bool-cases (same_bytes key k)) [
  | inl g ↦ absurd (
      cc (
        e,
        (same_bytes_iff k' key).1 ((same_bytes_iff k' k).0 f ∙ sym ((same_bytes_iff key k).0 g)),
      ))
  | inr g ↦ g
]

pub lookup-insert {ℓ} :
    {A : Type ℓ} (key : Str) (a : A) (d : Dict A) (k : Str)
    → lookup k (insert key a d) ≡ (if same_bytes key k then some a else lookup k d)
unfolding insert lookup
lookup-insert key a [] k = refl
lookup-insert key a ((k', b) ∷ d) k = elim (Bool-cases (same_bytes k' key)) [
  | inl e ↦ elim (Bool-cases (same_bytes key k)) [
    | inl f ↦ rw (e, lookup, same_key k' key k e, f) refl
    | inr f ↦ rw (e, lookup, same_key k' key k e, f) refl
  ]
  | inr e ↦ elim (Bool-cases (same_bytes k' k)) [
    | inl f ↦ rw (e, lookup, f, other_key k' key k e f) refl
    | inr f ↦ rw (e, lookup, f) (lookup-insert key a d k)
  ]
]

pub lookup-remove {ℓ} :
    {A : Type ℓ} (key : Str) (d : Dict A) (k : Str)
    → lookup k (remove key d) ≡ (if same_bytes key k then none else lookup k d)
unfolding remove lookup
lookup-remove key [] k = elim (Bool-cases (same_bytes key k)) [
  | inl f ↦ rw (f) refl
  | inr f ↦ rw (f) refl
]
lookup-remove key ((k', b) ∷ d) k = elim (Bool-cases (same_bytes k' key)) [
  | inl e ↦ elim (Bool-cases (same_bytes key k)) [
    | inl f ↦ rw (e, f) (lookup-remove key d k ∙ rw (f) refl)
    | inr f ↦ rw (e, same_key k' key k e, f) (lookup-remove key d k ∙ rw (f) refl)
  ]
  | inr e ↦ elim (Bool-cases (same_bytes k' k)) [
    | inl f ↦ rw (e, lookup, f, other_key k' key k e f) refl
    | inr f ↦ rw (e, lookup, f) (lookup-remove key d k)
  ]
]
