-- ===== src/Common/DictKeys.antt =====
-- The keys of a dict: each is there once.
use mathlib.Core.Path.{◌≡◌, refl, sym, ◌∙◌}
use mathlib.Core.Logic.{inl, inr}
use mathlib.Core.Bool.{false}
use mathlib.Core.Option.{none, some}
use mathlib.Core.List.{List, [], ◌∷◌}
use whatsapp_cli.Common.Tests.{Bool-cases}
use whatsapp_cli.Common.Lists.{All}
use whatsapp_cli.Common.Utf8.{Str, same_bytes, same_bytes_iff}
use whatsapp_cli.Common.Dict.{Dict, lookup, insert, lookup-insert}

-- A dict has a key once.
abbrev pub Unique {ℓ} : {A : Type ℓ} → Dict A → Type ℓ
Unique [] = Unit
Unique ((k, a) ∷ d) = (lookup k d ≡ none) × Unique d

different_keys : (k key : Str) → same_bytes k key ≡ false → same_bytes key k ≡ false
different_keys k key e = elim (Bool-cases (same_bytes key k)) [
  | inl f ↦ absurd (cc (e, (same_bytes_iff k key).1 (sym ((same_bytes_iff key k).0 f))))
  | inr f ↦ f
]

pub insert-Unique {ℓ} :
    {A : Type ℓ} (key : Str) (a : A) (d : Dict A) → Unique d → Unique (insert key a d)
unfolding insert lookup
insert-Unique key a [] h = (refl, tt)
insert-Unique key a ((k, b) ∷ d) (fresh, h) = elim (Bool-cases (same_bytes k key)) [
  | inl e ↦ rw (e) (fresh, h)
  | inr e ↦
      rw (e) (lookup-insert key a d k ∙ rw (different_keys k key e) fresh, insert-Unique key a d h)
]

pub All-map {ℓ κ ν} :
    {A : Type ℓ} {P : A → Type κ} {Q : A → Type ν}
    → ((x : A) → P x → Q x)
    → (xs : List A) → All P xs
    → All Q xs
All-map f [] h = tt
All-map f (x ∷ xs) (p, h) = (f x p, All-map f xs h)

pub insert-All {ℓ κ} :
    {A : Type ℓ} (P : Str → Type κ) (key : Str) (a : A) (d : Dict A)
    → P key
    → All (λ e. P e.0) d
    → All (λ e. P e.0) (insert key a d)
unfolding insert
insert-All P key a [] p h = (p, tt)
insert-All P key a ((k, b) ∷ d) p (q, h) = elim (Bool-cases (same_bytes k key)) [
  | inl e ↦ rw (e) (q, h)
  | inr e ↦ rw (e) (q, insert-All P key a d p h)
]

behind {ℓ} :
    {A : Type ℓ} (k : Str) (a : A) (d : Dict A) (k' : Str) (b : A)
    → lookup k d ≡ none
    → lookup k' d ≡ some b
    → lookup k' ((k, a) ∷ d) ≡ some b
unfolding lookup
behind k a d k' b fresh found = elim (Bool-cases (same_bytes k k')) [
  | inl e ↦ absurd (cc (fresh, found, (same_bytes_iff k k').0 e))
  | inr e ↦ rw (e) found
]

-- Each entry is the one that is found.
pub entries_found {ℓ} : {A : Type ℓ} (d : Dict A) → Unique d → All (λ e. lookup e.0 d ≡ some e.1) d
unfolding lookup
entries_found [] h = tt
entries_found ((k, a) ∷ d) (fresh, h) = (
  rw ((same_bytes_iff k k).1 refl) refl,
  All-map (λ e found. behind k a d e.0 e.1 fresh found) d (entries_found d h),
)
