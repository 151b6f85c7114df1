-- ===== src/Common/Lists.antt =====
-- Lists measured and indexed by native numbers, under the library's names. A Python `bytes` is a
-- list of numbers, and a `str` is the list of its code points.
use Prim.Native.Nat.{ℕ, zero, suc, ◌+◌, ◌-◌, ◌≤◌, ◌<◌, min}
use mathlib.Core.Path.{◌≡◌, refl, sym, ap, ◌∙◌}
use mathlib.Core.Bool.{Bool, true, false}
use mathlib.Core.List.{List, [], ◌∷◌, ◌++◌}
use mathlib.Core.Option.{Option, none, some}
use native.Mathlib.Omega.{arith}

module _ {ℓ} {A : Type ℓ} where
  abbrev pub length : List A → ℕ
  length [] = 0
  length (x ∷ xs) = suc (length xs)

  abbrev pub get_elem? : List A → ℕ → Option A
  get_elem? [] i = none
  get_elem? (x ∷ xs) zero = some x
  get_elem? (x ∷ xs) (suc i) = get_elem? xs i

  abbrev pub take : ℕ → List A → List A
  take zero xs = []
  take (suc n) [] = []
  take (suc n) (x ∷ xs) = x ∷ take n xs

  abbrev pub drop : ℕ → List A → List A
  drop zero xs = xs
  drop (suc n) [] = []
  drop (suc n) (x ∷ xs) = drop n xs

  abbrev pub is_empty : List A → Bool
  is_empty [] = true
  is_empty (x ∷ xs) = false

  abbrev pub replicate : ℕ → A → List A
  replicate zero a = []
  replicate (suc n) a = a ∷ replicate n a

  abbrev pub All {κ} : (A → Type κ) → List A → Type κ
  All P [] = Unit {κ}
  All P (x ∷ xs) = P x × All P xs

  -- `xs[i:j]` for 0 ≤ i
  abbrev pub slice : List A → ℕ → ℕ → List A
  slice xs i j = take (j - i) (drop i xs)

module _ {ℓ} {A : Type ℓ} where
  pub length-append : (xs ys : List A) → length (xs ++ ys) ≡ length xs + length ys
  length-append [] ys = omega arith
  length-append (x ∷ xs) ys = omega (arith, length-append xs ys)

  pub length-replicate : (n : ℕ) (a : A) → length (replicate n a) ≡ n
  length-replicate zero a = refl
  length-replicate (suc n) a = ap suc (length-replicate n a)

  pub length-take : (n : ℕ) (xs : List A) → length (take n xs) ≡ min n (length xs)
  length-take zero xs = omega arith
  length-take (suc n) [] = omega arith
  length-take (suc n) (x ∷ xs) = omega (arith, length-take n xs)

  pub length-drop : (n : ℕ) (xs : List A) → length (drop n xs) ≡ length xs - n
  length-drop zero xs = omega arith
  length-drop (suc n) [] = omega arith
  length-drop (suc n) (x ∷ xs) = omega (arith, length-drop n xs)

  pub take-append-drop : (n : ℕ) (xs : List A) → take n xs ++ drop n xs ≡ xs
  take-append-drop zero xs = refl
  take-append-drop (suc n) [] = refl
  take-append-drop (suc n) (x ∷ xs) = ap (λ t. x ∷ t) (take-append-drop n xs)

  pub take-append : (xs ys : List A) → take (length xs) (xs ++ ys) ≡ xs
  take-append [] ys = refl
  take-append (x ∷ xs) ys = ap (λ t. x ∷ t) (take-append xs ys)

  pub drop-append : (xs ys : List A) → drop (length xs) (xs ++ ys) ≡ ys
  drop-append [] ys = refl
  drop-append (x ∷ xs) ys = drop-append xs ys

  pub take-length : (xs : List A) → take (length xs) xs ≡ xs
  take-length [] = refl
  take-length (x ∷ xs) = ap (λ t. x ∷ t) (take-length xs)

  pub drop-zero_of_le : (n : ℕ) (xs : List A) → length xs ≤ n → drop n xs ≡ []
  drop-zero_of_le zero [] h = refl
  drop-zero_of_le zero (x ∷ xs) h = absurd (omega arith)
  drop-zero_of_le (suc n) [] h = refl
  drop-zero_of_le (suc n) (x ∷ xs) h = drop-zero_of_le n xs (omega arith)

  pub drop-nil : (n : ℕ) → ◌≡◌ {A = List A} (drop n []) []
  drop-nil zero = refl
  drop-nil (suc n) = refl

  pub drop-drop : (i j : ℕ) (xs : List A) → drop j (drop i xs) ≡ drop (i + j) xs
  drop-drop zero j xs = let e : j ≡ 0 + j = omega arith in ap (λ k. drop k xs) e
  drop-drop (suc i) zero [] = sym (drop-nil (suc i + 0))
  drop-drop (suc i) (suc j) [] = sym (drop-nil (suc i + suc j))
  drop-drop (suc i) j (x ∷ xs) =
      let e : suc (i + j) ≡ suc i + j = omega arith in
      drop-drop i j xs ∙ ap (λ k. drop k (x ∷ xs)) e

  -- What stands at a position: the list from there on begins with `front`.
  pub drop_past :
      (i : ℕ) (xs front rest : List A)
      → drop i xs ≡ front ++ rest
      → drop (i + length front) xs ≡ rest
  drop_past i xs front rest h =
      sym (drop-drop i (length front) xs) ∙ ap (drop (length front)) h ∙ drop-append front rest

  -- A position before something lies inside, and one before nothing does not.
  pub below_length :
      (i : ℕ) (xs front rest : List A)
      → drop i xs ≡ front ++ rest
      → 1 ≤ length front
      → i < length xs
  below_length i xs front rest h p =
      omega (arith, length-drop i xs, length-append front rest, ap (λ t. length t) h)

  pub past_end : (i : ℕ) (xs : List A) → drop i xs ≡ [] → length xs ≤ i
  past_end i xs h = omega (arith, length-drop i xs, ap (λ t. length t) h)

  pub drop-append_within :
      (n : ℕ) (xs ys : List A) → n ≤ length xs → drop n (xs ++ ys) ≡ drop n xs ++ ys
  drop-append_within zero xs ys h = refl
  drop-append_within (suc n) [] ys h = absurd (omega arith)
  drop-append_within (suc n) (x ∷ xs) ys h = drop-append_within n xs ys (omega arith)

  pub take-append_within : (n : ℕ) (xs ys : List A) → n ≤ length xs → take n (xs ++ ys) ≡ take n xs
  take-append_within zero xs ys h = refl
  take-append_within (suc n) [] ys h = absurd (omega arith)
  take-append_within (suc n) (x ∷ xs) ys h =
      ap (λ t. x ∷ t) (take-append_within n xs ys (omega arith))

  pub slice-append_within :
      (i j : ℕ) (xs ys : List A) → i ≤ j → j ≤ length xs → slice (xs ++ ys) i j ≡ slice xs i j
  slice-append_within i j xs ys p h =
      ap (λ t. take (j - i) t) (drop-append_within i xs ys (omega arith))
      ∙ take-append_within (j - i) (drop i xs) ys (omega (arith, length-drop i xs))

-- One element of a list taken out.
pub All-middle {ℓ κ} :
    {A : Type ℓ} (P : A → Type κ) (xs ys : List A) (x : A)
    → All P (xs ++ x ∷ ys)
    → P x × All P (xs ++ ys)
All-middle P [] ys x h = h
All-middle P (y ∷ xs) ys x (py, rest) =
    let (px, others) = All-middle P xs ys x rest in (px, (py, others))
