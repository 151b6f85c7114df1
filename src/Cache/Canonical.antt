-- ===== src/Cache/Canonical.antt =====
-- The canonical JID of wa/cache.py.
use whatsapp_cli.Common.{
  ℕ, ◌-◌, ◌≡◌, refl, sym, ap, ◌∙◌, Bool, true, false, Option, none, some, [], ◌∷◌, ◌++◌, arith, ◌⊎◌,
  inl, inr,
}
use whatsapp_cli.Common.Tests.{ltb, if◌then◌else◌, Bool-cases}
use whatsapp_cli.Common.Lists.{is_empty, length, drop, take, take-append-drop}
use whatsapp_cli.Common.Utf8.{Str, codes, same_bytes, same_bytes_iff}
use whatsapp_cli.Common.Dict.{Dict, lookup}
use whatsapp_cli.Cache.Chats.{ends_with, local_part, pn_suffix, lid_suffix, lid_or, canonical_jid}

final : ℕ → Str → ℕ
final c [] = c
final c (x ∷ xs) = final x xs

final-append : (c : ℕ) (xs : Str) (y : ℕ) (ys : Str) → final c (xs ++ y ∷ ys) ≡ final y ys
unfolding final
final-append c [] y ys = refl
final-append c (x ∷ xs) y ys = final-append x xs y ys

suffix_of : (suffix s : Str) → ends_with suffix s ≡ true → (before : Str) × (s ≡ before ++ suffix)
unfolding ends_with
suffix_of suffix s h =
    let n = length s - length suffix in
    let same : same_bytes (drop n s) suffix ≡ true = ground (arith, h) in
    (
      take n s,
      sym (take-append-drop n s)
          ∙ ap (λ t. take n s ++ t) ((same_bytes_iff (drop n s) suffix).0 same),
    )

-- What ends with `@lid` does not end with the server of phone numbers.
not_pn : (s : Str) → ends_with pn_suffix (s ++ lid_suffix) ≡ false
unfolding final
not_pn s = elim (Bool-cases (ends_with pn_suffix (s ++ lid_suffix))) [
  | inl h ↦
      let (before, e) = suffix_of pn_suffix (s ++ lid_suffix) h in
      let d : final 0 (s ++ lid_suffix) ≡ 100 = final-append 0 s 64 (codes "lid") in
      let t : final 0 (before ++ pn_suffix) ≡ 116 =
        final-append 0 before 64 (codes "s.whatsapp.net") in
      absurd (omega (arith, sym d ∙ ap (final 0) e ∙ t))
  | inr h ↦ h
]

module _ (is_digit : ℕ → Bool) (inverted : Dict Str) where
  other_server : (s : Str) → ends_with pn_suffix s ≡ false → canonical_jid is_digit inverted s ≡ s
  unfolding canonical_jid
  other_server s h = rw (h) refl

  -- A JID that ends with `@lid` is canonical.
  lid_canonical : (s : Str) → canonical_jid is_digit inverted (s ++ lid_suffix) ≡ s ++ lid_suffix
  lid_canonical s = other_server (s ++ lid_suffix) (not_pn s)

  -- Either the JID is as it was, or it is a LID.
  canonical_cases :
      (s : Str)
      → (canonical_jid is_digit inverted s ≡ s)
        ⊎ ((local : Str) × (canonical_jid is_digit inverted s ≡ local ++ lid_suffix))
  unfolding canonical_jid
  canonical_cases s = by_tests (ends_with pn_suffix s) _ (lookup s inverted)
    where
      by_lid :
          (o : Option Str) → (lid_or o s ≡ s) ⊎ ((local : Str) × (lid_or o s ≡ local ++ lid_suffix))
      by_lid none = inl refl
      by_lid (some []) = inl refl
      by_lid (some (c ∷ cs)) = inr (c ∷ cs, refl)

      by_tests :
          (a b : Bool) (o : Option Str)
          → ((if a then (if b then local_part s ++ lid_suffix else lid_or o s) else s) ≡ s)
            ⊎ ((local : Str) × ((if a
                    then (if b then local_part s ++ lid_suffix else lid_or o s)
                    else s)
                  ≡ local ++ lid_suffix))
      by_tests false b o = inl refl
      by_tests true true o = inr (local_part s, refl)
      by_tests true false o = by_lid o

  -- The form of a JID in the cache is fixed: to take it again changes nothing.
  canonical_jid_idempotent :
      (s : Str)
      → canonical_jid is_digit inverted (canonical_jid is_digit inverted s)
        ≡ canonical_jid is_digit inverted s
  canonical_jid_idempotent s = elim (canonical_cases s) [
    | inl e ↦ ap (canonical_jid is_digit inverted) e
    | inr (local, e) ↦ ap (canonical_jid is_digit inverted) e ∙ lid_canonical local ∙ sym e
  ]

  twin :
      (s lid : Str)
      → ends_with pn_suffix s ≡ true
      → ltb 13 (length (local_part s)) ≡ false
      → lookup s inverted ≡ some lid
      → is_empty lid ≡ false
      → canonical_jid is_digit inverted s ≡ lid ++ lid_suffix
  unfolding canonical_jid
  twin s [] h short e full = absurd (cc full)
  twin s (c ∷ cs) h short e full = rw (h) (ground (arith, short, e))

  -- Where the map from phone numbers knows the LID of one whose local part has 13 characters or fewer,
  -- the number and that LID have one form, so that their chats are one.
  pub canonical_jid_twins :
      (s lid : Str)
      → ends_with pn_suffix s ≡ true
      → ltb 13 (length (local_part s)) ≡ false
      → lookup s inverted ≡ some lid
      → is_empty lid ≡ false
      → canonical_jid is_digit inverted s ≡ canonical_jid is_digit inverted (lid ++ lid_suffix)
  canonical_jid_twins s lid h short e full = twin s lid h short e full ∙ sym (lid_canonical lid)
