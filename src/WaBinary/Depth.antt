-- ===== src/WaBinary/Depth.antt =====
-- The calls of `_read_value` never nest deeper than `decode_payload` allows for.
use whatsapp_cli.Common.{
  ℕ, zero, suc, ◌+◌, ◌-◌, ◌/◌, ◌%◌, ◌≤◌, ◌<◌, ◌≡◌, ◌≢◌, refl, Bool, true, false, [], ◌∷◌, arith,
  inl, inr,
}
use whatsapp_cli.Common.Tests.{◌==◌, if◌then◌else◌, Option-cases}
use whatsapp_cli.Common.Lists.{length, get_elem?}
use whatsapp_cli.Common.Outcome.{Outcome, ok, raise, ◌>>=◌, recursion_error}
use whatsapp_cli.Common.Utf8.{Bytes}
use whatsapp_cli.WaBinary.Node.{
  node, Value, null, text, number, flag, jid, blob, children, Attrs, no_attrs, set_attr,
}
use whatsapp_cli.WaBinary.Decoder.{
  as_str, read_string, next_string, next_value, read_user, read_jid_pair, read_ad_jid, read_fb_jid,
  read_interop_jid, read_u16_be, read_attrs, read_sized,
}
use whatsapp_cli.WaBinary.Packed.{read_u8}
use whatsapp_cli.WaBinary.Tokens.{list_empty}

-- An outcome that is no RecursionError, and whose position has not gone back.
abbrev pub Fine : {A : Type 0} → ℕ → Outcome (A × ℕ) → Type 0
Fine pos (ok (a, pos')) = pos ≤ pos'
Fine pos (raise e) = e ≢ recursion_error

module _ {A B : Type 0} where
  pub Fine->>= :
      (pos : ℕ) (m : Outcome (A × ℕ)) (f : A × ℕ → Outcome (B × ℕ))
      → Fine pos m
      → ((a : A) (pos' : ℕ) → m ≡ ok (a, pos') → pos ≤ pos' → Fine pos' (f (a, pos')))
      → Fine pos (m >>= f)
  Fine->>= pos (ok (a, pos')) f fine next = later (f (a, pos')) (next a pos' refl fine)
    where
      later : (m : Outcome (B × ℕ)) → Fine pos' m → Fine pos m
      later (ok (b, pos'')) h = omega arith
      later (raise e) h = h
  Fine->>= pos (raise e) f fine next = fine

pub if-Fine :
    {A : Type 0} (pos : ℕ) (b : Bool) (m n : Outcome (A × ℕ))
    → Fine pos m
    → Fine pos n
    → Fine pos (if b then m else n)
if-Fine pos true m n h h' = h
if-Fine pos false m n h h' = h'

pub read_u8_inside :
    (bytes : Bytes) (pos b pos' : ℕ)
    → read_u8 bytes pos ≡ ok (b, pos')
    → (pos' ≡ pos + 1) × (pos' ≤ length bytes)
read_u8_inside [] pos b pos' h = absurd (unfold read_u8 in cc h)
read_u8_inside (x ∷ bytes) zero b pos' h =
    let e : 0 + 1 ≡ pos' = unfold read_u8 in cc h in (omega (arith, e), omega (arith, e))
read_u8_inside (x ∷ bytes) (suc pos) b pos' h = elim (Option-cases (get_elem? bytes pos)) [
  | inl none_there ↦ absurd (unfold read_u8 in ground (arith, h, none_there))
  | inr (c, there) ↦
      let here : read_u8 bytes pos ≡ ok (c, pos + 1) = unfold read_u8 in ground (arith, there) in
      let (_, inside) = read_u8_inside bytes pos c (pos + 1) here in
      let e : suc pos + 1 ≡ pos' = unfold read_u8 in ground (arith, h, there) in
      (omega (arith, e), omega (arith, e, inside))
]

pub read_u8-Fine : (bytes : Bytes) (pos : ℕ) → Fine pos (read_u8 bytes pos)
read_u8-Fine bytes pos = elim (Option-cases (get_elem? bytes pos)) [
  | inl none_there ↦ unfold read_u8 in rw (none_there, read_u8) (λ e. cc e)
  | inr (b, there) ↦ unfold read_u8 in rw (there, read_u8) (omega arith)
]

-- What reads values without running out of depth where the tag stands inside the buffer.
abbrev pub Safe : Bytes → ℕ → (Bool → ℕ → ℕ → Outcome (Value × ℕ)) → Type 0
Safe bytes depth read =
    (as_string : Bool) (tag pos : ℕ)
    → pos ≤ length bytes
    → length bytes < pos + depth
    → Fine pos (read as_string tag pos)

as_str-Fine : (v : Value) (pos : ℕ) → Fine pos (as_str (v, pos))
as_str-Fine (text s) pos = omega arith
as_str-Fine null pos = λ e. cc e
as_str-Fine (number n) pos = λ e. cc e
as_str-Fine (flag b) pos = λ e. cc e
as_str-Fine (jid j) pos = λ e. cc e
as_str-Fine (blob b) pos = λ e. cc e
as_str-Fine (children ns) pos = λ e. cc e

module _ (bytes : Bytes) (depth : ℕ) (read : Bool → ℕ → ℕ → Outcome (Value × ℕ))
    (safe : Safe bytes depth read) where
  pub read_string-Fine :
      (tag pos : ℕ)
      → pos ≤ length bytes
      → length bytes < pos + depth
      → Fine pos (read_string read bytes tag pos)
  unfolding read_string
  read_string-Fine tag pos inside deep =
      Fine->>= pos (read true tag pos) _ (safe true tag pos inside deep)
        λ v pos' e le. as_str-Fine v pos'

  pub next_string-Fine :
      (pos : ℕ) → length bytes ≤ pos + depth → Fine pos (next_string read bytes pos)
  unfolding next_string
  next_string-Fine pos deep =
      Fine->>= pos (read_u8 bytes pos) _ (read_u8-Fine bytes pos) λ tag pos' e le.
        let (next, inside) = read_u8_inside bytes pos tag pos' e in
        read_string-Fine tag pos' inside (omega (arith, next))

  pub next_value-Fine :
      (as_string : Bool) (pos : ℕ)
      → length bytes ≤ pos + depth
      → Fine pos (next_value read bytes as_string pos)
  unfolding next_value
  next_value-Fine as_string pos deep =
      Fine->>= pos (read_u8 bytes pos) _ (read_u8-Fine bytes pos) λ tag pos' e le.
        let (next, inside) = read_u8_inside bytes pos tag pos' e in
        safe as_string tag pos' inside (omega (arith, next))

  pub read_user-Fine : (pos : ℕ) → length bytes ≤ pos + depth → Fine pos (read_user read bytes pos)
  unfolding read_user
  read_user-Fine pos deep =
      Fine->>= pos (read_u8 bytes pos) _ (read_u8-Fine bytes pos) λ tag pos' e le.
        let (next, inside) = read_u8_inside bytes pos tag pos' e in
        if-Fine pos' (tag == list_empty) (ok ([], pos')) (read_string read bytes tag pos')
          (omega arith) (read_string-Fine tag pos' inside (omega (arith, next)))

  pub read_jid_pair-Fine :
      (pos : ℕ) → length bytes ≤ pos + depth → Fine pos (read_jid_pair read bytes pos)
  unfolding read_jid_pair
  read_jid_pair-Fine pos deep =
      Fine->>= pos (read_user read bytes pos) _ (read_user-Fine pos deep) λ user pos1 e le.
        Fine->>= pos1 (next_string read bytes pos1) _ (next_string-Fine pos1 (omega arith))
          λ server pos2 e' le'. omega arith

  pub read_ad_jid-Fine :
      (pos : ℕ) → length bytes ≤ pos + depth → Fine pos (read_ad_jid read bytes pos)
  unfolding read_ad_jid
  read_ad_jid-Fine pos deep =
      Fine->>= pos (read_u8 bytes pos) _ (read_u8-Fine bytes pos) λ agent pos1 e le.
        Fine->>= pos1 (read_u8 bytes pos1) _ (read_u8-Fine bytes pos1) λ device pos2 e' le'.
          Fine->>= pos2 (next_string read bytes pos2) _ (next_string-Fine pos2 (omega arith))
            λ user pos3 e'' le''. omega arith

  pub back :
      {A : Type 0} (pos pos' : ℕ) (m : Outcome (A × ℕ)) → pos ≤ pos' → Fine pos' m → Fine pos m
  back pos pos' (ok (a, pos'')) le h = omega arith
  back pos pos' (raise e) le h = h

  pub read_fb_jid-Fine :
      (pos : ℕ) → length bytes ≤ pos + depth → Fine pos (read_fb_jid read bytes pos)
  unfolding read_fb_jid read_u16_be
  read_fb_jid-Fine pos deep =
      Fine->>= pos (next_string read bytes pos) _ (next_string-Fine pos deep) λ user pos1 e le.
        back pos1 (pos1 + 2) _ (omega arith) (
          Fine->>= (pos1 + 2) (next_string read bytes (pos1 + 2)) _
            (next_string-Fine (pos1 + 2) (omega arith)) λ server pos3 e' le'. omega arith)

  pub read_interop_jid-Fine :
      (pos : ℕ) → length bytes ≤ pos + depth → Fine pos (read_interop_jid read bytes pos)
  unfolding read_interop_jid read_u16_be
  read_interop_jid-Fine pos deep =
      Fine->>= pos (next_string read bytes pos) _ (next_string-Fine pos deep) λ user pos1 e le.
        back pos1 (pos1 + 2 + 2) _ (omega arith) (
          Fine->>= (pos1 + 2 + 2) (next_string read bytes (pos1 + 2 + 2)) _
            (next_string-Fine (pos1 + 2 + 2) (omega arith)) λ server pos3 e' le'. omega arith)

  pub read_attrs-Fine :
      (n : ℕ) (out : Attrs) (pos : ℕ)
      → length bytes ≤ pos + depth
      → Fine pos (read_attrs read bytes n out pos)
  unfolding read_attrs
  read_attrs-Fine zero out pos deep = omega arith
  read_attrs-Fine (suc n) out pos deep =
      Fine->>= pos (next_string read bytes pos) _ (next_string-Fine pos deep) λ key pos1 e le.
        Fine->>= pos1 (next_value read bytes true pos1) _ (next_value-Fine true pos1 (omega arith))
          λ value pos2 e' le'. read_attrs-Fine n (set_attr key value out) pos2 (omega arith)

  pub read_sized-Fine :
      (size pos : ℕ) → length bytes ≤ pos + depth → Fine pos (read_sized read bytes size pos)
  unfolding read_sized
  read_sized-Fine size pos deep =
      Fine->>= pos (next_string read bytes pos) _ (next_string-Fine pos deep) λ tag pos1 e le.
        Fine->>= pos1 (read_attrs read bytes ((size - 1) / 2) no_attrs pos1) _
          (read_attrs-Fine ((size - 1) / 2) no_attrs pos1 (omega arith))
          λ attrs pos2 e' le'.
            if-Fine pos2 (size % 2 == 0) _ (ok (node tag attrs null, pos2))
              (Fine->>= pos2 (next_value read bytes false pos2) _
                (next_value-Fine false pos2 (omega arith)) λ content pos3 e'' le''. omega arith)
              (omega arith)
