-- ===== src/Messages/Errors.antt =====
-- What the readers of wa/messages.py can raise.
use whatsapp_cli.Common.{
  ℕ, zero, suc, ◌≡◌, refl, sym, ap, ◌∙◌, ◌⊎◌, inl, inr, true, false, Option, none, some, List, [],
  ◌∷◌, arith,
}
use whatsapp_cli.Common.Tests.{Bool-cases, Option-cases}
use whatsapp_cli.Common.Outcome.{
  Exc, Outcome, ok, raise, ◌>>=◌, Outcome-cases, index_error, unicode_error,
}
use whatsapp_cli.Common.Utf8.{Bytes, Str, utf8_decode}
use whatsapp_cli.Protobuf.Reader.{Fields, decode_fields}
use whatsapp_cli.Protobuf.Total.{IsParseError, decode_fields_error}
use whatsapp_cli.Messages.Quoted.{
  first_bytes, decode_text, text_or_empty, is_value_error, catch_value_error, quoted_stanza,
  quoted_of_content, quoted_in_content, nested_message, content_with_context, wrappers,
  extract_quoted_id,
}

-- An IndexError, or what `except ValueError` catches.
abbrev IsCaughtElse : Exc → Type 0
IsCaughtElse e = (e ≡ index_error) ⊎ (is_value_error e ≡ true)

caught_parse : (e : Exc) → IsParseError e → IsCaughtElse e
unfolding is_value_error
caught_parse e (inl h) = inl h
caught_parse e (inr h) = inr (rw h refl)

text_error : (o : Option Bytes) (e : Exc) → text_or_empty o ≡ raise e → IsCaughtElse e
unfolding text_or_empty decode_text is_value_error
text_error none e h = absurd cc
text_error (some []) e h = absurd cc
text_error (some (b ∷ bs)) e h = go (utf8_decode (b ∷ bs)) refl
  where
    go : (o : Option Str) → utf8_decode (b ∷ bs) ≡ o → IsCaughtElse e
    go none at = let same : unicode_error ≡ e = ground (arith, h, at) in inr (rw (← same) refl)
    go (some s) at = absurd (ground (arith, h, at))

stanza_error : (o : Option Bytes) (e : Exc) → quoted_stanza o ≡ raise e → IsCaughtElse e
unfolding quoted_stanza
stanza_error none e h = absurd cc
stanza_error (some ctx) e h = elim (Outcome-cases (decode_fields ctx)) [
  | inl (x, at) ↦
      let same : x ≡ e = ground (arith, h, at) in
      caught_parse e (decode_fields_error ctx e (at ∙ ap (λ (y : Exc). raise y) same))
  | inr (fields, at) ↦ text_error (first_bytes fields 1) e (ground (arith, h, at))
]

not_caught :
    {A : Type 0} (a : A) (x e : Exc)
    → x ≡ index_error
    → catch_value_error (raise x) (ok a) ≡ raise e
    → e ≡ index_error
unfolding catch_value_error is_value_error
not_caught a index_error e same h = cc h
not_caught a _ e same h = cc same

-- After the handler only an IndexError is left.
catch_error :
    {A : Type 0} (m : Outcome A) (a : A) (e : Exc)
    → ((x : Exc) → m ≡ raise x → IsCaughtElse x)
    → catch_value_error m (ok a) ≡ raise e
    → e ≡ index_error
unfolding catch_value_error
catch_error (ok b) a e known h = absurd cc
catch_error (raise x) a e known h = go (known x refl)
  where
    go : IsCaughtElse x → e ≡ index_error
    go (inl same) = not_caught a x e same h
    go (inr caught) = absurd (ground (arith, h, caught))

content_error : (content : Bytes) (e : Exc) → quoted_of_content content ≡ raise e → e ≡ index_error
unfolding quoted_of_content
content_error content e h =
    catch_error (decode_fields content >>= λ fields. quoted_stanza (first_bytes fields 17)) [] e
      inner h
  where
    inner :
        (x : Exc)
        → (decode_fields content >>= λ fields. quoted_stanza (first_bytes fields 17)) ≡ raise x
        → IsCaughtElse x
    inner x hx = elim (Outcome-cases (decode_fields content)) [
      | inl (y, at) ↦
          let same : y ≡ x = ground (arith, hx, at) in
          caught_parse x (decode_fields_error content x (at ∙ ap (λ (z : Exc). raise z) same))
      | inr (fields, at) ↦ stanza_error (first_bytes fields 17) x (ground (arith, hx, at))
    ]

escaped : (e : Exc) → IsParseError e → is_value_error e ≡ false → e ≡ index_error
unfolding is_value_error
escaped e (inl same) h = same
escaped e (inr same) h = absurd (ground (arith, same, h))

first_content_error :
    (fields : List ℕ) (top : Fields) (m : Outcome Str) (e : Exc)
    → quoted_in_content fields top ≡ some m
    → m ≡ raise e
    → e ≡ index_error
first_content_error [] top m e h hm = absurd (unfold quoted_in_content in cc h)
first_content_error (f ∷ fields) top m e h hm = elim (Option-cases (first_bytes top f)) [
  | inl at ↦
      first_content_error fields top m e (unfold quoted_in_content in ground (arith, h, at)) hm
  | inr (content, at) ↦
      let same : quoted_of_content content ≡ m =
        unfold quoted_in_content in ground (arith, h, at) in
      content_error content e (same ∙ hm)
]

nested_error :
    (pairs : List (ℕ × ℕ)) (top : Fields) (e : Exc)
    → nested_message pairs top ≡ raise e
    → e ≡ index_error
nested_error [] top e h = absurd (unfold nested_message in cc h)
nested_error ((outer, inner) ∷ rest) top e h = elim (Option-cases (first_bytes top outer)) [
  | inl at ↦ nested_error rest top e (unfold nested_message in ground (arith, h, at))
  | inr (wrapped, at) ↦ elim (Outcome-cases (decode_fields wrapped)) [
    | inr (fields, parsed) ↦ elim (Option-cases (first_bytes fields inner)) [
      | inl none_inside ↦
          nested_error rest top e
            (unfold nested_message in ground (arith, h, at, parsed, none_inside))
      | inr (nested, inside) ↦
          absurd (unfold nested_message in ground (arith, h, at, parsed, inside))
    ]
    | inl (x, failed) ↦ elim (Bool-cases (is_value_error x)) [
      | inl caught ↦
          nested_error rest top e (unfold nested_message in ground (arith, h, at, failed, caught))
      | inr escapes ↦
          let same : x ≡ e = unfold nested_message in ground (arith, h, at, failed, escapes) in
          escaped e (decode_fields_error wrapped e (failed ∙ ap (λ (y : Exc). raise y) same))
            (ap is_value_error (sym same) ∙ escapes)
    ]
  ]
]

-- Whatever the search for the quoted id raises is an IndexError: `decode_fields` raises it on a
-- content or wrapper that ends inside a varint, and the handlers catch only ValueError.
pub extract_quoted_id_error :
    (levels : ℕ) (plaintext : Bytes) (e : Exc)
    → extract_quoted_id levels plaintext ≡ raise e
    → e ≡ index_error
extract_quoted_id_error zero plaintext e h = absurd (unfold extract_quoted_id in cc h)
extract_quoted_id_error (suc levels) plaintext e h =
    elim (Outcome-cases (decode_fields plaintext)) [
      | inl (x, failed) ↦ absurd (unfold extract_quoted_id in ground (arith, h, failed))
      | inr (top, parsed) ↦ elim (Option-cases (quoted_in_content content_with_context top)) [
        | inr (m, found) ↦
            first_content_error content_with_context top m e found
              (unfold extract_quoted_id in ground (arith, h, parsed, found))
        | inl nothing ↦ elim (Outcome-cases (nested_message wrappers top)) [
          | inl (x, failed) ↦
              let same : x ≡ e =
                unfold extract_quoted_id in ground (arith, h, parsed, nothing, failed) in
              nested_error wrappers top e (failed ∙ ap (λ (y : Exc). raise y) same)
          | inr (none, empty) ↦
              absurd (unfold extract_quoted_id in ground (arith, h, parsed, nothing, empty))
          | inr (some nested, inside) ↦
              extract_quoted_id_error levels nested e
                (unfold extract_quoted_id in ground (arith, h, parsed, nothing, inside))
        ]
      ]
    ]
