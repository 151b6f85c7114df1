-- ===== src/Messages/Text.antt =====
-- `_extract_text` of wa/cli.py. Every exception inside is caught, so that it gives a text on any
-- input.
use whatsapp_cli.Common.{ℕ, zero, suc, Option, none, some, List, [], ◌∷◌, ◌++◌}
use whatsapp_cli.Common.Outcome.{ok, raise}
use whatsapp_cli.Common.Utf8.{Bytes, Str, codes, utf8_decode}
use whatsapp_cli.Protobuf.Reader.{Fields, decode_fields}
use whatsapp_cli.Messages.Quoted.{first_bytes, wrappers}

-- The text of some bytes, unless it is empty or they are not UTF-8
abbrev pub nonempty : Option Str → Option Str
nonempty (some (c ∷ s)) = some (c ∷ s)
nonempty _ = none

unfoldable pub text_in : Option Bytes → Option Str
text_in none = none
text_in (some b) = nonempty (utf8_decode b)

-- The text in one field of a nested message
unfoldable pub inner_text : ℕ → Bytes → Option Str
unfolding text_in
inner_text field b = elim (decode_fields b) [
  | raise e ↦ none
  | ok inner ↦ text_in (first_bytes inner field)
]

-- The bytes of a field, if it is there, and what is in them
abbrev pub at_field : {A : Type 0} → ℕ → Fields → (Bytes → Option A) → Option A
at_field field top f = elim (first_bytes top field) [ none ↦ none | some b ↦ f b ]

abbrev pub or_else : {A : Type 0} → Option A → Option A → Option A
or_else (some a) o = some a
or_else none o = o

abbrev pub bracketed : Str → Str
bracketed label = codes "[" ++ label ++ codes "]"

-- `f"[{label}] {s}"` with a caption, `f"[{label}]"` without
abbrev pub captioned : Str → Option Str → Option Str
captioned label none = some (bracketed label)
captioned label (some s) = some (bracketed label ++ codes " " ++ s)

unfoldable pub caption_of : Fields → ℕ → Str → ℕ → Option Str
unfolding inner_text
caption_of top field label caption_field =
    at_field field top (λ b. captioned label (inner_text caption_field b))

unfoldable pub flag_of : Fields → ℕ → Str → Option Str
flag_of top field label = at_field field top (λ b. some (bracketed label))

abbrev pub with_reaction : Option Str → Option Str
with_reaction none = none
with_reaction (some s) = some (codes "[reaction] " ++ s)

-- What the fields of the message itself give, the first one that gives something
unfoldable pub content_text : Fields → Option Str
unfolding inner_text caption_of flag_of
content_text top = or_else (at_field 1 top utf8_decode) (
    or_else (at_field 6 top (inner_text 1)) (
      or_else (caption_of top 3 (codes "image") 3) (
        or_else (caption_of top 9 (codes "video") 7) (
          or_else (flag_of top 8 (codes "audio")) (
            or_else (flag_of top 7 (codes "document")) (
              or_else (flag_of top 26 (codes "sticker"))
                (at_field 46 top (λ b. with_reaction (inner_text 1 b)))))))))

-- The loop over the wrappers: the first nested message that has a text
unfoldable pub wrapped_text : (Bytes → Str) → List (ℕ × ℕ) → Fields → Str
wrapped_text deeper [] top = []
wrapped_text deeper ((outer, inner) ∷ rest) top =
    let others = wrapped_text deeper rest top in
    elim (first_bytes top outer) [
      | none ↦ others
      | some b ↦ elim (decode_fields b) [
        | raise e ↦ others
        | ok wrap ↦ elim (first_bytes wrap inner) [
          | none ↦ others
          | some nested ↦ elim (deeper nested) [ [] ↦ others | c ∷ s ↦ c ∷ s ]
        ]
      ]
    ]

-- `levels` is 5 - `_depth`: the code gives up where `_depth > 4`.
unfoldable pub extract_text : ℕ → Bytes → Str
unfolding content_text wrapped_text
extract_text zero plaintext = []
extract_text (suc levels) plaintext = elim (decode_fields plaintext) [
  | raise e ↦ []
  | ok top ↦ elim (content_text top) [
    | some s ↦ s
    | none ↦ wrapped_text (extract_text levels) wrappers top
  ]
]
