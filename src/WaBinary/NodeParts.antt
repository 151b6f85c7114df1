-- ===== src/WaBinary/NodeParts.antt =====
-- The parts of a node that wa/wabinary/encoder.py writes, and their reading.
use whatsapp_cli.Common.{
  ℕ, ◌+◌, ◌-◌, ◌*◌, ◌/◌, ◌%◌, ◌^◌, ◌≤◌, ◌<◌, ◌≡◌, refl, ap, ◌∙◌, Bool, true, false, [], ◌∷◌, ◌++◌,
  arith, inl, inr, append_assoc,
}
use whatsapp_cli.Common.Tests.{◌==◌, ltb, Bool-cases}
use whatsapp_cli.Common.Lists.{length, length-append, drop, drop_past}
use whatsapp_cli.Common.Outcome.{Outcome, ok}
use whatsapp_cli.Common.Utf8.{Bytes, Str, codes, same_bytes}
use whatsapp_cli.WaBinary.Tokens.{list_empty, list_8, list_16}
use whatsapp_cli.WaBinary.Node.{node, Attrs, no_attrs, Value, null, text, blob, children, nil}
use whatsapp_cli.WaBinary.Packing.{read_u8_at}
use whatsapp_cli.WaBinary.Encoder.{
  push_u16_be, write_list_start, write_string, count_attrs, count_nodes, has_content, if_content,
  write_node, write_any, write_nodes,
}
use whatsapp_cli.WaBinary.Decoder.{
  node_list, kind_of, read_list_size, next_string, next_value, read_attrs, read_sized, read_kind,
  read_value,
}
use whatsapp_cli.WaBinary.Binary.{
  next_value_at, read_u16_be-push_u16_be, written_bytes, read_binary_blob,
}
use whatsapp_cli.WaBinary.Strings.{IsWritable, wire_text, written_string, next_string-write_string}
use whatsapp_cli.WaBinary.WireForm.{wire_content}
use whatsapp_cli.WaBinary.Attributes.{
  IsWritableAttrs, collect_attrs, WrittenValue, deep_enough, next_string_within, written_attrs,
}

-- The start of a list that is not empty.
pub record Started (size : ℕ) : Type 0 where
  pub tag : ℕ
  pub after : Bytes
  pub written : write_list_start size ≡ tag ∷ after
  pub filled : 1 ≤ length after
  pub kind : kind_of tag ≡ node_list
  pub reads :
      (bytes : Bytes) (pos : ℕ) (rest : Bytes)
      → drop pos bytes ≡ after ++ rest
      → read_list_size bytes tag pos ≡ ok (size, pos + length after)

Started-short : (size : ℕ) → 1 ≤ size → size < 256 → Started size
Started-short size p h = record {
  tag = list_8;
  after = (size % 256) ∷ [];
  written = unfold write_list_start in ground arith;
  filled = omega arith;
  kind = unfold kind_of in refl;
  reads = λ bytes pos rest here.
      let same : size % 256 ≡ size = omega arith in
      unfold read_list_size in
      read_u8_at bytes pos (size % 256) rest here ∙ ap (λ (n : ℕ). ok (n, pos + 1)) same;
}

Started-long : (size : ℕ) → 256 ≤ size → size < 2 ^ 16 → Started size
Started-long size p h = record {
  tag = list_16;
  after = push_u16_be size;
  written = unfold write_list_start in ground arith;
  filled = omega arith;
  kind = unfold kind_of in refl;
  reads = λ bytes pos rest here.
      let same : size % 2 ^ 16 ≡ size = omega arith in
      unfold read_list_size in
      ap (λ (p : ℕ × ℕ). ok p) (read_u16_be-push_u16_be size bytes pos rest here)
      ∙ ap (λ (n : ℕ). ok (n, pos + 2)) same;
}

pub started : (size : ℕ) → 1 ≤ size → size < 2 ^ 16 → Started size
started size p h = elim (Bool-cases (ltb size 256)) [
  | inl e ↦ Started-short size p (ground arith)
  | inr e ↦ Started-long size (ground arith) h
]

-- What follows the start of a node: how it is written, and what it is read as.
pub record Body (tag : Str) (attrs : Attrs) (content : Value) : Type 0 where
  pub enc : Bytes
  pub written :
      same_bytes tag (codes "0") ≡ false
      → write_node (node tag attrs content)
        ≡ ok (write_list_start (2 * count_attrs attrs + 1 + has_content content) ++ enc)
  pub reads :
      (depth : ℕ) (bytes : Bytes) (pos : ℕ) (rest : Bytes)
      → length enc ≤ depth
      → drop pos bytes ≡ enc ++ rest
      → read_sized
          (read_value bytes depth)
          bytes
          (2 * count_attrs attrs + 1 + has_content content)
          pos
        ≡ ok (node tag (collect_attrs attrs no_attrs) (wire_content content), pos + length enc)

module _ (read : Bool → ℕ → ℕ → Outcome (Value × ℕ)) (bytes : Bytes) where
  sized_without :
      (count pos pos1 pos2 : ℕ) (tag : Str) (attrs : Attrs)
      → next_string read bytes pos ≡ ok (tag, pos1)
      → read_attrs read bytes count no_attrs pos1 ≡ ok (attrs, pos2)
      → read_sized read bytes (2 * count + 1 + 0) pos ≡ ok (node tag attrs null, pos2)
  unfolding read_sized
  sized_without count pos pos1 pos2 tag attrs name pairs =
      let half : (2 * count + 1 + 0 - 1) / 2 ≡ count = omega arith in
      let odd : ((2 * count + 1 + 0) % 2 == 0) ≡ false = ground arith in
      rw name (rw half (rw pairs (rw odd refl)))

  sized_with :
      (count pos pos1 pos2 pos3 : ℕ) (tag : Str) (attrs : Attrs) (content : Value)
      → next_string read bytes pos ≡ ok (tag, pos1)
      → read_attrs read bytes count no_attrs pos1 ≡ ok (attrs, pos2)
      → next_value read bytes false pos2 ≡ ok (content, pos3)
      → read_sized read bytes (2 * count + 1 + 1) pos ≡ ok (node tag attrs content, pos3)
  unfolding read_sized
  sized_with count pos pos1 pos2 pos3 tag attrs content name pairs body =
      let half : (2 * count + 1 + 1 - 1) / 2 ≡ count = omega arith in
      let even : ((2 * count + 1 + 1) % 2 == 0) ≡ true = ground arith in
      rw name (rw half (rw pairs (rw even (rw body refl))))

module _ (tag : Str) (attrs : Attrs) (ht : IsWritable tag) (ha : IsWritableAttrs attrs) where
  pub Body-without : Body tag attrs null
  Body-without =
      let (name, name_ok, filled, reads_name) = next_string-write_string tag ht in
      let w = written_attrs attrs ha in
      record {
        enc = name ++ (w.enc ++ []);
        written = λ e. unfold write_node in rw (e, w.written) (rw name_ok refl);
        reads = λ depth bytes pos rest enough here.
            let size = length-append name (w.enc ++ []) in
            let size' = length-append w.enc [] in
            let h0 : drop pos bytes ≡ name ++ (w.enc ++ rest) =
              here
              ∙ append_assoc name (w.enc ++ []) rest
              ∙ ap (λ t. name ++ t) (append_assoc w.enc [] rest) in
            let pos1 = pos + length name in
            let h1 = drop_past pos bytes name (w.enc ++ rest) h0 in
            let far : pos1 + length w.enc ≡ pos + length (name ++ (w.enc ++ [])) =
              omega (arith, size, size') in
            sized_without (read_value bytes depth) bytes (count_attrs attrs) pos pos1
              (pos1 + length w.enc) tag (collect_attrs attrs no_attrs)
              (next_string_within tag name reads_name depth bytes pos (w.enc ++ rest)
                (omega (arith, size, filled)) h0)
              (w.reads depth bytes pos1 rest no_attrs (omega (arith, size, size')) h1)
            ∙ (unfold wire_content in
                ap (λ (p : ℕ). ok (node tag (collect_attrs attrs no_attrs) null, p)) far);
      }

  pub Body-with :
      (content : Value)
      → has_content content ≡ 1
      → ((m : Outcome Bytes) → if_content content m ≡ m)
      → WrittenValue content false (wire_content content)
      → Body tag attrs content
  Body-with content there kept v =
      let (name, name_ok, filled, reads_name) = next_string-write_string tag ht in
      let w = written_attrs attrs ha in
      let result = wire_content content in
      record {
        enc = name ++ (w.enc ++ v.enc);
        written = λ e.
            unfold write_node in
            rw (e, w.written, v.written) (rw name_ok (rw (kept (ok v.enc)) refl));
        reads = λ depth bytes pos rest enough here.
            let size = length-append name (w.enc ++ v.enc) in
            let size' = length-append w.enc v.enc in
            let h0 : drop pos bytes ≡ name ++ (w.enc ++ (v.enc ++ rest)) =
              here
              ∙ append_assoc name (w.enc ++ v.enc) rest
              ∙ ap (λ t. name ++ t) (append_assoc w.enc v.enc rest) in
            let pos1 = pos + length name in
            let pos2 = pos1 + length w.enc in
            let h1 = drop_past pos bytes name (w.enc ++ (v.enc ++ rest)) h0 in
            let h2 = drop_past pos1 bytes w.enc (v.enc ++ rest) h1 in
            let far : pos2 + length v.enc ≡ pos + length (name ++ (w.enc ++ v.enc)) =
              omega (arith, size, size') in
            ap
              (λ (n : ℕ).
                read_sized (read_value bytes depth) bytes (2 * count_attrs attrs + 1 + n) pos)
              there
            ∙ sized_with (read_value bytes depth) bytes (count_attrs attrs) pos pos1 pos2
                (pos2 + length v.enc) tag (collect_attrs attrs no_attrs) result
                (next_string_within tag name reads_name depth bytes pos (w.enc ++ (v.enc ++ rest))
                  (omega (arith, size, filled)) h0)
                (w.reads depth bytes pos1 (v.enc ++ rest) no_attrs (omega (arith, size, size')) h1)
                (v.reads depth (omega (arith, size, size')) bytes pos2 rest h2)
            ∙ ap (λ (p : ℕ). ok (node tag (collect_attrs attrs no_attrs) result, p)) far;
      }

-- Content that is text is written, and read as bytes or text.
pub content_text :
    (v : Value) (s : Str)
    → write_any v ≡ write_string s
    → IsWritable s
    → WrittenValue v false (wire_text s)
content_text v s same h =
    let w = written_string s h in
    record {
      enc = w.enc;
      written = same ∙ w.written;
      some_bytes = w.some_bytes;
      reads = deep_enough false w.enc (wire_text s) w.some_bytes w.as_content;
    }

pub content_blob :
    (body : Bytes) → length body < 2 ^ 31 → WrittenValue (blob body) false (blob body)
content_blob body h =
    let w = written_bytes body h in
    record {
      enc = w.enc;
      written = unfold write_any in w.written;
      some_bytes = w.some_bytes;
      reads =
          deep_enough false w.enc (blob body) w.some_bytes
            (λ depth. w.reads depth false (blob body) (read_binary_blob body));
    }

pub content_no_nodes : WrittenValue (children nil) false (text [])
content_no_nodes = record {
  enc = list_empty ∷ [];
  written = unfold write_any write_nodes write_list_start count_nodes in refl;
  some_bytes = omega arith;
  reads = deep_enough false (list_empty ∷ []) (text []) (omega arith) (λ depth bytes pos rest here.
      next_value_at depth false bytes pos list_empty rest here
      ∙ (unfold read_kind kind_of in refl));
}
