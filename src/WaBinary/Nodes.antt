-- ===== src/WaBinary/Nodes.antt =====
-- Reading back the nodes that wa/wabinary/encoder.py writes.
use whatsapp_cli.Common.{
  ℕ, zero, suc, ◌+◌, ◌*◌, ◌^◌, ◌≤◌, ◌<◌, ◌≡◌, refl, sym, ap, subst, ◌∙◌, true, false, [], ◌∷◌, ◌++◌,
  arith, ◌⊎◌, inl, inr, append_assoc,
}
use whatsapp_cli.Common.Tests.{◌==◌, Bool-cases}
use whatsapp_cli.Common.Lists.{length, length-append, drop, drop_past}
use whatsapp_cli.Common.Outcome.{Outcome, ok}
use whatsapp_cli.Common.Utf8.{Bytes, Str, codes, same_bytes}
use whatsapp_cli.WaBinary.Tokens.{list_empty, list_8}
use whatsapp_cli.WaBinary.Node.{
  Node, node, Attrs, Value, null, text, number, flag, jid, blob, children, Nodes, nil, cons,
}
use whatsapp_cli.WaBinary.Packing.{read_u8_at}
use whatsapp_cli.WaBinary.Encoder.{
  decimal, count_attrs, count_nodes, has_content, if_content, write_node, write_any, write_nodes,
}
use whatsapp_cli.WaBinary.Decoder.{
  read_list_size, read_node_in_list, read_nodes, read_kind, read_value,
}
use whatsapp_cli.WaBinary.Binary.{Reads, next_value_at}
use whatsapp_cli.WaBinary.Strings.{IsWritable}
use whatsapp_cli.WaBinary.WireForm.{
  wire_node, wire_content, wire_nodes, IsWritableNode, IsWritableContent, IsWritableNodes,
}
use whatsapp_cli.WaBinary.Attributes.{
  IsWritableAttrs, WrittenValue, jid_value, true-IsWritable, false-IsWritable,
}
use whatsapp_cli.WaBinary.NodeParts.{
  Started, started, Body, Body-without, Body-with, content_text, content_blob, content_no_nodes,
}

-- Nodes one after the other.
pub record WrittenNodes (ns : Nodes) : Type 0 where
  enc : Bytes
  written : write_nodes ns ≡ ok enc
  reads :
      (depth : ℕ) (bytes : Bytes) (pos : ℕ) (rest : Bytes)
      → length enc ≤ depth
      → drop pos bytes ≡ enc ++ rest
      → read_nodes (read_value bytes depth) bytes (count_nodes ns) pos
        ≡ ok (wire_nodes ns, pos + length enc)

pub record WrittenNode (n : Node) : Type 0 where
  enc : Bytes
  written : write_node n ≡ ok enc
  reads :
      (depth : ℕ) (bytes : Bytes) (pos : ℕ) (rest : Bytes)
      → length enc ≤ depth
      → drop pos bytes ≡ enc ++ rest
      → read_node_in_list (read_value bytes depth) bytes pos ≡ ok (wire_node n, pos + length enc)

nodes_nil : WrittenNodes nil
nodes_nil = record {
  enc = [];
  written = unfold write_nodes in refl;
  reads = λ depth bytes pos rest enough here.
      unfold read_nodes count_nodes wire_nodes in ap (λ (p : ℕ). ok (nil, p)) (omega arith);
}

nodes_cons : (n : Node) (ns : Nodes) → WrittenNode n → WrittenNodes ns → WrittenNodes (cons n ns)
nodes_cons n ns first more = record {
  enc = first.enc ++ more.enc;
  written = unfold write_nodes in rw (first.written, more.written) refl;
  reads = λ depth bytes pos rest enough here.
      let size = length-append first.enc more.enc in
      let h0 : drop pos bytes ≡ first.enc ++ (more.enc ++ rest) =
        here ∙ append_assoc first.enc more.enc rest in
      let pos1 = pos + length first.enc in
      let h1 = drop_past pos bytes first.enc (more.enc ++ rest) h0 in
      let far : pos1 + length more.enc ≡ pos + length (first.enc ++ more.enc) =
        omega (arith, size) in
      unfold count_nodes read_nodes wire_nodes in
      rw (first.reads depth bytes pos (more.enc ++ rest) (omega (arith, size)) h0, read_nodes)
        (rw (more.reads depth bytes pos1 rest (omega (arith, size)) h1, read_nodes) (rw far refl));
}

-- A node with the tag "0" is the start of an empty list.
node_zero :
    (tag : Str) (attrs : Attrs) (content : Value)
    → same_bytes tag (codes "0") ≡ true
    → WrittenNode (node tag attrs content)
node_zero tag attrs content e = record {
  enc = list_8 ∷ list_empty ∷ [];
  written = unfold write_node in rw e refl;
  reads = λ depth bytes pos rest enough here.
      let h1 = drop_past pos bytes (list_8 ∷ []) (list_empty ∷ rest) here in
      let far : pos + 1 + 1 ≡ pos + 2 = omega arith in
      unfold read_node_in_list wire_node in
      rw (read_u8_at bytes pos list_8 (list_empty ∷ rest) here) (
        unfold read_list_size in
        rw (read_u8_at bytes (pos + 1) list_empty rest h1) (rw (e, far) refl));
}

node_of_Body :
    (tag : Str) (attrs : Attrs) (content : Value)
    → same_bytes tag (codes "0") ≡ false
    → 2 * count_attrs attrs + 2 < 2 ^ 16
    → has_content content ≤ 1
    → Body tag attrs content
    → WrittenNode (node tag attrs content)
node_of_Body tag attrs content e fits small b =
    let size = 2 * count_attrs attrs + 1 + has_content content in
    let s = started size (omega arith) (omega arith) in
    record {
      enc = s.tag ∷ (s.after ++ b.enc);
      written = b.written e ∙ ap (λ (t : Bytes). ok (t ++ b.enc)) s.written;
      reads = λ depth bytes pos rest enough here.
          let total = length-append s.after b.enc in
          let h0 : drop pos bytes ≡ s.tag ∷ (s.after ++ (b.enc ++ rest)) =
            here ∙ ap (λ (t : Bytes). s.tag ∷ t) (append_assoc s.after b.enc rest) in
          let h1 = drop_past pos bytes (s.tag ∷ []) (s.after ++ (b.enc ++ rest)) h0 in
          let pos2 = pos + 1 + length s.after in
          let h2 = drop_past (pos + 1) bytes s.after (b.enc ++ rest) h1 in
          let far : pos2 + length b.enc ≡ pos + suc (length (s.after ++ b.enc)) =
            omega (arith, total) in
          let positive : (size == 0) ≡ false = ground arith in
          unfold read_node_in_list wire_node in
          rw (read_u8_at bytes pos s.tag (s.after ++ (b.enc ++ rest)) h0) (
            rw (s.reads bytes (pos + 1) (b.enc ++ rest) h1) (
              rw positive
                (rw (b.reads depth bytes pos2 rest (omega (arith, total)) h2) (rw (e, far) refl))));
    }

children_within :
    (n : Node) (ns : Nodes) (s : Started (count_nodes (cons n ns))) (w : WrittenNodes (cons n ns))
    (depth : ℕ)
    → length (s.tag ∷ (s.after ++ w.enc)) ≤ depth
    → Reads depth false (s.tag ∷ (s.after ++ w.enc)) (wire_content (children (cons n ns)))
children_within n ns s w zero enough bytes pos rest here = absurd (omega arith)
children_within n ns s w (suc depth) enough bytes pos rest here =
    let total = length-append s.after w.enc in
    let h0 : drop pos bytes ≡ s.tag ∷ (s.after ++ (w.enc ++ rest)) =
      here ∙ ap (λ (t : Bytes). s.tag ∷ t) (append_assoc s.after w.enc rest) in
    let h1 = drop_past pos bytes (s.tag ∷ []) (s.after ++ (w.enc ++ rest)) h0 in
    let pos2 = pos + 1 + length s.after in
    let h2 = drop_past (pos + 1) bytes s.after (w.enc ++ rest) h1 in
    let far : pos2 + length w.enc ≡ pos + suc (length (s.after ++ w.enc)) = omega (arith, total) in
    next_value_at depth false bytes pos s.tag (s.after ++ (w.enc ++ rest)) h0
    ∙ (unfold read_kind wire_content in
        rw s.kind (
          rw (s.reads bytes (pos + 1) (w.enc ++ rest) h1)
            (rw (w.reads depth bytes pos2 rest (omega (arith, total)) h2) (rw far refl))))

content_children :
    (n : Node) (ns : Nodes)
    → count_nodes (cons n ns) < 2 ^ 16
    → WrittenNodes (cons n ns)
    → WrittenValue (children (cons n ns)) false (wire_content (children (cons n ns)))
content_children n ns fits w =
    let count = count_nodes (cons n ns) in
    let positive : 1 ≤ count = unfold count_nodes in omega arith in
    let s = started count positive fits in
    record {
      enc = s.tag ∷ (s.after ++ w.enc);
      written = unfold write_any in rw w.written (ap (λ (t : Bytes). ok (t ++ w.enc)) s.written);
      some_bytes = omega arith;
      reads = children_within n ns s w;
    }

content_there :
    (v : Value) → (v ≡ null) ⊎ ((has_content v ≡ 1) × ((m : Outcome Bytes) → if_content v m ≡ m))
content_there null = inl refl
content_there (text s) = inr (refl, λ m. refl)
content_there (number n) = inr (refl, λ m. refl)
content_there (flag b) = inr (refl, λ m. refl)
content_there (jid j) = inr (refl, λ m. refl)
content_there (blob bytes) = inr (refl, λ m. refl)
content_there (children ns) = inr (refl, λ m. refl)

pub has_content_small : (v : Value) → has_content v ≤ 1
has_content_small v = elim (content_there v) [
  | inl e ↦ rw e (omega arith)
  | inr (e, kept) ↦ omega (arith, e)
]

Body-by :
    (tag : Str) (attrs : Attrs) (content : Value)
    → IsWritable tag
    → IsWritableAttrs attrs
    → (has_content content ≡ 1 → WrittenValue content false (wire_content content))
    → Body tag attrs content
Body-by tag attrs content ht ha written = elim (content_there content) [
  | inl e ↦ subst (λ v. Body tag attrs v) (sym e) (Body-without tag attrs ht ha)
  | inr (there, kept) ↦ Body-with tag attrs ht ha content there kept (written there)
]

-- By induction on the node: its parts are written and read back.
mutual
  unfolding wire_content IsWritableContent write_any

  written_content :
      (v : Value) → IsWritableContent v → has_content v ≡ 1 → WrittenValue v false (wire_content v)
  written_content null h e = absurd (omega (arith, e))
  written_content (text s) h e = content_text (text s) s refl h
  written_content (number n) h e = content_text (number n) (decimal n) refl h
  written_content (flag true) h e = content_text (flag true) (codes "true") refl true-IsWritable
  written_content (flag false) h e = content_text (flag false) (codes "false") refl false-IsWritable
  written_content (jid j) h e = jid_value false j h
  written_content (blob body) h e = content_blob body h
  written_content (children nil) h e = content_no_nodes
  written_content (children (cons n ns)) (fits, hn) e =
      content_children n ns fits (written_nodes (cons n ns) hn)

  pub written_node : (n : Node) → IsWritableNode n → WrittenNode n
  written_node (node tag attrs content) (ht, ha, fits, hc) =
      elim (Bool-cases (same_bytes tag (codes "0"))) [
        | inl e ↦ node_zero tag attrs content e
        | inr e ↦
            node_of_Body tag attrs content e fits (has_content_small content)
              (Body-by tag attrs content ht ha (written_content content hc))
      ]

  pub written_nodes : (ns : Nodes) → IsWritableNodes ns → WrittenNodes ns
  written_nodes nil h = nodes_nil
  written_nodes (cons n ns) (h, hs) = nodes_cons n ns (written_node n h) (written_nodes ns hs)

pub written-Body :
    (tag : Str) (attrs : Attrs) (content : Value)
    → IsWritableNode (node tag attrs content)
    → Body tag attrs content
unfolding IsWritableNode
written-Body tag attrs content (ht, ha, fits, hc) =
    Body-by tag attrs content ht ha (written_content content hc)

pub attributes_fit :
    (tag : Str) (attrs : Attrs) (content : Value)
    → IsWritableNode (node tag attrs content)
    → 2 * count_attrs attrs + 2 < 2 ^ 16
unfolding IsWritableNode
attributes_fit tag attrs content (ht, ha, fits, hc) = fits
