-- ===== src/WaBinary/Codec.antt =====
-- `encode_node` of wa/wabinary/encoder.py and `decode_node` of decoder.py together.
use whatsapp_cli.Common.{
  suc, ◌+◌, ◌*◌, ◌≡◌, refl, sym, ap, ◌∙◌, false, some, [], ◌∷◌, ◌++◌, arith, append-nil,
}
use whatsapp_cli.Common.Tests.{◌==◌, ==_refl}
use whatsapp_cli.Common.Lists.{length, length-append, drop, drop_past}
use whatsapp_cli.Common.Outcome.{Outcome, ok}
use whatsapp_cli.Common.Utf8.{Bytes, Str, codes, same_bytes}
use whatsapp_cli.WaBinary.Node.{Node, node, Attrs, Value, tag_of}
use whatsapp_cli.WaBinary.Packing.{read_u8_at}
use whatsapp_cli.WaBinary.Encoder.{write_node, encode_node, count_attrs, has_content}
use whatsapp_cli.WaBinary.Decoder.{read_value, read_node, decode_payload, decode_node}
use whatsapp_cli.WaBinary.WireForm.{wire_node, IsWritableNode}
use whatsapp_cli.WaBinary.NodeParts.{Started, started, Body}
use whatsapp_cli.WaBinary.Nodes.{written-Body, attributes_fit, has_content_small}

module _ (tag : Str) (attrs : Attrs) (content : Value) (e : same_bytes tag (codes "0") ≡ false)
    (s : Started (2 * count_attrs attrs + 1 + has_content content))
    (b : Body tag attrs content) where
  -- The bytes of the node, behind the flag byte.
  payload : Bytes
  payload = s.tag ∷ (s.after ++ b.enc)

  payload_written : write_node (node tag attrs content) ≡ ok payload
  unfolding payload
  payload_written = b.written e ∙ ap (λ (t : Bytes). ok (t ++ b.enc)) s.written

  read_node-payload :
      read_node (read_value payload (length payload)) payload 0
      ≡ ok (some (wire_node (node tag attrs content)), length payload)
  unfolding payload
  read_node-payload =
      let whole = s.tag ∷ (s.after ++ b.enc) in
      let size = 2 * count_attrs attrs + 1 + has_content content in
      let total = length-append s.after b.enc in
      let behind : b.enc ≡ b.enc ++ [] = sym (append-nil b.enc) in
      let h1 : drop 1 whole ≡ s.after ++ b.enc = refl in
      let h2 : drop (1 + length s.after) whole ≡ b.enc ++ [] =
        drop_past 1 whole s.after b.enc h1 ∙ behind in
      let far : 0 + 1 + length s.after + length b.enc ≡ suc (length (s.after ++ b.enc)) =
        omega (arith, total) in
      let positive : (size == 0) ≡ false = ground arith in
      unfold read_node wire_node in
      rw (read_u8_at whole 0 s.tag (s.after ++ b.enc) refl) (
        rw (s.reads whole (0 + 1) b.enc h1) (
          rw positive (
            rw (b.reads (length whole) whole (0 + 1 + length s.after) [] (omega (arith, total)) h2)
              (rw (e, far) refl))))

  decode_payload-payload : decode_payload payload ≡ ok (wire_node (node tag attrs content))
  decode_payload-payload =
      unfold decode_payload in rw read_node-payload (rw (==_refl (length payload)) refl)

-- A node that the wire can carry, whose tag is not "0", is encoded, and decoding gives what
-- `wire_node` keeps of it, whatever `zlib.decompress` does.
pub decode_node-encode_node :
    (decompress : Bytes → Outcome Bytes) (n : Node)
    → IsWritableNode n
    → same_bytes (tag_of n) (codes "0") ≡ false
    → (enc : Bytes) × (encode_node n ≡ ok enc) × (decode_node decompress enc ≡ ok (wire_node n))
decode_node-encode_node decompress (node tag attrs content) h e =
    let fits = attributes_fit tag attrs content h in
    let small = has_content_small content in
    let s = started (2 * count_attrs attrs + 1 + has_content content) (omega arith) (omega arith) in
    let b = written-Body tag attrs content h in
    (
      0 ∷ payload tag attrs content e s b,
      unfold encode_node in rw (payload_written tag attrs content e s b) refl,
      unfold decode_node in decode_payload-payload tag attrs content e s b,
    )
