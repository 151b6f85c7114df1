-- ===== src/WireExamples.antt =====
-- The theorems about the binary XML at concrete inputs.
use whatsapp_cli.Common.{ℕ, suc, ◌+◌, ◌%◌, ◌≤◌, ◌≡◌, refl, Bool, true, [], ◌∷◌, ◌++◌, arith}
use whatsapp_cli.Common.Lists.{length, drop}
use whatsapp_cli.Common.Outcome.{ok, raise, index_error, value_error, recursion_error}
use whatsapp_cli.Common.Utf8.{Bytes, codes, utf8_encode, same_bytes}
use whatsapp_cli.WaBinary.Tokens.{nibble_8}
use whatsapp_cli.WaBinary.Node.{
  Jid, default_user_server, messenger_server, Node, node, no_attrs, attr, null, text, number, jid,
  blob, children, nil, cons,
}
use whatsapp_cli.WaBinary.Packed.{
  pack_nibble, unpack_nibble, valid_packed, all_in, write_packed, read_packed,
}
use whatsapp_cli.WaBinary.Packing.{nibble-IsPacking, read_packed-write_packed}
use whatsapp_cli.WaBinary.Encoder.{
  write_string, write_jid, decimal, decimal_loop, count_attrs, count_nodes, encode_node,
}
use whatsapp_cli.WaBinary.Decoder.{next_string, next_value, read_value, decode_node}
use whatsapp_cli.WaBinary.Strings.{IsWritable, next_string-write_string}
use whatsapp_cli.WaBinary.Jids.{wire_jid, next_value-write_jid}
use whatsapp_cli.WaBinary.JidForms.{user_jid, hosted_jid, next_value-write_jid_hosted}
use whatsapp_cli.WaBinary.WireForm.{wire_node, IsWritableNode}
use whatsapp_cli.WaBinary.Packed.{read_u8}
use whatsapp_cli.WaBinary.Decoder.{
  decode_node_within, decode_payload_within, read_node, read_list_size, read_sized, next_string,
  read_string, read_jid_pair, read_user, read_kind, kind_of,
}
use whatsapp_cli.WaBinary.Codec.{decode_node-encode_node}

digits-valid : valid_packed whatsapp_cli.WaBinary.Packed.in_nibble_alphabet (codes "336-1") ≡ true
unfolding valid_packed all_in
digits-valid = refl

read_packed-write_packed_example :
    (body : Bytes) × (write_packed pack_nibble nibble_8 (codes "336-1")
      ≡ ok ((nibble_8 % 256) ∷ body))
    × ((bytes : Bytes) (pos : ℕ) (rest : Bytes)
        → drop pos bytes ≡ body ++ rest
        → read_packed unpack_nibble bytes pos ≡ ok (codes "336-1", pos + length body))
read_packed-write_packed_example =
    read_packed-write_packed nibble-IsPacking nibble_8 (codes "336-1") digits-valid

phone-IsWritable : IsWritable (codes "33612")
unfolding utf8_encode
phone-IsWritable = (ground arith, omega arith)

server-IsWritable : IsWritable default_user_server
unfolding utf8_encode
server-IsWritable = (ground arith, omega arith)

hosted-IsWritable : IsWritable whatsapp_cli.WaBinary.Node.hosted_server
unfolding utf8_encode
hosted-IsWritable = (ground arith, omega arith)

messenger-IsWritable : IsWritable messenger_server
unfolding utf8_encode
messenger-IsWritable = (ground arith, omega arith)

next_string-write_string_example :
    (enc : Bytes) × (write_string (codes "33612") ≡ ok enc)
    × (1 ≤ length enc)
    × ((depth : ℕ) (bytes : Bytes) (pos : ℕ) (rest : Bytes)
        → drop pos bytes ≡ enc ++ rest
        → next_string (read_value bytes (suc depth)) bytes pos
          ≡ ok (codes "33612", pos + length enc))
next_string-write_string_example = next_string-write_string (codes "33612") phone-IsWritable

abbrev facebook : Jid
facebook = record {
  user = codes "33612";
  server = messenger_server;
  agent = 2;
  device = 70000;
  integrator = 0;
}

next_value-write_jid_example :
    (enc : Bytes) × (write_jid facebook ≡ ok enc)
    × ((depth : ℕ) (as_string : Bool) (bytes : Bytes) (pos : ℕ) (rest : Bytes)
        → drop pos bytes ≡ enc ++ rest
        → next_value (read_value bytes (suc (suc depth))) bytes as_string pos
          ≡ ok (jid (wire_jid facebook), pos + length enc))
next_value-write_jid_example =
    next_value-write_jid facebook (phone-IsWritable, messenger-IsWritable)

next_value-write_jid_hosted_example :
    (enc : Bytes) × (write_jid (hosted_jid (codes "33612") 3) ≡ ok enc)
    × ((depth : ℕ) (as_string : Bool) (bytes : Bytes) (pos : ℕ) (rest : Bytes)
        → drop pos bytes ≡ enc ++ rest
        → next_value (read_value bytes (suc (suc depth))) bytes as_string pos
          ≡ ok (jid (user_jid (codes "33612") (3 % 256)), pos + length enc))
next_value-write_jid_hosted_example =
    next_value-write_jid_hosted (codes "33612") 3 (phone-IsWritable, hosted-IsWritable)

abbrev stanza : Node
stanza =
    node (codes "iq")
      (attr (codes "to") (jid (user_jid (codes "33612") 3))
        (attr (codes "id") (text []) (attr (codes "xmlns") (number 12) no_attrs)))
      (children (
        cons (node (codes "0") no_attrs null)
          (cons (node (codes "zz") no_attrs (blob (1 ∷ 2 ∷ []))) nil)))

stanza-IsWritable : IsWritableNode stanza
unfolding IsWritableNode utf8_encode decimal decimal_loop count_attrs count_nodes
stanza-IsWritable = (
  ground arith,
  ground arith,
  omega arith,
  (
    omega arith,
    ((ground arith, tt, omega arith, tt), ((ground arith, tt, omega arith, omega arith), tt)),
  ),
)

decode_node-encode_node_example :
    (enc : Bytes) × (encode_node stanza ≡ ok enc)
    × (decode_node (λ bytes. raise index_error) enc ≡ ok (wire_node stanza))
decode_node-encode_node_example =
    decode_node-encode_node (λ bytes. raise index_error) stanza stanza-IsWritable
      (unfold same_bytes in refl)

-- A list of one node whose attribute is a JID of a JID of a JID, with no end
abbrev nested : Bytes
nested = 0 ∷ 248 ∷ 1 ∷ 250 ∷ 250 ∷ 250 ∷ 250 ∷ []

-- A stack that is too small for it
too_deep : decode_node_within (λ bytes. raise value_error) 2 nested ≡ raise recursion_error
unfolding decode_node_within decode_payload_within read_value read_node read_list_size read_sized
    read_u8 next_string read_string read_jid_pair read_user read_kind kind_of
too_deep = refl
