-- ===== src/WaBinary/Decoder.antt =====
-- wa/wabinary/decoder.py. The reader is the buffer and a position, which is passed on. What a value
-- holds is read by `_read_value` again, which here is the argument `read`: it takes `as_string`, the
-- tag and the position behind it.
use whatsapp_cli.Common.{
  ℕ, zero, suc, ◌+◌, ◌-◌, ◌*◌, ◌/◌, ◌%◌, ◌^◌, bit_or, bit_and, Bool, true, false, not, ◌&&◌, ◌||◌,
  Option, none, some, List, [], ◌∷◌, String,
}
use whatsapp_cli.Common.Tests.{◌==◌, ltb, leb, if◌then◌else◌}
use whatsapp_cli.Common.Lists.{length, get_elem?, slice}
use whatsapp_cli.Common.Outcome.{
  Outcome, ok, raise, ◌>>=◌, value_error, index_error, recursion_error, unicode_error,
}
use whatsapp_cli.Common.Utf8.{Bytes, Str, utf8_decode}
use whatsapp_cli.WaBinary.Tokens.{
  list_empty, dictionary_first, dictionary_last, interop_jid, fb_jid, ad_jid, list_8, list_16,
  jid_pair, hex_8, binary_8, binary_20, binary_32, nibble_8, single_byte_tokens, double_byte_tokens,
  token_at,
}
use whatsapp_cli.WaBinary.Node.{
  Jid, default_user_server, hidden_user_server, hosted_server, hosted_lid_server, Node, node, Attrs,
  no_attrs, Value, null, text, jid, blob, children, Nodes, nil, cons, set_attr,
}
use whatsapp_cli.WaBinary.Packed.{read_u8, read_packed, unpack_nibble, unpack_hex}

-- `int.from_bytes(…, "big")`, from what the bytes before make
unfoldable pub from_big : ℕ → Bytes → ℕ
from_big n [] = n
from_big n (b ∷ bs) = from_big (n * 256 + b) bs

unfoldable pub read_u16_be : Bytes → ℕ → ℕ × ℕ
unfolding from_big
read_u16_be bytes pos = (from_big 0 (slice bytes pos (pos + 2)), pos + 2)

unfoldable pub read_u20_be : Bytes → ℕ → Outcome (ℕ × ℕ)
read_u20_be bytes pos = do
  (b0, pos1) ← read_u8 bytes pos
  (b1, pos2) ← read_u8 bytes pos1
  (b2, pos3) ← read_u8 bytes pos2
  ok (bit_or (bit_or (bit_and b0 0x0f * 2 ^ 16) (b1 * 2 ^ 8)) b2, pos3)

unfoldable pub read_u32_be : Bytes → ℕ → ℕ × ℕ
unfolding from_big
read_u32_be bytes pos = (from_big 0 (slice bytes pos (pos + 4)), pos + 4)

unfoldable pub read_list_size : Bytes → ℕ → ℕ → Outcome (ℕ × ℕ)
read_list_size bytes tag pos =
    if tag == list_empty
    then ok (0, pos)
    else if tag == list_8
    then read_u8 bytes pos
    else if tag == list_16
    then ok (read_u16_be bytes pos)
    else raise value_error

-- The rows of `_read_value`.
pub data Kind : Type 0 where
  single_token empty_list dictionary pair_jid agent_jid messenger_jid interop : Kind
  nibbles hexes short_binary middle_binary long_binary node_list unknown : Kind

abbrev pub last_single : ℕ
last_single = 235

unfoldable pub kind_of : ℕ → Kind
kind_of tag =
    if leb 1 tag && leb tag last_single
    then single_token
    else if tag == list_empty
    then empty_list
    else if leb dictionary_first tag && leb tag dictionary_last
    then dictionary
    else if tag == jid_pair
    then pair_jid
    else if tag == ad_jid
    then agent_jid
    else if tag == fb_jid
    then messenger_jid
    else if tag == interop_jid
    then interop
    else if tag == nibble_8
    then nibbles
    else if tag == hex_8
    then hexes
    else if tag == binary_8
    then short_binary
    else if tag == binary_20
    then middle_binary
    else if tag == binary_32
    then long_binary
    else if tag == list_8 || tag == list_16
    then node_list
    else unknown

unfoldable pub read_token : List String → ℕ → Outcome Value
read_token toks i = elim (token_at toks i) [ none ↦ raise index_error | some s ↦ ok (text s) ]

-- `DOUBLE_BYTE_TOKENS[dict_idx][tok_idx]`
unfoldable pub read_pair : ℕ → ℕ → Outcome Value
unfolding read_token
read_pair d i = elim (get_elem? double_byte_tokens d) [
  | none ↦ raise index_error
  | some dict ↦ read_token dict i
]

-- `r.read(n)`, decoded to text on demand
unfoldable pub read_binary : Bool → Bytes → ℕ × ℕ → Outcome (Value × ℕ)
read_binary true bytes (n, pos) = elim (utf8_decode (slice bytes pos (pos + n))) [
  | none ↦ raise unicode_error
  | some s ↦ ok (text s, pos + n)
]
read_binary false bytes (n, pos) = ok (blob (slice bytes pos (pos + n)), pos + n)

-- `_read_string` requires a str.
abbrev pub as_str : Value × ℕ → Outcome (Str × ℕ)
as_str (text s, pos) = ok (s, pos)
as_str (_, pos) = raise value_error

abbrev pub as_text : Str × ℕ → Outcome (Value × ℕ)
as_text (s, pos) = ok (text s, pos)

unfoldable pub server_of_agent : ℕ → Str
server_of_agent agent =
    if agent == 0
    then default_user_server
    else if agent == 1
    then hidden_user_server
    else if ltb agent 128
    then hosted_server
    else hosted_lid_server

module _ (read : Bool → ℕ → ℕ → Outcome (Value × ℕ)) (bytes : Bytes) where
  unfoldable pub read_string : ℕ → ℕ → Outcome (Str × ℕ)
  read_string tag pos = do v ← read true tag pos; as_str v

  -- `_read_string(r, r.read_u8())`
  unfoldable pub next_string : ℕ → Outcome (Str × ℕ)
  unfolding read_string
  next_string pos = do (tag, pos') ← read_u8 bytes pos; read_string tag pos'

  unfoldable pub next_value : Bool → ℕ → Outcome (Value × ℕ)
  next_value as_string pos = do (tag, pos') ← read_u8 bytes pos; read as_string tag pos'

  unfoldable pub read_user : ℕ → Outcome (Str × ℕ)
  unfolding read_string
  read_user pos = do
    (tag, pos') ← read_u8 bytes pos
    if tag == list_empty then ok ([], pos') else read_string tag pos'

  unfoldable pub read_jid_pair : ℕ → Outcome (Value × ℕ)
  unfolding read_user next_string
  read_jid_pair pos = do
    (user, pos1) ← read_user pos
    (server, pos2) ← next_string pos1
    ok (jid (record { user = user; server = server; agent = 0; device = 0; integrator = 0 }), pos2)

  unfoldable pub read_ad_jid : ℕ → Outcome (Value × ℕ)
  unfolding next_string
  read_ad_jid pos = do
    (agent, pos1) ← read_u8 bytes pos
    (device, pos2) ← read_u8 bytes pos1
    (user, pos3) ← next_string pos2
    let j : Jid = record {
      user = user;
      server = server_of_agent agent;
      agent = agent;
      device = device;
      integrator = 0;
    }
    ok (jid j, pos3)

  unfoldable pub read_fb_jid : ℕ → Outcome (Value × ℕ)
  unfolding next_string
  read_fb_jid pos = do
    (user, pos1) ← next_string pos
    let (device, pos2) = read_u16_be bytes pos1
    (server, pos3) ← next_string pos2
    ok (
      jid (record { user = user; server = server; agent = 0; device = device; integrator = 0 }),
      pos3,
    )

  unfoldable pub read_interop_jid : ℕ → Outcome (Value × ℕ)
  unfolding next_string
  read_interop_jid pos = do
    (user, pos1) ← next_string pos
    let (device, pos2) = read_u16_be bytes pos1
    let (integrator, pos3) = read_u16_be bytes pos2
    (server, pos4) ← next_string pos3
    let j : Jid = record {
      user = user;
      server = server;
      agent = 0;
      device = device;
      integrator = integrator;
    }
    ok (jid j, pos4)

  unfoldable pub read_attrs : ℕ → Attrs → ℕ → Outcome (Attrs × ℕ)
  unfolding next_string next_value
  read_attrs zero out pos = ok (out, pos)
  read_attrs (suc n) out pos = do
    (key, pos1) ← next_string pos
    (value, pos2) ← next_value true pos1
    read_attrs n (set_attr key value out) pos2

  -- What follows the size of a node that is not empty.
  unfoldable pub read_sized : ℕ → ℕ → Outcome (Node × ℕ)
  unfolding next_string next_value read_attrs
  read_sized size pos = do
    (tag, pos1) ← next_string pos
    (attrs, pos2) ← read_attrs ((size - 1) / 2) no_attrs pos1
    if size % 2 == 0
        then (do (content, pos3) ← next_value false pos2; ok (node tag attrs content, pos3))
        else ok (node tag attrs null, pos2)

  unfoldable pub read_node_in_list : ℕ → Outcome (Node × ℕ)
  unfolding read_sized
  read_node_in_list pos = do
    (list_tag, pos1) ← read_u8 bytes pos
    (size, pos2) ← read_list_size bytes list_tag pos1
    if size == 0 then ok (node [] no_attrs null, pos2) else read_sized size pos2

  unfoldable pub read_node : ℕ → Outcome (Option Node × ℕ)
  unfolding read_sized
  read_node pos = do
    (list_tag, pos1) ← read_u8 bytes pos
    (size, pos2) ← read_list_size bytes list_tag pos1
    if size == 0 then ok (none, pos2) else (do (n, pos3) ← read_sized size pos2; ok (some n, pos3))

  unfoldable pub read_nodes : ℕ → ℕ → Outcome (Nodes × ℕ)
  unfolding read_node_in_list
  read_nodes zero pos = ok (nil, pos)
  read_nodes (suc n) pos = do
    (first, pos1) ← read_node_in_list pos
    (rest, pos2) ← read_nodes n pos1
    ok (cons first rest, pos2)

  -- `_read_value` by its row.
  unfoldable pub read_kind : Kind → Bool → ℕ → ℕ → Outcome (Value × ℕ)
  read_kind single_token as_string tag pos = do v ← read_token single_byte_tokens tag; ok (v, pos)
  read_kind empty_list as_string tag pos = ok (text [], pos)
  read_kind dictionary as_string tag pos = do
    (i, pos') ← read_u8 bytes pos
    v ← read_pair (tag - dictionary_first) i
    ok (v, pos')
  read_kind pair_jid as_string tag pos = read_jid_pair pos
  read_kind agent_jid as_string tag pos = read_ad_jid pos
  read_kind messenger_jid as_string tag pos = read_fb_jid pos
  read_kind interop as_string tag pos = read_interop_jid pos
  read_kind nibbles as_string tag pos = do s ← read_packed unpack_nibble bytes pos; as_text s
  read_kind hexes as_string tag pos = do s ← read_packed unpack_hex bytes pos; as_text s
  read_kind short_binary as_string tag pos = do n ← read_u8 bytes pos; read_binary as_string bytes n
  read_kind middle_binary as_string tag pos = do
    n ← read_u20_be bytes pos
    read_binary as_string bytes n
  read_kind long_binary as_string tag pos = read_binary as_string bytes (read_u32_be bytes pos)
  read_kind node_list as_string tag pos = do
    (size, pos1) ← read_list_size bytes tag pos
    (ns, pos2) ← read_nodes size pos1
    ok (children ns, pos2)
  read_kind unknown as_string tag pos = raise value_error

-- `depth` is how many more calls of `_read_value` the stack of the interpreter has room for; the
-- interpreter raises RecursionError on the call that is one too many.
unfoldable pub read_value : Bytes → ℕ → Bool → ℕ → ℕ → Outcome (Value × ℕ)
unfolding read_kind kind_of
read_value bytes zero as_string tag pos = raise recursion_error
read_value bytes (suc depth) as_string tag pos =
    read_kind (read_value bytes depth) bytes (kind_of tag) as_string tag pos

abbrev pub the_node : ℕ → Option Node × ℕ → Outcome Node
the_node end (none, pos) = raise value_error
the_node end (some n, pos) = if pos == end then ok n else raise value_error

-- For an interpreter whose stack has room for `limit` nested calls of `_read_value`
unfoldable pub decode_payload_within : ℕ → Bytes → Outcome Node
unfolding read_value read_node
decode_payload_within limit payload = do
  r ← read_node (read_value payload limit) payload 0
  the_node (length payload) r

-- … and for one whose stack has room for as many as the payload has bytes, which is for all
unfoldable pub decode_payload : Bytes → Outcome Node
unfolding decode_payload_within read_value read_node
decode_payload payload = decode_payload_within (length payload) payload

module _ (decompress : Bytes → Outcome Bytes) where
  unfoldable pub decode_node_within : ℕ → Bytes → Outcome Node
  unfolding decode_payload_within
  decode_node_within limit [] = raise index_error
  decode_node_within limit (f ∷ payload) =
      if not (bit_and f 0x02 == 0)
      then decompress payload >>= decode_payload_within limit
      else if not (f == 0)
      then raise value_error
      else decode_payload_within limit payload

  -- On a stack that has room for every payload
  unfoldable pub decode_node : Bytes → Outcome Node
  unfolding decode_payload
  decode_node [] = raise index_error
  decode_node (f ∷ payload) =
      if not (bit_and f 0x02 == 0)
      then decompress payload >>= decode_payload
      else if not (f == 0)
      then raise value_error
      else decode_payload payload
