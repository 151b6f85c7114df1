-- ===== src/WaBinary/Encoder.antt =====
-- wa/wabinary/encoder.py. A function that writes returns the bytes that it appends to the buffer.
use whatsapp_cli.Common.{
  ℕ, zero, suc, ◌+◌, ◌*◌, ◌/◌, ◌%◌, ◌^◌, Bool, true, false, none, some, [], ◌∷◌, ◌++◌,
}
use whatsapp_cli.Common.Tests.{◌==◌, ltb, if◌then◌else◌}
use whatsapp_cli.Common.Lists.{length}
use whatsapp_cli.Common.Outcome.{Outcome, ok, raise, ◌>>=◌, value_error}
use whatsapp_cli.Common.Utf8.{Bytes, Str, codes, utf8_encode, same_bytes}
use whatsapp_cli.WaBinary.Tokens.{
  list_empty, dictionary_first, interop_jid, fb_jid, ad_jid, list_8, list_16, jid_pair, hex_8,
  binary_8, binary_20, binary_32, nibble_8, single_byte_index, double_byte_index,
}
use whatsapp_cli.WaBinary.Node.{
  Jid, is_ad, actual_agent, messenger_server, interop_server, Node, node, Attrs, no_attrs, attr,
  Value, null, text, number, flag, jid, blob, children, Nodes, nil, cons,
}
use whatsapp_cli.WaBinary.Packed.{
  in_nibble_alphabet, in_hex_alphabet, valid_packed, pack_nibble, pack_hex, write_packed,
}

abbrev pub push_u16_be : ℕ → Bytes
push_u16_be v = (v / 2 ^ 8 % 256) ∷ (v % 256) ∷ []

abbrev pub push_u20_be : ℕ → Bytes
push_u20_be v = (v / 2 ^ 16 % 16) ∷ (v / 2 ^ 8 % 256) ∷ (v % 256) ∷ []

abbrev pub push_u32_be : ℕ → Bytes
push_u32_be v = (v / 2 ^ 24 % 256) ∷ (v / 2 ^ 16 % 256) ∷ (v / 2 ^ 8 % 256) ∷ (v % 256) ∷ []

unfoldable pub write_list_start : ℕ → Bytes
write_list_start size =
    if size == 0
    then list_empty ∷ []
    else if ltb size 256
    then list_8 ∷ (size % 256) ∷ []
    else list_16 ∷ push_u16_be size

unfoldable pub write_byte_length : ℕ → Outcome Bytes
write_byte_length n =
    if ltb n 256
    then ok (binary_8 ∷ (n % 256) ∷ [])
    else if ltb n (2 ^ 20)
    then ok (binary_20 ∷ push_u20_be n)
    else if ltb n (2 ^ 31)
    then ok (binary_32 ∷ push_u32_be n)
    else raise value_error

unfoldable pub write_bytes : Bytes → Outcome Bytes
write_bytes bytes = do start ← write_byte_length (length bytes); ok (start ++ bytes)

unfoldable pub write_string_raw : Str → Outcome Bytes
unfolding write_bytes
write_string_raw s = write_bytes (utf8_encode s)

-- The packings, where there is no token.
unfoldable pub write_untokened : Str → Outcome Bytes
write_untokened s =
    if valid_packed in_nibble_alphabet s
    then write_packed pack_nibble nibble_8 s
    else if valid_packed in_hex_alphabet s
    then write_packed pack_hex hex_8 s
    else write_string_raw s

unfoldable pub write_string : Str → Outcome Bytes
write_string s = elim (single_byte_index s) [
  | some i ↦ ok ((i % 256) ∷ [])
  | none ↦ elim (double_byte_index s) [
    | some (d, i) ↦ ok (((dictionary_first + d) % 256) ∷ (i % 256) ∷ [])
    | none ↦ write_untokened s
  ]
]

-- `str(n)`: the decimal digits.
unfoldable pub decimal_loop : ℕ → ℕ → Str → Str
decimal_loop zero n digits = digits
decimal_loop (suc rounds) n digits =
    let digits' = (b'0' + n % 10) ∷ digits in
    let more = decimal_loop rounds (n / 10) digits' in if ltb n 10 then digits' else more

unfoldable pub decimal : ℕ → Str
decimal n = decimal_loop (n + 1) n []

-- The user of a JID_PAIR.
unfoldable pub write_user : Str → Outcome Bytes
write_user [] = ok (list_empty ∷ [])
write_user (c ∷ user) = write_string (c ∷ user)

unfoldable pub write_jid : Jid → Outcome Bytes
unfolding write_user
write_jid j =
    if is_ad j
    then (do
      user ← write_string j.user
      ok (ad_jid ∷ (actual_agent j % 256) ∷ (j.device % 256) ∷ user))
    else if same_bytes j.server messenger_server
    then (do
      user ← write_string j.user
      server ← write_string j.server
      ok (fb_jid ∷ (user ++ (push_u16_be j.device ++ server))))
    else if same_bytes j.server interop_server
    then (do
      user ← write_string j.user
      server ← write_string j.server
      ok (interop_jid ∷ (user ++ (push_u16_be j.device ++ (push_u16_be j.integrator ++ server)))))
    else (do
      user ← write_user j.user
      server ← write_string j.server
      ok (jid_pair ∷ (user ++ server)))

-- `val is None or val == ""`
abbrev pub is_skipped : Value → Bool
is_skipped null = true
is_skipped (text []) = true
is_skipped _ = false

unfoldable pub count_attrs : Attrs → ℕ
count_attrs no_attrs = 0
count_attrs (attr k v attrs) = (if is_skipped v then 0 else 1) + count_attrs attrs

abbrev pub has_content : Value → ℕ
has_content null = 0
has_content _ = 1

unfoldable pub count_nodes : Nodes → ℕ
count_nodes nil = 0
count_nodes (cons n ns) = suc (count_nodes ns)

-- The content after the attributes: nothing if it is None.
abbrev pub if_content : Value → Outcome Bytes → Outcome Bytes
if_content null written = ok []
if_content _ written = written

unfoldable mutual
  unfolding write_string write_jid write_bytes count_nodes count_attrs

  pub write_node : Node → Outcome Bytes
  write_node (node tag attrs content) =
      let attrs_written = write_attrs attrs in
      let content_written = write_any content in
      if same_bytes tag (codes "0") then ok (list_8 ∷ list_empty ∷ []) else (do
        name ← write_string tag
        pairs ← attrs_written
        body ← if_content content content_written
        ok (
            write_list_start (2 * count_attrs attrs + 1 + has_content content)
            ++ (name ++ (pairs ++ body))))

  pub write_attrs : Attrs → Outcome Bytes
  write_attrs no_attrs = ok []
  write_attrs (attr k v attrs) =
      let value_written = write_any v in
      let rest_written = write_attrs attrs in
      if is_skipped v then rest_written else (do
        key ← write_string k
        value ← value_written
        rest ← rest_written
        ok (key ++ (value ++ rest)))

  pub write_any : Value → Outcome Bytes
  write_any null = ok (list_empty ∷ [])
  write_any (jid j) = write_jid j
  write_any (text s) = write_string s
  write_any (flag true) = write_string (codes "true")
  write_any (flag false) = write_string (codes "false")
  write_any (number n) = write_string (decimal n)
  write_any (blob bytes) = write_bytes bytes
  write_any (children ns) = do
    written ← write_nodes ns
    ok (write_list_start (count_nodes ns) ++ written)

  pub write_nodes : Nodes → Outcome Bytes
  write_nodes nil = ok []
  write_nodes (cons n ns) = do first ← write_node n; rest ← write_nodes ns; ok (first ++ rest)

unfoldable pub encode_node : Node → Outcome Bytes
encode_node n = do written ← write_node n; ok (0 ∷ written)

unfoldable pub encode_bytes : Bytes → Outcome Bytes
encode_bytes bytes = do written ← write_bytes bytes; ok (0 ∷ written)
