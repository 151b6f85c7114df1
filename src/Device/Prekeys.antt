-- ===== src/Device/Prekeys.antt =====
-- wa/prekeys.py, and `_parse_prekey_user_node` of wa/cli.py, which reads the bundle of another device.
use whatsapp_cli.Common.{ℕ, zero, suc, ◌+◌, ◌^◌, ◌||◌, Option, none, some, List, [], ◌∷◌}
use whatsapp_cli.Common.Tests.{◌==◌, ltb, if◌then◌else◌}
use whatsapp_cli.Common.Lists.{is_empty, length, drop, replicate}
use whatsapp_cli.Common.Outcome.{
  value_error, struct_error, Outcome, ok, raise, ◌>>=◌, ◌>>◌, require,
}
use whatsapp_cli.Common.Utf8.{Bytes, Str, codes}
use whatsapp_cli.WaBinary.Decoder.{from_big}
use whatsapp_cli.WaBinary.Node.{
  default_user_server, Node, node, no_attrs, attr, Value, null, text, jid, blob, children, Nodes,
  nil, cons, get_child_by_tag,
}
use whatsapp_cli.Noise.Primitives.{Primitives}
use whatsapp_cli.Noise.Symmetric.{pack_u32}
use whatsapp_cli.Device.State.{OneTimePrekey, SignedPreKey}
use whatsapp_cli.Device.Pairing.{bytes_content}

-- `struct.pack(">I", n)` and `struct.unpack(">I", b)[0]`
unfoldable pub pack_checked : ℕ → Outcome Bytes
pack_checked n = if ltb n (2 ^ 32) then ok (pack_u32 n) else raise struct_error

unfoldable pub unpack_u32 : Bytes → Outcome ℕ
unpack_u32 b = if length b == 4 then ok (from_big 0 b) else raise struct_error

unfoldable pub key_id_24bit : ℕ → Outcome Bytes
unfolding pack_checked
key_id_24bit key_id = pack_checked key_id >>= λ b. ok (drop 1 b)

-- The keys from `start_id + i` on; `draw i` are the random bytes of round `i`.
unfoldable pub prekeys_from : Primitives → (ℕ → Bytes) → ℕ → ℕ → ℕ → List OneTimePrekey
prekeys_from p draw start_id i zero = []
prekeys_from p draw start_id i (suc count) =
    record { key_id = start_id + i; priv = draw i; pub_key = p.x25519_public (draw i) }
    ∷ prekeys_from p draw start_id (i + 1) count

unfoldable pub generate_prekey_batch : Primitives → (ℕ → Bytes) → ℕ → ℕ → List OneTimePrekey
unfolding prekeys_from
generate_prekey_batch p draw start_id count = prekeys_from p draw start_id 0 count

-- A node without attributes
abbrev pub plain : Str → Value → Node
plain tag content = node tag no_attrs content

abbrev pub server_jid : Value
server_jid =
    jid (record { user = []; server = default_user_server; agent = 0; device = 0; integrator = 0 })

unfoldable pub key_nodes : List OneTimePrekey → Outcome Nodes
unfolding key_id_24bit
key_nodes [] = ok nil
key_nodes (k ∷ ks) = do
  id ← key_id_24bit k.key_id
  rest ← key_nodes ks
  ok (
      cons
        (plain (codes "key") (
          children (
            cons (plain (codes "id") (blob id))
              (cons (plain (codes "value") (blob k.pub_key)) nil))))
        rest)

unfoldable pub skey_node : SignedPreKey → Outcome Node
unfolding key_id_24bit
skey_node k = do
  id ← key_id_24bit k.key_id
  ok (
      plain (codes "skey") (
        children (
          cons (plain (codes "id") (blob id)) (
            cons (plain (codes "value") (blob k.pub_key))
              (cons (plain (codes "signature") (blob k.signature)) nil)))))

unfoldable pub build_upload_iq : Str → ℕ → Bytes → List OneTimePrekey → SignedPreKey → Outcome Node
unfolding key_nodes skey_node pack_checked
build_upload_iq iq_id registration_id identity_key_pub one_time_prekeys signed_prekey = do
  list_children ← key_nodes one_time_prekeys
  skey ← skey_node signed_prekey
  registration ← pack_checked registration_id
  ok (
      node (codes "iq")
        (attr (codes "to") server_jid (
          attr (codes "type") (text (codes "set")) (
            attr (codes "id") (text iq_id)
              (attr (codes "xmlns") (text (codes "encrypt")) no_attrs))))
        (children (
          cons (plain (codes "registration") (blob registration)) (
            cons (plain (codes "type") (blob (5 ∷ []))) (
              cons (plain (codes "identity") (blob identity_key_pub))
                (cons (plain (codes "list") (children list_children)) (cons skey nil)))))))

unfoldable pub build_get_count_iq : Str → Node
build_get_count_iq iq_id =
    node (codes "iq")
      (attr (codes "to") server_jid (
        attr (codes "type") (text (codes "get")) (
          attr (codes "id") (text iq_id) (attr (codes "xmlns") (text (codes "encrypt")) no_attrs))))
      (children (cons (plain (codes "count") null) nil))

-- The dict of `_key_node_to_record`
pub record KeyRecord : Type 0 where
  pub record_id : ℕ
  pub record_pub : Bytes
  pub record_sig : Option Bytes

-- The bytes of a node's content, and none where it is something else
abbrev pub or_no_bytes : Option Bytes → Bytes
or_no_bytes none = []
or_no_bytes (some b) = b

unfoldable pub record_of : Node → Node → Node → Outcome (Option KeyRecord)
unfolding unpack_u32
record_of child id_node value_node =
    let id_bytes = or_no_bytes (bytes_content (some id_node)) in
    let pub_bytes = or_no_bytes (bytes_content (some value_node)) in
    if is_empty id_bytes || is_empty pub_bytes
    then ok none
    else unpack_u32 (0 ∷ id_bytes) >>= λ key_id. ok (
        some (record {
          record_id = key_id;
          record_pub = pub_bytes;
          record_sig = bytes_content (get_child_by_tag child (codes "signature" ∷ []));
        }))

unfoldable pub key_node_to_record : Option Node → Outcome (Option KeyRecord)
unfolding record_of
key_node_to_record none = ok none
key_node_to_record (some child) = elim (get_child_by_tag child (codes "id" ∷ [])) [
  | none ↦ ok none
  | some id_node ↦ elim (get_child_by_tag child (codes "value" ∷ [])) [
    | none ↦ ok none
    | some value_node ↦ record_of child id_node value_node
  ]
]

pub record PreKeyBundle : Type 0 where
  pub registration_id : ℕ
  pub identity_key_pub : Bytes
  pub signed_pre_key_id : ℕ
  pub signed_pre_key_pub : Bytes
  pub signed_pre_key_signature : Bytes
  pub pre_key : Option (ℕ × Bytes)

-- `_bytes("registration") or b"\x00\x00\x00\x00"`
abbrev pub registration_or_zero : Option Bytes → Bytes
registration_or_zero none = replicate 4 0
registration_or_zero (some []) = replicate 4 0
registration_or_zero (some (b ∷ bs)) = b ∷ bs

-- What must be there, or a ValueError
abbrev pub needed : {A : Type 0} → Option A → Outcome A
needed none = raise value_error
needed (some a) = ok a

abbrev pub pre_key_of : Option KeyRecord → Option (ℕ × Bytes)
pre_key_of none = none
pre_key_of (some k) = some (k.record_id, k.record_pub)

abbrev pub or_node : Option Node → Node → Node
or_node none n = n
or_node (some m) n = m

unfoldable pub parse_prekey_user_node : Node → Outcome PreKeyBundle
unfolding unpack_u32 key_node_to_record
parse_prekey_user_node user_node = do
  let reg_bytes =
      registration_or_zero (bytes_content (get_child_by_tag user_node (codes "registration" ∷ [])))
  require (length reg_bytes == 4) value_error
  registration_id ← unpack_u32 reg_bytes
  identity ← needed (bytes_content (get_child_by_tag user_node (codes "identity" ∷ [])))
  require (length identity == 32) value_error
  let keys_container = or_node (get_child_by_tag user_node (codes "keys" ∷ [])) user_node
  skey_record ← key_node_to_record (get_child_by_tag keys_container (codes "skey" ∷ []))
  skey ← needed skey_record
  sig ← needed skey.record_sig
  opk ← key_node_to_record (get_child_by_tag keys_container (codes "key" ∷ []))
  ok (record {
    registration_id = registration_id;
    identity_key_pub = identity;
    signed_pre_key_id = skey.record_id;
    signed_pre_key_pub = skey.record_pub;
    signed_pre_key_signature = sig;
    pre_key = pre_key_of opk;
  })
