-- ===== src/Device/Pairing.antt =====
-- wa/pair.py: the answers to `pair-device` and `pair-success`. The protobuf messages are those of the
-- generated bindings: parsing and serializing them are arguments, as is the signature.
use whatsapp_cli.Common.{ℕ, Bool, true, Option, none, some, List, [], ◌∷◌, ◌++◌}
use whatsapp_cli.Common.Tests.{if◌then◌else◌}
use whatsapp_cli.Common.Outcome.{
  pair_error, unicode_error, Outcome, ok, raise, ◌>>=◌, ◌>>◌, require,
}
use whatsapp_cli.Common.Utf8.{Bytes, Str, codes, utf8_decode, same_bytes}
use whatsapp_cli.WaBinary.Encoder.{decimal}
use whatsapp_cli.WaBinary.JidText.{str_jid}
use whatsapp_cli.WaBinary.Node.{
  Node, node, attrs_of, no_attrs, attr, Value, null, text, jid, blob, children, Nodes, nil, cons,
  get_children, get_child_by_tag, get_attr, attr_or,
}
use whatsapp_cli.Noise.Primitives.{Primitives}
use whatsapp_cli.Device.State.{Device}

abbrev pub content_of : Node → Value
content_of (node tag attrs content) = content

-- The refs of the children, in order.
unfoldable pub refs_of : Nodes → Outcome (List Str)
refs_of nil = ok []
refs_of (cons (node tag attrs content) rest) =
    let refs = refs_of rest in
    if same_bytes tag (codes "ref")
    then elim content [
      | blob bytes ↦ elim (utf8_decode bytes) [
        | none ↦ raise unicode_error
        | some s ↦ (refs >>= λ rs. ok (s ∷ rs))
      ]
      | text s ↦ (refs >>= λ rs. ok (s ∷ rs))
      | _ ↦ refs
    ]
    else refs

unfoldable pub extract_pair_refs : Node → Outcome (List Str)
unfolding refs_of
extract_pair_refs n = elim (get_child_by_tag n (codes "pair-device" ∷ [])) [
  | none ↦ ok []
  | some pair_device ↦ refs_of (get_children pair_device)
]

unfoldable pub build_pair_device_ack : Node → Node
build_pair_device_ack n =
    node (codes "iq")
      (attr (codes "to") (attr_or (codes "from") (text (codes "s.whatsapp.net")) n) (
        attr (codes "id") (attr_or (codes "id") (text []) n)
          (attr (codes "type") (text (codes "result")) no_attrs)))
      null

-- ADVSignedDeviceIdentityHMAC, ADVSignedDeviceIdentity and ADVDeviceIdentity; a type is HOSTED or
-- not, and a key or a signature may be absent.
pub record IdentityHmac : Type 0 where
  pub details : Bytes
  pub mac : Bytes
  pub is_hosted : Bool

pub record SignedIdentity : Type 0 where
  pub details : Bytes
  pub account_signature_key : Option Bytes
  pub account_signature : Bytes
  pub device_signature : Option Bytes

pub record DeviceIdentity : Type 0 where
  pub device_is_hosted : Bool
  pub key_index : ℕ

pub record AdvBindings : Type 0 where
  pub parse_hmac : Bytes → Outcome IdentityHmac
  pub parse_signed : Bytes → Outcome SignedIdentity
  pub parse_identity : Bytes → Outcome DeviceIdentity
  pub serialize : SignedIdentity → Bytes
  pub xeddsa_sign : Bytes → Bytes → Bytes

abbrev pub bytes_of : Option Bytes → Bytes
bytes_of none = []
bytes_of (some b) = b

abbrev pub account_prefix : Bool → Bytes
account_prefix hosted = if hosted then 6 ∷ 5 ∷ [] else 6 ∷ 0 ∷ []

abbrev pub device_prefix : Bool → Bytes
device_prefix hosted = if hosted then 6 ∷ 6 ∷ [] else 6 ∷ 1 ∷ []

-- What is found, or a PairError
abbrev pub found : {A : Type 0} → Option A → Outcome A
found none = raise pair_error
found (some a) = ok a

-- The content of a node, if it is bytes
abbrev pub bytes_content : Option Node → Option Bytes
bytes_content (some (node tag attrs (blob b))) = some b
bytes_content _ = none

-- `isinstance(value, JID)` and `isinstance(value, str)` set the field.
abbrev pub jid_or_text : Option Value → Str → Str
jid_or_text (some (jid j)) old = str_jid j
jid_or_text (some (text s)) old = s
jid_or_text _ old = old

abbrev pub text_or : Option Value → Str → Str
text_or (some (text s)) old = s
text_or _ old = old

-- An attribute of the child, if there is a child that has it
unfoldable pub child_attr : Str → Str → Node → Option Value
child_attr tag key n = elim (get_child_by_tag n (tag ∷ [])) [
  | none ↦ none
  | some child ↦ get_attr key (attrs_of child)
]

-- Step 4, on the `<pair-success>` node
unfoldable pub record_names : Node → Device → Device
unfolding child_attr
record_names pair_success d = record d {
  own_jid = jid_or_text (child_attr (codes "device") (codes "jid") pair_success) d.own_jid;
  lid = jid_or_text (child_attr (codes "device") (codes "lid") pair_success) d.lid;
  business_name = text_or (child_attr (codes "biz") (codes "name") pair_success) d.business_name;
  platform = text_or (child_attr (codes "platform") (codes "name") pair_success) d.platform;
}

-- The response, for the index of the key and the identity to send
unfoldable pub pair_response : Node → ℕ → Bytes → Node
pair_response n key_index send_bytes =
    node (codes "iq")
      (attr (codes "to") (attr_or (codes "from") (text (codes "s.whatsapp.net")) n) (
        attr (codes "type") (text (codes "result"))
          (attr (codes "id") (attr_or (codes "id") (text []) n) no_attrs)))
      (children (
        cons
          (node (codes "pair-device-sign") no_attrs (
            children (
              cons
                (node (codes "device-identity")
                  (attr (codes "key-index") (text (decimal key_index)) no_attrs) (blob send_bytes))
                nil)))
          nil))

-- What the checks leave: the `<pair-success>` node and the identity.
pub record Checked : Type 0 where
  pub pair_success : Node
  pub signed : SignedIdentity
  pub inner : DeviceIdentity

module _ (p : Primitives) (adv : AdvBindings) where
  open p use {hmac_sha256, xeddsa_verify}
  open adv use {parse_hmac, parse_signed, parse_identity, serialize, xeddsa_sign}

  unfoldable pub account_message : Device → SignedIdentity → DeviceIdentity → Bytes
  account_message d signed inner =
      account_prefix inner.device_is_hosted ++ signed.details ++ d.identity_key.public'

  -- Steps 1 and 2 of `handle_pair_success`, which may raise
  unfoldable pub check_identity : Node → Device → Outcome Checked
  unfolding account_message
  check_identity n d = do
    pair_success ← found (get_child_by_tag n (codes "pair-success" ∷ []))
    content ← found (bytes_content (get_child_by_tag pair_success (codes "device-identity" ∷ [])))
    identity_hmac ← parse_hmac content
    let prefix = if identity_hmac.is_hosted then account_prefix true else []
    require
        (same_bytes (hmac_sha256 d.adv_secret (prefix ++ identity_hmac.details)) identity_hmac.mac)
        pair_error
    signed ← parse_signed identity_hmac.details
    inner ← parse_identity signed.details
    require
        (xeddsa_verify (bytes_of signed.account_signature_key) (account_message d signed inner)
          signed.account_signature)
        pair_error
    ok (record { pair_success = pair_success; signed = signed; inner = inner })

  -- Step 3: our own signature
  unfoldable pub sign_identity : Device → SignedIdentity → DeviceIdentity → SignedIdentity
  sign_identity d signed inner =
      let message =
        device_prefix inner.device_is_hosted
        ++ signed.details
        ++ d.identity_key.public'
        ++ bytes_of signed.account_signature_key in
      record signed { device_signature = some (xeddsa_sign d.identity_key.priv message) }

  -- Steps 3 to 5 on a checked identity
  unfoldable pub accept_identity : Node → Device → Checked → Device × Outcome Node
  unfolding record_names sign_identity pair_response
  accept_identity n d c =
      let signed = sign_identity d c.signed c.inner in
      (
        record (record_names c.pair_success d) { account = serialize signed },
        ok (
            pair_response n c.inner.key_index
              (serialize (record signed { account_signature_key = none }))),
      )

  abbrev pub or_raise : Node → Device → Outcome Checked → Device × Outcome Node
  or_raise n d (raise e) = (d, raise e)
  or_raise n d (ok c) = accept_identity n d c

  -- The device, which the code changes in place, and the response or the exception
  unfoldable pub handle_pair_success : Node → Device → Device × Outcome Node
  unfolding check_identity accept_identity
  handle_pair_success n d = or_raise n d (check_identity n d)
