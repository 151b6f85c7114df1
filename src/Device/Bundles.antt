-- ===== src/Device/Bundles.antt =====
-- The keys that wa/prekeys.py uploads, as wa/cli.py reads them for another device.
use whatsapp_cli.Common.{
  ℕ, ◌^◌, ◌<◌, ◌≡◌, refl, ap, Bool, true, false, Option, none, some, List, [], ◌∷◌, arith,
}
use whatsapp_cli.Common.Tests.{◌==◌, lt→ltb}
use whatsapp_cli.Common.Lists.{is_empty, length, drop, All}
use whatsapp_cli.Common.Outcome.{ok}
use whatsapp_cli.Common.Utf8.{Bytes, Str, codes, same_bytes}
use whatsapp_cli.WaBinary.Decoder.{from_big}
use whatsapp_cli.WaBinary.Node.{
  text, Node, node, no_attrs, attr, blob, children, Nodes, nil, cons, get_children, find_child,
  get_child_by_tag,
}
use whatsapp_cli.Noise.Symmetric.{pack_u32}
use whatsapp_cli.Device.State.{OneTimePrekey, SignedPreKey}
use whatsapp_cli.Device.Prekeys.{
  server_jid, pack_checked, unpack_u32, key_id_24bit, plain, key_nodes, skey_node, build_upload_iq,
  record_of, key_node_to_record, PreKeyBundle, parse_prekey_user_node,
}

pub unpack_u32-pack_u32 : (n : ℕ) → n < 2 ^ 32 → unpack_u32 (pack_u32 n) ≡ ok n
unfolding unpack_u32 pack_u32 from_big
unpack_u32-pack_u32 n h = ap (λ (k : ℕ). ok k) (omega arith)

-- A key id below 2 ^ 24 takes three bytes, and is read back with a zero before them.
pub unpack_u32-key_id : (n : ℕ) → n < 2 ^ 24 → unpack_u32 (0 ∷ drop 1 (pack_u32 n)) ≡ ok n
unfolding unpack_u32 pack_u32 from_big
unpack_u32-key_id n h = ap (λ (k : ℕ). ok k) (omega arith)

pub key_id_24bit_ok : (n : ℕ) → n < 2 ^ 24 → key_id_24bit n ≡ ok (drop 1 (pack_u32 n))
unfolding key_id_24bit pack_checked
key_id_24bit_ok n h = rw (lt→ltb n (2 ^ 32) (omega arith)) refl

pub pack_checked_ok : (n : ℕ) → n < 2 ^ 32 → pack_checked n ≡ ok (pack_u32 n)
unfolding pack_checked
pack_checked_ok n h = rw (lt→ltb n (2 ^ 32) h) refl

-- What a key that is uploaded satisfies.
abbrev pub IsUploadable : OneTimePrekey → Type 0
IsUploadable k = (k.key_id < 2 ^ 24) × (is_empty k.pub_key ≡ false)

abbrev key_node : OneTimePrekey → Node
key_node k = plain (codes "key") (
    children (
      cons (plain (codes "id") (blob (drop 1 (pack_u32 k.key_id))))
        (cons (plain (codes "value") (blob k.pub_key)) nil)))

key_nodes_ok :
    (k : OneTimePrekey) (ks : List OneTimePrekey)
    → All IsUploadable (k ∷ ks)
    → (ns : Nodes) × (key_nodes (k ∷ ks) ≡ ok (cons (key_node k) ns))
unfolding key_nodes
key_nodes_ok k [] ((h, full), rest) = (nil, rw (key_id_24bit_ok k.key_id h) refl)
key_nodes_ok k (k' ∷ ks) ((h, full), rest) =
    let (ns, e) = key_nodes_ok k' ks rest in
    (cons (key_node k') ns, rw (key_id_24bit_ok k.key_id h, e) refl)

-- How a server serves an upload to another device: the registration, the identity, the signed key and
-- the first of the list, below `<user>`, and there below `<keys>` or not.
abbrev pub served_keys : Bool → Node → Node → Node → Node → Node
served_keys true registration identity skey key = plain (codes "user") (
    children (
      cons registration
        (cons identity (cons (plain (codes "keys") (children (cons skey (cons key nil)))) nil))))
served_keys false registration identity skey key =
    plain (codes "user") (children (cons registration (cons identity (cons skey (cons key nil)))))

unfoldable pub served : Bool → Node → Option Node
served wrapped iq = elim (get_child_by_tag iq (codes "registration" ∷ [])) [
  | none ↦ none
  | some registration ↦ elim (get_child_by_tag iq (codes "identity" ∷ [])) [
    | none ↦ none
    | some identity ↦ elim (get_child_by_tag iq (codes "skey" ∷ [])) [
      | none ↦ none
      | some skey ↦ elim (get_child_by_tag iq (codes "list" ∷ codes "key" ∷ [])) [
        | none ↦ none
        | some key ↦ some (served_keys wrapped registration identity skey key)
      ]
    ]
  ]
]

abbrev skey : SignedPreKey → Node
skey k = plain (codes "skey") (
    children (
      cons (plain (codes "id") (blob (drop 1 (pack_u32 k.key_id)))) (
        cons (plain (codes "value") (blob k.pub_key))
          (cons (plain (codes "signature") (blob k.signature)) nil))))

skey_node_ok : (k : SignedPreKey) → k.key_id < 2 ^ 24 → skey_node k ≡ ok (skey k)
unfolding skey_node
skey_node_ok k h = rw (key_id_24bit_ok k.key_id h) refl

key_id_there : (n : ℕ) → is_empty (drop 1 (pack_u32 n)) ≡ false
unfolding pack_u32
key_id_there n = refl

key_record :
    (k : OneTimePrekey)
    → IsUploadable k
    → key_node_to_record (some (key_node k))
      ≡ ok (some (record { record_id = k.key_id; record_pub = k.pub_key; record_sig = none }))
unfolding key_node_to_record record_of get_child_by_tag get_children find_child same_bytes
key_record k (h, full) = rw (full, key_id_there k.key_id, unpack_u32-key_id k.key_id h) refl

skey_record :
    (k : SignedPreKey)
    → k.key_id < 2 ^ 24
    → is_empty k.pub_key ≡ false
    → key_node_to_record (some (skey k))
      ≡ ok (
          some (record {
            record_id = k.key_id;
            record_pub = k.pub_key;
            record_sig = some k.signature;
          }))
unfolding key_node_to_record record_of get_child_by_tag get_children find_child same_bytes
skey_record k h full = rw (full, key_id_there k.key_id, unpack_u32-key_id k.key_id h) refl

abbrev bundle_of : ℕ → Bytes → OneTimePrekey → SignedPreKey → PreKeyBundle
bundle_of registration_id identity k spk = record {
  registration_id = registration_id;
  identity_key_pub = identity;
  signed_pre_key_id = spk.key_id;
  signed_pre_key_pub = spk.pub_key;
  signed_pre_key_signature = spk.signature;
  pre_key = some (k.key_id, k.pub_key);
}

abbrev user_of : Bool → Bytes → Bytes → OneTimePrekey → SignedPreKey → Node
user_of wrapped registration identity k spk =
    served_keys wrapped (plain (codes "registration") (blob registration))
      (plain (codes "identity") (blob identity)) (skey spk) (key_node k)

four_bytes : (b0 b1 b2 b3 : ℕ) → (length (b0 ∷ b1 ∷ b2 ∷ b3 ∷ []) == 4) ≡ true
four_bytes b0 b1 b2 b3 = ground arith

parsed :
    (wrapped : Bool) (b0 b1 b2 b3 registration_id : ℕ) (identity : Bytes) (k : OneTimePrekey)
    (spk : SignedPreKey)
    → unpack_u32 (b0 ∷ b1 ∷ b2 ∷ b3 ∷ []) ≡ ok registration_id
    → (length identity == 32) ≡ true
    → IsUploadable k
    → spk.key_id < 2 ^ 24
    → is_empty spk.pub_key ≡ false
    → parse_prekey_user_node (user_of wrapped (b0 ∷ b1 ∷ b2 ∷ b3 ∷ []) identity k spk)
      ≡ ok (bundle_of registration_id identity k spk)
unfolding parse_prekey_user_node get_child_by_tag get_children find_child same_bytes
parsed true b0 b1 b2 b3 registration_id identity k spk hr hi hk hs full =
    ground (arith, four_bytes b0 b1 b2 b3, hr, hi, skey_record spk hs full, key_record k hk)
parsed false b0 b1 b2 b3 registration_id identity k spk hr hi hk hs full =
    ground (arith, four_bytes b0 b1 b2 b3, hr, hi, skey_record spk hs full, key_record k hk)

abbrev upload_of : Str → ℕ → Bytes → Nodes → SignedPreKey → Node
upload_of iq_id registration_id identity keys spk =
    node (codes "iq")
      (attr (codes "to") server_jid (
        attr (codes "type") (text (codes "set")) (
          attr (codes "id") (text iq_id) (attr (codes "xmlns") (text (codes "encrypt")) no_attrs))))
      (children (
        cons (plain (codes "registration") (blob (pack_u32 registration_id))) (
          cons (plain (codes "type") (blob (5 ∷ []))) (
            cons (plain (codes "identity") (blob identity))
              (cons (plain (codes "list") (children keys)) (cons (skey spk) nil))))))

built :
    (iq_id : Str) (registration_id : ℕ) (identity : Bytes) (ks : List OneTimePrekey) (ns : Nodes)
    (spk : SignedPreKey)
    → registration_id < 2 ^ 32
    → key_nodes ks ≡ ok ns
    → spk.key_id < 2 ^ 24
    → build_upload_iq iq_id registration_id identity ks spk
      ≡ ok (upload_of iq_id registration_id identity ns spk)
unfolding build_upload_iq
built iq_id registration_id identity ks ns spk hr e hs =
    rw (e, skey_node_ok spk hs, pack_checked_ok registration_id hr) refl

parsed_registration :
    (wrapped : Bool) (registration_id : ℕ) (identity : Bytes) (k : OneTimePrekey)
    (spk : SignedPreKey)
    → registration_id < 2 ^ 32
    → (length identity == 32) ≡ true
    → IsUploadable k
    → spk.key_id < 2 ^ 24
    → is_empty spk.pub_key ≡ false
    → parse_prekey_user_node (user_of wrapped (pack_u32 registration_id) identity k spk)
      ≡ ok (bundle_of registration_id identity k spk)
unfolding pack_u32
parsed_registration wrapped registration_id identity k spk hr =
    parsed wrapped _ _ _ _ registration_id identity k spk (unpack_u32-pack_u32 registration_id hr)

-- Keys that were uploaded, a first one and more, are read back by another device to which the server
-- serves them, below `<keys>` or not: the registration id, the identity, the signed key with its
-- signature and the first of the one-time keys, if the ids of the keys are below 2 ^ 24 and that of the
-- registration below 2 ^ 32, the identity has 32 bytes and no key is empty.
pub parse_prekey_user_node-build_upload_iq :
    (wrapped : Bool) (iq_id : Str) (registration_id : ℕ) (identity : Bytes) (k : OneTimePrekey)
    (ks : List OneTimePrekey) (spk : SignedPreKey)
    → registration_id < 2 ^ 32
    → length identity ≡ 32
    → All IsUploadable (k ∷ ks)
    → spk.key_id < 2 ^ 24
    → is_empty spk.pub_key ≡ false
    → (iq : Node) × (user : Node) × ((build_upload_iq iq_id registration_id identity (k ∷ ks) spk
          ≡ ok iq)
        × ((served wrapped iq ≡ some user)
            × (parse_prekey_user_node user
                ≡ ok (record {
                  registration_id = registration_id;
                  identity_key_pub = identity;
                  signed_pre_key_id = spk.key_id;
                  signed_pre_key_pub = spk.pub_key;
                  signed_pre_key_signature = spk.signature;
                  pre_key = some (k.key_id, k.pub_key);
                }))))
unfolding served get_child_by_tag get_children find_child same_bytes
parse_prekey_user_node-build_upload_iq wrapped iq_id registration_id identity k ks spk hr hi hks hs
      full =
    let (ns, e) = key_nodes_ok k ks hks in
    (
      upload_of iq_id registration_id identity (cons (key_node k) ns) spk,
      user_of wrapped (pack_u32 registration_id) identity k spk,
      (
        built iq_id registration_id identity (k ∷ ks) (cons (key_node k) ns) spk hr e hs,
        (
          refl,
          parsed_registration wrapped registration_id identity k spk hr (ground (arith, hi)) hks.0
              hs full,
        ),
      ),
    )
