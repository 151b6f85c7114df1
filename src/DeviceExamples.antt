-- ===== src/DeviceExamples.antt =====
-- The theorems on the device, the cache and the text of a JID at concrete inputs.
use whatsapp_cli.Common.{ℕ, ◌≡◌, refl, true, false, none, some, List, [], ◌∷◌, ◌++◌, arith, ◌⊎◌}
use whatsapp_cli.Common.Tests.{ltb}
use whatsapp_cli.Common.Lists.{length, replicate}
use whatsapp_cli.Common.Outcome.{Exc, Outcome, ok, raise}
use whatsapp_cli.Common.Utf8.{Str, codes, same_bytes}
use whatsapp_cli.Common.Dict.{lookup}
use whatsapp_cli.WaBinary.Decimals.{horner}
use whatsapp_cli.WaBinary.JidText.{split_first}
use whatsapp_cli.WaBinary.Node.{Node, node, no_attrs, blob, children, cons, nil}
use whatsapp_cli.Noise.Primitives.{transparent}
use whatsapp_cli.Noise.Handshake.{KeyPair}
use whatsapp_cli.Device.State.{SignedPreKey, OneTimePrekey, Device}
use whatsapp_cli.Device.Pairing.{AdvBindings, Checked, handle_pair_success}
use whatsapp_cli.Device.Paired.{Authentic, Paired}
use whatsapp_cli.Device.PairGuard.{handle_pair_success_guarded}
use whatsapp_cli.Device.Prekeys.{build_upload_iq, parse_prekey_user_node}
use whatsapp_cli.Device.Bundles.{served, parse_prekey_user_node-build_upload_iq}
use whatsapp_cli.Cache.Chats.{canonical_jid, ends_with, local_part, pn_suffix, lid_suffix}
use whatsapp_cli.Cache.Canonical.{canonical_jid_twins}
use whatsapp_cli.Cache.Summary.{
  Upsert, upsert_all, summary, latest_name, newest, summary-upsert_all,
}

abbrev int_of_digits : Str → Outcome ℕ
int_of_digits s = ok (horner 0 s)

abbrev keys : KeyPair
keys = record { priv = 1 ∷ []; public' = 2 ∷ [] }

abbrev signed_key : SignedPreKey
signed_key = record { key_id = 1; priv = 3 ∷ []; pub_key = 4 ∷ []; signature = 5 ∷ [] }

abbrev new_device : Device
new_device = record {
  noise_key = keys;
  identity_key = keys;
  signed_pre_key = signed_key;
  registration_id = 7;
  adv_secret = 9 ∷ [];
  own_jid = [];
  lid = [];
  platform = [];
  business_name = [];
  account = [];
  push_name = [];
  prekeys_uploaded = false;
  next_prekey_id = 2;
  one_time_prekeys = [];
}

-- Bindings that find one identity in all bytes
abbrev bindings : AdvBindings
bindings = record {
  parse_hmac = λ b. ok (record { details = b; mac = 9 ∷ b; is_hosted = false });
  parse_signed = λ b. ok (record {
    details = b;
    account_signature_key = some (6 ∷ []);
    account_signature = [];
    device_signature = none;
  });
  parse_identity = λ b. ok (record { device_is_hosted = false; key_index = 1 });
  serialize = λ s. s.details;
  xeddsa_sign = λ k m. m;
}

abbrev pair_success_iq : Node
pair_success_iq = node (codes "iq") no_attrs (
    children (
      cons
        (node (codes "pair-success") no_attrs
          (children (cons (node (codes "device-identity") no_attrs (blob (8 ∷ []))) nil)))
        nil))

handle_pair_success_guarded_example :
    ((c : Checked) × (Authentic transparent bindings pair_success_iq new_device c
        × ((d' : Device) × (response : Node) × ((handle_pair_success transparent bindings
                  pair_success_iq new_device
                ≡ (d', ok response))
              × Paired transparent bindings pair_success_iq new_device d' c response))))
    ⊎ (((c : Checked) → Authentic transparent bindings pair_success_iq new_device c → ⊥)
        × ((e : Exc) × (handle_pair_success transparent bindings pair_success_iq new_device
              ≡ (new_device, raise e))))
handle_pair_success_guarded_example =
    handle_pair_success_guarded transparent bindings pair_success_iq new_device

abbrev one_time_key : OneTimePrekey
one_time_key = record { key_id = 2; priv = 3 ∷ []; pub_key = 6 ∷ [] }

parse_prekey_user_node-build_upload_iq_example :
    (iq : Node) × (user : Node) × ((build_upload_iq
          (codes "u")
          7
          (replicate 32 1)
          (one_time_key ∷ [])
          signed_key
        ≡ ok iq)
      × ((served true iq ≡ some user)
          × (parse_prekey_user_node user
              ≡ ok (record {
                registration_id = 7;
                identity_key_pub = replicate 32 1;
                signed_pre_key_id = 1;
                signed_pre_key_pub = 4 ∷ [];
                signed_pre_key_signature = 5 ∷ [];
                pre_key = some (2, 6 ∷ []);
              }))))
parse_prekey_user_node-build_upload_iq_example =
    parse_prekey_user_node-build_upload_iq true (codes "u") 7 (replicate 32 1) one_time_key []
      signed_key (omega arith) (omega arith) ((omega arith, refl), tt) (omega arith) refl

abbrev number_jid : Str
number_jid = codes "336@s.whatsapp.net"

number_ends : ends_with pn_suffix number_jid ≡ true
unfolding ends_with same_bytes
number_ends = refl

short_local : ltb 13 (length (local_part number_jid)) ≡ false
unfolding local_part split_first
short_local = refl

lid_known : lookup number_jid ((number_jid, codes "1000") ∷ []) ≡ some (codes "1000")
unfolding lookup same_bytes
lid_known = refl

canonical_jid_twins_example :
    canonical_jid (λ c. true) ((number_jid, codes "1000") ∷ []) number_jid
    ≡ canonical_jid (λ c. true) ((number_jid, codes "1000") ∷ []) (codes "1000" ++ lid_suffix)
canonical_jid_twins_example =
    canonical_jid_twins (λ c. true) ((number_jid, codes "1000") ∷ []) number_jid (codes "1000")
      number_ends short_local lid_known refl

abbrev upserts : List Upsert
upserts =
    record { chat = codes "a"; chat_name = codes "Ann"; seen = 9 }
    ∷ record { chat = codes "a"; chat_name = []; seen = 4 }
    ∷ []

summary-upsert_all_example :
    summary (codes "a") (upsert_all upserts [])
    ≡ (latest_name (codes "a") upserts [], newest (codes "a") upserts 0)
unfolding lookup
summary-upsert_all_example = summary-upsert_all upserts [] (codes "a")
