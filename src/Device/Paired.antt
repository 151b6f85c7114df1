-- ===== src/Device/Paired.antt =====
-- What pairing comes to, apart from the code of wa/pair.py: when a stanza brings an authentic identity,
-- and what accepting it makes of the device and of the response.
use whatsapp_cli.Common.{◌≡◌, true, Option, none, some, [], ◌∷◌, ◌++◌}
use whatsapp_cli.Common.Tests.{if◌then◌else◌}
use whatsapp_cli.Common.Outcome.{ok}
use whatsapp_cli.Common.Utf8.{Bytes, Str, codes}
use whatsapp_cli.WaBinary.Encoder.{decimal}
use whatsapp_cli.WaBinary.JidText.{str_jid}
use whatsapp_cli.WaBinary.Node.{
  Node, node, attrs_of, Attrs, no_attrs, attr, Value, text, jid, blob, get_child_by_tag, get_attr,
  attr_or,
}
use whatsapp_cli.Noise.Primitives.{Primitives}
use whatsapp_cli.Device.State.{Device}
use whatsapp_cli.Device.Pairing.{IdentityHmac, SignedIdentity, AdvBindings, Checked}

-- The attribute of the first child with a tag
abbrev pub named : Node → Str → Str → Option Value
named pair_success tag key = elim (get_child_by_tag pair_success (tag ∷ [])) [
  | none ↦ none
  | some child ↦ get_attr key (attrs_of child)
]

-- A JID as its text or a text as it is, and the old text where there is neither
abbrev pub jid_text : Option Value → Str → Str
jid_text none old = old
jid_text (some v) old = elim v [ jid j ↦ str_jid j | text s ↦ s | _ ↦ old ]

abbrev pub plain_text : Option Value → Str → Str
plain_text none old = old
plain_text (some v) old = elim v [ text s ↦ s | _ ↦ old ]

-- The key of the account, which may be absent
abbrev pub account_key : SignedIdentity → Bytes
account_key signed = elim signed.account_signature_key [ none ↦ [] | some key ↦ key ]

module _ (p : Primitives) (adv : AdvBindings) where
  -- The stanza brings an identity that someone made who knows the secret of our QR code, and that
  -- the account key in it has signed together with our identity key.
  pub record Authentic (n : Node) (d : Device) (c : Checked) : Type 0 where
    pub content : Bytes
    pub identity_hmac : IdentityHmac
    pub pair_success_there : get_child_by_tag n (codes "pair-success" ∷ []) ≡ some c.pair_success
    pub identity_tag : Str
    pub identity_attrs : Attrs
    pub identity_there :
        get_child_by_tag c.pair_success (codes "device-identity" ∷ [])
        ≡ some (node identity_tag identity_attrs (blob content))
    pub hmac_parses : adv.parse_hmac content ≡ ok identity_hmac
    pub mac_fits :
        p.hmac_sha256 d.adv_secret
          ((if identity_hmac.is_hosted then 6 ∷ 5 ∷ [] else []) ++ identity_hmac.details)
        ≡ identity_hmac.mac
    pub signed_parses : adv.parse_signed identity_hmac.details ≡ ok c.signed
    pub inner_parses : adv.parse_identity c.signed.details ≡ ok c.inner
    pub account_signed :
        p.xeddsa_verify
          (account_key c.signed)
          ((if c.inner.device_is_hosted then 6 ∷ 5 ∷ [] else 6 ∷ 0 ∷ [])
            ++ c.signed.details
            ++ d.identity_key.public')
          c.signed.account_signature
        ≡ true

  -- What the phone's identity becomes: signed by our identity key, under the prefix of its kind, the
  -- details, our public key and the account key.
  pub record Signed (d : Device) (c : Checked) (full : SignedIdentity) : Type 0 where
    pub details_kept : full.details ≡ c.signed.details
    pub account_kept : full.account_signature_key ≡ c.signed.account_signature_key
    pub account_signature_kept : full.account_signature ≡ c.signed.account_signature
    pub ours :
        full.device_signature
        ≡ some (
            adv.xeddsa_sign d.identity_key.priv (
              (if c.inner.device_is_hosted then 6 ∷ 6 ∷ [] else 6 ∷ 1 ∷ [])
              ++ c.signed.details
              ++ d.identity_key.public'
              ++ account_key c.signed))

  -- What an accepted identity does: the device keeps its keys and has the signed identity and the
  -- names that the stanza brings, and the response carries the identity without the account key.
  pub record Paired (n : Node) (d d' : Device) (c : Checked) (response : Node) : Type 0 where
    pub full : SignedIdentity
    pub signed_by_us : Signed d c full
    pub account_recorded : d'.account ≡ adv.serialize full
    pub jid_recorded :
        d'.own_jid ≡ jid_text (named c.pair_success (codes "device") (codes "jid")) d.own_jid
    pub lid_recorded : d'.lid ≡ jid_text (named c.pair_success (codes "device") (codes "lid")) d.lid
    pub business_recorded :
        d'.business_name
        ≡ plain_text (named c.pair_success (codes "biz") (codes "name")) d.business_name
    pub platform_recorded :
        d'.platform ≡ plain_text (named c.pair_success (codes "platform") (codes "name")) d.platform
    pub rest_kept : d' ≡ record d {
      own_jid = d'.own_jid;
      lid = d'.lid;
      business_name = d'.business_name;
      platform = d'.platform;
      account = d'.account;
    }
    pub to_sender :
        get_attr (codes "to") (attrs_of response)
        ≡ some (attr_or (codes "from") (text (codes "s.whatsapp.net")) n)
    pub same_id :
        get_attr (codes "id") (attrs_of response) ≡ some (attr_or (codes "id") (text []) n)
    pub is_result : get_attr (codes "type") (attrs_of response) ≡ some (text (codes "result"))
    pub carries :
        get_child_by_tag response (codes "pair-device-sign" ∷ codes "device-identity" ∷ [])
        ≡ some (
            node
              (codes "device-identity")
              (attr (codes "key-index") (text (decimal c.inner.key_index)) no_attrs)
              (blob (adv.serialize (record full { account_signature_key = none }))))
