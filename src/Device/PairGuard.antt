-- ===== src/Device/PairGuard.antt =====
-- When `handle_pair_success` of wa/pair.py changes the device.
use whatsapp_cli.Common.{
  subst, ◌≡◌, refl, sym, ap, ◌⊎◌, inl, inr, ◌∙◌, Bool, true, false, Option, none, some, [], ◌∷◌,
  ◌++◌,
}
use whatsapp_cli.Common.Tests.{if◌then◌else◌}
use whatsapp_cli.Common.Outcome.{
  Exc, pair_error, Outcome, ok, raise, ◌>>◌, require, returned_then, Outcome-cases,
}
use whatsapp_cli.Common.Utf8.{Bytes, Str, codes, same_bytes, same_bytes_iff}
use whatsapp_cli.WaBinary.Node.{
  Node, node, Attrs, Value, null, text, number, flag, jid, blob, children, get_child_by_tag,
  find_child, get_attr,
}
use whatsapp_cli.Noise.Primitives.{Primitives}
use whatsapp_cli.Device.State.{Device}
use whatsapp_cli.Device.Pairing.{
  SignedIdentity, AdvBindings, jid_or_text, text_or, child_attr, record_names, sign_identity,
  pair_response, bytes_of, found, bytes_content, Checked, account_message, check_identity,
  accept_identity, handle_pair_success,
}
use whatsapp_cli.Device.Paired.{jid_text, plain_text, named, account_key, Authentic, Paired}

required : (test : Bool) (e : Exc) {u : Unit {0}} → require test e ≡ ok u → test ≡ true
required true e h = refl
required false e h = absurd (cc h)

found-some : {A : Type 0} (o : Option A) {a : A} → found o ≡ ok a → o ≡ some a
found-some none h = absurd (cc h)
found-some (some b) h = cc h

ok_inj : {A : Type 0} {a b : A} → ◌≡◌ {A = Outcome A} (ok a) (ok b) → a ≡ b
ok_inj h = cc h

-- The rest after a test that was passed
pub passed :
    {B : Type 0} (test : Bool) (e : Exc) (rest : Outcome B) {b : B}
    → (require test e >> rest) ≡ ok b
    → (test ≡ true) × (rest ≡ ok b)
passed true e rest h = (refl, h)
passed false e rest h = absurd (cc h)

jid_or_text_lem : (o : Option Value) (old : Str) → jid_or_text o old ≡ jid_text o old
jid_or_text_lem none old = refl
jid_or_text_lem (some null) old = refl
jid_or_text_lem (some (text s)) old = refl
jid_or_text_lem (some (number n)) old = refl
jid_or_text_lem (some (flag b)) old = refl
jid_or_text_lem (some (jid j)) old = refl
jid_or_text_lem (some (blob b)) old = refl
jid_or_text_lem (some (children ns)) old = refl

text_or_lem : (o : Option Value) (old : Str) → text_or o old ≡ plain_text o old
text_or_lem none old = refl
text_or_lem (some null) old = refl
text_or_lem (some (text s)) old = refl
text_or_lem (some (number n)) old = refl
text_or_lem (some (flag b)) old = refl
text_or_lem (some (jid j)) old = refl
text_or_lem (some (blob b)) old = refl
text_or_lem (some (children ns)) old = refl

bytes_of_lem :
    (signed : SignedIdentity) → bytes_of signed.account_signature_key ≡ account_key signed
bytes_of_lem signed = by_key signed.account_signature_key
  where
    by_key : (o : Option Bytes) → bytes_of o ≡ (elim o [ none ↦ [] | some key ↦ key ])
    by_key none = refl
    by_key (some key) = refl

bytes_content-some :
    (o : Option Node) (content : Bytes)
    → bytes_content o ≡ some content
    → (tag : Str) × (attrs : Attrs) × (o ≡ some (node tag attrs (blob content)))
bytes_content-some none content h = absurd (cc h)
bytes_content-some (some (node tag attrs null)) content h = absurd (cc h)
bytes_content-some (some (node tag attrs (text s))) content h = absurd (cc h)
bytes_content-some (some (node tag attrs (number n))) content h = absurd (cc h)
bytes_content-some (some (node tag attrs (flag b))) content h = absurd (cc h)
bytes_content-some (some (node tag attrs (jid j))) content h = absurd (cc h)
bytes_content-some (some (node tag attrs (children ns))) content h = absurd (cc h)
bytes_content-some (some (node tag attrs (blob b))) content h = (tag, attrs, cc h)

module _ (p : Primitives) (adv : AdvBindings) where
  accepted-Paired :
      (n : Node) (d : Device) (c : Checked)
      → (d' : Device) × (response : Node) × ((accept_identity p adv n d c ≡ (d', ok response))
          × Paired p adv n d d' c response)
  unfolding accept_identity record_names sign_identity pair_response child_attr get_attr same_bytes
      get_child_by_tag find_child
  accepted-Paired n d c = (
    _,
    _,
    (
      refl,
      record {
        full = sign_identity p adv d c.signed c.inner;
        signed_by_us = record {
          details_kept = refl;
          account_kept = refl;
          account_signature_kept = refl;
          ours =
              ap
                (λ (key : Bytes). some (
                  adv.xeddsa_sign d.identity_key.priv (
                    (if c.inner.device_is_hosted then 6 ∷ 6 ∷ [] else 6 ∷ 1 ∷ [])
                    ++ c.signed.details
                    ++ d.identity_key.public'
                    ++ key)))
                (bytes_of_lem c.signed);
        };
        account_recorded = refl;
        jid_recorded =
            jid_or_text_lem (named c.pair_success (codes "device") (codes "jid")) d.own_jid;
        lid_recorded = jid_or_text_lem (named c.pair_success (codes "device") (codes "lid")) d.lid;
        business_recorded =
            text_or_lem (named c.pair_success (codes "biz") (codes "name")) d.business_name;
        platform_recorded =
            text_or_lem (named c.pair_success (codes "platform") (codes "name")) d.platform;
        rest_kept = refl;
        to_sender = refl;
        same_id = refl;
        is_result = refl;
        carries = refl;
      },
    ),
  )

  checked-Authentic :
      (n : Node) (d : Device) (c : Checked)
      → check_identity p adv n d ≡ ok c
      → Authentic p adv n d c
  unfolding check_identity account_message
  checked-Authentic n d c h =
      let (pair_success, (e1, h1)) =
        returned_then (found (get_child_by_tag n (codes "pair-success" ∷ []))) _ h in
      let (content, (e2, h2)) =
        returned_then
          (found (bytes_content (get_child_by_tag pair_success (codes "device-identity" ∷ [])))) _
          h1 in
      let (tag, attrs, there) = bytes_content-some _ content (found-some _ e2) in
      let (m, (e3, h3)) = returned_then (adv.parse_hmac content) _ h2 in
      let (e4, h4) = passed _ _ _ h3 in
      let (signed, (e5, h5)) = returned_then (adv.parse_signed m.details) _ h4 in
      let (inner, (e6, h6)) = returned_then (adv.parse_identity signed.details) _ h5 in
      let (e7, h7) =
        passed
          (p.xeddsa_verify (bytes_of signed.account_signature_key)
            (account_message p adv d signed inner) signed.account_signature)
          pair_error _ h6 in
      subst (Authentic p adv n d) (ok_inj h7) (record {
        content = content;
        identity_hmac = m;
        pair_success_there = found-some _ e1;
        identity_tag = tag;
        identity_attrs = attrs;
        identity_there = there;
        hmac_parses = e3;
        mac_fits = (same_bytes_iff _ _).0 e4;
        signed_parses = e5;
        inner_parses = e6;
        account_signed =
            ap
              (λ (key : Bytes).
                p.xeddsa_verify key (account_message p adv d signed inner) signed.account_signature)
              (sym (bytes_of_lem signed))
            ∙ e7;
      })

  Authentic-checked :
      (n : Node) (d : Device) (c : Checked)
      → Authentic p adv n d c
      → check_identity p adv n d ≡ ok c
  unfolding check_identity account_message
  Authentic-checked n d c a =
      let fits = (same_bytes_iff _ _).1 a.mac_fits in
      rw
        (
          a.pair_success_there,
          a.identity_there,
          a.hmac_parses,
          fits,
          a.signed_parses,
          a.inner_parses,
          bytes_of_lem c.signed,
          a.account_signed,
        )
        refl

  refused :
      (n : Node) (d : Device) (e : Exc)
      → check_identity p adv n d ≡ raise e
      → handle_pair_success p adv n d ≡ (d, raise e)
  unfolding handle_pair_success
  refused n d e h = rw (h) refl

  accepted :
      (n : Node) (d : Device) (c : Checked)
      → check_identity p adv n d ≡ ok c
      → handle_pair_success p adv n d ≡ accept_identity p adv n d c
  unfolding handle_pair_success
  accepted n d c h = rw (h) refl

  never-Authentic :
      (n : Node) (d : Device) (e : Exc)
      → check_identity p adv n d ≡ raise e
      → (c : Checked) → Authentic p adv n d c
      → ⊥
  never-Authentic n d e h c a = absurd (cc (h, Authentic-checked n d c a))

  -- Either the stanza brings an authentic identity, and `handle_pair_success` signs it with our
  -- identity key, records it and the names that the stanza brings in the device, and nothing else,
  -- and responds to the sender with the index of the key and the identity without its account key;
  -- or it brings none, whatever is missing or does not fit, and then it raises and leaves the
  -- device as it was.
  pub handle_pair_success_guarded :
      (n : Node) (d : Device)
      → ((c : Checked) × (Authentic p adv n d c
            × ((d' : Device) × (response : Node) × ((handle_pair_success p adv n d
                    ≡ (d', ok response))
                  × Paired p adv n d d' c response))))
        ⊎ (((c : Checked) → Authentic p adv n d c → ⊥)
            × ((e : Exc) × (handle_pair_success p adv n d ≡ (d, raise e))))
  handle_pair_success_guarded n d = elim (Outcome-cases (check_identity p adv n d)) [
    | inl (e, h) ↦ inr (never-Authentic n d e h, (e, refused n d e h))
    | inr (c, h) ↦
        let (d', response, (e, paired)) = accepted-Paired n d c in
        inl (c, (checked-Authentic n d c h, (d', response, (accepted n d c h ∙ e, paired))))
  ]
