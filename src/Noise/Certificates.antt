-- ===== src/Noise/Certificates.antt =====
-- `_verify_cert_chain` of wa/handshake.py. The certificates are protobuf messages of the generated
-- bindings: their parsers are arguments, and an absent field is empty.
use whatsapp_cli.Common.{ℕ, ◌≡◌, ◌↔◌, inl, inr, true, false, not, ◌&&◌, ◌||◌, [], ◌∷◌, arith}
use whatsapp_cli.Common.Tests.{◌==◌}
use whatsapp_cli.Common.Lists.{length, is_empty}
use whatsapp_cli.Common.Outcome.{Outcome-cases, Outcome, ok, ◌>>=◌, ◌>>◌, require, handshake_error}
use whatsapp_cli.Common.Utf8.{Bytes, same_bytes, same_bytes_iff}
use whatsapp_cli.Noise.Primitives.{Primitives}

pub record Certificate : Type 0 where
  pub details : Bytes
  pub signature : Bytes

pub record Details : Type 0 where
  pub serial : ℕ
  pub issuer_serial : ℕ
  pub key : Bytes

-- `ParseFromString` of CertChain and of NoiseCertificate.Details; what it refuses is a raise.
pub record CertificateParsers : Type 0 where
  pub parse_chain : Bytes → Outcome (Certificate × Certificate)
  pub parse_details : Bytes → Outcome Details

abbrev pub wa_cert_pub_key : Bytes
wa_cert_pub_key =
    0x14 ∷ 0x23 ∷ 0x75 ∷ 0x57 ∷ 0x4d ∷ 0x0a ∷ 0x58 ∷ 0x71 ∷ 0x66 ∷ 0xaa ∷ 0xe7 ∷ 0x1e ∷ 0xbe ∷ 0x51
    ∷ 0x64 ∷ 0x37 ∷ 0xc4 ∷ 0xa2 ∷ 0x8b ∷ 0x73 ∷ 0xe3 ∷ 0x69 ∷ 0x5c ∷ 0x6c ∷ 0xe1 ∷ 0xf7 ∷ 0xf9
    ∷ 0x54 ∷ 0x5d ∷ 0xa8 ∷ 0xee ∷ 0x6b ∷ []

abbrev pub wa_cert_issuer_serial : ℕ
wa_cert_issuer_serial = 0

module _ (p : Primitives) (parsers : CertificateParsers) where
  open p use {xeddsa_verify}
  open parsers use {parse_chain, parse_details}

  unfoldable pub verify_cert_chain : Bytes → Bytes → Outcome (Unit {0})
  verify_cert_chain cert_bytes server_static = do
    (intermediate, leaf) ← parse_chain cert_bytes
    require (not (is_empty intermediate.details || is_empty intermediate.signature)) handshake_error
    require (not (is_empty leaf.details || is_empty leaf.signature)) handshake_error
    require (length intermediate.signature == 64 && length leaf.signature == 64) handshake_error
    require (xeddsa_verify wa_cert_pub_key intermediate.details intermediate.signature)
        handshake_error
    inter_details ← parse_details intermediate.details
    require (inter_details.issuer_serial == wa_cert_issuer_serial) handshake_error
    require (length inter_details.key == 32) handshake_error
    require (xeddsa_verify inter_details.key leaf.details leaf.signature) handshake_error
    leaf_details ← parse_details leaf.details
    require (leaf_details.issuer_serial == inter_details.serial) handshake_error
    require (same_bytes leaf_details.key server_static) handshake_error

  -- What the two certificates of a trusted chain satisfy: their signatures are there and have 64
  -- bytes, the root signed the intermediate, whose key has 32 bytes and signed the leaf, the serials
  -- fit, and the leaf's key is the server's static key.
  pub record IsTrusted (server_static : Bytes) (i l : Certificate) (di dl : Details) : Type 0 where
    pub intermediate_there : (is_empty i.details ≡ false) × (is_empty i.signature ≡ false)
    pub leaf_there : (is_empty l.details ≡ false) × (is_empty l.signature ≡ false)
    pub signature_lengths : (length i.signature ≡ 64) × (length l.signature ≡ 64)
    pub signed_by_root : xeddsa_verify wa_cert_pub_key i.details i.signature ≡ true
    pub root_serial : di.issuer_serial ≡ wa_cert_issuer_serial
    pub key_length : length di.key ≡ 32
    pub signed_by_intermediate : xeddsa_verify di.key l.details l.signature ≡ true
    pub leaf_serial : dl.issuer_serial ≡ di.serial
    pub binds_server : dl.key ≡ server_static

  module _ (cert_bytes server_static : Bytes) (i l : Certificate) (di dl : Details)
      (e : parse_chain cert_bytes ≡ ok (i, l)) (ei : parse_details i.details ≡ ok di)
      (el : parse_details l.details ≡ ok dl) where
    trusted : verify_cert_chain cert_bytes server_static ≡ ok tt → IsTrusted server_static i l di dl
    unfolding verify_cert_chain
    trusted h = ground (arith, same_bytes_iff dl.key server_static)

    accepts : IsTrusted server_static i l di dl → verify_cert_chain cert_bytes server_static ≡ ok tt
    unfolding verify_cert_chain
    accepts t = ground (arith, same_bytes_iff dl.key server_static)

  pub record TrustedChain (cert_bytes server_static : Bytes) : Type 0 where
    pub i : Certificate
    pub l : Certificate
    pub di : Details
    pub dl : Details
    pub chain_parses : parse_chain cert_bytes ≡ ok (i, l)
    pub intermediate_parses : parse_details i.details ≡ ok di
    pub leaf_parses : parse_details l.details ≡ ok dl
    pub trusted_parts : IsTrusted server_static i l di dl

  parsed :
      (cert_bytes server_static : Bytes)
      → verify_cert_chain cert_bytes server_static ≡ ok tt
      → TrustedChain cert_bytes server_static
  parsed cert_bytes server_static h = elim (Outcome-cases (parse_chain cert_bytes)) [
    | inl (x, e) ↦ absurd (unfold verify_cert_chain in ground (arith, h, e))
    | inr ((i, l), e) ↦ elim (Outcome-cases (parse_details i.details)) [
      | inl (x, ei) ↦ absurd (unfold verify_cert_chain in ground (arith, h, e, ei))
      | inr (di, ei) ↦ elim (Outcome-cases (parse_details l.details)) [
        | inl (x, el) ↦ absurd (unfold verify_cert_chain in ground (arith, h, e, ei, el))
        | inr (dl, el) ↦ record {
          i = i;
          l = l;
          di = di;
          dl = dl;
          chain_parses = e;
          intermediate_parses = ei;
          leaf_parses = el;
          trusted_parts = trusted cert_bytes server_static i l di dl e ei el h;
        }
      ]
    ]
  ]

  -- The check passes exactly on the chains that parse and are trusted for the server's static key.
  pub verify_cert_chain_iff :
      (cert_bytes server_static : Bytes)
      → (verify_cert_chain cert_bytes server_static ≡ ok tt) ↔ TrustedChain cert_bytes server_static
  verify_cert_chain_iff cert_bytes server_static = (
    parsed cert_bytes server_static,
    λ t.
        accepts cert_bytes server_static t.i t.l t.di t.dl t.chain_parses t.intermediate_parses
          t.leaf_parses t.trusted_parts,
  )
