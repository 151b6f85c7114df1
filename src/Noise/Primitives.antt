-- ===== src/Noise/Primitives.antt =====
-- The cryptographic functions that the code calls and does not implement (`hashlib`, `hmac`, and the
-- `cryptography` package), and what it relies on of them.
use whatsapp_cli.Common.{◌≡◌, refl, Bool, Option, some, ◌++◌, []}
use whatsapp_cli.Common.Utf8.{Bytes}

-- `aead_decrypt` is `none` where the package raises InvalidTag.
pub record Primitives : Type 0 where
  pub sha256 : Bytes → Bytes
  pub hmac_sha256 : Bytes → Bytes → Bytes
  pub aead_encrypt : Bytes → Bytes → Bytes → Bytes → Bytes
  pub aead_decrypt : Bytes → Bytes → Bytes → Bytes → Option Bytes
  pub x25519_public : Bytes → Bytes
  pub x25519_shared : Bytes → Bytes → Bytes
  pub xeddsa_verify : Bytes → Bytes → Bytes → Bool

-- AES-GCM opens what it sealed, and both ends of a Diffie-Hellman exchange get one secret.
pub record Correct (p : Primitives) : Type 0 where
  pub open_seal :
      (key iv plaintext aad : Bytes)
      → p.aead_decrypt key iv (p.aead_encrypt key iv plaintext aad) aad ≡ some plaintext
  pub shared_comm :
      (a b : Bytes) → p.x25519_shared a (p.x25519_public b) ≡ p.x25519_shared b (p.x25519_public a)

-- Functions that meet the assumptions.
abbrev pub transparent : Primitives
transparent = record {
  sha256 = λ m. m;
  hmac_sha256 = λ k m. k ++ m;
  aead_encrypt = λ k iv m aad. m;
  aead_decrypt = λ k iv c aad. some c;
  x25519_public = λ a. a;
  x25519_shared = λ a b. [];
  xeddsa_verify = λ k m s. Bool.true;
}

pub transparent-Correct : Correct transparent
transparent-Correct = record { open_seal = λ k iv m aad. refl; shared_comm = λ a b. refl }
