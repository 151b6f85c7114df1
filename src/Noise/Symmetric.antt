-- ===== src/Noise/Symmetric.antt =====
-- `NoiseHandshake` and `NoiseSocket` of wa/crypto/noise.py. An AESGCM object is its key.
use whatsapp_cli.Common.{ℕ, ◌+◌, ◌/◌, ◌%◌, ◌^◌, Option, none, some, [], ◌∷◌, ◌++◌}
use whatsapp_cli.Common.Tests.{◌==◌, if◌then◌else◌}
use whatsapp_cli.Common.Lists.{length, replicate}
use whatsapp_cli.Common.Outcome.{Outcome, ok, raise, assertion_error, crypto_error}
use whatsapp_cli.Common.Utf8.{Bytes, Str, utf8_encode}
use whatsapp_cli.Noise.Primitives.{Primitives}

-- `struct.pack(">I", n)` for n below 2 ^ 32
unfoldable pub pack_u32 : ℕ → Bytes
pack_u32 n = (n / 2 ^ 24 % 256) ∷ (n / 2 ^ 16 % 256) ∷ (n / 2 ^ 8 % 256) ∷ (n % 256) ∷ []

unfoldable pub generate_iv : ℕ → Bytes
generate_iv counter = replicate 8 0 ++ pack_u32 (counter % 2 ^ 32)

pub record NoiseHandshake : Type 0 where
  pub hash : Bytes
  pub salt : Bytes
  pub aead : Option Bytes
  pub counter : ℕ

abbrev pub new_handshake : NoiseHandshake
new_handshake = record { hash = []; salt = []; aead = none; counter = 0 }

pub record NoiseSocket : Type 0 where
  pub write_key : Bytes
  pub read_key : Bytes
  pub write_ctr : ℕ
  pub read_ctr : ℕ

abbrev pub new_socket : Bytes → Bytes → NoiseSocket
new_socket write_key read_key = record {
  write_key = write_key;
  read_key = read_key;
  write_ctr = 0;
  read_ctr = 0;
}

module _ (p : Primitives) where
  open p use {sha256, hmac_sha256, aead_encrypt, aead_decrypt, x25519_shared}

  unfoldable pub hkdf_sha256_pair : Bytes → Bytes → Bytes × Bytes
  hkdf_sha256_pair salt ikm =
      let prk = hmac_sha256 salt ikm in
      let t1 = hmac_sha256 prk (1 ∷ []) in let t2 = hmac_sha256 prk (t1 ++ (2 ∷ [])) in (t1, t2)

  unfoldable pub authenticate : NoiseHandshake → Bytes → NoiseHandshake
  authenticate s bytes = record s { hash = sha256 (s.hash ++ bytes) }

  unfoldable pub start : NoiseHandshake → Str → Bytes → NoiseHandshake
  start s pattern' header =
      let text = utf8_encode pattern' in
      let h = if length text == 32 then text else sha256 text in
      authenticate (record { hash = h; salt = h; aead = some h; counter = 0 }) header

  -- `aead_decrypt` raises after `_post_inc_counter` has run, so the counter moves on all the same.
  unfoldable pub encrypt : NoiseHandshake → Bytes → NoiseHandshake × Outcome Bytes
  encrypt s plaintext = elim s.aead [
    | none ↦ (s, raise assertion_error)
    | some key ↦
        let ct = aead_encrypt key (generate_iv s.counter) plaintext s.hash in
        (authenticate (record s { counter = s.counter + 1 }) ct, ok ct)
  ]

  unfoldable pub decrypt : NoiseHandshake → Bytes → NoiseHandshake × Outcome Bytes
  decrypt s ciphertext = elim s.aead [
    | none ↦ (s, raise assertion_error)
    | some key ↦ elim (aead_decrypt key (generate_iv s.counter) ciphertext s.hash) [
      | none ↦ (record s { counter = s.counter + 1 }, raise crypto_error)
      | some pt ↦ (authenticate (record s { counter = s.counter + 1 }) ciphertext, ok pt)
    ]
  ]

  unfoldable pub mix_into_key : NoiseHandshake → Bytes → NoiseHandshake
  unfolding hkdf_sha256_pair
  mix_into_key s bytes =
      let (write, read) = hkdf_sha256_pair s.salt bytes in
      record s { counter = 0; salt = write; aead = some read }

  unfoldable pub mix_shared_secret : NoiseHandshake → Bytes → Bytes → NoiseHandshake
  mix_shared_secret s priv peer = mix_into_key s (x25519_shared priv peer)

  unfoldable pub finish : NoiseHandshake → Bytes × Bytes
  finish s = hkdf_sha256_pair s.salt []

  unfoldable pub encrypt_frame : NoiseSocket → Bytes → NoiseSocket × Bytes
  encrypt_frame s plaintext =
      let ct = aead_encrypt s.write_key (generate_iv s.write_ctr) plaintext [] in
      (record s { write_ctr = s.write_ctr + 1 }, ct)

  -- A frame that does not open leaves the counter where it was.
  unfoldable pub decrypt_frame : NoiseSocket → Bytes → NoiseSocket × Outcome Bytes
  decrypt_frame s ciphertext =
      elim (aead_decrypt s.read_key (generate_iv s.read_ctr) ciphertext []) [
        | none ↦ (s, raise crypto_error)
        | some pt ↦ (record s { read_ctr = s.read_ctr + 1 }, ok pt)
      ]
