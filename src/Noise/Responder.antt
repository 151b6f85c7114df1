-- ===== src/Noise/Responder.antt =====
-- The other end of the handshake of wa/handshake.py: the responder of Noise_XX_25519_AESGCM_SHA256,
-- in the words of the Noise specification (MixHash, MixKey, EncryptAndHash, DecryptAndHash, Split),
-- on states of its own and with no function of wa/. As WhatsApp has it, the first message carries no
-- payload and the prologue is the connection header.
use whatsapp_cli.Common.{ℕ, ◌+◌, ◌/◌, ◌%◌, ◌^◌, Option, none, some, [], ◌∷◌, ◌++◌}
use whatsapp_cli.Common.Lists.{replicate}
use whatsapp_cli.Common.Utf8.{Bytes, codes}
use whatsapp_cli.Noise.Primitives.{Primitives}

-- The transcript before there is a key, and with one.
pub record Transcript : Type 0 where
  pub ck : Bytes
  pub h : Bytes

pub record Keyed : Type 0 where
  pub ck : Bytes
  pub h : Bytes
  pub k : Bytes
  pub n : ℕ

-- A key pair, the private key first.
abbrev pub Pair : Type 0
Pair = Bytes × Bytes

-- The second message: the ephemeral key, the encrypted static key and the encrypted payload.
abbrev pub Message2 : Type 0
Message2 = Bytes × Bytes × Bytes

-- Four zero bytes and the counter in eight bytes, the highest first.
unfoldable pub nonce : ℕ → Bytes
nonce n =
    replicate 4 0
    ++ (n / 2 ^ 56 % 256)
      ∷ (n / 2 ^ 48 % 256)
      ∷ (n / 2 ^ 40 % 256)
      ∷ (n / 2 ^ 32 % 256)
      ∷ (n / 2 ^ 24 % 256)
      ∷ (n / 2 ^ 16 % 256)
      ∷ (n / 2 ^ 8 % 256)
      ∷ (n % 256)
      ∷ []

module _ (p : Primitives) where
  -- HKDF with two outputs
  abbrev pub hkdf : Bytes → Bytes → Bytes × Bytes
  hkdf ck input =
      let temp = p.hmac_sha256 ck input in
      let out1 = p.hmac_sha256 temp (1 ∷ []) in (out1, p.hmac_sha256 temp (out1 ++ (2 ∷ [])))

  abbrev pub mix_hash : Transcript → Bytes → Transcript
  mix_hash t data' = record { ck = t.ck; h = p.sha256 (t.h ++ data') }

  abbrev pub mix_key : Bytes → Bytes → Bytes → Keyed
  mix_key ck h input = record { ck = (hkdf ck input).0; h = h; k = (hkdf ck input).1; n = 0 }

  abbrev pub encrypt_and_hash : Keyed → Bytes → Keyed × Bytes
  encrypt_and_hash s plaintext =
      let ct = p.aead_encrypt s.k (nonce s.n) plaintext s.h in
      (record { ck = s.ck; h = p.sha256 (s.h ++ ct); k = s.k; n = s.n + 1 }, ct)

  unfoldable pub decrypt_and_hash : Keyed → Bytes → Option (Keyed × Bytes)
  decrypt_and_hash s ct = elim (p.aead_decrypt s.k (nonce s.n) ct s.h) [
    | none ↦ none
    | some pt ↦ some (record { ck = s.ck; h = p.sha256 (s.h ++ ct); k = s.k; n = s.n + 1 }, pt)
  ]

  -- The protocol name, which is filled up to 32 bytes by zeros, and the prologue
  abbrev pub initialise : Transcript
  initialise =
      let name = codes "Noise_XX_25519_AESGCM_SHA256" ++ replicate 4 0 in
      mix_hash (record { ck = name; h = name }) (codes "WA" ++ (6 ∷ 3 ∷ []))

  -- -> e
  abbrev pub read_first : Bytes → Transcript
  read_first re = mix_hash initialise re

  -- <- e, ee, s, es and the certificate
  abbrev pub write_second : Pair → Pair → Bytes → Bytes → Keyed × Message2
  write_second e s re cert =
      let t = mix_hash (read_first re) e.1 in
      let ee = mix_key t.ck t.h (p.x25519_shared e.0 re) in
      let (s1, static_ct) = encrypt_and_hash ee s.1 in
      let es = mix_key s1.ck s1.h (p.x25519_shared s.0 re) in
      let (s2, payload_ct) = encrypt_and_hash es cert in (s2, (e.1, static_ct, payload_ct))

  -- -> s, se and the payload: the client's static key, its payload, and the keys to read and to write
  unfoldable pub read_third : Keyed → Pair → Bytes → Bytes → Option (Bytes × Bytes × Bytes × Bytes)
  unfolding decrypt_and_hash
  read_third s e static_ct payload_ct = elim (decrypt_and_hash s static_ct) [
    | none ↦ none
    | some first ↦
        let se = mix_key first.0.ck first.0.h (p.x25519_shared e.0 first.1) in
        elim (decrypt_and_hash se payload_ct) [
          | none ↦ none
          | some second ↦
              let (read_key, write_key) = hkdf second.0.ck [] in
              some (first.1, second.1, read_key, write_key)
        ]
  ]
