-- ===== src/Media/Cipher.antt =====
-- `encrypt_media`, `decrypt_media`, `_hkdf_expand` and `_aes_cbc_decrypt`. AES-CBC on whole blocks is
-- a parameter; the random media key is an argument.
use whatsapp_cli.Common.{
  ℕ, zero, suc, ◌+◌, ◌-◌, ◌%◌, ◌≡◌, Bool, true, not, ◌&&◌, Option, none, some, [], ◌∷◌, ◌++◌,
}
use whatsapp_cli.Common.Tests.{◌==◌, ltb, leb, if◌then◌else◌}
use whatsapp_cli.Common.Lists.{length, get_elem?, take, drop, slice, replicate}
use whatsapp_cli.Common.Outcome.{Outcome, ok, raise, ◌>>=◌, ◌>>◌, require, index_error, value_error}
use whatsapp_cli.Common.Utf8.{Bytes, Str, codes, same_bytes}
use whatsapp_cli.Noise.Primitives.{Primitives}

-- `xs[-1]`
abbrev pub last : Bytes → Option ℕ
last xs = get_elem? xs (length xs - 1)

unfoldable pub unpad : Bytes → Bytes
unpad plaintext = elim (last plaintext) [
  | none ↦ plaintext
  | some pad ↦
      if ltb 0 pad && leb pad (length plaintext)
      then take (length plaintext - pad) plaintext
      else plaintext
]

-- AES-CBC on whole blocks; decryption refuses what is not whole blocks.
pub record BlockCipher : Type 0 where
  pub encrypt_blocks : Bytes → Bytes → Bytes → Bytes
  pub decrypt_blocks : Bytes → Bytes → Bytes → Outcome Bytes

-- What the code relies on: decryption undoes encryption on whole blocks, and a digest has 32 bytes.
pub record Sound (p : Primitives) (c : BlockCipher) : Type 0 where
  pub undoes :
      (key iv blocks : Bytes)
      → length blocks % 16 ≡ 0
      → c.decrypt_blocks key iv (c.encrypt_blocks key iv blocks) ≡ ok blocks
  pub same_length :
      (key iv blocks : Bytes) → length (c.encrypt_blocks key iv blocks) ≡ length blocks
  pub digest_length : (key bytes : Bytes) → length (p.hmac_sha256 key bytes) ≡ 32

unfoldable pub media_info : Str → Option Bytes
media_info media_type =
    if same_bytes media_type (codes "document")
    then some (codes "WhatsApp Document Keys")
    else if same_bytes media_type (codes "image")
    then some (codes "WhatsApp Image Keys")
    else if same_bytes media_type (codes "video")
    then some (codes "WhatsApp Video Keys")
    else if same_bytes media_type (codes "audio")
    then some (codes "WhatsApp Audio Keys")
    else none

pub record EncryptedMedia : Type 0 where
  pub ciphertext : Bytes
  pub media_key : Bytes
  pub file_sha256 : Bytes
  pub file_enc_sha256 : Bytes
  pub file_length : ℕ

unfoldable pub pkcs7 : Bytes → Bytes
pkcs7 plaintext = let pad = 16 - length plaintext % 16 in plaintext ++ replicate pad pad

module _ (p : Primitives) (c : BlockCipher) where
  open p use {sha256, hmac_sha256}

  -- The `while` loop; a round adds a digest, so that `size` rounds are enough.
  unfoldable pub expand_loop : ℕ → Bytes → Bytes → ℕ → Bytes → Bytes → ℕ → Bytes
  expand_loop zero prk info size output t counter = output
  expand_loop (suc rounds) prk info size output t counter =
      let t' = hmac_sha256 prk (t ++ (info ++ (counter ∷ []))) in
      let more = expand_loop rounds prk info size (output ++ t') t' (counter + 1) in
      if ltb (length output) size then more else output

  unfoldable pub hkdf_expand : Bytes → Bytes → ℕ → Bytes
  hkdf_expand ikm info size =
      let prk = hmac_sha256 (replicate 32 0) ikm in
      take size (expand_loop size prk info size [] [] 1)

  unfoldable pub aes_cbc_encrypt : Bytes → Bytes → Bytes → Bytes
  aes_cbc_encrypt key iv plaintext = c.encrypt_blocks key iv (pkcs7 plaintext)

  -- `padded[-1]`, and `padded[:-pad]`, which is empty for 0.
  unfoldable pub strip : Bytes → Outcome Bytes
  strip padded = elim (last padded) [
    | none ↦ raise index_error
    | some pad ↦ ok (if pad == 0 then [] else take (length padded - pad) padded)
  ]

  unfoldable pub aes_cbc_decrypt : Bytes → Bytes → Bytes → Outcome Bytes
  aes_cbc_decrypt key iv ct = do padded ← c.decrypt_blocks key iv ct; strip padded

  unfoldable pub mac_of : Bytes → Bytes → Bytes
  mac_of expanded enc = take 10 (hmac_sha256 (slice expanded 48 80) (slice expanded 0 16 ++ enc))

  unfoldable pub encrypt_media : Bytes → Bytes → Str → Outcome EncryptedMedia
  encrypt_media media_key plaintext media_type = elim (media_info media_type) [
    | none ↦ raise value_error
    | some info ↦
        let expanded = hkdf_expand media_key info 112 in
        let enc = aes_cbc_encrypt (slice expanded 16 48) (slice expanded 0 16) plaintext in
        let ciphertext = enc ++ mac_of expanded enc in
        ok (record {
          ciphertext = ciphertext;
          media_key = media_key;
          file_sha256 = sha256 plaintext;
          file_enc_sha256 = sha256 ciphertext;
          file_length = length plaintext;
        })
  ]

  -- `if file_enc_sha256 and sha256(ciphertext).digest() != file_enc_sha256`
  unfoldable pub digest_matches : Option Bytes → Bytes → Bool
  digest_matches none ciphertext = true
  digest_matches (some []) ciphertext = true
  digest_matches (some (b ∷ bs)) ciphertext = same_bytes (sha256 ciphertext) (b ∷ bs)

  unfoldable pub decrypt_media : Bytes → Bytes → Str → Option Bytes → Outcome Bytes
  decrypt_media media_key ciphertext media_type file_enc_sha256 = elim (media_info media_type) [
    | none ↦ raise value_error
    | some info ↦ do
      require (not (leb (length ciphertext) 10)) value_error
      let expanded = hkdf_expand media_key info 112
      let body = take (length ciphertext - 10) ciphertext
      let mac = drop (length ciphertext - 10) ciphertext
      require (same_bytes (mac_of expanded body) mac) value_error
      require (digest_matches file_enc_sha256 ciphertext) value_error
      aes_cbc_decrypt (slice expanded 16 48) (slice expanded 0 16) body
  ]
