-- ===== src/History/Payload.antt =====
-- `decrypt_history_payload` of wa/history.py, on the key expansion and block decryption that media share.
use whatsapp_cli.Common.{◌-◌, not, Option, ◌++◌}
use whatsapp_cli.Common.Tests.{leb}
use whatsapp_cli.Common.Lists.{length, take, drop, slice}
use whatsapp_cli.Common.Outcome.{Outcome, ◌>>◌, require, value_error}
use whatsapp_cli.Common.Utf8.{Bytes, codes, same_bytes}
use whatsapp_cli.Noise.Primitives.{Primitives}
use whatsapp_cli.Media.Cipher.{BlockCipher, hkdf_expand, aes_cbc_decrypt, digest_matches}

module _ (p : Primitives) (c : BlockCipher) where
  open p use {hmac_sha256, sha256}

  unfoldable pub decrypt_history_payload : Bytes → Bytes → Option Bytes → Outcome Bytes
  decrypt_history_payload media_key ciphertext file_enc_sha256 = do
    let expanded = hkdf_expand p c media_key (codes "WhatsApp History Keys") 112
    let iv = slice expanded 0 16
    let cipher_key = slice expanded 16 48
    let mac_key = slice expanded 48 80
    require (not (leb (length ciphertext) 10)) value_error
    let body = take (length ciphertext - 10) ciphertext
    let mac = drop (length ciphertext - 10) ciphertext
    let expected = take 10 (hmac_sha256 mac_key (iv ++ body))
    require (same_bytes expected mac) value_error
    require (digest_matches p c file_enc_sha256 ciphertext) value_error
    aes_cbc_decrypt p c cipher_key iv body
