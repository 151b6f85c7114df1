-- ===== src/Media/RoundTrip.antt =====
-- Media that was encrypted is decrypted, and a padded message is unpadded.
use whatsapp_cli.Common.{
  ℕ, zero, suc, ◌+◌, ◌-◌, ◌%◌, ◌≤◌, ◌≡◌, refl, ap, ◌∙◌, Bool, true, false, not, ◌&&◌, none, some,
  [], ◌∷◌, ◌++◌, arith,
}
use whatsapp_cli.Common.Tests.{◌==◌, ltb, leb, if◌then◌else◌}
use whatsapp_cli.Common.Lists.{
  length, length-append, length-replicate, length-take, get_elem?, take, drop, slice, replicate,
  take-append, drop-append,
}
use whatsapp_cli.Common.Outcome.{ok}
use whatsapp_cli.Common.Utf8.{Bytes, Str, same_bytes, same_bytes_iff}
use whatsapp_cli.Noise.Primitives.{Primitives}
use whatsapp_cli.Protobuf.Writer.{pad_for_signal}
use whatsapp_cli.Media.Cipher.{
  last, unpad, BlockCipher, Sound, media_info, EncryptedMedia, pkcs7, hkdf_expand, aes_cbc_encrypt,
  strip, aes_cbc_decrypt, mac_of, encrypt_media, digest_matches, decrypt_media,
}

get_elem?-append : (xs ys : Bytes) (i : ℕ) → get_elem? (xs ++ ys) (length xs + i) ≡ get_elem? ys i
get_elem?-append [] ys i = let e : 0 + i ≡ i = omega arith in ap (λ k. get_elem? ys k) e
get_elem?-append (x ∷ xs) ys i =
    let e : suc (length xs) + i ≡ suc (length xs + i) = omega arith in
    ap (λ k. get_elem? (x ∷ (xs ++ ys)) k) e ∙ get_elem?-append xs ys i

get_elem?-replicate : (n c : ℕ) → get_elem? (replicate (suc n) c) n ≡ some c
get_elem?-replicate zero c = refl
get_elem?-replicate (suc n) c = get_elem?-replicate n c

-- The last byte of a padded text, and what is before the padding.
last-padded : (xs : Bytes) (n c : ℕ) → last (xs ++ replicate (suc n) c) ≡ some c
last-padded xs n c =
    let e : length (xs ++ replicate (suc n) c) - 1 ≡ length xs + n =
      omega (arith, length-append xs (replicate (suc n) c), length-replicate (suc n) c) in
    ap (λ k. get_elem? (xs ++ replicate (suc n) c) k) e
    ∙ get_elem?-append xs (replicate (suc n) c) n
    ∙ get_elem?-replicate n c

before_padding :
    (xs : Bytes) (n c : ℕ) → take (length (xs ++ replicate n c) - n) (xs ++ replicate n c) ≡ xs
before_padding xs n c =
    let e : length (xs ++ replicate n c) - n ≡ length xs =
      omega (arith, length-append xs (replicate n c), length-replicate n c) in
    ap (λ k. take k (xs ++ replicate n c)) e ∙ take-append xs (replicate n c)

unpad_by :
    (bytes : Bytes) (pad : ℕ)
    → last bytes ≡ some pad
    → (ltb 0 pad && leb pad (length bytes)) ≡ true
    → unpad bytes ≡ take (length bytes - pad) bytes
unfolding unpad
unpad_by bytes pad h inside = rw (h, unpad) (rw inside refl)

strip_by :
    (p : Primitives) (c : BlockCipher) (bytes : Bytes) (pad : ℕ)
    → last bytes ≡ some pad
    → (pad == 0) ≡ false
    → strip p c bytes ≡ ok (take (length bytes - pad) bytes)
unfolding strip
strip_by p c bytes pad h some_pad = rw (h, strip) (rw some_pad refl)

-- Unpadding a padded message gives the message, whatever number was drawn.
pub unpad-pad_for_signal :
    (random : ℕ) (plaintext : Bytes) → unpad (pad_for_signal random plaintext) ≡ plaintext
unfolding pad_for_signal
unpad-pad_for_signal random plaintext =
    let same : random + 1 ≡ suc random = omega arith in
    let padded = plaintext ++ replicate (suc random) (suc random) in
    let size = length-append plaintext (replicate (suc random) (suc random)) in
    let inside : (ltb 0 (suc random) && leb (suc random) (length padded)) ≡ true =
      ground (arith, size, length-replicate (suc random) (suc random)) in
    ap (λ k. unpad (plaintext ++ replicate k k)) same
    ∙ unpad_by padded (suc random) (last-padded plaintext random (suc random)) inside
    ∙ before_padding plaintext (suc random) (suc random)

strip-pkcs7 :
    (p : Primitives) (c : BlockCipher) (plaintext : Bytes)
    → strip p c (pkcs7 plaintext) ≡ ok plaintext
unfolding pkcs7
strip-pkcs7 p c plaintext =
    let n = 15 - length plaintext % 16 in
    let e : 16 - length plaintext % 16 ≡ suc n = omega arith in
    let some_pad : (suc n == 0) ≡ false = ground arith in
    ap (λ k. strip p c (plaintext ++ replicate k k)) e
    ∙ strip_by p c (plaintext ++ replicate (suc n) (suc n)) (suc n)
        (last-padded plaintext n (suc n)) some_pad
    ∙ ap (λ t. ok t) (before_padding plaintext (suc n) (suc n))

length-pkcs7 : (plaintext : Bytes) → length (pkcs7 plaintext) % 16 ≡ 0
unfolding pkcs7
length-pkcs7 plaintext =
    let pad = 16 - length plaintext % 16 in
    omega (arith, length-append plaintext (replicate pad pad), length-replicate pad pad)

module _ (p : Primitives) (c : BlockCipher) (sound : Sound p c) where
  aes_cbc_decrypt-aes_cbc_encrypt :
      (key iv plaintext : Bytes)
      → aes_cbc_decrypt p c key iv (aes_cbc_encrypt p c key iv plaintext) ≡ ok plaintext
  unfolding aes_cbc_decrypt aes_cbc_encrypt
  aes_cbc_decrypt-aes_cbc_encrypt key iv plaintext =
      rw (sound.undoes key iv (pkcs7 plaintext) (length-pkcs7 plaintext))
        (strip-pkcs7 p c plaintext)

  length-mac_of : (expanded enc : Bytes) → length (mac_of p c expanded enc) ≡ 10
  unfolding mac_of
  length-mac_of expanded enc =
      let digest = p.hmac_sha256 (slice expanded 48 80) (slice expanded 0 16 ++ enc) in
      omega (
        arith,
        length-take 10 digest,
        sound.digest_length (slice expanded 48 80) (slice expanded 0 16 ++ enc),
      )

  some_blocks : (key iv plaintext : Bytes) → 1 ≤ length (aes_cbc_encrypt p c key iv plaintext)
  unfolding aes_cbc_encrypt pkcs7
  some_blocks key iv plaintext =
      let pad = 16 - length plaintext % 16 in
      omega (
        arith,
        sound.same_length key iv (plaintext ++ replicate pad pad),
        length-append plaintext (replicate pad pad),
        length-replicate pad pad,
      )

  module _ (enc mac : Bytes) (h : length mac ≡ 10) where
    body_of : take (length (enc ++ mac) - 10) (enc ++ mac) ≡ enc
    body_of =
        let e : length (enc ++ mac) - 10 ≡ length enc = omega (arith, length-append enc mac) in
        ap (λ k. take k (enc ++ mac)) e ∙ take-append enc mac

    mac_behind : drop (length (enc ++ mac) - 10) (enc ++ mac) ≡ mac
    mac_behind =
        let e : length (enc ++ mac) - 10 ≡ length enc = omega (arith, length-append enc mac) in
        ap (λ k. drop k (enc ++ mac)) e ∙ drop-append enc mac

  -- Media of a known type that was encrypted is decrypted to the file, with and without the digest of
  -- the ciphertext to check, if the block cipher is undone by its decryption.
  pub decrypt_media-encrypt_media :
      (media_key plaintext : Bytes) (media_type : Str) (info : Bytes) (checked : Bool)
      → media_info media_type ≡ some info
      → (m : EncryptedMedia) × (encrypt_media p c media_key plaintext media_type ≡ ok m)
        × (decrypt_media p c media_key m.ciphertext media_type
              (if checked then some m.file_enc_sha256 else none)
            ≡ ok plaintext)
  decrypt_media-encrypt_media media_key plaintext media_type info checked known =
      let expanded = hkdf_expand p c media_key info 112 in
      let enc = aes_cbc_encrypt p c (slice expanded 16 48) (slice expanded 0 16) plaintext in
      let mac = mac_of p c expanded enc in
      let ciphertext = enc ++ mac in
      let ten = length-mac_of expanded enc in
      let filled = some_blocks (slice expanded 16 48) (slice expanded 0 16) plaintext in
      let long : not (leb (length ciphertext) 10) ≡ true = ground (arith, length-append enc mac) in
      let same : same_bytes mac mac ≡ true = (same_bytes_iff mac mac).1 refl in
      (
        record {
          ciphertext = ciphertext;
          media_key = media_key;
          file_sha256 = p.sha256 plaintext;
          file_enc_sha256 = p.sha256 ciphertext;
          file_length = length plaintext;
        },
        unfold encrypt_media in rw (known, encrypt_media) refl,
        unfold decrypt_media in
            rw (known, decrypt_media)
              (rw long (
                rw (body_of enc mac ten, mac_behind enc mac ten)
                  (rw same (
                    rw (matches ciphertext checked) (
                      aes_cbc_decrypt-aes_cbc_encrypt (slice expanded 16 48) (slice expanded 0 16)
                        plaintext))))),
      )
    where
      matches :
          (ciphertext : Bytes) (checked : Bool)
          → digest_matches p c (if checked then some (p.sha256 ciphertext) else none) ciphertext
            ≡ true
      matches ciphertext false = unfold digest_matches in refl
      matches ciphertext true = digest_itself (p.sha256 ciphertext) refl
        where
          digest_itself :
              (d : Bytes) → p.sha256 ciphertext ≡ d → digest_matches p c (some d) ciphertext ≡ true
          digest_itself [] e = unfold digest_matches in refl
          digest_itself (b ∷ bs) e =
              unfold digest_matches in (same_bytes_iff (p.sha256 ciphertext) (b ∷ bs)).1 e
