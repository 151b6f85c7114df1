-- ===== src/Noise/Lockstep.antt =====
-- Two ends that start alike stay alike: the handshake state and the encrypted stream.
use whatsapp_cli.Common.{◌+◌, ◌≡◌, refl, ap, some, List, [], ◌∷◌, arith}
use whatsapp_cli.Common.Outcome.{Outcome, ok, raise, ◌>>=◌}
use whatsapp_cli.Common.Utf8.{Bytes}
use whatsapp_cli.Noise.Primitives.{Primitives, Correct}
use whatsapp_cli.Noise.Symmetric.{
  NoiseHandshake, NoiseSocket, generate_iv, authenticate, encrypt, decrypt, encrypt_frame,
  decrypt_frame,
}

-- The reader has the writer's key and has read all that was written.
pub record InStep (w r : NoiseSocket) : Type 0 where
  pub same_key : r.read_key ≡ w.write_key
  pub same_ctr : r.read_ctr ≡ w.write_ctr

-- A run of frames, one after the other.
module _ (p : Primitives) where
  unfoldable pub seal_all : NoiseSocket → List Bytes → NoiseSocket × List Bytes
  seal_all w [] = (w, [])
  seal_all w (m ∷ ms) =
      let (w', ct) = encrypt_frame p w m in let (w'', cts) = seal_all w' ms in (w'', ct ∷ cts)

  unfoldable pub open_all : NoiseSocket → List Bytes → NoiseSocket × Outcome (List Bytes)
  open_all r [] = (r, ok [])
  open_all r (ct ∷ cts) =
      let (r', first) = decrypt_frame p r ct in
      let (r'', others) = open_all r' cts in
      elim first [ raise e ↦ (r', raise e) | ok m ↦ (r'', others >>= λ ms. ok (m ∷ ms)) ]

module _ (p : Primitives) (c : Correct p) where
  -- What one end of a keyed handshake encrypts, the other end in the same state decrypts, and both
  -- move to one new state with the same key.
  pub decrypt-encrypt :
      (s : NoiseHandshake) (key plaintext : Bytes)
      → s.aead ≡ some key
      → (s' : NoiseHandshake) × (ct : Bytes) × (encrypt p s plaintext ≡ (s', ok ct))
        × (decrypt p s ct ≡ (s', ok plaintext))
        × (s'.aead ≡ s.aead)
  decrypt-encrypt s key plaintext keyed =
      let iv = generate_iv s.counter in
      let ct = p.aead_encrypt key iv plaintext s.hash in
      (
        authenticate p (record s { counter = s.counter + 1 }) ct,
        ct,
        unfold encrypt in ground (arith, keyed),
        unfold decrypt in ground (arith, keyed, c.open_seal key iv plaintext s.hash),
        unfold authenticate in refl,
      )

  pub decrypt_frame-encrypt_frame :
      (w r : NoiseSocket) (m : Bytes)
      → InStep w r
      → decrypt_frame p r (encrypt_frame p w m).1 ≡ (record r { read_ctr = r.read_ctr + 1 }, ok m)
  unfolding encrypt_frame decrypt_frame
  decrypt_frame-encrypt_frame w r m h =
      ground (arith, h.same_key, h.same_ctr, c.open_seal w.write_key (generate_iv w.write_ctr) m [])

  open_all-cons :
      (r r' : NoiseSocket) (ct m : Bytes) (cts ms : List Bytes) (r'' : NoiseSocket)
      → decrypt_frame p r ct ≡ (r', ok m)
      → open_all p r' cts ≡ (r'', ok ms)
      → open_all p r (ct ∷ cts) ≡ (r'', ok (m ∷ ms))
  unfolding open_all
  open_all-cons r r' ct m cts ms r'' first others = ground (arith, first, others)

  -- Frames sealed by one socket and opened in that order by a socket in step with it come out as they
  -- went in, and the sockets are in step again.
  pub open_all-seal_all :
      (ms : List Bytes) (w r : NoiseSocket)
      → InStep w r
      → (r' : NoiseSocket) × (open_all p r (seal_all p w ms).1 ≡ (r', ok ms))
        × InStep (seal_all p w ms).0 r'
  unfolding seal_all
  open_all-seal_all [] w r h = (r, unfold open_all in refl, h)
  open_all-seal_all (m ∷ ms) w r h =
      let w' = (encrypt_frame p w m).0 in
      let ct = (encrypt_frame p w m).1 in
      let r' = record r { read_ctr = r.read_ctr + 1 } in
      let (r'', others, step) = open_all-seal_all ms w' r' (next w r m h) in
      (
        r'',
        open_all-cons r r' ct m (seal_all p w' ms).1 ms r'' (decrypt_frame-encrypt_frame w r m h)
            others,
        step,
      )
    where
      next :
          (w r : NoiseSocket) (m : Bytes)
          → InStep w r
          → InStep (encrypt_frame p w m).0 (record r { read_ctr = r.read_ctr + 1 })
      next w r m h =
          unfold encrypt_frame in
          record { same_key = h.same_key; same_ctr = ap (λ n. n + 1) h.same_ctr }
