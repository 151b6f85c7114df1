-- ===== src/Noise/Mirror.antt =====
-- The client of wa/handshake.py against its mirror image, a responder that runs the functions of
-- wa/crypto/noise.py with the roles of the keys swapped. It is a step towards the responder of
-- Noise/Responder.antt.
use whatsapp_cli.Common.{◌≡◌, refl, sym, ap, subst, ◌<◌, ◌∙◌, false, some, [], ◌∷◌, arith}
use whatsapp_cli.Common.Lists.{length, is_empty}
use whatsapp_cli.Common.Outcome.{Outcome, ok}
use whatsapp_cli.Common.Utf8.{Bytes}
use whatsapp_cli.Noise.Primitives.{Primitives, Correct}
use whatsapp_cli.Noise.Symmetric.{
  NoiseHandshake, NoiseSocket, new_socket, authenticate, encrypt, decrypt, mix_into_key,
  mix_shared_secret, finish,
}
use whatsapp_cli.Noise.Lockstep.{decrypt-encrypt, InStep}
use whatsapp_cli.Noise.Certificates.{CertificateParsers, verify_cert_chain}
use whatsapp_cli.Noise.Handshake.{
  ServerHello, HandshakeBindings, KeyPair, begin, and_then, client_finish, on_server_hello,
}

is_empty_of_length : (bs : Bytes) → 0 < length bs → is_empty bs ≡ false
is_empty_of_length [] h = absurd (omega arith)
is_empty_of_length (b ∷ bs) h = refl

module _ (p : Primitives) where
  abbrev pub IsKeyPair : KeyPair → Type 0
  IsKeyPair k = k.public' ≡ p.x25519_public k.priv

  -- The responder's second message, from the state in which the transcript holds the client's
  -- ephemeral key: its ephemeral key, and its static key and certificate encrypted.
  unfoldable pub server_hello :
      NoiseHandshake → KeyPair → KeyPair → Bytes → Bytes → Outcome (NoiseHandshake × ServerHello)
  server_hello s eph static client_eph cert =
      let s1 = mix_shared_secret p (authenticate p s eph.public') eph.priv client_eph in
      and_then (encrypt p s1 static.public') λ s2 static_ct.
        and_then (encrypt p (mix_shared_secret p s2 static.priv client_eph) cert) λ s3 payload_ct.
          ok
            (s3, record { ephemeral = eph.public'; static_ct = static_ct; payload_ct = payload_ct })

  -- The responder's reading of the third message: the client's static key, its payload, and the
  -- socket, whose directions are the client's swapped.
  unfoldable pub server_finish :
      NoiseHandshake → KeyPair → Bytes → Bytes → Outcome (Bytes × Bytes × NoiseSocket)
  server_finish s eph static_ct payload_ct = and_then (decrypt p s static_ct) λ s1 client_static.
      and_then (decrypt p (mix_shared_secret p s1 eph.priv client_static) payload_ct) λ s2 payload.
        let (write_key, read_key) = finish p s2 in
        ok (client_static, payload, new_socket read_key write_key)

  -- The third message and its reading, from one state.
  pub record Mirrored (bindings : HandshakeBindings) (s : NoiseHandshake) (eph noise_key : KeyPair)
      (client_payload : Bytes) (sent : Outcome (Bytes × NoiseSocket)) : Type 0 where
    pub static_ct : Bytes
    pub payload_ct : Bytes
    pub client : NoiseSocket
    pub server : NoiseSocket
    pub client_done : sent ≡ ok (bindings.client_finish static_ct payload_ct, client)
    pub server_done :
        server_finish s eph static_ct payload_ct ≡ ok (noise_key.public', client_payload, server)
    pub to_server : InStep client server
    pub to_client : InStep server client

module _ (p : Primitives) (c : Correct p) where
  keyed :
      (s : NoiseHandshake) (priv peer : Bytes)
      → (key : Bytes) × ((mix_shared_secret p s priv peer).aead ≡ some key)
  keyed s priv peer = unfold mix_shared_secret mix_into_key in (_, refl)

  -- Both ends mix in the same secret.
  mix_agrees :
      (s : NoiseHandshake) (a b : KeyPair)
      → IsKeyPair p a
      → IsKeyPair p b
      → mix_shared_secret p s a.priv b.public' ≡ mix_shared_secret p s b.priv a.public'
  unfolding mix_shared_secret
  mix_agrees s a b ha hb = ap (mix_into_key p s) (
      ap (p.x25519_shared a.priv) hb
      ∙ c.shared_comm a.priv b.priv
      ∙ ap (p.x25519_shared b.priv) (sym ha))

  module _ (parsers : CertificateParsers) (bindings : HandshakeBindings) where
    finish_agrees :
        (s : NoiseHandshake) (key : Bytes) (eph noise_key : KeyPair) (client_payload : Bytes)
        → s.aead ≡ some key
        → IsKeyPair p eph
        → IsKeyPair p noise_key
        → Mirrored p bindings s eph noise_key client_payload
            (client_finish p parsers bindings s noise_key eph.public' client_payload)
    finish_agrees s key eph noise_key client_payload has_key he hn =
        let (s1, static_ct, seal, open', _) = decrypt-encrypt p c s key noise_key.public' has_key in
        let (key', has_key') = keyed s1 noise_key.priv eph.public' in
        let mixed = mix_shared_secret p s1 noise_key.priv eph.public' in
        let (s2, payload_ct, seal', open'', _) =
          decrypt-encrypt p c mixed key' client_payload has_key' in
        let (write_key, read_key) = finish p s2 in
        record {
          static_ct = static_ct;
          payload_ct = payload_ct;
          client = new_socket write_key read_key;
          server = new_socket read_key write_key;
          client_done = unfold client_finish in rw seal (rw seal');
          server_done =
              unfold server_finish in
              rw open' (rw (← mix_agrees s1 noise_key eph hn he) (rw open''));
          to_server = record { same_key = refl; same_ctr = refl };
          to_client = record { same_key = refl; same_ctr = refl };
        }

    -- The client's side of the second message, from what its decryptions give.
    client_reads :
        (ephemeral noise_key : KeyPair) (client_payload : Bytes) (sh : ServerHello)
        (s3 s4 : NoiseHandshake) (server_static cert : Bytes)
        → is_empty sh.ephemeral ≡ false
        → is_empty sh.static_ct ≡ false
        → is_empty sh.payload_ct ≡ false
        → length sh.ephemeral ≡ 32
        → length server_static ≡ 32
        → decrypt p
            (mix_shared_secret p
              (authenticate p (begin p parsers bindings ephemeral) sh.ephemeral)
              ephemeral.priv
              sh.ephemeral)
            sh.static_ct
          ≡ (s3, ok server_static)
        → decrypt p (mix_shared_secret p s3 ephemeral.priv server_static) sh.payload_ct
          ≡ (s4, ok cert)
        → verify_cert_chain p parsers cert server_static ≡ ok tt
        → on_server_hello p parsers bindings ephemeral noise_key client_payload sh
          ≡ client_finish p parsers bindings s4 noise_key sh.ephemeral client_payload
    unfolding on_server_hello
    client_reads ephemeral noise_key client_payload sh s3 s4 server_static cert e0 e1 e2 le ls open1
          open2 trusted =
        simp (e0, e1, e2, le, open1, ls, open2, trusted)

    -- The client's side of the second message, when it is the responder's.
    on_answer :
        (ephemeral noise_key eph static : KeyPair) (client_payload cert : Bytes)
        (s : NoiseHandshake) (hello : ServerHello)
        → IsKeyPair p ephemeral
        → IsKeyPair p eph
        → IsKeyPair p static
        → length eph.public' ≡ 32
        → length static.public' ≡ 32
        → server_hello p (begin p parsers bindings ephemeral) eph static ephemeral.public' cert
          ≡ ok (s, hello)
        → is_empty hello.static_ct ≡ false
        → is_empty hello.payload_ct ≡ false
        → verify_cert_chain p parsers cert static.public' ≡ ok tt
        → (key : Bytes) × (s.aead ≡ some key)
          × (on_server_hello p parsers bindings ephemeral noise_key client_payload hello
              ≡ client_finish p parsers bindings s noise_key eph.public' client_payload)
    on_answer ephemeral noise_key eph static client_payload cert s hello hc he hs le ls answer
          some_static some_payload trusted =
        let s0 = authenticate p (begin p parsers bindings ephemeral) eph.public' in
        let mixed = mix_shared_secret p s0 eph.priv ephemeral.public' in
        let (key, has_key) = keyed s0 eph.priv ephemeral.public' in
        let (s1, static_ct, seal, open', _) =
          decrypt-encrypt p c mixed key static.public' has_key in
        let mixed' = mix_shared_secret p s1 static.priv ephemeral.public' in
        let (key', has_key') = keyed s1 static.priv ephemeral.public' in
        let (s2, payload_ct, seal', open'', kept) = decrypt-encrypt p c mixed' key' cert has_key' in
        let hello' : ServerHello = record {
          ephemeral = eph.public';
          static_ct = static_ct;
          payload_ct = payload_ct;
        } in
        let whole : server_hello p (begin p parsers bindings ephemeral) eph static ephemeral.public'
              cert
            ≡ ok (s2, hello') =
          unfold server_hello in rw seal (rw seal') in
        let same : s2 ≡ s = cc (whole, answer) in
        let same' : hello' ≡ hello = cc (whole, answer) in
        (
          key',
          ap (λ t. t.aead) (sym same) ∙ kept ∙ has_key',
          subst
              (λ h.
                on_server_hello p parsers bindings ephemeral noise_key client_payload h
                ≡ client_finish p parsers bindings s noise_key eph.public' client_payload)
              same'
              (client_reads ephemeral noise_key client_payload hello' s1 s2 static.public' cert
                  (is_empty_of_length eph.public' (omega (arith, le)))
                  (ap (λ h. is_empty h.static_ct) same' ∙ some_static)
                  (ap (λ h. is_empty h.payload_ct) same' ∙ some_payload) le ls
                  (ap (λ m. decrypt p m static_ct) (mix_agrees s0 ephemeral eph hc he) ∙ open')
                  (ap (λ m. decrypt p m payload_ct) (mix_agrees s1 ephemeral static hc hs) ∙ open'')
                  trusted
                ∙ ap (λ t. client_finish p parsers bindings t noise_key eph.public' client_payload)
                    same),
        )

    -- The two agree, if the certificate is one that the client trusts.
    pub mirror_agrees :
        (ephemeral noise_key eph static : KeyPair) (client_payload cert : Bytes)
        (s : NoiseHandshake) (hello : ServerHello)
        → IsKeyPair p ephemeral
        → IsKeyPair p noise_key
        → IsKeyPair p eph
        → IsKeyPair p static
        → length eph.public' ≡ 32
        → length static.public' ≡ 32
        → server_hello p (begin p parsers bindings ephemeral) eph static ephemeral.public' cert
          ≡ ok (s, hello)
        → is_empty hello.static_ct ≡ false
        → is_empty hello.payload_ct ≡ false
        → verify_cert_chain p parsers cert static.public' ≡ ok tt
        → Mirrored p bindings s eph noise_key client_payload
            (on_server_hello p parsers bindings ephemeral noise_key client_payload hello)
    mirror_agrees ephemeral noise_key eph static client_payload cert s hello hc hn he hs le ls
          answer some_static some_payload trusted =
        let (key, has_key, e) =
          on_answer ephemeral noise_key eph static client_payload cert s hello hc he hs le ls answer
            some_static some_payload trusted in
        subst (λ o. Mirrored p bindings s eph noise_key client_payload o) (sym e)
          (finish_agrees s key eph noise_key client_payload has_key he hn)
