-- ===== src/Noise/Agreement.antt =====
-- The client of wa/handshake.py against the responder of Noise/Responder.antt: both end with the same
-- keys.
use whatsapp_cli.Common.{
  ℕ, ◌≡◌, refl, sym, ap, ap₂, subst, ◌+◌, ◌/◌, ◌%◌, ◌^◌, ◌<◌, ◌∙◌, some, false, inl, inr, [], ◌++◌,
  arith,
}
use whatsapp_cli.Common.Tests.{Option-cases}
use whatsapp_cli.Common.Lists.{length, is_empty}
use whatsapp_cli.Common.Outcome.{Outcome, ok, raise}
use whatsapp_cli.Common.Utf8.{Bytes, utf8_encode}
use whatsapp_cli.Noise.Primitives.{Primitives, Correct}
use whatsapp_cli.Noise.Symmetric.{
  NoiseHandshake, NoiseSocket, new_socket, pack_u32, generate_iv, start, hkdf_sha256_pair,
  authenticate, encrypt, decrypt, mix_into_key, mix_shared_secret, finish,
}
use whatsapp_cli.Noise.Certificates.{CertificateParsers, verify_cert_chain}
use whatsapp_cli.Noise.Handshake.{
  ServerHello, HandshakeBindings, KeyPair, begin, and_then, on_server_hello, do_handshake,
}
use whatsapp_cli.Noise.Responder.{
  Keyed, Pair, Message2, nonce, hkdf, mix_key, encrypt_and_hash, decrypt_and_hash, read_first,
  write_second, read_third,
}
use whatsapp_cli.Noise.Mirror.{IsKeyPair, server_hello, server_finish, Mirrored, mirror_agrees}

nonce_of : (n : ℕ) → n < 2 ^ 32 → nonce n ≡ generate_iv n
unfolding nonce generate_iv pack_u32
nonce_of n small =
    let high : n / 2 ^ 32 % 256 ≡ 0 = omega arith in
    let higher : n / 2 ^ 40 % 256 ≡ 0 = omega arith in
    let higher' : n / 2 ^ 48 % 256 ≡ 0 = omega arith in
    let highest : n / 2 ^ 56 % 256 ≡ 0 = omega arith in
    let low : n % 2 ^ 32 ≡ n = omega arith in cc (high, higher, higher', highest, low)

abbrev as_handshake : Keyed → NoiseHandshake
as_handshake s = record { hash = s.h; salt = s.ck; aead = some s.k; counter = s.n }

abbrev pair_of : KeyPair → Pair
pair_of k = (k.priv, k.public')

abbrev hello_of : Message2 → ServerHello
hello_of m = record { ephemeral = m.0; static_ct = m.1; payload_ct = m.2 }

-- Where a step and what follows returned, both did.
and_then-ok :
    {A : Type 0} (m : NoiseHandshake × Outcome Bytes) (f : NoiseHandshake → Bytes → Outcome A)
    {a : A}
    → and_then m f ≡ ok a
    → (s : NoiseHandshake) × (b : Bytes) × (m ≡ (s, ok b)) × (f s b ≡ ok a)
and_then-ok (s, ok b) f h = (s, b, refl, h)
and_then-ok (s, raise e) f h = absurd (cc h)

module _ (p : Primitives) where
  encrypt-as_handshake :
      (s : Keyed) (plaintext : Bytes)
      → s.n < 2 ^ 32
      → encrypt p (as_handshake s) plaintext
        ≡ (as_handshake (encrypt_and_hash p s plaintext).0, ok (encrypt_and_hash p s plaintext).1)
  unfolding encrypt authenticate
  encrypt-as_handshake s plaintext small = rw (nonce_of s.n small) refl

  mix-as_handshake :
      (s : NoiseHandshake) (priv peer : Bytes)
      → mix_shared_secret p s priv peer
        ≡ as_handshake (mix_key p s.salt s.hash (p.x25519_shared priv peer))
  unfolding mix_shared_secret mix_into_key hkdf_sha256_pair
  mix-as_handshake s priv peer = refl

  -- What opens for the code opens for the responder.
  decrypt-as_handshake :
      (s : Keyed) (ct pt : Bytes) (s' : NoiseHandshake)
      → s.n < 2 ^ 32
      → decrypt p (as_handshake s) ct ≡ (s', ok pt)
      → (k : Keyed) × ((decrypt_and_hash p s ct ≡ some (k, pt)) × (as_handshake k ≡ s'))
  unfolding decrypt authenticate decrypt_and_hash
  decrypt-as_handshake s ct pt s' small h =
      elim (Option-cases (p.aead_decrypt s.k (generate_iv s.n) ct s.h)) [
        | inl e ↦ absurd (cc (rw (e, decrypt) at h))
        | inr (pt', e) ↦
            let h' = rw (e, decrypt) at h in
            let same : pt' ≡ pt = cc h' in
            let k : Keyed = record { ck = s.ck; h = p.sha256 (s.h ++ ct); k = s.k; n = s.n + 1 } in
            let e' : p.aead_decrypt s.k (nonce s.n) ct s.h ≡ some pt' =
              ap (λ iv. p.aead_decrypt s.k iv ct s.h) (nonce_of s.n small) ∙ e in
            (k, (rw (e', decrypt_and_hash) (ap (λ (t : Bytes). some (k, t)) same), cc h'))
      ]

  finish-hkdf : (s : Keyed) → finish p (as_handshake s) ≡ hkdf p s.ck []
  unfolding finish hkdf_sha256_pair
  finish-hkdf s = refl

  read_third-opens :
      (s k1 k2 : Keyed) (eph : KeyPair) (static_ct payload_ct static payload : Bytes)
      → decrypt_and_hash p s static_ct ≡ some (k1, static)
      → decrypt_and_hash p (mix_key p k1.ck k1.h (p.x25519_shared eph.priv static)) payload_ct
        ≡ some (k2, payload)
      → read_third p s (pair_of eph) static_ct payload_ct
        ≡ some (static, payload, (hkdf p k2.ck []).0, (hkdf p k2.ck []).1)
  unfolding read_third
  read_third-opens s k1 k2 eph static_ct payload_ct static payload open1 open2 =
      rw (open1, read_third) (rw (open2, read_third) refl)

  read_third-server_finish :
      (s : Keyed) (eph : KeyPair) (static_ct payload_ct static payload : Bytes)
      (server : NoiseSocket)
      → s.n < 2 ^ 32
      → server_finish p (as_handshake s) eph static_ct payload_ct ≡ ok (static, payload, server)
      → (read_key : Bytes) × (write_key : Bytes) × ((read_third p s
              (pair_of eph)
              static_ct
              payload_ct
            ≡ some (static, payload, read_key, write_key))
          × (server ≡ new_socket write_key read_key))
  unfolding server_finish
  read_third-server_finish s eph static_ct payload_ct static payload server small h =
      let (s1, static', opened, h') = and_then-ok (decrypt p (as_handshake s) static_ct) _ h in
      let (k1, (open1, e1)) = decrypt-as_handshake s static_ct static' s1 small opened in
      let se = mix_key p k1.ck k1.h (p.x25519_shared eph.priv static') in
      let mixed : mix_shared_secret p s1 eph.priv static' ≡ as_handshake se =
        ap (λ t. mix_shared_secret p t eph.priv static') (sym e1)
        ∙ mix-as_handshake (as_handshake k1) eph.priv static' in
      let (s2, payload', opened', h'') =
        and_then-ok (decrypt p (mix_shared_secret p s1 eph.priv static') payload_ct) _ h' in
      let (k2, (open2, e2)) =
        decrypt-as_handshake se payload_ct payload' s2 (omega arith)
          (ap (λ t. decrypt p t payload_ct) (sym mixed) ∙ opened') in
      let keys : finish p s2 ≡ hkdf p k2.ck [] = ap (finish p) (sym e2) ∙ finish-hkdf k2 in
      let sent : server ≡ new_socket (finish p s2).1 (finish p s2).0 = cc h'' in
      let same : static' ≡ static = cc h'' in
      let same' : payload' ≡ payload = cc h'' in
      (
        (hkdf p k2.ck []).0,
        (hkdf p k2.ck []).1,
        (
          subst
              (λ (r : Bytes × Bytes).
                read_third p s (pair_of eph) static_ct payload_ct
                ≡ some (r.0, r.1, (hkdf p k2.ck []).0, (hkdf p k2.ck []).1))
              (ap₂ (λ x y. (x, y)) same same')
              (read_third-opens s k1 k2 eph static_ct payload_ct static' payload' open1 open2),
          sent ∙ ap (λ (ks : Bytes × Bytes). new_socket ks.1 ks.0) keys,
        ),
      )

  module _ (parsers : CertificateParsers) (bindings : HandshakeBindings) where
    begin-read_first :
        (ephemeral : KeyPair)
        → (begin p parsers bindings ephemeral).hash ≡ (read_first p ephemeral.public').h
    unfolding begin start authenticate utf8_encode
    begin-read_first ephemeral = refl

    server_hello-write_second :
        (ephemeral eph static : KeyPair) (cert : Bytes)
        → server_hello p (begin p parsers bindings ephemeral) eph static ephemeral.public' cert
          ≡ ok (
            as_handshake (write_second p (pair_of eph) (pair_of static) ephemeral.public' cert).0,
            hello_of (write_second p (pair_of eph) (pair_of static) ephemeral.public' cert).1,
          )
    unfolding server_hello begin start authenticate utf8_encode mix_shared_secret mix_into_key
        hkdf_sha256_pair
    server_hello-write_second ephemeral eph static cert =
        let re = ephemeral.public' in
        let t = read_first p re in
        let ee = mix_key p t.ck (p.sha256 (t.h ++ eph.public')) (p.x25519_shared eph.priv re) in
        let first = encrypt_and_hash p ee static.public' in
        let es = mix_key p first.0.ck first.0.h (p.x25519_shared static.priv re) in
        let hello : Bytes → Bytes → ServerHello = λ static_ct payload_ct. record {
          ephemeral = eph.public';
          static_ct = static_ct;
          payload_ct = payload_ct;
        } in
        ap
          (λ (x : NoiseHandshake × Outcome Bytes). and_then x λ s2 static_ct.
            and_then (encrypt p (mix_shared_secret p s2 static.priv re) cert)
              λ s3 payload_ct. ok (s3, hello static_ct payload_ct))
          (encrypt-as_handshake ee static.public' (omega arith))
        ∙ ap
            (λ (x : NoiseHandshake × Outcome Bytes).
              and_then x λ s3 payload_ct. ok (s3, hello first.1 payload_ct))
            (encrypt-as_handshake es cert (omega arith))

    -- What the exchange comes to: the two messages that the client sends, that the responder reads the
    -- client's static key and payload in the second of them, and the client's socket.
    pub record Agreed (s : Keyed) (eph ephemeral noise_key : KeyPair) (client_payload : Bytes)
        (run : Bytes × Outcome (Bytes × NoiseSocket)) : Type 0 where
      pub static_ct : Bytes
      pub payload_ct : Bytes
      pub read_key : Bytes
      pub write_key : Bytes
      pub client : NoiseSocket
      pub first_sent : run.0 ≡ bindings.client_hello ephemeral.public'
      pub client_done : run.1 ≡ ok (bindings.client_finish static_ct payload_ct, client)
      pub server_done :
          read_third p s (pair_of eph) static_ct payload_ct
          ≡ some (noise_key.public', client_payload, read_key, write_key)
      pub to_server : (client.write_key ≡ read_key) × (client.write_ctr ≡ 0)
      pub to_client : (client.read_key ≡ write_key) × (client.read_ctr ≡ 0)

    from_mirror :
        (s : Keyed) (eph ephemeral noise_key : KeyPair) (client_payload resp : Bytes)
        (sh : ServerHello)
        → s.n < 2 ^ 32
        → bindings.parse_reply resp ≡ ok sh
        → Mirrored p bindings
            (as_handshake s)
            eph
            noise_key
            client_payload
            (on_server_hello p parsers bindings ephemeral noise_key client_payload sh)
        → Agreed s eph ephemeral noise_key client_payload
            (do_handshake p parsers bindings ephemeral noise_key client_payload (ok resp))
    unfolding do_handshake
    from_mirror s eph ephemeral noise_key client_payload resp sh small parsed m =
        let (read_key, write_key, (server_done, e)) =
          read_third-server_finish s eph m.static_ct m.payload_ct noise_key.public' client_payload
            m.server small m.server_done in
        record {
          static_ct = m.static_ct;
          payload_ct = m.payload_ct;
          read_key = read_key;
          write_key = write_key;
          client = m.client;
          first_sent = refl;
          client_done = rw (parsed) m.client_done;
          server_done = server_done;
          to_server = (
            sym m.to_server.same_key ∙ ap (λ (t : NoiseSocket). t.read_key) e,
            sym m.to_server.same_ctr ∙ ap (λ (t : NoiseSocket). t.read_ctr) e,
          );
          to_client = (
            m.to_client.same_key ∙ ap (λ (t : NoiseSocket). t.write_key) e,
            m.to_client.same_ctr ∙ ap (λ (t : NoiseSocket). t.write_ctr) e,
          );
        }

    module _ (c : Correct p) where
      -- Let the reply be the second message of a responder of the Noise XX pattern, which has read the
      -- client's ephemeral key, with 32-byte keys, a certificate chain for its static key that the client
      -- trusts, and ciphertexts that are not empty. Then the client sends its ephemeral key and accepts,
      -- the responder reads the client's static key and payload in the last message, and each
      -- end writes with the key that the other reads with, from counter 0.
      pub handshake_agrees :
          (ephemeral noise_key eph static : KeyPair) (client_payload cert resp : Bytes)
          → IsKeyPair p ephemeral
          → IsKeyPair p noise_key
          → IsKeyPair p eph
          → IsKeyPair p static
          → length eph.public' ≡ 32
          → length static.public' ≡ 32
          → bindings.parse_reply resp
            ≡ ok (hello_of (write_second p (pair_of eph) (pair_of static) ephemeral.public' cert).1)
          → is_empty
              (hello_of
                (write_second p (pair_of eph) (pair_of static) ephemeral.public' cert).1).static_ct
            ≡ false
          → is_empty
              (hello_of
                (write_second p (pair_of eph) (pair_of static) ephemeral.public' cert).1).payload_ct
            ≡ false
          → verify_cert_chain p parsers cert static.public' ≡ ok tt
          → Agreed
              (write_second p (pair_of eph) (pair_of static) ephemeral.public' cert).0
              eph
              ephemeral
              noise_key
              client_payload
              (do_handshake p parsers bindings ephemeral noise_key client_payload (ok resp))
      handshake_agrees ephemeral noise_key eph static client_payload cert resp hc hn he hs le ls
            parsed some_static some_payload trusted =
          let second = write_second p (pair_of eph) (pair_of static) ephemeral.public' cert in
          from_mirror second.0 eph ephemeral noise_key client_payload resp (hello_of second.1)
            (omega arith) parsed
            (mirror_agrees p c parsers bindings ephemeral noise_key eph static client_payload cert
              (as_handshake second.0) (hello_of second.1) hc hn he hs le ls
              (server_hello-write_second ephemeral eph static cert) some_static some_payload
              trusted)
