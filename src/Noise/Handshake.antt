-- ===== src/Noise/Handshake.antt =====
-- `do_handshake` of wa/handshake.py. The protobuf bindings, the socket and the random ephemeral key
-- are arguments; what is sent is part of the result.
use whatsapp_cli.Common.{not, ◌||◌, [], ◌∷◌, ◌++◌}
use whatsapp_cli.Common.Tests.{◌==◌}
use whatsapp_cli.Common.Lists.{is_empty, length}
use whatsapp_cli.Common.Outcome.{Outcome, ok, raise, ◌>>=◌, ◌>>◌, require, handshake_error}
use whatsapp_cli.Common.Utf8.{Bytes, Str, codes}
use whatsapp_cli.Noise.Primitives.{Primitives}
use whatsapp_cli.Noise.Symmetric.{
  NoiseHandshake, NoiseSocket, new_handshake, new_socket, start, authenticate, encrypt, decrypt,
  mix_shared_secret, finish,
}
use whatsapp_cli.Noise.Certificates.{CertificateParsers, verify_cert_chain}
use whatsapp_cli.Transport.Socket.{wa_header}

-- "Noise_XX_25519_AESGCM_SHA256" and four zero characters
abbrev pub noise_pattern : Str
noise_pattern = codes "Noise_XX_25519_AESGCM_SHA256" ++ (0 ∷ 0 ∷ 0 ∷ 0 ∷ [])

pub record ServerHello : Type 0 where
  pub ephemeral : Bytes
  pub static_ct : Bytes
  pub payload_ct : Bytes

-- `HandshakeMessage` of the generated bindings, for the three messages of the exchange.
pub record HandshakeBindings : Type 0 where
  pub client_hello : Bytes → Bytes
  pub parse_reply : Bytes → Outcome ServerHello
  pub client_finish : Bytes → Bytes → Bytes

pub record KeyPair : Type 0 where
  pub priv : Bytes
  pub public' : Bytes

-- The state and the result of one step, handed on unless it raised.
abbrev pub and_then {ℓ} :
    {A : Type ℓ} → NoiseHandshake × Outcome Bytes → (NoiseHandshake → Bytes → Outcome A) → Outcome A
and_then (s, ok b) f = f s b
and_then (s, raise e) f = raise e

module _ (p : Primitives) (parsers : CertificateParsers) (bindings : HandshakeBindings) where
  -- Up to the first message: the transcript holds the prologue and the client's ephemeral key.
  unfoldable pub begin : KeyPair → NoiseHandshake
  begin ephemeral = authenticate p (start p new_handshake noise_pattern wa_header) ephemeral.public'

  -- The last message and the traffic keys.
  unfoldable pub client_finish :
      NoiseHandshake → KeyPair → Bytes → Bytes → Outcome (Bytes × NoiseSocket)
  client_finish s noise_key server_eph client_payload =
      and_then (encrypt p s noise_key.public') λ s1 static_ct.
        and_then (encrypt p (mix_shared_secret p s1 noise_key.priv server_eph) client_payload)
          λ s2 payload_ct.
            let (write_key, read_key) = finish p s2 in
            ok (bindings.client_finish static_ct payload_ct, new_socket write_key read_key)

  -- What follows the server's hello.
  unfoldable pub on_server_hello :
      KeyPair → KeyPair → Bytes → ServerHello → Outcome (Bytes × NoiseSocket)
  on_server_hello ephemeral noise_key client_payload sh = do
    require (not (is_empty sh.ephemeral || (is_empty sh.static_ct || is_empty sh.payload_ct)))
        handshake_error
    require (length sh.ephemeral == 32) handshake_error
    let s1 = authenticate p (begin ephemeral) sh.ephemeral
    let s2 = mix_shared_secret p s1 ephemeral.priv sh.ephemeral
    and_then (decrypt p s2 sh.static_ct) λ s3 server_static.
        require (length server_static == 32) handshake_error
        >> and_then (decrypt p (mix_shared_secret p s3 ephemeral.priv server_static) sh.payload_ct)
            λ s4 cert_bytes.
              verify_cert_chain p parsers cert_bytes server_static
              >> client_finish s4 noise_key sh.ephemeral client_payload

  -- The two messages sent, and the traffic socket. `reply` is what `fs.recv` gives.
  unfoldable pub do_handshake :
      KeyPair → KeyPair → Bytes → Outcome Bytes → Bytes × Outcome (Bytes × NoiseSocket)
  do_handshake ephemeral noise_key client_payload reply = (
    bindings.client_hello ephemeral.public',
    reply >>= λ resp.
        bindings.parse_reply resp >>= λ sh. on_server_hello ephemeral noise_key client_payload sh,
  )
