-- ===== src/Noise.antt =====
-- wa/crypto/noise.py and wa/handshake.py: the Noise XX handshake and the encrypted stream behind it.
pub mod Primitives
pub mod Symmetric
pub mod Lockstep
pub mod Nonce
pub mod Certificates
pub mod Handshake
pub mod Mirror
pub mod Responder
pub mod Agreement
