-- ===== src/Media.antt =====
-- The encryption of media: wa/media.py and the two helpers of wa/history.py that it uses, and the
-- padding of a message before encryption (`_unpad` of wa/signal/session.py).
pub mod Cipher
pub mod RoundTrip
