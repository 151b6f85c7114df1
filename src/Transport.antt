-- ===== src/Transport.antt =====
-- wa/transport/framesocket.py: frames over the WebSocket.
pub mod Framing
pub mod Chunks
pub mod Frames
pub mod Socket
pub mod Delivery
