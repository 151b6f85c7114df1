-- ===== src/History.antt =====
-- wa/history.py: the history that the phone sends to a new device.
pub mod Payload
pub mod Sync
pub mod Conversation
pub mod Notified
