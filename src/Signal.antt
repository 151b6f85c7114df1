-- ===== src/Signal.antt =====
-- wa/signal/session.py: the Signal sessions with other devices and what is saved of them.
pub mod State
pub mod Ops
pub mod Keys
pub mod Saved
pub mod Mirror
pub mod Restore
pub mod Restart
pub mod Reload
