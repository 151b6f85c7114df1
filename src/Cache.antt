-- ===== src/Cache.antt =====
-- wa/cache.py: the chats on disk, as what the files hold.
pub mod Chats
pub mod Summary
pub mod Canonical
