-- ===== src/Messages.antt =====
-- The hand-written messages: wa/messages.py, and of wa/cli.py the text builders, `_extract_text` and
-- `_phash`.
pub mod Build
pub mod Quoted
pub mod Replies
pub mod Errors
pub mod Text
pub mod ReadBack
pub mod MediaRef
pub mod Phash
pub mod PhashOrder
