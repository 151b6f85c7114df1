-- ===== src/Session.antt =====
-- wa/session.py: the one reader of a live connection.
pub mod State
pub mod Stanzas
pub mod Handle
pub mod Promise
pub mod Owed
pub mod Spelled
pub mod Rows
pub mod Promised
pub mod Calls
pub mod Futures
pub mod Answers
pub mod Invariant
pub mod Runs
pub mod Closing
pub mod Ends
pub mod Ending
pub mod Drain
