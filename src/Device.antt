-- ===== src/Device.antt =====
-- The companion device: its state, its pairing with a phone and its keys.
pub mod State
pub mod Pairing
pub mod Paired
pub mod PairGuard
pub mod Prekeys
pub mod Bundles
