-- ===== src/Cpmm.antt =====
-- The CPMM crate (crates/cpmm/src).
pub mod Types
pub mod Swap
pub mod Isqrt
pub mod Deposit
pub mod Withdraw
pub mod Panics
pub mod RoundTrip
mod Tests
mod Examples
