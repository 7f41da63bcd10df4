-- ===== src/Amm.antt =====
-- The AMM program (programs/amm/src).
pub mod Types
pub mod Accounts
pub mod Transfers
pub mod Swap
pub mod Deposit
pub mod Withdraw
pub mod Admin
pub mod Introspection
pub mod PoolSteps
pub mod Program
pub mod Transaction
mod Samples
mod Tests
mod Examples
mod BurnTests
mod AddressTests
mod ProgramTests
mod TransactionTests
mod OpeningTests
mod ExitTests
