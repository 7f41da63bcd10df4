-- ===== src/Dice.antt =====
-- The dice game program (programs/dice_game/src).
pub mod Types
pub mod Bets
pub mod Ed25519
pub mod Entropy
pub mod Resolve
pub mod Program
mod Tests
mod GameTests
mod PriorTests
mod SignedTests
