-- ===== src/Dice/Resolve.antt =====
-- The roll and the payout of resolve_bet.rs and resolve_from_entropy.rs of
-- programs/dice_game/src/instructions: two copies of the same code, which differ in the bytes
-- that are hashed. The SHA-256 hash is a parameter.
pub mod Payout
use solana_instructions_intr.Prelude.{
  ℕ, ◌+◌, ◌-◌, ◌%◌, List, ◌++◌, ok, ◌>>=◌, ◌>>◌, require, ok_or, or_panic, ltb, if◌then◌else◌, take,
  drop, to_le_bytes, from_le_bytes, u8_mod, u64_mod, u128_mod, checked_add, checked_sub,
  checked_mul, checked_div,
}
use solana_instructions_intr.Solana.{Pubkey, custom}
use solana_instructions_intr.Dice.Types.{Bet, Rolled, called, house_edge_bps, math_error}
use solana_instructions_intr.Dice.Bets.{SystemOps, Table, vault_signer}

-- `lower.wrapping_add(upper).wrapping_rem(100) as u8 + 1` of the 32 bytes of the hash.
unfoldable pub drawn_roll : List ℕ → Rolled ℕ
drawn_roll hash =
    let lower = from_le_bytes (take 16 hash) in
    let upper = from_le_bytes (take 16 (drop 16 hash)) in
    or_panic (checked_add u8_mod ((lower + upper) % u128_mod % 100 % u8_mod) 1)

unfoldable pub win_payout : Bet → Rolled ℕ
win_payout bet = do
  winning_numbers ← or_panic (checked_sub bet.roll 1)
  staked ← ok_or (checked_mul u128_mod bet.amount (10_000 - house_edge_bps)) (custom math_error)
  shared ← ok_or (checked_div staked winning_numbers) (custom math_error)
  payout ← ok_or (checked_div shared 100) (custom math_error)
  require (ltb payout u64_mod) (custom math_error)
  ok payout

module _ (t : SystemOps) where
  open t use {Lamports}

  unfoldable pub pay_win : Table → Bet → Lamports → Rolled Lamports
  pay_win k bet l = do
    payout ← win_payout bet
    called (t.transfer (vault_signer k) k.vault k.player payout l)

  -- What both handlers do with the hash.
  unfoldable pub settle_bet : Table → Bet → List ℕ → Lamports → Rolled Lamports
  settle_bet k bet hash l = do
    roll ← drawn_roll hash
    if ltb roll bet.roll then pay_win k bet l else ok l

  module _ (sha256 : List ℕ → List ℕ) where
    unfoldable pub resolve_bet : Table → Bet → List ℕ → Lamports → Rolled Lamports
    resolve_bet k bet sig l = settle_bet k bet (sha256 sig) l

    -- `resolve_bet` of `ResolveFromEntropy`.
    unfoldable pub resolve_from_entropy : Table → Pubkey → Bet → List ℕ → Lamports → Rolled Lamports
    resolve_from_entropy k bet_key bet entropy l =
        settle_bet k bet (sha256 (entropy ++ (bet_key ++ to_le_bytes 8 bet.slot))) l
