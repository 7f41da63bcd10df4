-- ===== src/Amm/Swap.antt =====
-- programs/amm/src/instructions/swap.rs.
pub mod Settlement
use solana_instructions_intr.Prelude.{ℕ, Bool, true, false, not, ok, ◌>>=◌, ◌>>◌, require, IsU64}
use solana_instructions_intr.Solana.{custom}
use solana_instructions_intr.Solana.Token.{TokenOps}
use solana_instructions_intr.Cpmm.Swap
use solana_instructions_intr.Amm.Types.{
  OperationSide, op_x, op_y, op_balanced, to_side, Handled, quoted, called, pool_locked,
}
use solana_instructions_intr.Amm.Accounts.{Swap}
use solana_instructions_intr.Amm.Transfers.{pool_of, user_pays, vault_pays}

-- `side == OperationSide::X`
abbrev pub is_x_side : OperationSide → Bool
is_x_side op_x = true
is_x_side op_y = false
is_x_side op_balanced = false

module _ (t : TokenOps) where
  open t use {Ledger}

  unfoldable pub deposit_tokens : Swap → Bool → ℕ → Ledger → Handled Ledger
  deposit_tokens a is_x amount l = called (t.transfer (user_pays t a is_x) amount l)

  -- The payout is in the other token.
  unfoldable pub withdraw_tokens : Swap → Bool → ℕ → Ledger → Handled Ledger
  withdraw_tokens a is_x amount l = called (t.transfer (vault_pays t a (not is_x)) amount l)

  unfoldable pub swap : Swap → ℕ → OperationSide → ℕ → Ledger → Handled Ledger
  swap a amount side min_out l = do
    require (not a.config.locked) (custom pool_locked)
    quote ← quoted (Swap.swap (pool_of t a (t.supply l a.mint_lp) l) amount (to_side side) min_out)
    l1 ← deposit_tokens a (is_x_side side) quote.amount_in l
    withdraw_tokens a (is_x_side side) quote.amount_out l1
