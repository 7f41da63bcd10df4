-- ===== src/Amm/Withdraw.antt =====
-- programs/amm/src/instructions/withdraw.rs and burn_lp.rs.
pub mod Payments
pub mod Settlement
pub mod Exit
use solana_instructions_intr.Prelude.{ℕ, true, false, not, [], ◌>>=◌, ◌>>◌, require}
use solana_instructions_intr.Solana.{Pubkey, custom, CpiContext}
use solana_instructions_intr.Solana.Token.{TokenOps, Burn}
use solana_instructions_intr.Cpmm.Types.{WithdrawQuote}
use solana_instructions_intr.Cpmm.Withdraw
use solana_instructions_intr.Amm.Types.{
  OperationSide, op_x, op_y, op_balanced, to_side, Handled, quoted, called, pool_locked,
}
use solana_instructions_intr.Amm.Accounts.{Swap, LpAccounts, BurnLp}
use solana_instructions_intr.Amm.Transfers.{pool_of, transfer_user_to_vault, transfer_vault_to_user}

-- The burn of the user's LP tokens.
abbrev pub lp_burn : Pubkey → Pubkey → Pubkey → CpiContext Burn
lp_burn mint_lp user_lp user = record {
  accounts = record { mint = mint_lp; from = user_lp; authority = user };
  signer_seeds = [];
}

module _ (t : TokenOps) where
  open t use {Ledger}

  -- The branch of `Side::X | Side::Y`.
  unfoldable pub single_sided_transfers : Swap → WithdrawQuote → Ledger → Handled Ledger
  single_sided_transfers a q l = do
    l1 ← transfer_vault_to_user t a true q.pro_rata_x l
    l2 ← transfer_vault_to_user t a false q.pro_rata_y l1
    l3 ← transfer_user_to_vault t a true q.swap_in_x l2
    l4 ← transfer_user_to_vault t a false q.swap_in_y l3
    l5 ← transfer_vault_to_user t a true q.swap_out_x l4
    transfer_vault_to_user t a false q.swap_out_y l5

  unfoldable pub execute_withdraw_transfers :
      Swap → OperationSide → WithdrawQuote → Ledger → Handled Ledger
  execute_withdraw_transfers a op_balanced q l = do
    l1 ← transfer_vault_to_user t a true q.withdraw_x l
    transfer_vault_to_user t a false q.withdraw_y l1
  execute_withdraw_transfers a op_x q l = single_sided_transfers a q l
  execute_withdraw_transfers a op_y q l = single_sided_transfers a q l

  unfoldable pub burn_lp_tokens : LpAccounts → ℕ → Ledger → Handled Ledger
  burn_lp_tokens a amount l = called (t.burn (lp_burn a.mint_lp a.user_lp a.user) amount l)

  unfoldable pub withdraw : LpAccounts → ℕ → OperationSide → ℕ → ℕ → Ledger → Handled Ledger
  withdraw a lp_amount side min_x min_y l = do
    require (not a.config.locked) (custom pool_locked)
    quote ← quoted (
        Withdraw.withdraw (pool_of t a.trade (t.supply l a.mint_lp) l) lp_amount (to_side side)
          min_x min_y)
    l1 ← execute_withdraw_transfers a.trade side quote l
    burn_lp_tokens a lp_amount l1

  -- The instruction of its own in burn_lp.rs.
  unfoldable pub burn_lp : BurnLp → ℕ → Ledger → Handled Ledger
  burn_lp a amount l = do
    require (not a.config.locked) (custom pool_locked)
    called (t.burn (lp_burn a.mint_lp a.user_lp a.user) amount l)
