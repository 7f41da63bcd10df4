-- ===== src/Amm/Deposit.antt =====
-- programs/amm/src/instructions/deposit.rs.
pub mod Settlement
use solana_instructions_intr.Prelude.{ℕ, true, false, not, Option, ◌>>=◌, ◌>>◌, require}
use solana_instructions_intr.Solana.{custom, CpiContext}
use solana_instructions_intr.Solana.Token.{TokenOps, MintTo}
use solana_instructions_intr.Cpmm.Types.{DepositQuote}
use solana_instructions_intr.Cpmm.Deposit
use solana_instructions_intr.Amm.Types.{
  OperationSide, op_x, op_y, op_balanced, to_side, Handled, quoted, called, pool_locked,
  config_signer,
}
use solana_instructions_intr.Amm.Accounts.{LpAccounts}
use solana_instructions_intr.Amm.Transfers.{pool_of, transfer_user_to_vault, transfer_vault_to_user}

module _ (t : TokenOps) where
  open t use {Ledger}

  unfoldable pub execute_deposit_transfers :
      LpAccounts → OperationSide → DepositQuote → Ledger → Handled Ledger
  execute_deposit_transfers a op_balanced q l = do
    l1 ← transfer_user_to_vault t a.trade true q.deposit_x l
    transfer_user_to_vault t a.trade false q.deposit_y l1
  execute_deposit_transfers a op_x q l = do
    l1 ← transfer_user_to_vault t a.trade true q.swap_in_x l
    l2 ← transfer_vault_to_user t a.trade false q.swap_out_y l1
    l3 ← transfer_user_to_vault t a.trade true q.deposit_x l2
    transfer_user_to_vault t a.trade false q.deposit_y l3
  execute_deposit_transfers a op_y q l = do
    l1 ← transfer_user_to_vault t a.trade false q.swap_in_y l
    l2 ← transfer_vault_to_user t a.trade true q.swap_out_x l1
    l3 ← transfer_user_to_vault t a.trade true q.deposit_x l2
    transfer_user_to_vault t a.trade false q.deposit_y l3

  abbrev pub lp_mint : LpAccounts → CpiContext MintTo
  lp_mint a = record {
    accounts = record { mint = a.mint_lp; to = a.user_lp; authority = a.config_key };
    signer_seeds = config_signer a.config;
  }

  unfoldable pub mint_lp_tokens : LpAccounts → ℕ → Ledger → Handled Ledger
  mint_lp_tokens a amount l = called (t.mint_to (lp_mint a) amount l)

  unfoldable pub deposit :
      LpAccounts → Option ℕ → Option ℕ → OperationSide → ℕ → Ledger → Handled Ledger
  deposit a token_x token_y side min_lp l = do
    require (not a.config.locked) (custom pool_locked)
    quote ← quoted (
        Deposit.deposit (pool_of t a.trade (t.supply l a.mint_lp) l) token_x token_y (to_side side)
          min_lp)
    l1 ← execute_deposit_transfers a side quote l
    mint_lp_tokens a quote.lp_minted l1
