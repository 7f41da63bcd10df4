-- ===== src/Amm/Transfers.antt =====
-- The calls of the token program that the instructions of programs/amm/src/instructions share.
-- `Deposit`, `Withdraw` and `WithdrawWithIntrospection` have these methods word for word.
pub mod Flow
pub mod Spared
use solana_instructions_intr.Prelude.{ℕ, Bool, true, false, [], ok, ◌==◌, if◌then◌else◌}
use solana_instructions_intr.Solana.{Pubkey, CpiContext}
use solana_instructions_intr.Solana.Token.{TokenOps, Transfer}
use solana_instructions_intr.Cpmm.Types.{PoolState, new}
use solana_instructions_intr.Amm.Types.{Handled, called, config_signer}
use solana_instructions_intr.Amm.Accounts.{Swap}

-- The two token accounts of one side.
abbrev pub vault_of : Swap → Bool → Pubkey
vault_of a true = a.vault_x
vault_of a false = a.vault_y

abbrev pub account_of : Swap → Bool → Pubkey
account_of a true = a.user_x
account_of a false = a.user_y

module _ (t : TokenOps) where
  open t use {Ledger}

  -- The pool that an instruction computes with: what Anchor loaded at entry.
  abbrev pub pool_of : Swap → ℕ → Ledger → PoolState
  pool_of a lp_supply l = new (t.balance l a.vault_x) (t.balance l a.vault_y) lp_supply a.config.fee

  abbrev pub user_pays : Swap → Bool → CpiContext Transfer
  user_pays a is_x = record {
    accounts = record { from = account_of a is_x; to = vault_of a is_x; authority = a.user };
    signer_seeds = [];
  }

  abbrev pub vault_pays : Swap → Bool → CpiContext Transfer
  vault_pays a is_x = record {
    accounts = record { from = vault_of a is_x; to = account_of a is_x; authority = a.config_key };
    signer_seeds = config_signer a.config;
  }

  unfoldable pub transfer_user_to_vault : Swap → Bool → ℕ → Ledger → Handled Ledger
  transfer_user_to_vault a is_x amount l =
      if amount == 0 then ok l else called (t.transfer (user_pays a is_x) amount l)

  unfoldable pub transfer_vault_to_user : Swap → Bool → ℕ → Ledger → Handled Ledger
  transfer_vault_to_user a is_x amount l =
      if amount == 0 then ok l else called (t.transfer (vault_pays a is_x) amount l)
