-- ===== src/Amm/Accounts.antt =====
-- The account structs of programs/amm/src/instructions and their constraints. The amounts and the
-- supply that Anchor loads at entry are read from the ledger.
pub mod Distinct
use solana_instructions_intr.Prelude.{
  Bool, ◌&&◌, true, [], ◌∷◌, ◌≡◌, ◌≢◌, sym, arith, to_le_bytes, bytes_eq→eq,
}
use solana_instructions_intr.Solana.{Pubkey, key_eq, Derivation, IsCollisionFree}
use solana_instructions_intr.Amm.Types.{Config, config_seed, lp_seed}

-- The accounts of `Swap`; the other trading instructions have these and more.
pub record Swap : Type 0 where
  pub user : Pubkey
  pub mint_x : Pubkey
  pub mint_y : Pubkey
  pub config_key : Pubkey
  pub config : Config
  pub mint_lp : Pubkey
  pub vault_x : Pubkey
  pub vault_y : Pubkey
  pub user_x : Pubkey
  pub user_y : Pubkey
  pub token_program : Pubkey
  pub system_program : Pubkey
  pub associated_token_program : Pubkey

-- `Deposit` and `Withdraw` add the user's LP account.
pub record LpAccounts : Type 0 where
  pub trade : Swap
  pub open trade use *
  pub user_lp : Pubkey

-- `UpdateConfig`
pub record UpdateConfig : Type 0 where
  pub user : Pubkey
  pub config_key : Pubkey
  pub config : Config

-- `BurnLp` has no vaults and no token accounts of the user but that of the LP mint.
pub record BurnLp : Type 0 where
  pub user : Pubkey
  pub mint_x : Pubkey
  pub mint_y : Pubkey
  pub config_key : Pubkey
  pub config : Config
  pub mint_lp : Pubkey
  pub user_lp : Pubkey
  pub token_program : Pubkey
  pub system_program : Pubkey
  pub associated_token_program : Pubkey

module _ (d : Derivation) where
  -- The `#[account(...)]` constraints of `Swap`.
  unfoldable pub swap_constraints : Swap → Bool
  swap_constraints a =
      key_eq a.config.mint_x a.mint_x
      && key_eq a.config.mint_y a.mint_y
      && key_eq a.config_key
          (d.find_program_address (config_seed ∷ to_le_bytes 8 a.config.seed ∷ []))
      && key_eq a.mint_lp
          (d.create_program_address (lp_seed ∷ a.config_key ∷ (a.config.lp_bump ∷ []) ∷ []))
      && key_eq a.vault_x (d.associated_token a.config_key a.mint_x)
      && key_eq a.vault_y (d.associated_token a.config_key a.mint_y)
      && key_eq a.user_x (d.associated_token a.user a.mint_x)
      && key_eq a.user_y (d.associated_token a.user a.mint_y)

  -- Those of `Deposit` and `Withdraw`.
  unfoldable pub lp_constraints : LpAccounts → Bool
  lp_constraints a =
      swap_constraints a.trade && key_eq a.user_lp (d.associated_token a.user a.mint_lp)

  unfoldable pub burn_constraints : BurnLp → Bool
  burn_constraints a =
      key_eq a.config.mint_x a.mint_x
      && key_eq a.config.mint_y a.mint_y
      && key_eq a.config_key
          (d.find_program_address (config_seed ∷ to_le_bytes 8 a.config.seed ∷ []))
      && key_eq a.mint_lp
          (d.create_program_address (lp_seed ∷ a.config_key ∷ (a.config.lp_bump ∷ []) ∷ []))
      && key_eq a.user_lp (d.associated_token a.user a.mint_lp)

-- The four token accounts of a trade are pairwise different.
pub record AreDistinct (a : Swap) : Type 0 where
  pub x_sides : a.vault_x ≢ a.user_x
  pub y_sides : a.vault_y ≢ a.user_y
  pub vaults : a.vault_x ≢ a.vault_y
  pub users : a.user_x ≢ a.user_y
  pub x_vault_y_user : a.vault_x ≢ a.user_y
  pub y_vault_x_user : a.vault_y ≢ a.user_x

-- The LP account of the user is none of the four either.
pub record AreLpDistinct (a : LpAccounts) : Type 0 where
  pub trading : AreDistinct a.trade
  pub lp_vault_x : a.user_lp ≢ a.vault_x
  pub lp_user_x : a.user_lp ≢ a.user_x
  pub lp_vault_y : a.user_lp ≢ a.vault_y
  pub lp_user_y : a.user_lp ≢ a.user_y
