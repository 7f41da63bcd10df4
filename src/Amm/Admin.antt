-- ===== src/Amm/Admin.antt =====
-- programs/amm/src/instructions/initialize.rs and update_config.rs.
pub mod History
use solana_instructions_intr.Prelude.{ℕ, Bool, false, Option, none, some, ok, ◌>>◌, require, ltb}
use solana_instructions_intr.Solana.{Pubkey, key_eq, custom}
use solana_instructions_intr.Cpmm.Types.{bps}
use solana_instructions_intr.Amm.Types.{Config, Handled, invalid_fee_amount, unauthorized}
use solana_instructions_intr.Amm.Accounts.{UpdateConfig}

-- The keys of the mints and the bumps that Anchor found for the new accounts.
pub record Initialize : Type 0 where
  pub mint_x : Pubkey
  pub mint_y : Pubkey
  pub bump_config : ℕ
  pub bump_mint_lp : ℕ

unfoldable pub init : Initialize → ℕ → ℕ → Option Pubkey → Handled Config
init a seed fee authority = ok (record {
  seed = seed;
  authority = authority;
  mint_x = a.mint_x;
  mint_y = a.mint_y;
  fee = fee;
  locked = false;
  config_bump = a.bump_config;
  lp_bump = a.bump_mint_lp;
})

-- `self.config.authority == Some(self.user.key())`
abbrev pub is_authority : Option Pubkey → Pubkey → Bool
is_authority none user = false
is_authority (some k) user = key_eq k user

unfoldable pub update : UpdateConfig → ℕ → Option Pubkey → Bool → Handled Config
update a fee authority locked = do
  require (ltb fee bps) (custom invalid_fee_amount)
  require (is_authority a.config.authority a.user) (custom unauthorized)
  let c = a.config
  ok (record c { fee = fee; authority = authority; locked = locked })
