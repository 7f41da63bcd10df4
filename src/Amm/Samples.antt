-- ===== src/Amm/Samples.antt =====
-- The accounts of one pool and one user, for the tests of the AMM.
use solana_instructions_intr.Prelude.{ℕ, [], ◌∷◌, some, false}
use solana_instructions_intr.Solana.{Pubkey}
use solana_instructions_intr.Amm.Types.{Config}
use solana_instructions_intr.Amm.Accounts.{Swap, LpAccounts, BurnLp, AreDistinct, AreLpDistinct}

abbrev pub key : ℕ → Pubkey
key n = n ∷ []

abbrev pub config : Config
config = record {
  seed = 1;
  authority = some (key 1);
  mint_x = key 2;
  mint_y = key 3;
  fee = 30;
  locked = false;
  config_bump = 255;
  lp_bump = 254;
}

abbrev pub trade : Swap
trade = record {
  user = key 1;
  mint_x = key 2;
  mint_y = key 3;
  config_key = key 4;
  config = config;
  mint_lp = key 5;
  vault_x = key 6;
  vault_y = key 7;
  user_x = key 8;
  user_y = key 9;
  token_program = key 10;
  system_program = key 11;
  associated_token_program = key 12;
}

abbrev pub holder : LpAccounts
holder = record { trade = trade; user_lp = key 13 }

abbrev pub burner : BurnLp
burner = record {
  user = key 1;
  mint_x = key 2;
  mint_y = key 3;
  config_key = key 4;
  config = config;
  mint_lp = key 5;
  user_lp = key 13;
  token_program = key 10;
  system_program = key 11;
  associated_token_program = key 12;
}

pub trade-AreDistinct : AreDistinct trade
trade-AreDistinct = record {
  x_sides = λ p. cc;
  y_sides = λ p. cc;
  vaults = λ p. cc;
  users = λ p. cc;
  x_vault_y_user = λ p. cc;
  y_vault_x_user = λ p. cc;
}

pub holder-AreLpDistinct : AreLpDistinct holder
holder-AreLpDistinct = record {
  trading = trade-AreDistinct;
  lp_vault_x = λ p. cc;
  lp_user_x = λ p. cc;
  lp_vault_y = λ p. cc;
  lp_user_y = λ p. cc;
}
