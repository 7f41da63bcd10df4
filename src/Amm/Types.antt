-- ===== src/Amm/Types.antt =====
-- programs/amm/src/state.rs, error.rs and constants.rs.
use solana_instructions_intr.Prelude.{ℕ, Bool, Option, List, [], ◌∷◌, Result, map_err, to_le_bytes}
use solana_instructions_intr.Solana.{Pubkey, Failure, custom, program_error}
use solana_instructions_intr.Cpmm.Types.{Side, side_x, side_y, balanced, CpmmError, CpmmResult}

pub record Config : Type 0 where
  pub seed : ℕ
  pub authority : Option Pubkey
  pub mint_x : Pubkey
  pub mint_y : Pubkey
  pub fee : ℕ
  pub locked : Bool
  pub config_bump : ℕ
  pub lp_bump : ℕ

pub data OperationSide : Type 0 where
  op_x op_y op_balanced : OperationSide

-- `impl From<OperationSide> for Side`
abbrev pub to_side : OperationSide → Side
to_side op_x = side_x
to_side op_y = side_y
to_side op_balanced = balanced

pub data AmmError : Type 0 where
  custom_error pool_locked invalid_precision overflow underflow invalid_fee_amount : AmmError
  insufficient_balance zero_balance slippage_limit_exceeded invalid_amount unauthorized : AmmError
  invalid_program_id wrong_accounts_count invalid_key invalid_data_length : AmmError
  missing_prior_instruction unexpected_discriminator : AmmError

-- `impl From<CpmmError> for AmmError`
abbrev pub from_cpmm : CpmmError → AmmError
from_cpmm CpmmError.invalid_amount = invalid_amount
from_cpmm CpmmError.zero_balance = zero_balance
from_cpmm CpmmError.invalid_fee = invalid_fee_amount
from_cpmm CpmmError.slippage_exceeded = slippage_limit_exceeded
from_cpmm CpmmError.overflow = overflow
from_cpmm CpmmError.underflow = underflow

abbrev pub Handled : Type 0 → Type 0
Handled A = Result (Failure AmmError) A

-- `.map_err(AmmError::from)?`
abbrev pub quoted : {A : Type 0} → CpmmResult A → Handled A
quoted r = map_err (λ e. custom (from_cpmm e)) r

-- The result of a call of another program.
abbrev pub called : {A : Type 0} → Result ℕ A → Handled A
called r = map_err program_error r

-- `b"lp"` and `b"config"`
abbrev pub lp_seed : List ℕ
lp_seed = b'l' ∷ b'p' ∷ []

abbrev pub config_seed : List ℕ
config_seed = b'c' ∷ b'o' ∷ b'n' ∷ b'f' ∷ b'i' ∷ b'g' ∷ []

-- The seeds by which the program signs for the config account.
abbrev pub config_signer : Config → List (List ℕ)
config_signer c = config_seed ∷ to_le_bytes 8 c.seed ∷ (c.config_bump ∷ []) ∷ []
