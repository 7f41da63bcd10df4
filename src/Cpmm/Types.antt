-- ===== src/Cpmm/Types.antt =====
-- The data of crates/cpmm/src/lib.rs and error.rs. Amounts are numbers; `IsWellTyped` states the
-- ranges of the Rust integer types.
use solana_instructions_intr.Prelude.{ℕ, Result, IsU64, IsU16}

abbrev pub bps : ℕ
bps = 10_000

pub data Side : Type 0 where
  side_x side_y balanced : Side

pub record PoolState : Type 0 where
  pub reserve_x : ℕ
  pub reserve_y : ℕ
  pub lp_supply : ℕ
  pub fee_bps : ℕ

abbrev pub new : ℕ → ℕ → ℕ → ℕ → PoolState
new reserve_x reserve_y lp_supply fee_bps = record {
  reserve_x = reserve_x;
  reserve_y = reserve_y;
  lp_supply = lp_supply;
  fee_bps = fee_bps;
}

-- The field types of `PoolState`.
pub record IsWellTyped (p : PoolState) : Type 0 where
  pub reserve_x_u64 : IsU64 p.reserve_x
  pub reserve_y_u64 : IsU64 p.reserve_y
  pub lp_supply_u64 : IsU64 p.lp_supply
  pub fee_bps_u16 : IsU16 p.fee_bps

pub record SwapQuote : Type 0 where
  pub amount_in : ℕ
  pub amount_out : ℕ

pub record DepositQuote : Type 0 where
  pub lp_minted : ℕ
  pub deposit_x : ℕ
  pub deposit_y : ℕ
  pub swap_in_x : ℕ
  pub swap_in_y : ℕ
  pub swap_out_x : ℕ
  pub swap_out_y : ℕ

pub record WithdrawQuote : Type 0 where
  pub withdraw_x : ℕ
  pub withdraw_y : ℕ
  pub pro_rata_x : ℕ
  pub pro_rata_y : ℕ
  pub swap_in_x : ℕ
  pub swap_in_y : ℕ
  pub swap_out_x : ℕ
  pub swap_out_y : ℕ

pub data CpmmError : Type 0 where
  invalid_amount zero_balance invalid_fee slippage_exceeded overflow underflow : CpmmError

abbrev pub CpmmResult : Type 0 → Type 0
CpmmResult A = Result CpmmError A
