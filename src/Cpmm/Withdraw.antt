-- ===== src/Cpmm/Withdraw.antt =====
-- Withdrawal quotes of crates/cpmm/src/lib.rs.
pub mod Legs
pub mod FullExit
pub mod Backing
pub mod Value
pub mod Fairness
pub mod Sale
pub mod Exits
pub mod Outcome
use solana_instructions_intr.Prelude.{
  ℕ, ◌&&◌, ok, ◌>>=◌, ◌>>◌, require, ok_or, ltb, leb, as_u64, u128_mod, checked_add, checked_sub,
}
use solana_instructions_intr.Cpmm.Types.{
  Side, side_x, side_y, balanced, PoolState, WithdrawQuote, CpmmResult, invalid_amount,
  zero_balance, slippage_exceeded, overflow, underflow,
}
use solana_instructions_intr.Cpmm.Swap.{swap_out_y_for_x, swap_out_x_for_y}
use solana_instructions_intr.Cpmm.Deposit.{mul_div}

unfoldable pub withdraw_balanced : PoolState → ℕ → CpmmResult WithdrawQuote
withdraw_balanced p lp_amount = do
  wide_x ← mul_div p.reserve_x lp_amount p.lp_supply
  wide_y ← mul_div p.reserve_y lp_amount p.lp_supply
  let withdraw_x = as_u64 wide_x
  let withdraw_y = as_u64 wide_y
  require (ltb 0 withdraw_x && ltb 0 withdraw_y) invalid_amount
  ok (record {
    withdraw_x = withdraw_x;
    withdraw_y = withdraw_y;
    pro_rata_x = withdraw_x;
    pro_rata_y = withdraw_y;
    swap_in_x = 0;
    swap_in_y = 0;
    swap_out_x = 0;
    swap_out_y = 0;
  })

unfoldable pub withdraw_single_x : PoolState → ℕ → CpmmResult WithdrawQuote
withdraw_single_x p lp_amount = do
  wx0 ← mul_div p.reserve_x lp_amount p.lp_supply
  wy ← mul_div p.reserve_y lp_amount p.lp_supply
  x1 ← ok_or (checked_sub p.reserve_x wx0) underflow
  y1 ← ok_or (checked_sub p.reserve_y wy) underflow
  x_swap ← swap_out_y_for_x x1 y1 (as_u64 wy) p.fee_bps
  wide ← ok_or (checked_add u128_mod wx0 x_swap) overflow
  let total_x = as_u64 wide
  require (ltb 0 total_x) invalid_amount
  ok (record {
    withdraw_x = total_x;
    withdraw_y = 0;
    pro_rata_x = as_u64 wx0;
    pro_rata_y = as_u64 wy;
    swap_in_x = 0;
    swap_in_y = as_u64 wy;
    swap_out_x = x_swap;
    swap_out_y = 0;
  })

unfoldable pub withdraw_single_y : PoolState → ℕ → CpmmResult WithdrawQuote
withdraw_single_y p lp_amount = do
  wx ← mul_div p.reserve_x lp_amount p.lp_supply
  wy0 ← mul_div p.reserve_y lp_amount p.lp_supply
  x1 ← ok_or (checked_sub p.reserve_x wx) underflow
  y1 ← ok_or (checked_sub p.reserve_y wy0) underflow
  y_swap ← swap_out_x_for_y x1 y1 (as_u64 wx) p.fee_bps
  wide ← ok_or (checked_add u128_mod wy0 y_swap) overflow
  let total_y = as_u64 wide
  require (ltb 0 total_y) invalid_amount
  ok (record {
    withdraw_x = 0;
    withdraw_y = total_y;
    pro_rata_x = as_u64 wx;
    pro_rata_y = as_u64 wy0;
    swap_in_x = as_u64 wx;
    swap_in_y = 0;
    swap_out_x = 0;
    swap_out_y = y_swap;
  })

-- The `match side` of `withdraw`.
abbrev pub withdraw_on : PoolState → ℕ → Side → CpmmResult WithdrawQuote
withdraw_on p lp_amount balanced = withdraw_balanced p lp_amount
withdraw_on p lp_amount side_x = withdraw_single_x p lp_amount
withdraw_on p lp_amount side_y = withdraw_single_y p lp_amount

unfoldable pub withdraw : PoolState → ℕ → Side → ℕ → ℕ → CpmmResult WithdrawQuote
withdraw p lp_amount side min_x min_y = do
  require (ltb 0 lp_amount) invalid_amount
  require (ltb 0 p.lp_supply) zero_balance
  require (ltb 0 p.reserve_x && ltb 0 p.reserve_y) zero_balance
  quote ← withdraw_on p lp_amount side
  require (leb min_x quote.withdraw_x) slippage_exceeded
  require (leb min_y quote.withdraw_y) slippage_exceeded
  ok quote
