-- ===== src/Cpmm/Swap.antt =====
-- Swap quotes of crates/cpmm/src/lib.rs: `swap`, `gamma`, `swap_out` and the two free functions
-- `swap_out_y_for_x` and `swap_out_x_for_y`.
pub mod Payout
pub mod Outcome
pub mod Product
use solana_instructions_intr.Prelude.{
  ℕ, Option, Bool, ◌&&◌, ok, err, ◌>>=◌, ◌>>◌, require, ok_or, and_then, ltb, leb, as_u64, u128_mod,
  checked_add, checked_mul, checked_sub, checked_div, true, false,
}
use solana_instructions_intr.Cpmm.Types.{
  bps, Side, side_x, side_y, balanced, PoolState, SwapQuote, CpmmResult, invalid_amount,
  zero_balance, invalid_fee, slippage_exceeded, overflow,
}

-- The checked chain that the four swap formulas share: the payout on reserves `r_in`, `r_out`
-- for `amount`, with every intermediate value a u128.
unfoldable pub quote_out : ℕ → ℕ → ℕ → ℕ → Option ℕ
quote_out gamma r_in r_out amount =
    and_then (and_then (checked_mul u128_mod gamma r_out) λ v. checked_mul u128_mod v amount) λ num.
      and_then
        (and_then (checked_mul u128_mod bps r_in)
          λ v. and_then (checked_mul u128_mod gamma amount) λ w. checked_add u128_mod v w)
        λ den. checked_div num den

unfoldable pub gamma : PoolState → CpmmResult ℕ
gamma p = ok_or (checked_sub bps p.fee_bps) invalid_fee

-- The `match side` of `swap_out`.
abbrev pub out_on : PoolState → ℕ → ℕ → Side → CpmmResult ℕ
out_on p g amount side_y = ok_or (quote_out g p.reserve_y p.reserve_x amount) overflow
out_on p g amount side_x = ok_or (quote_out g p.reserve_x p.reserve_y amount) overflow
out_on p g amount balanced = err invalid_amount

unfoldable pub swap_out : PoolState → ℕ → Side → CpmmResult ℕ
unfolding gamma
swap_out p amount_in side = do
  g ← gamma p
  wide ← out_on p g amount_in side
  let out = as_u64 wide
  require (ltb 0 out) invalid_amount
  ok out

-- `matches!(side, Side::X | Side::Y)`
abbrev pub is_one_sided : Side → Bool
is_one_sided side_x = true
is_one_sided side_y = true
is_one_sided balanced = false

unfoldable pub swap : PoolState → ℕ → Side → ℕ → CpmmResult SwapQuote
swap p amount_in side min_out = do
  require (ltb 0 amount_in) invalid_amount
  require (is_one_sided side) invalid_amount
  require (ltb 0 p.reserve_x && ltb 0 p.reserve_y) zero_balance
  require (ltb p.fee_bps bps) invalid_fee
  out ← swap_out p amount_in side
  require (leb min_out out) slippage_exceeded
  ok (record { amount_in = amount_in; amount_out = out })

unfoldable pub swap_out_y_for_x : ℕ → ℕ → ℕ → ℕ → CpmmResult ℕ
swap_out_y_for_x x y amount_y fee_bps = do
  g ← ok_or (checked_sub bps fee_bps) invalid_fee
  wide ← ok_or (quote_out g y x amount_y) overflow
  ok (as_u64 wide)

unfoldable pub swap_out_x_for_y : ℕ → ℕ → ℕ → ℕ → CpmmResult ℕ
swap_out_x_for_y x y amount_x fee_bps = do
  g ← ok_or (checked_sub bps fee_bps) invalid_fee
  wide ← ok_or (quote_out g x y amount_x) overflow
  ok (as_u64 wide)
