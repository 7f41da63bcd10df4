-- ===== src/Cpmm/Deposit.antt =====
-- Deposit quotes of crates/cpmm/src/lib.rs.
pub mod Unused
pub mod Later
pub mod Single
pub mod First
pub mod Backing
pub mod Shares
pub mod Opening
use solana_instructions_intr.Prelude.{
  ℕ, ◌/◌, min, Option, none, some, ◌&&◌, ok, err, ◌>>=◌, ◌>>◌, require, ok_or, or_panic, and_then,
  ltb, leb, ◌==◌, if◌then◌else◌, as_u64, u64_mod, u128_mod, checked_add, checked_mul, checked_sub,
  checked_div,
}
use solana_instructions_intr.Cpmm.Types.{
  bps, Side, side_x, side_y, balanced, PoolState, DepositQuote, CpmmResult, invalid_amount,
  zero_balance, invalid_fee, slippage_exceeded, overflow, underflow,
}
use solana_instructions_intr.Cpmm.Swap.{swap_out}
use solana_instructions_intr.Cpmm.Isqrt.{isqrt}

-- `a.checked_mul(b).and_then(|v| v.checked_div(d)).ok_or(Overflow)?` on u128
abbrev pub mul_div : ℕ → ℕ → ℕ → CpmmResult ℕ
mul_div a b d = ok_or (and_then (checked_mul u128_mod a b) λ v. checked_div v d) overflow

abbrev pub balanced_quote : ℕ → ℕ → ℕ → DepositQuote
balanced_quote lp x y = record {
  lp_minted = lp;
  deposit_x = x;
  deposit_y = y;
  swap_in_x = 0;
  swap_in_y = 0;
  swap_out_x = 0;
  swap_out_y = 0;
}

-- The branch `self.lp_supply == 0`.
unfoldable pub first_mint : ℕ → ℕ → ℕ → CpmmResult DepositQuote
first_mint token_x token_y min_lp = do
  product ← or_panic (checked_mul u128_mod token_x token_y)
  root ← or_panic (isqrt product)
  let lp_minted = as_u64 root
  require (leb min_lp lp_minted) slippage_exceeded
  require (ltb 0 lp_minted) invalid_amount
  ok (balanced_quote lp_minted token_x token_y)

-- The rest of the body, where `self.lp_supply > 0`.
unfoldable pub later_mint : PoolState → ℕ → ℕ → ℕ → CpmmResult DepositQuote
later_mint p token_x token_y min_lp = do
  lp_from_x ← mul_div token_x p.lp_supply p.reserve_x
  lp_from_y ← mul_div token_y p.lp_supply p.reserve_y
  let lp = min lp_from_x lp_from_y
  wide_x ← mul_div p.reserve_x lp p.lp_supply
  wide_y ← mul_div p.reserve_y lp p.lp_supply
  let deposit_x = as_u64 wide_x
  let deposit_y = as_u64 wide_y
  let lp_minted = as_u64 lp
  require (leb min_lp lp_minted) slippage_exceeded
  require (ltb 0 deposit_x && ltb 0 deposit_y) invalid_amount
  ok (balanced_quote lp_minted deposit_x deposit_y)

unfoldable pub deposit_balanced : PoolState → ℕ → ℕ → ℕ → CpmmResult DepositQuote
deposit_balanced p token_x token_y min_lp = do
  require (ltb 0 token_x && ltb 0 token_y) invalid_amount
  if p.lp_supply == 0
      then first_mint token_x token_y min_lp
      else later_mint p token_x token_y min_lp

unfoldable pub deposit_single_x : PoolState → ℕ → ℕ → CpmmResult DepositQuote
deposit_single_x p token_x min_lp = do
  require (ltb 1 token_x) invalid_amount
  require (ltb 0 p.lp_supply) zero_balance
  let swap_amount = token_x / 2
  remaining_x ← or_panic (checked_sub token_x swap_amount)
  y_out ← swap_out p swap_amount side_x
  x' ← ok_or (checked_add u64_mod p.reserve_x swap_amount) overflow
  y' ← ok_or (checked_sub p.reserve_y y_out) underflow
  quote ← deposit_balanced (record p { reserve_x = x'; reserve_y = y' }) remaining_x y_out min_lp
  ok (record quote { swap_in_x = swap_amount; swap_out_y = y_out })

unfoldable pub deposit_single_y : PoolState → ℕ → ℕ → CpmmResult DepositQuote
deposit_single_y p token_y min_lp = do
  require (ltb 1 token_y) invalid_amount
  require (ltb 0 p.lp_supply) zero_balance
  let swap_amount = token_y / 2
  remaining_y ← or_panic (checked_sub token_y swap_amount)
  x_out ← swap_out p swap_amount side_y
  x' ← ok_or (checked_sub p.reserve_x x_out) underflow
  y' ← ok_or (checked_add u64_mod p.reserve_y swap_amount) overflow
  quote ← deposit_balanced (record p { reserve_x = x'; reserve_y = y' }) x_out remaining_y min_lp
  ok (record quote { swap_in_y = swap_amount; swap_out_x = x_out })

-- The `match (token_x, token_y, side)` of `deposit`.
abbrev pub deposit_on : PoolState → Option ℕ → Option ℕ → Side → ℕ → CpmmResult DepositQuote
deposit_on p (some x) (some y) balanced min_lp = deposit_balanced p x y min_lp
deposit_on p (some x) none side_x min_lp = deposit_single_x p x min_lp
deposit_on p none (some y) side_y min_lp = deposit_single_y p y min_lp
deposit_on p _ _ _ _ = err invalid_amount

unfoldable pub deposit : PoolState → Option ℕ → Option ℕ → Side → ℕ → CpmmResult DepositQuote
deposit p token_x token_y side min_lp = do
  require (ltb p.fee_bps bps) invalid_fee
  deposit_on p token_x token_y side min_lp
