-- ===== src/Cpmm/Swap/Outcome.antt =====
-- What `swap` answers on every input, in plain arithmetic.
use native.Mathlib.Nat
use solana_instructions_intr.Prelude.{
  not, ◌||◌, ◌^◌, ℕ, ◌*◌, ◌-◌, ◌≤◌, ◌<◌, ◌≡◌, refl, arith, some, none, ok, err, true, ltb, leb,
  ◌==◌, if◌then◌else◌, u128_mod, IsU64,
}
use solana_instructions_intr.Cpmm.Types.{
  bps, Side, side_x, side_y, balanced, PoolState, IsWellTyped, SwapQuote, CpmmResult,
  invalid_amount, zero_balance, invalid_fee, slippage_exceeded, overflow,
}
use solana_instructions_intr.Cpmm.Swap.{quote_out, gamma, swap_out, is_one_sided, swap}
use solana_instructions_intr.Cpmm.Swap.Payout.{payout, payout-lt}

-- The reserve that the payer adds to, and the one that pays out.
abbrev pub reserve_in : PoolState → Side → ℕ
reserve_in p side_x = p.reserve_x
reserve_in p side_y = p.reserve_y
reserve_in p balanced = 0

abbrev pub reserve_out : PoolState → Side → ℕ
reserve_out p side_x = p.reserve_y
reserve_out p side_y = p.reserve_x
reserve_out p balanced = 0

-- The payout of a swap on a pool whose fee is valid.
abbrev pub pool_payout : PoolState → Side → ℕ → ℕ
pool_payout p side a = payout (bps - p.fee_bps) (reserve_in p side) (reserve_out p side) a

-- The product that the code has to keep below 2 ^ 128.
abbrev pub numerator : PoolState → Side → ℕ → ℕ
numerator p side a = (bps - p.fee_bps) * reserve_out p side * a

-- A fee factor times a u64 stays far below 2 ^ 128.
pub fee_times-lt : (g n : ℕ) → g ≤ bps → IsU64 n → g * n < 2 ^ 80
fee_times-lt g n fee b = omega (arith, Nat.mul-le-mul_right n fee)

-- The chain of checked operations is one floor division, and it fails only on the numerator.
pub quote_out_lem :
    (g r_in r_out a : ℕ)
    → g ≤ bps
    → 0 < r_in
    → IsU64 r_in
    → IsU64 r_out
    → IsU64 a
    → quote_out g r_in r_out a
      ≡ (if ltb (g * r_out * a) u128_mod then some (payout g r_in r_out a) else none)
unfolding quote_out payout
quote_out_lem g r_in r_out a fee hi bi bo ba =
    ground (arith, fee_times-lt g r_out fee bo, fee_times-lt g a fee ba)

-- `swap_out` in plain arithmetic, for a one-sided swap.
abbrev pub swap_out_outcome : PoolState → Side → ℕ → CpmmResult ℕ
swap_out_outcome p side a =
    let out = pool_payout p side a in
    if ltb (numerator p side a) u128_mod
    then if ltb 0 out then ok out else err invalid_amount
    else err overflow

pub swap_out_lem :
    (p : PoolState) (side : Side) (a : ℕ)
    → IsWellTyped p
    → is_one_sided side ≡ true
    → 0 < p.reserve_x
    → 0 < p.reserve_y
    → p.fee_bps < bps
    → IsU64 a
    → swap_out p a side ≡ swap_out_outcome p side a
unfolding swap_out gamma
swap_out_lem p side_x a w s hx hy hf ha = ground (
  arith,
  quote_out_lem (bps - p.fee_bps) p.reserve_x p.reserve_y a,
  payout-lt (bps - p.fee_bps) p.reserve_x p.reserve_y a,
)
swap_out_lem p side_y a w s hx hy hf ha = ground (
  arith,
  quote_out_lem (bps - p.fee_bps) p.reserve_y p.reserve_x a,
  payout-lt (bps - p.fee_bps) p.reserve_y p.reserve_x a,
)
swap_out_lem p balanced a w s hx hy hf ha = cc

-- All branches of `swap`, in the order in which they are tried.
abbrev pub swap_outcome : PoolState → ℕ → Side → ℕ → CpmmResult SwapQuote
swap_outcome p a side min_out =
    let out = pool_payout p side a in
    if a == 0
    then err invalid_amount
    else if not (is_one_sided side)
    then err invalid_amount
    else if p.reserve_x == 0 || p.reserve_y == 0
    then err zero_balance
    else if leb bps p.fee_bps
    then err invalid_fee
    else if leb u128_mod (numerator p side a)
    then err overflow
    else if out == 0
    then err invalid_amount
    else if ltb out min_out
    then err slippage_exceeded
    else ok (record { amount_in = a; amount_out = out })

-- On every pool and amount of the Rust types, `swap` answers what that table says.
pub swap-swap_outcome :
    (p : PoolState) (a : ℕ) (side : Side) (min_out : ℕ)
    → IsWellTyped p
    → IsU64 a
    → swap p a side min_out ≡ swap_outcome p a side min_out
unfolding swap
swap-swap_outcome p a side_x min_out w ha = ground (arith, swap_out_lem p side_x a w refl)
swap-swap_outcome p a side_y min_out w ha = ground (arith, swap_out_lem p side_y a w refl)
swap-swap_outcome p a balanced min_out w ha = ground arith
