-- ===== src/Cpmm/Withdraw/Legs.antt =====
-- The amounts of a successful withdrawal of crates/cpmm/src/lib.rs, in plain arithmetic.
use solana_instructions_intr.Prelude.{
  ℕ, ◌+◌, ◌-◌, ◌*◌, ◌/◌, ◌≤◌, ◌<◌, ◌≡◌, arith, some, checked_sub, ok_or, ok, as_u64, IsU64,
  >>=-eq-ok,
}
use solana_instructions_intr.Cpmm.Types.{
  bps, PoolState, IsWellTyped, WithdrawQuote, CpmmError, underflow,
}
use solana_instructions_intr.Cpmm.Swap.{swap_out_y_for_x, swap_out_x_for_y, quote_out}
use solana_instructions_intr.Cpmm.Swap.Payout.{payout, payout-le}
use solana_instructions_intr.Cpmm.Deposit.{mul_div}
use solana_instructions_intr.Cpmm.Withdraw.{withdraw_balanced, withdraw_single_x, withdraw_single_y}

-- The share of `dl` out of `l` LP in a reserve `r`.
abbrev pub pro_rata : ℕ → ℕ → ℕ → ℕ
pro_rata r dl l = r * dl / l

quote_out-payout :
    (g r_in r_out a o : ℕ) → quote_out g r_in r_out a ≡ some o → o ≡ payout g r_in r_out a
unfolding quote_out payout
quote_out-payout g r_in r_out a o e = ground arith

y_for_x :
    (x y a fee o : ℕ)
    → IsU64 x
    → swap_out_y_for_x x y a fee ≡ ok o
    → (fee ≤ bps) × (o ≡ payout (bps - fee) y x a)
unfolding swap_out_y_for_x
y_for_x x y a fee o hx e = grind (arith, quote_out-payout, payout-le (bps - fee) y x a)

x_for_y :
    (x y a fee o : ℕ)
    → IsU64 y
    → swap_out_x_for_y x y a fee ≡ ok o
    → (fee ≤ bps) × (o ≡ payout (bps - fee) x y a)
unfolding swap_out_x_for_y
x_for_y x y a fee o hy e = grind (arith, quote_out-payout, payout-le (bps - fee) x y a)

-- A pro-rata withdrawal.
pub record BalancedLegs (p : PoolState) (dl : ℕ) (q : WithdrawQuote) : Type 0 where
  pub got_x : q.withdraw_x ≡ as_u64 (pro_rata p.reserve_x dl p.lp_supply)
  pub got_y : q.withdraw_y ≡ as_u64 (pro_rata p.reserve_y dl p.lp_supply)
  pub got_x_pos : 0 < q.withdraw_x
  pub got_y_pos : 0 < q.withdraw_y

-- A withdrawal of X alone: the pro-rata share of X, and what the share of Y buys from the rest.
pub record ExitX (p : PoolState) (dl : ℕ) (q : WithdrawQuote) : Type 0 where
  pub fee_le : p.fee_bps ≤ bps
  pub share_x_le : pro_rata p.reserve_x dl p.lp_supply ≤ p.reserve_x
  pub share_y_le : pro_rata p.reserve_y dl p.lp_supply ≤ p.reserve_y
  pub share_x : q.pro_rata_x ≡ pro_rata p.reserve_x dl p.lp_supply
  pub share_y : q.pro_rata_y ≡ pro_rata p.reserve_y dl p.lp_supply
  pub sold_y : q.swap_in_y ≡ q.pro_rata_y
  pub bought_x :
      q.swap_out_x
      ≡ payout
          (bps - p.fee_bps)
          (p.reserve_y - q.pro_rata_y)
          (p.reserve_x - q.pro_rata_x)
          q.pro_rata_y
  pub got_x : q.withdraw_x ≡ q.pro_rata_x + q.swap_out_x
  pub got_y : q.withdraw_y ≡ 0
  pub unused : (q.swap_in_x ≡ 0) × (q.swap_out_y ≡ 0)

-- A withdrawal of Y alone: the pro-rata share of Y, and what the share of X buys from the rest.
pub record ExitY (p : PoolState) (dl : ℕ) (q : WithdrawQuote) : Type 0 where
  pub fee_le : p.fee_bps ≤ bps
  pub share_x_le : pro_rata p.reserve_x dl p.lp_supply ≤ p.reserve_x
  pub share_y_le : pro_rata p.reserve_y dl p.lp_supply ≤ p.reserve_y
  pub share_x : q.pro_rata_x ≡ pro_rata p.reserve_x dl p.lp_supply
  pub share_y : q.pro_rata_y ≡ pro_rata p.reserve_y dl p.lp_supply
  pub sold_x : q.swap_in_x ≡ q.pro_rata_x
  pub bought_y :
      q.swap_out_y
      ≡ payout
          (bps - p.fee_bps)
          (p.reserve_x - q.pro_rata_x)
          (p.reserve_y - q.pro_rata_y)
          q.pro_rata_x
  pub got_y : q.withdraw_y ≡ q.pro_rata_y + q.swap_out_y
  pub got_x : q.withdraw_x ≡ 0
  pub unused : (q.swap_in_y ≡ 0) × (q.swap_out_x ≡ 0)

pub withdraw_balanced-BalancedLegs :
    (p : PoolState) (dl : ℕ) (q : WithdrawQuote)
    → withdraw_balanced p dl ≡ ok q
    → BalancedLegs p dl q
unfolding withdraw_balanced
withdraw_balanced-BalancedLegs p dl q e = ground arith

mul_div_value : (a b d v : ℕ) → mul_div a b d ≡ ok v → v ≡ a * b / d
mul_div_value a b d v e = ground arith

checked_sub_value :
    (a b c : ℕ) (x : CpmmError) → ok_or (checked_sub a b) x ≡ ok c → (b ≤ a) × (c ≡ a - b)
checked_sub_value a b c x e = ground arith

pub withdraw_single_x-ExitX :
    (p : PoolState) (dl : ℕ) (q : WithdrawQuote)
    → IsWellTyped p
    → withdraw_single_x p dl ≡ ok q
    → ExitX p dl q
unfolding withdraw_single_x
withdraw_single_x-ExitX p dl q w e =
    let (wx, e1, k1) = >>=-eq-ok (mul_div p.reserve_x dl p.lp_supply) _ e in
    let (wy, e2, k2) = >>=-eq-ok (mul_div p.reserve_y dl p.lp_supply) _ k1 in
    let (x1, e3, k3) = >>=-eq-ok (ok_or (checked_sub p.reserve_x wx) underflow) _ k2 in
    let (y1, e4, k4) = >>=-eq-ok (ok_or (checked_sub p.reserve_y wy) underflow) _ k3 in
    let (o, e5, k5) = >>=-eq-ok (swap_out_y_for_x x1 y1 (as_u64 wy) p.fee_bps) _ k4 in
    let vx = mul_div_value p.reserve_x dl p.lp_supply wx e1 in
    let vy = mul_div_value p.reserve_y dl p.lp_supply wy e2 in
    let sx = checked_sub_value p.reserve_x wx x1 underflow e3 in
    let sy = checked_sub_value p.reserve_y wy y1 underflow e4 in
    let (fee, out) = y_for_x x1 y1 (as_u64 wy) p.fee_bps o (omega arith) e5 in
    ground (arith, payout-le (bps - p.fee_bps) (p.reserve_y - wy) (p.reserve_x - wx) wy)

pub withdraw_single_y-ExitY :
    (p : PoolState) (dl : ℕ) (q : WithdrawQuote)
    → IsWellTyped p
    → withdraw_single_y p dl ≡ ok q
    → ExitY p dl q
unfolding withdraw_single_y
withdraw_single_y-ExitY p dl q w e =
    let (wx, e1, k1) = >>=-eq-ok (mul_div p.reserve_x dl p.lp_supply) _ e in
    let (wy, e2, k2) = >>=-eq-ok (mul_div p.reserve_y dl p.lp_supply) _ k1 in
    let (x1, e3, k3) = >>=-eq-ok (ok_or (checked_sub p.reserve_x wx) underflow) _ k2 in
    let (y1, e4, k4) = >>=-eq-ok (ok_or (checked_sub p.reserve_y wy) underflow) _ k3 in
    let (o, e5, k5) = >>=-eq-ok (swap_out_x_for_y x1 y1 (as_u64 wx) p.fee_bps) _ k4 in
    let vx = mul_div_value p.reserve_x dl p.lp_supply wx e1 in
    let vy = mul_div_value p.reserve_y dl p.lp_supply wy e2 in
    let sx = checked_sub_value p.reserve_x wx x1 underflow e3 in
    let sy = checked_sub_value p.reserve_y wy y1 underflow e4 in
    let (fee, out) = x_for_y x1 y1 (as_u64 wx) p.fee_bps o (omega arith) e5 in
    ground (arith, payout-le (bps - p.fee_bps) (p.reserve_x - wx) (p.reserve_y - wy) wx)
