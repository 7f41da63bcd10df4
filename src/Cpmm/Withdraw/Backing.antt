-- ===== src/Cpmm/Withdraw/Backing.antt =====
-- Withdrawals of crates/cpmm/src/lib.rs leave the remaining LP backed by the reserves.
use native.Mathlib.Nat
use solana_instructions_intr.Prelude.{ℕ, ◌+◌, ◌-◌, ◌*◌, ◌≤◌, ◌<◌, ◌≡◌, arith, ok}
use solana_instructions_intr.Cpmm.Types.{
  bps, Side, side_x, side_y, balanced, PoolState, IsWellTyped, WithdrawQuote,
}
use solana_instructions_intr.Cpmm.Swap.Payout.{payout, payout-le, payout_product}
use solana_instructions_intr.Cpmm.Deposit.Backing.{IsBacked}
use solana_instructions_intr.Cpmm.Withdraw.{withdraw}
use solana_instructions_intr.Cpmm.Withdraw.Legs.{
  pro_rata, withdraw_balanced-BalancedLegs, withdraw_single_x-ExitX, withdraw_single_y-ExitY,
}
use solana_instructions_intr.Cpmm.Withdraw.Fairness.{
  after_withdraw, withdraw-Passed, stays, pro_rata-le,
}

-- If each reserve keeps its share, the remaining supply stays within the geometric mean.
shares_square :
    (x y a b l m : ℕ) → 0 < l → l * l ≤ x * y → x * m ≤ a * l → y * m ≤ b * l → m * m ≤ a * b
shares_square x y a b l m hl backed hx hy =
    let h : m * m * (l * l) ≤ a * b * (l * l) =
      omega (arith, Nat.mul-le-mul hx hy, Nat.mul-le-mul_left (m * m) backed) in
    Nat.le_of_mul-le-mul_right h (Nat.mul-pos hl hl)

-- Selling the share `b` of one side against what stays, `r_in` and `r_out`, keeps their product.
pub sale_product : (g r s b : ℕ) → g ≤ bps → b ≤ s → (s - b) * r ≤ s * (r - payout g (s - b) r b)
sale_product g r s b fee h =
    let whole : s - b + b ≡ s = omega arith in rw whole at (payout_product g (s - b) r b fee)

-- One side of a single-sided withdrawal: the share `wx` of the wanted side and the sale of `wy`.
single_square :
    (g x y l dl wx wy o : ℕ)
    → g ≤ bps
    → 0 < l
    → l * l ≤ x * y
    → dl ≤ l
    → wx ≡ pro_rata x dl l
    → wy ≡ pro_rata y dl l
    → o ≡ payout g (y - wy) (x - wx) wy
    → (wx + o ≤ x) × ((l - dl) * (l - dl) ≤ (x - (wx + o)) * y)
single_square g x y l dl wx wy o fee hl backed h ex ey eo =
    let hx : wx ≤ x = omega (arith, pro_rata-le x dl l hl h) in
    let hy : wy ≤ y = omega (arith, pro_rata-le y dl l hl h) in
    let bound : o ≤ x - wx = rw eo (payout-le g (y - wy) (x - wx) wy) in
    let left : x - wx - o ≡ x - (wx + o) = omega arith in
    let square =
      shares_square x y (x - wx) (y - wy) l (l - dl) hl backed (stays x dl l wx h ex)
        (stays y dl l wy h ey) in
    let sale : (y - wy) * (x - wx) ≤ y * (x - wx - o) =
      rw eo (sale_product g (x - wx) y wy fee hy) in
    (omega arith, omega (arith, rw left at sale))

-- A withdrawal of at most the supply, of any kind, takes no more than the reserves hold, and keeps
-- the remaining supply within the geometric mean of the remaining reserves.
pub withdraw-IsBacked :
    (p : PoolState) (dl : ℕ) (side : Side) (min_x min_y : ℕ) (q : WithdrawQuote)
    → IsWellTyped p
    → dl ≤ p.lp_supply
    → IsBacked p
    → withdraw p dl side min_x min_y ≡ ok q
    → (q.withdraw_x ≤ p.reserve_x) × (q.withdraw_y ≤ p.reserve_y) × IsBacked (after_withdraw p dl q)
withdraw-IsBacked p dl balanced min_x min_y q w h backed e =
    let g = withdraw-Passed p dl balanced min_x min_y q e in
    let f = withdraw_balanced-BalancedLegs p dl q g.quoted in
    let l = p.lp_supply in
    let le_x = pro_rata-le p.reserve_x dl l g.supplied h in
    let le_y = pro_rata-le p.reserve_y dl l g.supplied h in
    (
      omega (arith, f.got_x),
      omega (arith, f.got_y),
      shares_square p.reserve_x p.reserve_y _ _ l (l - dl) g.supplied backed
          (stays p.reserve_x dl l q.withdraw_x h (omega (arith, f.got_x)))
          (stays p.reserve_y dl l q.withdraw_y h (omega (arith, f.got_y))),
    )
withdraw-IsBacked p dl side_x min_x min_y q w h backed e =
    let g = withdraw-Passed p dl side_x min_x min_y q e in
    let f = withdraw_single_x-ExitX p dl q w g.quoted in
    let (le, square) =
      single_square (bps - p.fee_bps) p.reserve_x p.reserve_y p.lp_supply dl q.pro_rata_x
        q.pro_rata_y q.swap_out_x (omega arith) g.supplied backed h f.share_x f.share_y
        f.bought_x in
    rw (f.got_x, f.got_y) (le, omega arith, rw Nat.sub-zero square)
withdraw-IsBacked p dl side_y min_x min_y q w h backed e =
    let g = withdraw-Passed p dl side_y min_x min_y q e in
    let f = withdraw_single_y-ExitY p dl q w g.quoted in
    let (le, square) =
      single_square (bps - p.fee_bps) p.reserve_y p.reserve_x p.lp_supply dl q.pro_rata_y
        q.pro_rata_x q.swap_out_y (omega arith) g.supplied (omega arith) h f.share_y f.share_x
        f.bought_y in
    rw (f.got_x, f.got_y) (omega arith, le, rw (Nat.sub-zero, Nat.mul_comm p.reserve_x) square)
