-- ===== src/Cpmm/Withdraw/Value.antt =====
-- Withdrawals of crates/cpmm/src/lib.rs and the worth of an LP token.
use native.Mathlib.Nat
use solana_instructions_intr.Prelude.{ℕ, ◌+◌, ◌-◌, ◌*◌, ◌≤◌, ◌<◌, ◌≡◌, arith, ok}
use solana_instructions_intr.Cpmm.Types.{
  bps, Side, side_x, side_y, balanced, PoolState, IsWellTyped, WithdrawQuote,
}
use solana_instructions_intr.Cpmm.Swap.Payout.{payout}
use solana_instructions_intr.Cpmm.Withdraw.{withdraw}
use solana_instructions_intr.Cpmm.Withdraw.Legs.{
  pro_rata, withdraw_balanced-BalancedLegs, withdraw_single_x-ExitX, withdraw_single_y-ExitY,
}
use solana_instructions_intr.Cpmm.Withdraw.Fairness.{
  after_withdraw, withdraw-Passed, stays, pro_rata-le,
}
use solana_instructions_intr.Cpmm.Withdraw.Backing.{sale_product}

-- The product of the reserves per squared LP supply did not fall from `p` to `p'`.
abbrev pub KeepsValue : PoolState → PoolState → Type 0
KeepsValue p p' =
    p.reserve_x * p.reserve_y * (p'.lp_supply * p'.lp_supply)
    ≤ p'.reserve_x * p'.reserve_y * (p.lp_supply * p.lp_supply)

shares_value : (x y a b l m : ℕ) → x * m ≤ a * l → y * m ≤ b * l → x * y * (m * m) ≤ a * b * (l * l)
shares_value x y a b l m hx hy = omega (arith, Nat.mul-le-mul hx hy)

single_value :
    (g x y l dl wx wy o : ℕ)
    → g ≤ bps
    → 0 < l
    → dl ≤ l
    → wx ≡ pro_rata x dl l
    → wy ≡ pro_rata y dl l
    → o ≡ payout g (y - wy) (x - wx) wy
    → x * y * ((l - dl) * (l - dl)) ≤ (x - (wx + o)) * y * (l * l)
single_value g x y l dl wx wy o fee hl h ex ey eo =
    let hy : wy ≤ y = omega (arith, pro_rata-le y dl l hl h) in
    let left : x - wx - o ≡ x - (wx + o) = omega arith in
    let kept =
      shares_value x y (x - wx) (y - wy) l (l - dl) (stays x dl l wx h ex) (stays y dl l wy h ey) in
    let sale : (y - wy) * (x - wx) ≤ y * (x - wx - o) =
      rw eo (sale_product g (x - wx) y wy fee hy) in
    let more : (x - wx) * (y - wy) ≤ (x - (wx + o)) * y = omega (arith, rw left at sale) in
    omega (arith, kept, Nat.mul-le-mul_right (l * l) more)

-- A withdrawal of at most the supply, of any kind, does not lower the product of the reserves per
-- squared LP supply.
pub withdraw-KeepsValue :
    (p : PoolState) (dl : ℕ) (side : Side) (min_x min_y : ℕ) (q : WithdrawQuote)
    → IsWellTyped p
    → dl ≤ p.lp_supply
    → withdraw p dl side min_x min_y ≡ ok q
    → KeepsValue p (after_withdraw p dl q)
withdraw-KeepsValue p dl balanced min_x min_y q w h e =
    let g = withdraw-Passed p dl balanced min_x min_y q e in
    let f = withdraw_balanced-BalancedLegs p dl q g.quoted in
    let l = p.lp_supply in
    let le_x = pro_rata-le p.reserve_x dl l g.supplied h in
    let le_y = pro_rata-le p.reserve_y dl l g.supplied h in
    shares_value p.reserve_x p.reserve_y _ _ l (l - dl)
      (stays p.reserve_x dl l q.withdraw_x h (omega (arith, f.got_x)))
      (stays p.reserve_y dl l q.withdraw_y h (omega (arith, f.got_y)))
withdraw-KeepsValue p dl side_x min_x min_y q w h e =
    let g = withdraw-Passed p dl side_x min_x min_y q e in
    let f = withdraw_single_x-ExitX p dl q w g.quoted in
    let value =
      single_value (bps - p.fee_bps) p.reserve_x p.reserve_y p.lp_supply dl q.pro_rata_x
        q.pro_rata_y q.swap_out_x (omega arith) g.supplied h f.share_x f.share_y f.bought_x in
    rw (f.got_x, f.got_y) (rw Nat.sub-zero value)
withdraw-KeepsValue p dl side_y min_x min_y q w h e =
    let g = withdraw-Passed p dl side_y min_x min_y q e in
    let f = withdraw_single_y-ExitY p dl q w g.quoted in
    let value =
      single_value (bps - p.fee_bps) p.reserve_y p.reserve_x p.lp_supply dl q.pro_rata_y
        q.pro_rata_x q.swap_out_y (omega arith) g.supplied h f.share_y f.share_x f.bought_y in
    rw (f.got_x, f.got_y, Nat.sub-zero) (omega (arith, value))
