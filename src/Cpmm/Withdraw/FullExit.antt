-- ===== src/Cpmm/Withdraw/FullExit.antt =====
-- Single-sided withdrawals of crates/cpmm/src/lib.rs by the holder of the whole supply.
use native.Mathlib.Nat
use solana_instructions_intr.Prelude.{ℕ, ◌-◌, ◌*◌, ◌/◌, ◌<◌, ◌≡◌, arith, ok, true}
use solana_instructions_intr.Cpmm.Types.{
  bps, Side, side_x, side_y, balanced, PoolState, IsWellTyped, WithdrawQuote,
}
use solana_instructions_intr.Cpmm.Swap.{is_one_sided}
use solana_instructions_intr.Cpmm.Swap.Payout.{payout, payout-le}
use solana_instructions_intr.Cpmm.Withdraw.{withdraw}
use solana_instructions_intr.Cpmm.Withdraw.Legs.{withdraw_single_x-ExitX, withdraw_single_y-ExitY}
use solana_instructions_intr.Cpmm.Withdraw.Fairness.{withdraw-Passed}

-- The amount received on the wanted side, the share of the other side that is put back, what that
-- buys, and the two reserves.
abbrev pub wanted : Side → WithdrawQuote → ℕ
wanted side_x q = q.withdraw_x
wanted side_y q = q.withdraw_y
wanted balanced q = 0

abbrev pub put_back : Side → WithdrawQuote → ℕ
put_back side_x q = q.swap_in_y
put_back side_y q = q.swap_in_x
put_back balanced q = 0

abbrev pub bought : Side → WithdrawQuote → ℕ
bought side_x q = q.swap_out_x
bought side_y q = q.swap_out_y
bought balanced q = 0

abbrev pub wanted_reserve : PoolState → Side → ℕ
wanted_reserve p side_x = p.reserve_x
wanted_reserve p side_y = p.reserve_y
wanted_reserve p balanced = 0

abbrev pub other_reserve : PoolState → Side → ℕ
other_reserve p side_x = p.reserve_y
other_reserve p side_y = p.reserve_x
other_reserve p balanced = 0

whole_share : (r l : ℕ) → 0 < l → r * l / l ≡ r
whole_share r l h = Nat.mul-div_cancel r h

-- Nothing is left to buy from.
empty_payout : (g r_in r_out a : ℕ) → r_out ≡ 0 → payout g r_in r_out a ≡ 0
empty_payout g r_in r_out a h = omega (arith, payout-le g r_in r_out a)

-- Burning the whole supply for one token pays that whole reserve and nothing for the other one: the
-- other reserve is put back in full and buys nothing.
pub full_exit_forfeits :
    (p : PoolState) (side : Side) (min_x min_y : ℕ) (q : WithdrawQuote)
    → IsWellTyped p
    → is_one_sided side ≡ true
    → withdraw p p.lp_supply side min_x min_y ≡ ok q
    → (wanted side q ≡ wanted_reserve p side)
      × (put_back side q ≡ other_reserve p side)
      × (bought side q ≡ 0)
full_exit_forfeits p side_x min_x min_y q w s e =
    let g = withdraw-Passed p p.lp_supply side_x min_x min_y q e in
    let f = withdraw_single_x-ExitX p p.lp_supply q w g.quoted in
    let none_left =
      empty_payout (bps - p.fee_bps) (p.reserve_y - q.pro_rata_y) (p.reserve_x - q.pro_rata_x)
        q.pro_rata_y in
    ground (
      arith,
      f,
      none_left,
      whole_share p.reserve_x p.lp_supply g.supplied,
      whole_share p.reserve_y p.lp_supply g.supplied,
    )
full_exit_forfeits p side_y min_x min_y q w s e =
    let g = withdraw-Passed p p.lp_supply side_y min_x min_y q e in
    let f = withdraw_single_y-ExitY p p.lp_supply q w g.quoted in
    let none_left =
      empty_payout (bps - p.fee_bps) (p.reserve_x - q.pro_rata_x) (p.reserve_y - q.pro_rata_y)
        q.pro_rata_x in
    ground (
      arith,
      f,
      none_left,
      whole_share p.reserve_x p.lp_supply g.supplied,
      whole_share p.reserve_y p.lp_supply g.supplied,
    )
full_exit_forfeits p balanced min_x min_y q w s e = cc
