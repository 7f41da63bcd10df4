-- ===== src/Cpmm/Withdraw/Sale.antt =====
-- The sale inside a withdrawal of one token in crates/cpmm/src/lib.rs, in plain arithmetic.
use solana_instructions_intr.Prelude.{
  ℕ, ◌+◌, ◌-◌, ◌*◌, ◌≤◌, ◌≡◌, arith, ok, err, ltb, leb, ◌==◌, if◌then◌else◌, u128_mod, IsU64,
}
use solana_instructions_intr.Cpmm.Types.{bps, CpmmResult, invalid_fee, overflow}
use solana_instructions_intr.Cpmm.Swap.{quote_out, swap_out_y_for_x, swap_out_x_for_y}
use solana_instructions_intr.Cpmm.Swap.Payout.{payout, payout-le}
use solana_instructions_intr.Cpmm.Swap.Outcome.{fee_times-lt}

-- The sale of `a` into the reserves that a share has left: it fails on a fee above the basis
-- points, on a numerator of 128 bits, and where nothing is left to divide by.
abbrev pub sale_outcome : ℕ → ℕ → ℕ → ℕ → CpmmResult ℕ
sale_outcome fee r_in r_out a =
    let g = bps - fee in
    if ltb bps fee
    then err invalid_fee
    else if leb u128_mod (g * r_out * a)
    then err overflow
    else if bps * r_in + g * a == 0
    then err overflow
    else ok (payout g r_in r_out a)

pub sale_lem :
    (x y a fee : ℕ)
    → IsU64 x
    → IsU64 y
    → IsU64 a
    → swap_out_y_for_x x y a fee ≡ sale_outcome fee y x a
unfolding swap_out_y_for_x quote_out payout
sale_lem x y a fee bx by ba =
    let bounded : payout (bps - fee) y x a ≤ x = payout-le (bps - fee) y x a in
    ground (
      arith,
      fee_times-lt (bps - fee) x (omega arith) bx,
      fee_times-lt (bps - fee) a (omega arith) ba,
      bounded,
    )

pub sale_back_lem :
    (x y a fee : ℕ)
    → IsU64 x
    → IsU64 y
    → IsU64 a
    → swap_out_x_for_y x y a fee ≡ sale_outcome fee x y a
unfolding swap_out_x_for_y quote_out payout
sale_back_lem x y a fee bx by ba =
    let bounded : payout (bps - fee) x y a ≤ y = payout-le (bps - fee) x y a in
    ground (
      arith,
      fee_times-lt (bps - fee) y (omega arith) by,
      fee_times-lt (bps - fee) a (omega arith) ba,
      bounded,
    )

pub sale_outcome-le : (fee r_in r_out a o : ℕ) → sale_outcome fee r_in r_out a ≡ ok o → o ≤ r_out
sale_outcome-le fee r_in r_out a o e = ground (arith, payout-le (bps - fee) r_in r_out a)
