-- ===== src/Cpmm/Deposit/Unused.antt =====
-- Which swap legs a deposit quote of crates/cpmm/src/lib.rs leaves out.
use solana_instructions_intr.Prelude.{ℕ, ◌≡◌, arith, Option, some, none, ok}
use solana_instructions_intr.Cpmm.Types.{PoolState, DepositQuote, Side, side_x, side_y, balanced}
use solana_instructions_intr.Cpmm.Deposit.{
  first_mint, later_mint, deposit_balanced, deposit_single_x, deposit_single_y, deposit_on, deposit,
}

first_mint_legs :
    (x y min_lp : ℕ) (q : DepositQuote)
    → first_mint x y min_lp ≡ ok q
    → (q.swap_in_x ≡ 0) × (q.swap_in_y ≡ 0) × (q.swap_out_x ≡ 0) × (q.swap_out_y ≡ 0)
unfolding first_mint
first_mint_legs x y min_lp q e = ground arith

later_mint_legs :
    (p : PoolState) (x y min_lp : ℕ) (q : DepositQuote)
    → later_mint p x y min_lp ≡ ok q
    → (q.swap_in_x ≡ 0) × (q.swap_in_y ≡ 0) × (q.swap_out_x ≡ 0) × (q.swap_out_y ≡ 0)
unfolding later_mint
later_mint_legs p x y min_lp q e = ground arith

balanced_legs :
    (p : PoolState) (x y min_lp : ℕ) (q : DepositQuote)
    → deposit_balanced p x y min_lp ≡ ok q
    → (q.swap_in_x ≡ 0) × (q.swap_in_y ≡ 0) × (q.swap_out_x ≡ 0) × (q.swap_out_y ≡ 0)
unfolding deposit_balanced
balanced_legs p x y min_lp q e = grind (arith, first_mint_legs, later_mint_legs)

single_x_legs :
    (p : PoolState) (x min_lp : ℕ) (q : DepositQuote)
    → deposit_single_x p x min_lp ≡ ok q
    → (q.swap_in_y ≡ 0) × (q.swap_out_x ≡ 0)
unfolding deposit_single_x
single_x_legs p x min_lp q e = grind (arith, balanced_legs)

single_y_legs :
    (p : PoolState) (y min_lp : ℕ) (q : DepositQuote)
    → deposit_single_y p y min_lp ≡ ok q
    → (q.swap_in_x ≡ 0) × (q.swap_out_y ≡ 0)
unfolding deposit_single_y
single_y_legs p y min_lp q e = grind (arith, balanced_legs)

-- The legs that a side does not use.
abbrev pub AreUnused : Side → DepositQuote → Type 0
AreUnused side_x q = (q.swap_in_y ≡ 0) × (q.swap_out_x ≡ 0)
AreUnused side_y q = (q.swap_in_x ≡ 0) × (q.swap_out_y ≡ 0)
AreUnused balanced q =
    (q.swap_in_x ≡ 0) × (q.swap_in_y ≡ 0) × (q.swap_out_x ≡ 0) × (q.swap_out_y ≡ 0)

on_legs :
    (p : PoolState) (x y : Option ℕ) (side : Side) (min_lp : ℕ) (q : DepositQuote)
    → deposit_on p x y side min_lp ≡ ok q
    → AreUnused side q
on_legs p (some x) (some y) balanced m q e = balanced_legs p x y m q e
on_legs p (some x) none side_x m q e = single_x_legs p x m q e
on_legs p none (some y) side_y m q e = single_y_legs p y m q e
on_legs p (some x) (some y) side_x m q e = cc
on_legs p (some x) (some y) side_y m q e = cc
on_legs p (some x) none side_y m q e = cc
on_legs p (some x) none balanced m q e = cc
on_legs p none (some y) side_x m q e = cc
on_legs p none (some y) balanced m q e = cc
on_legs p none none side_x m q e = cc
on_legs p none none side_y m q e = cc
on_legs p none none balanced m q e = cc

pub deposit-AreUnused :
    (p : PoolState) (x y : Option ℕ) (side : Side) (min_lp : ℕ) (q : DepositQuote)
    → deposit p x y side min_lp ≡ ok q
    → AreUnused side q
unfolding deposit
deposit-AreUnused p x y side m q e = grind (arith, on_legs)
