-- ===== src/Cpmm/Deposit/Single.antt =====
-- Single-sided deposits of crates/cpmm/src/lib.rs: what they take from the user.
use solana_instructions_intr.Prelude.{
  ℕ, ◌+◌, ◌≤◌, ◌≡◌, arith, Option, none, some, ok, IsU64, >>=-eq-ok,
}
use solana_instructions_intr.Cpmm.Types.{
  Side, side_x, side_y, balanced, PoolState, IsWellTyped, DepositQuote,
}
use solana_instructions_intr.Cpmm.Swap.{swap_out}
use solana_instructions_intr.Cpmm.Deposit.{deposit, deposit_on, deposit_single_x, deposit_single_y}
use solana_instructions_intr.Cpmm.Deposit.Shares.{deposit_takes}

-- The token arguments of a single-sided deposit of `t`.
abbrev pub offer_x : Side → ℕ → Option ℕ
offer_x side_x t = some t
offer_x side_y t = none
offer_x balanced t = none

abbrev pub offer_y : Side → ℕ → Option ℕ
offer_y side_x t = none
offer_y side_y t = some t
offer_y balanced t = none

-- All that the user pays of the offered token: the swap leg and the balanced leg.
abbrev pub spent : Side → DepositQuote → ℕ
spent side_x q = q.swap_in_x + q.deposit_x
spent side_y q = q.swap_in_y + q.deposit_y
spent balanced q = 0

-- What the swap leg pays out in the other token, and what the balanced leg takes of it again.
abbrev pub swapped : Side → DepositQuote → ℕ
swapped side_x q = q.swap_out_y
swapped side_y q = q.swap_out_x
swapped balanced q = 0

abbrev pub matched : Side → DepositQuote → ℕ
matched side_x q = q.deposit_y
matched side_y q = q.deposit_x
matched balanced q = 0

abbrev pub other_reserve : PoolState → Side → ℕ
other_reserve p side_x = p.reserve_y
other_reserve p side_y = p.reserve_x
other_reserve p balanced = 0

swap_out-IsU64 : (p : PoolState) (a : ℕ) (side : Side) (o : ℕ) → swap_out p a side ≡ ok o → IsU64 o
unfolding swap_out
swap_out-IsU64 p a side o e = ground arith

pub record Spends (p : PoolState) (t : ℕ) (side : Side) (min_lp : ℕ) (q : DepositQuote)
    : Type 0 where
  pub spent_le : spent side q ≤ t
  pub matched_le : matched side q ≤ swapped side q
  pub swapped_le : swapped side q ≤ other_reserve p side
  pub enough : min_lp ≤ q.lp_minted

single_x-Spends :
    (p : PoolState) (t min_lp : ℕ) (q : DepositQuote)
    → IsWellTyped p
    → IsU64 t
    → deposit_single_x p t min_lp ≡ ok q
    → Spends p t side_x min_lp q
unfolding deposit_single_x
single_x-Spends p t min_lp q w ht e = grind (arith, swap_out-IsU64, deposit_takes)

single_y-Spends :
    (p : PoolState) (t min_lp : ℕ) (q : DepositQuote)
    → IsWellTyped p
    → IsU64 t
    → deposit_single_y p t min_lp ≡ ok q
    → Spends p t side_y min_lp q
unfolding deposit_single_y
single_y-Spends p t min_lp q w ht e = grind (arith, swap_out-IsU64, deposit_takes)

deposit_on_of_ok :
    (p : PoolState) (x y : Option ℕ) (side : Side) (min_lp : ℕ) (q : DepositQuote)
    → deposit p x y side min_lp ≡ ok q
    → deposit_on p x y side min_lp ≡ ok q
unfolding deposit
deposit_on_of_ok p x y side min_lp q e = (>>=-eq-ok _ (λ _. deposit_on p x y side min_lp) e).2

-- A single-sided deposit of `t` takes at most `t` of the offered token over both legs, takes back
-- at most what its swap leg paid out of the other token, lets that swap pay at most the reserve,
-- and mints at least the floor that the user set.
pub deposit-Spends :
    (p : PoolState) (t : ℕ) (side : Side) (min_lp : ℕ) (q : DepositQuote)
    → IsWellTyped p
    → IsU64 t
    → deposit p (offer_x side t) (offer_y side t) side min_lp ≡ ok q
    → Spends p t side min_lp q
deposit-Spends p t side_x min_lp q w ht e =
    single_x-Spends p t min_lp q w ht (deposit_on_of_ok p (some t) none side_x min_lp q e)
deposit-Spends p t side_y min_lp q w ht e =
    single_y-Spends p t min_lp q w ht (deposit_on_of_ok p none (some t) side_y min_lp q e)
deposit-Spends p t balanced min_lp q w ht e = cc (deposit_on_of_ok p none none balanced min_lp q e)
