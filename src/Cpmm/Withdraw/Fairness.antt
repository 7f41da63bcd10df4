-- ===== src/Cpmm/Withdraw/Fairness.antt =====
-- Withdrawals of crates/cpmm/src/lib.rs: the user's share, and what stays for the other holders.
use native.Mathlib.Nat
use solana_instructions_intr.Prelude.{ℕ, ◌+◌, ◌-◌, ◌*◌, ◌≤◌, ◌<◌, ◌≡◌, arith, ok}
use solana_instructions_intr.Prelude.Division.{div-mul-le, lt-div-mul-add, div-le_of_le-mul}
use solana_instructions_intr.Cpmm.Types.{Side, balanced, PoolState, IsWellTyped, WithdrawQuote}
use solana_instructions_intr.Cpmm.Withdraw.{withdraw, withdraw_on}
use solana_instructions_intr.Cpmm.Withdraw.Legs.{pro_rata, withdraw_balanced-BalancedLegs}

-- The pool after the LP are burned and the quote is paid.
abbrev pub after_withdraw : PoolState → ℕ → WithdrawQuote → PoolState
after_withdraw p dl q = record p {
  reserve_x = p.reserve_x - q.withdraw_x;
  reserve_y = p.reserve_y - q.withdraw_y;
  lp_supply = p.lp_supply - dl;
}

-- The guards that a successful withdrawal has passed.
pub record Passed (p : PoolState) (dl : ℕ) (side : Side) (min_x min_y : ℕ) (q : WithdrawQuote)
    : Type 0 where
  pub burned_pos : 0 < dl
  pub supplied : 0 < p.lp_supply
  pub x_pos : 0 < p.reserve_x
  pub y_pos : 0 < p.reserve_y
  pub quoted : withdraw_on p dl side ≡ ok q
  pub enough_x : min_x ≤ q.withdraw_x
  pub enough_y : min_y ≤ q.withdraw_y

pub withdraw-Passed :
    (p : PoolState) (dl : ℕ) (side : Side) (min_x min_y : ℕ) (q : WithdrawQuote)
    → withdraw p dl side min_x min_y ≡ ok q
    → Passed p dl side min_x min_y q
unfolding withdraw
withdraw-Passed p dl side min_x min_y q e = ground arith

pub pro_rata-le : (r dl l : ℕ) → 0 < l → dl ≤ l → pro_rata r dl l ≤ r
pro_rata-le r dl l hl h = div-le_of_le-mul (r * dl) l r hl (Nat.mul-le-mul_left r h)

-- What stays of a reserve after a pro-rata share is at least the share of the other holders.
pub stays : (r dl l w : ℕ) → dl ≤ l → w ≡ pro_rata r dl l → r * (l - dl) ≤ (r - w) * l
stays r dl l w h e =
    let paid : w * l ≤ r * dl = rw e (div-mul-le (r * dl) l) in
    omega (arith, Nat.mul-sub r l dl, Nat.mul-sub l r w)

-- In a pool of u64 amounts, a successful pro-rata withdrawal of at most the supply pays each token
-- at its share, rounded down by less than one unit, and respects both floors that the user set.
pub withdraw_share :
    (p : PoolState) (dl min_x min_y : ℕ) (q : WithdrawQuote)
    → IsWellTyped p
    → dl ≤ p.lp_supply
    → withdraw p dl balanced min_x min_y ≡ ok q
    → (q.withdraw_x * p.lp_supply ≤ p.reserve_x * dl)
      × (p.reserve_x * dl < (q.withdraw_x + 1) * p.lp_supply)
      × (q.withdraw_y * p.lp_supply ≤ p.reserve_y * dl)
      × (p.reserve_y * dl < (q.withdraw_y + 1) * p.lp_supply)
      × (min_x ≤ q.withdraw_x)
      × (min_y ≤ q.withdraw_y)
withdraw_share p dl min_x min_y q w h e =
    let g = withdraw-Passed p dl balanced min_x min_y q e in
    let f = withdraw_balanced-BalancedLegs p dl q g.quoted in
    let l = p.lp_supply in
    let whole_x : q.withdraw_x ≡ pro_rata p.reserve_x dl l =
      omega (arith, f.got_x, pro_rata-le p.reserve_x dl l g.supplied h) in
    let whole_y : q.withdraw_y ≡ pro_rata p.reserve_y dl l =
      omega (arith, f.got_y, pro_rata-le p.reserve_y dl l g.supplied h) in
    rw (whole_x, whole_y)
      (
        div-mul-le (p.reserve_x * dl) l,
        omega (arith, lt-div-mul-add (p.reserve_x * dl) l g.supplied),
        div-mul-le (p.reserve_y * dl) l,
        omega (arith, lt-div-mul-add (p.reserve_y * dl) l g.supplied),
        rw whole_x at g.enough_x,
        rw whole_y at g.enough_y,
      )
