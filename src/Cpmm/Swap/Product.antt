-- ===== src/Cpmm/Swap/Product.antt =====
-- What a successful swap of crates/cpmm/src/lib.rs does to the pool and to the user.
use native.Mathlib.Nat
use solana_instructions_intr.Prelude.{ℕ, ◌+◌, ◌*◌, ◌-◌, ◌≤◌, ◌<◌, ◌≡◌, arith, ok, true, IsU64}
use solana_instructions_intr.Cpmm.Types.{
  bps, Side, side_x, side_y, balanced, PoolState, IsWellTyped, SwapQuote,
}
use solana_instructions_intr.Cpmm.Swap.{swap, is_one_sided}
use solana_instructions_intr.Cpmm.Swap.Payout.{payout-lt, payout_product, payout_mono}
use solana_instructions_intr.Cpmm.Swap.Outcome.{reserve_out, pool_payout, swap-swap_outcome}

-- The reserves after the two transfers of a quote.
abbrev pub after_swap : PoolState → Side → SwapQuote → PoolState
after_swap p side_x q = record p {
  reserve_x = p.reserve_x + q.amount_in;
  reserve_y = p.reserve_y - q.amount_out;
}
after_swap p side_y q = record p {
  reserve_x = p.reserve_x - q.amount_out;
  reserve_y = p.reserve_y + q.amount_in;
}
after_swap p balanced q = p

abbrev pub product : PoolState → ℕ
product p = p.reserve_x * p.reserve_y

abbrev pub opposite : Side → Side
opposite side_x = side_y
opposite side_y = side_x
opposite balanced = balanced

-- What a successful quote says, as facts about the pool.
pub record SwapFacts (p : PoolState) (a : ℕ) (side : Side) (min_out : ℕ) (q : SwapQuote)
    : Type 0 where
  pub one_sided : is_one_sided side ≡ true
  pub x_pos : 0 < p.reserve_x
  pub y_pos : 0 < p.reserve_y
  pub fee_valid : p.fee_bps < bps
  pub paid : q.amount_in ≡ a
  pub received : q.amount_out ≡ pool_payout p side a
  pub out_pos : 0 < q.amount_out
  pub enough : min_out ≤ q.amount_out

pub swap_facts :
    (p : PoolState) (a : ℕ) (side : Side) (min_out : ℕ) (q : SwapQuote)
    → IsWellTyped p
    → IsU64 a
    → swap p a side min_out ≡ ok q
    → SwapFacts p a side min_out q
swap_facts p a side_x min_out q w ha e = ground (arith, swap-swap_outcome p a side_x min_out w ha)
swap_facts p a side_y min_out q w ha e = ground (arith, swap-swap_outcome p a side_y min_out w ha)
swap_facts p a balanced min_out q w ha e =
    ground (arith, swap-swap_outcome p a balanced min_out w ha)

-- A successful swap takes exactly the amount offered, pays out at least the floor that the user
-- set and more than zero, leaves the paying side positive, and never lowers the product of the
-- reserves.
pub swap-product :
    (p : PoolState) (a : ℕ) (side : Side) (min_out : ℕ) (q : SwapQuote)
    → IsWellTyped p
    → IsU64 a
    → swap p a side min_out ≡ ok q
    → (q.amount_in ≡ a)
      × (0 < q.amount_out)
      × (min_out ≤ q.amount_out)
      × (q.amount_out < reserve_out p side)
      × (product p ≤ product (after_swap p side q))
swap-product p a side_x min_out q w ha e =
    let f = swap_facts p a side_x min_out q w ha e in
    ground (
      arith,
      f.received,
      payout-lt (bps - p.fee_bps) p.reserve_x p.reserve_y a,
      payout_product (bps - p.fee_bps) p.reserve_x p.reserve_y a,
    )
swap-product p a side_y min_out q w ha e =
    let f = swap_facts p a side_y min_out q w ha e in
    ground (
      arith,
      f.received,
      payout-lt (bps - p.fee_bps) p.reserve_y p.reserve_x a,
      payout_product (bps - p.fee_bps) p.reserve_y p.reserve_x a,
    )
swap-product p a balanced min_out q w ha e =
    let f = swap_facts p a balanced min_out q w ha e in cc (f.one_sided)

-- Paying more into the same pool never receives less.
pub swap_mono :
    (p : PoolState) (a d : ℕ) (side : Side) (m n : ℕ) (q r : SwapQuote)
    → IsWellTyped p
    → IsU64 (a + d)
    → swap p a side m ≡ ok q
    → swap p (a + d) side n ≡ ok r
    → q.amount_out ≤ r.amount_out
swap_mono p a d side_x m n q r w ha e h =
    let f = swap_facts p a side_x m q w (omega arith) e in
    let g = swap_facts p (a + d) side_x n r w ha h in
    omega (
      arith,
      f.received,
      g.received,
      payout_mono (bps - p.fee_bps) p.reserve_x p.reserve_y a d f.x_pos,
    )
swap_mono p a d side_y m n q r w ha e h =
    let f = swap_facts p a side_y m q w (omega arith) e in
    let g = swap_facts p (a + d) side_y n r w ha h in
    omega (
      arith,
      f.received,
      g.received,
      payout_mono (bps - p.fee_bps) p.reserve_y p.reserve_x a d f.y_pos,
    )
swap_mono p a d balanced m n q r w ha e h =
    let f = swap_facts p a balanced m q w (omega arith) e in cc (f.one_sided)

-- Two trades that each keep the product: the reserve that is drawn on last ends no lower.
returned-le :
    (x y o a r : ℕ)
    → 0 < y
    → o < y
    → r < x + a
    → x * y ≤ (x + a) * (y - o)
    → (x + a) * (y - o) ≤ (x + a - r) * (y - o + o)
    → r ≤ a
returned-le x y o a r hy ho hr first second =
    let whole : y - o + o ≡ y = omega arith in
    let h : x * y ≤ (x + a - r) * y = Nat.le_trans first (rw whole at second) in
    omega (arith, Nat.le_of_mul-le-mul_right h hy)

-- Swapping and then swapping the proceeds back, in the pool that the first swap left, returns at
-- most what was paid.
pub swap_no_profit :
    (p : PoolState) (a : ℕ) (side : Side) (m n : ℕ) (q r : SwapQuote)
    → IsWellTyped p
    → IsWellTyped (after_swap p side q)
    → IsU64 a
    → swap p a side m ≡ ok q
    → swap (after_swap p side q) q.amount_out (opposite side) n ≡ ok r
    → r.amount_out ≤ a
swap_no_profit p a side_x m n q r w w' ha e h =
    let (paid, _, _, o_lt, first) = swap-product p a side_x m q w ha e in
    let (back, _, _, r_lt, second) =
      swap-product (after_swap p side_x q) q.amount_out side_y n r w' (omega arith) h in
    returned-le p.reserve_x p.reserve_y q.amount_out a r.amount_out (omega arith) o_lt
      (rw paid at r_lt) (rw paid at first) (rw (paid, back) at second)
swap_no_profit p a side_y m n q r w w' ha e h =
    let (paid, _, _, o_lt, first) = swap-product p a side_y m q w ha e in
    let (back, _, _, r_lt, second) =
      swap-product (after_swap p side_y q) q.amount_out side_x n r w' (omega arith) h in
    returned-le p.reserve_y p.reserve_x q.amount_out a r.amount_out (omega arith) o_lt
      (rw paid at r_lt) (omega (arith, rw paid at first)) (omega (arith, rw (paid, back) at second))
swap_no_profit p a balanced m n q r w w' ha e h =
    let f = swap_facts p a balanced m q w ha e in cc (f.one_sided)
