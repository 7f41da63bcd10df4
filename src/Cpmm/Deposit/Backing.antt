-- ===== src/Cpmm/Deposit/Backing.antt =====
-- Balanced deposits of crates/cpmm/src/lib.rs: what the minted LP tokens are worth.
use native.Mathlib.Nat
use solana_instructions_intr.Prelude.{
  ℕ, ◌+◌, ◌*◌, ◌/◌, ◌%◌, ◌≤◌, ◌<◌, ◌≡◌, ◌↔◌, arith, ok, u64_mod, IsU64,
}
use solana_instructions_intr.Cpmm.Types.{PoolState, IsWellTyped, DepositQuote}
use solana_instructions_intr.Cpmm.Deposit.{deposit_balanced}
use solana_instructions_intr.Cpmm.Deposit.First.{root-lt}
use solana_instructions_intr.Cpmm.Deposit.Shares.{later_facts}
use solana_instructions_intr.Cpmm.Deposit.Later.{limiting_lp, cost, cost_product-le, u64_product-lt}

-- The limiting amount squared is at most the product of the offers, if the LP supply squared is at
-- most the product of the reserves.
limiting_square :
    (x y l dx dy lp : ℕ)
    → 0 < x
    → 0 < y
    → l * l ≤ x * y
    → x * lp ≤ dx * l
    → y * lp ≤ dy * l
    → lp * lp ≤ dx * dy
limiting_square x y l dx dy lp hx hy backed cx cy =
    let h : lp * lp * (x * y) ≤ dx * dy * (x * y) =
      omega (arith, Nat.mul-le-mul cx cy, Nat.mul-le-mul_left (dx * dy) backed) in
    Nat.le_of_mul-le-mul_right h (Nat.mul-pos hx hy)

-- The LP supply is covered by the geometric mean of the reserves.
abbrev pub IsBacked : PoolState → Type 0
IsBacked p = p.lp_supply * p.lp_supply ≤ p.reserve_x * p.reserve_y

-- How the payment `c` for `lp` new shares of a reserve `r` that `l` shares own is rounded: down, by
-- less than one unit, and exactly where the division leaves no remainder.
pub record RoundsDown (r c l lp : ℕ) : Type 0 where
  pub at_most : (r + c) * l ≤ r * (l + lp)
  pub within_one : r * (l + lp) < (r + c + 1) * l
  pub exact_iff : ((r + c) * l ≡ r * (l + lp)) ↔ (r * lp % l ≡ 0)

cost-RoundsDown : (r l lp c : ℕ) → 0 < l → c ≡ r * lp / l → RoundsDown r c l lp
cost-RoundsDown r l lp c hl e = record {
  at_most = omega (arith, whole);
  within_one = omega (arith, whole, rem);
  exact_iff = ((λ h. omega (arith, whole)), (λ h. omega (arith, whole)));
}
  where
    whole : c * l + r * lp % l ≡ r * lp
    whole = rw e (Nat.div-add-mod' (r * lp) l)

    rem : r * lp % l < l
    rem = Nat.mod-lt (r * lp) hl

module _ (p : PoolState) (dx dy min_lp : ℕ) (q : DepositQuote) (w : IsWellTyped p)
    (supplied : 0 < p.lp_supply) (bx : IsU64 dx) (by : IsU64 dy)
    (done : deposit_balanced p dx dy min_lp ≡ ok q) where
  lp_costs :
      (p.reserve_x * limiting_lp p dx dy ≤ dx * p.lp_supply)
      × (p.reserve_y * limiting_lp p dx dy ≤ dy * p.lp_supply)
  lp_costs =
      let f = later_facts p dx dy min_lp q w supplied bx by done in
      (
        cost_product-le p.reserve_x dx p.lp_supply (limiting_lp p dx dy) f.x_pos (omega arith),
        cost_product-le p.reserve_y dy p.lp_supply (limiting_lp p dx dy) f.y_pos (omega arith),
      )

  -- In a backed pool the cast to u64 keeps the LP amount: the user is minted all that was paid for.
  pub minted_whole : IsBacked p → q.lp_minted ≡ limiting_lp p dx dy
  minted_whole backed =
      let f = later_facts p dx dy min_lp q w supplied bx by done in
      let lp = limiting_lp p dx dy in
      let (cx, cy) = lp_costs in
      let square =
        limiting_square p.reserve_x p.reserve_y p.lp_supply dx dy lp f.x_pos f.y_pos backed cx cy in
      let fits : lp < u64_mod = root-lt (dx * dy) lp square (u64_product-lt dx dy bx by) in
      omega (arith, f.minted)

  -- In a pool of u64 amounts with LP tokens outstanding: where a successful balanced deposit of u64
  -- offers is priced at an LP amount that does not fit a u64, it mints the amount modulo 2 ^ 64, which
  -- is at least 2 ^ 64 too few, and still takes the tokens that the whole amount costs.
  pub minted_cut :
      u64_mod ≤ limiting_lp p dx dy
      → (q.lp_minted ≡ limiting_lp p dx dy % u64_mod)
        × (q.lp_minted + u64_mod ≤ limiting_lp p dx dy)
        × (q.deposit_x ≡ cost p p.reserve_x (limiting_lp p dx dy))
        × (q.deposit_y ≡ cost p p.reserve_y (limiting_lp p dx dy))
  minted_cut wide =
      let f = later_facts p dx dy min_lp q w supplied bx by done in
      (f.minted, omega (arith, f.minted), f.paid_x, f.paid_y)

  -- In a backed pool of u64 amounts with LP tokens outstanding, each side of a successful balanced
  -- deposit of u64 offers is what the minted LP tokens are worth at the reserves and the supply before
  -- it, rounded down: the reserves per LP token never rise, each payment is less than one unit short,
  -- and it is exact only if the division leaves no remainder.
  pub minted_value :
      IsBacked p
      → RoundsDown p.reserve_x q.deposit_x p.lp_supply q.lp_minted
        × RoundsDown p.reserve_y q.deposit_y p.lp_supply q.lp_minted
  minted_value backed =
      let f = later_facts p dx dy min_lp q w supplied bx by done in
      let whole = minted_whole backed in
      (
        cost-RoundsDown p.reserve_x p.lp_supply q.lp_minted q.deposit_x supplied
            (rw whole f.paid_x),
        cost-RoundsDown p.reserve_y p.lp_supply q.lp_minted q.deposit_y supplied
            (rw whole f.paid_y),
      )
