-- ===== src/Cpmm/Deposit/Later.antt =====
-- `later_mint`, the part of `deposit_balanced` for a pool with LP supply, in plain arithmetic.
use native.Mathlib.Nat
use native.Mathlib.Decide.{dec_lt}
use solana_instructions_intr.Prelude.{
  ℕ, ◌*◌, ◌/◌, ◌≤◌, ◌<◌, ◌≡◌, arith, min, ok, err, ltb, ◌==◌, ◌||◌, if◌then◌else◌, u128_mod, as_u64,
  IsU64,
}
use solana_instructions_intr.Prelude.Division.{div-mul-le, div-le_of_le-mul}
use solana_instructions_intr.Cpmm.Types.{
  PoolState, IsWellTyped, DepositQuote, CpmmResult, invalid_amount, slippage_exceeded, overflow,
}
use solana_instructions_intr.Cpmm.Deposit.{mul_div, balanced_quote, later_mint}

-- The LP that the limiting side gives, before the cast to u64.
abbrev pub limiting_lp : PoolState → ℕ → ℕ → ℕ
limiting_lp p dx dy = min (dx * p.lp_supply / p.reserve_x) (dy * p.lp_supply / p.reserve_y)

-- What `lp` costs on a side that holds `r`.
abbrev pub cost : PoolState → ℕ → ℕ → ℕ
cost p r lp = r * lp / p.lp_supply

pub u64_product-lt : (a b : ℕ) → IsU64 a → IsU64 b → a * b < u128_mod
u64_product-lt a b ha hb = omega (arith, Nat.mul-le-mul_right b ha)

pub mul_div_lem : (a b d : ℕ) → 0 < d → a * b < u128_mod → mul_div a b d ≡ ok (a * b / d)
mul_div_lem a b d hd h = ground arith

-- The cost of the limiting LP is at most what the user offers on each side.
pub cost_product-le : (r dx l lp : ℕ) → 0 < r → lp ≤ dx * l / r → r * lp ≤ dx * l
cost_product-le r dx l lp hr h = omega (arith, Nat.mul-le-mul_right r h, div-mul-le (dx * l) r)

pub cost-le : (r dx l lp : ℕ) → 0 < r → 0 < l → lp ≤ dx * l / r → r * lp / l ≤ dx
cost-le r dx l lp hr hl h = div-le_of_le-mul (r * lp) l dx hl (cost_product-le r dx l lp hr h)

-- The tests on a limiting amount `lp` that costs `x` and `y`.
abbrev pub settle : PoolState → ℕ → ℕ → ℕ → ℕ → CpmmResult DepositQuote
settle p lp x y min_lp =
    if p.reserve_x == 0 || p.reserve_y == 0
    then err overflow
    else if ltb (as_u64 lp) min_lp
    then err slippage_exceeded
    else if x == 0 || y == 0
    then err invalid_amount
    else ok (balanced_quote (as_u64 lp) x y)

abbrev pub later_mint_outcome : PoolState → ℕ → ℕ → ℕ → CpmmResult DepositQuote
later_mint_outcome p dx dy min_lp =
    let lp = limiting_lp p dx dy in
    settle p lp (cost p p.reserve_x lp) (cost p p.reserve_y lp) min_lp

-- What a successful balanced deposit into a pool with LP supply says.
pub record Settled (p : PoolState) (lp x y min_lp : ℕ) (q : DepositQuote) : Type 0 where
  pub x_pos : 0 < p.reserve_x
  pub y_pos : 0 < p.reserve_y
  pub minted : q.lp_minted ≡ as_u64 lp
  pub paid_x : q.deposit_x ≡ x
  pub paid_y : q.deposit_y ≡ y
  pub paid_x_pos : 0 < q.deposit_x
  pub paid_y_pos : 0 < q.deposit_y
  pub enough : min_lp ≤ q.lp_minted

pub settle-Settled :
    (p : PoolState) (lp x y min_lp : ℕ) (q : DepositQuote)
    → settle p lp x y min_lp ≡ ok q
    → Settled p lp x y min_lp q
settle-Settled p lp x y min_lp q e = ground arith

-- With both reserves positive no checked step fails, and no amount is cut by its cast.
later_mint_pos :
    (p : PoolState) (dx dy min_lp : ℕ)
    → IsWellTyped p
    → 0 < p.lp_supply
    → 0 < p.reserve_x
    → 0 < p.reserve_y
    → IsU64 dx
    → IsU64 dy
    → later_mint p dx dy min_lp ≡ later_mint_outcome p dx dy min_lp
unfolding later_mint
later_mint_pos p dx dy min_lp w hl hx hy bx by =
    let l = p.lp_supply in
    let lp = limiting_lp p dx dy in
    let x_fits = u64_product-lt dx l bx w.lp_supply_u64 in
    let y_fits = u64_product-lt dy l by w.lp_supply_u64 in
    let lp_x : lp ≤ dx * l / p.reserve_x = omega arith in
    let lp_y : lp ≤ dy * l / p.reserve_y = omega arith in
    let x_cost_fits : p.reserve_x * lp < u128_mod =
      omega (arith, cost_product-le p.reserve_x dx l lp hx lp_x) in
    let y_cost_fits : p.reserve_y * lp < u128_mod =
      omega (arith, cost_product-le p.reserve_y dy l lp hy lp_y) in
    rw
      (
        mul_div_lem dx l p.reserve_x hx x_fits,
        mul_div_lem dy l p.reserve_y hy y_fits,
        mul_div_lem p.reserve_x lp l hl x_cost_fits,
        mul_div_lem p.reserve_y lp l hl y_cost_fits,
      )
      (ground
        (arith, cost-le p.reserve_x dx l lp hx hl lp_x, cost-le p.reserve_y dy l lp hy hl lp_y))

pub later_mint-later_mint_outcome :
    (p : PoolState) (dx dy min_lp : ℕ)
    → IsWellTyped p
    → 0 < p.lp_supply
    → IsU64 dx
    → IsU64 dy
    → later_mint p dx dy min_lp ≡ later_mint_outcome p dx dy min_lp
unfolding later_mint
later_mint-later_mint_outcome p dx dy min_lp w hl hx hy = elim (dec_lt 0 p.reserve_x) [
  | yes x_pos ↦ elim (dec_lt 0 p.reserve_y) [
    | yes y_pos ↦ later_mint_pos p dx dy min_lp w hl x_pos y_pos hx hy
    | no y_zero ↦ ground (arith, u64_product-lt dx p.lp_supply hx w.lp_supply_u64)
  ]
  | no x_zero ↦ ground arith
]
