-- ===== src/Cpmm/Deposit/Shares.antt =====
-- Balanced deposits of crates/cpmm/src/lib.rs: what the user pays and what the LP tokens are worth.
use native.Mathlib.Decide.{dec_lt}
use solana_instructions_intr.Prelude.{ℕ, ◌≤◌, ◌<◌, ◌≡◌, ◌∙◌, sym, arith, ok, IsU64}
use solana_instructions_intr.Cpmm.Types.{PoolState, IsWellTyped, DepositQuote}
use solana_instructions_intr.Cpmm.Deposit.{deposit_balanced, later_mint}
use solana_instructions_intr.Cpmm.Deposit.First.{first_deposit}
use solana_instructions_intr.Cpmm.Deposit.Later.{
  limiting_lp, cost, Settled, settle-Settled, cost-le, later_mint-later_mint_outcome,
}

later_mint_of_ok :
    (p : PoolState) (dx dy min_lp : ℕ) (q : DepositQuote)
    → 0 < p.lp_supply
    → deposit_balanced p dx dy min_lp ≡ ok q
    → later_mint p dx dy min_lp ≡ ok q
unfolding deposit_balanced
later_mint_of_ok p dx dy min_lp q hl e = ground arith

abbrev LaterFacts : PoolState → ℕ → ℕ → ℕ → DepositQuote → Type 0
LaterFacts p dx dy min_lp q =
    let lp = limiting_lp p dx dy in
    Settled p lp (cost p p.reserve_x lp) (cost p p.reserve_y lp) min_lp q

pub later_facts :
    (p : PoolState) (dx dy min_lp : ℕ) (q : DepositQuote)
    → IsWellTyped p
    → 0 < p.lp_supply
    → IsU64 dx
    → IsU64 dy
    → deposit_balanced p dx dy min_lp ≡ ok q
    → LaterFacts p dx dy min_lp q
later_facts p dx dy min_lp q w hl bx by e = settle-Settled p _ _ _ min_lp q (
    sym (later_mint-later_mint_outcome p dx dy min_lp w hl bx by)
    ∙ later_mint_of_ok p dx dy min_lp q hl e)

pub offers_pos :
    (p : PoolState) (dx dy min_lp : ℕ) (q : DepositQuote)
    → deposit_balanced p dx dy min_lp ≡ ok q
    → (0 < dx) × (0 < dy)
unfolding deposit_balanced
offers_pos p dx dy min_lp q e = ground arith

-- A balanced deposit takes a positive amount of each token, never more than the user offered, and
-- mints at least the floor that the user set.
pub deposit_takes :
    (p : PoolState) (dx dy min_lp : ℕ) (q : DepositQuote)
    → IsWellTyped p
    → IsU64 dx
    → IsU64 dy
    → deposit_balanced p dx dy min_lp ≡ ok q
    → (0 < q.deposit_x)
      × (q.deposit_x ≤ dx)
      × (0 < q.deposit_y)
      × (q.deposit_y ≤ dy)
      × (min_lp ≤ q.lp_minted)
deposit_takes p dx dy min_lp q w bx by e = elim (dec_lt 0 p.lp_supply) [
  | yes supplied ↦
      let f = later_facts p dx dy min_lp q w supplied bx by e in
      let l = p.lp_supply in
      let lp = limiting_lp p dx dy in
      omega (
        arith,
        f,
        cost-le p.reserve_x dx l lp f.x_pos supplied (omega arith),
        cost-le p.reserve_y dy l lp f.y_pos supplied (omega arith),
      )
  | no empty ↦
      let (hx, hy) = offers_pos p dx dy min_lp q e in
      let (r, _, _, first) = first_deposit p dx dy min_lp (omega arith) hx hy bx by in ground arith
]
