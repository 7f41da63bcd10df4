-- ===== src/Cpmm/Deposit/First.antt =====
-- The first mint of crates/cpmm/src/lib.rs.
use native.Mathlib.Nat
use native.Mathlib.Decide.{dec_lt}
use solana_instructions_intr.Prelude.{
  ℕ, zero, suc, ◌+◌, ◌-◌, ◌*◌, ◌≤◌, ◌<◌, ◌≡◌, arith, ok, err, ltb, if◌then◌else◌, u64_mod, u128_mod,
  IsU64,
}
use solana_instructions_intr.Cpmm.Types.{PoolState, slippage_exceeded}
use solana_instructions_intr.Cpmm.Isqrt.Floor.{IsRoot, isqrt-IsRoot}
use solana_instructions_intr.Cpmm.Deposit.{balanced_quote, first_mint, deposit_balanced}

-- Two u64 amounts multiply to at most `(2 ^ 64 - 1) ^ 2`.
product_fits : (a b : ℕ) → IsU64 a → IsU64 b → a * b + 1 < u128_mod
product_fits a b ha hb =
    let pa : a ≤ u64_mod - 1 = omega arith in
    let pb : b ≤ u64_mod - 1 = omega arith in omega (arith, Nat.mul-le-mul pa pb)

pub root-lt : (n r : ℕ) → r * r ≤ n → n < u128_mod → r < u64_mod
root-lt n r h hn = elim (dec_lt r u64_mod) [
  | yes small ↦ small
  | no large ↦ let m : u64_mod ≤ r = omega arith in absurd (omega (arith, Nat.mul-le-mul m m))
]

root_pos : (n r : ℕ) → 0 < n → IsRoot n r → 0 < r
root_pos n zero h root = absurd (omega (arith, root.above))
root_pos n (suc r) h root = omega arith

-- The first mint takes both amounts whole and mints the integer root of their product, unless that
-- is below the floor that the user set.
pub first_deposit :
    (p : PoolState) (dx dy min_lp : ℕ)
    → p.lp_supply ≡ 0
    → 0 < dx
    → 0 < dy
    → IsU64 dx
    → IsU64 dy
    → (r : ℕ) × IsRoot (dx * dy) r
      × (0 < r)
      × (deposit_balanced p dx dy min_lp
          ≡ (if ltb r min_lp then err slippage_exceeded else ok (balanced_quote r dx dy)))
unfolding deposit_balanced first_mint
first_deposit p dx dy min_lp empty hx hy bx by =
    let fits = product_fits dx dy bx by in
    let (r, e, root) = isqrt-IsRoot (dx * dy) fits in
    let r_fits = root-lt (dx * dy) r root.below (omega arith) in
    let r_pos = root_pos (dx * dy) r (Nat.mul-pos hx hy) root in (r, root, r_pos, ground arith)
