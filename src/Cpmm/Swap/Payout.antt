-- ===== src/Cpmm/Swap/Payout.antt =====
-- The swap formula as one floor division, and its bounds, with no machine ranges in sight.
use native.Mathlib.Nat
use native.Mathlib.Decide.{dec_lt}
use solana_instructions_intr.Prelude.{ℕ, ◌+◌, ◌*◌, ◌-◌, ◌/◌, ◌≤◌, ◌<◌, ◌≡◌, subst, arith}
use solana_instructions_intr.Prelude.Division.{div-mul-le, div-le_of_le-mul, le-div_of_mul-le}
use solana_instructions_intr.Cpmm.Types.{bps}

-- `Δout = γ * r_out * Δin / (10_000 * r_in + γ * Δin)`
unfoldable pub payout : ℕ → ℕ → ℕ → ℕ → ℕ
payout g r_in r_out amount = g * r_out * amount / (bps * r_in + g * amount)

-- The payer adds at least the value that is paid out: `r` is what stays behind on that side.
added_value :
    (g r_in r a o : ℕ)
    → g ≤ bps
    → o * (bps * r_in + g * a) ≤ g * (r + o) * a
    → r_in * (r + o) ≤ (r_in + a) * r
added_value g r_in r a o fee h = omega (arith, Nat.mul-le-mul_right (r * a) fee)

payout_den_pos : (g r_in a : ℕ) → 0 < r_in → 0 < bps * r_in + g * a
payout_den_pos g r_in a h = omega arith

-- The payout never empties the side that it comes from.
pub payout-lt : (g r_in r_out a : ℕ) → 0 < r_in → 0 < r_out → payout g r_in r_out a < r_out
unfolding payout
payout-lt g r_in r_out a hi ho =
    (Nat.div-lt_iff_lt-mul (payout_den_pos g r_in a hi)).1 (omega (arith, Nat.mul-pos ho hi))

-- It is at most the reserve, also on empty reserves, where the division by zero gives 0.
pub payout-le : (g r_in r_out a : ℕ) → payout g r_in r_out a ≤ r_out
unfolding payout
payout-le g r_in r_out a = elim (dec_lt 0 (bps * r_in + g * a)) [
  | yes h ↦ div-le_of_le-mul _ _ r_out h (omega arith)
  | no h ↦ let z : bps * r_in + g * a ≡ 0 = omega arith in rw (z, Nat.div-zero) (omega arith)
]

-- The product of the reserves does not fall.
pub payout_product :
    (g r_in r_out a : ℕ) → g ≤ bps → r_in * r_out ≤ (r_in + a) * (r_out - payout g r_in r_out a)
payout_product g r_in r_out a fee =
    let o = payout g r_in r_out a in
    let split : r_out - o + o ≡ r_out = omega (arith, payout-le g r_in r_out a) in
    subst (λ t. r_in * t ≤ (r_in + a) * (r_out - o)) split
      (added_value g r_in (r_out - o) a o fee (rw split (unfold payout in div-mul-le _ _)))

-- A larger payment gets at least as much.
pub payout_mono :
    (g r_in r_out a d : ℕ) → 0 < r_in → payout g r_in r_out a ≤ payout g r_in r_out (a + d)
payout_mono g r_in r_out a d hi =
    let o = payout g r_in r_out a in
    let paid : o * (bps * r_in + g * a) ≤ g * r_out * a = unfold payout in div-mul-le _ _ in
    let extra : o * (g * d) ≤ r_out * (g * d) =
      Nat.mul-le-mul_right (g * d) (payout-le g r_in r_out a) in
    unfold payout in le-div_of_mul-le _ _ o (payout_den_pos g r_in (a + d) hi) (omega arith)
