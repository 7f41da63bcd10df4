-- ===== src/Cpmm/Isqrt/Floor.antt =====
-- `isqrt` of crates/cpmm/src/lib.rs terminates without a panic and returns the floor of the root.
use native.Mathlib.Nat
use native.Mathlib.Decide.{dec_lt}
use native.Mathlib.Bridge.{le_prop}
use mathlib.Core.WellFounded.{Acc}
use mathlib.Core.Logic.{dif_pos, dif_neg}
use solana_instructions_intr.Prelude.{
  ℕ, zero, suc, ◌-◌, ◌+◌, ◌*◌, ◌/◌, ◌≤◌, ◌<◌, ◌≡◌, refl, arith, some, u128_mod,
}
use solana_instructions_intr.Prelude.Division.{div-mul-le, lt-div-mul-add, le-div_of_mul-le}
use solana_instructions_intr.Cpmm.Isqrt.{newton, isqrt_loop, isqrt, lt_wf}

-- `r` is the integer square root of `n`.
pub record IsRoot (n r : ℕ) : Type 0 where
  pub below : r * r ≤ n
  pub above : n < (r + 1) * (r + 1)

am_gm_ordered : (u d : ℕ) → 4 * (u * (u + d)) ≤ (u + (u + d)) * (u + (u + d))
am_gm_ordered u d = omega arith

am_gm : (a b : ℕ) → 4 * (a * b) ≤ (a + b) * (a + b)
am_gm a b = elim (dec_lt a b) [
  | yes h ↦ let e : a + (b - a) ≡ b = omega arith in rw e at (am_gm_ordered a (b - a))
  | no h ↦ let e : b + (a - b) ≡ a = omega arith in omega (arith, rw e at (am_gm_ordered b (a - b)))
]

-- One step of Newton's iteration stays above the root.
step_above : (n x q y : ℕ) → n < q * x + x → y ≡ (x + q) / 2 → n < (y + 1) * (y + 1)
step_above n x q y hq hy =
    let h : x + (q + 1) ≤ 2 * (y + 1) = omega arith in
    omega (arith, Nat.mul-le-mul h h, am_gm x (q + 1))

step_fits : (n y q : ℕ) → 0 < y → y ≤ n → q * y ≤ n → y + q ≤ n + 1
step_fits n zero q hy hn hq = omega arith
step_fits n (suc y) zero hy hn hq = omega arith
step_fits n (suc y) (suc q) hy hn hq = omega arith

-- The new `y` of a round is computed without a panic.
newton-eq-some : (n y : ℕ) → n + 1 < u128_mod → 0 < y → y ≤ n → newton n y ≡ some ((y + n / y) / 2)
newton-eq-some n y hn hy hyn = ground (arith, step_fits n y (n / y) hy hyn (div-mul-le n y))

square-le : (n x : ℕ) → 0 < x → x ≤ (x + n / x) / 2 → x * x ≤ n
square-le n x hx h =
    let below : x ≤ n / x = omega arith in
    Nat.le_trans (Nat.mul-le-mul_right x below) (div-mul-le n x)

-- The loop, from any `x` between the root and `n`, ends at the root.
isqrt_loop-IsRoot :
    (n x y : ℕ) (w : Acc ◌<◌ x)
    → n + 1 < u128_mod
    → 0 < x
    → x ≤ n
    → n < (x + 1) * (x + 1)
    → y ≡ (x + n / x) / 2
    → (r : ℕ) × (isqrt_loop n x y w ≡ some r) × IsRoot n r
unfolding isqrt_loop
isqrt_loop-IsRoot n x y (Acc.intro _ smaller) hn hx hxn above hy = elim (dec_lt y x) [
  | yes h ↦
      let q_pos : 0 < n / x = le-div_of_mul-le n x 1 hx (omega arith) in
      let y_pos : 0 < y = omega arith in
      let y_le : y ≤ n = omega arith in
      rw (dif_pos _ le_prop h, newton-eq-some n y hn y_pos y_le)
        (isqrt_loop-IsRoot n y ((y + n / y) / 2) (smaller y h) hn y_pos y_le
          (step_above n x (n / x) y (lt-div-mul-add n x hx) hy) refl)
  | no h ↦
      rw (dif_neg _ h) (x, refl, record { below = square-le n x hx (omega arith); above = above })
]

-- For every argument below `u128::MAX`, `isqrt` ends without a panic and returns the largest
-- number whose square is at most the argument.
pub isqrt-IsRoot : (n : ℕ) → n + 1 < u128_mod → (r : ℕ) × (isqrt n ≡ some r) × IsRoot n r
unfolding isqrt
isqrt-IsRoot zero hn = (0, refl, record { below = omega arith; above = omega arith })
isqrt-IsRoot (suc m) hn =
    let n : ℕ = suc m in
    let one : n / n ≡ 1 = Nat.div_self (omega arith) in
    let (r, e, root) =
      isqrt_loop-IsRoot n n ((n + 1) / 2) (lt_wf.apply n) hn (omega arith) (omega arith)
        (omega arith) (omega (arith, one)) in
    (r, ground (arith, e), root)
