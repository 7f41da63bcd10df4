-- ===== src/Prelude/Division.antt =====
-- Floor division, as the two inequalities that determine it.
use Prim.Native.Nat.{ℕ, ◌+◌, ◌*◌, ◌/◌, ◌≤◌, ◌<◌}
use mathlib.Core.Path.{◌≡◌}
use native.Mathlib.Nat
use native.Mathlib.Omega.{arith}

pub div-mul-le : (n d : ℕ) → n / d * d ≤ n
div-mul-le n d = Nat.div-mul-le_self n d

pub lt-div-mul-add : (n d : ℕ) → 0 < d → n < n / d * d + d
lt-div-mul-add n d h = Nat.lt-div-mul-add h

-- A quotient is below every bound that its divisor's multiple meets.
pub div-le_of_le-mul : (n d q : ℕ) → 0 < d → n ≤ q * d → n / d ≤ q
div-le_of_le-mul n d q h p = Nat.le_of_mul-le-mul_right (Nat.le_trans (Nat.div-mul-le_self n d) p) h

pub le-div_of_mul-le : (n d q : ℕ) → 0 < d → q * d ≤ n → q ≤ n / d
le-div_of_mul-le n d q h p = (Nat.le-div_iff_mul-le h).1 p

pub div-eq_of_bounds : (n d q : ℕ) → q * d ≤ n → n < q * d + d → n / d ≡ q
div-eq_of_bounds n d q lo hi = Nat.div-eq_of_lt-le d lo (omega arith)
