-- ===== src/Cpmm/Isqrt.antt =====
-- `isqrt` of crates/cpmm/src/lib.rs: Newton's iteration from above, by recursion on `x`, which
-- falls in every round. The build checks overflow, so `x + 1` and `x + n / x` may panic.
pub mod Floor
use mathlib.Core.Logic.{dite}
use mathlib.Core.WellFounded.{Acc, WellFounded}
use native.Mathlib.Decide.{dec_lt}
use solana_instructions_intr.Prelude.{
  ℕ, zero, suc, ◌/◌, ◌<◌, Option, some, arith, and_then, ◌==◌, if◌then◌else◌, u128_mod, checked_add,
  checked_div,
}

Acc-below : (k n : ℕ) → n < k → Acc ◌<◌ n
Acc-below zero n h = absurd (omega arith)
Acc-below (suc k) n h = Acc.intro n (λ m hm. Acc-below k m (omega arith))

unfoldable lt_wf : WellFounded ◌<◌
unfolding Acc-below
lt_wf = record { apply = λ n. Acc-below (suc n) n (omega arith) }

-- `(x + n / x) / 2`
abbrev newton : ℕ → ℕ → Option ℕ
newton n x = and_then (checked_div n x) λ q. and_then (checked_add u128_mod x q) λ s. some (s / 2)

-- `while y < x { x = y; y = (x + n / x) / 2; }`
isqrt_loop : (n x y : ℕ) → Acc ◌<◌ x → Option ℕ
isqrt_loop n x y (Acc.intro _ smaller) =
    dite (dec_lt y x) (λ h. and_then (newton n y) λ y'. isqrt_loop n y y' (smaller y h))
      (λ _. some x)

-- `none` is a panic.
unfoldable pub isqrt : ℕ → Option ℕ
unfolding isqrt_loop lt_wf dec_lt
isqrt n =
    if n == 0
    then some 0
    else and_then (checked_add u128_mod n 1) λ s. isqrt_loop n n (s / 2) (lt_wf.apply n)
