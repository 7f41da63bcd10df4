-- ===== src/Cpmm/RoundTrip.antt =====
-- A deposit followed by a withdrawal of the LP that it minted (crates/cpmm/src/lib.rs).
use native.Mathlib.Nat
use solana_instructions_intr.Prelude.{ℕ, zero, suc, ◌+◌, ◌*◌, ◌/◌, ◌≤◌, ◌<◌, ◌≡◌, arith, ok, IsU64}
use solana_instructions_intr.Prelude.Division.{div-mul-le, lt-div-mul-add, div-eq_of_bounds}
use solana_instructions_intr.Cpmm.Types.{
  PoolState, IsWellTyped, DepositQuote, WithdrawQuote, balanced,
}
use solana_instructions_intr.Cpmm.Deposit.{deposit_balanced}
use solana_instructions_intr.Cpmm.Deposit.Later.{mul_div_lem, u64_product-lt}
use solana_instructions_intr.Cpmm.Deposit.Shares.{later_facts}
use solana_instructions_intr.Cpmm.Deposit.Backing.{IsBacked, minted_whole}
use solana_instructions_intr.Cpmm.Withdraw.{withdraw, withdraw_balanced}

-- The pool after the two transfers and the mint of a balanced deposit.
abbrev pub after_deposit : PoolState → DepositQuote → PoolState
after_deposit p q = record p {
  reserve_x = p.reserve_x + q.deposit_x;
  reserve_y = p.reserve_y + q.deposit_y;
  lp_supply = p.lp_supply + q.lp_minted;
}

-- A payment `c` for `lp` new shares is what these shares are worth afterwards.
returned : (r l lp c : ℕ) → 0 < l → c ≡ r * lp / l → (r + c) * lp / (l + lp) ≡ c
returned r l lp c hl e =
    let lo : c * l ≤ r * lp = rw e (div-mul-le (r * lp) l) in
    let hi : r * lp < c * l + l = rw e (lt-div-mul-add (r * lp) l hl) in
    div-eq_of_bounds ((r + c) * lp) (l + lp) c (omega arith) (omega arith)

shares_pos : (r l lp c : ℕ) → c ≡ r * lp / l → 0 < c → 0 < lp
shares_pos r l zero c e h = absurd (omega (arith, Nat.zero-div l))
shares_pos r l (suc lp) c e h = omega arith

-- The quote of a pro-rata withdrawal of `x` and `y`.
abbrev pub pro_rata_quote : ℕ → ℕ → WithdrawQuote
pro_rata_quote x y = record {
  withdraw_x = x;
  withdraw_y = y;
  pro_rata_x = x;
  pro_rata_y = y;
  swap_in_x = 0;
  swap_in_y = 0;
  swap_out_x = 0;
  swap_out_y = 0;
}

withdraw_shares :
    (p : PoolState) (dl x y : ℕ)
    → IsWellTyped p
    → IsU64 dl
    → 0 < dl
    → 0 < p.lp_supply
    → 0 < x
    → 0 < y
    → x ≤ p.reserve_x
    → y ≤ p.reserve_y
    → p.reserve_x * dl / p.lp_supply ≡ x
    → p.reserve_y * dl / p.lp_supply ≡ y
    → withdraw p dl balanced 0 0 ≡ ok (pro_rata_quote x y)
unfolding withdraw withdraw_balanced
withdraw_shares p dl x y w hd pd pl px py lx ly ex ey =
    rw
      (
        mul_div_lem p.reserve_x dl p.lp_supply pl
            (u64_product-lt p.reserve_x dl w.reserve_x_u64 hd),
        mul_div_lem p.reserve_y dl p.lp_supply pl
            (u64_product-lt p.reserve_y dl w.reserve_y_u64 hd),
      )
      (ground arith)

-- In a backed pool of u64 amounts with LP tokens outstanding: where a balanced deposit of u64 offers
-- succeeds and the pool after it still holds u64 amounts, withdrawing its LP tokens straight away,
-- with no minimum set, returns exactly the two amounts that were deposited.
pub withdraw-deposit :
    (p : PoolState) (dx dy min_lp : ℕ) (q : DepositQuote)
    → IsWellTyped p
    → IsWellTyped (after_deposit p q)
    → 0 < p.lp_supply
    → IsBacked p
    → IsU64 dx
    → IsU64 dy
    → deposit_balanced p dx dy min_lp ≡ ok q
    → withdraw (after_deposit p q) q.lp_minted balanced 0 0
      ≡ ok (pro_rata_quote q.deposit_x q.deposit_y)
withdraw-deposit p dx dy min_lp q w w' supplied backed bx by e =
    let f = later_facts p dx dy min_lp q w supplied bx by e in
    let whole = minted_whole p dx dy min_lp q w supplied bx by e backed in
    let x_back =
      returned p.reserve_x p.lp_supply q.lp_minted q.deposit_x supplied (rw whole f.paid_x) in
    let y_back =
      returned p.reserve_y p.lp_supply q.lp_minted q.deposit_y supplied (rw whole f.paid_y) in
    withdraw_shares (after_deposit p q) q.lp_minted q.deposit_x q.deposit_y w' (omega arith)
      (shares_pos p.reserve_x p.lp_supply q.lp_minted q.deposit_x (rw whole f.paid_x) f.paid_x_pos)
      (omega arith) f.paid_x_pos f.paid_y_pos (omega arith) (omega arith) x_back y_back
