-- ===== src/Cpmm/Withdraw/Exits.antt =====
-- The quotes of a withdrawal in crates/cpmm/src/lib.rs, in plain arithmetic.
use solana_instructions_intr.Prelude.{
  >>=-cong, checked_add, ℕ, ◌+◌, ◌-◌, ◌≤◌, ◌<◌, ◌≡◌, ◌||◌, arith, ok, err, ◌>>=◌, ◌>>◌, require,
  ok_or, ltb, ◌==◌, if◌then◌else◌, checked_sub, u128_mod, IsU64, as_u64,
}
use solana_instructions_intr.Cpmm.Types.{
  Side, side_x, side_y, balanced, PoolState, IsWellTyped, WithdrawQuote, CpmmResult, invalid_amount,
  overflow, underflow,
}
use solana_instructions_intr.Cpmm.Deposit.Later.{mul_div_lem, u64_product-lt}
use solana_instructions_intr.Cpmm.Withdraw.{
  withdraw_balanced, withdraw_single_x, withdraw_single_y, withdraw_on,
}
use solana_instructions_intr.Cpmm.Withdraw.Legs.{pro_rata}
use solana_instructions_intr.Cpmm.Withdraw.Fairness.{pro_rata-le}
use solana_instructions_intr.Cpmm.Withdraw.Sale.{
  sale_outcome, sale_lem, sale_back_lem, sale_outcome-le,
}

abbrev pub pro_rata_quote : ℕ → ℕ → WithdrawQuote
pro_rata_quote wx wy = record {
  withdraw_x = wx;
  withdraw_y = wy;
  pro_rata_x = wx;
  pro_rata_y = wy;
  swap_in_x = 0;
  swap_in_y = 0;
  swap_out_x = 0;
  swap_out_y = 0;
}

-- All in X: the share of Y is sold for `o`.
abbrev pub all_in_x : ℕ → ℕ → ℕ → WithdrawQuote
all_in_x wx wy o = record {
  withdraw_x = wx + o;
  withdraw_y = 0;
  pro_rata_x = wx;
  pro_rata_y = wy;
  swap_in_x = 0;
  swap_in_y = wy;
  swap_out_x = o;
  swap_out_y = 0;
}

abbrev pub all_in_y : ℕ → ℕ → ℕ → WithdrawQuote
all_in_y wx wy o = record {
  withdraw_x = 0;
  withdraw_y = wy + o;
  pro_rata_x = wx;
  pro_rata_y = wy;
  swap_in_x = wx;
  swap_in_y = 0;
  swap_out_x = 0;
  swap_out_y = o;
}

-- The quote for the shares `wx` and `wy`.
abbrev pub shares_outcome : PoolState → ℕ → ℕ → Side → CpmmResult WithdrawQuote
shares_outcome p wx wy balanced =
    if wx == 0 || wy == 0 then err invalid_amount else ok (pro_rata_quote wx wy)
shares_outcome p wx wy side_x =
    sale_outcome p.fee_bps (p.reserve_y - wy) (p.reserve_x - wx) wy >>= λ o.
    if wx + o == 0 then err invalid_amount else ok (all_in_x wx wy o)
shares_outcome p wx wy side_y =
    sale_outcome p.fee_bps (p.reserve_x - wx) (p.reserve_y - wy) wx >>= λ o.
    if wy + o == 0 then err invalid_amount else ok (all_in_y wx wy o)

no_underflow :
    (a b : ℕ) → b ≤ a → ◌≡◌ {A = CpmmResult ℕ} (ok_or (checked_sub a b) underflow) (ok (a - b))
no_underflow a b h = ground arith

-- The shares of at most the supply.
balanced_lem :
    (p : PoolState) (dl : ℕ)
    → IsWellTyped p
    → 0 < p.lp_supply
    → dl ≤ p.lp_supply
    → withdraw_balanced p dl
      ≡ shares_outcome p
          (pro_rata p.reserve_x dl p.lp_supply)
          (pro_rata p.reserve_y dl p.lp_supply)
          balanced
unfolding withdraw_balanced
balanced_lem p dl w hl h =
    let l = p.lp_supply in
    rw
      (
        mul_div_lem p.reserve_x dl l hl
            (u64_product-lt p.reserve_x dl w.reserve_x_u64 (omega arith)),
        mul_div_lem p.reserve_y dl l hl
            (u64_product-lt p.reserve_y dl w.reserve_y_u64 (omega arith)),
      )
      (ground (arith, pro_rata-le p.reserve_x dl l hl h, pro_rata-le p.reserve_y dl l hl h))

-- The end of a withdrawal in X, where nothing is cut off.
paid_x :
    (wx wy o r : ℕ)
    → IsU64 r
    → wx ≤ r
    → IsU64 wy
    → o ≤ r - wx
    → (ok_or (checked_add u128_mod wx o) overflow >>= λ (wide : ℕ).
        require (ltb 0 (as_u64 wide)) invalid_amount
        >> ok (record (all_in_x wx wy o) { withdraw_x = as_u64 wide; pro_rata_x = as_u64 wx }))
      ≡ (if wx + o == 0 then err invalid_amount else ok (all_in_x wx wy o))
paid_x wx wy o r br hx by ho =
    let whole : as_u64 (wx + o) ≡ wx + o = omega arith in
    let whole' : as_u64 wx ≡ wx = omega arith in ground (arith, whole, whole')

paid_y :
    (wx wy o r : ℕ)
    → IsU64 r
    → wy ≤ r
    → IsU64 wx
    → o ≤ r - wy
    → (ok_or (checked_add u128_mod wy o) overflow >>= λ (wide : ℕ).
        require (ltb 0 (as_u64 wide)) invalid_amount
        >> ok (record (all_in_y wx wy o) { withdraw_y = as_u64 wide; pro_rata_y = as_u64 wy }))
      ≡ (if wy + o == 0 then err invalid_amount else ok (all_in_y wx wy o))
paid_y wx wy o r br hy bx ho =
    let whole : as_u64 (wy + o) ≡ wy + o = omega arith in
    let whole' : as_u64 wy ≡ wy = omega arith in ground (arith, whole, whole')

single_x_lem :
    (p : PoolState) (dl : ℕ)
    → IsWellTyped p
    → 0 < p.lp_supply
    → dl ≤ p.lp_supply
    → withdraw_single_x p dl
      ≡ shares_outcome p
          (pro_rata p.reserve_x dl p.lp_supply)
          (pro_rata p.reserve_y dl p.lp_supply)
          side_x
unfolding withdraw_single_x
single_x_lem p dl w hl h =
    let l = p.lp_supply in
    let wx = pro_rata p.reserve_x dl l in
    let wy = pro_rata p.reserve_y dl l in
    let hx = pro_rata-le p.reserve_x dl l hl h in
    let hy = pro_rata-le p.reserve_y dl l hl h in
    let small : as_u64 wy ≡ wy = omega arith in
    rw
      (
        mul_div_lem p.reserve_x dl l hl
            (u64_product-lt p.reserve_x dl w.reserve_x_u64 (omega arith)),
        mul_div_lem p.reserve_y dl l hl
            (u64_product-lt p.reserve_y dl w.reserve_y_u64 (omega arith)),
        no_underflow p.reserve_x wx hx,
        no_underflow p.reserve_y wy hy,
        small,
        sale_lem (p.reserve_x - wx) (p.reserve_y - wy) wy p.fee_bps (omega arith) (omega arith)
            (omega arith),
      )
      (>>=-cong (sale_outcome p.fee_bps (p.reserve_y - wy) (p.reserve_x - wx) wy) _ _ λ o sold.
        paid_x wx wy o p.reserve_x w.reserve_x_u64 hx (omega arith)
          (sale_outcome-le p.fee_bps (p.reserve_y - wy) (p.reserve_x - wx) wy o sold))

single_y_lem :
    (p : PoolState) (dl : ℕ)
    → IsWellTyped p
    → 0 < p.lp_supply
    → dl ≤ p.lp_supply
    → withdraw_single_y p dl
      ≡ shares_outcome p
          (pro_rata p.reserve_x dl p.lp_supply)
          (pro_rata p.reserve_y dl p.lp_supply)
          side_y
unfolding withdraw_single_y
single_y_lem p dl w hl h =
    let l = p.lp_supply in
    let wx = pro_rata p.reserve_x dl l in
    let wy = pro_rata p.reserve_y dl l in
    let hx = pro_rata-le p.reserve_x dl l hl h in
    let hy = pro_rata-le p.reserve_y dl l hl h in
    let small : as_u64 wx ≡ wx = omega arith in
    rw
      (
        mul_div_lem p.reserve_x dl l hl
            (u64_product-lt p.reserve_x dl w.reserve_x_u64 (omega arith)),
        mul_div_lem p.reserve_y dl l hl
            (u64_product-lt p.reserve_y dl w.reserve_y_u64 (omega arith)),
        no_underflow p.reserve_x wx hx,
        no_underflow p.reserve_y wy hy,
        small,
        sale_back_lem (p.reserve_x - wx) (p.reserve_y - wy) wx p.fee_bps (omega arith) (omega arith)
            (omega arith),
      )
      (>>=-cong (sale_outcome p.fee_bps (p.reserve_x - wx) (p.reserve_y - wy) wx) _ _ λ o sold.
        paid_y wx wy o p.reserve_y w.reserve_y_u64 hy (omega arith)
          (sale_outcome-le p.fee_bps (p.reserve_x - wx) (p.reserve_y - wy) wx o sold))

pub quote_lem :
    (p : PoolState) (dl : ℕ) (side : Side)
    → IsWellTyped p
    → 0 < p.lp_supply
    → dl ≤ p.lp_supply
    → withdraw_on p dl side
      ≡ shares_outcome p
          (pro_rata p.reserve_x dl p.lp_supply)
          (pro_rata p.reserve_y dl p.lp_supply)
          side
quote_lem p dl balanced w hl h = balanced_lem p dl w hl h
quote_lem p dl side_x w hl h = single_x_lem p dl w hl h
quote_lem p dl side_y w hl h = single_y_lem p dl w hl h
