-- ===== src/Cpmm/Tests.antt =====
-- Cases of crates/cpmm/tests/cpmm.rs, evaluated, and the theorems at such inputs.
use solana_instructions_intr.Prelude.{ℕ, ◌*◌, ◌≤◌, ◌<◌, ◌≡◌, refl, arith, none, some, ok, err}
use solana_instructions_intr.Cpmm.Types.{
  PoolState, IsWellTyped, SwapQuote, side_x, balanced, slippage_exceeded, invalid_fee,
}
use solana_instructions_intr.Cpmm.Swap.{swap, swap_out, quote_out, swap_out_y_for_x}
use solana_instructions_intr.Cpmm.Swap.Outcome.{swap_outcome, swap-swap_outcome, reserve_out}
use solana_instructions_intr.Cpmm.Swap.Product.{swap-product, swap_no_profit, product, after_swap}
use solana_instructions_intr.Cpmm.Isqrt.{isqrt}
use solana_instructions_intr.Cpmm.Isqrt.Floor.{IsRoot, isqrt-IsRoot}
use solana_instructions_intr.Cpmm.Deposit.{
  deposit, deposit_balanced, deposit_single_x, first_mint, later_mint,
}
use solana_instructions_intr.Cpmm.Withdraw.{withdraw, withdraw_single_x}

abbrev equal_pool : PoolState
equal_pool = record {
  reserve_x = 100_000_000;
  reserve_y = 100_000_000;
  lp_supply = 100_000_000;
  fee_bps = 30;
}

abbrev empty_pool : PoolState
empty_pool = record { reserve_x = 0; reserve_y = 0; lp_supply = 0; fee_bps = 30 }

swap_x_for_y_with_fee :
    swap equal_pool 10_000_000 side_x 0
    ≡ ok (record { amount_in = 10_000_000; amount_out = 9_066_108 })
unfolding swap swap_out quote_out
swap_x_for_y_with_fee = refl

swap_rejects_slippage : swap equal_pool 10_000_000 side_x 9_066_109 ≡ err slippage_exceeded
unfolding swap swap_out quote_out
swap_rejects_slippage = refl

swap_rejects_max_fee : swap (record equal_pool { fee_bps = 10_000 }) 10 side_x 0 ≡ err invalid_fee
unfolding swap
swap_rejects_max_fee = refl

isqrt_of_square : isqrt (100_000_000 * 100_000_000) ≡ some 100_000_000
unfolding isqrt
isqrt_of_square = refl

first_mint_uses_isqrt :
    deposit empty_pool (some 200) (some 800) balanced 0
    ≡ ok (record {
      lp_minted = 400;
      deposit_x = 200;
      deposit_y = 800;
      swap_in_x = 0;
      swap_in_y = 0;
      swap_out_x = 0;
      swap_out_y = 0;
    })
unfolding deposit deposit_balanced first_mint isqrt
first_mint_uses_isqrt = refl

deposit_single_x_succeeds :
    deposit equal_pool (some 20_000_000) none side_x 0
    ≡ ok (record {
      lp_minted = 9_090_909;
      deposit_x = 9_999_999;
      deposit_y = 8_266_717;
      swap_in_x = 10_000_000;
      swap_in_y = 0;
      swap_out_x = 0;
      swap_out_y = 9_066_108;
    })
unfolding deposit deposit_single_x deposit_balanced later_mint swap_out quote_out
deposit_single_x_succeeds = refl

withdraw_single_x_succeeds :
    withdraw equal_pool 10_000_000 side_x 0 0
    ≡ ok (record {
      withdraw_x = 18_975_692;
      withdraw_y = 0;
      pro_rata_x = 10_000_000;
      pro_rata_y = 10_000_000;
      swap_in_x = 0;
      swap_in_y = 10_000_000;
      swap_out_x = 8_975_692;
      swap_out_y = 0;
    })
unfolding withdraw withdraw_single_x swap_out_y_for_x quote_out
withdraw_single_x_succeeds = refl

equal_pool-IsWellTyped : IsWellTyped equal_pool
equal_pool-IsWellTyped = omega arith

abbrev sold_ten : SwapQuote
sold_ten = record { amount_in = 10_000_000; amount_out = 9_066_108 }

swap-swap_outcome_example :
    swap equal_pool 10_000_000 side_x 0 ≡ swap_outcome equal_pool 10_000_000 side_x 0
swap-swap_outcome_example =
    swap-swap_outcome equal_pool 10_000_000 side_x 0 equal_pool-IsWellTyped (omega arith)

swap-product_example :
    (sold_ten.amount_in ≡ 10_000_000)
    × (0 < sold_ten.amount_out)
    × (5 ≤ sold_ten.amount_out)
    × (sold_ten.amount_out < reserve_out equal_pool side_x)
    × (product equal_pool ≤ product (after_swap equal_pool side_x sold_ten))
unfolding swap swap_out quote_out
swap-product_example =
    swap-product equal_pool 10_000_000 side_x 5 sold_ten equal_pool-IsWellTyped (omega arith) refl

abbrev sold_twenty : SwapQuote
sold_twenty = record { amount_in = 20_000_000; amount_out = 16_624_979 }

abbrev sold_back : SwapQuote
sold_back = record { amount_in = 9_066_108; amount_out = 9_945_505 }

swap_no_profit_example : sold_back.amount_out ≤ 10_000_000
unfolding swap swap_out quote_out
swap_no_profit_example =
    swap_no_profit equal_pool 10_000_000 side_x 0 0 sold_ten sold_back equal_pool-IsWellTyped
      (omega arith) (omega arith) refl refl

isqrt-IsRoot_example : (r : ℕ) × (isqrt 10 ≡ some r) × IsRoot 10 r
isqrt-IsRoot_example = isqrt-IsRoot 10 (omega arith)
