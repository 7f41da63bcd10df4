-- ===== src/Cpmm/Examples.antt =====
-- The theorems on deposits and withdrawals at concrete pools.
use solana_instructions_intr.Cpmm.Panics.{quotes-ne-panic}
use solana_instructions_intr.Cpmm.Withdraw.Outcome.{withdraw_outcome, withdraw-withdraw_outcome}
use solana_instructions_intr.Prelude.{
  ◌≤◌, ◌+◌, ◌%◌, some, none, panic, ◌≢◌, ◌+◌, ◌≤◌, ◌^◌, ◌≡◌, refl, arith, ok, u64_mod,
}
use solana_instructions_intr.Cpmm.Types.{PoolState, DepositQuote, WithdrawQuote, side_x, balanced}
use solana_instructions_intr.Cpmm.Swap.{swap, swap_out, quote_out, swap_out_y_for_x}
use solana_instructions_intr.Cpmm.Deposit.{
  deposit, deposit_balanced, deposit_single_x, later_mint, balanced_quote,
}
use solana_instructions_intr.Cpmm.Deposit.Later.{limiting_lp, cost}
use solana_instructions_intr.Cpmm.Deposit.Backing.{minted_cut, minted_value, RoundsDown, IsBacked}
use solana_instructions_intr.Cpmm.Deposit.Single.{deposit-Spends, Spends}
use solana_instructions_intr.Cpmm.Withdraw.{withdraw, withdraw_single_x}
use solana_instructions_intr.Cpmm.Withdraw.Fairness.{after_withdraw}
use solana_instructions_intr.Cpmm.Withdraw.Backing.{withdraw-IsBacked}
use solana_instructions_intr.Cpmm.Withdraw.FullExit.{
  full_exit_forfeits, wanted, put_back, bought, wanted_reserve, other_reserve,
}
use solana_instructions_intr.Cpmm.RoundTrip.{withdraw-deposit, after_deposit, pro_rata_quote}

abbrev equal_pool : PoolState
equal_pool = record {
  reserve_x = 100_000_000;
  reserve_y = 100_000_000;
  lp_supply = 100_000_000;
  fee_bps = 30;
}

abbrev even_deposit : DepositQuote
even_deposit = balanced_quote 100_000_000 100_000_000 100_000_000

-- The reserves are 2 and 8 for 4 LP; 3 LP cost 1 and 6, where 1.5 would be the exact share.
abbrev small_pool : PoolState
small_pool = record { reserve_x = 2; reserve_y = 8; lp_supply = 4; fee_bps = 30 }

abbrev three_lp : DepositQuote
three_lp = balanced_quote 3 1 6

minted_value_example :
    RoundsDown small_pool.reserve_x three_lp.deposit_x small_pool.lp_supply three_lp.lp_minted
    × RoundsDown small_pool.reserve_y three_lp.deposit_y small_pool.lp_supply three_lp.lp_minted
unfolding deposit_balanced later_mint
minted_value_example =
    minted_value small_pool 2 6 0 three_lp (omega arith) (omega arith) (omega arith) (omega arith)
      refl (omega arith)

-- A pool with far more LP than tokens: a deposit of 2 ^ 33 of each token mints nothing.
abbrev drained_pool : PoolState
drained_pool = record { reserve_x = 1; reserve_y = 1; lp_supply = 2 ^ 33; fee_bps = 30 }

abbrev nothing_minted : DepositQuote
nothing_minted = balanced_quote 0 (2 ^ 33) (2 ^ 33)

minted_cut_example :
    (nothing_minted.lp_minted ≡ limiting_lp drained_pool (2 ^ 33) (2 ^ 33) % u64_mod)
    × (nothing_minted.lp_minted + u64_mod ≤ limiting_lp drained_pool (2 ^ 33) (2 ^ 33))
    × (nothing_minted.deposit_x
        ≡ cost drained_pool drained_pool.reserve_x (limiting_lp drained_pool (2 ^ 33) (2 ^ 33)))
    × (nothing_minted.deposit_y
        ≡ cost drained_pool drained_pool.reserve_y (limiting_lp drained_pool (2 ^ 33) (2 ^ 33)))
unfolding deposit_balanced later_mint
minted_cut_example =
    minted_cut drained_pool (2 ^ 33) (2 ^ 33) 0 nothing_minted (omega arith) (omega arith)
      (omega arith) (omega arith) refl (omega arith)

abbrev x_deposit : DepositQuote
x_deposit = record {
  lp_minted = 9_090_909;
  deposit_x = 9_999_999;
  deposit_y = 8_266_717;
  swap_in_x = 10_000_000;
  swap_in_y = 0;
  swap_out_x = 0;
  swap_out_y = 9_066_108;
}

deposit-Spends_example : Spends equal_pool 20_000_000 side_x 0 x_deposit
unfolding deposit deposit_single_x deposit_balanced later_mint swap_out quote_out
deposit-Spends_example =
    deposit-Spends equal_pool 20_000_000 side_x 0 x_deposit (omega arith) (omega arith) refl

abbrev x_exit : WithdrawQuote
x_exit = record {
  withdraw_x = 18_975_692;
  withdraw_y = 0;
  pro_rata_x = 10_000_000;
  pro_rata_y = 10_000_000;
  swap_in_x = 0;
  swap_in_y = 10_000_000;
  swap_out_x = 8_975_692;
  swap_out_y = 0;
}

withdraw-IsBacked_example :
    (x_exit.withdraw_x ≤ equal_pool.reserve_x)
    × (x_exit.withdraw_y ≤ equal_pool.reserve_y)
    × IsBacked (after_withdraw equal_pool 10_000_000 x_exit)
unfolding withdraw withdraw_single_x swap_out_y_for_x quote_out
withdraw-IsBacked_example =
    withdraw-IsBacked equal_pool 10_000_000 side_x 0 0 x_exit (omega arith) (omega arith)
      (omega arith) refl

abbrev whole_exit : WithdrawQuote
whole_exit = record {
  withdraw_x = 100_000_000;
  withdraw_y = 0;
  pro_rata_x = 100_000_000;
  pro_rata_y = 100_000_000;
  swap_in_x = 0;
  swap_in_y = 100_000_000;
  swap_out_x = 0;
  swap_out_y = 0;
}

full_exit_forfeits_example :
    (wanted side_x whole_exit ≡ wanted_reserve equal_pool side_x)
    × (put_back side_x whole_exit ≡ other_reserve equal_pool side_x)
    × (bought side_x whole_exit ≡ 0)
unfolding withdraw withdraw_single_x swap_out_y_for_x quote_out
full_exit_forfeits_example =
    full_exit_forfeits equal_pool side_x 0 0 whole_exit (omega arith) refl refl

withdraw-deposit_example :
    withdraw (after_deposit small_pool three_lp) three_lp.lp_minted balanced 0 0
    ≡ ok (pro_rata_quote three_lp.deposit_x three_lp.deposit_y)
unfolding deposit_balanced later_mint
withdraw-deposit_example =
    withdraw-deposit small_pool 2 6 0 three_lp (omega arith) (omega arith) (omega arith)
      (omega arith) (omega arith) (omega arith) refl

withdraw-withdraw_outcome_example :
    withdraw equal_pool 25_000_000 side_x 3 0 ≡ withdraw_outcome equal_pool 25_000_000 side_x 3 0
withdraw-withdraw_outcome_example =
    withdraw-withdraw_outcome equal_pool 25_000_000 side_x 3 0 (omega arith) (omega arith)

quotes-ne-panic_example :
    (swap drained_pool 5 balanced 0 ≢ panic)
    × (deposit drained_pool (some 7) none balanced 0 ≢ panic)
    × (withdraw drained_pool 7 balanced 0 1 ≢ panic)
quotes-ne-panic_example =
    quotes-ne-panic drained_pool 5 7 (some 7) none balanced 0 1 (omega arith) tt
