-- ===== src/Amm/Examples.antt =====
-- The withdrawals of the AMM at a concrete ledger.
use solana_instructions_intr.Prelude.{◌≡◌, refl, arith, false, some, ok, if◌then◌else◌, bytes_eq}
use solana_instructions_intr.Solana.TokenModel.{
  Book, moved, burned, book_ops, book_ops-IsTokenProgram,
}
use solana_instructions_intr.Cpmm.Types.{IsWellTyped, WithdrawQuote, balanced}
use solana_instructions_intr.Cpmm.Deposit.Backing.{IsBacked}
use solana_instructions_intr.Cpmm.Withdraw.{withdraw_balanced}
use solana_instructions_intr.Cpmm.Withdraw as Cpmm_withdraw
use solana_instructions_intr.Amm.Types.{Config, op_balanced}
use solana_instructions_intr.Amm.Transfers.{pool_of, transfer_vault_to_user}
use solana_instructions_intr.Amm.Withdraw.{withdraw, execute_withdraw_transfers, burn_lp_tokens}
use solana_instructions_intr.Amm.Withdraw.Settlement.{Withdrawn, withdraw_settles}
use solana_instructions_intr.Cpmm.Types.{DepositQuote}
use solana_instructions_intr.Cpmm.Deposit.{deposit_balanced, later_mint}
use solana_instructions_intr.Cpmm.Deposit as Cpmm_deposit
use solana_instructions_intr.Solana.TokenModel.{minted}
use solana_instructions_intr.Amm.Transfers.{transfer_user_to_vault}
use solana_instructions_intr.Amm.Deposit.{deposit, execute_deposit_transfers, mint_lp_tokens}
use solana_instructions_intr.Amm.Deposit.Settlement.{Deposited, deposit_settles}
use solana_instructions_intr.Amm.Samples.{key, config, trade, holder, holder-AreLpDistinct}

-- Vaults of 1000 and 4000, and 2000 LP tokens, of which the user holds 500.
abbrev pub start : Book
start = record {
  held = λ k.
      if bytes_eq k (key 6)
      then 1000
      else if bytes_eq k (key 7)
      then 4000
      else if bytes_eq k (key 13)
      then 500
      else if bytes_eq k (key 8)
      then 1000
      else if bytes_eq k (key 9)
      then 1000
      else 0;
  issued = λ m. if bytes_eq m (key 5) then 2000 else 0;
}

abbrev pub quote : WithdrawQuote
quote = record {
  withdraw_x = 250;
  withdraw_y = 1000;
  pro_rata_x = 250;
  pro_rata_y = 1000;
  swap_in_x = 0;
  swap_in_y = 0;
  swap_out_x = 0;
  swap_out_y = 0;
}

abbrev pub paid : Book → Book
paid l = moved (moved l (key 6) (key 8) 250) (key 7) (key 9) 1000

pub start-IsWellTyped : IsWellTyped (pool_of book_ops trade (start.issued (key 5)) start)
unfolding bytes_eq
start-IsWellTyped = record {
  reserve_x_u64 = omega arith;
  reserve_y_u64 = omega arith;
  lp_supply_u64 = omega arith;
  fee_bps_u16 = omega arith;
}

start-IsBacked : IsBacked (pool_of book_ops trade (start.issued (key 5)) start)
unfolding bytes_eq
start-IsBacked = omega arith

abbrev after_exit : Book
after_exit = burned (paid start) (key 5) (key 13) 500

exit_runs : withdraw book_ops holder 500 op_balanced 250 1000 start ≡ ok after_exit
unfolding withdraw execute_withdraw_transfers transfer_vault_to_user burn_lp_tokens
    Cpmm_withdraw.withdraw withdraw_balanced bytes_eq
exit_runs = refl

withdraw_settles_example :
    (config.locked ≡ false)
    × ((q : WithdrawQuote) × (Cpmm_withdraw.withdraw
            (pool_of book_ops trade (start.issued (key 5)) start)
            500
            balanced
            250
            1000
          ≡ ok q)
        × Withdrawn book_ops holder 500 q start after_exit)
withdraw_settles_example =
    withdraw_settles book_ops book_ops-IsTokenProgram holder 500 op_balanced 250 1000 start
      after_exit holder-AreLpDistinct start-IsWellTyped exit_runs

abbrev after_deposit : Book
after_deposit =
    minted (moved (moved start (key 8) (key 6) 100) (key 9) (key 7) 400) (key 5) (key 13) 200

deposit_runs :
    deposit book_ops holder (some 100) (some 400) op_balanced 200 start ≡ ok after_deposit
unfolding deposit execute_deposit_transfers transfer_user_to_vault mint_lp_tokens
    Cpmm_deposit.deposit deposit_balanced later_mint bytes_eq
deposit_runs = refl

deposit_settles_example :
    (config.locked ≡ false)
    × ((q : DepositQuote) × (Cpmm_deposit.deposit
            (pool_of book_ops trade (start.issued (key 5)) start)
            (some 100)
            (some 400)
            balanced
            200
          ≡ ok q)
        × Deposited book_ops holder q start after_deposit)
deposit_settles_example =
    deposit_settles book_ops book_ops-IsTokenProgram holder (some 100) (some 400) op_balanced 200
      start after_deposit holder-AreLpDistinct deposit_runs

-- A change of the fee by the authority.
abbrev raised : Config
raised = record config { fee = 100 }
