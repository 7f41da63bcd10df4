-- ===== src/Amm/BurnTests.antt =====
-- The withdrawal with introspection at a concrete transaction.
use solana_instructions_intr.Prelude.{
  ℕ, ◌+◌, ◌≡◌, refl, arith, [], ◌∷◌, false, ok, ◌↔◌, bytes_eq, AreBytes, from_le_bytes,
}
use solana_instructions_intr.Solana.{AccountMeta, Instruction}
use solana_instructions_intr.Solana.TokenModel.{
  Book, moved, burned, book_ops, book_ops-IsTokenProgram,
}
use solana_instructions_intr.Cpmm.Types.{IsWellTyped, WithdrawQuote, balanced}
use solana_instructions_intr.Cpmm.Withdraw.{withdraw_balanced}
use solana_instructions_intr.Cpmm.Withdraw as Cpmm_withdraw
use solana_instructions_intr.Amm.Types.{op_balanced}
use solana_instructions_intr.Amm.Transfers.{pool_of, transfer_vault_to_user}
use solana_instructions_intr.Amm.Transfers.Flow.{Flow}
use solana_instructions_intr.Amm.Withdraw.{execute_withdraw_transfers, burn_lp}
use solana_instructions_intr.Amm.Withdraw.Settlement.{Withdrawn}
use solana_instructions_intr.Amm.Introspection.{
  Introspected, check_keys, confirm_burn_accounts, confirm_burn, withdraw_w_introspection,
}
use solana_instructions_intr.Amm.Introspection.Burn.{IsBurn, confirm_burn-IsBurn}
use solana_instructions_intr.Amm.Introspection.Settlement.{burn_then_withdraw, paid_twice}
use solana_instructions_intr.Amm.Samples.{key, trade, holder, burner, holder-AreLpDistinct}
use solana_instructions_intr.Amm.Examples.{start, paid, start-IsWellTyped}

abbrev signed : ℕ → AccountMeta
signed n = record { pubkey = key n; is_signer = false; is_writable = false }

abbrev burn_ix : Instruction
burn_ix = record {
  program_id = key 99;
  accounts =
      signed 1
      ∷ signed 2
      ∷ signed 3
      ∷ signed 4
      ∷ signed 5
      ∷ signed 13
      ∷ signed 10
      ∷ signed 11
      ∷ signed 12
      ∷ [];
  ix_data = 21 ∷ 22 ∷ 23 ∷ 24 ∷ 25 ∷ 26 ∷ 27 ∷ 28 ∷ 244 ∷ 1 ∷ 0 ∷ 0 ∷ 0 ∷ 0 ∷ 0 ∷ 0 ∷ [];
}

abbrev seen : Introspected
seen = record {
  program_id = key 99;
  burn_discriminator = 21 ∷ 22 ∷ 23 ∷ 24 ∷ 25 ∷ 26 ∷ 27 ∷ 28 ∷ [];
  instruction_sysvar = key 98;
  sysvar_id = key 98;
  prior = ok burn_ix;
}

burn_confirmed : confirm_burn seen holder 500 ≡ ok tt
unfolding confirm_burn confirm_burn_accounts check_keys bytes_eq from_le_bytes
burn_confirmed = refl

burn_ix-AreBytes : AreBytes burn_ix.ix_data
burn_ix-AreBytes = ground arith

confirm_burn-IsBurn_example :
    (confirm_burn seen holder 500 ≡ ok tt) ↔ IsBurn seen holder 500 burn_ix
confirm_burn-IsBurn_example =
    confirm_burn-IsBurn seen holder 500 burn_ix refl burn_ix-AreBytes refl (omega arith)

abbrev after_burn : Book
after_burn = burned start (key 5) (key 13) 500

burn_runs : burn_lp book_ops burner 500 start ≡ ok after_burn
unfolding burn_lp bytes_eq
burn_runs = refl

claim_runs :
    withdraw_w_introspection book_ops seen holder 500 op_balanced 250 1000 after_burn
    ≡ ok (paid after_burn)
unfolding withdraw_w_introspection confirm_burn confirm_burn_accounts check_keys bytes_eq
    from_le_bytes execute_withdraw_transfers transfer_vault_to_user Cpmm_withdraw.withdraw
    withdraw_balanced
claim_runs = refl

burn_then_withdraw_example :
    (q : WithdrawQuote) × (Cpmm_withdraw.withdraw
        (pool_of book_ops trade (start.issued (key 5)) start)
        500
        balanced
        250
        1000
      ≡ ok q)
    × Withdrawn book_ops holder 500 q start (paid after_burn)
burn_then_withdraw_example =
    burn_then_withdraw book_ops book_ops-IsTokenProgram seen burner holder 500 op_balanced 250 1000
      start after_burn (paid after_burn) holder-AreLpDistinct start-IsWellTyped refl refl burn_runs
      claim_runs

-- The second claim of the same burn takes a quarter of what is left.
abbrev paid_again : Book
paid_again = moved (moved (paid after_burn) (key 6) (key 8) 187) (key 7) (key 9) 750

first_claim_runs :
    withdraw_w_introspection book_ops seen holder 500 op_balanced 0 0 after_burn
    ≡ ok (paid after_burn)
unfolding withdraw_w_introspection confirm_burn confirm_burn_accounts check_keys bytes_eq
    from_le_bytes execute_withdraw_transfers transfer_vault_to_user Cpmm_withdraw.withdraw
    withdraw_balanced
first_claim_runs = refl

second_claim_runs :
    withdraw_w_introspection book_ops seen holder 500 op_balanced 0 0 (paid after_burn)
    ≡ ok paid_again
unfolding withdraw_w_introspection confirm_burn confirm_burn_accounts check_keys bytes_eq
    from_le_bytes execute_withdraw_transfers transfer_vault_to_user Cpmm_withdraw.withdraw
    withdraw_balanced
second_claim_runs = refl

first_pool-IsWellTyped :
    IsWellTyped (pool_of book_ops trade (after_burn.issued (key 5) + 500) after_burn)
unfolding bytes_eq
first_pool-IsWellTyped = record {
  reserve_x_u64 = omega arith;
  reserve_y_u64 = omega arith;
  lp_supply_u64 = omega arith;
  fee_bps_u16 = omega arith;
}

second_pool-IsWellTyped :
    IsWellTyped (pool_of book_ops trade ((paid after_burn).issued (key 5) + 500) (paid after_burn))
unfolding bytes_eq
second_pool-IsWellTyped = record {
  reserve_x_u64 = omega arith;
  reserve_y_u64 = omega arith;
  lp_supply_u64 = omega arith;
  fee_bps_u16 = omega arith;
}

paid_twice_example :
    (q r : WithdrawQuote) × (Cpmm_withdraw.withdraw
        (pool_of book_ops trade (after_burn.issued (key 5) + 500) after_burn)
        500
        balanced
        0
        0
      ≡ ok q)
    × (Cpmm_withdraw.withdraw
          (pool_of book_ops trade (after_burn.issued (key 5) + 500) (paid after_burn))
          500
          balanced
          0
          0
        ≡ ok r)
    × Flow book_ops trade 0
        (q.withdraw_x + r.withdraw_x)
        0
        (q.withdraw_y + r.withdraw_y)
        after_burn
        paid_again
paid_twice_example =
    paid_twice book_ops book_ops-IsTokenProgram seen holder 500 op_balanced 0 0 after_burn
      (paid after_burn) paid_again holder-AreLpDistinct first_pool-IsWellTyped
      second_pool-IsWellTyped first_claim_runs second_claim_runs
