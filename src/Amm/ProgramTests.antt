-- ===== src/Amm/ProgramTests.antt =====
-- The theorems on the AMM's entry points at concrete sequences of calls.
use solana_instructions_intr.Amm.Program.Isolation.{process_isolated}
use solana_instructions_intr.Amm.Program.Refinement.{process-PoolStep}
use solana_instructions_intr.Amm.PoolSteps.{PoolStep}
use solana_instructions_intr.Prelude.{
  ◌≡◌, ◌≢◌, refl, arith, true, [], Option, none, some, ok, err, if◌then◌else◌, bytes_eq,
}
use solana_instructions_intr.Solana.{Pubkey}
use solana_instructions_intr.Solana.TokenModel.{
  book_ops-IsTokenProgram, Book, moved, burned, book_ops,
}
use solana_instructions_intr.Cpmm.Types.{IsWellTyped}
use solana_instructions_intr.Cpmm.Swap as Cpmm_swap
use solana_instructions_intr.Cpmm.Swap.{swap_out, quote_out}
use solana_instructions_intr.Cpmm.Withdraw.{withdraw_balanced}
use solana_instructions_intr.Cpmm.Withdraw as Cpmm_withdraw
use solana_instructions_intr.Amm.Types.{Config, op_x, op_balanced}
use solana_instructions_intr.Amm.Accounts.{lp_constraints, swap_constraints, burn_constraints}
use solana_instructions_intr.Amm.Transfers.{transfer_vault_to_user}
use solana_instructions_intr.Amm.Swap as Amm_swap
use solana_instructions_intr.Amm.Swap.{deposit_tokens, withdraw_tokens}
use solana_instructions_intr.Amm.Withdraw as Amm_withdraw
use solana_instructions_intr.Amm.Withdraw.{execute_withdraw_transfers}
use solana_instructions_intr.Amm.Admin as Admin
use solana_instructions_intr.Amm.Admin.History.{Kept}
use solana_instructions_intr.Amm.Introspection.{Introspected}
use solana_instructions_intr.Amm.Program.{
  with_config, withdraw, swap, update_config, burn_lp_tokens, update_constraints, Amm, process,
}
use solana_instructions_intr.Amm.Program.Pause.{locked_answer, pause_stops}
use solana_instructions_intr.Amm.Program.History as History
use solana_instructions_intr.Amm.Program.History.{process-Kept}
use solana_instructions_intr.Amm.Program.Pools.{lp_mint_at, HasMints, pool_at, HasMints}
use solana_instructions_intr.Amm.Program.Trading.{pool}
use solana_instructions_intr.Amm.Samples.{key, config}
use solana_instructions_intr.Amm.AddressTests.{addresses-IsCollisionFree, ata, addresses, listed}

abbrev pub unseen : Introspected
unseen = record {
  program_id = key 99;
  burn_discriminator = [];
  instruction_sysvar = key 98;
  sysvar_id = key 98;
  prior = err 0;
}

-- Vaults of 1000 and 4000 and 2000 LP tokens, of which the user holds 600.
abbrev pub book : Book
book = record {
  held = λ j.
      if bytes_eq j (ata (key 4) (key 2))
      then 1000
      else if bytes_eq j (ata (key 4) (key 3))
      then 4000
      else if bytes_eq j (ata (key 1) (key 5))
      then 600
      else if bytes_eq j (ata (key 1) (key 2))
      then 100
      else 0;
  issued = λ m. if bytes_eq m (key 5) then 2000 else 0;
}

abbrev pub opened : Amm book_ops
opened = record { configs = λ j. if bytes_eq j (key 4) then some config else none; ledger = book }

-- A swap of 100 X for 362 Y, the burn of 100 LP tokens, and a withdrawal for 500.
abbrev swapped : Amm book_ops
swapped = record opened {
  ledger =
      moved (moved book (ata (key 1) (key 2)) (ata (key 4) (key 2)) 100) (ata (key 4) (key 3))
        (ata (key 1) (key 3)) 362;
}

abbrev thinned : Amm book_ops
thinned = record opened { ledger = burned swapped.ledger (key 5) (ata (key 1) (key 5)) 100 }

abbrev left : Amm book_ops
left = record opened {
  ledger =
      burned
        (moved (moved thinned.ledger (ata (key 4) (key 2)) (ata (key 1) (key 2)) 289)
          (ata (key 4) (key 3)) (ata (key 1) (key 3)) 957)
        (key 5) (ata (key 1) (key 5)) 500;
}

swap_runs : process book_ops addresses unseen listed (swap 100 op_x 300) opened ≡ ok swapped
unfolding process swap_constraints Amm_swap.swap deposit_tokens withdraw_tokens Cpmm_swap.swap
    swap_out quote_out bytes_eq
swap_runs = refl

burn_runs : process book_ops addresses unseen listed (burn_lp_tokens 100) swapped ≡ ok thinned
unfolding process burn_constraints Amm_withdraw.burn_lp bytes_eq
burn_runs = refl

withdraw_runs :
    process book_ops addresses unseen listed (withdraw 500 op_balanced 0 0) thinned ≡ ok left
unfolding process lp_constraints swap_constraints Amm_withdraw.withdraw execute_withdraw_transfers
    transfer_vault_to_user Amm_withdraw.burn_lp_tokens Cpmm_withdraw.withdraw withdraw_balanced
    bytes_eq
withdraw_runs = refl

pub opened-IsWellTyped : IsWellTyped (pool book_ops addresses (key 4) config opened)
unfolding bytes_eq
opened-IsWellTyped = record {
  reserve_x_u64 = omega arith;
  reserve_y_u64 = omega arith;
  lp_supply_u64 = omega arith;
  fee_bps_u16 = omega arith;
}

swapped-IsWellTyped : IsWellTyped (pool book_ops addresses (key 4) config swapped)
unfolding bytes_eq
swapped-IsWellTyped = record {
  reserve_x_u64 = omega arith;
  reserve_y_u64 = omega arith;
  lp_supply_u64 = omega arith;
  fee_bps_u16 = omega arith;
}

thinned-IsWellTyped : IsWellTyped (pool book_ops addresses (key 4) config thinned)
unfolding bytes_eq
thinned-IsWellTyped = record {
  reserve_x_u64 = omega arith;
  reserve_y_u64 = omega arith;
  lp_supply_u64 = omega arith;
  fee_bps_u16 = omega arith;
}

pub mints_apart : HasMints addresses (key 4) config
unfolding bytes_eq
mints_apart = record { sides = λ p. cc; lp_x = λ p. cc; lp_y = λ p. cc }

pub user_apart : key 1 ≢ key 4
user_apart p = cc

pub found : opened.configs (key 4) ≡ some config
unfolding bytes_eq
found = refl

-- The authority locks the pool and gives up its authority.
abbrev locked : Config
locked = record config { authority = none; locked = true }

abbrev locked_configs : Pubkey → Option Config
locked_configs j = if bytes_eq (key 4) j then some locked else opened.configs j

abbrev stopped : Amm book_ops
stopped = record opened { configs = locked_configs }

lock_runs :
    process book_ops addresses unseen listed (update_config 1 30 none true) opened ≡ ok stopped
unfolding process update_constraints Admin.update bytes_eq
lock_runs = refl

pause_stops_example :
    (k : Config) × (stopped.configs (key 4) ≡ some k)
    × (k.locked ≡ true)
    × (process book_ops addresses unseen listed (swap 100 op_x 300) stopped
        ≡ locked_answer book_ops addresses unseen
            (with_config listed k)
            (swap 100 op_x 300)
            stopped)
    × ((h : Amm book_ops)
        → process book_ops addresses unseen listed (swap 100 op_x 300) stopped ≢ ok h)
pause_stops_example =
    pause_stops book_ops addresses unseen listed 1 30 none opened stopped listed (swap 100 op_x 300)
      lock_runs refl tt

abbrev closed : Amm book_ops
closed = record swapped { configs = locked_configs }

lock_after :
    process book_ops addresses unseen listed (update_config 1 30 none true) swapped ≡ ok closed
unfolding process update_constraints Admin.update bytes_eq
lock_after = refl

process-Kept_example : (k : Config) × (closed.configs (key 4) ≡ some k) × Kept config k
process-Kept_example = process-Kept book_ops addresses opened closed (key 4) config found (
    History.called unseen listed (update_config 1 30 none true)
      (History.called unseen listed (swap 100 op_x 300) History.begun swap_runs) lock_after)

process-PoolStep_example :
    PoolStep unseen
      (with_config listed config)
      (swap 100 op_x 300)
      (pool_at addresses book_ops (key 4) config opened.ledger)
      (pool_at addresses book_ops (key 4) config swapped.ledger)
process-PoolStep_example =
    process-PoolStep book_ops book_ops-IsTokenProgram addresses addresses-IsCollisionFree unseen
      listed (swap 100 op_x 300) config opened swapped found mints_apart user_apart tt
      opened-IsWellTyped swap_runs

other_key : key 4 ≢ key 7
other_key p = cc

other_user : key 1 ≢ key 7
other_user p = cc

other_mint : listed.mint_lp ≢ lp_mint_at addresses (key 7) config
unfolding bytes_eq
other_mint p = cc

process_isolated_example :
    (pool_at addresses book_ops (key 7) config swapped.ledger
      ≡ pool_at addresses book_ops (key 7) config opened.ledger)
    × (swapped.configs (key 7) ≡ opened.configs (key 7))
process_isolated_example =
    process_isolated book_ops book_ops-IsTokenProgram addresses addresses-IsCollisionFree unseen
      listed (key 7) config other_key other_user user_apart other_mint (swap 100 op_x 300) opened
      swapped swap_runs
