-- ===== src/Amm/OpeningTests.antt =====
-- The opening of a pool and its first deposit, at concrete accounts.
use solana_instructions_intr.Prelude.{◌≡◌, refl, arith, none, some, ok, if◌then◌else◌, bytes_eq}
use solana_instructions_intr.Solana.TokenModel.{
  Book, moved, minted, book_ops, book_ops-IsTokenProgram,
}
use solana_instructions_intr.Cpmm.Deposit.{deposit_balanced, first_mint}
use solana_instructions_intr.Cpmm.Deposit as Cpmm_deposit
use solana_instructions_intr.Cpmm.Isqrt.{isqrt}
use solana_instructions_intr.Amm.Types.{Config, op_balanced}
use solana_instructions_intr.Amm.Accounts.{lp_constraints, swap_constraints}
use solana_instructions_intr.Amm.Transfers.{transfer_user_to_vault}
use solana_instructions_intr.Amm.Deposit as Amm_deposit
use solana_instructions_intr.Amm.Deposit.{execute_deposit_transfers, mint_lp_tokens}
use solana_instructions_intr.Amm.Admin.{init}
use solana_instructions_intr.Amm.Program.{initialize, deposit, init_constraints, Amm, process}
use solana_instructions_intr.Amm.Program.Opening.{first_config, IsCanonical}
use solana_instructions_intr.Amm.Program.Funding.{Funded, initialize-Funded}
use solana_instructions_intr.Amm.Samples.{key}
use solana_instructions_intr.Amm.AddressTests.{ata, addresses, addresses-IsCollisionFree, listed}
use solana_instructions_intr.Amm.ProgramTests.{unseen, mints_apart, user_apart}

-- A user with 1000 of X and 4000 of Y, and no pool.
abbrev purse : Book
purse = record {
  held = λ j.
      if bytes_eq j (ata (key 1) (key 2))
      then 1000
      else if bytes_eq j (ata (key 1) (key 3))
      then 4000
      else 0;
  issued = λ m. 0;
}

abbrev bare : Amm book_ops
bare = record { configs = λ j. none; ledger = purse }

abbrev config : Config
config = first_config listed 255 254 1 30 (some (key 1))

abbrev created : Amm book_ops
created = record { configs = λ j. if bytes_eq (key 4) j then some config else none; ledger = purse }

-- The deposit of 200 and 800 mints 400.
abbrev funded : Amm book_ops
funded = record created {
  ledger =
      minted
        (moved (moved purse (ata (key 1) (key 2)) (ata (key 4) (key 2)) 200) (ata (key 1) (key 3))
          (ata (key 4) (key 3)) 800)
        (key 5) (ata (key 1) (key 5)) 400;
}

initialize_runs :
    process book_ops addresses unseen listed (initialize 255 254 1 30 (some (key 1))) bare
    ≡ ok created
unfolding process init_constraints init bytes_eq
initialize_runs = refl

deposit_runs :
    process book_ops addresses unseen listed (deposit (some 200) (some 800) op_balanced 300) created
    ≡ ok funded
unfolding process lp_constraints swap_constraints Amm_deposit.deposit execute_deposit_transfers
    transfer_user_to_vault mint_lp_tokens Cpmm_deposit.deposit deposit_balanced first_mint isqrt
    bytes_eq
deposit_runs = refl

lp_bump_found : IsCanonical addresses (key 4) 254
unfolding bytes_eq
lp_bump_found = refl

initialize-Funded_example :
    Funded book_ops book_ops-IsTokenProgram addresses listed config
      (some 200)
      (some 800)
      op_balanced
      300
      created
      funded
initialize-Funded_example =
    initialize-Funded book_ops book_ops-IsTokenProgram addresses addresses-IsCollisionFree unseen
      unseen listed listed 255 254 1 30 (some (key 1)) (some 200) (some 800) op_balanced 300 bare
      created funded lp_bump_found mints_apart initialize_runs refl user_apart (omega arith)
      (omega arith) deposit_runs
