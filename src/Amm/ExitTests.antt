-- ===== src/Amm/ExitTests.antt =====
-- The withdrawal of LP tokens at concrete accounts, and the quotes behind it.
use solana_instructions_intr.Prelude.{
  Bool, ℕ, ◌≤◌, ◌≡◌, refl, arith, true, List, Result, ok, err, leb, ◌&&◌, if◌then◌else◌, bytes_eq,
  ◌↔◌,
}
use solana_instructions_intr.Solana.{Pubkey}
use solana_instructions_intr.Solana.Token.{IsServing}
use solana_instructions_intr.Solana.TokenModel.{
  Book, moved, burned, book_ops, book_ops-IsTokenProgram,
}
use solana_instructions_intr.Amm.Types.{op_balanced}
use solana_instructions_intr.Amm.Accounts.{lp_constraints, swap_constraints}
use solana_instructions_intr.Amm.Withdraw.Exit.{Pays, CanExit}
use solana_instructions_intr.Amm.Program.{withdraw, Amm, process}
use solana_instructions_intr.Amm.Program.Pools.{pool_at}
use solana_instructions_intr.Amm.Program.Exit.{Exited, withdraw-Pays}
use solana_instructions_intr.Amm.Samples.{key, config}
use solana_instructions_intr.Amm.AddressTests.{addresses, addresses-IsCollisionFree, listed}
use solana_instructions_intr.Amm.ProgramTests.{
  unseen, book, opened, opened-IsWellTyped, mints_apart, user_apart, found,
}

-- Everybody may spend from every account.
abbrev Anybody : Pubkey → Pubkey → List (List ℕ) → Type 0
Anybody k w seeds = Unit {0}

passed :
    (b : Bool) (l : Book) → b ≡ true → ◌≡◌ {A = Result ℕ Book} (if b then ok l else err 1) (ok l)
passed b l h = rw h refl

book_ops-IsServing : IsServing book_ops Anybody
book_ops-IsServing = record {
  transfer_runs = λ c n l _ there _.
      let a = c.accounts in
      (
        moved l a.from a.to n,
        passed (leb n (l.held a.from)) (moved l a.from a.to n) (ground arith),
      );
  burn_runs = λ c n l _ there issued.
      let a = c.accounts in
      (
        burned l a.mint a.from n,
        passed (leb n (l.held a.from) && leb n (l.issued a.mint)) (burned l a.mint a.from n)
            (ground arith),
      );
}

listed_met : lp_constraints addresses listed ≡ true
unfolding lp_constraints swap_constraints bytes_eq
listed_met = refl

holder_can : CanExit book_ops Anybody listed book
unfolding bytes_eq
holder_can = record {
  spends_x = tt;
  spends_y = tt;
  spends_lp = tt;
  room_x = omega arith;
  room_y = omega arith;
}

holds_enough : 500 ≤ book.held listed.user_lp
unfolding bytes_eq
holds_enough = omega arith

issued_enough : 500 ≤ (pool_at addresses book_ops (key 4) config book).lp_supply
unfolding bytes_eq
issued_enough = omega arith

withdraw-Pays_example : Pays (pool_at addresses book_ops (key 4) config book) 500 250 1000 ↔ (
    (g' : Amm book_ops) × (process book_ops addresses unseen listed
        (withdraw 500 op_balanced 250 1000)
        opened
      ≡ ok g')
    × Exited book_ops listed (pool_at addresses book_ops (key 4) config book) 500 book g'.ledger)
withdraw-Pays_example =
    withdraw-Pays book_ops book_ops-IsTokenProgram Anybody book_ops-IsServing addresses
      addresses-IsCollisionFree unseen listed config 500 250 1000 opened book found refl listed_met
      mints_apart user_apart opened-IsWellTyped holder_can refl holds_enough issued_enough
