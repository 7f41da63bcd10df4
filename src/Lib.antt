-- ===== src/Lib.antt =====
-- Verification of the constant product market maker and of the Anchor programs around it.
--
-- crates/cpmm/src is a pure library of quotes. programs/amm/src is an Anchor program: each
-- instruction reads the vault balances, the LP supply and the fee into a `PoolState`, asks the
-- library for a quote, and carries it out by calls of the SPL token program.
--
-- Files:
--   Prelude.antt and Prelude/: names, Boolean tests, the outcomes of Rust code (`ok`, `err`,
--     `panic`), checked integer operations, floor division, byte strings and their slices.
--   Cpmm/Types.antt: PoolState, Side, the quotes and CpmmError (crates/cpmm/src/lib.rs, error.rs).
--   Cpmm/Swap.antt: swap, gamma, swap_out, swap_out_y_for_x, swap_out_x_for_y. Its children hold
--     the formula (Payout), every outcome (Outcome) and the product of the reserves (Product).
--   Cpmm/Isqrt.antt: isqrt; Isqrt/Floor is its correctness.
--   Cpmm/Deposit.antt: deposit and its helpers; children Later and First (the two branches of
--     deposit_balanced), Shares, Backing (the worth of the minted LP), Single and Opening (a deposit
--     in a pool without LP tokens). Cpmm/Panics.antt: the plain operators of the quotes.
--   Cpmm/Withdraw.antt: withdraw and its helpers; children Legs (the amounts of a quote),
--     Fairness, Backing, Value (the worth of an LP token), FullExit and, for every answer of
--     withdraw, Sale, Exits and Outcome. Cpmm/RoundTrip.antt: a deposit and its withdrawal.
--   Solana.antt, Solana/Token.antt: what the programs call and do not implement, as parameters.
--     Solana/TokenModel.antt: a token program that meets the interface.
--   Amm/Types.antt, Amm/Accounts.antt, Amm/Transfers.antt: state, errors, account structs with
--     their constraints, and the token calls of programs/amm/src.
--     Accounts/Distinct derives from the constraints that the token accounts differ; Transfers/Flow
--     is the effect of the shared token calls on the ledger, Transfers/Spared what they leave alone.
--   Amm/Swap.antt, Amm/Deposit.antt, Amm/Withdraw.antt (with burn_lp.rs), Amm/Admin.antt
--     (initialize.rs, update_config.rs) and Amm/Introspection.antt
--     (withdraw_with_introspection.rs): one function for each method of
--     programs/amm/src/instructions. Their Settlement children are the effect of a whole
--     instruction on the ledger, Introspection/Keys and Burn the check of the prior instruction,
--     Admin/History any sequence of updates, Withdraw/Exit the conditions of a withdrawal.
--   Amm/Program.antt: the entry points of programs/amm/src/lib.rs with the account constraints, over
--     the stored configs and the token ledger. Children: Steps (what a call does to the configs),
--     Pause (the lock), History (any sequence of calls), Pools (the pool that the constraints lead
--     to), Value and Trading (one call, and sequences of swaps, withdrawals and burns), Opening and
--     Funding (initialize and the first deposit), Exit (a withdrawal that must succeed),
--     Refinement (calls as steps of the pool that the crate describes, by Amm/PoolSteps.antt) and
--     Apart, Spared and Isolation (what calls with other config accounts leave alone).
--   Amm/Transaction.antt: the instructions of a transaction as relations on the states of the
--     program (Trace of any instructions, Run of those that trade with one pool), with Anchor's reading of them and the answers of the instruction sysvar. Children:
--     Claims (the burn that a withdrawal with introspection has found), Worth, Kept and Runs.
--   Dice/Types.antt, Dice/Bets.antt, Dice/Resolve.antt: the bet and its encoding, funding, placing
--     and refunding, the roll and the payout (programs/dice_game/src/state/mod.rs, error.rs and
--     instructions initialize.rs, place_bet.rs, refund_bet.rs, resolve_bet.rs,
--     resolve_from_entropy.rs). Children: Types/Encoding, Bets/Outcomes, Resolve/Payout.
--   Dice/Ed25519.antt: the parser and the check of the signature instruction in resolve_bet.rs;
--     children Parser (no panic), Signed (what an accepted instruction says), Layout (an
--     instruction with its parts one after the other) and Precompile (what the signature program
--     has verified of it).
--   Dice/Entropy.antt: commit_entropy.rs and verify_entropy_commit of resolve_from_entropy.rs;
--     children Keys and Commit.
--   Dice/Program.antt: the entry points of programs/dice_game/src/lib.rs over the stored bets and
--     the lamports. Children: Settling, Lamports, Effects (what a call does to the bets),
--     History, Refunds, Committed (a resolution from committed entropy) and Signed (one by
--     a signature of the house).
--   Tests and witnesses: Cpmm/Tests.antt, Cpmm/Examples.antt, Amm/Samples.antt, Amm/Tests.antt,
--     Amm/Examples.antt, Amm/BurnTests.antt, Amm/AddressTests.antt, Amm/ProgramTests.antt,
--     Amm/OpeningTests.antt, Amm/ExitTests.antt, Amm/TransactionTests.antt, Dice/Tests.antt,
--     Dice/GameTests.antt, Dice/PriorTests.antt, Dice/SignedTests.antt.
--
-- Integers are natural numbers; the ranges of the Rust types are the hypotheses IsU64 and
-- IsWellTyped, casts are written as a remainder, and plain operators that the overflow checks of
-- the release profile guard may panic. The loop of `isqrt` is recursion on accessibility, so it
-- needs no fuel. A handler takes the token ledger at entry and returns the one at exit; an error
-- aborts the transaction, so no ledger comes with it.
--
-- programs/dice_game/src is an Anchor program of its own: a player stakes lamports on a number, the
-- house reveals a signature or committed entropy, and its hash draws the roll.
--
-- Parameters: the token program with the creation of mints and token accounts, the system program
-- with the creation and closing of accounts, the clock, the SHA-256 hash, the derivation of
-- addresses, the constants of the Ed25519 program and what it verifies, the bumps of new accounts,
-- the discriminators of Anchor and its reading of instructions, and the instruction sysvar. Their
-- documented behaviour is a named hypothesis where a theorem needs it.
--
-- Not modelled: the wire format of the entry points and the owner and program-id checks, which Anchor
-- generates, the rent of the accounts of the AMM, logs, tests. The checks of the signers are those of
-- the called programs.
pub mod Prelude
pub mod Solana
pub mod Cpmm
pub mod Amm
pub mod Dice
