-- ===== src/Amm/Transaction.antt =====
-- Transactions of several instructions, in which a withdrawal with introspection
-- (programs/amm/src/instructions/withdraw_with_introspection.rs) finds the burn before it.
pub mod Claims
pub mod Worth
pub mod Kept
pub mod Runs
use solana_instructions_intr.Prelude.{
  ℕ, ◌≡◌, ◌≢◌, List, ◌++◌, Option, none, some, Result, ok, length, IsU64, AreBytes, to_le_bytes,
}
use solana_instructions_intr.Solana.{Pubkey, Derivation, Instruction, keys_of}
use solana_instructions_intr.Solana.Token.{TokenOps}
use solana_instructions_intr.Cpmm.Types.{PoolState, IsWellTyped}
use solana_instructions_intr.Amm.Types.{Config}
use solana_instructions_intr.Amm.Accounts.{LpAccounts}
use solana_instructions_intr.Amm.Introspection.{Introspected, expected_accounts}
use solana_instructions_intr.Amm.Program.{
  Call, initialize, deposit, withdraw_w_introspection, withdraw, swap, update_config,
  burn_lp_tokens, Amm, process,
}
use solana_instructions_intr.Amm.Program.Pools.{pool_at, lp_mint_at}
use solana_instructions_intr.Amm.Program.Value.{Holds}

-- The id of the program, and how Anchor reads an instruction for it: the accounts and the call.
pub record Wire : Type 0 where
  pub program_id : Pubkey
  pub burn_discriminator : List ℕ
  pub decode : Instruction → Option (LpAccounts × Call)

-- What Anchor documents of it: a discriminator has eight bytes, an instruction with that of
-- `burn_lp_tokens` and the bytes of a u64 is that call, and the accounts of an instruction are
-- those of its struct in the order of the fields, before any others.
pub record IsAnchor (w : Wire) : Type 0 where
  pub eight : length w.burn_discriminator ≡ 8
  pub dispatches :
      (ix : Instruction) (a : LpAccounts) (c : Call) (n : ℕ)
      → IsU64 n
      → w.decode ix ≡ some (a, c)
      → ix.ix_data ≡ w.burn_discriminator ++ to_le_bytes 8 n
      → c ≡ burn_lp_tokens n
  pub in_order :
      (ix : Instruction) (a : LpAccounts) (n : ℕ)
      → w.decode ix ≡ some (a, burn_lp_tokens n)
      → (others : List Pubkey) × (keys_of ix.accounts ≡ expected_accounts a ++ others)

-- What the handlers are given: the answer `prior` of `get_instruction_relative(-1, sysvar)`.
abbrev pub given : Wire → Pubkey → Pubkey → Result ℕ Instruction → Introspected
given w sysvar id prior = record {
  program_id = w.program_id;
  burn_discriminator = w.burn_discriminator;
  instruction_sysvar = sysvar;
  sysvar_id = id;
  prior = prior;
}

-- The sysvar answers with no instruction but the last one before.
abbrev pub Answers : Option Instruction → Result ℕ Instruction → Type 0
Answers last prior = (ix : Instruction) → prior ≡ ok ix → last ≡ some ix

-- The calls of a transaction that trade with the pool or give LP tokens back, with arguments of the
-- Rust types.
abbrev pub Exchanges : Call → Type 0
Exchanges (swap amount side min_out) = IsU64 amount
Exchanges (withdraw lp_amount side min_x min_y) = Unit
Exchanges (withdraw_w_introspection lp_amount side min_x min_y) = IsU64 lp_amount
Exchanges (burn_lp_tokens amount) = Unit
Exchanges (initialize config_bump lp_bump seed fee authority) = ⊥
Exchanges (deposit token_x token_y side min_lp) = ⊥
Exchanges (update_config seed fee authority locked) = ⊥

module _ (t : TokenOps) (d : Derivation) (w : Wire) where
  -- The instructions of a transaction up to some point, with the last one and the state it left: any
  -- calls of the program, in any pools, and instructions of other programs, which may leave any state.
  pub data Trace (g : Amm t) : Option Instruction → Amm t → Type 0 where
    started : Trace g none g
    calls :
        {last : Option Instruction} {m g' : Amm t} (ix : Instruction) (sysvar id : Pubkey)
        (prior : Result ℕ Instruction) (a : LpAccounts) (c : Call)
        → Trace g last m
        → AreBytes ix.ix_data
        → w.decode ix ≡ some (a, c)
        → Answers last prior
        → process t d (given w sysvar id prior) a c m ≡ ok g'
        → Trace g (some ix) g'
    foreign :
        {last : Option Instruction} {m g' : Amm t} (ix : Instruction)
        → Trace g last m
        → AreBytes ix.ix_data
        → ix.program_id ≢ w.program_id
        → Trace g (some ix) g'

module _ (t : TokenOps) (d : Derivation) (w : Wire) (key : Pubkey) (k : Config) where
  abbrev pub pool : Amm t → PoolState
  pool g = pool_at d t key k g.ledger

  -- The instructions of a transaction up to some point, with the last one and the state it left:
  -- calls of the program in the pool at `key`, calls of it in other pools, and instructions of other
  -- programs that keep the pool's config, do not lower the worth of its LP tokens and do not raise
  -- their supply.
  pub data Run (g : Amm t) : Option Instruction → Amm t → Type 0 where
    begun : Run g none g
    called :
        {last : Option Instruction} {m g' : Amm t} (ix : Instruction) (sysvar id : Pubkey)
        (prior : Result ℕ Instruction) (a : LpAccounts) (c : Call)
        → Run g last m
        → AreBytes ix.ix_data
        → w.decode ix ≡ some (a, c)
        → Answers last prior
        → a.config_key ≡ key
        → a.user ≢ key
        → Exchanges c
        → IsWellTyped (pool m)
        → process t d (given w sysvar id prior) a c m ≡ ok g'
        → Run g (some ix) g'
    nearby :
        {last : Option Instruction} {m g' : Amm t} (ix : Instruction) (s : Introspected)
        (a : LpAccounts) (c : Call)
        → Run g last m
        → AreBytes ix.ix_data
        → w.decode ix ≡ some (a, c)
        → a.config_key ≢ key
        → a.mint_lp ≢ lp_mint_at d key k
        → a.user ≢ key
        → a.user ≢ a.config_key
        → process t d s a c m ≡ ok g'
        → Run g (some ix) g'
    elsewhere :
        {last : Option Instruction} {m g' : Amm t} (ix : Instruction)
        → Run g last m
        → AreBytes ix.ix_data
        → ix.program_id ≢ w.program_id
        → g'.configs key ≡ m.configs key
        → Holds (pool m) (pool g')
        → Run g (some ix) g'
