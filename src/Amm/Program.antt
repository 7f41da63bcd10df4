-- ===== src/Amm/Program.antt =====
-- The entry points of programs/amm/src/lib.rs with the account constraints of their instructions,
-- over the config accounts of all pools and the token ledger.
pub mod Steps
pub mod Pause
pub mod History
pub mod Pools
pub mod Value
pub mod Trading
pub mod Opening
pub mod Funding
pub mod Exit
pub mod Refinement
pub mod Apart
pub mod Spared
pub mod Isolation
use solana_instructions_intr.Prelude.{
  ℕ, Bool, true, false, ◌&&◌, List, [], ◌∷◌, Option, none, some, Result, ok, ◌>>=◌, ◌>>◌, require,
  ok_or, ◌==◌, if◌then◌else◌, to_le_bytes, bytes_eq,
}
use solana_instructions_intr.Solana.{Pubkey, key_eq, constraint, Derivation, Instruction}
use solana_instructions_intr.Solana.Token.{TokenOps, NewMint, NewAccount}
use solana_instructions_intr.Amm.Types.{
  Config, OperationSide, Handled, called, config_seed, lp_seed,
}
use solana_instructions_intr.Amm.Accounts.{
  Swap, LpAccounts, BurnLp, UpdateConfig, swap_constraints, lp_constraints, burn_constraints,
}
use solana_instructions_intr.Amm.Swap
use solana_instructions_intr.Amm.Deposit
use solana_instructions_intr.Amm.Withdraw
use solana_instructions_intr.Amm.Admin
use solana_instructions_intr.Amm.Introspection
use solana_instructions_intr.Amm.Introspection.{Introspected}

-- The entry points with their arguments; the bumps of the new accounts are Anchor's.
pub data Call : Type 0 where
  initialize : (config_bump lp_bump seed fee : ℕ) → (authority : Option Pubkey) → Call
  deposit : (token_x token_y : Option ℕ) → (side : OperationSide) → (min_lp : ℕ) → Call
  withdraw_w_introspection : (lp_amount : ℕ) → (side : OperationSide) → (min_x min_y : ℕ) → Call
  withdraw : (lp_amount : ℕ) → (side : OperationSide) → (min_x min_y : ℕ) → Call
  swap : (amount : ℕ) → (side : OperationSide) → (min_out : ℕ) → Call
  update_config : (seed fee : ℕ) → (authority : Option Pubkey) → (locked : Bool) → Call
  burn_lp_tokens : (amount : ℕ) → Call

-- The account list as the instruction was given it, with the config that is stored.
abbrev pub with_config : LpAccounts → Config → LpAccounts
with_config a c = record a { trade = record a.trade { config = c } }

-- The accounts of `BurnLp`.
abbrev pub burner_of : LpAccounts → BurnLp
burner_of a = record {
  user = a.user;
  mint_x = a.mint_x;
  mint_y = a.mint_y;
  config_key = a.config_key;
  config = a.config;
  mint_lp = a.mint_lp;
  user_lp = a.user_lp;
  token_program = a.token_program;
  system_program = a.system_program;
  associated_token_program = a.associated_token_program;
}

abbrev pub updater_of : LpAccounts → UpdateConfig
updater_of a = record { user = a.user; config_key = a.config_key; config = a.config }

-- The constraints of `UpdateConfig`.
unfoldable pub update_constraints : Derivation → UpdateConfig → ℕ → Bool
update_constraints d a seed =
    a.config.seed == seed
    && key_eq a.config_key (
        d.create_program_address
          (config_seed ∷ to_le_bytes 8 seed ∷ (a.config.config_bump ∷ []) ∷ []))

-- The addresses of the accounts that `Initialize` creates; the `init` of its config needs that none
-- is stored there.
unfoldable pub init_constraints : Derivation → LpAccounts → ℕ → Option Config → Bool
init_constraints d a seed (some c) = false
init_constraints d a seed none =
    key_eq a.config_key (d.find_program_address (config_seed ∷ to_le_bytes 8 seed ∷ []))
    && key_eq a.mint_lp (d.find_program_address (lp_seed ∷ a.config_key ∷ []))
    && key_eq a.vault_x (d.associated_token a.config_key a.mint_x)
    && key_eq a.vault_y (d.associated_token a.config_key a.mint_y)

abbrev pub put_config : (Pubkey → Option Config) → Pubkey → Config → Pubkey → Option Config
put_config configs key c j = if bytes_eq key j then some c else configs j

-- What `Initialize` creates: the LP mint with its decimals, and the two vaults.
abbrev pub lp_mint_of : LpAccounts → NewMint
lp_mint_of a = record {
  payer = a.user;
  address = a.mint_lp;
  authority = a.config_key;
  decimals = 6;
}

abbrev pub vault_account : LpAccounts → Pubkey → Pubkey → NewAccount
vault_account a vault mint = record {
  payer = a.user;
  address = vault;
  mint = mint;
  authority = a.config_key;
}

-- The LP account of the user, which every instruction that has it creates if it is missing.
abbrev pub user_lp_account : LpAccounts → NewAccount
user_lp_account a = record {
  payer = a.user;
  address = a.user_lp;
  mint = a.mint_lp;
  authority = a.user;
}

pub record Amm (t : TokenOps) : Type 0 where
  pub configs : Pubkey → Option Config
  pub ledger : t.Ledger

module _ (t : TokenOps) (d : Derivation) (s : Introspected) where
  abbrev pub load : LpAccounts → Amm t → Handled LpAccounts
  load a g = do c ← ok_or (g.configs a.config_key) constraint; ok (with_config a c)

  abbrev pub moved : Amm t → Handled t.Ledger → Handled (Amm t)
  moved g r = r >>= λ l. ok (record g { ledger = l })

  -- The handler runs on the ledger with the LP account of the user.
  abbrev pub with_user_lp : LpAccounts → Amm t → (t.Ledger → Handled t.Ledger) → Handled t.Ledger
  with_user_lp a g run = called (t.init_if_needed (user_lp_account a) g.ledger) >>= run

  unfoldable pub process : LpAccounts → Call → Amm t → Handled (Amm t)
  process given (initialize config_bump lp_bump seed fee authority) g = do
    require (init_constraints d given seed (g.configs given.config_key)) constraint
    l0 ← called (t.init_mint (lp_mint_of given) g.ledger)
    l1 ← called (t.init_account (vault_account given given.vault_x given.mint_x) l0)
    l2 ← called (t.init_account (vault_account given given.vault_y given.mint_y) l1)
    c ←
        Admin.init
          (record {
            mint_x = given.mint_x;
            mint_y = given.mint_y;
            bump_config = config_bump;
            bump_mint_lp = lp_bump;
          })
          seed fee authority
    ok (record { configs = put_config g.configs given.config_key c; ledger = l2 })
  process given (deposit token_x token_y side min_lp) g = do
    a ← load given g
    require (lp_constraints d a) constraint
    moved g (with_user_lp a g (Deposit.deposit t a token_x token_y side min_lp))
  process given (withdraw_w_introspection lp_amount side min_x min_y) g = do
    a ← load given g
    require (Introspection.introspection_constraints d s a) constraint
    moved g
        (with_user_lp a g (Introspection.withdraw_w_introspection t s a lp_amount side min_x min_y))
  process given (withdraw lp_amount side min_x min_y) g = do
    a ← load given g
    require (lp_constraints d a) constraint
    moved g (with_user_lp a g (Withdraw.withdraw t a lp_amount side min_x min_y))
  process given (swap amount side min_out) g = do
    a ← load given g
    require (swap_constraints d a.trade) constraint
    moved g (Swap.swap t a.trade amount side min_out g.ledger)
  process given (update_config seed fee authority locked) g = do
    a ← load given g
    require (update_constraints d (updater_of a) seed) constraint
    c ← Admin.update (updater_of a) fee authority locked
    ok (record g { configs = put_config g.configs a.config_key c })
  process given (burn_lp_tokens amount) g = do
    a ← load given g
    require (burn_constraints d (burner_of a)) constraint
    moved g (with_user_lp a g (Withdraw.burn_lp t (burner_of a) amount))
