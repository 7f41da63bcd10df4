-- ===== src/Amm/Program/Opening.antt =====
-- A new pool: `initialize` and the first deposit of programs/amm/src.
use solana_instructions_intr.Prelude.{
  ℕ, true, false, ◌≡◌, sym, ap, ◌∙◌, arith, [], ◌∷◌, Option, none, some, bytes_eq→eq,
}
use solana_instructions_intr.Solana.{Pubkey, Derivation}
use solana_instructions_intr.Solana.Token.{TokenOps, IsTokenProgram}
use solana_instructions_intr.Cpmm.Types.{PoolState}
use solana_instructions_intr.Amm.Types.{Config, lp_seed}
use solana_instructions_intr.Amm.Accounts.{LpAccounts}
use solana_instructions_intr.Amm.Admin.{init}
use solana_instructions_intr.Amm.Introspection.{Introspected}
use solana_instructions_intr.Amm.Program.{init_constraints, lp_mint_of, vault_account, Amm}
use solana_instructions_intr.Amm.Program.Steps.{Initialized, put_config_self}
use solana_instructions_intr.Amm.Program.Pools.{pool_at}

-- The config that `initialize` stores.
abbrev pub first_config : LpAccounts → ℕ → ℕ → ℕ → ℕ → Option Pubkey → Config
first_config a config_bump lp_bump seed fee authority = record {
  seed = seed;
  authority = authority;
  mint_x = a.mint_x;
  mint_y = a.mint_y;
  fee = fee;
  locked = false;
  config_bump = config_bump;
  lp_bump = lp_bump;
}

abbrev pub filled : ℕ → ℕ → ℕ → ℕ → PoolState
filled x y lp fee = record { reserve_x = x; reserve_y = y; lp_supply = lp; fee_bps = fee }

pub filled_cong :
    {x x' y y' l l' fee : ℕ} → x ≡ x' → y ≡ y' → l ≡ l' → filled x y l fee ≡ filled x' y' l' fee
filled_cong ex ey el = cc

-- The bump is the one that `find_program_address` found for the LP mint of the pool at `key`.
abbrev pub IsCanonical : Derivation → Pubkey → ℕ → Type 0
IsCanonical d key bump =
    d.create_program_address (lp_seed ∷ key ∷ (bump ∷ []) ∷ [])
    ≡ d.find_program_address (lp_seed ∷ key ∷ [])

module _ (t : TokenOps) (law : IsTokenProgram t) (d : Derivation) where
  open t use {balance, supply}

  -- The addresses of the accounts of a new pool.
  record AreNew (a : LpAccounts) : Type 0 where
    lp_at : a.mint_lp ≡ d.find_program_address (lp_seed ∷ a.config_key ∷ [])
    vault_x_at : a.vault_x ≡ d.associated_token a.config_key a.mint_x
    vault_y_at : a.vault_y ≡ d.associated_token a.config_key a.mint_y

  init_constraints-AreNew :
      (a : LpAccounts) (seed : ℕ) → init_constraints d a seed none ≡ true → AreNew a
  unfolding init_constraints
  init_constraints-AreNew a seed h = ground (
    arith,
    bytes_eq→eq a.mint_lp (d.find_program_address (lp_seed ∷ a.config_key ∷ [])),
    bytes_eq→eq a.vault_x (d.associated_token a.config_key a.mint_x),
    bytes_eq→eq a.vault_y (d.associated_token a.config_key a.mint_y),
  )

  module _ (s : Introspected) (a : LpAccounts) (config_bump lp_bump seed fee : ℕ)
      (authority : Option Pubkey) (g g0 : Amm t)
      (i : Initialized t d s a config_bump lp_bump seed fee authority g g0) where
    abbrev pub made : Config
    made = first_config a config_bump lp_bump seed fee authority

    made_config : i.made ≡ made
    unfolding init
    made_config = cc i.config_of

    pub stored_config : g0.configs a.config_key ≡ some made
    stored_config =
        ap (λ (f : Pubkey → Option Config). f a.config_key) i.stored
        ∙ put_config_self g.configs a.config_key i.made
        ∙ ap some made_config

    no_x : balance g0.ledger a.vault_x ≡ 0
    no_x =
        let (zero_x, _) =
          law.init_account_empty (vault_account a a.vault_x a.mint_x) i.with_mint i.with_x
            i.x_created in
        let (_, kept) =
          law.init_account_empty (vault_account a a.vault_y a.mint_y) i.with_x g0.ledger
            i.y_created in
        kept.balances a.vault_x ∙ zero_x

    no_y : balance g0.ledger a.vault_y ≡ 0
    no_y =
        (law.init_account_empty (vault_account a a.vault_y a.mint_y) i.with_x g0.ledger
          i.y_created).0

    no_lp : supply g0.ledger a.mint_lp ≡ 0
    no_lp =
        let (_, none_issued, _) =
          law.init_mint_empty (lp_mint_of a) g.ledger i.with_mint i.mint_created in
        let (_, kept) =
          law.init_account_empty (vault_account a a.vault_x a.mint_x) i.with_mint i.with_x
            i.x_created in
        let (_, kept') =
          law.init_account_empty (vault_account a a.vault_y a.mint_y) i.with_x g0.ledger
            i.y_created in
        kept'.supplies a.mint_lp ∙ kept.supplies a.mint_lp ∙ none_issued

    pub new_pool :
        IsCanonical d a.config_key lp_bump
        → pool_at d t a.config_key made g0.ledger ≡ filled 0 0 0 fee
    new_pool canonical =
        let at = init_constraints-AreNew a seed i.met in
        filled_cong (ap (balance g0.ledger) (sym at.vault_x_at) ∙ no_x)
          (ap (balance g0.ledger) (sym at.vault_y_at) ∙ no_y)
          (ap (supply g0.ledger) (canonical ∙ sym at.lp_at) ∙ no_lp)
