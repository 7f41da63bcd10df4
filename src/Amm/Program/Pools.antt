-- ===== src/Amm/Program/Pools.antt =====
-- The pool that the constraints of the accounts (programs/amm/src/instructions) lead to.
use solana_instructions_intr.Prelude.{true, [], ◌∷◌, ◌≡◌, ◌≢◌, refl, arith, bytes_eq→eq}
use solana_instructions_intr.Solana.{Pubkey, Derivation, IsCollisionFree}
use solana_instructions_intr.Solana.Token.{TokenOps, Unmoved}
use solana_instructions_intr.Cpmm.Types.{PoolState}
use solana_instructions_intr.Amm.Types.{Config, lp_seed}
use solana_instructions_intr.Amm.Accounts.{
  Swap, LpAccounts, BurnLp, swap_constraints, lp_constraints, burn_constraints, AreDistinct,
  AreLpDistinct,
}
use solana_instructions_intr.Amm.Accounts.Distinct.{
  constraints-AreDistinct, lp_constraints-parts, lp_constraints-AreLpDistinct,
}
use solana_instructions_intr.Amm.Transfers.{pool_of}

module _ (d : Derivation) where
  -- The LP mint of the pool whose config `k` lies at `key`.
  abbrev pub lp_mint_at : Pubkey → Config → Pubkey
  lp_mint_at key k = d.create_program_address (lp_seed ∷ key ∷ (k.lp_bump ∷ []) ∷ [])

  abbrev pub pool_at : (t : TokenOps) → Pubkey → Config → t.Ledger → PoolState
  pool_at t key k l = record {
    reserve_x = t.balance l (d.associated_token key k.mint_x);
    reserve_y = t.balance l (d.associated_token key k.mint_y);
    lp_supply = t.supply l (lp_mint_at key k);
    fee_bps = k.fee;
  }

  -- Three different mints.
  pub record HasMints (key : Pubkey) (k : Config) : Type 0 where
    pub sides : k.mint_x ≢ k.mint_y
    pub lp_x : lp_mint_at key k ≢ k.mint_x
    pub lp_y : lp_mint_at key k ≢ k.mint_y

  -- The accounts are those of the pool.
  pub record AreOfPool (a : Swap) : Type 0 where
    pub mint_x_at : a.mint_x ≡ a.config.mint_x
    pub mint_y_at : a.mint_y ≡ a.config.mint_y
    pub lp_at : a.mint_lp ≡ lp_mint_at a.config_key a.config
    pub vault_x_at : a.vault_x ≡ d.associated_token a.config_key a.config.mint_x
    pub vault_y_at : a.vault_y ≡ d.associated_token a.config_key a.config.mint_y

  pub constraints-AreOfPool : (a : Swap) → swap_constraints d a ≡ true → AreOfPool a
  unfolding swap_constraints
  constraints-AreOfPool a h = ground (
    arith,
    bytes_eq→eq a.config.mint_x a.mint_x,
    bytes_eq→eq a.config.mint_y a.mint_y,
    bytes_eq→eq a.mint_lp (lp_mint_at a.config_key a.config),
    bytes_eq→eq a.vault_x (d.associated_token a.config_key a.mint_x),
    bytes_eq→eq a.vault_y (d.associated_token a.config_key a.mint_y),
  )

  pub pool_of-pool_at :
      (t : TokenOps) (a : Swap) (l : t.Ledger)
      → AreOfPool a
      → pool_of t a (t.supply l a.mint_lp) l ≡ pool_at t a.config_key a.config l
  pool_of-pool_at t a l p = rw (p.vault_x_at, p.vault_y_at, p.lp_at) refl

  pub pool_at-Unmoved :
      (t : TokenOps) (key : Pubkey) (k : Config) (l l' : t.Ledger)
      → Unmoved t l l'
      → pool_at t key k l' ≡ pool_at t key k l
  pool_at-Unmoved t key k l l' u =
      rw
        (
          u.balances (d.associated_token key k.mint_x),
          u.balances (d.associated_token key k.mint_y),
          u.supplies (lp_mint_at key k),
        )
        refl

  module _ (free : IsCollisionFree d) where
    pub trader-AreDistinct :
        (a : Swap)
        → HasMints a.config_key a.config
        → swap_constraints d a ≡ true
        → a.user ≢ a.config_key
        → AreDistinct a
    trader-AreDistinct a mints h user =
        let p = constraints-AreOfPool a h in
        constraints-AreDistinct d a free h user
          (λ e. mints.sides (cc (p.mint_x_at, p.mint_y_at, e)))

    pub holder-AreDistinct :
        (a : LpAccounts)
        → HasMints a.config_key a.config
        → lp_constraints d a ≡ true
        → a.user ≢ a.config_key
        → AreLpDistinct a
    holder-AreDistinct a mints h user =
        let p = constraints-AreOfPool a.trade (lp_constraints-parts d a h).0 in
        lp_constraints-AreLpDistinct d a free h user
          (λ e. mints.sides (cc (p.mint_x_at, p.mint_y_at, e)))
          (λ e. mints.lp_x (cc (p.mint_x_at, p.lp_at, e)))
          (λ e. mints.lp_y (cc (p.mint_y_at, p.lp_at, e)))

  -- The LP mint and the LP account of a burn.
  pub record BurnsOfPool (b : BurnLp) : Type 0 where
    pub lp_at : b.mint_lp ≡ lp_mint_at b.config_key b.config
    pub account_at : b.user_lp ≡ d.associated_token b.user b.mint_lp

  pub burn_constraints-BurnsOfPool : (b : BurnLp) → burn_constraints d b ≡ true → BurnsOfPool b
  unfolding burn_constraints
  burn_constraints-BurnsOfPool b h = ground (
    arith,
    bytes_eq→eq b.mint_lp (lp_mint_at b.config_key b.config),
    bytes_eq→eq b.user_lp (d.associated_token b.user b.mint_lp),
  )
