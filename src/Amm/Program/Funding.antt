-- ===== src/Amm/Program/Funding.antt =====
-- The first deposit in a new pool of programs/amm/src.
use solana_instructions_intr.Prelude.{
  ℕ, ◌+◌, ◌*◌, ◌≤◌, ◌≡◌, ◌≢◌, refl, sym, ap, subst, ◌∙◌, arith, Option, some, ok,
}
use solana_instructions_intr.Solana.{Pubkey, Derivation, IsCollisionFree}
use solana_instructions_intr.Solana.Token.{TokenOps, IsTokenProgram, Unmoved}
use solana_instructions_intr.Cpmm.Types.{DepositQuote, balanced, PoolState}
use solana_instructions_intr.Cpmm.Isqrt.Floor.{IsRoot}
use solana_instructions_intr.Cpmm.Deposit.{balanced_quote}
use solana_instructions_intr.Cpmm.Deposit.Opening.{IsMaybeU64, Opening, deposit-Opening}
use solana_instructions_intr.Amm.Types.{Config, OperationSide, op_x, op_y, op_balanced, to_side}
use solana_instructions_intr.Amm.Accounts.{LpAccounts}
use solana_instructions_intr.Amm.Accounts.Distinct.{lp_constraints-parts}
use solana_instructions_intr.Amm.Transfers.{pool_of}
use solana_instructions_intr.Amm.Deposit.Settlement.{Deposited, deposit_settles}
use solana_instructions_intr.Amm.Introspection.{Introspected}
use solana_instructions_intr.Amm.Program.{
  initialize, deposit, with_config, user_lp_account, Amm, process,
}
use solana_instructions_intr.Amm.Program.Steps.{init_step, deposit_step}
use solana_instructions_intr.Amm.Program.Pools.{
  AreOfPool, pool_at, HasMints, constraints-AreOfPool, pool_of-pool_at, holder-AreDistinct,
}
use solana_instructions_intr.Amm.Program.Trading.{opened-pool}
use solana_instructions_intr.Amm.Program.Opening.{
  first_config, filled, filled_cong, IsCanonical, stored_config, new_pool,
}

only_balanced : (side : OperationSide) → to_side side ≡ balanced → side ≡ op_balanced
only_balanced op_balanced e = refl
only_balanced op_x e = cc
only_balanced op_y e = cc

module _ (t : TokenOps) (law : IsTokenProgram t) (d : Derivation) where
  open t use {balance, supply}

  -- A first deposit of both tokens into the empty pool with the config `k`, paid whole by the user
  -- and minted the root of their product.
  pub record Funded (b : LpAccounts) (k : Config) (x y : Option ℕ) (side : OperationSide)
      (min_lp : ℕ) (g0 g1 : Amm t) : Type 0 where
    pub token_x : ℕ
    pub token_y : ℕ
    pub root : ℕ
    pub offers_x : x ≡ some token_x
    pub offers_y : y ≡ some token_y
    pub both : side ≡ op_balanced
    pub is_root : IsRoot (token_x * token_y) root
    pub floor_kept : min_lp ≤ root
    pub pool_after : pool_at d t b.config_key k g1.ledger ≡ filled token_x token_y root k.fee
    pub paid_x : balance g1.ledger b.user_x + token_x ≡ balance g0.ledger b.user_x
    pub paid_y : balance g1.ledger b.user_y + token_y ≡ balance g0.ledger b.user_y
    pub shares : balance g1.ledger b.user_lp ≡ balance g0.ledger b.user_lp + root
    pub config_kept : g1.configs b.config_key ≡ some k

  -- What a first deposit has paid and left, by its quote.
  record Filled (b : LpAccounts) (x y lp : ℕ) (m l : t.Ledger) : Type 0 where
    pool_after : pool_of t b.trade (supply l b.mint_lp) l ≡ filled x y lp b.config.fee
    paid_x : balance l b.user_x + x ≡ balance m b.user_x
    paid_y : balance l b.user_y + y ≡ balance m b.user_y
    shares : balance l b.user_lp ≡ balance m b.user_lp + lp

  filled_by :
      (b : LpAccounts) (x y lp : ℕ) (m l : t.Ledger)
      → pool_of t b.trade (supply m b.mint_lp) m ≡ filled 0 0 0 b.config.fee
      → Deposited t b (balanced_quote lp x y) m l
      → Filled b x y lp m l
  filled_by b x y lp m l empty done =
      let empty_x : balance m b.vault_x ≡ 0 = ap (λ (p : PoolState). p.reserve_x) empty in
      let empty_y : balance m b.vault_y ≡ 0 = ap (λ (p : PoolState). p.reserve_y) empty in
      let no_shares : supply m b.mint_lp ≡ 0 = ap (λ (p : PoolState). p.lp_supply) empty in
      record {
        pool_after =
            filled_cong (omega (arith, done.vault_x)) (omega (arith, done.vault_y))
              (omega (arith, done.issued));
        paid_x = omega (arith, done.user_x);
        paid_y = omega (arith, done.user_y);
        shares = done.user_lp;
      }

  -- A first deposit of the accounts `b`, which hold the config `k` of the pool.
  funded_by :
      (b : LpAccounts) (k : Config) (x y : Option ℕ) (side : OperationSide) (min_lp : ℕ)
      (g0 : Amm t) (m : t.Ledger) (g1 : Amm t) (q : DepositQuote)
      → AreOfPool d (with_config b k).trade
      → Unmoved t g0.ledger m
      → pool_of t (with_config b k).trade (supply m b.mint_lp) m ≡ filled 0 0 0 k.fee
      → g0.configs b.config_key ≡ some k
      → g1.configs b.config_key ≡ g0.configs b.config_key
      → Deposited t (with_config b k) q m g1.ledger
      → Opening x y (to_side side) min_lp q
      → Funded b k x y side min_lp g0 g1
  funded_by b k x y side min_lp g0 m g1 q place unmoved before found same done o =
      let f =
        filled_by (with_config b k) o.token_x o.token_y o.root m g1.ledger before (
          subst (λ (r : DepositQuote). Deposited t (with_config b k) r m g1.ledger) o.quoted
            done) in
      record {
        token_x = o.token_x;
        token_y = o.token_y;
        root = o.root;
        offers_x = o.offers_x;
        offers_y = o.offers_y;
        both = only_balanced side o.both;
        is_root = o.is_root;
        floor_kept = o.floor_kept;
        pool_after =
            sym (pool_of-pool_at d t (with_config b k).trade g1.ledger place) ∙ f.pool_after;
        paid_x = f.paid_x ∙ unmoved.balances b.user_x;
        paid_y = f.paid_y ∙ unmoved.balances b.user_y;
        shares = f.shares ∙ ap (λ (n : ℕ). n + o.root) (unmoved.balances b.user_lp);
        config_kept = same ∙ found;
      }

  module _ (free : IsCollisionFree d) where
    funded :
        (s : Introspected) (b : LpAccounts) (k : Config) (x y : Option ℕ) (side : OperationSide)
        (min_lp : ℕ) (g0 g1 : Amm t)
        → g0.configs b.config_key ≡ some k
        → pool_at d t b.config_key k g0.ledger ≡ filled 0 0 0 k.fee
        → HasMints d b.config_key k
        → b.user ≢ b.config_key
        → IsMaybeU64 x
        → IsMaybeU64 y
        → process t d s b (deposit x y side min_lp) g0 ≡ ok g1
        → Funded b k x y side min_lp g0 g1
    funded s b k x y side min_lp g0 g1 found empty mints user ux uy e =
        let (c, loaded, met0, (m, opened, ran0), same) =
          deposit_step t d s b x y side min_lp g0 g1 e in
        let it : c ≡ k = cc (loaded, found) in
        let bk = with_config b k in
        let met = rw it at met0 in
        let ran = rw it at ran0 in
        let unmoved = law.init_if_needed_keeps (user_lp_account b) g0.ledger m opened in
        let place = constraints-AreOfPool d bk.trade (lp_constraints-parts d bk met).0 in
        let before =
          pool_of-pool_at d t bk.trade m place ∙ opened-pool t law d free b k g0 m opened ∙ empty in
        let (_, (q, priced, done)) =
          deposit_settles t law bk x y side min_lp m g1.ledger
            (holder-AreDistinct d free bk mints met user) ran in
        let o =
          deposit-Opening (pool_of t bk.trade (supply m bk.mint_lp) m) x y (to_side side) min_lp q
            (ap (λ (p : PoolState). p.lp_supply) before) ux uy priced in
        funded_by b k x y side min_lp g0 m g1 q place unmoved before found
          (ap (λ (h : Pubkey → Option Config). h b.config_key) same) done o

    -- For a token program that moves, mints and creates as documented, addresses that do not collide
    -- and the bump that `find_program_address` found: after a successful `initialize` of a pool of
    -- three different mints, a successful deposit of u64 amounts into that pool, by any user other
    -- than the pool itself, is balanced and brings both tokens. The vaults then hold exactly the two
    -- amounts, which the user has paid; the supply is the integer root of their product, no less than
    -- the floor that the user set, and the user holds all of it on top of what he had; and the pool
    -- has the config that `initialize` was called with, unlocked.
    pub initialize-Funded :
        (s s' : Introspected) (a b : LpAccounts) (config_bump lp_bump seed fee : ℕ)
        (authority : Option Pubkey) (x y : Option ℕ) (side : OperationSide) (min_lp : ℕ)
        (g g0 g1 : Amm t)
        → IsCanonical d a.config_key lp_bump
        → HasMints d a.config_key (first_config a config_bump lp_bump seed fee authority)
        → process t d s a (initialize config_bump lp_bump seed fee authority) g ≡ ok g0
        → b.config_key ≡ a.config_key
        → b.user ≢ a.config_key
        → IsMaybeU64 x
        → IsMaybeU64 y
        → process t d s' b (deposit x y side min_lp) g0 ≡ ok g1
        → Funded b (first_config a config_bump lp_bump seed fee authority) x y side min_lp g0 g1
    initialize-Funded s s' a b config_bump lp_bump seed fee authority x y side min_lp g g0 g1
          canonical mints e0 here user ux uy e1 =
        let k = first_config a config_bump lp_bump seed fee authority in
        let i = init_step t d s a config_bump lp_bump seed fee authority g g0 e0 in
        funded s' b k x y side min_lp g0 g1
          (ap g0.configs here
            ∙ stored_config t law d s a config_bump lp_bump seed fee authority g g0 i)
          (ap (λ (j : Pubkey). pool_at d t j k g0.ledger) here
            ∙ new_pool t law d s a config_bump lp_bump seed fee authority g g0 i canonical)
          (subst (λ (j : Pubkey). HasMints d j k) (sym here) mints) (λ p. user (p ∙ here)) ux uy e1
