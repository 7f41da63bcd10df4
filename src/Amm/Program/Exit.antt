-- ===== src/Amm/Program/Exit.antt =====
-- Giving back LP tokens through the entry point `withdraw` of programs/amm/src/lib.rs.
use solana_instructions_intr.Prelude.{
  ℕ, true, false, ◌+◌, ◌≤◌, ◌≡◌, ◌≢◌, refl, sym, ap, subst, ◌∙◌, arith, List, some, ok, require,
  ok_or, ◌>>=◌, ◌↔◌, >>=-ok,
}
use solana_instructions_intr.Solana.{Pubkey, Derivation, IsCollisionFree, constraint}
use solana_instructions_intr.Solana.Token.{TokenOps, IsTokenProgram, IsServing, Unmoved}
use solana_instructions_intr.Cpmm.Types.{PoolState, IsWellTyped, WithdrawQuote, balanced}
use solana_instructions_intr.Cpmm.Withdraw as Cpmm_withdraw
use solana_instructions_intr.Cpmm.Withdraw.Legs.{pro_rata}
use solana_instructions_intr.Cpmm.Withdraw.Exits.{pro_rata_quote}
use solana_instructions_intr.Amm.Types.{Config, op_balanced, called}
use solana_instructions_intr.Amm.Accounts.{LpAccounts, lp_constraints}
use solana_instructions_intr.Amm.Accounts.Distinct.{lp_constraints-parts}
use solana_instructions_intr.Amm.Transfers.{pool_of}
use solana_instructions_intr.Amm.Withdraw as Amm_withdraw
use solana_instructions_intr.Amm.Withdraw.Settlement.{Withdrawn, withdraw_settles}
use solana_instructions_intr.Amm.Withdraw.Exit.{
  Pays, priced-Pays, Pays-withdraw, CanExit, withdraw_runs,
}
use solana_instructions_intr.Amm.Introspection.{Introspected}
use solana_instructions_intr.Amm.Program.{withdraw, with_config, user_lp_account, Amm, process}
use solana_instructions_intr.Amm.Program.Steps.{withdraw_step}
use solana_instructions_intr.Amm.Program.Pools.{
  pool_at, HasMints, constraints-AreOfPool, pool_of-pool_at, holder-AreDistinct,
}
use solana_instructions_intr.Amm.Program.Trading.{opened-pool}

module _ (t : TokenOps) where
  open t use {Ledger, balance, supply}

  -- The user has got both shares of the pool `p` for `dl` LP tokens.
  pub record Exited (a : LpAccounts) (p : PoolState) (dl : ℕ) (l l' : Ledger) : Type 0 where
    pub got_x : balance l' a.user_x ≡ balance l a.user_x + pro_rata p.reserve_x dl p.lp_supply
    pub got_y : balance l' a.user_y ≡ balance l a.user_y + pro_rata p.reserve_y dl p.lp_supply
    pub gave : balance l' a.user_lp + dl ≡ balance l a.user_lp

module _ (t : TokenOps) (law : IsTokenProgram t) (may : Pubkey → Pubkey → List (List ℕ) → Type 0)
    (serves : IsServing t may) (d : Derivation) (free : IsCollisionFree d) (s : Introspected) where
  open t use {Ledger, balance, supply}

  still_can :
      (a : LpAccounts) (l m : Ledger) → Unmoved t l m → CanExit t may a l → CanExit t may a m
  still_can a l m u can = record {
    spends_x = can.spends_x;
    spends_y = can.spends_y;
    spends_lp = can.spends_lp;
    room_x = omega (arith, can.room_x, u.balances a.user_x, u.balances a.vault_x);
    room_y = omega (arith, can.room_y, u.balances a.user_y, u.balances a.vault_y);
  }

  -- The pool that the handler computes with is the one before the call.
  entry_pool :
      (a : LpAccounts) (k : Config) (g : Amm t) (m : Ledger)
      → lp_constraints d (with_config a k) ≡ true
      → t.init_if_needed (user_lp_account a) g.ledger ≡ ok m
      → pool_of t (with_config a k).trade (supply m a.mint_lp) m
        ≡ pool_at d t a.config_key k g.ledger
  entry_pool a k g m met opened =
      let b = with_config a k in
      pool_of-pool_at d t b.trade m
        (constraints-AreOfPool d b.trade (lp_constraints-parts d b met).0)
      ∙ opened-pool t law d free a k g m opened

  exited :
      (a : LpAccounts) (k : Config) (p : PoolState) (dl : ℕ) (l m l' : Ledger)
      → Withdrawn t
          (with_config a k)
          dl
          (pro_rata_quote
            (pro_rata p.reserve_x dl p.lp_supply)
            (pro_rata p.reserve_y dl p.lp_supply))
          m
          l'
      → Unmoved t l m
      → Exited t a p dl l l'
  exited a k p dl l m l' paid u = record {
    got_x = omega (arith, paid.user_x, u.balances a.user_x);
    got_y = omega (arith, paid.user_y, u.balances a.user_y);
    gave = omega (arith, paid.user_lp, u.balances a.user_lp);
  }

  exit_done :
      (a : LpAccounts) (k : Config) (dl min_x min_y : ℕ) (g g' : Amm t) (m : Ledger)
      → lp_constraints d (with_config a k) ≡ true
      → HasMints d a.config_key k
      → a.user ≢ a.config_key
      → IsWellTyped (pool_at d t a.config_key k g.ledger)
      → dl ≤ (pool_at d t a.config_key k g.ledger).lp_supply
      → t.init_if_needed (user_lp_account a) g.ledger ≡ ok m
      → Amm_withdraw.withdraw t (with_config a k) dl op_balanced min_x min_y m ≡ ok g'.ledger
      → Pays (pool_at d t a.config_key k g.ledger) dl min_x min_y
        × Exited t a (pool_at d t a.config_key k g.ledger) dl g.ledger g'.ledger
  exit_done a k dl min_x min_y g g' m met mints user w h opened ran =
      let b = with_config a k in
      let p = pool_at d t a.config_key k g.ledger in
      let at = entry_pool a k g m met opened in
      let u = law.init_if_needed_keeps (user_lp_account a) g.ledger m opened in
      let (_, (q, priced, paid)) =
        withdraw_settles t law b dl op_balanced min_x min_y m g'.ledger
          (holder-AreDistinct d free b mints met user) (subst IsWellTyped (sym at) w) ran in
      let priced' : Cpmm_withdraw.withdraw p dl balanced min_x min_y ≡ ok q =
        ap (λ (r : PoolState). Cpmm_withdraw.withdraw r dl balanced min_x min_y) (sym at)
        ∙ priced in
      let pays = priced-Pays p dl min_x min_y q w h priced' in
      let quote : q
          ≡ pro_rata_quote (pro_rata p.reserve_x dl p.lp_supply)
              (pro_rata p.reserve_y dl p.lp_supply) =
        cc (priced', Pays-withdraw p dl min_x min_y w h pays) in
      (
        pays,
        exited a k p dl g.ledger m g'.ledger
            (subst (λ (r : WithdrawQuote). Withdrawn t b dl r m g'.ledger) quote paid) u,
      )

  -- A call whose parts succeed.
  call_runs :
      (a : LpAccounts) (k : Config) (dl min_x min_y : ℕ) (g : Amm t) (m l' : Ledger)
      → g.configs a.config_key ≡ some k
      → lp_constraints d (with_config a k) ≡ true
      → t.init_if_needed (user_lp_account a) g.ledger ≡ ok m
      → Amm_withdraw.withdraw t (with_config a k) dl op_balanced min_x min_y m ≡ ok l'
      → process t d s a (withdraw dl op_balanced min_x min_y) g ≡ ok (record g { ledger = l' })
  unfolding process
  call_runs a k dl min_x min_y g m l' found met opened ran =
      let b = with_config a k in
      >>=-ok (ok_or (g.configs a.config_key) constraint >>= λ c. ok (with_config a c)) _ b
        (ap (λ o. ok_or o constraint >>= λ c. ok (with_config a c)) found)
        (>>=-ok (require (lp_constraints d b) constraint) _ tt (ap (λ o. require o constraint) met)
          (>>=-ok
            (called (t.init_if_needed (user_lp_account b) g.ledger)
              >>= Amm_withdraw.withdraw t b dl op_balanced min_x min_y)
            _ l'
            (>>=-ok (called (t.init_if_needed (user_lp_account b) g.ledger)) _ m
              (ap (λ r. called r) opened) ran)
            refl))

  pub withdraw-Pays :
      (a : LpAccounts) (k : Config) (dl min_x min_y : ℕ) (g : Amm t) (m : Ledger)
      → g.configs a.config_key ≡ some k
      → k.locked ≡ false
      → lp_constraints d (with_config a k) ≡ true
      → HasMints d a.config_key k
      → a.user ≢ a.config_key
      → IsWellTyped (pool_at d t a.config_key k g.ledger)
      → CanExit t may (with_config a k) g.ledger
      → t.init_if_needed (user_lp_account a) g.ledger ≡ ok m
      → dl ≤ balance g.ledger a.user_lp
      → dl ≤ (pool_at d t a.config_key k g.ledger).lp_supply
      → Pays (pool_at d t a.config_key k g.ledger) dl min_x min_y ↔ (
          (g' : Amm t) × (process t d s a (withdraw dl op_balanced min_x min_y) g ≡ ok g')
          × Exited t a (pool_at d t a.config_key k g.ledger) dl g.ledger g'.ledger)
  withdraw-Pays a k dl min_x min_y g m found unlocked met mints user w can opened held issued =
      let b = with_config a k in
      let at = entry_pool a k g m met opened in
      let u = law.init_if_needed_keeps (user_lp_account a) g.ledger m opened in
      (
        λ pays.
            let (l', ran) =
              withdraw_runs t law may serves b dl min_x min_y m unlocked
                (holder-AreDistinct d free b mints met user) (subst IsWellTyped (sym at) w)
                (still_can b g.ledger m u can) (omega (arith, held, u.balances a.user_lp))
                (subst (λ (p : PoolState). dl ≤ p.lp_supply) (sym at) issued)
                (subst (λ (p : PoolState). Pays p dl min_x min_y) (sym at) pays) in
            let g' : Amm t = record g { ledger = l' } in
            (
              g',
              call_runs a k dl min_x min_y g m l' found met opened ran,
              (exit_done a k dl min_x min_y g g' m met mints user w issued opened ran).1,
            ),
        λ (g', e, _).
            let (c, loaded, met', (m', opened', ran), _) =
              withdraw_step t d s a dl op_balanced min_x min_y g g' e in
            let it : c ≡ k = cc (loaded, found) in
            (exit_done a k dl min_x min_y g g' m' met mints user w issued opened' (rw it at ran)).0,
      )
