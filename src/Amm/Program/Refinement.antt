-- ===== src/Amm/Program/Refinement.antt =====
-- The entry points of programs/amm/src/lib.rs as steps of the pool of crates/cpmm/src/lib.rs.
use solana_instructions_intr.Amm.Program.Value.{typed_at}
use solana_instructions_intr.Prelude.{ℕ, true, ◌≡◌, ◌≢◌, refl, sym, ap, subst, ◌∙◌, arith, some, ok}
use solana_instructions_intr.Solana.{Pubkey, Derivation, IsCollisionFree}
use solana_instructions_intr.Solana.Token.{TokenOps, IsTokenProgram}
use solana_instructions_intr.Cpmm.Types.{IsWellTyped}
use solana_instructions_intr.Amm.Types.{Config}
use solana_instructions_intr.Amm.Accounts.{burn_constraints, LpAccounts, lp_constraints}
use solana_instructions_intr.Amm.Accounts.Distinct.{lp_constraints-parts}
use solana_instructions_intr.Amm.Withdraw as Amm_withdraw
use solana_instructions_intr.Amm.Introspection.{Introspected}
use solana_instructions_intr.Amm.Introspection.Settlement.{lp_part, burn_lp-burns}
use solana_instructions_intr.Amm.Program.{
  Call, initialize, deposit, withdraw_w_introspection, withdraw, swap, update_config,
  burn_lp_tokens, with_config, burner_of, Amm, process,
}
use solana_instructions_intr.Amm.Program.Steps.{
  Trades, introspected_step, swap_step, deposit_step, withdraw_step, burn_step,
}
use solana_instructions_intr.Amm.Program.Pools.{
  pool_at, HasMints, constraints-AreOfPool, pool_of-pool_at, trader-AreDistinct, holder-AreDistinct,
  burn_constraints-BurnsOfPool,
}
use solana_instructions_intr.Amm.Program.Trading.{opened-pool}
use solana_instructions_intr.Amm.PoolSteps.{
  claim-PoolStep, PoolStep, moved_step, same_pools, here, swap-PoolStep, deposit-PoolStep,
  withdraw-PoolStep,
}

module _ (t : TokenOps) (law : IsTokenProgram t) where
  open t use {Ledger, balance, supply}

  module _ (d : Derivation) (free : IsCollisionFree d) where
    -- The place of the pool in the ledger does not matter.
    placed :
        (s : Introspected) (a : LpAccounts) (c : Call) (k : Config) (l m l' : Ledger)
        → lp_constraints d (with_config a k) ≡ true
        → pool_at d t a.config_key k m ≡ pool_at d t a.config_key k l
        → PoolStep s
            (with_config a k)
            c
            (here t (with_config a k).trade m)
            (here t (with_config a k).trade l')
        → PoolStep s
            (with_config a k)
            c
            (pool_at d t a.config_key k l)
            (pool_at d t a.config_key k l')
    placed s a c k l m l' met same h =
        let b = with_config a k in
        let at = constraints-AreOfPool d b.trade (lp_constraints-parts d b met).0 in
        moved_step s b c (pool_of-pool_at d t b.trade m at ∙ same)
          (pool_of-pool_at d t b.trade l' at) h

    burn-PoolStep :
        (s : Introspected) (a : LpAccounts) (k : Config) (n : ℕ) (l l' : Ledger)
        → burn_constraints d (burner_of (with_config a k)) ≡ true
        → a.user ≢ a.config_key
        → Amm_withdraw.burn_lp t (burner_of (with_config a k)) n l ≡ ok l'
        → PoolStep s
            (with_config a k)
            (burn_lp_tokens n)
            (pool_at d t a.config_key k l)
            (pool_at d t a.config_key k l')
    burn-PoolStep s a k n l l' met user e =
        let b = burner_of (with_config a k) in
        let at = burn_constraints-BurnsOfPool d b met in
        let m = burn_lp-burns t law b n l l' e in
        let apart : (j : Pubkey) → d.associated_token b.config_key j ≢ b.user_lp =
          λ j h. user (sym (free.wallets b.config_key b.user j b.mint_lp (h ∙ at.account_at))) in
        (
          omega (arith, m.within, ap (supply l) at.lp_at),
          same_pools (m.others (d.associated_token b.config_key k.mint_x) (apart _))
              (m.others (d.associated_token b.config_key k.mint_y) (apart _))
              (omega (arith, m.lowered, ap (supply l) at.lp_at, ap (supply l') at.lp_at)),
        )

    -- For a token program that moves, mints, burns and creates as documented and addresses that do
    -- not collide: in a pool of three different mints and u64 amounts, every successful swap,
    -- deposit, withdrawal (with introspection too) and burn by a user other than the pool itself is
    -- the step of the pool that the crate describes for that call. For the amounts, the side and the
    -- minimums of the call the crate answers a quote on the balances, the supply and the fee of the
    -- pool before it, and the pool after it is that one with the quote carried out. A withdrawal with
    -- introspection has confirmed its burn, and its pool counts the claimed LP tokens again; a burn of
    -- an amount, at most the supply, lowers the supply alone, by that amount.
    pub process-PoolStep :
        (s : Introspected) (a : LpAccounts) (c : Call) (k : Config) (g g' : Amm t)
        → g.configs a.config_key ≡ some k
        → HasMints d a.config_key k
        → a.user ≢ a.config_key
        → Trades c
        → IsWellTyped (pool_at d t a.config_key k g.ledger)
        → process t d s a c g ≡ ok g'
        → PoolStep s
            (with_config a k)
            c
            (pool_at d t a.config_key k g.ledger)
            (pool_at d t a.config_key k g'.ledger)
    process-PoolStep s a (swap amount side min_out) k g g' found mints user qs w e =
        let (c, loaded, met0, ran0, _) = swap_step t d s a amount side min_out g g' e in
        let it : c ≡ k = cc (loaded, found) in
        let b = (with_config a k).trade in
        let met = rw it at met0 in
        let at = constraints-AreOfPool d b met in
        moved_step s (with_config a k) (swap amount side min_out)
          (pool_of-pool_at d t b g.ledger at) (pool_of-pool_at d t b g'.ledger at)
          (swap-PoolStep t law s (with_config a k) b amount side min_out g.ledger g'.ledger
            (trader-AreDistinct d free b mints met user) (rw it at ran0))
    process-PoolStep s a (deposit x y side min_lp) k g g' found mints user qs w e =
        let (c, loaded, met0, (m, opened, ran0), _) = deposit_step t d s a x y side min_lp g g' e in
        let it : c ≡ k = cc (loaded, found) in
        let met = rw it at met0 in
        placed s a (deposit x y side min_lp) k g.ledger m g'.ledger met
          (opened-pool t law d free a k g m opened)
          (deposit-PoolStep t law s (with_config a k) x y side min_lp m g'.ledger
            (holder-AreDistinct d free (with_config a k) mints met user) (rw it at ran0))
    process-PoolStep s a (withdraw dl side min_x min_y) k g g' found mints user qs w e =
        let (c, loaded, met0, (m, opened, ran0), _) =
          withdraw_step t d s a dl side min_x min_y g g' e in
        let it : c ≡ k = cc (loaded, found) in
        let met = rw it at met0 in
        let same = opened-pool t law d free a k g m opened in
        placed s a (withdraw dl side min_x min_y) k g.ledger m g'.ledger met same (
          withdraw-PoolStep t law s (with_config a k) dl side min_x min_y m g'.ledger
            (holder-AreDistinct d free (with_config a k) mints met user)
            (typed_at t law d free (with_config a k) m met (subst IsWellTyped (sym same) w))
            (rw it at ran0))
    process-PoolStep s a (burn_lp_tokens n) k g g' found mints user qs w e =
        let (c, loaded, met0, (m, opened, ran0), _) = burn_step t d s a n g g' e in
        let it : c ≡ k = cc (loaded, found) in
        moved_step s (with_config a k) (burn_lp_tokens n) (opened-pool t law d free a k g m opened)
          refl (burn-PoolStep s a k n m g'.ledger (rw it at met0) user (rw it at ran0))
    process-PoolStep s a (initialize config_bump lp_bump seed fee authority) k g g' found mints user
          qs w e =
        absurd qs
    process-PoolStep s a (withdraw_w_introspection dl side min_x min_y) k g g' found mints user qs w
          e =
        let (c, loaded, met0, (m, opened, ran0), _) =
          introspected_step t d s a dl side min_x min_y g g' e in
        let it : c ≡ k = cc (loaded, found) in
        let met = lp_part d s (with_config a k) (rw it at met0) in
        let same = opened-pool t law d free a k g m opened in
        placed s a (withdraw_w_introspection dl side min_x min_y) k g.ledger m g'.ledger met same (
          claim-PoolStep t law s (with_config a k) dl side min_x min_y m g'.ledger
            (holder-AreDistinct d free (with_config a k) mints met user)
            (typed_at t law d free (with_config a k) m met (subst IsWellTyped (sym same) w))
            (rw it at ran0))
    process-PoolStep s a (update_config seed fee authority lock) k g g' found mints user qs w e =
        absurd qs
