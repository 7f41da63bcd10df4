-- ===== src/Amm/Program/Trading.antt =====
-- The worth of an LP token over sequences of calls (programs/amm/src/lib.rs).
use solana_instructions_intr.Prelude.{
  ◌≤◌, ◌≡◌, ◌≢◌, sym, ap, subst, ◌∙◌, arith, Option, some, ok, IsU64,
}
use solana_instructions_intr.Solana.{Pubkey, Derivation, IsCollisionFree}
use solana_instructions_intr.Solana.Token.{TokenOps, IsTokenProgram}
use solana_instructions_intr.Cpmm.Types.{PoolState, IsWellTyped}
use solana_instructions_intr.Cpmm.Withdraw.Value.{KeepsValue}
use solana_instructions_intr.Amm.Types.{Config}
use solana_instructions_intr.Amm.Accounts.{LpAccounts}
use solana_instructions_intr.Amm.Introspection.{Introspected}
use solana_instructions_intr.Amm.Program.{
  Call, initialize, deposit, withdraw_w_introspection, withdraw, swap, update_config,
  burn_lp_tokens, with_config, burner_of, Amm, process, user_lp_account,
}
use solana_instructions_intr.Amm.Program.Steps.{swap_step, withdraw_step, burn_step}
use solana_instructions_intr.Amm.Program.Pools.{pool_at, HasMints, pool_at-Unmoved}
use solana_instructions_intr.Amm.Program.Value.{
  Holds, Holds-chain, swap-Holds, withdraw-Holds, burn-Holds,
}

-- The calls that trade with the pool or give LP tokens back.
abbrev pub Exchanges : Call → Type 0
Exchanges (swap amount side min_out) = IsU64 amount
Exchanges (withdraw lp_amount side min_x min_y) = Unit
Exchanges (burn_lp_tokens amount) = Unit
Exchanges (initialize config_bump lp_bump seed fee authority) = ⊥
Exchanges (deposit token_x token_y side min_lp) = ⊥
Exchanges (withdraw_w_introspection lp_amount side min_x min_y) = ⊥
Exchanges (update_config seed fee authority locked) = ⊥

module _ (t : TokenOps) (d : Derivation) (key : Pubkey) (k : Config) where
  abbrev pub pool : Amm t → PoolState
  pool g = pool_at d t key k g.ledger

  -- Successful swaps, withdrawals and burns by any users, in sequence, in a pool whose balances and
  -- supply are of the Rust types.
  pub data Trading (g : Amm t) : Amm t → Type 0 where
    begun : Trading g g
    traded :
        {m g' : Amm t} (s : Introspected) (a : LpAccounts) (c : Call)
        → Trading g m
        → a.config_key ≡ key
        → a.user ≢ key
        → Exchanges c
        → IsWellTyped (pool m)
        → process t d s a c m ≡ ok g'
        → Trading g g'

module _ (t : TokenOps) (law : IsTokenProgram t) (d : Derivation) (free : IsCollisionFree d) where
  -- The creation of the user's LP account leaves the pool as it was.
  pub opened-pool :
      (a : LpAccounts) (k : Config) (g : Amm t) (m : t.Ledger)
      → t.init_if_needed (user_lp_account a) g.ledger ≡ ok m
      → pool_at d t a.config_key k m ≡ pool t d a.config_key k g
  opened-pool a k g m e =
      pool_at-Unmoved d t a.config_key k g.ledger m
        (law.init_if_needed_keeps (user_lp_account a) g.ledger m e)

  pub call-Holds :
      (s : Introspected) (a : LpAccounts) (c : Call) (k : Config) (g g' : Amm t)
      → g.configs a.config_key ≡ some k
      → HasMints d a.config_key k
      → a.user ≢ a.config_key
      → Exchanges c
      → IsWellTyped (pool t d a.config_key k g)
      → process t d s a c g ≡ ok g'
      → Holds (pool t d a.config_key k g) (pool t d a.config_key k g') × (g'.configs ≡ g.configs)
  call-Holds s a (swap amount side min_out) k g g' found mints user ex w e =
      let (c, loaded, met, ran, same) = swap_step t d s a amount side min_out g g' e in
      let it : c ≡ k = cc (loaded, found) in
      (
        swap-Holds t law d free (with_config a k).trade amount side min_out g.ledger g'.ledger mints
            (rw it at met) user ex w (rw it at ran),
        same,
      )
  call-Holds s a (withdraw dl side min_x min_y) k g g' found mints user ex w e =
      let (c, loaded, met, (m, made, ran), same) =
        withdraw_step t d s a dl side min_x min_y g g' e in
      let it : c ≡ k = cc (loaded, found) in
      let kept = opened-pool a k g m made in
      let holds =
        withdraw-Holds t law d free (with_config a k) dl side min_x min_y m g'.ledger mints
          (rw it at met) user (subst IsWellTyped (sym kept) w) (rw it at ran) in
      (subst (λ p. Holds p (pool t d a.config_key k g')) kept holds, same)
  call-Holds s a (burn_lp_tokens dl) k g g' found mints user ex w e =
      let (c, loaded, met, (m, made, ran), same) = burn_step t d s a dl g g' e in
      let it : c ≡ k = cc (loaded, found) in
      let holds =
        burn-Holds t law d free (burner_of (with_config a k)) dl m g'.ledger (rw it at met) user
          (rw it at ran) in
      (subst (λ p. Holds p (pool t d a.config_key k g')) (opened-pool a k g m made) holds, same)
  call-Holds s a (initialize config_bump lp_bump seed fee authority) k g g' found mints user ex w
        e =
      absurd ex
  call-Holds s a (deposit token_x token_y side min_lp) k g g' found mints user ex w e = absurd ex
  call-Holds s a (withdraw_w_introspection dl side min_x min_y) k g g' found mints user ex w e =
      absurd ex
  call-Holds s a (update_config seed fee authority lock) k g g' found mints user ex w e = absurd ex

  Trading-Holds :
      (key : Pubkey) (k : Config) (g : Amm t) {g' : Amm t}
      → g.configs key ≡ some k
      → HasMints d key k
      → Trading t d key k g g'
      → Holds (pool t d key k g) (pool t d key k g') × (g'.configs key ≡ some k)
  Trading-Holds key k g found mints begun = ((omega arith, omega arith), found)
  Trading-Holds key k g found mints (traded {m} {g'} s a c h here user ex w e) =
      let (before, stored) = Trading-Holds key k g found mints h in
      let (step, same) =
        call-Holds s a c k m g' (ap m.configs here ∙ stored)
          (subst (λ x. HasMints d x k) (sym here) mints) (λ p. user (p ∙ here)) ex
          (subst (λ x. IsWellTyped (pool t d x k m)) (sym here) w) e in
      let step' = subst (λ x. Holds (pool t d x k m) (pool t d x k g')) here step in
      (
        Holds-chain (pool t d key k g) (pool t d key k m) (pool t d key k g') before step',
        ap (λ (f : Pubkey → Option Config). f key) same ∙ stored,
      )

  -- For a token program that moves, mints and burns as documented and token accounts with an
  -- address of their own for each wallet and mint: in a pool with three different mints, no
  -- sequence of successful swaps, withdrawals and burns by any users other than the pool itself
  -- lowers the product of the vaults per squared LP supply, as long as amounts, balances and supply
  -- are of the Rust types; it does not raise the supply, and it leaves the config as it was.
  pub Trading-KeepsValue :
      (key : Pubkey) (k : Config) (g g' : Amm t)
      → g.configs key ≡ some k
      → HasMints d key k
      → Trading t d key k g g'
      → KeepsValue (pool t d key k g) (pool t d key k g')
        × ((pool t d key k g').lp_supply ≤ (pool t d key k g).lp_supply)
        × (g'.configs key ≡ some k)
  Trading-KeepsValue key k g g' found mints h =
      let ((value, fewer), same) = Trading-Holds key k g found mints h in (value, fewer, same)
