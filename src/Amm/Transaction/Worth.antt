-- ===== src/Amm/Transaction/Worth.antt =====
-- The worth of an LP token over a burn and the withdrawal that confirms it.
use solana_instructions_intr.Prelude.{ℕ, ◌≡◌, ◌≢◌, subst, ◌∙◌, arith, some, ok}
use solana_instructions_intr.Solana.{Pubkey, Derivation, IsCollisionFree}
use solana_instructions_intr.Solana.Token.{TokenOps, IsTokenProgram, Burned}
use solana_instructions_intr.Cpmm.Types.{IsWellTyped}
use solana_instructions_intr.Amm.Types.{Config, OperationSide}
use solana_instructions_intr.Amm.Accounts.{LpAccounts}
use solana_instructions_intr.Amm.Introspection.{Introspected, expected_accounts}
use solana_instructions_intr.Amm.Introspection.Settlement.{lp_part, burn_lp-burns, claimed}
use solana_instructions_intr.Amm.Program.{
  withdraw_w_introspection, burn_lp_tokens, with_config, burner_of, user_lp_account, Amm, process,
}
use solana_instructions_intr.Amm.Program.Steps.{introspected_step, burn_step}
use solana_instructions_intr.Amm.Program.Pools.{pool_at, HasMints, holder-AreDistinct}
use solana_instructions_intr.Amm.Program.Value.{Holds, exit-Holds, typed_at}
use solana_instructions_intr.Amm.Transaction.{Wire, IsAnchor}

-- The user, the mints and the LP account of an instruction, as `confrim_burn_accounts` lists them.
same_lp :
    (a b : LpAccounts)
    → expected_accounts b ≡ expected_accounts a
    → (b.mint_lp ≡ a.mint_lp) × (b.user_lp ≡ a.user_lp)
same_lp a b e = (cc e, cc e)

module _ (t : TokenOps) (law : IsTokenProgram t) (d : Derivation) (free : IsCollisionFree d)
    (w : Wire) (anchor : IsAnchor w) where
  -- A burn leaves the ledger without the LP tokens, also with the accounts created on the way.
  burn-Burned :
      (s : Introspected) (b : LpAccounts) (n : ℕ) (g m : Amm t) (l : t.Ledger) (a : LpAccounts)
      → process t d s b (burn_lp_tokens n) g ≡ ok m
      → t.init_if_needed (user_lp_account a) m.ledger ≡ ok l
      → expected_accounts b ≡ expected_accounts a
      → Burned t a.mint_lp a.user_lp n g.ledger l
  burn-Burned s b n g m l a e made same =
      let (k, _, _, (l0, opened, ran), _) = burn_step t d s b n g m e in
      let u = law.init_if_needed_keeps (user_lp_account b) g.ledger l0 opened in
      let v = law.init_if_needed_keeps (user_lp_account a) m.ledger l made in
      let it = burn_lp-burns t law (burner_of (with_config b k)) n l0 m.ledger ran in
      let (mint, account) = same_lp a b same in
      let burn =
        subst (λ (x : Pubkey). Burned t a.mint_lp x n l0 m.ledger) account
          (subst (λ (x : Pubkey). Burned t x b.user_lp n l0 m.ledger) mint it) in
      record {
        covered = omega (arith, burn.covered, u.balances a.user_lp);
        debited = omega (arith, burn.debited, u.balances a.user_lp, v.balances a.user_lp);
        others = λ j h. v.balances j ∙ burn.others j h ∙ u.balances j;
        within = omega (arith, burn.within, u.supplies a.mint_lp);
        lowered = omega (arith, burn.lowered, u.supplies a.mint_lp, v.supplies a.mint_lp);
        other_supplies = λ j h. v.supplies j ∙ burn.other_supplies j h ∙ u.supplies j;
      }

  -- A burn and the withdrawal that confirms it, taken together.
  pub claim-Holds :
      (s s0 : Introspected) (a b : LpAccounts) (n : ℕ) (side : OperationSide) (min_x min_y : ℕ)
      (k : Config) (g m g' : Amm t)
      → m.configs a.config_key ≡ some k
      → HasMints d a.config_key k
      → a.user ≢ a.config_key
      → IsWellTyped (pool_at d t a.config_key k g.ledger)
      → expected_accounts b ≡ expected_accounts a
      → process t d s0 b (burn_lp_tokens n) g ≡ ok m
      → process t d s a (withdraw_w_introspection n side min_x min_y) m ≡ ok g'
      → Holds (pool_at d t a.config_key k g.ledger) (pool_at d t a.config_key k g'.ledger)
        × (g'.configs ≡ m.configs)
  claim-Holds s s0 a b n side min_x min_y k g m g' found mints user typed same e1 e2 =
      let (c, loaded, met, (l, made, ran), kept) =
        introspected_step t d s a n side min_x min_y m g' e2 in
      let it : c ≡ k = cc (loaded, found) in
      let held = lp_part d s (with_config a k) (rw it at met) in
      let (q, priced, paid) =
        claimed t law s (with_config a k) n side min_x min_y g.ledger l g'.ledger
          (holder-AreDistinct d free (with_config a k) mints held user)
          (typed_at t law d free (with_config a k) g.ledger held typed)
          (burn-Burned s0 b n g m l a e1 made same) (rw it at ran) in
      (
        exit-Holds t law d free (with_config a k) n side min_x min_y q g.ledger g'.ledger held typed
            priced paid,
        kept,
      )
