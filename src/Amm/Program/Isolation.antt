-- ===== src/Amm/Program/Isolation.antt =====
-- The entry points of programs/amm/src/lib.rs and the tokens of other pools.
use solana_instructions_intr.Prelude.{
  ℕ, ◌≡◌, ◌≢◌, refl, sym, ap, ◌∙◌, Bool, true, Option, ok, require, >>=-eq-ok,
}
use solana_instructions_intr.Solana.{Pubkey, Derivation, IsCollisionFree, constraint}
use solana_instructions_intr.Solana.Token.{TokenOps, IsTokenProgram}
use solana_instructions_intr.Amm.Types.{Config}
use solana_instructions_intr.Amm.Accounts.{LpAccounts, swap_constraints}
use solana_instructions_intr.Amm.Accounts.Distinct.{constraints-AreAssociated, lp_constraints-parts}
use solana_instructions_intr.Amm.Transfers.Spared.{IsOutside, Spared, Spared-chain, swap-Spared}
use solana_instructions_intr.Amm.Introspection.{Introspected}
use solana_instructions_intr.Amm.Introspection.Settlement.{lp_part}
use solana_instructions_intr.Amm.Admin as Admin
use solana_instructions_intr.Amm.Program as Program
use solana_instructions_intr.Amm.Program.Apart.{process_apart}
use solana_instructions_intr.Amm.Program.{
  Call, initialize, deposit, withdraw_w_introspection, withdraw, swap, update_config, with_config,
  burner_of, updater_of, update_constraints, lp_mint_of, load, user_lp_account, Amm, process,
}
use solana_instructions_intr.Amm.Program.Steps.{
  init_step, introspected_step, swap_step, deposit_step, withdraw_step, burn_step,
}
use solana_instructions_intr.Amm.Program.Pools.{pool_at, lp_mint_at, burn_constraints-BurnsOfPool}
use solana_instructions_intr.Amm.Program.Spared.{
  deposit-Spared, withdraw-Spared, claim-Spared, burn-Spared, opened-Spared,
}

module _ (t : TokenOps) (law : IsTokenProgram t) (d : Derivation) (free : IsCollisionFree d)
    (s : Introspected) (a : LpAccounts) (key : Pubkey) (k : Config) (apart : a.config_key ≢ key)
    (user : a.user ≢ key) (own : a.user ≢ a.config_key) (lps : a.mint_lp ≢ lp_mint_at d key k) where
  -- The vaults of the pool are none of the accounts of a call in another one.
  outside :
      (c : Config) (n : Pubkey)
      → swap_constraints d (with_config a c).trade ≡ true
      → IsOutside (with_config a c).trade (d.associated_token key n)
  outside c n h =
      let at = constraints-AreAssociated d (with_config a c).trade h in
      record {
        vault_x = λ p. apart (sym (free.wallets key a.config_key n a.mint_x (p ∙ at.vault_x_at)));
        vault_y = λ p. apart (sym (free.wallets key a.config_key n a.mint_y (p ∙ at.vault_y_at)));
        user_x = λ p. user (sym (free.wallets key a.user n a.mint_x (p ∙ at.user_x_at)));
        user_y = λ p. user (sym (free.wallets key a.user n a.mint_y (p ∙ at.user_y_at)));
        x_sides = λ p. own (
            sym (
              free.wallets a.config_key a.user a.mint_x a.mint_x
                (sym at.vault_x_at ∙ p ∙ at.user_x_at)));
        y_sides = λ p. own (
            sym (
              free.wallets a.config_key a.user a.mint_y a.mint_y
                (sym at.vault_y_at ∙ p ∙ at.user_y_at)));
      }

  no_lp_account :
      (n : Pubkey)
      → a.user_lp ≡ d.associated_token a.user a.mint_lp
      → d.associated_token key n ≢ a.user_lp
  no_lp_account n h p = user (sym (free.wallets key a.user n a.mint_lp (p ∙ h)))

  abbrev Left : (l l' : t.Ledger) → Type 0
  Left l l' = (n : Pubkey) → Spared t (d.associated_token key n) (lp_mint_at d key k) l l'

  Left-pool_at : (l l' : t.Ledger) → Left l l' → pool_at d t key k l' ≡ pool_at d t key k l
  Left-pool_at l l' h = rw ((h k.mint_x).0, (h k.mint_y).0, (h k.mint_x).1) refl

  after_opening :
      (l o l' : t.Ledger)
      → t.init_if_needed (user_lp_account a) l ≡ ok o
      → a.user_lp ≡ d.associated_token a.user a.mint_lp
      → Left o l'
      → pool_at d t key k l' ≡ pool_at d t key k l
  after_opening l o l' e at h = Left-pool_at l l' λ n.
      Spared-chain t (d.associated_token key n) (lp_mint_at d key k) l o l'
        (opened-Spared t law (d.associated_token key n) (lp_mint_at d key k) a (no_lp_account n at)
          (λ p. lps (sym p)) l o e)
        (h n)

  update-ledger :
      (seed fee : ℕ) (authority : Option Pubkey) (lock : Bool) (g g' : Amm t)
      → process t d s a (update_config seed fee authority lock) g ≡ ok g'
      → g'.ledger ≡ g.ledger
  unfolding process
  update-ledger seed fee authority lock g g' e =
      let (b, _, k0) = >>=-eq-ok (load t d s a g) _ e in
      let (_, _, k1) =
        >>=-eq-ok (require (update_constraints d (updater_of b) seed) constraint) _ k0 in
      let (c, _, k2) = >>=-eq-ok (Admin.update (updater_of b) fee authority lock) _ k1 in cc k2

  created-Left :
      (config_bump lp_bump seed fee : ℕ) (authority : Option Pubkey) (g g' : Amm t)
      → process t d s a (initialize config_bump lp_bump seed fee authority) g ≡ ok g'
      → Left g.ledger g'.ledger
  created-Left config_bump lp_bump seed fee authority g g' e n =
      let i = init_step t d s a config_bump lp_bump seed fee authority g g' e in
      let (balances, _, supplies) =
        law.init_mint_empty (lp_mint_of a) g.ledger i.with_mint i.mint_created in
      let (_, x) = law.init_account_empty _ i.with_mint i.with_x i.x_created in
      let (_, y) = law.init_account_empty _ i.with_x g'.ledger i.y_created in
      let j = d.associated_token key n in
      let m = lp_mint_at d key k in
      (
        y.balances j ∙ x.balances j ∙ balances j,
        y.supplies m ∙ x.supplies m ∙ supplies m (λ p. lps (sym p)),
      )

  pool_isolated :
      (c : Call) (g g' : Amm t)
      → process t d s a c g ≡ ok g'
      → pool_at d t key k g'.ledger ≡ pool_at d t key k g.ledger
  pool_isolated (initialize config_bump lp_bump seed fee authority) g g' e =
      Left-pool_at g.ledger g'.ledger (created-Left config_bump lp_bump seed fee authority g g' e)
  pool_isolated (update_config seed fee authority lock) g g' e =
      ap (λ l. pool_at d t key k l) (update-ledger seed fee authority lock g g' e)
  pool_isolated (swap amount side min_out) g g' e =
      let (c, _, met, ran, same) = swap_step t d s a amount side min_out g g' e in
      Left-pool_at g.ledger g'.ledger (λ n.
        swap-Spared t (d.associated_token key n) (lp_mint_at d key k) law (with_config a c).trade
          (outside c n met) amount side min_out g.ledger g'.ledger ran)
  pool_isolated (deposit x y side min_lp) g g' e =
      let (c, _, met, (o, made, ran), same) = deposit_step t d s a x y side min_lp g g' e in
      let (trades, at) = lp_constraints-parts d (with_config a c) met in
      after_opening g.ledger o g'.ledger made at (λ n.
        deposit-Spared t law (d.associated_token key n) (lp_mint_at d key k) (with_config a c)
          (no_lp_account n at) (λ p. lps (sym p)) x y side min_lp o g'.ledger (outside c n trades)
          ran)
  pool_isolated (withdraw dl side min_x min_y) g g' e =
      let (c, _, met, (o, made, ran), same) = withdraw_step t d s a dl side min_x min_y g g' e in
      let (trades, at) = lp_constraints-parts d (with_config a c) met in
      after_opening g.ledger o g'.ledger made at (λ n.
        withdraw-Spared t law (d.associated_token key n) (lp_mint_at d key k) (with_config a c)
          (no_lp_account n at) (λ p. lps (sym p)) dl side min_x min_y o g'.ledger
          (outside c n trades) ran)
  pool_isolated (withdraw_w_introspection dl side min_x min_y) g g' e =
      let (c, _, met, (o, made, ran), same) =
        introspected_step t d s a dl side min_x min_y g g' e in
      let (trades, at) =
        lp_constraints-parts d (with_config a c) (lp_part d s (with_config a c) met) in
      after_opening g.ledger o g'.ledger made at (λ n.
        claim-Spared t law (d.associated_token key n) (lp_mint_at d key k) (with_config a c)
          (no_lp_account n at) (λ p. lps (sym p)) s dl side min_x min_y o g'.ledger
          (outside c n trades) ran)
  pool_isolated (Program.burn_lp_tokens n) g g' e =
      let (c, _, met, (o, made, ran), same) = burn_step t d s a n g g' e in
      let at = (burn_constraints-BurnsOfPool d (burner_of (with_config a c)) met).account_at in
      after_opening g.ledger o g'.ledger made at (λ i.
        burn-Spared t law (d.associated_token key i) (lp_mint_at d key k) (with_config a c)
          (no_lp_account i at) (λ p. lps (sym p)) (burner_of (with_config a c)) n o g'.ledger refl
          refl ran)

  -- For a token program that moves, mints, burns and creates as documented and addresses that do not
  -- collide: a successful call of any kind with another config account and another LP mint than this
  -- pool's, by a user that is neither of the two config accounts, leaves the balances of this pool's
  -- vaults, the supply of its LP mint and its stored config as they were.
  pub process_isolated :
      (c : Call) (g g' : Amm t)
      → process t d s a c g ≡ ok g'
      → (pool_at d t key k g'.ledger ≡ pool_at d t key k g.ledger)
        × (g'.configs key ≡ g.configs key)
  process_isolated c g g' e = (pool_isolated c g g' e, process_apart t d s a key apart g g' c e)
