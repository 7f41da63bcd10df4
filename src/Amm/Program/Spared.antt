-- ===== src/Amm/Program/Spared.antt =====
-- The accounts and mints that the handlers of programs/amm/src/lib.rs leave alone.
use solana_instructions_intr.Prelude.{
  ℕ, ◌≡◌, ◌≢◌, ◌∙◌, not, Option, ok, ok_or, require, checked_add, u64_mod, >>=-eq-ok, map_err-eq-ok,
}
use solana_instructions_intr.Solana.{Pubkey, custom, program_error}
use solana_instructions_intr.Solana.Token.{TokenOps, IsTokenProgram}
use solana_instructions_intr.Cpmm.Deposit as Cpmm_deposit
use solana_instructions_intr.Cpmm.Withdraw as Cpmm_withdraw
use solana_instructions_intr.Amm.Types.{OperationSide, to_side, quoted, pool_locked, overflow}
use solana_instructions_intr.Amm.Accounts.{LpAccounts, BurnLp}
use solana_instructions_intr.Amm.Transfers.{pool_of}
use solana_instructions_intr.Amm.Transfers.Spared.{
  IsOutside, Spared, Spared-chain, payout-Spared, payin-Spared,
}
use solana_instructions_intr.Amm.Deposit as Amm_deposit
use solana_instructions_intr.Amm.Deposit.{execute_deposit_transfers, mint_lp_tokens, lp_mint}
use solana_instructions_intr.Amm.Withdraw as Amm_withdraw
use solana_instructions_intr.Amm.Withdraw.{execute_withdraw_transfers, burn_lp_tokens, lp_burn}
use solana_instructions_intr.Amm.Introspection as Amm_introspection
use solana_instructions_intr.Amm.Introspection.{Introspected, confirm_burn}
use solana_instructions_intr.Amm.Introspection.Settlement.{burn_lp-burns}
use solana_instructions_intr.Amm.Program.{user_lp_account}

module _ (t : TokenOps) (law : IsTokenProgram t) (j m : Pubkey) (a : LpAccounts)
    (lp : j ≢ a.user_lp) (mint : m ≢ a.mint_lp) where
  open t use {Ledger, supply}

  pub deposit-Spared :
      (x y : Option ℕ) (side : OperationSide) (min_lp : ℕ) (l l' : Ledger)
      → IsOutside a.trade j
      → Amm_deposit.deposit t a x y side min_lp l ≡ ok l'
      → Spared t j m l l'
  unfolding Amm_deposit.deposit mint_lp_tokens
  deposit-Spared x y side min_lp l l' o e =
      let (_, _, k0) = >>=-eq-ok (require (not a.config.locked) (custom pool_locked)) _ e in
      let (q, _, k1) =
        >>=-eq-ok
          (quoted (
            Cpmm_deposit.deposit (pool_of t a.trade (supply l a.mint_lp) l) x y (to_side side)
              min_lp))
          _ k0 in
      let (l1, e2, k2) = >>=-eq-ok (execute_deposit_transfers t a side q l) _ k1 in
      let it =
        law.mint_to_mints (lp_mint t a) q.lp_minted l1 l' (map_err-eq-ok program_error _ k2) in
      Spared-chain t j m l l1 l' (payin-Spared t j m law a o side q l l1 e2)
        (it.others j lp, it.other_supplies m mint)

  pub withdraw-Spared :
      (dl : ℕ) (side : OperationSide) (min_x min_y : ℕ) (l l' : Ledger)
      → IsOutside a.trade j
      → Amm_withdraw.withdraw t a dl side min_x min_y l ≡ ok l'
      → Spared t j m l l'
  unfolding Amm_withdraw.withdraw burn_lp_tokens
  withdraw-Spared dl side min_x min_y l l' o e =
      let (_, _, k0) = >>=-eq-ok (require (not a.config.locked) (custom pool_locked)) _ e in
      let (q, _, k1) =
        >>=-eq-ok
          (quoted (
            Cpmm_withdraw.withdraw (pool_of t a.trade (supply l a.mint_lp) l) dl (to_side side)
              min_x min_y))
          _ k0 in
      let (l1, e2, k2) = >>=-eq-ok (execute_withdraw_transfers t a.trade side q l) _ k1 in
      let it =
        law.burn_burns (lp_burn a.mint_lp a.user_lp a.user) dl l1 l'
          (map_err-eq-ok program_error _ k2) in
      Spared-chain t j m l l1 l' (payout-Spared t j m law a.trade o side q l l1 e2)
        (it.others j lp, it.other_supplies m mint)

  pub claim-Spared :
      (s : Introspected) (dl : ℕ) (side : OperationSide) (min_x min_y : ℕ) (l l' : Ledger)
      → IsOutside a.trade j
      → Amm_introspection.withdraw_w_introspection t s a dl side min_x min_y l ≡ ok l'
      → Spared t j m l l'
  unfolding Amm_introspection.withdraw_w_introspection
  claim-Spared s dl side min_x min_y l l' o e =
      let (_, _, k0) = >>=-eq-ok (require (not a.config.locked) (custom pool_locked)) _ e in
      let (_, _, k1) = >>=-eq-ok (confirm_burn s a dl) _ k0 in
      let (before, _, k2) =
        >>=-eq-ok (ok_or (checked_add u64_mod (supply l a.mint_lp) dl) (custom overflow)) _ k1 in
      let (q, _, k3) =
        >>=-eq-ok
          (quoted
            (Cpmm_withdraw.withdraw (pool_of t a.trade before l) dl (to_side side) min_x min_y))
          _ k2 in
      payout-Spared t j m law a.trade o side q l l' k3

  pub burn-Spared :
      (b : BurnLp) (dl : ℕ) (l l' : Ledger)
      → b.mint_lp ≡ a.mint_lp
      → b.user_lp ≡ a.user_lp
      → Amm_withdraw.burn_lp t b dl l ≡ ok l'
      → Spared t j m l l'
  burn-Spared b dl l l' same_mint same_lp e =
      let it = burn_lp-burns t law b dl l l' e in
      (it.others j (λ p. lp (p ∙ same_lp)), it.other_supplies m (λ p. mint (p ∙ same_mint)))

  pub opened-Spared :
      (l l' : Ledger) → t.init_if_needed (user_lp_account a) l ≡ ok l' → Spared t j m l l'
  opened-Spared l l' e =
      let it = law.init_if_needed_keeps (user_lp_account a) l l' e in (it.balances j, it.supplies m)
