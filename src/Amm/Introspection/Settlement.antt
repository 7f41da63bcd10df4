-- ===== src/Amm/Introspection/Settlement.antt =====
-- A burn and the withdrawal that relies on it
-- (programs/amm/src/instructions/burn_lp.rs and withdraw_with_introspection.rs) on the ledger.
use solana_instructions_intr.Prelude.{
  true, IsU64, ℕ, ◌+◌, ◌≡◌, refl, sym, subst, arith, false, not, ok, require, ok_or, checked_add,
  u64_mod, >>=-eq-ok, map_err-eq-ok, require-eq-ok,
}
use solana_instructions_intr.Solana.{Derivation, custom, program_error}
use solana_instructions_intr.Solana.Token.{TokenOps, IsTokenProgram, Burned}
use solana_instructions_intr.Cpmm.Types.{IsWellTyped, WithdrawQuote}
use solana_instructions_intr.Cpmm.Withdraw as Cpmm_withdraw
use solana_instructions_intr.Amm.Types.{
  OperationSide, to_side, quoted, from_cpmm, pool_locked, overflow, AmmError,
}
use solana_instructions_intr.Amm.Accounts.{lp_constraints, LpAccounts, AreLpDistinct, BurnLp}
use solana_instructions_intr.Amm.Transfers.{pool_of}
use solana_instructions_intr.Amm.Transfers.Flow.{Flow, in_sequence}
use solana_instructions_intr.Amm.Withdraw.{execute_withdraw_transfers, burn_lp, lp_burn}
use solana_instructions_intr.Amm.Withdraw.Payments.{withdraw_payments}
use solana_instructions_intr.Amm.Withdraw.Settlement.{Withdrawn}
use solana_instructions_intr.Amm.Introspection.{
  introspection_constraints, Introspected, confirm_burn, withdraw_w_introspection,
}

added : (a b s : ℕ) (x : AmmError) → ok_or (checked_add u64_mod a b) (custom x) ≡ ok s → s ≡ a + b
added a b s x e = ground arith

sum-IsU64 :
    (a b s : ℕ) (x : AmmError) → ok_or (checked_add u64_mod a b) (custom x) ≡ ok s → IsU64 (a + b)
sum-IsU64 a b s x e = ground arith

-- Its accounts pass the checks of a withdrawal.
pub lp_part :
    (d : Derivation) (s : Introspected) (a : LpAccounts)
    → introspection_constraints d s a ≡ true
    → lp_constraints d a ≡ true
unfolding introspection_constraints
lp_part d s a h = ground arith

module _ (t : TokenOps) where
  open t use {Ledger, balance, supply}

  record Steps (s : Introspected) (a : LpAccounts) (dl : ℕ) (side : OperationSide) (min_x min_y : ℕ)
      (l l' : Ledger) : Type 0 where
    quote : WithdrawQuote
    unlocked : a.config.locked ≡ false
    confirmed : confirm_burn s a dl ≡ ok tt
    fits : IsU64 (supply l a.mint_lp + dl)
    priced :
        Cpmm_withdraw.withdraw
          (pool_of t a.trade (supply l a.mint_lp + dl) l)
          dl
          (to_side side)
          min_x
          min_y
        ≡ ok quote
    paid : execute_withdraw_transfers t a.trade side quote l ≡ ok l'

  introspected-Steps :
      (s : Introspected) (a : LpAccounts) (dl : ℕ) (side : OperationSide) (min_x min_y : ℕ)
      (l l' : Ledger)
      → withdraw_w_introspection t s a dl side min_x min_y l ≡ ok l'
      → Steps s a dl side min_x min_y l l'
  unfolding withdraw_w_introspection
  introspected-Steps s a dl side min_x min_y l l' e =
      let (_, e0, k0) = >>=-eq-ok (require (not a.config.locked) (custom pool_locked)) _ e in
      let (_, e1, k1) = >>=-eq-ok (confirm_burn s a dl) _ k0 in
      let (before, e2, k2) =
        >>=-eq-ok (ok_or (checked_add u64_mod (supply l a.mint_lp) dl) (custom overflow)) _ k1 in
      let (q, e3, k3) =
        >>=-eq-ok
          (quoted
            (Cpmm_withdraw.withdraw (pool_of t a.trade before l) dl (to_side side) min_x min_y))
          _ k2 in
      let sum = added (supply l a.mint_lp) dl before overflow e2 in
      record {
        quote = q;
        unlocked = ground (arith, require-eq-ok (not a.config.locked) (custom pool_locked) e0);
        confirmed = e1;
        fits = sum-IsU64 (supply l a.mint_lp) dl before overflow e2;
        priced =
            subst
              (λ n.
                Cpmm_withdraw.withdraw (pool_of t a.trade n l) dl (to_side side) min_x min_y ≡ ok q)
              sum (map_err-eq-ok (λ x. custom (from_cpmm x)) _ e3);
        paid = k3;
      }

  pub burn_lp-burns :
      IsTokenProgram t
      → (b : BurnLp) (dl : ℕ) (l l' : Ledger) → burn_lp t b dl l ≡ ok l'
      → Burned t b.mint_lp b.user_lp dl l l'
  unfolding burn_lp
  burn_lp-burns law b dl l l' e =
      let (_, _, k0) = >>=-eq-ok (require (not b.config.locked) (custom pool_locked)) _ e in
      law.burn_burns (lp_burn b.mint_lp b.user_lp b.user) dl l l' (map_err-eq-ok program_error _ k0)

  -- The burn leaves the pool that the handler computes as it was.
  same_pool :
      (a : LpAccounts) (dl : ℕ) (l l' : Ledger)
      → AreLpDistinct a
      → Burned t a.mint_lp a.user_lp dl l l'
      → pool_of t a.trade (supply l' a.mint_lp + dl) l' ≡ pool_of t a.trade (supply l a.mint_lp) l
  same_pool a dl l l' d b =
      let x = b.others a.vault_x (λ p. d.lp_vault_x (sym p)) in
      let y = b.others a.vault_y (λ p. d.lp_vault_y (sym p)) in
      let lp : supply l' a.mint_lp + dl ≡ supply l a.mint_lp = omega (arith, b.lowered, b.within) in
      rw (x, y, lp) refl

  claim_done :
      (a : LpAccounts) (dl : ℕ) (q : WithdrawQuote) (l m l' : Ledger)
      → AreLpDistinct a
      → Burned t a.mint_lp a.user_lp dl l m
      → Flow t a.trade 0 q.withdraw_x 0 q.withdraw_y m l'
      → Withdrawn t a dl q l l'
  claim_done a dl q l m l' d b f =
      let lp = f.others a.user_lp d.lp_vault_x d.lp_user_x d.lp_vault_y d.lp_user_y in
      record {
        vault_x = omega (arith, f.vault_x, b.others a.vault_x (λ p. d.lp_vault_x (sym p)));
        vault_y = omega (arith, f.vault_y, b.others a.vault_y (λ p. d.lp_vault_y (sym p)));
        user_x = omega (arith, f.user_x, b.others a.user_x (λ p. d.lp_user_x (sym p)));
        user_y = omega (arith, f.user_y, b.others a.user_y (λ p. d.lp_user_y (sym p)));
        user_lp = omega (arith, b.debited, b.covered, lp);
        issued = omega (arith, b.lowered, b.within, f.supplies a.mint_lp);
      }

  -- A withdrawal that confirms a burn, once its LP tokens are gone.
  pub claimed :
      IsTokenProgram t
      → (s : Introspected) (a : LpAccounts) (dl : ℕ) (side : OperationSide) (min_x min_y : ℕ)
        (l m l' : Ledger)
      → AreLpDistinct a
      → IsWellTyped (pool_of t a.trade (supply l a.mint_lp) l)
      → Burned t a.mint_lp a.user_lp dl l m
      → withdraw_w_introspection t s a dl side min_x min_y m ≡ ok l'
      → (q : WithdrawQuote) × (Cpmm_withdraw.withdraw
            (pool_of t a.trade (supply l a.mint_lp) l)
            dl
            (to_side side)
            min_x
            min_y
          ≡ ok q)
        × Withdrawn t a dl q l l'
  claimed law s a dl side min_x min_y l m l' d w burn e =
      let st = introspected-Steps s a dl side min_x min_y m l' e in
      let p = pool_of t a.trade (supply l a.mint_lp) l in
      let priced = rw (same_pool a dl l m d burn) at st.priced in
      let flow =
        withdraw_payments t law a.trade p dl side min_x min_y st.quote m l' d.trading w priced
          st.paid in
      (st.quote, priced, claim_done a dl st.quote l m l' d burn flow)

  -- A withdrawal that confirms a burn pays the crate's quote for the supply with the burned tokens.
  pub claim_pays :
      IsTokenProgram t
      → (s : Introspected) (a : LpAccounts) (dl : ℕ) (side : OperationSide) (min_x min_y : ℕ)
        (l l' : Ledger)
      → AreLpDistinct a
      → IsWellTyped (pool_of t a.trade (supply l a.mint_lp) l)
      → withdraw_w_introspection t s a dl side min_x min_y l ≡ ok l'
      → (q : WithdrawQuote) × (Cpmm_withdraw.withdraw
            (pool_of t a.trade (supply l a.mint_lp + dl) l)
            dl
            (to_side side)
            min_x
            min_y
          ≡ ok q)
        × Flow t a.trade 0 q.withdraw_x 0 q.withdraw_y l l'
  claim_pays law s a dl side min_x min_y l l' d w e =
      let st = introspected-Steps s a dl side min_x min_y l l' e in
      let p = pool_of t a.trade (supply l a.mint_lp + dl) l in
      let typed : IsWellTyped p = record {
        reserve_x_u64 = w.reserve_x_u64;
        reserve_y_u64 = w.reserve_y_u64;
        lp_supply_u64 = st.fits;
        fee_bps_u16 = w.fee_bps_u16;
      } in
      let flow =
        withdraw_payments t law a.trade p dl side min_x min_y st.quote l l' d.trading typed
          st.priced st.paid in
      (st.quote, st.priced, flow)

  pub introspected-confirmed :
      (s : Introspected) (a : LpAccounts) (dl : ℕ) (side : OperationSide) (min_x min_y : ℕ)
      (l l' : Ledger)
      → withdraw_w_introspection t s a dl side min_x min_y l ≡ ok l'
      → confirm_burn s a dl ≡ ok tt
  introspected-confirmed s a dl side min_x min_y l l' e =
      (introspected-Steps s a dl side min_x min_y l l' e).confirmed

  -- For a token program that moves, mints and burns as documented, different token accounts
  -- and balances of the Rust types, a burn from the LP account and a withdrawal that confirms
  -- it settle as one withdrawal does from the ledger before the burn: the same quote, the
  -- same payments and the same loss of LP tokens.
  pub burn_then_withdraw :
      IsTokenProgram t
      → (s : Introspected) (b : BurnLp) (a : LpAccounts) (dl : ℕ) (side : OperationSide)
        (min_x min_y : ℕ) (l m l' : Ledger)
      → AreLpDistinct a
      → IsWellTyped (pool_of t a.trade (supply l a.mint_lp) l)
      → b.mint_lp ≡ a.mint_lp
      → b.user_lp ≡ a.user_lp
      → burn_lp t b dl l ≡ ok m
      → withdraw_w_introspection t s a dl side min_x min_y m ≡ ok l'
      → (q : WithdrawQuote) × (Cpmm_withdraw.withdraw
            (pool_of t a.trade (supply l a.mint_lp) l)
            dl
            (to_side side)
            min_x
            min_y
          ≡ ok q)
        × Withdrawn t a dl q l l'
  burn_then_withdraw law s b a dl side min_x min_y l m l' d w same_mint same_lp e1 e2 =
      claimed law s a dl side min_x min_y l m l' d w
        (rw (same_mint, same_lp) at (burn_lp-burns law b dl l m e1)) e2

  -- For a token program that moves, mints and burns as documented, different token accounts
  -- and pools of the Rust types, two successful withdrawals that confirm the same prior
  -- instruction pay the user two quotes, both for an LP supply that counts the burned tokens
  -- again, and no supply changes: the handler burns nothing.
  pub paid_twice :
      IsTokenProgram t
      → (s : Introspected) (a : LpAccounts) (dl : ℕ) (side : OperationSide) (min_x min_y : ℕ)
        (l m l' : Ledger)
      → AreLpDistinct a
      → IsWellTyped (pool_of t a.trade (supply l a.mint_lp + dl) l)
      → IsWellTyped (pool_of t a.trade (supply m a.mint_lp + dl) m)
      → withdraw_w_introspection t s a dl side min_x min_y l ≡ ok m
      → withdraw_w_introspection t s a dl side min_x min_y m ≡ ok l'
      → (q r : WithdrawQuote) × (Cpmm_withdraw.withdraw
            (pool_of t a.trade (supply l a.mint_lp + dl) l)
            dl
            (to_side side)
            min_x
            min_y
          ≡ ok q)
        × (Cpmm_withdraw.withdraw
              (pool_of t a.trade (supply l a.mint_lp + dl) m)
              dl
              (to_side side)
              min_x
              min_y
            ≡ ok r)
        × Flow t a.trade 0 (q.withdraw_x + r.withdraw_x) 0 (q.withdraw_y + r.withdraw_y) l l'
  paid_twice law s a dl side min_x min_y l m l' d w1 w2 e1 e2 =
      let u = introspected-Steps s a dl side min_x min_y l m e1 in
      let v = introspected-Steps s a dl side min_x min_y m l' e2 in
      let p1 = pool_of t a.trade (supply l a.mint_lp + dl) l in
      let p2 = pool_of t a.trade (supply m a.mint_lp + dl) m in
      let f =
        withdraw_payments t law a.trade p1 dl side min_x min_y u.quote l m d.trading w1 u.priced
          u.paid in
      let g =
        withdraw_payments t law a.trade p2 dl side min_x min_y v.quote m l' d.trading w2 v.priced
          v.paid in
      let again =
        subst
          (λ n.
            Cpmm_withdraw.withdraw (pool_of t a.trade (n + dl) m) dl (to_side side) min_x min_y
            ≡ ok v.quote)
          (f.supplies a.mint_lp) v.priced in
      (u.quote, v.quote, u.priced, again, in_sequence t a.trade l m l' f g)
