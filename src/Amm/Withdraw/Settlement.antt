-- ===== src/Amm/Withdraw/Settlement.antt =====
-- What a successful withdrawal (programs/amm/src/instructions/withdraw.rs) does to the ledger.
use solana_instructions_intr.Prelude.{
  ℕ, ◌+◌, ◌-◌, ◌≡◌, sym, arith, false, not, ok, require, >>=-eq-ok, map_err-eq-ok, require-eq-ok,
}
use solana_instructions_intr.Solana.{custom, program_error}
use solana_instructions_intr.Solana.Token.{TokenOps, IsTokenProgram, Burned}
use solana_instructions_intr.Cpmm.Types.{IsWellTyped, WithdrawQuote}
use solana_instructions_intr.Cpmm.Withdraw as Cpmm_withdraw
use solana_instructions_intr.Cpmm.Withdraw.Backing.{withdraw-IsBacked}
use solana_instructions_intr.Cpmm.Deposit.Backing.{IsBacked}
use solana_instructions_intr.Amm.Types.{OperationSide, to_side, quoted, from_cpmm, pool_locked}
use solana_instructions_intr.Amm.Accounts.{LpAccounts, AreLpDistinct}
use solana_instructions_intr.Amm.Transfers.{pool_of}
use solana_instructions_intr.Amm.Transfers.Flow.{Flow}
use solana_instructions_intr.Amm.Withdraw.{
  withdraw, execute_withdraw_transfers, burn_lp_tokens, lp_burn,
}
use solana_instructions_intr.Amm.Withdraw.Payments.{withdraw_payments}

module _ (t : TokenOps) where
  open t use {Ledger, balance, supply}

  -- The quote was paid out of the vaults and `dl` LP tokens of the user are gone.
  pub record Withdrawn (a : LpAccounts) (dl : ℕ) (q : WithdrawQuote) (l l' : Ledger) : Type 0 where
    pub vault_x : balance l' a.vault_x + q.withdraw_x ≡ balance l a.vault_x
    pub vault_y : balance l' a.vault_y + q.withdraw_y ≡ balance l a.vault_y
    pub user_x : balance l' a.user_x ≡ balance l a.user_x + q.withdraw_x
    pub user_y : balance l' a.user_y ≡ balance l a.user_y + q.withdraw_y
    pub user_lp : balance l' a.user_lp + dl ≡ balance l a.user_lp
    pub issued : supply l' a.mint_lp + dl ≡ supply l a.mint_lp

  pub exit_done :
      (a : LpAccounts) (dl : ℕ) (q : WithdrawQuote) (l m l' : Ledger)
      → AreLpDistinct a
      → Flow t a.trade 0 q.withdraw_x 0 q.withdraw_y l m
      → Burned t a.mint_lp a.user_lp dl m l'
      → Withdrawn a dl q l l'
  exit_done a dl q l m l' d f b =
      let lp = f.others a.user_lp d.lp_vault_x d.lp_user_x d.lp_vault_y d.lp_user_y in
      record {
        vault_x = omega (arith, f.vault_x, b.others a.vault_x (λ p. d.lp_vault_x (sym p)));
        vault_y = omega (arith, f.vault_y, b.others a.vault_y (λ p. d.lp_vault_y (sym p)));
        user_x = omega (arith, f.user_x, b.others a.user_x (λ p. d.lp_user_x (sym p)));
        user_y = omega (arith, f.user_y, b.others a.user_y (λ p. d.lp_user_y (sym p)));
        user_lp = omega (arith, b.debited, b.covered, lp);
        issued = omega (arith, b.lowered, b.within, f.supplies a.mint_lp);
      }

  record Steps (a : LpAccounts) (dl : ℕ) (side : OperationSide) (min_x min_y : ℕ) (l l' : Ledger)
      : Type 0 where
    quote : WithdrawQuote
    between : Ledger
    unlocked : a.config.locked ≡ false
    priced :
        Cpmm_withdraw.withdraw
          (pool_of t a.trade (supply l a.mint_lp) l)
          dl
          (to_side side)
          min_x
          min_y
        ≡ ok quote
    paid : execute_withdraw_transfers t a.trade side quote l ≡ ok between
    burned : t.burn (lp_burn a.mint_lp a.user_lp a.user) dl between ≡ ok l'

  withdraw-Steps :
      (a : LpAccounts) (dl : ℕ) (side : OperationSide) (min_x min_y : ℕ) (l l' : Ledger)
      → withdraw t a dl side min_x min_y l ≡ ok l'
      → Steps a dl side min_x min_y l l'
  unfolding withdraw burn_lp_tokens
  withdraw-Steps a dl side min_x min_y l l' e =
      let p = pool_of t a.trade (supply l a.mint_lp) l in
      let (_, e0, k0) = >>=-eq-ok (require (not a.config.locked) (custom pool_locked)) _ e in
      let (q, e1, k1) =
        >>=-eq-ok (quoted (Cpmm_withdraw.withdraw p dl (to_side side) min_x min_y)) _ k0 in
      let (l1, e2, k2) = >>=-eq-ok (execute_withdraw_transfers t a.trade side q l) _ k1 in
      record {
        quote = q;
        between = l1;
        unlocked = ground (arith, require-eq-ok (not a.config.locked) (custom pool_locked) e0);
        priced = map_err-eq-ok (λ x. custom (from_cpmm x)) _ e1;
        paid = e2;
        burned = map_err-eq-ok program_error _ k2;
      }

  -- For a token program that moves, mints and burns as documented, different token accounts
  -- and balances of the Rust types, a successful withdrawal runs only in an unlocked pool and
  -- follows a quote for the balances and the LP supply at entry: on every side each vault
  -- pays the user what the quote names, and the LP tokens leave the account of the user and
  -- the supply.
  pub withdraw_settles :
      IsTokenProgram t
      → (a : LpAccounts) (dl : ℕ) (side : OperationSide) (min_x min_y : ℕ) (l l' : Ledger)
      → AreLpDistinct a
      → IsWellTyped (pool_of t a.trade (supply l a.mint_lp) l)
      → withdraw t a dl side min_x min_y l ≡ ok l'
      → (a.config.locked ≡ false)
        × ((q : WithdrawQuote) × (Cpmm_withdraw.withdraw
                (pool_of t a.trade (supply l a.mint_lp) l)
                dl
                (to_side side)
                min_x
                min_y
              ≡ ok q)
            × Withdrawn a dl q l l')
  withdraw_settles law a dl side min_x min_y l l' d w e =
      let s = withdraw-Steps a dl side min_x min_y l l' e in
      let p = pool_of t a.trade (supply l a.mint_lp) l in
      let flow =
        withdraw_payments t law a.trade p dl side min_x min_y s.quote l s.between d.trading w
          s.priced s.paid in
      let burn = law.burn_burns (lp_burn a.mint_lp a.user_lp a.user) dl s.between l' s.burned in
      (s.unlocked, (s.quote, s.priced, exit_done a dl s.quote l s.between l' d flow burn))

  -- For a token program that moves, mints and burns as documented, different token accounts
  -- and balances of the Rust types, a successful withdrawal from a pool whose LP supply
  -- squared is at most the product of its vault balances leaves such a pool.
  pub withdraw_keeps_backing :
      IsTokenProgram t
      → (a : LpAccounts) (dl : ℕ) (side : OperationSide) (min_x min_y : ℕ) (l l' : Ledger)
      → AreLpDistinct a
      → IsWellTyped (pool_of t a.trade (supply l a.mint_lp) l)
      → IsBacked (pool_of t a.trade (supply l a.mint_lp) l)
      → withdraw t a dl side min_x min_y l ≡ ok l'
      → IsBacked (pool_of t a.trade (supply l' a.mint_lp) l')
  withdraw_keeps_backing law a dl side min_x min_y l l' d w backed e =
      let p = pool_of t a.trade (supply l a.mint_lp) l in
      let (_, (q, priced, moved)) = withdraw_settles law a dl side min_x min_y l l' d w e in
      let (_, _, kept) =
        withdraw-IsBacked p dl (to_side side) min_x min_y q w (omega (arith, moved.issued)) backed
          priced in
      let left_x : balance l' a.vault_x ≡ balance l a.vault_x - q.withdraw_x =
        omega (arith, moved.vault_x) in
      let left_y : balance l' a.vault_y ≡ balance l a.vault_y - q.withdraw_y =
        omega (arith, moved.vault_y) in
      let left : supply l' a.mint_lp ≡ supply l a.mint_lp - dl = omega (arith, moved.issued) in
      rw (left_x, left_y, left) kept
