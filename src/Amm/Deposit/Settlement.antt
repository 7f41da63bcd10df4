-- ===== src/Amm/Deposit/Settlement.antt =====
-- What a successful deposit (programs/amm/src/instructions/deposit.rs) does to the ledger.
use solana_instructions_intr.Prelude.{
  ℕ, ◌+◌, ◌≡◌, sym, arith, true, false, not, Option, ok, require, >>=-eq-ok, map_err-eq-ok,
  require-eq-ok,
}
use solana_instructions_intr.Solana.{custom, program_error}
use solana_instructions_intr.Solana.Token.{TokenOps, IsTokenProgram, Minted}
use solana_instructions_intr.Cpmm.Types.{DepositQuote}
use solana_instructions_intr.Cpmm.Deposit as Cpmm_deposit
use solana_instructions_intr.Cpmm.Deposit.Unused.{AreUnused, deposit-AreUnused}
use solana_instructions_intr.Amm.Types.{
  OperationSide, op_x, op_y, op_balanced, to_side, quoted, from_cpmm, pool_locked,
}
use solana_instructions_intr.Amm.Accounts.{LpAccounts, AreDistinct, AreLpDistinct}
use solana_instructions_intr.Amm.Transfers.{pool_of, transfer_user_to_vault, transfer_vault_to_user}
use solana_instructions_intr.Amm.Transfers.Flow.{
  Flow, in_sequence, cancel, user_to_vault, vault_to_user,
}
use solana_instructions_intr.Amm.Deposit.{
  deposit, execute_deposit_transfers, mint_lp_tokens, lp_mint,
}

module _ (t : TokenOps) where
  open t use {Ledger, balance, supply}

  module _ (law : IsTokenProgram t) where
    -- All payments of a quote whose unused legs are zero.
    deposit_payments :
        (a : LpAccounts) (side : OperationSide) (q : DepositQuote) (l l' : Ledger)
        → AreDistinct a.trade
        → AreUnused (to_side side) q
        → execute_deposit_transfers t a side q l ≡ ok l'
        → Flow t a.trade
            (q.swap_in_x + q.deposit_x)
            q.swap_out_x
            (q.swap_in_y + q.deposit_y)
            q.swap_out_y
            l
            l'
    unfolding execute_deposit_transfers
    deposit_payments a op_balanced q l l' d z e =
        let (l1, e1, e2) = >>=-eq-ok (transfer_user_to_vault t a.trade true q.deposit_x l) _ e in
        cancel t a.trade l l' (omega (arith, z)) (omega (arith, z)) (
          in_sequence t a.trade l l1 l' (user_to_vault t law a.trade true q.deposit_x l l1 d e1)
            (user_to_vault t law a.trade false q.deposit_y l1 l' d e2))
    deposit_payments a op_x q l l' d z e =
        let (l1, e1, k1) = >>=-eq-ok (transfer_user_to_vault t a.trade true q.swap_in_x l) _ e in
        let (l2, e2, k2) =
          >>=-eq-ok (transfer_vault_to_user t a.trade false q.swap_out_y l1) _ k1 in
        let (l3, e3, e4) = >>=-eq-ok (transfer_user_to_vault t a.trade true q.deposit_x l2) _ k2 in
        let sale =
          in_sequence t a.trade l l1 l2 (user_to_vault t law a.trade true q.swap_in_x l l1 d e1)
            (vault_to_user t law a.trade false q.swap_out_y l1 l2 d e2) in
        let both =
          in_sequence t a.trade l2 l3 l' (user_to_vault t law a.trade true q.deposit_x l2 l3 d e3)
            (user_to_vault t law a.trade false q.deposit_y l3 l' d e4) in
        cancel t a.trade l l' (omega (arith, z)) (omega (arith, z))
          (in_sequence t a.trade l l2 l' sale both)
    deposit_payments a op_y q l l' d z e =
        let (l1, e1, k1) = >>=-eq-ok (transfer_user_to_vault t a.trade false q.swap_in_y l) _ e in
        let (l2, e2, k2) = >>=-eq-ok (transfer_vault_to_user t a.trade true q.swap_out_x l1) _ k1 in
        let (l3, e3, e4) = >>=-eq-ok (transfer_user_to_vault t a.trade true q.deposit_x l2) _ k2 in
        let sale =
          in_sequence t a.trade l l1 l2 (user_to_vault t law a.trade false q.swap_in_y l l1 d e1)
            (vault_to_user t law a.trade true q.swap_out_x l1 l2 d e2) in
        let both =
          in_sequence t a.trade l2 l3 l' (user_to_vault t law a.trade true q.deposit_x l2 l3 d e3)
            (user_to_vault t law a.trade false q.deposit_y l3 l' d e4) in
        cancel t a.trade l l' (omega (arith, z)) (omega (arith, z))
          (in_sequence t a.trade l l2 l' sale both)

  -- The legs of the quote were paid and its LP tokens were minted for the user.
  pub record Deposited (a : LpAccounts) (q : DepositQuote) (l l' : Ledger) : Type 0 where
    pub vault_x :
        balance l' a.vault_x + q.swap_out_x ≡ balance l a.vault_x + (q.swap_in_x + q.deposit_x)
    pub vault_y :
        balance l' a.vault_y + q.swap_out_y ≡ balance l a.vault_y + (q.swap_in_y + q.deposit_y)
    pub user_x :
        balance l' a.user_x + (q.swap_in_x + q.deposit_x) ≡ balance l a.user_x + q.swap_out_x
    pub user_y :
        balance l' a.user_y + (q.swap_in_y + q.deposit_y) ≡ balance l a.user_y + q.swap_out_y
    pub user_lp : balance l' a.user_lp ≡ balance l a.user_lp + q.lp_minted
    pub issued : supply l' a.mint_lp ≡ supply l a.mint_lp + q.lp_minted

  entry_done :
      (a : LpAccounts) (q : DepositQuote) (l m l' : Ledger)
      → AreLpDistinct a
      → Flow t a.trade
          (q.swap_in_x + q.deposit_x)
          q.swap_out_x
          (q.swap_in_y + q.deposit_y)
          q.swap_out_y
          l
          m
      → Minted t a.mint_lp a.user_lp q.lp_minted m l'
      → Deposited a q l l'
  entry_done a q l m l' d f b =
      let lp = f.others a.user_lp d.lp_vault_x d.lp_user_x d.lp_vault_y d.lp_user_y in
      record {
        vault_x = omega (arith, f.vault_x, b.others a.vault_x (λ p. d.lp_vault_x (sym p)));
        vault_y = omega (arith, f.vault_y, b.others a.vault_y (λ p. d.lp_vault_y (sym p)));
        user_x = omega (arith, f.user_x, b.others a.user_x (λ p. d.lp_user_x (sym p)));
        user_y = omega (arith, f.user_y, b.others a.user_y (λ p. d.lp_user_y (sym p)));
        user_lp = omega (arith, b.credited, lp);
        issued = omega (arith, b.raised, f.supplies a.mint_lp);
      }

  -- For a token program that moves, mints and burns as documented, and different token
  -- accounts, a successful deposit runs only in an unlocked pool and follows a quote for the
  -- balances and the LP supply at entry: user and vaults exchange its swap legs and its
  -- deposits, and its LP tokens are added to the account of the user and to the supply.
  pub deposit_settles :
      IsTokenProgram t
      → (a : LpAccounts) (x y : Option ℕ) (side : OperationSide) (min_lp : ℕ) (l l' : Ledger)
      → AreLpDistinct a
      → deposit t a x y side min_lp l ≡ ok l'
      → (a.config.locked ≡ false)
        × ((q : DepositQuote) × (Cpmm_deposit.deposit
                (pool_of t a.trade (supply l a.mint_lp) l)
                x
                y
                (to_side side)
                min_lp
              ≡ ok q)
            × Deposited a q l l')
  unfolding deposit mint_lp_tokens
  deposit_settles law a x y side min_lp l l' d e =
      let p = pool_of t a.trade (supply l a.mint_lp) l in
      let (_, e0, k0) = >>=-eq-ok (require (not a.config.locked) (custom pool_locked)) _ e in
      let (q, e1, k1) =
        >>=-eq-ok (quoted (Cpmm_deposit.deposit p x y (to_side side) min_lp)) _ k0 in
      let (m, e2, k2) = >>=-eq-ok (execute_deposit_transfers t a side q l) _ k1 in
      let priced =
        map_err-eq-ok (λ x. custom (from_cpmm x)) (Cpmm_deposit.deposit p x y (to_side side) min_lp)
          e1 in
      let flow =
        deposit_payments law a side q l m d.trading
          (deposit-AreUnused p x y (to_side side) min_lp q priced) e2 in
      let minted =
        law.mint_to_mints (lp_mint t a) q.lp_minted m l' (map_err-eq-ok program_error _ k2) in
      (
        ground (arith, require-eq-ok (not a.config.locked) (custom pool_locked) e0),
        (q, priced, entry_done a q l m l' d flow minted),
      )
