-- ===== src/Amm/Withdraw/Payments.antt =====
-- What `execute_withdraw_transfers` of programs/amm/src/instructions/withdraw.rs pays.
use solana_instructions_intr.Prelude.{ℕ, ◌+◌, ◌≡◌, arith, true, false, ok, >>=-eq-ok}
use solana_instructions_intr.Solana.Token.{TokenOps, IsTokenProgram}
use solana_instructions_intr.Cpmm.Types.{PoolState, IsWellTyped, WithdrawQuote}
use solana_instructions_intr.Cpmm.Withdraw as Cpmm_withdraw
use solana_instructions_intr.Cpmm.Withdraw.{withdraw_on}
use solana_instructions_intr.Cpmm.Withdraw.Fairness.{withdraw-Passed}
use solana_instructions_intr.Cpmm.Withdraw.Legs.{withdraw_single_x-ExitX, withdraw_single_y-ExitY}
use solana_instructions_intr.Amm.Types.{OperationSide, op_x, op_y, op_balanced, to_side}
use solana_instructions_intr.Amm.Accounts.{Swap, AreDistinct}
use solana_instructions_intr.Amm.Transfers.{transfer_user_to_vault, transfer_vault_to_user}
use solana_instructions_intr.Amm.Transfers.Flow.{
  Flow, in_sequence, cancel, user_to_vault, vault_to_user,
}
use solana_instructions_intr.Amm.Withdraw.{single_sided_transfers, execute_withdraw_transfers}

module _ (t : TokenOps) (law : IsTokenProgram t) where
  open t use {Ledger}

  balanced_payments :
      (a : Swap) (q : WithdrawQuote) (l l' : Ledger)
      → AreDistinct a
      → execute_withdraw_transfers t a op_balanced q l ≡ ok l'
      → Flow t a 0 q.withdraw_x 0 q.withdraw_y l l'
  unfolding execute_withdraw_transfers
  balanced_payments a q l l' d e =
      let (l1, e1, e2) = >>=-eq-ok (transfer_vault_to_user t a true q.withdraw_x l) _ e in
      cancel t a l l' (omega arith) (omega arith) (
        in_sequence t a l l1 l' (vault_to_user t law a true q.withdraw_x l l1 d e1)
          (vault_to_user t law a false q.withdraw_y l1 l' d e2))

  single_payments :
      (a : Swap) (q : WithdrawQuote) (l l' : Ledger)
      → AreDistinct a
      → single_sided_transfers t a q l ≡ ok l'
      → Flow t a q.swap_in_x
          (q.pro_rata_x + q.swap_out_x)
          q.swap_in_y
          (q.pro_rata_y + q.swap_out_y)
          l
          l'
  unfolding single_sided_transfers
  single_payments a q l l' d e =
      let (l1, e1, k1) = >>=-eq-ok (transfer_vault_to_user t a true q.pro_rata_x l) _ e in
      let (l2, e2, k2) = >>=-eq-ok (transfer_vault_to_user t a false q.pro_rata_y l1) _ k1 in
      let (l3, e3, k3) = >>=-eq-ok (transfer_user_to_vault t a true q.swap_in_x l2) _ k2 in
      let (l4, e4, k4) = >>=-eq-ok (transfer_user_to_vault t a false q.swap_in_y l3) _ k3 in
      let (l5, e5, e6) = >>=-eq-ok (transfer_vault_to_user t a true q.swap_out_x l4) _ k4 in
      let f1 = vault_to_user t law a true q.pro_rata_x l l1 d e1 in
      let f2 = vault_to_user t law a false q.pro_rata_y l1 l2 d e2 in
      let f3 = user_to_vault t law a true q.swap_in_x l2 l3 d e3 in
      let f4 = user_to_vault t law a false q.swap_in_y l3 l4 d e4 in
      let f5 = vault_to_user t law a true q.swap_out_x l4 l5 d e5 in
      let f6 = vault_to_user t law a false q.swap_out_y l5 l' d e6 in
      let shares = in_sequence t a l l1 l2 f1 f2 in
      let sold = in_sequence t a l2 l3 l4 f3 f4 in
      let bought = in_sequence t a l4 l5 l' f5 f6 in
      cancel t a l l' (omega arith) (omega arith)
        (in_sequence t a l l4 l' (in_sequence t a l l2 l4 shares sold) bought)

  -- The transfers of a quote leave the user with the amounts that it names, on every side.
  pub withdraw_payments :
      (a : Swap) (p : PoolState) (dl : ℕ) (side : OperationSide) (min_x min_y : ℕ)
      (q : WithdrawQuote) (l l' : Ledger)
      → AreDistinct a
      → IsWellTyped p
      → Cpmm_withdraw.withdraw p dl (to_side side) min_x min_y ≡ ok q
      → execute_withdraw_transfers t a side q l ≡ ok l'
      → Flow t a 0 q.withdraw_x 0 q.withdraw_y l l'
  unfolding execute_withdraw_transfers
  withdraw_payments a p dl op_balanced min_x min_y q l l' d w e x = balanced_payments a q l l' d x
  withdraw_payments a p dl op_x min_x min_y q l l' d w e x =
      let f =
        withdraw_single_x-ExitX p dl q w
          (withdraw-Passed p dl (to_side op_x) min_x min_y q e).quoted in
      cancel t a l l' (omega (arith, f.got_x, f.unused))
        (omega (arith, f.got_y, f.sold_y, f.unused)) (single_payments a q l l' d x)
  withdraw_payments a p dl op_y min_x min_y q l l' d w e x =
      let f =
        withdraw_single_y-ExitY p dl q w
          (withdraw-Passed p dl (to_side op_y) min_x min_y q e).quoted in
      cancel t a l l' (omega (arith, f.got_x, f.sold_x, f.unused))
        (omega (arith, f.got_y, f.unused)) (single_payments a q l l' d x)
