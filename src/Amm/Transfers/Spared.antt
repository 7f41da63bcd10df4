-- ===== src/Amm/Transfers/Spared.antt =====
-- The accounts and mints that the handlers under programs/amm/src/instructions leave alone.
use solana_instructions_intr.Prelude.{
  ℕ, ◌≡◌, ◌≢◌, sym, ap, ◌∙◌, Bool, true, false, ok, inl, inr, >>=-eq-ok,
}
use solana_instructions_intr.Solana.{Pubkey}
use solana_instructions_intr.Solana.Token.{TokenOps, IsTokenProgram}
use solana_instructions_intr.Cpmm.Types.{DepositQuote, WithdrawQuote}
use solana_instructions_intr.Amm.Types.{OperationSide, op_x, op_y, op_balanced}
use solana_instructions_intr.Amm.Accounts.{Swap, LpAccounts}
use solana_instructions_intr.Amm.Transfers.{
  user_pays, vault_pays, transfer_user_to_vault, transfer_vault_to_user,
}
use solana_instructions_intr.Amm.Transfers.Flow.{skipped}
use solana_instructions_intr.Amm.Swap.Settlement.{swap-Steps}
use solana_instructions_intr.Amm.Swap as Amm_swap
use solana_instructions_intr.Amm.Deposit.{execute_deposit_transfers}
use solana_instructions_intr.Amm.Withdraw.{execute_withdraw_transfers, single_sided_transfers}

-- An account that is none of the four of a trade, whose vaults are not the user's accounts.
pub record IsOutside (a : Swap) (j : Pubkey) : Type 0 where
  pub vault_x : j ≢ a.vault_x
  pub vault_y : j ≢ a.vault_y
  pub user_x : j ≢ a.user_x
  pub user_y : j ≢ a.user_y
  pub x_sides : a.vault_x ≢ a.user_x
  pub y_sides : a.vault_y ≢ a.user_y

module _ (t : TokenOps) (j m : Pubkey) where
  open t use {Ledger, balance, supply}

  -- The balance at `j` and the supply of `m` are as before.
  abbrev pub Spared : Ledger → Ledger → Type 0
  Spared l l' = (balance l' j ≡ balance l j) × (supply l' m ≡ supply l m)

  pub Spared-chain : (l n l' : Ledger) → Spared l n → Spared n l' → Spared l l'
  Spared-chain l n l' p q = (q.0 ∙ p.0, q.1 ∙ p.1)

  unmoved : (l l' : Ledger) → l ≡ l' → Spared l l'
  unmoved l l' e = (ap (λ x. balance x j) (sym e), ap (λ x. supply x m) (sym e))

  module _ (law : IsTokenProgram t) (a : Swap) (o : IsOutside a j) where
    paid_in-Spared :
        (is_x : Bool) (n : ℕ) (l l' : Ledger)
        → t.transfer (user_pays t a is_x) n l ≡ ok l'
        → Spared l l'
    paid_in-Spared true n l l' e =
        let it = law.transfer_moves (user_pays t a true) n l l' (λ p. o.x_sides (sym p)) e in
        (it.others j o.user_x o.vault_x, it.supplies m)
    paid_in-Spared false n l l' e =
        let it = law.transfer_moves (user_pays t a false) n l l' (λ p. o.y_sides (sym p)) e in
        (it.others j o.user_y o.vault_y, it.supplies m)

    paid_out-Spared :
        (is_x : Bool) (n : ℕ) (l l' : Ledger)
        → t.transfer (vault_pays t a is_x) n l ≡ ok l'
        → Spared l l'
    paid_out-Spared true n l l' e =
        let it = law.transfer_moves (vault_pays t a true) n l l' o.x_sides e in
        (it.others j o.vault_x o.user_x, it.supplies m)
    paid_out-Spared false n l l' e =
        let it = law.transfer_moves (vault_pays t a false) n l l' o.y_sides e in
        (it.others j o.vault_y o.user_y, it.supplies m)

    to_vault-Spared :
        (is_x : Bool) (n : ℕ) (l l' : Ledger)
        → transfer_user_to_vault t a is_x n l ≡ ok l'
        → Spared l l'
    unfolding transfer_user_to_vault
    to_vault-Spared is_x n l l' e =
        elim (skipped t n (t.transfer (user_pays t a is_x) n l) l l' e) [
          | inl z ↦ unmoved l l' z.1
          | inr s ↦ paid_in-Spared is_x n l l' s
        ]

    to_user-Spared :
        (is_x : Bool) (n : ℕ) (l l' : Ledger)
        → transfer_vault_to_user t a is_x n l ≡ ok l'
        → Spared l l'
    unfolding transfer_vault_to_user
    to_user-Spared is_x n l l' e =
        elim (skipped t n (t.transfer (vault_pays t a is_x) n l) l l' e) [
          | inl z ↦ unmoved l l' z.1
          | inr s ↦ paid_out-Spared is_x n l l' s
        ]

    pub swap-Spared :
        (amount : ℕ) (side : OperationSide) (min_out : ℕ) (l l' : Ledger)
        → Amm_swap.swap t a amount side min_out l ≡ ok l'
        → Spared l l'
    swap-Spared amount side min_out l l' e =
        let s = swap-Steps t a amount side min_out l l' e in
        Spared-chain l s.between l' (paid_in-Spared _ s.quote.amount_in l s.between s.paid_in)
          (paid_out-Spared _ s.quote.amount_out s.between l' s.paid_out)

    single_sided-Spared :
        (q : WithdrawQuote) (l l' : Ledger) → single_sided_transfers t a q l ≡ ok l' → Spared l l'
    unfolding single_sided_transfers
    single_sided-Spared q l l' e =
        let (l1, e1, k1) = >>=-eq-ok (transfer_vault_to_user t a true q.pro_rata_x l) _ e in
        let (l2, e2, k2) = >>=-eq-ok (transfer_vault_to_user t a false q.pro_rata_y l1) _ k1 in
        let (l3, e3, k3) = >>=-eq-ok (transfer_user_to_vault t a true q.swap_in_x l2) _ k2 in
        let (l4, e4, k4) = >>=-eq-ok (transfer_user_to_vault t a false q.swap_in_y l3) _ k3 in
        let (l5, e5, k5) = >>=-eq-ok (transfer_vault_to_user t a true q.swap_out_x l4) _ k4 in
        Spared-chain l l1 l' (to_user-Spared true _ l l1 e1) (
          Spared-chain l1 l2 l' (to_user-Spared false _ l1 l2 e2) (
            Spared-chain l2 l3 l' (to_vault-Spared true _ l2 l3 e3) (
              Spared-chain l3 l4 l' (to_vault-Spared false _ l3 l4 e4) (
                Spared-chain l4 l5 l' (to_user-Spared true _ l4 l5 e5)
                  (to_user-Spared false _ l5 l' k5)))))

    pub payout-Spared :
        (side : OperationSide) (q : WithdrawQuote) (l l' : Ledger)
        → execute_withdraw_transfers t a side q l ≡ ok l'
        → Spared l l'
    unfolding execute_withdraw_transfers
    payout-Spared op_balanced q l l' e =
        let (l1, e1, k1) = >>=-eq-ok (transfer_vault_to_user t a true q.withdraw_x l) _ e in
        Spared-chain l l1 l' (to_user-Spared true _ l l1 e1) (to_user-Spared false _ l1 l' k1)
    payout-Spared op_x q l l' e = single_sided-Spared q l l' e
    payout-Spared op_y q l l' e = single_sided-Spared q l l' e

  module _ (law : IsTokenProgram t) (a : LpAccounts) (o : IsOutside a.trade j) where
    pub payin-Spared :
        (side : OperationSide) (q : DepositQuote) (l l' : Ledger)
        → execute_deposit_transfers t a side q l ≡ ok l'
        → Spared l l'
    unfolding execute_deposit_transfers
    payin-Spared op_balanced q l l' e =
        let b = a.trade in
        let (l1, e1, k1) = >>=-eq-ok (transfer_user_to_vault t b true q.deposit_x l) _ e in
        Spared-chain l l1 l' (to_vault-Spared law b o true _ l l1 e1)
          (to_vault-Spared law b o false _ l1 l' k1)
    payin-Spared op_x q l l' e =
        let b = a.trade in
        let (l1, e1, k1) = >>=-eq-ok (transfer_user_to_vault t b true q.swap_in_x l) _ e in
        let (l2, e2, k2) = >>=-eq-ok (transfer_vault_to_user t b false q.swap_out_y l1) _ k1 in
        let (l3, e3, k3) = >>=-eq-ok (transfer_user_to_vault t b true q.deposit_x l2) _ k2 in
        Spared-chain l l1 l' (to_vault-Spared law b o true _ l l1 e1) (
          Spared-chain l1 l2 l' (to_user-Spared law b o false _ l1 l2 e2) (
            Spared-chain l2 l3 l' (to_vault-Spared law b o true _ l2 l3 e3)
              (to_vault-Spared law b o false _ l3 l' k3)))
    payin-Spared op_y q l l' e =
        let b = a.trade in
        let (l1, e1, k1) = >>=-eq-ok (transfer_user_to_vault t b false q.swap_in_y l) _ e in
        let (l2, e2, k2) = >>=-eq-ok (transfer_vault_to_user t b true q.swap_out_x l1) _ k1 in
        let (l3, e3, k3) = >>=-eq-ok (transfer_user_to_vault t b true q.deposit_x l2) _ k2 in
        Spared-chain l l1 l' (to_vault-Spared law b o false _ l l1 e1) (
          Spared-chain l1 l2 l' (to_user-Spared law b o true _ l1 l2 e2) (
            Spared-chain l2 l3 l' (to_vault-Spared law b o true _ l2 l3 e3)
              (to_vault-Spared law b o false _ l3 l' k3)))
