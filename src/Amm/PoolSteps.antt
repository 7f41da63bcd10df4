-- ===== src/Amm/PoolSteps.antt =====
-- The executions of the handlers under programs/amm/src/instructions as steps of the pool that
-- crates/cpmm/src/lib.rs quotes for.
use solana_instructions_intr.Amm.Program.{
  Call, initialize, deposit, withdraw_w_introspection, withdraw, swap, update_config,
  burn_lp_tokens,
}
use solana_instructions_intr.Amm.Introspection as Amm_introspection
use solana_instructions_intr.Amm.Introspection.Settlement.{introspected-confirmed, claim_pays}
use solana_instructions_intr.Amm.Introspection.{Introspected}
use solana_instructions_intr.Prelude.{ℕ, ◌+◌, ◌-◌, ◌≤◌, ◌≡◌, subst, arith, Option, ok}
use solana_instructions_intr.Solana.Token.{TokenOps, IsTokenProgram}
use solana_instructions_intr.Cpmm.Types.{
  balanced, PoolState, IsWellTyped, SwapQuote, DepositQuote, WithdrawQuote,
}
use solana_instructions_intr.Cpmm.Swap as Cpmm_swap
use solana_instructions_intr.Cpmm.Swap.Product.{after_swap}
use solana_instructions_intr.Cpmm.Deposit as Cpmm_deposit
use solana_instructions_intr.Cpmm.Withdraw as Cpmm_withdraw
use solana_instructions_intr.Cpmm.Withdraw.Fairness.{after_withdraw}
use solana_instructions_intr.Amm.Types.{OperationSide, op_x, op_y, op_balanced, to_side}
use solana_instructions_intr.Amm.Accounts.{Swap, LpAccounts, AreDistinct, AreLpDistinct}
use solana_instructions_intr.Amm.Transfers.{pool_of}
use solana_instructions_intr.Amm.Swap as Amm_swap
use solana_instructions_intr.Amm.Swap.Settlement.{Exchanged, swap-Steps, exchange}
use solana_instructions_intr.Amm.Deposit.Settlement.{deposit_settles}
use solana_instructions_intr.Amm.Deposit as Amm_deposit
use solana_instructions_intr.Amm.Withdraw as Amm_withdraw
use solana_instructions_intr.Amm.Withdraw.Settlement.{withdraw_settles}

-- The pool after a deposit with its swap leg.
abbrev pub entered : PoolState → DepositQuote → PoolState
entered p q = record p {
  reserve_x = p.reserve_x + (q.swap_in_x + q.deposit_x) - q.swap_out_x;
  reserve_y = p.reserve_y + (q.swap_in_y + q.deposit_y) - q.swap_out_y;
  lp_supply = p.lp_supply + q.lp_minted;
}

-- The pool with the burned LP tokens counted again.
abbrev pub counted : PoolState → ℕ → PoolState
counted p dl = record p { lp_supply = p.lp_supply + dl }

-- What a call promises of the pool by the crate's quotes: the crate answers a quote for the call's own
-- arguments, and the next pool is the old one with that quote carried out. A withdrawal with
-- introspection confirms its burn, and counts the claimed LP tokens again; a burn lowers the supply by
-- its amount.
abbrev pub PoolStep : Introspected → LpAccounts → Call → PoolState → PoolState → Type 0
PoolStep s a (swap amount side min_out) p p' =
    (q : SwapQuote) × (Cpmm_swap.swap p amount (to_side side) min_out ≡ ok q)
    × (p' ≡ after_swap p (to_side side) q)
PoolStep s a (deposit x y side min_lp) p p' =
    (q : DepositQuote) × (Cpmm_deposit.deposit p x y (to_side side) min_lp ≡ ok q)
    × (p' ≡ entered p q)
PoolStep s a (withdraw dl side min_x min_y) p p' =
    (q : WithdrawQuote) × (Cpmm_withdraw.withdraw p dl (to_side side) min_x min_y ≡ ok q)
    × (p' ≡ after_withdraw p dl q)
PoolStep s a (withdraw_w_introspection dl side min_x min_y) p p' =
    (Amm_introspection.confirm_burn s a dl ≡ ok tt)
    × ((q : WithdrawQuote) × (Cpmm_withdraw.withdraw (counted p dl) dl (to_side side) min_x min_y
          ≡ ok q)
        × (p' ≡ after_withdraw (counted p dl) dl q))
PoolStep s a (burn_lp_tokens n) p p' =
    (n ≤ p.lp_supply) × (p' ≡ record p { lp_supply = p.lp_supply - n })
PoolStep s a (initialize config_bump lp_bump seed fee authority) p p' = ⊥
PoolStep s a (update_config seed fee authority locked) p p' = ⊥

pub same_pools :
    {x x' y y' l l' fee : ℕ}
    → x ≡ x'
    → y ≡ y'
    → l ≡ l'
    → ◌≡◌ {A = PoolState}
        (record { reserve_x = x; reserve_y = y; lp_supply = l; fee_bps = fee })
        (record { reserve_x = x'; reserve_y = y'; lp_supply = l'; fee_bps = fee })
same_pools ex ey el = cc

one_sided :
    (p : PoolState) (a min_out : ℕ) (q : SwapQuote) → Cpmm_swap.swap p a balanced min_out ≡ ok q → ⊥
unfolding Cpmm_swap.swap
one_sided p a min_out q e = ground arith

pub moved_step :
    (s : Introspected) (a : LpAccounts) (c : Call) {p p' q q' : PoolState}
    → p ≡ q
    → p' ≡ q'
    → PoolStep s a c p p'
    → PoolStep s a c q q'
moved_step s a c {p} {p'} {q} {q'} e f h =
    subst (λ (z : PoolState). PoolStep s a c z q') e
      (subst (λ (z : PoolState). PoolStep s a c p z) f h)

module _ (t : TokenOps) where
  open t use {Ledger, balance, supply}

  abbrev pub here : Swap → Ledger → PoolState
  here a l = pool_of t a (supply l a.mint_lp) l

  after_swap-lem :
      (a : Swap) (side : OperationSide) (min_out amount : ℕ) (q : SwapQuote) (l l' : Ledger)
      → Cpmm_swap.swap (here a l) amount (to_side side) min_out ≡ ok q
      → Exchanged t a (Amm_swap.is_x_side side) q.amount_in q.amount_out l l'
      → here a l' ≡ after_swap (here a l) (to_side side) q
  after_swap-lem a op_x min_out amount q l l' e x =
      same_pools x.vault_in x.vault_out (x.supplies a.mint_lp)
  after_swap-lem a op_y min_out amount q l l' e x =
      same_pools x.vault_out x.vault_in (x.supplies a.mint_lp)
  after_swap-lem a op_balanced min_out amount q l l' e x =
      absurd (one_sided (here a l) amount min_out q e)

  module _ (law : IsTokenProgram t) (s : Introspected) where
    pub swap-PoolStep :
        (b : LpAccounts) (a : Swap) (amount : ℕ) (side : OperationSide) (min_out : ℕ)
        (l l' : Ledger)
        → AreDistinct a
        → Amm_swap.swap t a amount side min_out l ≡ ok l'
        → PoolStep s b (swap amount side min_out) (here a l) (here a l')
    swap-PoolStep b a amount side min_out l l' d e =
        let s = swap-Steps t a amount side min_out l l' e in
        (
          s.quote,
          s.priced,
          after_swap-lem a side min_out amount s.quote l l' s.priced (
              exchange t law a (Amm_swap.is_x_side side) s.quote.amount_in s.quote.amount_out l
                s.between l' d s.paid_in s.paid_out),
        )

    pub deposit-PoolStep :
        (a : LpAccounts) (x y : Option ℕ) (side : OperationSide) (min_lp : ℕ) (l l' : Ledger)
        → AreLpDistinct a
        → Amm_deposit.deposit t a x y side min_lp l ≡ ok l'
        → PoolStep s a (deposit x y side min_lp) (here a.trade l) (here a.trade l')
    deposit-PoolStep a x y side min_lp l l' d e =
        let (_, (q, priced, done)) = deposit_settles t law a x y side min_lp l l' d e in
        (
          q,
          priced,
          same_pools (omega (arith, done.vault_x)) (omega (arith, done.vault_y)) done.issued,
        )

    pub withdraw-PoolStep :
        (a : LpAccounts) (dl : ℕ) (side : OperationSide) (min_x min_y : ℕ) (l l' : Ledger)
        → AreLpDistinct a
        → IsWellTyped (here a.trade l)
        → Amm_withdraw.withdraw t a dl side min_x min_y l ≡ ok l'
        → PoolStep s a (withdraw dl side min_x min_y) (here a.trade l) (here a.trade l')
    withdraw-PoolStep a dl side min_x min_y l l' d w e =
        let (_, (q, priced, done)) = withdraw_settles t law a dl side min_x min_y l l' d w e in
        (
          q,
          priced,
          same_pools (omega (arith, done.vault_x)) (omega (arith, done.vault_y))
              (omega (arith, done.issued)),
        )

    pub claim-PoolStep :
        (a : LpAccounts) (dl : ℕ) (side : OperationSide) (min_x min_y : ℕ) (l l' : Ledger)
        → AreLpDistinct a
        → IsWellTyped (here a.trade l)
        → Amm_introspection.withdraw_w_introspection t s a dl side min_x min_y l ≡ ok l'
        → PoolStep s a
            (withdraw_w_introspection dl side min_x min_y)
            (here a.trade l)
            (here a.trade l')
    claim-PoolStep a dl side min_x min_y l l' d w e =
        let (q, priced, flow) = claim_pays t law s a dl side min_x min_y l l' d w e in
        (
          introspected-confirmed t s a dl side min_x min_y l l' e,
          (
            q,
            priced,
            same_pools (omega (arith, flow.vault_x)) (omega (arith, flow.vault_y))
                (omega (arith, flow.supplies a.mint_lp)),
          ),
        )
