-- ===== src/Amm/Withdraw/Exit.antt =====
-- When a pro-rata withdrawal (programs/amm/src/instructions/withdraw.rs) succeeds.
use native.Mathlib.Nat
use native.Mathlib.Decide.{dec_lt}
use solana_instructions_intr.Prelude.Division.{div-mul-le}
use solana_instructions_intr.Prelude.{
  >>=-ok, ap, List, Bool, zero, suc, ◌*◌, ◌∙◌, ℕ, true, false, not, ◌+◌, ◌≤◌, ◌<◌, ◌≡◌, refl, sym,
  arith, ok, err, require, ◌>>=◌, ◌==◌, ◌||◌, if◌then◌else◌, IsU64, [],
}
use solana_instructions_intr.Solana.{Pubkey, custom}
use solana_instructions_intr.Solana.Token.{TokenOps, IsTokenProgram, IsServing}
use solana_instructions_intr.Cpmm.Types.{
  PoolState, IsWellTyped, WithdrawQuote, balanced, zero_balance, invalid_amount,
}
use solana_instructions_intr.Cpmm.Withdraw as Cpmm_withdraw
use solana_instructions_intr.Cpmm.Withdraw.Legs.{pro_rata}
use solana_instructions_intr.Cpmm.Withdraw.Fairness.{pro_rata-le}
use solana_instructions_intr.Cpmm.Withdraw.Exits.{pro_rata_quote}
use solana_instructions_intr.Cpmm.Withdraw.Outcome.{withdraw-withdraw_outcome, with_floors}
use solana_instructions_intr.Amm.Types.{
  quoted, pool_locked, op_balanced, config_signer, Handled, called,
}
use solana_instructions_intr.Amm.Accounts.{Swap, LpAccounts, AreLpDistinct}
use solana_instructions_intr.Amm.Transfers.{
  pool_of, vault_pays, transfer_vault_to_user, vault_of, account_of,
}
use solana_instructions_intr.Amm.Transfers.Flow.{vault_to_user}
use solana_instructions_intr.Amm.Withdraw.{
  withdraw, execute_withdraw_transfers, burn_lp_tokens, lp_burn,
}

-- Both shares of `dl` LP tokens are at least one unit and at least the floor of the user.
pub record Pays (p : PoolState) (dl min_x min_y : ℕ) : Type 0 where
  pub x_pos : 0 < pro_rata p.reserve_x dl p.lp_supply
  pub y_pos : 0 < pro_rata p.reserve_y dl p.lp_supply
  pub x_enough : min_x ≤ pro_rata p.reserve_x dl p.lp_supply
  pub y_enough : min_y ≤ pro_rata p.reserve_y dl p.lp_supply

pays_table :
    (dl l x y wx wy min_x min_y : ℕ) (q : WithdrawQuote)
    → (if dl == 0
        then err invalid_amount
        else if l == 0 || x == 0 || y == 0
        then err zero_balance
        else ((if wx == 0 || wy == 0 then err invalid_amount else ok (pro_rata_quote wx wy))
            >>= with_floors min_x min_y))
      ≡ ok q
    → (0 < wx) × (0 < wy) × (min_x ≤ wx) × (min_y ≤ wy)
pays_table dl l x y wx wy min_x min_y q e = ground arith

paying_table :
    (dl l x y wx wy min_x min_y : ℕ)
    → 0 < dl
    → 0 < l
    → 0 < x
    → 0 < y
    → 0 < wx
    → 0 < wy
    → min_x ≤ wx
    → min_y ≤ wy
    → (if dl == 0
        then err invalid_amount
        else if l == 0 || x == 0 || y == 0
        then err zero_balance
        else ((if wx == 0 || wy == 0 then err invalid_amount else ok (pro_rata_quote wx wy))
            >>= with_floors min_x min_y))
      ≡ ok (pro_rata_quote wx wy)
paying_table dl l x y wx wy min_x min_y hd hl hx hy px py mx my = ground arith

share_factors : (r dl : ℕ) → 0 < r * dl → 0 < r
share_factors zero dl h = absurd (omega arith)
share_factors (suc r) dl h = omega arith

share_factor : (r dl : ℕ) → 0 < r * dl → 0 < dl
share_factor r zero h = absurd (omega arith)
share_factor r (suc dl) h = omega arith

-- A positive share is one of a positive reserve, with LP tokens given back.
share_pos : (r dl l : ℕ) → dl ≤ l → 0 < pro_rata r dl l → (0 < r) × (0 < dl) × (0 < l)
share_pos r dl l h pos = elim (dec_lt 0 l) [
  | yes hl ↦
      let some_lp : 0 < r * dl = omega (arith, Nat.mul-le-mul pos hl, div-mul-le (r * dl) l) in
      (share_factors r dl some_lp, share_factor r dl some_lp, hl)
  | no hl ↦
      let none_left : l ≡ 0 = omega arith in
      absurd (omega (arith, rw (none_left, Nat.div-zero) at pos))
]

pub priced-Pays :
    (p : PoolState) (dl min_x min_y : ℕ) (q : WithdrawQuote)
    → IsWellTyped p
    → dl ≤ p.lp_supply
    → Cpmm_withdraw.withdraw p dl balanced min_x min_y ≡ ok q
    → Pays p dl min_x min_y
priced-Pays p dl min_x min_y q w h e =
    let l = p.lp_supply in
    let (px, py, mx, my) =
      pays_table dl l p.reserve_x p.reserve_y (pro_rata p.reserve_x dl l)
        (pro_rata p.reserve_y dl l) min_x min_y q
        (sym (withdraw-withdraw_outcome p dl balanced min_x min_y w h) ∙ e) in
    record { x_pos = px; y_pos = py; x_enough = mx; y_enough = my }

pub Pays-withdraw :
    (p : PoolState) (dl min_x min_y : ℕ)
    → IsWellTyped p
    → dl ≤ p.lp_supply
    → Pays p dl min_x min_y
    → Cpmm_withdraw.withdraw p dl balanced min_x min_y
      ≡ ok (
          pro_rata_quote
            (pro_rata p.reserve_x dl p.lp_supply)
            (pro_rata p.reserve_y dl p.lp_supply))
Pays-withdraw p dl min_x min_y w h pays =
    let l = p.lp_supply in
    let (hx, hd, hl) = share_pos p.reserve_x dl l h pays.x_pos in
    let (hy, _, _) = share_pos p.reserve_y dl l h pays.y_pos in
    withdraw-withdraw_outcome p dl balanced min_x min_y w h
    ∙ paying_table dl l p.reserve_x p.reserve_y (pro_rata p.reserve_x dl l)
        (pro_rata p.reserve_y dl l) min_x min_y hd hl hx hy pays.x_pos pays.y_pos pays.x_enough
        pays.y_enough

module _ (t : TokenOps) (may : Pubkey → Pubkey → List (List ℕ) → Type 0) where
  open t use {Ledger, balance, supply}

  -- The config signs for the vaults and the user for the LP account, and the sums of the two token
  -- accounts of each side are u64 values.
  pub record CanExit (a : LpAccounts) (l : Ledger) : Type 0 where
    pub spends_x : may a.vault_x a.config_key (config_signer a.config)
    pub spends_y : may a.vault_y a.config_key (config_signer a.config)
    pub spends_lp : may a.user_lp a.user []
    pub room_x : IsU64 (balance l a.user_x + balance l a.vault_x)
    pub room_y : IsU64 (balance l a.user_y + balance l a.vault_y)

module _ (t : TokenOps) (law : IsTokenProgram t) (may : Pubkey → Pubkey → List (List ℕ) → Type 0)
    (serves : IsServing t may) where
  open t use {Ledger, balance, supply}

  nonzero : (n : ℕ) (l : Ledger) (r : Handled Ledger) → 0 < n → (if n == 0 then ok l else r) ≡ r
  nonzero n l r h = ground arith

  payment_runs :
      (a : Swap) (is_x : Bool) (n : ℕ) (l : Ledger)
      → 0 < n
      → may (vault_of a is_x) a.config_key (config_signer a.config)
      → n ≤ balance l (vault_of a is_x)
      → IsU64 (balance l (account_of a is_x) + n)
      → (l' : Ledger) × (transfer_vault_to_user t a is_x n l ≡ ok l')
  unfolding transfer_vault_to_user
  payment_runs a is_x n l h signs there room =
      let (l', ran) = serves.transfer_runs (vault_pays t a is_x) n l signs there room in
      (l', nonzero n l (called (t.transfer (vault_pays t a is_x) n l)) h ∙ ap called ran)

  -- The payments of a pro-rata quote and the burn.
  exit_runs :
      (a : LpAccounts) (dl wx wy : ℕ) (l : Ledger)
      → AreLpDistinct a
      → CanExit t may a l
      → 0 < wx
      → 0 < wy
      → wx ≤ balance l a.vault_x
      → wy ≤ balance l a.vault_y
      → dl ≤ balance l a.user_lp
      → dl ≤ supply l a.mint_lp
      → (l' : Ledger) × ((execute_withdraw_transfers t a.trade op_balanced (pro_rata_quote wx wy) l
            >>= burn_lp_tokens t a dl)
          ≡ ok l')
  unfolding execute_withdraw_transfers burn_lp_tokens
  exit_runs a dl wx wy l d can px py cx cy held issued =
      let (l1, e1) =
        payment_runs a.trade true wx l px can.spends_x cx (omega (arith, can.room_x)) in
      let f1 = vault_to_user t law a.trade true wx l l1 d.trading e1 in
      let (l2, e2) =
        payment_runs a.trade false wy l1 py can.spends_y (omega (arith, f1.vault_y))
          (omega (arith, can.room_y, f1.user_y)) in
      let f2 = vault_to_user t law a.trade false wy l1 l2 d.trading e2 in
      let lp1 = f1.others a.user_lp d.lp_vault_x d.lp_user_x d.lp_vault_y d.lp_user_y in
      let lp2 = f2.others a.user_lp d.lp_vault_x d.lp_user_x d.lp_vault_y d.lp_user_y in
      let (l3, e3) =
        serves.burn_runs (lp_burn a.mint_lp a.user_lp a.user) dl l2 can.spends_lp
          (omega (arith, held, lp1, lp2))
          (omega (arith, issued, f1.supplies a.mint_lp, f2.supplies a.mint_lp)) in
      (l3, rw (e1, e2, e3) refl)

  -- With these rights, enough LP tokens and shares that pay, the handler succeeds.
  pub withdraw_runs :
      (a : LpAccounts) (dl min_x min_y : ℕ) (l : Ledger)
      → a.config.locked ≡ false
      → AreLpDistinct a
      → IsWellTyped (pool_of t a.trade (supply l a.mint_lp) l)
      → CanExit t may a l
      → dl ≤ balance l a.user_lp
      → dl ≤ supply l a.mint_lp
      → Pays (pool_of t a.trade (supply l a.mint_lp) l) dl min_x min_y
      → (l' : Ledger) × (withdraw t a dl op_balanced min_x min_y l ≡ ok l')
  unfolding withdraw
  withdraw_runs a dl min_x min_y l open_pool d w can held issued pays =
      let p = pool_of t a.trade (supply l a.mint_lp) l in
      let s = supply l a.mint_lp in
      let hl = (share_pos p.reserve_x dl s issued pays.x_pos).2 in
      let (l', ran) =
        exit_runs a dl (pro_rata p.reserve_x dl s) (pro_rata p.reserve_y dl s) l d can pays.x_pos
          pays.y_pos (pro_rata-le p.reserve_x dl s hl issued)
          (pro_rata-le p.reserve_y dl s hl issued) held issued in
      let priced = Pays-withdraw p dl min_x min_y w issued pays in
      (
        l',
        >>=-ok (require (not a.config.locked) (custom pool_locked)) _ tt
            (ap (λ b. require (not b) (custom pool_locked)) open_pool)
            (>>=-ok (quoted (Cpmm_withdraw.withdraw p dl balanced min_x min_y)) _
              (pro_rata_quote (pro_rata p.reserve_x dl s) (pro_rata p.reserve_y dl s))
              (ap (λ r. quoted r) priced) ran),
      )
