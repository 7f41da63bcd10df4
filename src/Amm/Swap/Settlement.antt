-- ===== src/Amm/Swap/Settlement.antt =====
-- What a successful swap instruction (programs/amm/src/instructions/swap.rs) does to the ledger.
use solana_instructions_intr.Prelude.{
  ℕ, ◌+◌, ◌-◌, ◌*◌, ◌≤◌, ◌<◌, ◌≡◌, sym, ◌∙◌, arith, Bool, true, false, not, ok, require, IsU64,
  >>=-eq-ok, map_err-eq-ok, require-eq-ok,
}
use solana_instructions_intr.Solana.{Pubkey, custom, program_error}
use solana_instructions_intr.Solana.Token.{TokenOps, IsTokenProgram}
use solana_instructions_intr.Cpmm.Types.{IsWellTyped, SwapQuote, side_x, side_y, balanced}
use solana_instructions_intr.Cpmm.Swap.Product.{swap-product, swap_facts}
use solana_instructions_intr.Cpmm.Swap as Cpmm_swap
use solana_instructions_intr.Amm.Types.{
  OperationSide, op_x, op_y, op_balanced, to_side, quoted, from_cpmm, pool_locked,
}
use solana_instructions_intr.Amm.Accounts.{Swap, AreDistinct}
use solana_instructions_intr.Amm.Transfers.{pool_of, user_pays, vault_pays, vault_of, account_of}
use solana_instructions_intr.Amm.Swap.{is_x_side, swap, deposit_tokens, withdraw_tokens}

module _ (t : TokenOps) where
  open t use {Ledger, balance, supply}

  -- An exchange of `paid` tokens of the side `is_x` for `received` of the other.
  pub record Exchanged (a : Swap) (is_x : Bool) (paid received : ℕ) (l l' : Ledger) : Type 0 where
    pub affordable : paid ≤ balance l (account_of a is_x)
    pub user_in : balance l' (account_of a is_x) ≡ balance l (account_of a is_x) - paid
    pub vault_in : balance l' (vault_of a is_x) ≡ balance l (vault_of a is_x) + paid
    pub available : received ≤ balance l (vault_of a (not is_x))
    pub vault_out :
        balance l' (vault_of a (not is_x)) ≡ balance l (vault_of a (not is_x)) - received
    pub user_out :
        balance l' (account_of a (not is_x)) ≡ balance l (account_of a (not is_x)) + received
    pub supplies : (m : Pubkey) → supply l' m ≡ supply l m

  pub record Steps (a : Swap) (amount : ℕ) (side : OperationSide) (min_out : ℕ) (l l' : Ledger)
      : Type 0 where
    pub quote : SwapQuote
    pub between : Ledger
    pub unlocked : a.config.locked ≡ false
    pub priced :
        Cpmm_swap.swap (pool_of t a (supply l a.mint_lp) l) amount (to_side side) min_out ≡ ok quote
    pub paid_in : t.transfer (user_pays t a (is_x_side side)) quote.amount_in l ≡ ok between
    pub paid_out :
        t.transfer (vault_pays t a (not (is_x_side side))) quote.amount_out between ≡ ok l'

  pub swap-Steps :
      (a : Swap) (amount : ℕ) (side : OperationSide) (min_out : ℕ) (l l' : Ledger)
      → swap t a amount side min_out l ≡ ok l'
      → Steps a amount side min_out l l'
  unfolding swap deposit_tokens withdraw_tokens
  swap-Steps a amount side min_out l l' e =
      let (u, e0, k0) = >>=-eq-ok (require (not a.config.locked) (custom pool_locked)) _ e in
      let (q, e1, k1) =
        >>=-eq-ok
          (quoted
            (Cpmm_swap.swap (pool_of t a (supply l a.mint_lp) l) amount (to_side side) min_out))
          _ k0 in
      let (l1, e2, k2) = >>=-eq-ok (deposit_tokens t a (is_x_side side) q.amount_in l) _ k1 in
      record {
        quote = q;
        between = l1;
        unlocked = ground (arith, require-eq-ok (not a.config.locked) (custom pool_locked) e0);
        priced = map_err-eq-ok (λ x. custom (from_cpmm x)) _ e1;
        paid_in = map_err-eq-ok program_error _ e2;
        paid_out = map_err-eq-ok program_error _ k2;
      }

  pub exchange :
      (law : IsTokenProgram t) (a : Swap) (is_x : Bool) (paid received : ℕ) (l l1 l' : Ledger)
      → AreDistinct a
      → t.transfer (user_pays t a is_x) paid l ≡ ok l1
      → t.transfer (vault_pays t a (not is_x)) received l1 ≡ ok l'
      → Exchanged a is_x paid received l l'
  exchange law a true paid received l l1 l' d e1 e2 =
      let m1 = law.transfer_moves (user_pays t a true) paid l l1 (λ p. d.x_sides (sym p)) e1 in
      let m2 = law.transfer_moves (vault_pays t a false) received l1 l' d.y_sides e2 in
      let keep_ux = m2.others a.user_x (λ p. d.y_vault_x_user (sym p)) d.users in
      let keep_vx = m2.others a.vault_x d.vaults d.x_vault_y_user in
      let keep_uy = m1.others a.user_y (λ p. d.users (sym p)) (λ p. d.x_vault_y_user (sym p)) in
      let keep_vy = m1.others a.vault_y d.y_vault_x_user (λ p. d.vaults (sym p)) in
      record {
        affordable = m1.covered;
        user_in = keep_ux ∙ m1.debited;
        vault_in = keep_vx ∙ m1.credited;
        available = omega (arith, m2.covered, keep_vy);
        vault_out = omega (arith, m2.debited, keep_vy);
        user_out = omega (arith, m2.credited, keep_uy);
        supplies = λ m. m2.supplies m ∙ m1.supplies m;
      }
  exchange law a false paid received l l1 l' d e1 e2 =
      let m1 = law.transfer_moves (user_pays t a false) paid l l1 (λ p. d.y_sides (sym p)) e1 in
      let m2 = law.transfer_moves (vault_pays t a true) received l1 l' d.x_sides e2 in
      let keep_uy = m2.others a.user_y (λ p. d.x_vault_y_user (sym p)) (λ p. d.users (sym p)) in
      let keep_vy = m2.others a.vault_y (λ p. d.vaults (sym p)) d.y_vault_x_user in
      let keep_ux = m1.others a.user_x d.users (λ p. d.y_vault_x_user (sym p)) in
      let keep_vx = m1.others a.vault_x d.x_vault_y_user d.vaults in
      record {
        affordable = m1.covered;
        user_in = keep_uy ∙ m1.debited;
        vault_in = keep_vy ∙ m1.credited;
        available = omega (arith, m2.covered, keep_vx);
        vault_out = omega (arith, m2.debited, keep_vx);
        user_out = omega (arith, m2.credited, keep_ux);
        supplies = λ m. m2.supplies m ∙ m1.supplies m;
      }

  -- For a token program that moves, mints and burns as documented, four different token
  -- accounts and balances of the Rust types, a successful swap instruction runs only in an
  -- unlocked pool. It moves exactly `amount` from the user into the vault of that side and
  -- one payout, positive and at least `min_out`, from the other vault to the user; it changes
  -- no supply, and the product of the vaults does not fall.
  pub swap_settles :
      IsTokenProgram t
      → (a : Swap) (amount : ℕ) (side : OperationSide) (min_out : ℕ) (l l' : Ledger) → AreDistinct a
      → IsWellTyped (pool_of t a (supply l a.mint_lp) l)
      → IsU64 amount
      → swap t a amount side min_out l ≡ ok l'
      → (a.config.locked ≡ false)
        × ((out : ℕ) × (0 < out) × (min_out ≤ out) × Exchanged a (is_x_side side) amount out l l')
        × (balance l a.vault_x * balance l a.vault_y ≤ balance l' a.vault_x * balance l' a.vault_y)
  swap_settles law a amount op_x min_out l l' d w ha e =
      let s = swap-Steps a amount op_x min_out l l' e in
      let (paid, pos, enough, below, prod) =
        swap-product (pool_of t a (supply l a.mint_lp) l) amount side_x min_out s.quote w ha
          s.priced in
      let x =
        exchange law a true s.quote.amount_in s.quote.amount_out l s.between l' d s.paid_in
          s.paid_out in
      (
        s.unlocked,
        (s.quote.amount_out, pos, enough, rw paid at x),
        rw (x.vault_in, x.vault_out) prod,
      )
  swap_settles law a amount op_y min_out l l' d w ha e =
      let s = swap-Steps a amount op_y min_out l l' e in
      let (paid, pos, enough, below, prod) =
        swap-product (pool_of t a (supply l a.mint_lp) l) amount side_y min_out s.quote w ha
          s.priced in
      let x =
        exchange law a false s.quote.amount_in s.quote.amount_out l s.between l' d s.paid_in
          s.paid_out in
      (
        s.unlocked,
        (s.quote.amount_out, pos, enough, rw paid at x),
        rw (x.vault_in, x.vault_out) prod,
      )
  swap_settles law a amount op_balanced min_out l l' d w ha e =
      let s = swap-Steps a amount op_balanced min_out l l' e in
      let f =
        swap_facts (pool_of t a (supply l a.mint_lp) l) amount balanced min_out s.quote w ha
          s.priced in
      cc (f.one_sided)
