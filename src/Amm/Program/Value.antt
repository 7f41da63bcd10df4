-- ===== src/Amm/Program/Value.antt =====
-- What one swap, withdrawal or burn (programs/amm/src/instructions) does to the worth of an LP
-- token.
use native.Mathlib.Nat
use solana_instructions_intr.Prelude.{
  ℕ, zero, suc, true, ◌-◌, ◌*◌, ◌≤◌, ◌<◌, ◌≡◌, ◌≢◌, refl, sym, subst, ◌∙◌, arith, ok, IsU64,
}
use solana_instructions_intr.Solana.{Pubkey, Derivation, IsCollisionFree}
use solana_instructions_intr.Solana.Token.{TokenOps, IsTokenProgram}
use solana_instructions_intr.Cpmm.Types.{PoolState, IsWellTyped, WithdrawQuote}
use solana_instructions_intr.Cpmm.Withdraw as Cpmm_withdraw
use solana_instructions_intr.Cpmm.Withdraw.Value.{KeepsValue, withdraw-KeepsValue}
use solana_instructions_intr.Amm.Types.{OperationSide, to_side}
use solana_instructions_intr.Amm.Accounts.{
  Swap, LpAccounts, BurnLp, swap_constraints, lp_constraints, burn_constraints,
}
use solana_instructions_intr.Amm.Introspection.Settlement.{burn_lp-burns}
use solana_instructions_intr.Amm.Transfers.{pool_of}
use solana_instructions_intr.Amm.Swap as Amm_swap
use solana_instructions_intr.Amm.Withdraw as Amm_withdraw
use solana_instructions_intr.Amm.Swap.Settlement.{swap_settles}
use solana_instructions_intr.Amm.Withdraw.Settlement.{withdraw_settles, Withdrawn}
use solana_instructions_intr.Amm.Accounts.Distinct.{lp_constraints-parts}
use solana_instructions_intr.Amm.Program.Pools.{
  pool_at, HasMints, constraints-AreOfPool, pool_of-pool_at, trader-AreDistinct, holder-AreDistinct,
  burn_constraints-BurnsOfPool,
}

-- Neither the worth of an LP token falls nor the supply grows.
abbrev pub Holds : PoolState → PoolState → Type 0
Holds p p' = KeepsValue p p' × (p'.lp_supply ≤ p.lp_supply)

square_pos : (n : ℕ) → 0 < n → 0 < n * n
square_pos n h = Nat.mul-pos h h

-- Chained over a pool whose supply is not zero.
chain_value :
    (v w x s m n : ℕ)
    → 0 < m
    → v * (m * m) ≤ w * (s * s)
    → w * (n * n) ≤ x * (m * m)
    → v * (n * n) ≤ x * (s * s)
chain_value v w x s m n pos h k =
    let first : v * (m * m) * (n * n) ≤ w * (s * s) * (n * n) = Nat.mul-le-mul_right (n * n) h in
    let second : w * (n * n) * (s * s) ≤ x * (m * m) * (s * s) = Nat.mul-le-mul_right (s * s) k in
    let both : v * (n * n) * (m * m) ≤ x * (s * s) * (m * m) = omega (arith, first, second) in
    Nat.le_of_mul-le-mul_right both (square_pos m pos)

pub Holds-chain : (p q r : PoolState) → Holds p q → Holds q r → Holds p r
Holds-chain p q r (kept, less) (kept', less') = (value q.lp_supply refl, omega (arith, less, less'))
  where
    value : (m : ℕ) → q.lp_supply ≡ m → KeepsValue p r
    value zero e =
        let none_left : r.lp_supply ≡ 0 = omega (arith, less', e) in rw none_left (omega arith)
    value (suc m) e =
        chain_value (p.reserve_x * p.reserve_y) (q.reserve_x * q.reserve_y)
          (r.reserve_x * r.reserve_y) p.lp_supply q.lp_supply r.lp_supply (omega (arith, e)) kept
          kept'

same_worth : {p p' q q' : PoolState} → p ≡ q → p' ≡ q' → Holds p p' → Holds q q'
same_worth {p} {p'} {q} {q'} e f h =
    subst (λ (z : PoolState). Holds z q') e (subst (λ (z : PoolState). Holds p z) f h)

module _ (t : TokenOps) (law : IsTokenProgram t) (d : Derivation) (free : IsCollisionFree d) where
  open t use {Ledger, balance, supply}

  pub swap-Holds :
      (a : Swap) (amount : ℕ) (side : OperationSide) (min_out : ℕ) (l l' : Ledger)
      → HasMints d a.config_key a.config
      → swap_constraints d a ≡ true
      → a.user ≢ a.config_key
      → IsU64 amount
      → IsWellTyped (pool_at d t a.config_key a.config l)
      → Amm_swap.swap t a amount side min_out l ≡ ok l'
      → Holds (pool_at d t a.config_key a.config l) (pool_at d t a.config_key a.config l')
  swap-Holds a amount side min_out l l' mints met user small w e =
      let p = constraints-AreOfPool d a met in
      let before = pool_of-pool_at d t a l p in
      let (_, (out, _, _, x), prod) =
        swap_settles t law a amount side min_out l l' (trader-AreDistinct d free a mints met user)
          (subst IsWellTyped (sym before) w) small e in
      let s = supply l a.mint_lp in
      let kept = Nat.mul-le-mul_right (s * s) prod in
      same_worth before (pool_of-pool_at d t a l' p)
        (rw (x.supplies a.mint_lp) kept, omega (arith, x.supplies a.mint_lp))

  -- The payment of a quote for the LP tokens that are gone.
  pub exit-Holds :
      (a : LpAccounts) (dl : ℕ) (side : OperationSide) (min_x min_y : ℕ) (q : WithdrawQuote)
      (l l' : Ledger)
      → lp_constraints d a ≡ true
      → IsWellTyped (pool_at d t a.config_key a.config l)
      → Cpmm_withdraw.withdraw
          (pool_of t a.trade (supply l a.mint_lp) l)
          dl
          (to_side side)
          min_x
          min_y
        ≡ ok q
      → Withdrawn t a dl q l l'
      → Holds (pool_at d t a.config_key a.config l) (pool_at d t a.config_key a.config l')
  exit-Holds a dl side min_x min_y q l l' met w priced m =
      let p = constraints-AreOfPool d a.trade (lp_constraints-parts d a met).0 in
      let before = pool_of-pool_at d t a.trade l p in
      let kept =
        withdraw-KeepsValue (pool_of t a.trade (supply l a.mint_lp) l) dl (to_side side) min_x min_y
          q (subst IsWellTyped (sym before) w) (omega (arith, m.issued)) priced in
      let left_x : balance l' a.vault_x ≡ balance l a.vault_x - q.withdraw_x =
        omega (arith, m.vault_x) in
      let left_y : balance l' a.vault_y ≡ balance l a.vault_y - q.withdraw_y =
        omega (arith, m.vault_y) in
      let left : supply l' a.mint_lp ≡ supply l a.mint_lp - dl = omega (arith, m.issued) in
      same_worth before (pool_of-pool_at d t a.trade l' p)
        (rw (left_x, left_y, left) kept, omega (arith, m.issued))

  pub typed_at :
      (a : LpAccounts) (l : Ledger)
      → lp_constraints d a ≡ true
      → IsWellTyped (pool_at d t a.config_key a.config l)
      → IsWellTyped (pool_of t a.trade (supply l a.mint_lp) l)
  typed_at a l met w =
      let p = constraints-AreOfPool d a.trade (lp_constraints-parts d a met).0 in
      subst IsWellTyped (sym (pool_of-pool_at d t a.trade l p)) w

  pub withdraw-Holds :
      (a : LpAccounts) (dl : ℕ) (side : OperationSide) (min_x min_y : ℕ) (l l' : Ledger)
      → HasMints d a.config_key a.config
      → lp_constraints d a ≡ true
      → a.user ≢ a.config_key
      → IsWellTyped (pool_at d t a.config_key a.config l)
      → Amm_withdraw.withdraw t a dl side min_x min_y l ≡ ok l'
      → Holds (pool_at d t a.config_key a.config l) (pool_at d t a.config_key a.config l')
  withdraw-Holds a dl side min_x min_y l l' mints met user w e =
      let (_, (q, priced, m)) =
        withdraw_settles t law a dl side min_x min_y l l'
          (holder-AreDistinct d free a mints met user) (typed_at a l met w) e in
      exit-Holds a dl side min_x min_y q l l' met w priced m

  pub burn-Holds :
      (b : BurnLp) (dl : ℕ) (l l' : Ledger)
      → burn_constraints d b ≡ true
      → b.user ≢ b.config_key
      → Amm_withdraw.burn_lp t b dl l ≡ ok l'
      → Holds (pool_at d t b.config_key b.config l) (pool_at d t b.config_key b.config l')
  burn-Holds b dl l l' met user e =
      let at = burn_constraints-BurnsOfPool d b met in
      let m = burn_lp-burns t law b dl l l' e in
      let apart : (n : Pubkey) → d.associated_token b.config_key n ≢ b.user_lp =
        λ n h. user (sym (free.wallets b.config_key b.user n b.mint_lp (h ∙ at.account_at))) in
      let kept_x = m.others (d.associated_token b.config_key b.config.mint_x) (apart _) in
      let kept_y = m.others (d.associated_token b.config_key b.config.mint_y) (apart _) in
      let x = balance l (d.associated_token b.config_key b.config.mint_x) in
      let y = balance l (d.associated_token b.config_key b.config.mint_y) in
      let s = supply l b.mint_lp in
      let less : supply l' b.mint_lp ≤ s = omega (arith, m.lowered, m.within) in
      let kept = Nat.mul-le-mul_left (x * y) (Nat.mul-le-mul less less) in
      rw (kept_x, kept_y, sym at.lp_at) (kept, less)
