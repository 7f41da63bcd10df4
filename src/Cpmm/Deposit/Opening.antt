-- ===== src/Cpmm/Deposit/Opening.antt =====
-- The first deposit of crates/cpmm/src/lib.rs, of any kind.
use solana_instructions_intr.Prelude.{
  ℕ, ◌*◌, ◌≤◌, ◌<◌, ◌≡◌, refl, sym, ◌∙◌, arith, Option, none, some, ok, err, require, ltb,
  if◌then◌else◌, IsU64, >>=-eq-ok,
}
use solana_instructions_intr.Cpmm.Types.{
  bps, Side, side_x, side_y, balanced, PoolState, DepositQuote, slippage_exceeded, invalid_fee,
  CpmmResult,
}
use solana_instructions_intr.Cpmm.Isqrt.Floor.{IsRoot}
use solana_instructions_intr.Cpmm.Deposit.{
  balanced_quote, deposit_balanced, deposit_single_x, deposit_single_y, deposit_on, deposit,
}
use solana_instructions_intr.Cpmm.Deposit.First.{first_deposit}
use solana_instructions_intr.Cpmm.Deposit.Shares.{offers_pos}

abbrev pub IsMaybeU64 : Option ℕ → Type 0
IsMaybeU64 none = Unit
IsMaybeU64 (some n) = IsU64 n

-- A deposit of both tokens that was minted their root.
pub record Opening (x y : Option ℕ) (side : Side) (min_lp : ℕ) (q : DepositQuote) : Type 0 where
  pub token_x : ℕ
  pub token_y : ℕ
  pub root : ℕ
  pub offers_x : x ≡ some token_x
  pub offers_y : y ≡ some token_y
  pub both : side ≡ balanced
  pub is_root : IsRoot (token_x * token_y) root
  pub positive : 0 < root
  pub floor_kept : min_lp ≤ root
  pub quoted : q ≡ balanced_quote root token_x token_y

floor_met :
    (r min_lp : ℕ) (q0 q : DepositQuote)
    → ◌≡◌ {A = CpmmResult DepositQuote}
        (if ltb r min_lp then err slippage_exceeded else ok q0)
        (ok q)
    → (min_lp ≤ r) × (q ≡ q0)
floor_met r min_lp q0 q e = ground arith

deposit_balanced-Opening :
    (p : PoolState) (dx dy min_lp : ℕ) (q : DepositQuote)
    → p.lp_supply ≡ 0
    → IsU64 dx
    → IsU64 dy
    → deposit_balanced p dx dy min_lp ≡ ok q
    → Opening (some dx) (some dy) balanced min_lp q
deposit_balanced-Opening p dx dy min_lp q empty bx by e =
    let (hx, hy) = offers_pos p dx dy min_lp q e in
    let (r, root, pos, answer) = first_deposit p dx dy min_lp empty hx hy bx by in
    let (kept, same) = floor_met r min_lp (balanced_quote r dx dy) q (sym answer ∙ e) in
    record {
      token_x = dx;
      token_y = dy;
      root = r;
      offers_x = refl;
      offers_y = refl;
      both = refl;
      is_root = root;
      positive = pos;
      floor_kept = kept;
      quoted = same;
    }

-- Without LP tokens there is no single-sided deposit.
no_single_x :
    (p : PoolState) (x min_lp : ℕ) (q : DepositQuote)
    → p.lp_supply ≡ 0
    → deposit_single_x p x min_lp ≡ ok q
    → ⊥
unfolding deposit_single_x
no_single_x p x min_lp q empty e = ground arith

no_single_y :
    (p : PoolState) (y min_lp : ℕ) (q : DepositQuote)
    → p.lp_supply ≡ 0
    → deposit_single_y p y min_lp ≡ ok q
    → ⊥
unfolding deposit_single_y
no_single_y p y min_lp q empty e = ground arith

on_Opening :
    (p : PoolState) (x y : Option ℕ) (side : Side) (min_lp : ℕ) (q : DepositQuote)
    → p.lp_supply ≡ 0
    → IsMaybeU64 x
    → IsMaybeU64 y
    → deposit_on p x y side min_lp ≡ ok q
    → Opening x y side min_lp q
on_Opening p (some x) (some y) balanced min_lp q empty bx by e =
    deposit_balanced-Opening p x y min_lp q empty bx by e
on_Opening p (some x) none side_x min_lp q empty bx by e = absurd (no_single_x p x min_lp q empty e)
on_Opening p none (some y) side_y min_lp q empty bx by e = absurd (no_single_y p y min_lp q empty e)
on_Opening p none none balanced min_lp q empty bx by e = cc
on_Opening p none none side_x min_lp q empty bx by e = cc
on_Opening p none none side_y min_lp q empty bx by e = cc
on_Opening p (some x) (some y) side_x min_lp q empty bx by e = cc
on_Opening p (some x) (some y) side_y min_lp q empty bx by e = cc
on_Opening p (some x) none side_y min_lp q empty bx by e = cc
on_Opening p (some x) none balanced min_lp q empty bx by e = cc
on_Opening p none (some y) side_x min_lp q empty bx by e = cc
on_Opening p none (some y) balanced min_lp q empty bx by e = cc

-- A deposit in a pool without LP tokens brings both tokens.
pub deposit-Opening :
    (p : PoolState) (x y : Option ℕ) (side : Side) (min_lp : ℕ) (q : DepositQuote)
    → p.lp_supply ≡ 0
    → IsMaybeU64 x
    → IsMaybeU64 y
    → deposit p x y side min_lp ≡ ok q
    → Opening x y side min_lp q
unfolding deposit
deposit-Opening p x y side min_lp q empty bx by e =
    let (_, _, rest) = >>=-eq-ok (require (ltb p.fee_bps bps) invalid_fee) _ e in
    on_Opening p x y side min_lp q empty bx by rest
