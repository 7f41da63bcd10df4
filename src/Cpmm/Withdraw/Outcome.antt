-- ===== src/Cpmm/Withdraw/Outcome.antt =====
-- What `withdraw` of crates/cpmm/src/lib.rs answers on every input, in plain arithmetic.
use solana_instructions_intr.Prelude.{
  ◌&&◌, >>=-cong, ℕ, ◌≤◌, ◌<◌, ◌≡◌, ◌||◌, arith, ok, err, ◌>>=◌, ◌>>◌, require, ltb, leb, ◌==◌,
  if◌then◌else◌,
}
use solana_instructions_intr.Cpmm.Types.{
  Side, PoolState, IsWellTyped, WithdrawQuote, CpmmResult, invalid_amount, zero_balance,
  slippage_exceeded,
}
use solana_instructions_intr.Cpmm.Withdraw.{withdraw_on, withdraw}
use solana_instructions_intr.Cpmm.Withdraw.Legs.{pro_rata}
use solana_instructions_intr.Cpmm.Withdraw.Exits.{shares_outcome, quote_lem}

-- The floors that the user set.
abbrev pub with_floors : ℕ → ℕ → WithdrawQuote → CpmmResult WithdrawQuote
with_floors min_x min_y q =
    if ltb q.withdraw_x min_x || ltb q.withdraw_y min_y then err slippage_exceeded else ok q

-- All branches of `withdraw` in the order in which they are tried.
abbrev pub withdraw_outcome : PoolState → ℕ → Side → ℕ → ℕ → CpmmResult WithdrawQuote
withdraw_outcome p dl side min_x min_y =
    let wx = pro_rata p.reserve_x dl p.lp_supply in
    let wy = pro_rata p.reserve_y dl p.lp_supply in
    let answer = shares_outcome p wx wy side >>= with_floors min_x min_y in
    if dl == 0
    then err invalid_amount
    else if p.lp_supply == 0 || p.reserve_x == 0 || p.reserve_y == 0
    then err zero_balance
    else answer

floors_lem :
    (min_x min_y : ℕ) (q : WithdrawQuote)
    → (require (leb min_x q.withdraw_x) slippage_exceeded
        >> (require (leb min_y q.withdraw_y) slippage_exceeded >> ok q))
      ≡ with_floors min_x min_y q
floors_lem min_x min_y q = ground arith

guards_lem :
    (dl l x y : ℕ) (r r' : CpmmResult WithdrawQuote)
    → (0 < l → r ≡ r')
    → (require (ltb 0 dl) invalid_amount
        >> (require (ltb 0 l) zero_balance >> (require (ltb 0 x && ltb 0 y) zero_balance >> r)))
      ≡ (if dl == 0
          then err invalid_amount
          else if l == 0 || x == 0 || y == 0
          then err zero_balance
          else r')
guards_lem dl l x y r r' h = ground (arith, h)

answer_lem :
    (p : PoolState) (dl : ℕ) (side : Side) (min_x min_y : ℕ)
    → IsWellTyped p
    → dl ≤ p.lp_supply
    → 0 < p.lp_supply
    → (withdraw_on p dl side >>= λ (q : WithdrawQuote).
        require (leb min_x q.withdraw_x) slippage_exceeded
        >> (require (leb min_y q.withdraw_y) slippage_exceeded >> ok q))
      ≡ (shares_outcome p
            (pro_rata p.reserve_x dl p.lp_supply)
            (pro_rata p.reserve_y dl p.lp_supply)
            side
          >>= with_floors min_x min_y)
answer_lem p dl side min_x min_y w h hl = rw (quote_lem p dl side w hl h) (
    >>=-cong
      (shares_outcome p (pro_rata p.reserve_x dl p.lp_supply) (pro_rata p.reserve_y dl p.lp_supply)
        side)
      _ _ λ q _. floors_lem min_x min_y q)

-- For at most the supply of a pool of the Rust types, `withdraw` answers what that table says.
pub withdraw-withdraw_outcome :
    (p : PoolState) (dl : ℕ) (side : Side) (min_x min_y : ℕ)
    → IsWellTyped p
    → dl ≤ p.lp_supply
    → withdraw p dl side min_x min_y ≡ withdraw_outcome p dl side min_x min_y
unfolding withdraw
withdraw-withdraw_outcome p dl side min_x min_y w h =
    let l = p.lp_supply in
    guards_lem dl l p.reserve_x p.reserve_y _ _ (answer_lem p dl side min_x min_y w h)
