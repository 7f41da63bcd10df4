-- ===== src/Cpmm/Panics.antt =====
-- Panics of crates/cpmm/src/lib.rs.
use solana_instructions_intr.Prelude.{
  min, require-ne-panic, ok_or-ne-panic, as_u64, u128_mod, u64_mod, checked_add, ℕ, ◌<◌, ◌-◌, ◌/◌,
  ◌≡◌, ◌≢◌, sym, ◌∙◌, arith, Option, none, some, ok, err, panic, require, ok_or, ltb, leb, ◌&&◌,
  if◌then◌else◌, IsU64, >>=-ne-panic, checked_sub, or_panic,
}
use solana_instructions_intr.Cpmm.Types.{
  slippage_exceeded, underflow, overflow, bps, Side, side_x, side_y, balanced, PoolState,
  DepositQuote, invalid_amount, zero_balance, invalid_fee, CpmmResult,
}
use solana_instructions_intr.Cpmm.Swap.{
  quote_out, swap_out_y_for_x, swap_out_x_for_y, gamma, swap_out, swap,
}
use solana_instructions_intr.Cpmm.Deposit.{
  balanced_quote, later_mint, deposit_balanced, deposit_single_x, deposit_single_y, deposit_on,
  deposit, mul_div,
}
use solana_instructions_intr.Cpmm.Deposit.First.{first_deposit}
use solana_instructions_intr.Cpmm.Deposit.Opening.{IsMaybeU64}
use solana_instructions_intr.Cpmm.Withdraw.{
  withdraw_balanced, withdraw_single_x, withdraw_single_y, withdraw_on, withdraw,
}

swap-ne-panic : (p : PoolState) (a : ℕ) (side : Side) (min_out : ℕ) → swap p a side min_out ≢ panic
unfolding swap swap_out gamma
swap-ne-panic p a side_x min_out e = ground arith
swap-ne-panic p a side_y min_out e = ground arith
swap-ne-panic p a balanced min_out e = ground arith

sale-ne-panic : (x y a fee : ℕ) → swap_out_y_for_x x y a fee ≢ panic
unfolding swap_out_y_for_x
sale-ne-panic x y a fee =
    >>=-ne-panic (ok_or (checked_sub bps fee) invalid_fee) _ (ok_or-ne-panic _ _) (λ g _.
      >>=-ne-panic (ok_or (quote_out g y x a) overflow) _ (ok_or-ne-panic _ _) λ _ _. λ e. cc e)

sale_back-ne-panic : (x y a fee : ℕ) → swap_out_x_for_y x y a fee ≢ panic
unfolding swap_out_x_for_y
sale_back-ne-panic x y a fee =
    >>=-ne-panic (ok_or (checked_sub bps fee) invalid_fee) _ (ok_or-ne-panic _ _) (λ g _.
      >>=-ne-panic (ok_or (quote_out g x y a) overflow) _ (ok_or-ne-panic _ _) λ _ _. λ e. cc e)

withdraw_balanced-ne-panic : (p : PoolState) (dl : ℕ) → withdraw_balanced p dl ≢ panic
unfolding withdraw_balanced
withdraw_balanced-ne-panic p dl =
    >>=-ne-panic (mul_div p.reserve_x dl p.lp_supply) _ (ok_or-ne-panic _ _) λ wx _.
      >>=-ne-panic (mul_div p.reserve_y dl p.lp_supply) _ (ok_or-ne-panic _ _) λ wy _.
        >>=-ne-panic (require (ltb 0 (as_u64 wx) && ltb 0 (as_u64 wy)) invalid_amount) _
          (require-ne-panic _ _) λ _ _. λ e. cc e

withdraw_single_x-ne-panic : (p : PoolState) (dl : ℕ) → withdraw_single_x p dl ≢ panic
unfolding withdraw_single_x
withdraw_single_x-ne-panic p dl =
    >>=-ne-panic (mul_div p.reserve_x dl p.lp_supply) _ (ok_or-ne-panic _ _) λ wx _.
      >>=-ne-panic (mul_div p.reserve_y dl p.lp_supply) _ (ok_or-ne-panic _ _) λ wy _.
        >>=-ne-panic (ok_or (checked_sub p.reserve_x wx) underflow) _ (ok_or-ne-panic _ _) λ x _.
          >>=-ne-panic (ok_or (checked_sub p.reserve_y wy) underflow) _ (ok_or-ne-panic _ _) λ y _.
            >>=-ne-panic (swap_out_y_for_x x y (as_u64 wy) p.fee_bps) _ (sale-ne-panic _ _ _ _)
              λ o _.
                >>=-ne-panic (ok_or (checked_add u128_mod wx o) overflow) _ (ok_or-ne-panic _ _)
                  λ t _.
                    >>=-ne-panic (require (ltb 0 (as_u64 t)) invalid_amount) _
                      (require-ne-panic _ _) λ _ _. λ e. cc e

withdraw_single_y-ne-panic : (p : PoolState) (dl : ℕ) → withdraw_single_y p dl ≢ panic
unfolding withdraw_single_y
withdraw_single_y-ne-panic p dl =
    >>=-ne-panic (mul_div p.reserve_x dl p.lp_supply) _ (ok_or-ne-panic _ _) λ wx _.
      >>=-ne-panic (mul_div p.reserve_y dl p.lp_supply) _ (ok_or-ne-panic _ _) λ wy _.
        >>=-ne-panic (ok_or (checked_sub p.reserve_x wx) underflow) _ (ok_or-ne-panic _ _) λ x _.
          >>=-ne-panic (ok_or (checked_sub p.reserve_y wy) underflow) _ (ok_or-ne-panic _ _) λ y _.
            >>=-ne-panic (swap_out_x_for_y x y (as_u64 wx) p.fee_bps) _ (sale_back-ne-panic _ _ _ _)
              λ o _.
                >>=-ne-panic (ok_or (checked_add u128_mod wy o) overflow) _ (ok_or-ne-panic _ _)
                  λ t _.
                    >>=-ne-panic (require (ltb 0 (as_u64 t)) invalid_amount) _
                      (require-ne-panic _ _) λ _ _. λ e. cc e

withdraw_on-ne-panic : (p : PoolState) (dl : ℕ) (side : Side) → withdraw_on p dl side ≢ panic
withdraw_on-ne-panic p dl balanced = withdraw_balanced-ne-panic p dl
withdraw_on-ne-panic p dl side_x = withdraw_single_x-ne-panic p dl
withdraw_on-ne-panic p dl side_y = withdraw_single_y-ne-panic p dl

withdraw-ne-panic :
    (p : PoolState) (dl : ℕ) (side : Side) (min_x min_y : ℕ)
    → withdraw p dl side min_x min_y ≢ panic
unfolding withdraw
withdraw-ne-panic p dl side min_x min_y =
    >>=-ne-panic (require (ltb 0 dl) invalid_amount) _ (require-ne-panic _ _) λ _ _.
      (>>=-ne-panic (require (ltb 0 p.lp_supply) zero_balance) _ (require-ne-panic _ _) λ _ _.
        (>>=-ne-panic (require (ltb 0 p.reserve_x && ltb 0 p.reserve_y) zero_balance) _
          (require-ne-panic _ _)
          λ _ _.
            (>>=-ne-panic (withdraw_on p dl side) _ (withdraw_on-ne-panic p dl side) λ q _.
              >>=-ne-panic (require (leb min_x q.withdraw_x) slippage_exceeded) _
                (require-ne-panic _ _)
                λ _ _.
                  (>>=-ne-panic (require (leb min_y q.withdraw_y) slippage_exceeded) _
                    (require-ne-panic _ _) λ _ _. λ e. cc e))))

later_mint-ne-panic : (p : PoolState) (x y min_lp : ℕ) → later_mint p x y min_lp ≢ panic
unfolding later_mint
later_mint-ne-panic p x y min_lp =
    let l = p.lp_supply in
    >>=-ne-panic (mul_div x l p.reserve_x) _ (ok_or-ne-panic _ _) λ a _.
      >>=-ne-panic (mul_div y l p.reserve_y) _ (ok_or-ne-panic _ _) λ b _.
        >>=-ne-panic (mul_div p.reserve_x (min a b) l) _ (ok_or-ne-panic _ _) λ wx _.
          >>=-ne-panic (mul_div p.reserve_y (min a b) l) _ (ok_or-ne-panic _ _) λ wy _.
            >>=-ne-panic (require (leb min_lp (as_u64 (min a b))) slippage_exceeded) _
              (require-ne-panic _ _)
              λ _ _.
                (>>=-ne-panic (require (ltb 0 (as_u64 wx) && ltb 0 (as_u64 wy)) invalid_amount) _
                  (require-ne-panic _ _) λ _ _. (λ e. cc e))

first_answer :
    (r min_lp : ℕ) (q : DepositQuote)
    → ◌≢◌ {A = CpmmResult DepositQuote} (if ltb r min_lp then err slippage_exceeded else ok q) panic
first_answer r min_lp q e = ground arith

empty_pool-ne-panic :
    (p : PoolState) (x y min_lp : ℕ)
    → p.lp_supply ≡ 0
    → 0 < x
    → 0 < y
    → IsU64 x
    → IsU64 y
    → deposit_balanced p x y min_lp ≢ panic
empty_pool-ne-panic p x y min_lp empty hx hy bx by e =
    let (r, _, _, answer) = first_deposit p x y min_lp empty hx hy bx by in
    first_answer r min_lp (balanced_quote r x y) (sym answer ∙ e)

deposit_balanced-ne-panic :
    (p : PoolState) (x y min_lp : ℕ) → IsU64 x → IsU64 y → deposit_balanced p x y min_lp ≢ panic
unfolding deposit_balanced
deposit_balanced-ne-panic p x y min_lp bx by e =
    ground (arith, empty_pool-ne-panic p x y min_lp, later_mint-ne-panic p x y min_lp)

swap_out-ne-panic : (p : PoolState) (a : ℕ) (side : Side) → swap_out p a side ≢ panic
unfolding swap_out gamma
swap_out-ne-panic p a side_x e = ground arith
swap_out-ne-panic p a side_y e = ground arith
swap_out-ne-panic p a balanced e = ground arith

-- The u64 that a swap leg pays.
swap_out-IsU64 : (p : PoolState) (a : ℕ) (side : Side) (o : ℕ) → swap_out p a side ≡ ok o → IsU64 o
unfolding swap_out gamma
swap_out-IsU64 p a side_x o e = ground arith
swap_out-IsU64 p a side_y o e = ground arith
swap_out-IsU64 p a balanced o e = ground arith

half : (n : ℕ) → ◌≡◌ {A = CpmmResult ℕ} (or_panic (checked_sub n (n / 2))) (ok (n - n / 2))
half n = ground arith

half-IsU64 :
    (n r : ℕ) → IsU64 n → ◌≡◌ {A = CpmmResult ℕ} (or_panic (checked_sub n (n / 2))) (ok r) → IsU64 r
half-IsU64 n r b e = ground arith

deposit_single_x-ne-panic :
    (p : PoolState) (x min_lp : ℕ) → IsU64 x → deposit_single_x p x min_lp ≢ panic
unfolding deposit_single_x
deposit_single_x-ne-panic p x min_lp bx =
    >>=-ne-panic (require (ltb 1 x) invalid_amount) _ (require-ne-panic _ _) λ _ _.
      (>>=-ne-panic (require (ltb 0 p.lp_supply) zero_balance) _ (require-ne-panic _ _) λ _ _.
        (>>=-ne-panic (or_panic (checked_sub x (x / 2))) _ (λ e. cc (e, half x))
          λ rest left.
            >>=-ne-panic (swap_out p (x / 2) side_x) _ (swap_out-ne-panic _ _ _) λ o paid.
              >>=-ne-panic (ok_or (checked_add u64_mod p.reserve_x (x / 2)) overflow) _
                (ok_or-ne-panic _ _)
                λ x' _.
                  >>=-ne-panic (ok_or (checked_sub p.reserve_y o) underflow) _ (ok_or-ne-panic _ _)
                    λ y' _.
                      >>=-ne-panic (deposit_balanced _ rest o min_lp) _
                        (deposit_balanced-ne-panic _ rest o min_lp (half-IsU64 x rest bx left)
                          (swap_out-IsU64 p (x / 2) side_x o paid))
                        λ q _. λ e. cc e))

deposit_single_y-ne-panic :
    (p : PoolState) (y min_lp : ℕ) → IsU64 y → deposit_single_y p y min_lp ≢ panic
unfolding deposit_single_y
deposit_single_y-ne-panic p y min_lp by =
    >>=-ne-panic (require (ltb 1 y) invalid_amount) _ (require-ne-panic _ _) λ _ _.
      (>>=-ne-panic (require (ltb 0 p.lp_supply) zero_balance) _ (require-ne-panic _ _) λ _ _.
        (>>=-ne-panic (or_panic (checked_sub y (y / 2))) _ (λ e. cc (e, half y))
          λ rest left.
            >>=-ne-panic (swap_out p (y / 2) side_y) _ (swap_out-ne-panic _ _ _) λ o paid.
              >>=-ne-panic (ok_or (checked_sub p.reserve_x o) underflow) _ (ok_or-ne-panic _ _)
                λ x' _.
                  >>=-ne-panic (ok_or (checked_add u64_mod p.reserve_y (y / 2)) overflow) _
                    (ok_or-ne-panic _ _)
                    λ y' _.
                      >>=-ne-panic (deposit_balanced _ o rest min_lp) _
                        (deposit_balanced-ne-panic _ o rest min_lp
                          (swap_out-IsU64 p (y / 2) side_y o paid) (half-IsU64 y rest by left))
                        λ q _. λ e. cc e))

deposit_on-ne-panic :
    (p : PoolState) (x y : Option ℕ) (side : Side) (min_lp : ℕ)
    → IsMaybeU64 x
    → IsMaybeU64 y
    → deposit_on p x y side min_lp ≢ panic
deposit_on-ne-panic p (some x) (some y) balanced min_lp bx by =
    deposit_balanced-ne-panic p x y min_lp bx by
deposit_on-ne-panic p (some x) none side_x min_lp bx by = deposit_single_x-ne-panic p x min_lp bx
deposit_on-ne-panic p none (some y) side_y min_lp bx by = deposit_single_y-ne-panic p y min_lp by
deposit_on-ne-panic p none none balanced min_lp bx by = λ e. cc e
deposit_on-ne-panic p none none side_x min_lp bx by = λ e. cc e
deposit_on-ne-panic p none none side_y min_lp bx by = λ e. cc e
deposit_on-ne-panic p (some x) (some y) side_x min_lp bx by = λ e. cc e
deposit_on-ne-panic p (some x) (some y) side_y min_lp bx by = λ e. cc e
deposit_on-ne-panic p (some x) none balanced min_lp bx by = λ e. cc e
deposit_on-ne-panic p (some x) none side_y min_lp bx by = λ e. cc e
deposit_on-ne-panic p none (some y) balanced min_lp bx by = λ e. cc e
deposit_on-ne-panic p none (some y) side_x min_lp bx by = λ e. cc e

-- With values of the Rust types no quote of the crate panics: on every pool, with or without LP
-- tokens, empty or full, each swap, deposit and withdrawal returns a quote or an error.
pub quotes-ne-panic :
    (p : PoolState) (a dl : ℕ) (x y : Option ℕ) (side : Side) (min_a min_b : ℕ)
    → IsMaybeU64 x
    → IsMaybeU64 y
    → (swap p a side min_a ≢ panic)
      × (deposit p x y side min_a ≢ panic)
      × (withdraw p dl side min_a min_b ≢ panic)
unfolding deposit
quotes-ne-panic p a dl x y side min_a min_b bx by = (
  swap-ne-panic p a side min_a,
  >>=-ne-panic (require (ltb p.fee_bps bps) invalid_fee) _ (require-ne-panic _ _)
      λ _ _. (deposit_on-ne-panic p x y side min_a bx by),
  withdraw-ne-panic p dl side min_a min_b,
)
