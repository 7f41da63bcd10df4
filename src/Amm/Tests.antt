-- ===== src/Amm/Tests.antt =====
-- The theorems on the AMM instructions at a concrete ledger.
use solana_instructions_intr.Prelude.{
  ℕ, ◌*◌, ◌≤◌, ◌<◌, ◌≡◌, refl, arith, true, false, ok, if◌then◌else◌, bytes_eq,
}
use solana_instructions_intr.Solana.TokenModel.{Book, moved, book_ops, book_ops-IsTokenProgram}
use solana_instructions_intr.Cpmm.Types.{IsWellTyped}
use solana_instructions_intr.Cpmm.Swap.{swap_out, quote_out}
use solana_instructions_intr.Cpmm.Swap as Cpmm_swap
use solana_instructions_intr.Amm.Types.{op_x}
use solana_instructions_intr.Amm.Transfers.{pool_of}
use solana_instructions_intr.Amm.Swap.{swap, deposit_tokens, withdraw_tokens}
use solana_instructions_intr.Amm.Swap.Settlement.{swap_settles, Exchanged}
use solana_instructions_intr.Amm.Samples.{key, trade, trade-AreDistinct}

abbrev start : Book
start = record {
  held = λ k.
      if bytes_eq k (key 6)
      then 100_000_000
      else if bytes_eq k (key 7)
      then 100_000_000
      else if bytes_eq k (key 8)
      then 50_000_000
      else 0;
  issued = λ m. if bytes_eq m (key 5) then 100_000_000 else 0;
}

abbrev after_trade : Book
after_trade = moved (moved start (key 8) (key 6) 10_000_000) (key 7) (key 9) 9_066_108

trade_runs : swap book_ops trade 10_000_000 op_x 9_000_000 start ≡ ok after_trade
unfolding swap deposit_tokens withdraw_tokens Cpmm_swap.swap swap_out quote_out bytes_eq
trade_runs = refl

trade-IsWellTyped : IsWellTyped (pool_of book_ops trade (start.issued (key 5)) start)
unfolding bytes_eq
trade-IsWellTyped = record {
  reserve_x_u64 = omega arith;
  reserve_y_u64 = omega arith;
  lp_supply_u64 = omega arith;
  fee_bps_u16 = omega arith;
}

swap_settles_example :
    (trade.config.locked ≡ false)
    × ((out : ℕ) × (0 < out)
        × (9_000_000 ≤ out)
        × Exchanged book_ops trade true 10_000_000 out start after_trade)
    × (start.held (key 6) * start.held (key 7)
        ≤ after_trade.held (key 6) * after_trade.held (key 7))
swap_settles_example =
    swap_settles book_ops book_ops-IsTokenProgram trade 10_000_000 op_x 9_000_000 start after_trade
      trade-AreDistinct trade-IsWellTyped (omega arith) trade_runs
