-- ===== src/Dice/Tests.antt =====
-- The theorems on the dice game at concrete bets.
use solana_instructions_intr.Prelude.{
  true, ℕ, ◌+◌, ◌-◌, ◌*◌, ◌≤◌, ◌≡◌, refl, arith, List, [], ◌∷◌, ◌++◌, ok, err, leb, if◌then◌else◌,
  bytes_eq,
}
use solana_instructions_intr.Solana.{Pubkey}
use solana_instructions_intr.Solana.TokenModel.{set_at}
use solana_instructions_intr.Dice.Types.{Bet, IsInRange}
use solana_instructions_intr.Dice.Bets.{
  SystemOps, Table, create_bet, deposit, place_bet, refund_bet,
}
use solana_instructions_intr.Dice.Bets.Outcomes.{Placed, refund_outcome, place_bet-refund_bet}
use solana_instructions_intr.Dice.Resolve.{win_payout, resolve_bet}
use solana_instructions_intr.Dice.Resolve.Payout.{
  draw, bet_outcome, resolve_bet-bet_outcome, win_payout_bounds,
}

abbrev pub sent : Pubkey → Pubkey → ℕ → (Pubkey → ℕ) → Pubkey → ℕ
sent from to n l = set_at (set_at l from (l from - n)) to (set_at l from (l from - n) to + n)

-- A ledger of lamports that moves what is there; a bet account costs a million.
abbrev pub lamports : SystemOps
lamports = record {
  Lamports = Pubkey → ℕ;
  balance = λ l k. l k;
  signs = λ seeds from. true;
  transfer = λ seeds from to n l. if leb n (l from) then ok (sent from to n l) else err 1;
  create_account =
      λ payer new l. if leb 1_000_000 (l payer) then ok (sent payer new 1_000_000 l) else err 1;
  close_account = λ old to l. sent old to (l old) l;
}

abbrev pub eight : List ℕ
eight = 1 ∷ 2 ∷ 3 ∷ 4 ∷ 5 ∷ 6 ∷ 7 ∷ 8 ∷ []

abbrev pub table : Table
table = record {
  player = eight ++ (eight ++ (eight ++ eight));
  house = 1 ∷ [];
  vault = 2 ∷ [];
  vault_bump = 255;
}

abbrev pub bet : Bet
bet = record {
  player = table.player;
  seed = 77;
  slot = 5000;
  amount = 20_000_000;
  roll = 50;
  bump = 254;
}

pub bet-IsInRange : IsInRange bet
bet-IsInRange = record {
  player_bytes = refl;
  seed_u128 = omega arith;
  slot_u64 = omega arith;
  amount_u64 = omega arith;
  roll_u8 = omega arith;
  bump_u8 = omega arith;
}

abbrev pub before : Pubkey → ℕ
before k = if bytes_eq k (2 ∷ []) then 1_000_000_000 else 30_000_000

abbrev pub after : Pubkey → ℕ
after = set_at (set_at before table.player 10_000_000) (2 ∷ []) 1_020_000_000

place_runs : place_bet lamports table 5000 254 77 20_000_000 50 before ≡ ok (bet, after)
unfolding place_bet create_bet deposit bytes_eq
place_runs = refl

place_bet-refund_bet_example :
    Placed table 5000 20_000_000 50 bet
    × (lamports.transfer [] table.player table.vault 20_000_000 before ≡ ok after)
    × (refund_bet lamports table 6001 bet after
        ≡ refund_outcome lamports table 5000 6001 20_000_000 after)
place_bet-refund_bet_example =
    place_bet-refund_bet lamports table 5000 254 77 20_000_000 50 6001 bet before after after
      place_runs

-- A hash that is its argument repeated four times.
abbrev pub repeat : List ℕ → List ℕ
repeat bs = bs ++ (bs ++ (bs ++ bs))

resolve_bet-bet_outcome_example :
    (1 ≤ draw (repeat eight))
    × (draw (repeat eight) ≤ 100)
    × (resolve_bet lamports repeat table bet eight after
        ≡ bet_outcome lamports table bet (draw (repeat eight)) after)
resolve_bet-bet_outcome_example =
    resolve_bet-bet_outcome lamports repeat table bet eight after (omega arith)

abbrev bolder : Bet
bolder = record bet { roll = 25 }

bet_pays : win_payout bet ≡ ok 40_204_081
unfolding win_payout
bet_pays = refl

bolder_pays : win_payout bolder ≡ ok 82_083_333
unfolding win_payout
bolder_pays = refl

win_payout_bounds_example :
    (20_000_000 ≤ 40_204_081)
    × (49 * 40_204_081 * 100 ≤ 20_000_000 * 9_850)
    × (40_204_081 ≤ 82_083_333)
win_payout_bounds_example =
    win_payout_bounds bet bolder 40_204_081 82_083_333 (omega arith) refl (omega arith)
      (omega arith) (omega arith) bet_pays bolder_pays
