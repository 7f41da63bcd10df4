-- ===== src/Dice/Program/History.antt =====
-- What holds of every open bet after any sequence of calls (programs/dice_game/src/lib.rs).
use solana_instructions_intr.Prelude.{ℕ, true, ◌≤◌, ◌≡◌, sym, ap, ◌∙◌, arith, some, ok, bytes_eq→eq}
use solana_instructions_intr.Solana.{Pubkey, key_eq}
use solana_instructions_intr.Dice.Types.{Bet, min_bet_lamports, min_roll, max_roll}
use solana_instructions_intr.Dice.Bets.{SystemOps, Table, create_bet}
use solana_instructions_intr.Dice.Bets.Outcomes.{create_bet-Placed}
use solana_instructions_intr.Dice.Program.{World, Context, Call, is_vault, bet_seeds, Game, process}
use solana_instructions_intr.Dice.Program.Effects.{Effect-All, process-Effect}

-- An open bet keeps the bounds of its placement, and lies at the address of a vault of the program,
-- its player and its seed.
pub record IsStanding (w : World) (bet_key : Pubkey) (b : Bet) : Type 0 where
  pub stake_enough : min_bet_lamports ≤ b.amount
  pub roll_low : min_roll ≤ b.roll
  pub roll_high : b.roll ≤ max_roll
  pub table : Table
  pub at_vault : is_vault w table ≡ true
  pub player : b.player ≡ table.player
  pub address : bet_key ≡ w.derivation.find_program_address (bet_seeds table b.seed)

create_bet-seed :
    (k : Table) (slot bump seed roll amount : ℕ) (b : Bet)
    → create_bet k slot bump seed roll amount ≡ ok b
    → b.seed ≡ seed
unfolding create_bet
create_bet-seed k slot bump seed roll amount b e = ground arith

module _ (t : SystemOps) (w : World) where
  abbrev pub AreStanding : Game t → Type 0
  AreStanding g = (j : Pubkey) (b : Bet) → g.bets j ≡ some b → IsStanding w j b

  -- Successful calls by anyone, in sequence.
  pub data History (g : Game t) : Game t → Type 0 where
    begun : History g g
    called :
        {m g' : Game t} (x : Context) (k : Table) (bet_key : Pubkey) (c : Call)
        → History g m
        → process t w x k bet_key c m ≡ ok g'
        → History g g'

  made-IsStanding :
      (x : Context) (k : Table) (bet_key : Pubkey) (bump seed amount roll : ℕ) (made : Bet)
      → is_vault w k ≡ true
      → create_bet k x.slot bump seed roll amount ≡ ok made
      → made.seed ≡ seed
      → key_eq bet_key (w.derivation.find_program_address (bet_seeds k seed)) ≡ true
      → IsStanding w bet_key made
  made-IsStanding x k bet_key bump seed amount roll made v e s h =
      let p = create_bet-Placed k x.slot bump seed roll amount made e in
      record {
        stake_enough = omega (arith, p.amount_of, p.amount_enough);
        roll_low = omega (arith, p.roll_of, p.roll_low);
        roll_high = omega (arith, p.roll_of, p.roll_high);
        table = k;
        at_vault = v;
        player = p.player;
        address =
            bytes_eq→eq bet_key _ h
            ∙ ap (λ n. w.derivation.find_program_address (bet_seeds k n)) (sym s);
      }

  process-AreStanding :
      (x : Context) (k : Table) (bet_key : Pubkey) (c : Call) (g g' : Game t)
      → AreStanding g
      → process t w x k bet_key c g ≡ ok g'
      → AreStanding g'
  process-AreStanding x k bet_key c g g' h e =
      Effect-All w x k bet_key c g.bets g'.bets (λ j b. IsStanding w j b)
        (λ bump seed amount roll b vault _ made at.
          made-IsStanding x k bet_key bump seed amount roll b vault made
            (create_bet-seed k x.slot bump seed roll amount b made) at)
        (process-Effect t w x k bet_key c g g' e) h

  standing_after : {g g' : Game t} → History g g' → AreStanding g → AreStanding g'
  standing_after begun h = h
  standing_after (called {m} {g'} x k bet_key c run e) h =
      process-AreStanding x k bet_key c m g' (standing_after run h) e

  -- After any sequence of successful calls by anyone, from a game whose open bets do so or with no
  -- open bet at all, every open bet has a stake of at least the minimum and a pick from 1 to 99,
  -- and lies at the program's address for its seed, its player and a vault, where the vault passes
  -- the program's constraint, so it is itself at the program's address for its house.
  pub History-AreStanding :
      {g g' : Game t} (j : Pubkey) (b : Bet)
      → History g g'
      → AreStanding g
      → g'.bets j ≡ some b
      → IsStanding w j b
  History-AreStanding j b run h found = standing_after run h j b found
