-- ===== src/Dice/SignedTests.antt =====
-- The resolution of a bet by a signature of the house, at concrete bytes.
use solana_instructions_intr.Dice.Types.{Bet, Bet}
use solana_instructions_intr.Prelude.{
  subst, IsU64, Option, from_le_bytes, subst, IsU64, Option, from_le_bytes, ℕ, ◌≡◌, refl, List,
  some, ok, arith, bytes_eq,
}
use solana_instructions_intr.Solana.{Pubkey, Instruction}
use solana_instructions_intr.Dice.Bets.{Table}
use solana_instructions_intr.Dice.Ed25519.Layout.{signed_ix}
use solana_instructions_intr.Dice.Ed25519.Precompile.{IsOneSignature}
use solana_instructions_intr.Dice.Resolve.{resolve_bet, settle_bet, drawn_roll, pay_win, win_payout}
use solana_instructions_intr.Dice.Program.{Context, resolve, load_bet, Game, close, process}
use solana_instructions_intr.Dice.Program.Signed.{IsVerifying, Resolved, resolve-Resolved}
use solana_instructions_intr.Dice.Tests.{sent, table, bet, lamports, after, repeat}
use solana_instructions_intr.Dice.GameTests.{world, bet_key}
use solana_instructions_intr.Dice.PriorTests.{house, sig, sizes-IsDocumented, signed_runs, open_bet}

-- The table of a house whose key has 32 bytes.
abbrev house_table : Table
house_table = record table { house = house }

abbrev after_signature : Context
after_signature = record {
  slot = 5001;
  instruction_sysvar = world.sysvar_id;
  prior = ok (signed_ix world.ed25519_id house sig bet);
}

-- Everything that an instruction of the signature program holds.
Signs : Pubkey → List ℕ → List ℕ → Type 0
Signs key message s =
    (ix : Instruction) × (ix.program_id ≡ world.ed25519_id)
    × IsOneSignature ix.ix_data key s message

abbrev Ran : Instruction → Type 0
Ran ix = Unit {0}

all-IsVerifying : IsVerifying world.ed25519_id Ran Signs
unfolding Signs
all-IsVerifying = record { verified = λ ix key s message _ program one. (ix, program, one) }

-- The draw is 35, below the pick of 50.
abbrev won : Pubkey → ℕ
won = sent table.vault table.player 40_204_081 after

draw_resolves : resolve_bet lamports repeat house_table bet sig after ≡ ok won
unfolding resolve_bet settle_bet drawn_roll pay_win win_payout from_le_bytes bytes_eq
draw_resolves = refl

abbrev drawn : Game lamports
drawn = close lamports world house_table bet_key won open_bet

resolve_runs :
    process lamports world after_signature house_table bet_key (resolve sig) open_bet ≡ ok drawn
unfolding process load_bet bytes_eq
resolve_runs = rw (signed_runs, draw_resolves) refl

small_stake : (b : Bet) → ◌≡◌ {A = Option Bet} (some bet) (some b) → IsU64 b.amount
small_stake b e = let it : bet ≡ b = cc e in subst (λ (x : Bet). IsU64 x.amount) it (omega arith)

resolve-Resolved_example : Resolved lamports world Signs house_table bet_key sig open_bet drawn
resolve-Resolved_example =
    resolve-Resolved lamports world Signs after_signature house_table bet_key sig open_bet drawn Ran
      sizes-IsDocumented all-IsVerifying (λ ix _. tt) small_stake resolve_runs
