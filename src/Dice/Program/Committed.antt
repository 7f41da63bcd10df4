-- ===== src/Dice/Program/Committed.antt =====
-- A bet resolved from committed entropy, as a whole call (programs/dice_game/src/lib.rs).
use solana_instructions_intr.Prelude.{
  ℕ, true, ◌++◌, ◌≡◌, refl, List, some, ok, ◌>>=◌, IsU64, to_le_bytes, bytes_eq_self,
}
use solana_instructions_intr.Solana.{Pubkey, Instruction}
use solana_instructions_intr.Dice.Types.{Bet}
use solana_instructions_intr.Dice.Bets.{SystemOps, Table}
use solana_instructions_intr.Dice.Entropy.Commit.{IsCommit, verify_entropy_commit-IsCommit}
use solana_instructions_intr.Dice.Resolve.{resolve_bet, resolve_from_entropy}
use solana_instructions_intr.Dice.Resolve.Payout.{draw, bet_outcome, resolve_bet-bet_outcome}
use solana_instructions_intr.Dice.Program.{
  World, Context, resolve_entropy, is_bet_of, load_bet, Game, close, process,
}

-- What the hash is taken of.
abbrev pub seed_of : Pubkey → Bet → List ℕ → List ℕ
seed_of bet_key b entropy = entropy ++ (bet_key ++ to_le_bytes 8 b.slot)

resolve_from_entropy-bet_outcome :
    (t : SystemOps) (sha256 : List ℕ → List ℕ) (k : Table) (bet_key : Pubkey) (b : Bet)
    (entropy : List ℕ) (l : t.Lamports)
    → IsU64 b.amount
    → resolve_from_entropy t sha256 k bet_key b entropy l
      ≡ bet_outcome t k b (draw (sha256 (seed_of bet_key b entropy))) l
unfolding resolve_from_entropy resolve_bet
resolve_from_entropy-bet_outcome t sha256 k bet_key b entropy l w =
    (resolve_bet-bet_outcome t sha256 k b (seed_of bet_key b entropy) l w).2

-- For an open bet with a stake of a u64, the accounts that its constraints ask for, and any 32
-- bytes that the prior instruction commits for these accounts, the resolution is refused or
-- settles the bet just as the draw from these bytes says: the hash of the bytes, the address of the
-- bet and its slot decide whether the prize is paid, and then the account of the bet is closed.
pub committed-bet_outcome :
    (t : SystemOps) (w : World) (x : Context) (k : Table) (bet_key : Pubkey) (b : Bet)
    (entropy : List ℕ) (ix : Instruction) (g : Game t)
    → IsU64 b.amount
    → g.bets bet_key ≡ some b
    → is_bet_of w k bet_key b ≡ true
    → x.instruction_sysvar ≡ w.sysvar_id
    → x.prior ≡ ok ix
    → IsCommit w.program_id k bet_key entropy ix
    → process t w x k bet_key resolve_entropy g ≡ (do
      l ← bet_outcome t k b (draw (w.sha256 (seed_of bet_key b entropy))) g.lamports
      ok (close t w k bet_key l g))
unfolding process load_bet
committed-bet_outcome t w x k bet_key b entropy ix g small found held sysvar prior c =
    let read = (verify_entropy_commit-IsCommit w.program_id k bet_key entropy ix).1 c in
    let outcome =
      resolve_from_entropy-bet_outcome t w.sha256 k bet_key b entropy g.lamports small in
    rw (found, held, sysvar, bytes_eq_self w.sysvar_id, prior, read, outcome) refl
