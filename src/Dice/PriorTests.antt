-- ===== src/Dice/PriorTests.antt =====
-- The checks of the preceding instruction at concrete instructions.
use solana_instructions_intr.Prelude.{
  ℕ, ◌≡◌, ◌≢◌, ◌↔◌, refl, List, [], ◌∷◌, ◌++◌, false, true, some, ok, ◌>>=◌, panic, arith, bytes_eq,
}
use solana_instructions_intr.Solana.{Pubkey, AccountMeta, Instruction}
use solana_instructions_intr.Dice.Ed25519.{IsDocumented, verify_ed25519_signature}
use solana_instructions_intr.Dice.Ed25519.Parser.{verify-ne-panic}
use solana_instructions_intr.Dice.Ed25519.Signed.{verify_binds}
use solana_instructions_intr.Dice.Ed25519.Layout.{signed_ix, verify-signed_ix}
use solana_instructions_intr.Dice.Entropy.{verify_entropy_commit}
use solana_instructions_intr.Dice.Entropy.Commit.{IsCommit, verify_entropy_commit-IsCommit}
use solana_instructions_intr.Dice.Resolve.Payout.{draw, bet_outcome}
use solana_instructions_intr.Dice.Program.{
  Context, resolve_entropy, is_bet_of, Game, close, process,
}
use solana_instructions_intr.Dice.Program.Committed.{seed_of, committed-bet_outcome}
use solana_instructions_intr.Dice.Tests.{eight, table, bet, bet-IsInRange, lamports, after, repeat}
use solana_instructions_intr.Dice.GameTests.{world, bet_key}

abbrev pub house : Pubkey
house = eight ++ (eight ++ (eight ++ eight))

abbrev pub sig : List ℕ
sig = house ++ house

pub sizes-IsDocumented : IsDocumented world.sizes
sizes-IsDocumented = record {
  pubkey_32 = refl;
  signature_64 = refl;
  offsets_14 = refl;
  start_2 = refl;
}

pub signed_runs :
    verify_ed25519_signature world.sizes world.ed25519_id
      (ok (signed_ix world.ed25519_id house sig bet))
      house
      bet
      sig
    ≡ ok tt
signed_runs =
    verify-signed_ix world.sizes world.ed25519_id house sig bet sizes-IsDocumented refl refl refl

verify-signed_ix_example :
    verify_ed25519_signature world.sizes world.ed25519_id
      (ok (signed_ix world.ed25519_id house sig bet))
      house
      bet
      sig
    ≡ ok tt
verify-signed_ix_example =
    verify-signed_ix world.sizes world.ed25519_id house sig bet sizes-IsDocumented refl refl refl

verify_binds_example : (house ≡ house) × (bet ≡ bet) × (sig ≡ sig)
verify_binds_example =
    verify_binds world.sizes world.ed25519_id (ok (signed_ix world.ed25519_id house sig bet)) house
      house bet bet sig sig bet-IsInRange bet-IsInRange signed_runs signed_runs

-- A header that names no data.
abbrev cut_off : Instruction
cut_off = record { program_id = world.ed25519_id; accounts = []; ix_data = 1 ∷ 0 ∷ 48 ∷ [] }

verify-ne-panic_example :
    verify_ed25519_signature world.sizes world.ed25519_id (ok cut_off) house bet sig ≢ panic
verify-ne-panic_example =
    verify-ne-panic world.sizes world.ed25519_id (ok cut_off) house bet sig sizes-IsDocumented
      (λ p. cc p)

abbrev meta_of : Pubkey → AccountMeta
meta_of k = record { pubkey = k; is_signer = false; is_writable = false }

abbrev commit_ix : Instruction
commit_ix = record {
  program_id = world.program_id;
  accounts =
      meta_of table.house ∷ meta_of table.player ∷ meta_of table.vault ∷ meta_of bet_key ∷ [];
  ix_data = 0 ∷ house;
}

verify_entropy_commit-IsCommit_example :
    (verify_entropy_commit world.program_id (ok commit_ix) table bet_key ≡ ok house)
    ↔ IsCommit world.program_id table bet_key house commit_ix
verify_entropy_commit-IsCommit_example =
    verify_entropy_commit-IsCommit world.program_id table bet_key house commit_ix

committed_here : IsCommit world.program_id table bet_key house commit_ix
committed_here = record { program = refl; keys = refl; call_data = refl; whole = refl }

abbrev after_commit : Context
after_commit = record { slot = 5001; instruction_sysvar = world.sysvar_id; prior = ok commit_ix }

abbrev pub open_bet : Game lamports
open_bet = record { bets = λ j. some bet; lamports = after }

held_here : is_bet_of world table bet_key bet ≡ true
unfolding bytes_eq
held_here = refl

committed-bet_outcome_example :
    process lamports world after_commit table bet_key resolve_entropy open_bet ≡ (do
      l ← bet_outcome lamports table bet (draw (repeat (seed_of bet_key bet house))) after
      ok (close lamports world table bet_key l open_bet))
committed-bet_outcome_example =
    committed-bet_outcome lamports world after_commit table bet_key bet house commit_ix open_bet
      (omega arith) refl held_here refl refl committed_here
