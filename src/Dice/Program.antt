-- ===== src/Dice/Program.antt =====
-- The entry points of programs/dice_game/src/lib.rs with the account constraints of their
-- instructions: a bet account is created by a bet, and closed by its refund or its resolution.
pub mod Settling
pub mod Lamports
pub mod Effects
pub mod History
pub mod Refunds
pub mod Committed
pub mod Signed
use solana_instructions_intr.Prelude.{
  ℕ, Bool, ◌&&◌, List, [], ◌∷◌, ◌++◌, Option, none, some, Result, ok, err, ◌>>=◌, ◌>>◌, require,
  if◌then◌else◌, to_le_bytes, bytes_eq,
}
use solana_instructions_intr.Solana.{Pubkey, key_eq, constraint, Derivation, Instruction}
use solana_instructions_intr.Dice.Types.{Bet, Rolled, called}
use solana_instructions_intr.Dice.Bets
use solana_instructions_intr.Dice.Bets.{SystemOps, Table}
use solana_instructions_intr.Dice.Ed25519.{Ed25519Sizes, verify_ed25519_signature}
use solana_instructions_intr.Dice.Entropy.{commit_entropy, verify_entropy_commit}
use solana_instructions_intr.Dice.Resolve

-- What stands outside the program.
pub record World : Type 0 where
  pub derivation : Derivation
  pub sha256 : List ℕ → List ℕ
  pub sizes : Ed25519Sizes
  pub ed25519_id : Pubkey
  pub program_id : Pubkey
  pub sysvar_id : Pubkey

-- The slot of the clock, the account `instruction_sysvar` and the preceding instruction.
pub record Context : Type 0 where
  pub slot : ℕ
  pub instruction_sysvar : Pubkey
  pub prior : Result ℕ Instruction

-- The entry points with their arguments; the bump of a new bet account is Anchor's.
pub data Call : Type 0 where
  initialize : (amount : ℕ) → Call
  place : (bump seed amount roll : ℕ) → Call
  refund : Call
  commit : (entropy : List ℕ) → Call
  resolve : (sig : List ℕ) → Call
  resolve_entropy : Call

abbrev pub bet_seeds : Table → ℕ → List (List ℕ)
bet_seeds k seed = (b'b' ∷ b'e' ∷ b't' ∷ []) ∷ k.vault ∷ k.player ∷ to_le_bytes 16 seed ∷ []

abbrev pub is_vault : World → Table → Bool
is_vault w k =
    key_eq k.vault
      (w.derivation.find_program_address ((b'v' ∷ b'a' ∷ b'u' ∷ b'l' ∷ b't' ∷ []) ∷ k.house ∷ []))

-- `init`: the address is the bet's, and no account is there.
abbrev pub is_vacant : Option Bet → Bool
is_vacant none = Bool.true
is_vacant (some b) = Bool.false

-- `has_one = player`, and the seeds with the bump of the bet.
abbrev pub is_bet_of : World → Table → Pubkey → Bet → Bool
is_bet_of w k bet_key b =
    is_vault w k
    && key_eq b.player k.player
    && key_eq bet_key
        (w.derivation.create_program_address (bet_seeds k b.seed ++ ((b.bump ∷ []) ∷ [])))

unfoldable pub load_bet : World → Table → Pubkey → Option Bet → Rolled Bet
load_bet w k bet_key none = err constraint
load_bet w k bet_key (some b) = do require (is_bet_of w k bet_key b) constraint; ok b

abbrev pub put_bet : (Pubkey → Option Bet) → Pubkey → Option Bet → Pubkey → Option Bet
put_bet bets key b j = if bytes_eq key j then b else bets j

-- The bet accounts, by their addresses, and the ledger.
pub record Game (t : SystemOps) : Type 0 where
  pub bets : Pubkey → Option Bet
  pub lamports : t.Lamports

module _ (t : SystemOps) (w : World) where
  -- `close = player` at the end of an instruction that settles the bet.
  abbrev pub close : Table → Pubkey → t.Lamports → Game t → Game t
  close k bet_key l g = record {
    bets = put_bet g.bets bet_key none;
    lamports = t.close_account bet_key k.player l;
  }

  unfoldable pub process : Context → Table → Pubkey → Call → Game t → Rolled (Game t)
  process x k bet_key (initialize amount) g = do
    require (is_vault w k) constraint
    l ← Bets.init t k amount g.lamports
    ok (record { bets = g.bets; lamports = l })
  process x k bet_key (place bump seed amount roll) g = do
    require (is_vault w k) constraint
    require
        (key_eq bet_key (w.derivation.find_program_address (bet_seeds k seed))
          && is_vacant (g.bets bet_key))
        constraint
    l ← called (t.create_account k.player bet_key g.lamports)
    made ← Bets.place_bet t k x.slot bump seed amount roll l
    ok (record { bets = put_bet g.bets bet_key (some made.0); lamports = made.1 })
  process x k bet_key refund g = do
    bet ← load_bet w k bet_key (g.bets bet_key)
    l ← Bets.refund_bet t k x.slot bet g.lamports
    ok (close k bet_key l g)
  process x k bet_key (commit entropy) g = do
    bet ← load_bet w k bet_key (g.bets bet_key)
    commit_entropy entropy
    ok g
  process x k bet_key (resolve sig) g = do
    bet ← load_bet w k bet_key (g.bets bet_key)
    require (key_eq x.instruction_sysvar w.sysvar_id) constraint
    verify_ed25519_signature w.sizes w.ed25519_id x.prior k.house bet sig
    l ← Resolve.resolve_bet t w.sha256 k bet sig g.lamports
    ok (close k bet_key l g)
  process x k bet_key resolve_entropy g = do
    bet ← load_bet w k bet_key (g.bets bet_key)
    require (key_eq x.instruction_sysvar w.sysvar_id) constraint
    entropy ← verify_entropy_commit w.program_id x.prior k bet_key
    l ← Resolve.resolve_from_entropy t w.sha256 k bet_key bet entropy g.lamports
    ok (close k bet_key l g)
