-- ===== src/Dice/Entropy.antt =====
-- The entropy committed by the preceding instruction: commit_entropy.rs and
-- `verify_entropy_commit` of resolve_from_entropy.rs in programs/dice_game/src/instructions.
pub mod Keys
pub mod Commit
use solana_instructions_intr.Prelude.{
  ℕ, List, [], ◌∷◌, Result, ok, ◌>>=◌, ◌>>◌, require, or_panic, map_err, ◌==◌, length, slice,
  get_elem?,
}
use solana_instructions_intr.Solana.{
  Pubkey, key_eq, custom, program_error, AccountMeta, Instruction,
}
use solana_instructions_intr.Dice.Types.{
  Rolled, invalid_program_id, wrong_accounts_count, invalid_key, invalid_data_length,
  invalid_discriminator,
}
use solana_instructions_intr.Dice.Bets.{Table}

-- The handler of the commit does nothing.
unfoldable pub commit_entropy : List ℕ → Rolled (Unit {0})
commit_entropy entropy = ok tt

-- `require_keys_eq!(ix.accounts[i].pubkey, key, DiceError::InvalidKey)`
unfoldable pub require_key : List AccountMeta → ℕ → Pubkey → Rolled (Unit {0})
require_key accounts i key = do
  m ← or_panic (get_elem? accounts i)
  require (key_eq m.pubkey key) (custom invalid_key)

unfoldable pub verify_entropy_commit :
    Pubkey → Result ℕ Instruction → Table → Pubkey → Rolled (List ℕ)
unfolding require_key
verify_entropy_commit program_id prior k bet_key = do
  ix ← map_err program_error prior
  require (key_eq ix.program_id program_id) (custom invalid_program_id)
  require (length ix.accounts == 4) (custom wrong_accounts_count)
  require_key ix.accounts 0 k.house
  require_key ix.accounts 1 k.player
  require_key ix.accounts 2 k.vault
  require_key ix.accounts 3 bet_key
  require (length ix.ix_data == 33) (custom invalid_data_length)
  discriminator ← or_panic (get_elem? ix.ix_data 0)
  require (discriminator == 0) (custom invalid_discriminator)
  entropy ← or_panic (slice ix.ix_data 1 33)
  require (length entropy == 32) (custom invalid_data_length)
  ok entropy
