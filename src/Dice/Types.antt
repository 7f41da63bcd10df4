-- ===== src/Dice/Types.antt =====
-- programs/dice_game/src/state/mod.rs and error.rs.
pub mod Encoding
use solana_instructions_intr.Prelude.{
  ℕ, ◌^◌, ◌<◌, ◌≤◌, ◌≡◌, List, [], ◌∷◌, ◌++◌, Result, map_err, length, IsU64, to_le_bytes,
}
use solana_instructions_intr.Solana.{Pubkey, Failure, program_error}

abbrev pub house_edge_bps : ℕ
house_edge_bps = 150

abbrev pub min_bet_lamports : ℕ
min_bet_lamports = 10_000_000

abbrev pub min_roll : ℕ
min_roll = 1

abbrev pub max_roll : ℕ
max_roll = 99

pub record Bet : Type 0 where
  pub player : Pubkey
  pub seed : ℕ
  pub slot : ℕ
  pub amount : ℕ
  pub roll : ℕ
  pub bump : ℕ

-- The ranges of the Rust types.
pub record IsInRange (b : Bet) : Type 0 where
  pub player_bytes : length b.player ≡ 32
  pub seed_u128 : b.seed < 256 ^ 16
  pub slot_u64 : b.slot < 256 ^ 8
  pub amount_u64 : b.amount < 256 ^ 8
  pub roll_u8 : b.roll < 256
  pub bump_u8 : b.bump < 256

unfoldable pub to_slice : Bet → List ℕ
to_slice b =
    b.player
    ++ (to_le_bytes 16 b.seed
        ++ (to_le_bytes 8 b.slot ++ (to_le_bytes 8 b.amount ++ (b.roll ∷ b.bump ∷ []))))

pub data DiceError : Type 0 where
  minimum_bet minimum_roll maximum_roll math_error timeout_not_reached : DiceError
  ed25519_data_length ed25519_signature_offset ed25519_signature_must_be_one : DiceError
  ed25519_header ed25519_program ed25519_accounts ed25519_pubkey ed25519_signature : DiceError
  ed25519_message invalid_program_id wrong_accounts_count invalid_discriminator : DiceError
  invalid_key invalid_data_length : DiceError

abbrev pub Rolled : Type 0 → Type 0
Rolled A = Result (Failure DiceError) A

abbrev pub called : {A : Type 0} → Result ℕ A → Rolled A
called r = map_err program_error r
