-- ===== src/Dice/Ed25519.antt =====
-- The check of the preceding Ed25519 instruction in
-- programs/dice_game/src/instructions/resolve_bet.rs. The sizes of the serialized parts and the
-- address of the signature program come from other crates and are parameters.
pub mod Parser
pub mod Layout
pub mod Signed
pub mod Precompile
use solana_instructions_intr.Prelude.{
  ℕ, ◌+◌, ◌-◌, ◌&&◌, ◌≡◌, List, [], ◌∷◌, Result, ok, ◌>>=◌, ◌>>◌, require, ok_or, or_panic, map_err,
  leb, ◌==◌, length, slice, get_elem?, from_le_bytes, bytes_eq, u16_mod, u64_mod, checked_add,
}
use solana_instructions_intr.Solana.{Pubkey, key_eq, custom, program_error, Instruction}
use solana_instructions_intr.Dice.Types.{
  Bet, to_slice, Rolled, math_error, ed25519_data_length, ed25519_signature_offset,
  ed25519_signature_must_be_one, ed25519_header, ed25519_program, ed25519_accounts, ed25519_pubkey,
  ed25519_signature, ed25519_message,
}

-- The constants of the crate `solana_ed25519_program`.
pub record Ed25519Sizes : Type 0 where
  pub pubkey_serialized_size : ℕ
  pub signature_serialized_size : ℕ
  pub signature_offsets_serialized_size : ℕ
  pub signature_offsets_start : ℕ

-- The values that the crate documents.
pub record IsDocumented (k : Ed25519Sizes) : Type 0 where
  pub pubkey_32 : k.pubkey_serialized_size ≡ 32
  pub signature_64 : k.signature_serialized_size ≡ 64
  pub offsets_14 : k.signature_offsets_serialized_size ≡ 14
  pub start_2 : k.signature_offsets_start ≡ 2

pub record Ed25519SignatureOffsets : Type 0 where
  pub signature_offset : ℕ
  pub signature_instruction_index : ℕ
  pub public_key_offset : ℕ
  pub public_key_instruction_index : ℕ
  pub message_data_offset : ℕ
  pub message_data_size : ℕ
  pub message_instruction_index : ℕ

pub record Ed25519InstructionData : Type 0 where
  pub public_key : List ℕ
  pub signature : List ℕ
  pub message : List ℕ

-- `usize` has 64 bits on the target.
unfoldable pub read_ed25519_instruction_data : List ℕ → ℕ → ℕ → Rolled (List ℕ)
read_ed25519_instruction_data bytes offset size = do
  end ← ok_or (checked_add u64_mod offset size) (custom math_error)
  ok_or (slice bytes offset end) (custom ed25519_data_length)

-- `u16::from_le_bytes([bytes[i], bytes[i + 1]])`
unfoldable pub u16_at : List ℕ → ℕ → Rolled ℕ
u16_at bytes i = do
  low ← or_panic (get_elem? bytes i)
  high ← or_panic (get_elem? bytes (i + 1))
  ok (from_le_bytes (low ∷ high ∷ []))

unfoldable pub read_offsets : List ℕ → Rolled Ed25519SignatureOffsets
read_offsets bytes = do
  a ← u16_at bytes 0
  b ← u16_at bytes 2
  c ← u16_at bytes 4
  d ← u16_at bytes 6
  e ← u16_at bytes 8
  f ← u16_at bytes 10
  g ← u16_at bytes 12
  ok (record {
    signature_offset = a;
    signature_instruction_index = b;
    public_key_offset = c;
    public_key_instruction_index = d;
    message_data_offset = e;
    message_data_size = f;
    message_instruction_index = g;
  })

-- `u16::MAX`: the data stand in the same instruction.
abbrev pub this_instruction : ℕ
this_instruction = u16_mod - 1

unfoldable pub deserialize_ed25519_instruction_data :
    Ed25519Sizes → List ℕ → Rolled Ed25519InstructionData
deserialize_ed25519_instruction_data k bytes = do
  require (leb k.signature_offsets_start (length bytes)) (custom ed25519_signature_offset)
  signatures ← or_panic (get_elem? bytes 0)
  require (signatures == 1) (custom ed25519_signature_must_be_one)
  offset_end ←
      ok_or (checked_add u64_mod k.signature_offsets_start k.signature_offsets_serialized_size)
        (custom math_error)
  offset_data ← ok_or (slice bytes k.signature_offsets_start offset_end) (custom ed25519_header)
  o ← read_offsets offset_data
  require
      (o.signature_instruction_index == this_instruction
        && o.public_key_instruction_index == this_instruction
        && o.message_instruction_index == this_instruction)
      (custom ed25519_header)
  public_key ← read_ed25519_instruction_data bytes o.public_key_offset k.pubkey_serialized_size
  signature ← read_ed25519_instruction_data bytes o.signature_offset k.signature_serialized_size
  message ← read_ed25519_instruction_data bytes o.message_data_offset o.message_data_size
  ok (record { public_key = public_key; signature = signature; message = message })

-- `prior` is the answer of `get_instruction_relative(-1, sysvar)`. `Pubkey::try_from` fails on a
-- slice that has not 32 bytes.
unfoldable pub verify_ed25519_signature :
    Ed25519Sizes → Pubkey → Result ℕ Instruction → Pubkey → Bet → List ℕ → Rolled (Unit {0})
verify_ed25519_signature k ed25519_id prior house bet sig = do
  ix ← map_err program_error prior
  require (key_eq ix.program_id ed25519_id) (custom ed25519_program)
  require (length ix.accounts == 0) (custom ed25519_accounts)
  found ← deserialize_ed25519_instruction_data k ix.ix_data
  require (length found.public_key == 32) (custom ed25519_pubkey)
  require (key_eq found.public_key house) (custom ed25519_pubkey)
  require (bytes_eq found.signature sig) (custom ed25519_signature)
  require (bytes_eq found.message (to_slice bet)) (custom ed25519_message)
