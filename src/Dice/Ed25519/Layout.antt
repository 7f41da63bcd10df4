-- ===== src/Dice/Ed25519/Layout.antt =====
-- The instruction that `Ed25519Program` of the client library packs for one signature, with the
-- layout that tests/dice_game.ts notes: the header, the key, the signature, the message.
use mathlib.Core.List.{append-nil, append_assoc}
use solana_instructions_intr.Prelude.{
  ℕ, ◌≡◌, refl, arith, List, [], ◌∷◌, ◌++◌, ok, some, true, leb, ◌==◌, length, slice, bytes_eq_self,
  length-append, from_le_bytes,
}
use solana_instructions_intr.Prelude.Slices.{slice_middle}
use solana_instructions_intr.Solana.{Pubkey, Instruction}
use solana_instructions_intr.Dice.Types.{Bet, to_slice}
use solana_instructions_intr.Dice.Types.Encoding.{length-to_slice}
use solana_instructions_intr.Dice.Ed25519.{
  Ed25519Sizes, IsDocumented, Ed25519SignatureOffsets, read_ed25519_instruction_data, u16_at,
  read_offsets, deserialize_ed25519_instruction_data, verify_ed25519_signature,
}

-- Key at 16, signature at 48, message of 66 bytes at 112, all in this instruction.
abbrev pub offset_bytes : List ℕ
offset_bytes = 48 ∷ 0 ∷ 255 ∷ 255 ∷ 16 ∷ 0 ∷ 255 ∷ 255 ∷ 112 ∷ 0 ∷ 66 ∷ 0 ∷ 255 ∷ 255 ∷ []

abbrev pub signed_data : Pubkey → List ℕ → List ℕ → List ℕ
signed_data house sig message = (1 ∷ 0 ∷ []) ++ (offset_bytes ++ (house ++ (sig ++ message)))

abbrev pub signed_ix : Pubkey → Pubkey → List ℕ → Bet → Instruction
signed_ix ed25519_id house sig bet = record {
  program_id = ed25519_id;
  accounts = [];
  ix_data = signed_data house sig (to_slice bet);
}

abbrev pub documented : Ed25519Sizes
documented = record {
  pubkey_serialized_size = 32;
  signature_serialized_size = 64;
  signature_offsets_serialized_size = 14;
  signature_offsets_start = 2;
}

pub IsDocumented-eq : (k : Ed25519Sizes) → IsDocumented k → k ≡ documented
IsDocumented-eq k d = cc (d.pubkey_32, d.signature_64, d.offsets_14, d.start_2)

abbrev packed : Ed25519SignatureOffsets
packed = record {
  signature_offset = 48;
  signature_instruction_index = 65_535;
  public_key_offset = 16;
  public_key_instruction_index = 65_535;
  message_data_offset = 112;
  message_data_size = 66;
  message_instruction_index = 65_535;
}

read_packed : read_offsets offset_bytes ≡ ok packed
unfolding read_offsets u16_at from_le_bytes
read_packed = refl

module _ (house : Pubkey) (sig message : List ℕ) (hk : length house ≡ 32) (hs : length sig ≡ 64)
    (hm : length message ≡ 66) where
  abbrev bytes : List ℕ
  bytes = signed_data house sig message

  offsets_at : slice bytes 2 16 ≡ some offset_bytes
  offsets_at = slice_middle (1 ∷ 0 ∷ []) offset_bytes (house ++ (sig ++ message)) 2 16 refl refl

  key_at : slice bytes 16 48 ≡ some house
  key_at =
      slice_middle ((1 ∷ 0 ∷ []) ++ offset_bytes) house (sig ++ message) 16 48 refl (omega arith)

  signature_at : slice bytes 48 112 ≡ some sig
  signature_at =
      slice_middle ((1 ∷ 0 ∷ []) ++ (offset_bytes ++ house)) sig message 48 112 (omega arith)
        (omega arith)

  message_at : slice bytes 112 178 ≡ some message
  message_at =
      let at =
        slice_middle ((1 ∷ 0 ∷ []) ++ (offset_bytes ++ (house ++ sig))) message [] 112 178
          (omega (arith, length-append house sig)) (omega (arith, length-append house sig)) in
      rw (append_assoc house sig (message ++ []), append-nil message) at at

  long_enough : leb 2 (length bytes) ≡ true
  long_enough = ground arith

  parse_packed :
      deserialize_ed25519_instruction_data documented bytes
      ≡ ok (record { public_key = house; signature = sig; message = message })
  unfolding deserialize_ed25519_instruction_data read_ed25519_instruction_data
  parse_packed = rw (long_enough, offsets_at, read_packed, key_at, signature_at, message_at) refl

accepted :
    (ed25519_id house : Pubkey) (sig : List ℕ) (bet : Bet)
    → length house ≡ 32
    → length sig ≡ 64
    → length (to_slice bet) ≡ 66
    → verify_ed25519_signature documented ed25519_id
        (ok (signed_ix ed25519_id house sig bet))
        house
        bet
        sig
      ≡ ok tt
unfolding verify_ed25519_signature
accepted ed25519_id house sig bet hk hs hm =
    let long : (length house == 32) ≡ true = ground arith in
    rw
      (
        bytes_eq_self ed25519_id,
        parse_packed house sig (to_slice bet) hk hs hm,
        long,
        bytes_eq_self house,
        bytes_eq_self sig,
        bytes_eq_self (to_slice bet),
      )
      refl

-- With the sizes that the crate documents, the packed instruction for a house key of 32 bytes, a
-- signature of 64 bytes and the message of a bet of a player with a 32-byte key is accepted for
-- that house, bet and signature.
pub verify-signed_ix :
    (k : Ed25519Sizes) (ed25519_id house : Pubkey) (sig : List ℕ) (bet : Bet)
    → IsDocumented k
    → length house ≡ 32
    → length sig ≡ 64
    → length bet.player ≡ 32
    → verify_ed25519_signature k ed25519_id (ok (signed_ix ed25519_id house sig bet)) house bet sig
      ≡ ok tt
verify-signed_ix k ed25519_id house sig bet d hk hs hp =
    rw (IsDocumented-eq k d) (accepted ed25519_id house sig bet hk hs (length-to_slice bet hp))
