-- ===== src/Dice/Ed25519/Parser.antt =====
-- The parser of the Ed25519 instruction (resolve_bet.rs) never reads out of bounds.
use solana_instructions_intr.Prelude.{
  ℕ, ◌+◌, ◌<◌, ◌≡◌, ◌≢◌, refl, ◌∙◌, arith, List, [], ◌∷◌, Result, ok, panic, require, ok_or,
  or_panic, map_err, >>=-ne-panic, require-ne-panic, ok_or-ne-panic, map_err-ne-panic,
  require-eq-ok, leb, ◌==◌, ◌>>=◌, length, slice, get_elem?, bytes_eq, checked_add, u64_mod,
  from_le_bytes, Option, some, none,
}
use solana_instructions_intr.Prelude.Slices.{in_bounds, length-slice}
use solana_instructions_intr.Solana.{Pubkey, Failure, key_eq, custom, program_error, Instruction}
use solana_instructions_intr.Dice.Types.{
  Bet, DiceError, Rolled, math_error, ed25519_signature_offset, ed25519_signature_must_be_one,
  ed25519_header, ed25519_program, ed25519_accounts, ed25519_pubkey, ed25519_signature,
}
use solana_instructions_intr.Dice.Ed25519.{
  Ed25519Sizes, IsDocumented, Ed25519SignatureOffsets, Ed25519InstructionData,
  read_ed25519_instruction_data, u16_at, read_offsets, deserialize_ed25519_instruction_data,
  verify_ed25519_signature,
}

read-ne-panic : (bs : List ℕ) (i n : ℕ) → read_ed25519_instruction_data bs i n ≢ panic
unfolding read_ed25519_instruction_data
read-ne-panic bs i n =
    >>=-ne-panic (ok_or (checked_add u64_mod i n) (custom math_error)) _ (ok_or-ne-panic _ _)
      (λ end _. ok_or-ne-panic _ _)

-- Within the bounds an entry is read.
u16_at_total : (bs : List ℕ) (i : ℕ) → i + 1 < length bs → (n : ℕ) × (u16_at bs i ≡ ok n)
unfolding u16_at
u16_at_total bs i h =
    let (low, e1) = in_bounds bs i (omega arith) in
    let (high, e2) = in_bounds bs (i + 1) h in (from_le_bytes (low ∷ high ∷ []), rw (e1, e2) refl)

pub read_offsets_total :
    (bs : List ℕ) → length bs ≡ 14 → (o : Ed25519SignatureOffsets) × (read_offsets bs ≡ ok o)
unfolding read_offsets
read_offsets_total bs h =
    let (a, ea) = u16_at_total bs 0 (omega arith) in
    let (b, eb) = u16_at_total bs 2 (omega arith) in
    let (c, ec) = u16_at_total bs 4 (omega arith) in
    let (d, ed) = u16_at_total bs 6 (omega arith) in
    let (e, ee) = u16_at_total bs 8 (omega arith) in
    let (f, ef) = u16_at_total bs 10 (omega arith) in
    let (g, eg) = u16_at_total bs 12 (omega arith) in
    (
      record {
        signature_offset = a;
        signature_instruction_index = b;
        public_key_offset = c;
        public_key_instruction_index = d;
        message_data_offset = e;
        message_data_size = f;
        message_instruction_index = g;
      },
      rw (ea, eb, ec, ed, ee, ef, eg) refl,
    )

or_panic-ne-panic {ℓ} :
    {A : Type ℓ} (o : Option A) {a : A}
    → o ≡ some a
    → ◌≢◌ {A = Result (Failure DiceError) A} (or_panic o) panic
or_panic-ne-panic none e = cc
or_panic-ne-panic (some b) e = λ p. cc p

ok_or-some :
    (o : Option (List ℕ)) (e : Failure DiceError) {a : List ℕ}
    → ◌≡◌ {A = Rolled (List ℕ)} (ok_or o e) (ok a)
    → o ≡ some a
ok_or-some none e h = cc
ok_or-some (some b) e h = cc

-- The offsets cover fourteen bytes.
offsets_slice :
    (k : Ed25519Sizes) (bs : List ℕ) (end : ℕ) (part : List ℕ)
    → IsDocumented k
    → ◌≡◌ {A = Rolled ℕ}
        (ok_or
          (checked_add u64_mod k.signature_offsets_start k.signature_offsets_serialized_size)
          (custom math_error))
        (ok end)
    → slice bs k.signature_offsets_start end ≡ some part
    → length part ≡ 14
offsets_slice k bs end part d e h =
    length-slice bs k.signature_offsets_start end h ∙ ground (arith, d.start_2, d.offsets_14, e)

-- The three reads of the last part.
parts-ne-panic :
    (bs : List ℕ) (o : Ed25519SignatureOffsets) (k : Ed25519Sizes)
    → ◌≢◌ {A = Rolled Ed25519InstructionData}
        (do
          public_key ← read_ed25519_instruction_data bs o.public_key_offset k.pubkey_serialized_size
          signature ←
              read_ed25519_instruction_data bs o.signature_offset k.signature_serialized_size
          message ← read_ed25519_instruction_data bs o.message_data_offset o.message_data_size
          ok (record { public_key = public_key; signature = signature; message = message }))
        panic
parts-ne-panic bs o k =
    >>=-ne-panic (read_ed25519_instruction_data bs o.public_key_offset k.pubkey_serialized_size) _
      (read-ne-panic _ _ _)
      λ _ _.
        >>=-ne-panic
          (read_ed25519_instruction_data bs o.signature_offset k.signature_serialized_size) _
          (read-ne-panic _ _ _)
          λ _ _.
            >>=-ne-panic
              (read_ed25519_instruction_data bs o.message_data_offset o.message_data_size) _
              (read-ne-panic _ _ _) λ _ _. λ p. cc p

deserialize-ne-panic :
    (k : Ed25519Sizes) (bs : List ℕ)
    → IsDocumented k
    → deserialize_ed25519_instruction_data k bs ≢ panic
unfolding deserialize_ed25519_instruction_data
deserialize-ne-panic k bs d =
    >>=-ne-panic
      (require (leb k.signature_offsets_start (length bs)) (custom ed25519_signature_offset)) _
      (require-ne-panic _ _)
      λ _ long.
        let room : 0 < length bs =
          ground
            (arith, d.start_2, require-eq-ok (leb k.signature_offsets_start (length bs)) _ long) in
        >>=-ne-panic (or_panic (get_elem? bs 0)) _ (or_panic-ne-panic _ (in_bounds bs 0 room).1)
          λ count _.
            >>=-ne-panic (require (count == 1) (custom ed25519_signature_must_be_one)) _
              (require-ne-panic _ _)
              λ _ _.
                >>=-ne-panic
                  (ok_or
                    (checked_add u64_mod k.signature_offsets_start
                      k.signature_offsets_serialized_size)
                    (custom math_error))
                  _ (ok_or-ne-panic _ _)
                  λ end ends.
                    >>=-ne-panic
                      (ok_or (slice bs k.signature_offsets_start end) (custom ed25519_header)) _
                      (ok_or-ne-panic _ _)
                      λ part cut.
                        let (o, read) =
                          read_offsets_total part
                            (offsets_slice k bs end part d ends (ok_or-some _ _ cut)) in
                        >>=-ne-panic (read_offsets part) _ (λ p. cc (p, read))
                          λ o' _.
                            >>=-ne-panic (require _ _) _ (require-ne-panic _ _)
                              λ _ _. parts-ne-panic bs o' k

-- With the sizes that the crate documents, and unless reading the prior instruction panics, the
-- check ends without a panic however malformed that instruction is: it accepts or returns an error.
pub verify-ne-panic :
    (k : Ed25519Sizes) (ed25519_id : Pubkey) (prior : Result ℕ Instruction) (house : Pubkey)
    (bet : Bet) (sig : List ℕ)
    → IsDocumented k
    → prior ≢ panic
    → verify_ed25519_signature k ed25519_id prior house bet sig ≢ panic
unfolding verify_ed25519_signature
verify-ne-panic k ed25519_id prior house bet sig d given =
    >>=-ne-panic (map_err program_error prior) _ (map_err-ne-panic program_error prior given)
      λ ix _.
        >>=-ne-panic (require (key_eq ix.program_id ed25519_id) (custom ed25519_program)) _
          (require-ne-panic _ _)
          λ _ _.
            >>=-ne-panic (require (length ix.accounts == 0) (custom ed25519_accounts)) _
              (require-ne-panic _ _)
              λ _ _.
                >>=-ne-panic (deserialize_ed25519_instruction_data k ix.ix_data) _
                  (deserialize-ne-panic k ix.ix_data d)
                  λ f _.
                    >>=-ne-panic (require (length f.public_key == 32) (custom ed25519_pubkey)) _
                      (require-ne-panic _ _)
                      λ _ _.
                        >>=-ne-panic (require (key_eq f.public_key house) (custom ed25519_pubkey)) _
                          (require-ne-panic _ _)
                          λ _ _.
                            >>=-ne-panic
                              (require (bytes_eq f.signature sig) (custom ed25519_signature)) _
                              (require-ne-panic _ _) λ _ _. require-ne-panic _ _
