-- ===== src/Dice/Ed25519/Signed.antt =====
-- What a verified Ed25519 instruction (resolve_bet.rs) says.
use solana_instructions_intr.Prelude.{
  ℕ, ◌≡◌, sym, ap, ◌∙◌, List, Result, ok, require, map_err, ◌==◌, length, bytes_eq, bytes_eq→eq,
  >>=-eq-ok, map_err-eq-ok, require-eq-ok,
}
use solana_instructions_intr.Solana.{Pubkey, key_eq, custom, program_error, Instruction}
use solana_instructions_intr.Dice.Types.{
  Bet, IsInRange, to_slice, ed25519_program, ed25519_accounts, ed25519_pubkey, ed25519_signature,
}
use solana_instructions_intr.Dice.Types.Encoding.{to_slice_inj}
use solana_instructions_intr.Dice.Ed25519.{
  Ed25519Sizes, Ed25519InstructionData, deserialize_ed25519_instruction_data,
  verify_ed25519_signature,
}

-- The prior instruction is one of the signature program, and its data parse to the house's key,
-- the signature and the message of the bet.
pub record IsSigned (k : Ed25519Sizes) (ed25519_id : Pubkey) (prior : Result ℕ Instruction)
    (house : Pubkey) (bet : Bet) (sig : List ℕ) : Type 0 where
  pub ix : Instruction
  pub found : Ed25519InstructionData
  pub prior_of : prior ≡ ok ix
  pub program : ix.program_id ≡ ed25519_id
  pub parsed : deserialize_ed25519_instruction_data k ix.ix_data ≡ ok found
  pub key : found.public_key ≡ house
  pub signature : found.signature ≡ sig
  pub message : found.message ≡ to_slice bet

pub verify-IsSigned :
    (k : Ed25519Sizes) (ed25519_id : Pubkey) (prior : Result ℕ Instruction) (house : Pubkey)
    (bet : Bet) (sig : List ℕ)
    → verify_ed25519_signature k ed25519_id prior house bet sig ≡ ok tt
    → IsSigned k ed25519_id prior house bet sig
unfolding verify_ed25519_signature
verify-IsSigned k ed25519_id prior house bet sig e =
    let (ix, e0, k0) = >>=-eq-ok (map_err program_error prior) _ e in
    let (_, e1, k1) =
      >>=-eq-ok (require (key_eq ix.program_id ed25519_id) (custom ed25519_program)) _ k0 in
    let (_, e2, k2) =
      >>=-eq-ok (require (length ix.accounts == 0) (custom ed25519_accounts)) _ k1 in
    let (f, e3, k3) = >>=-eq-ok (deserialize_ed25519_instruction_data k ix.ix_data) _ k2 in
    let (_, e4, k4) =
      >>=-eq-ok (require (length f.public_key == 32) (custom ed25519_pubkey)) _ k3 in
    let (_, e5, k5) =
      >>=-eq-ok (require (key_eq f.public_key house) (custom ed25519_pubkey)) _ k4 in
    let (_, e6, k6) =
      >>=-eq-ok (require (bytes_eq f.signature sig) (custom ed25519_signature)) _ k5 in
    record {
      ix = ix;
      found = f;
      prior_of = map_err-eq-ok program_error prior e0;
      program = bytes_eq→eq ix.program_id ed25519_id (require-eq-ok _ _ e1);
      parsed = e3;
      key = bytes_eq→eq f.public_key house (require-eq-ok _ _ e5);
      signature = bytes_eq→eq f.signature sig (require-eq-ok _ _ e6);
      message = bytes_eq→eq f.message (to_slice bet) (require-eq-ok _ _ k6);
    }

-- One prior instruction resolves one bet: where it is accepted for two houses, bets within the
-- ranges of the Rust types and signatures, the houses, the bets and the signatures are the same.
pub verify_binds :
    (k : Ed25519Sizes) (ed25519_id : Pubkey) (prior : Result ℕ Instruction) (h h' : Pubkey)
    (b b' : Bet) (s s' : List ℕ)
    → IsInRange b
    → IsInRange b'
    → verify_ed25519_signature k ed25519_id prior h b s ≡ ok tt
    → verify_ed25519_signature k ed25519_id prior h' b' s' ≡ ok tt
    → (h ≡ h') × (b ≡ b') × (s ≡ s')
verify_binds k ed25519_id prior h h' b b' s s' r r' e e' =
    let v = verify-IsSigned k ed25519_id prior h b s e in
    let w = verify-IsSigned k ed25519_id prior h' b' s' e' in
    let same_ix : ◌≡◌ {A = Result ℕ Instruction} (ok v.ix) (ok w.ix) =
      sym v.prior_of ∙ w.prior_of in
    let ix : v.ix ≡ w.ix = cc same_ix in
    let same : v.found ≡ w.found = cc (v.parsed, w.parsed, ix) in
    (
      sym v.key ∙ ap (λ f. f.public_key) same ∙ w.key,
      to_slice_inj b b' r r' (sym v.message ∙ ap (λ f. f.message) same ∙ w.message),
      sym v.signature ∙ ap (λ f. f.signature) same ∙ w.signature,
    )
