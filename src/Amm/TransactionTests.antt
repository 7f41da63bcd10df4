-- ===== src/Amm/TransactionTests.antt =====
-- A burn and the withdrawal that confirms it, in one transaction.
use solana_instructions_intr.Prelude.{
  ◌⊎◌, inl, inr, from_le_bytes-to_le_bytes, ◌≢◌, ℕ, Bool, ◌&&◌, ◌≤◌, ◌≡◌, refl, sym, ap, ◌∙◌, arith,
  true, false, List, [], ◌∷◌, ◌++◌, Option, none, some, ok, if◌then◌else◌, IsU64, to_le_bytes,
  from_le_bytes, append_inj, bytes_eq, bytes_eq→eq,
}
use solana_instructions_intr.Solana.{Pubkey, AccountMeta, Instruction, keys_of}
use solana_instructions_intr.Solana.TokenModel.{moved, burned, book_ops, book_ops-IsTokenProgram}
use solana_instructions_intr.Cpmm.Types.{IsWellTyped}
use solana_instructions_intr.Cpmm.Withdraw.Value.{KeepsValue}
use solana_instructions_intr.Cpmm.Withdraw.{withdraw_balanced}
use solana_instructions_intr.Cpmm.Withdraw as Cpmm_withdraw
use solana_instructions_intr.Amm.Types.{op_balanced}
use solana_instructions_intr.Amm.Accounts.{
  LpAccounts, lp_constraints, swap_constraints, burn_constraints,
}
use solana_instructions_intr.Amm.Transfers.{transfer_vault_to_user}
use solana_instructions_intr.Amm.Withdraw as Amm_withdraw
use solana_instructions_intr.Amm.Withdraw.{execute_withdraw_transfers}
use solana_instructions_intr.Amm.Introspection as Introspection
use solana_instructions_intr.Amm.Introspection.{
  expected_accounts, check_keys, confirm_burn_accounts, confirm_burn, introspection_constraints,
}
use solana_instructions_intr.Amm.Program.{
  Call, burn_lp_tokens, withdraw_w_introspection, Amm, process,
}
use solana_instructions_intr.Amm.Transaction.{
  Trace, started, calls, foreign, Wire, IsAnchor, given, pool, Run, begun, called, elsewhere,
}
use solana_instructions_intr.Amm.Transaction.Claims.{JustBurned, claim-JustBurned}
use solana_instructions_intr.Amm.Transaction.Runs.{Run-KeepsValue}
use solana_instructions_intr.Amm.Samples.{key, config}
use solana_instructions_intr.Amm.AddressTests.{ata, addresses, addresses-IsCollisionFree, listed}
use solana_instructions_intr.Amm.ProgramTests.{
  book, opened, opened-IsWellTyped, mints_apart, user_apart, found,
}

abbrev burn_code : List ℕ
burn_code = 21 ∷ 22 ∷ 23 ∷ 24 ∷ 25 ∷ 26 ∷ 27 ∷ 28 ∷ []

-- The bytes of 500.
abbrev amount_bytes : List ℕ
amount_bytes = 244 ∷ 1 ∷ 0 ∷ 0 ∷ 0 ∷ 0 ∷ 0 ∷ 0 ∷ []

abbrev burn_bytes : List ℕ
burn_bytes = burn_code ++ amount_bytes

abbrev claim_bytes : List ℕ
claim_bytes = 31 ∷ 32 ∷ 33 ∷ 34 ∷ 35 ∷ 36 ∷ 37 ∷ 38 ∷ amount_bytes

abbrev starts : List Pubkey → List Pubkey → Bool
starts [] l = true
starts (j ∷ js) [] = false
starts (j ∷ js) (l ∷ ls) = bytes_eq j l && starts js ls

starts-split :
    (js ls : List Pubkey) → starts js ls ≡ true → (others : List Pubkey) × (ls ≡ js ++ others)
starts-split [] ls h = (ls, refl)
starts-split (j ∷ js) [] h = cc
starts-split (j ∷ js) (l ∷ ls) h =
    let same : bytes_eq j l ≡ true = ground arith in
    let (others, e) = starts-split js ls (ground arith) in (others, cc (e, bytes_eq→eq j l same))

abbrev claim : Call
claim = withdraw_w_introspection 500 op_balanced 250 1000

abbrev call_of : Bool → Bool → Bool → Option (LpAccounts × Call)
call_of known is_burn is_claim =
    if known
    then (if is_burn
        then some (listed, burn_lp_tokens 500)
        else if is_claim
        then some (listed, claim)
        else none)
    else none

abbrev read : Instruction → Option (LpAccounts × Call)
read ix =
    call_of (starts (expected_accounts listed) (keys_of ix.accounts))
      (bytes_eq ix.ix_data burn_bytes) (bytes_eq ix.ix_data claim_bytes)

abbrev wire : Wire
wire = record { program_id = key 99; burn_discriminator = burn_code; decode = read }

-- The two calls that `read` knows.
Known : Bool → Bool → Bool → LpAccounts → Call → Type 0
Known known is_burn is_claim a c =
    (known ≡ true)
    × (a ≡ listed)
    × (((is_burn ≡ true) × (c ≡ burn_lp_tokens 500)) ⊎ ((is_claim ≡ true) × (c ≡ claim)))

known :
    (known is_burn is_claim : Bool) (a : LpAccounts) (c : Call)
    → call_of known is_burn is_claim ≡ some (a, c)
    → Known known is_burn is_claim a c
unfolding Known
known false is_burn is_claim a c e = cc
known true true is_claim a c e = (refl, cc e, inl (refl, cc e))
known true false true a c e = (refl, cc e, inr (refl, cc e))
known true false false a c e = cc

reads :
    (ix : Instruction) (a : LpAccounts) (c : Call)
    → read ix ≡ some (a, c)
    → Known
        (starts (expected_accounts listed) (keys_of ix.accounts))
        (bytes_eq ix.ix_data burn_bytes)
        (bytes_eq ix.ix_data claim_bytes)
        a
        c
reads ix a c e =
    known (starts (expected_accounts listed) (keys_of ix.accounts)) (bytes_eq ix.ix_data burn_bytes)
      (bytes_eq ix.ix_data claim_bytes) a c e

bytes_of_500 : (n : ℕ) → IsU64 n → amount_bytes ≡ to_le_bytes 8 n → 500 ≡ n
unfolding from_le_bytes
bytes_of_500 n small e = ap from_le_bytes e ∙ from_le_bytes-to_le_bytes 8 n small

dispatched :
    (ix : Instruction) (a : LpAccounts) (c : Call) (n : ℕ)
    → IsU64 n
    → read ix ≡ some (a, c)
    → ix.ix_data ≡ burn_code ++ to_le_bytes 8 n
    → c ≡ burn_lp_tokens n
unfolding Known
dispatched ix a c n small e is_data =
    let (_, _, which) = reads ix a c e in
    elim which [
      | inl (same, it) ↦
          let bytes = sym (bytes_eq→eq ix.ix_data burn_bytes same) ∙ is_data in
          let (_, tail) =
            append_inj burn_code amount_bytes burn_code (to_le_bytes 8 n) refl bytes in
          it ∙ ap burn_lp_tokens (bytes_of_500 n small tail)
      | inr (same, it) ↦ let bytes = sym (bytes_eq→eq ix.ix_data claim_bytes same) ∙ is_data in cc
    ]

wire-IsAnchor : IsAnchor wire
unfolding Known
wire-IsAnchor = record {
  eight = refl;
  dispatches = dispatched;
  in_order = λ ix a n e.
      let (first, same, _) = reads ix a (burn_lp_tokens n) e in
      let (others, keys) = starts-split (expected_accounts listed) (keys_of ix.accounts) first in
      (others, keys ∙ ap (λ x. expected_accounts x ++ others) (sym same));
}

abbrev meta : Pubkey → AccountMeta
meta j = record { pubkey = j; is_signer = false; is_writable = false }

-- An instruction with the accounts of `listed` in the order of `expected_accounts`.
abbrev listing : List ℕ → Instruction
listing bytes = record {
  program_id = key 99;
  accounts =
      meta (key 1)
      ∷ meta (key 2)
      ∷ meta (key 3)
      ∷ meta (key 4)
      ∷ meta (key 5)
      ∷ meta (ata (key 1) (key 5))
      ∷ meta (key 10)
      ∷ meta (key 11)
      ∷ meta (key 12)
      ∷ [];
  ix_data = bytes;
}

-- A limit on the compute units, set by another program.
abbrev budget : Instruction
budget = record { program_id = key 97; accounts = []; ix_data = 2 ∷ [] }

abbrev after_burn : Amm book_ops
after_burn = record opened { ledger = burned book (key 5) (ata (key 1) (key 5)) 500 }

abbrev after_claim : Amm book_ops
after_claim = record opened {
  ledger =
      moved (moved after_burn.ledger (ata (key 4) (key 2)) (ata (key 1) (key 2)) 250)
        (ata (key 4) (key 3)) (ata (key 1) (key 3)) 1000;
}

burn_call :
    process book_ops addresses
      (given wire (key 98) (key 98) (ok budget))
      listed
      (burn_lp_tokens 500)
      opened
    ≡ ok after_burn
unfolding process burn_constraints Amm_withdraw.burn_lp bytes_eq
burn_call = refl

claim_call :
    process book_ops addresses
      (given wire (key 98) (key 98) (ok (listing burn_bytes)))
      listed
      claim
      after_burn
    ≡ ok after_claim
unfolding process introspection_constraints lp_constraints swap_constraints
    Introspection.withdraw_w_introspection confirm_burn confirm_burn_accounts check_keys bytes_eq
    from_le_bytes execute_withdraw_transfers transfer_vault_to_user Cpmm_withdraw.withdraw
    withdraw_balanced
claim_call = refl

after_burn-IsWellTyped : IsWellTyped (pool book_ops addresses wire (key 4) config after_burn)
unfolding bytes_eq
after_burn-IsWellTyped = record {
  reserve_x_u64 = omega arith;
  reserve_y_u64 = omega arith;
  lp_supply_u64 = omega arith;
  fee_bps_u16 = omega arith;
}

abbrev first : Pubkey → ℕ
first [] = 0
first (b ∷ bs) = b

other_program : ◌≢◌ {A = Pubkey} (key 97) (key 99)
other_program p = omega (arith, ap first p)

before_burn : Run book_ops addresses wire (key 4) config opened (some budget) opened
before_burn = elsewhere budget begun (ground arith) other_program refl (omega arith, omega arith)

burn_is_read : read (listing burn_bytes) ≡ some (listed, burn_lp_tokens 500)
unfolding bytes_eq
burn_is_read = refl

claim_is_read : read (listing claim_bytes) ≡ some (listed, claim)
unfolding bytes_eq
claim_is_read = refl

burnt : Run book_ops addresses wire (key 4) config opened (some (listing burn_bytes)) after_burn
burnt =
    called (listing burn_bytes) (key 98) (key 98) (ok budget) listed (burn_lp_tokens 500)
      before_burn (ground arith) burn_is_read (λ ix p. cc) refl user_apart tt opened-IsWellTyped
      burn_call

claimed : Run book_ops addresses wire (key 4) config opened (some (listing claim_bytes)) after_claim
claimed =
    called (listing claim_bytes) (key 98) (key 98) (ok (listing burn_bytes)) listed claim burnt
      (ground arith) claim_is_read (λ ix p. cc) refl user_apart (omega arith) after_burn-IsWellTyped
      claim_call

burn_traced : Trace book_ops addresses wire opened (some (listing burn_bytes)) after_burn
burn_traced =
    calls (listing burn_bytes) (key 98) (key 98) (ok budget) listed (burn_lp_tokens 500)
      (foreign budget started (ground arith) other_program) (ground arith) burn_is_read (λ ix p. cc)
      burn_call

claim-JustBurned_example :
    JustBurned book_ops addresses wire wire-IsAnchor opened
      (some (listing burn_bytes))
      (expected_accounts listed)
      500
      after_burn
claim-JustBurned_example =
    claim-JustBurned book_ops addresses wire wire-IsAnchor opened after_burn after_claim
      (some (listing burn_bytes)) (key 98) (key 98) (ok (listing burn_bytes)) listed 500 op_balanced
      250 1000 burn_traced (λ ix p. cc) (omega arith) claim_call

Run-KeepsValue_example :
    KeepsValue
      (pool book_ops addresses wire (key 4) config opened)
      (pool book_ops addresses wire (key 4) config after_claim)
    × ((pool book_ops addresses wire (key 4) config after_claim).lp_supply
        ≤ (pool book_ops addresses wire (key 4) config opened).lp_supply)
    × (after_claim.configs (key 4) ≡ some config)
Run-KeepsValue_example =
    Run-KeepsValue book_ops book_ops-IsTokenProgram addresses addresses-IsCollisionFree wire
      wire-IsAnchor (key 4) config mints_apart opened found claimed
