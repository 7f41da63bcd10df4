-- ===== src/Amm/Introspection.antt =====
-- programs/amm/src/instructions/withdraw_with_introspection.rs: a withdrawal that relies on the
-- burn made by the instruction right before it in the same transaction.
pub mod Keys
pub mod Burn
pub mod Settlement
use solana_instructions_intr.Prelude.{
  ℕ, Bool, ◌&&◌, ◌+◌, not, List, [], ◌∷◌, Result, ok, ◌>>=◌, ◌>>◌, require, ok_or, or_panic,
  map_err, ◌==◌, length, slice, get_elem?, from_le_bytes, bytes_eq, checked_add, u64_mod,
}
use solana_instructions_intr.Solana.{Pubkey, key_eq, custom, AccountMeta, Derivation, Instruction}
use solana_instructions_intr.Solana.Token.{TokenOps}
use solana_instructions_intr.Cpmm.Withdraw
use solana_instructions_intr.Amm.Types.{
  OperationSide, to_side, Handled, quoted, pool_locked, overflow, missing_prior_instruction,
  invalid_program_id, unexpected_discriminator, wrong_accounts_count, invalid_key,
  invalid_data_length, invalid_amount,
}
use solana_instructions_intr.Amm.Accounts.{LpAccounts, lp_constraints}
use solana_instructions_intr.Amm.Transfers.{pool_of}
use solana_instructions_intr.Amm.Withdraw.{execute_withdraw_transfers}

-- What the handler is given from outside: the id of the program, the discriminator that Anchor
-- derives for `burn_lp_tokens`, the key of the account `instruction_sysvar` with the address of
-- the sysvar, and the answer of `get_instruction_relative(-1, sysvar)`.
pub record Introspected : Type 0 where
  pub program_id : Pubkey
  pub burn_discriminator : List ℕ
  pub instruction_sysvar : Pubkey
  pub sysvar_id : Pubkey
  pub prior : Result ℕ Instruction

-- The `#[account(...)]` constraints of `WithdrawWithIntrospection`.
unfoldable pub introspection_constraints : Derivation → Introspected → LpAccounts → Bool
introspection_constraints d s a = lp_constraints d a && key_eq s.instruction_sysvar s.sysvar_id

abbrev pub expected_accounts : LpAccounts → List Pubkey
expected_accounts a =
    a.user ∷ a.mint_x ∷ a.mint_y ∷ a.config_key ∷ a.mint_lp ∷ a.user_lp ∷ a.token_program
    ∷ a.system_program ∷ a.associated_token_program ∷ []

-- The loop over the expected keys, from `index` on; `accounts[index]` panics out of bounds.
unfoldable pub check_keys : List AccountMeta → ℕ → List Pubkey → Handled (Unit {0})
check_keys accounts index [] = ok tt
check_keys accounts index (key ∷ keys) =
    let rest = check_keys accounts (index + 1) keys in
    or_panic (get_elem? accounts index) >>= λ (m : AccountMeta).
    require (key_eq m.pubkey key) (custom invalid_key) >> rest

-- `confrim_burn_accounts`
unfoldable pub confirm_burn_accounts : LpAccounts → List AccountMeta → Handled (Unit {0})
unfolding check_keys
confirm_burn_accounts a accounts = do
  require (length accounts == 9) (custom wrong_accounts_count)
  check_keys accounts 0 (expected_accounts a)

-- The slice `ix.data[..8]` panics on shorter data.
unfoldable pub confirm_burn : Introspected → LpAccounts → ℕ → Handled (Unit {0})
confirm_burn s a amount = do
  ix ← map_err (λ _. custom missing_prior_instruction) s.prior
  require (key_eq ix.program_id s.program_id) (custom invalid_program_id)
  head ← or_panic (slice ix.ix_data 0 8)
  require (bytes_eq head s.burn_discriminator) (custom unexpected_discriminator)
  confirm_burn_accounts a ix.accounts
  require (length ix.ix_data == 16) (custom invalid_data_length)
  tail ← or_panic (slice ix.ix_data 8 16)
  require (from_le_bytes tail == amount) (custom invalid_amount)

module _ (t : TokenOps) where
  open t use {Ledger}

  -- The LP supply is the one before the burn.
  unfoldable pub withdraw_w_introspection :
      Introspected → LpAccounts → ℕ → OperationSide → ℕ → ℕ → Ledger → Handled Ledger
  withdraw_w_introspection s a lp_amount side min_x min_y l = do
    require (not a.config.locked) (custom pool_locked)
    confirm_burn s a lp_amount
    supply_before ← ok_or (checked_add u64_mod (t.supply l a.mint_lp) lp_amount) (custom overflow)
    quote ←
        quoted (
          Withdraw.withdraw (pool_of t a.trade supply_before l) lp_amount (to_side side) min_x
            min_y)
    execute_withdraw_transfers t a.trade side quote l
