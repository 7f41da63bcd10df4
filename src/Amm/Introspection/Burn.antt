-- ===== src/Amm/Introspection/Burn.antt =====
-- Which prior instructions `confirm_burn` of
-- programs/amm/src/instructions/withdraw_with_introspection.rs accepts.
use solana_instructions_intr.Prelude.{
  true, ◌==◌, ℕ, ◌-◌, ◌≡◌, refl, sym, ap, subst, ◌∙◌, arith, List, ◌++◌, some, ok, >>=-eq-ok,
  require-eq-ok, or_panic-eq-ok, or_panic, require, ◌↔◌, IsU64, AreBytes, length, take, drop, slice,
  to_le_bytes, from_le_bytes, bytes_eq, bytes_eq→eq, bytes_eq_self, take-append-drop, take_all,
  length-to_le_bytes, from_le_bytes-to_le_bytes, to_le_bytes-from_le_bytes,
}
use solana_instructions_intr.Prelude.Slices.{length-drop, drop-AreBytes, slice-eq-some, halves}
use solana_instructions_intr.Solana.{keys_of, length-keys_of, key_eq, custom, Instruction}
use solana_instructions_intr.Amm.Types.{
  invalid_program_id, unexpected_discriminator, wrong_accounts_count, invalid_data_length,
}
use solana_instructions_intr.Amm.Accounts.{LpAccounts}
use solana_instructions_intr.Amm.Introspection.{
  Introspected, expected_accounts, check_keys, confirm_burn_accounts, confirm_burn,
}
use solana_instructions_intr.Amm.Introspection.Keys.{check_keys_sound, check_keys_complete}

-- The instruction calls `burn_lp_tokens` of the program with `amount` and the same accounts.
pub record IsBurn (s : Introspected) (a : LpAccounts) (amount : ℕ) (ix : Instruction) : Type 0 where
  pub program : ix.program_id ≡ s.program_id
  pub call_data : ix.ix_data ≡ s.burn_discriminator ++ to_le_bytes 8 amount
  pub keys : keys_of ix.accounts ≡ expected_accounts a

-- Sixteen bytes whose first eight are `disc` and whose last eight encode `amount`.
call_data_of :
    (bs disc tail : List ℕ) (amount : ℕ)
    → AreBytes bs
    → length bs ≡ 16
    → disc ≡ take 8 bs
    → tail ≡ take 8 (drop 8 bs)
    → from_le_bytes tail ≡ amount
    → bs ≡ disc ++ to_le_bytes 8 amount
call_data_of bs disc tail amount h l d t e =
    let split = take-append-drop 8 bs in
    let long : length (drop 8 bs) ≡ 8 = length-drop 8 bs ∙ ap (λ n. n - 8) l in
    let whole : take 8 (drop 8 bs) ≡ drop 8 bs =
      subst (λ n. take n (drop 8 bs) ≡ drop 8 bs) long (take_all (drop 8 bs)) in
    let code = to_le_bytes-from_le_bytes (drop 8 bs) (drop-AreBytes 8 bs h) in
    let same : from_le_bytes (drop 8 bs) ≡ amount = cc (e, t, whole) in
    cc (split, d, rw (long, same) at code)

-- The checks that an accepted instruction has passed.
record Checked (s : Introspected) (a : LpAccounts) (amount : ℕ) (ix : Instruction) : Type 0 where
  head : List ℕ
  tail : List ℕ
  program : key_eq ix.program_id s.program_id ≡ true
  head_of : slice ix.ix_data 0 8 ≡ some head
  burns : bytes_eq head s.burn_discriminator ≡ true
  nine : (length ix.accounts == 9) ≡ true
  keys : check_keys ix.accounts 0 (expected_accounts a) ≡ ok tt
  sixteen : (length ix.ix_data == 16) ≡ true
  tail_of : slice ix.ix_data 8 16 ≡ some tail
  amounts : (from_le_bytes tail == amount) ≡ true

confirm_burn-Checked :
    (s : Introspected) (a : LpAccounts) (amount : ℕ) (ix : Instruction)
    → s.prior ≡ ok ix
    → confirm_burn s a amount ≡ ok tt
    → Checked s a amount ix
unfolding confirm_burn confirm_burn_accounts
confirm_burn-Checked s a amount ix p e =
    let k0 = rw p at e in
    let (_, e1, k1) =
      >>=-eq-ok (require (key_eq ix.program_id s.program_id) (custom invalid_program_id)) _ k0 in
    let (h, e2, k2) = >>=-eq-ok (or_panic (slice ix.ix_data 0 8)) _ k1 in
    let (_, e3, k3) =
      >>=-eq-ok (require (bytes_eq h s.burn_discriminator) (custom unexpected_discriminator)) _
        k2 in
    let (_, e4, k4) = >>=-eq-ok (confirm_burn_accounts a ix.accounts) _ k3 in
    let (_, e5, k5) =
      >>=-eq-ok (require (length ix.accounts == 9) (custom wrong_accounts_count)) _ e4 in
    let (_, e6, k6) =
      >>=-eq-ok (require (length ix.ix_data == 16) (custom invalid_data_length)) _ k4 in
    let (t, e7, k7) = >>=-eq-ok (or_panic (slice ix.ix_data 8 16)) _ k6 in
    record {
      head = h;
      tail = t;
      program = require-eq-ok _ _ e1;
      head_of = or_panic-eq-ok (slice ix.ix_data 0 8) e2;
      burns = require-eq-ok _ _ e3;
      nine = require-eq-ok _ _ e5;
      keys = k5;
      sixteen = require-eq-ok _ _ e6;
      tail_of = or_panic-eq-ok (slice ix.ix_data 8 16) e7;
      amounts = require-eq-ok _ _ k7;
    }

accepts-IsBurn :
    (s : Introspected) (a : LpAccounts) (amount : ℕ) (ix : Instruction)
    → s.prior ≡ ok ix
    → AreBytes ix.ix_data
    → confirm_burn s a amount ≡ ok tt
    → IsBurn s a amount ix
accepts-IsBurn s a amount ix p h e =
    let c = confirm_burn-Checked s a amount ix p e in
    let d = ix.ix_data in
    record {
      program = bytes_eq→eq ix.program_id s.program_id c.program;
      call_data =
          call_data_of d s.burn_discriminator c.tail amount h (ground (arith, c.sixteen))
            (sym (bytes_eq→eq c.head s.burn_discriminator c.burns) ∙ slice-eq-some d 0 8 c.head_of)
            (slice-eq-some d 8 16 c.tail_of) (ground (arith, c.amounts));
      keys = check_keys_sound ix.accounts 0 (expected_accounts a) (ground (arith, c.nine)) c.keys;
    }

Checked-accepted :
    (s : Introspected) (a : LpAccounts) (amount : ℕ) (ix : Instruction)
    → s.prior ≡ ok ix
    → Checked s a amount ix
    → confirm_burn s a amount ≡ ok tt
unfolding confirm_burn confirm_burn_accounts
Checked-accepted s a amount ix p c =
    rw (p, c.program, c.head_of, c.burns, c.nine, c.keys, c.sixteen, c.tail_of, c.amounts) refl

equal_numbers : (m n : ℕ) → m ≡ n → (m == n) ≡ true
equal_numbers m n e = ground arith

equal_bytes : (u v : List ℕ) → u ≡ v → bytes_eq u v ≡ true
equal_bytes u v e = rw e (bytes_eq_self v)

IsBurn-Checked :
    (s : Introspected) (a : LpAccounts) (amount : ℕ) (ix : Instruction)
    → length s.burn_discriminator ≡ 8
    → IsU64 amount
    → IsBurn s a amount ix
    → Checked s a amount ix
IsBurn-Checked s a amount ix h w b =
    let code = to_le_bytes 8 amount in
    let (head, tail, sixteen) = halves s.burn_discriminator code h (length-to_le_bytes 8 amount) in
    let nine : length ix.accounts ≡ 9 = sym (length-keys_of ix.accounts) ∙ ap length b.keys in
    record {
      head = s.burn_discriminator;
      tail = code;
      program = equal_bytes ix.program_id s.program_id b.program;
      head_of = ap (λ d. slice d 0 8) b.call_data ∙ head;
      burns = bytes_eq_self s.burn_discriminator;
      nine = equal_numbers (length ix.accounts) 9 nine;
      keys = check_keys_complete ix.accounts 0 (expected_accounts a) b.keys;
      sixteen = equal_numbers (length ix.ix_data) 16 (ap length b.call_data ∙ sixteen);
      tail_of = ap (λ d. slice d 8 16) b.call_data ∙ tail;
      amounts =
          equal_numbers (from_le_bytes code) amount
            (from_le_bytes-to_le_bytes 8 amount (omega arith));
    }

-- For a prior instruction of bytes, a discriminator of eight bytes and an amount of a u64, the
-- check accepts exactly the instruction of the same program whose data are the discriminator and
-- the amount in eight little-endian bytes, and whose nine accounts are the expected ones in order.
pub confirm_burn-IsBurn :
    (s : Introspected) (a : LpAccounts) (amount : ℕ) (ix : Instruction)
    → s.prior ≡ ok ix
    → AreBytes ix.ix_data
    → length s.burn_discriminator ≡ 8
    → IsU64 amount
    → (confirm_burn s a amount ≡ ok tt) ↔ IsBurn s a amount ix
confirm_burn-IsBurn s a amount ix p bytes h w = (
  accepts-IsBurn s a amount ix p bytes,
  λ b. Checked-accepted s a amount ix p (IsBurn-Checked s a amount ix h w b),
)
