-- ===== src/Dice/Entropy/Commit.antt =====
-- Which prior instructions `verify_entropy_commit` (resolve_from_entropy.rs) accepts.
use solana_instructions_intr.Prelude.{
  ℕ, ◌≡◌, ◌↔◌, refl, sym, ap, ◌∙◌, arith, List, [], ◌∷◌, ok, true, some, length, take, take_all,
  slice, get_elem?, bytes_eq→eq, bytes_eq_self, >>=-eq-ok, ◌==◌, require, or_panic, require-eq-ok,
  or_panic-eq-ok,
}
use solana_instructions_intr.Prelude.Slices.{slice-eq-some, slice_from}
use solana_instructions_intr.Solana.{Pubkey, key_eq, custom, Instruction, keys_of, length-keys_of}
use solana_instructions_intr.Dice.Types.{
  invalid_program_id, wrong_accounts_count, invalid_data_length, invalid_discriminator,
}
use solana_instructions_intr.Dice.Bets.{Table}
use solana_instructions_intr.Dice.Entropy.{require_key, verify_entropy_commit}
use solana_instructions_intr.Dice.Entropy.Keys.{keys_checked, keys_pass}

-- The instruction commits `entropy` for the accounts of the bet.
pub record IsCommit (program_id : Pubkey) (k : Table) (bet_key : Pubkey) (entropy : List ℕ)
    (ix : Instruction) : Type 0 where
  pub program : ix.program_id ≡ program_id
  pub keys : keys_of ix.accounts ≡ k.house ∷ k.player ∷ k.vault ∷ bet_key ∷ []
  pub call_data : ix.ix_data ≡ 0 ∷ entropy
  pub whole : length entropy ≡ 32

==-eq : (m n : ℕ) → (m == n) ≡ true → m ≡ n
==-eq m n h = ground arith

eq-== : (m n : ℕ) → m ≡ n → (m == n) ≡ true
eq-== m n h = ground arith

entropy_at : (e : List ℕ) → length e ≡ 32 → slice (0 ∷ e) 1 33 ≡ some e
entropy_at e h =
    let whole : take 32 e ≡ e = rw h at (take_all e) in
    slice_from (0 ∷ e) 1 33 (omega arith) (omega arith) ∙ ap some whole

data_checked :
    (bs : List ℕ) (tag : ℕ) (found : List ℕ)
    → length bs ≡ 33
    → get_elem? bs 0 ≡ some tag
    → tag ≡ 0
    → slice bs 1 33 ≡ some found
    → (bs ≡ 0 ∷ found) × (length found ≡ 32)
data_checked [] tag found l e z c = absurd (omega arith)
data_checked (b ∷ rest) tag found l e z c =
    let size : length rest ≡ 32 = omega arith in
    let whole : take 32 rest ≡ rest = rw size at (take_all rest) in
    let same : found ≡ rest = slice-eq-some (b ∷ rest) 1 33 c ∙ whole in
    let head : b ≡ 0 = cc (e, z) in (cc (same, head), ap length same ∙ size)

-- The checks that an accepted instruction has passed.
record Checked (program_id : Pubkey) (k : Table) (bet_key : Pubkey) (entropy : List ℕ)
    (ix : Instruction) : Type 0 where
  tag : ℕ
  program : key_eq ix.program_id program_id ≡ true
  count : (length ix.accounts == 4) ≡ true
  house : require_key ix.accounts 0 k.house ≡ ok tt
  player : require_key ix.accounts 1 k.player ≡ ok tt
  vault : require_key ix.accounts 2 k.vault ≡ ok tt
  bet : require_key ix.accounts 3 bet_key ≡ ok tt
  long : (length ix.ix_data == 33) ≡ true
  tag_of : get_elem? ix.ix_data 0 ≡ some tag
  discriminator : (tag == 0) ≡ true
  cut : slice ix.ix_data 1 33 ≡ some entropy
  size : (length entropy == 32) ≡ true

accepted-Checked :
    (program_id : Pubkey) (k : Table) (bet_key : Pubkey) (entropy : List ℕ) (ix : Instruction)
    → verify_entropy_commit program_id (ok ix) k bet_key ≡ ok entropy
    → Checked program_id k bet_key entropy ix
unfolding verify_entropy_commit
accepted-Checked program_id k bet_key entropy ix e =
    let ms = ix.accounts in
    let bs = ix.ix_data in
    let (_, e1, k1) =
      >>=-eq-ok (require (key_eq ix.program_id program_id) (custom invalid_program_id)) _ e in
    let (_, e2, k2) = >>=-eq-ok (require (length ms == 4) (custom wrong_accounts_count)) _ k1 in
    let (_, e3, k3) = >>=-eq-ok (require_key ms 0 k.house) _ k2 in
    let (_, e4, k4) = >>=-eq-ok (require_key ms 1 k.player) _ k3 in
    let (_, e5, k5) = >>=-eq-ok (require_key ms 2 k.vault) _ k4 in
    let (_, e6, k6) = >>=-eq-ok (require_key ms 3 bet_key) _ k5 in
    let (_, e7, k7) = >>=-eq-ok (require (length bs == 33) (custom invalid_data_length)) _ k6 in
    let (tag, e8, k8) = >>=-eq-ok (or_panic (get_elem? bs 0)) _ k7 in
    let (_, e9, k9) = >>=-eq-ok (require (tag == 0) (custom invalid_discriminator)) _ k8 in
    let (found, e10, k10) = >>=-eq-ok (or_panic (slice bs 1 33)) _ k9 in
    let (_, e11, k11) =
      >>=-eq-ok (require (length found == 32) (custom invalid_data_length)) _ k10 in
    let same : found ≡ entropy = cc k11 in
    record {
      tag = tag;
      program = require-eq-ok _ _ e1;
      count = require-eq-ok _ _ e2;
      house = e3;
      player = e4;
      vault = e5;
      bet = e6;
      long = require-eq-ok _ _ e7;
      tag_of = or_panic-eq-ok (get_elem? bs 0) e8;
      discriminator = require-eq-ok _ _ e9;
      cut = or_panic-eq-ok (slice bs 1 33) e10 ∙ ap some same;
      size = ap (λ (x : List ℕ). length x == 32) (sym same) ∙ require-eq-ok _ _ e11;
    }

Checked-accepted :
    (program_id : Pubkey) (k : Table) (bet_key : Pubkey) (entropy : List ℕ) (ix : Instruction)
    → Checked program_id k bet_key entropy ix
    → verify_entropy_commit program_id (ok ix) k bet_key ≡ ok entropy
unfolding verify_entropy_commit
Checked-accepted program_id k bet_key entropy ix c =
    rw
      (
        c.program, c.count, c.house, c.player, c.vault, c.bet, c.long, c.tag_of, c.discriminator,
        c.cut, c.size,
      )
      refl

Checked-IsCommit :
    (program_id : Pubkey) (k : Table) (bet_key : Pubkey) (entropy : List ℕ) (ix : Instruction)
    → Checked program_id k bet_key entropy ix
    → IsCommit program_id k bet_key entropy ix
Checked-IsCommit program_id k bet_key entropy ix c =
    let (split, size) =
      data_checked ix.ix_data c.tag entropy (==-eq _ 33 c.long) c.tag_of (==-eq _ 0 c.discriminator)
        c.cut in
    record {
      program = bytes_eq→eq ix.program_id program_id c.program;
      keys =
          keys_checked ix.accounts k.house k.player k.vault bet_key (==-eq _ 4 c.count) c.house
            c.player c.vault c.bet;
      call_data = split;
      whole = size;
    }

IsCommit-Checked :
    (program_id : Pubkey) (k : Table) (bet_key : Pubkey) (entropy : List ℕ) (ix : Instruction)
    → IsCommit program_id k bet_key entropy ix
    → Checked program_id k bet_key entropy ix
IsCommit-Checked program_id k bet_key entropy ix h =
    let (house, player, vault, bet) =
      keys_pass ix.accounts k.house k.player k.vault bet_key h.keys in
    let count : length ix.accounts ≡ 4 = sym (length-keys_of ix.accounts) ∙ ap length h.keys in
    let long : length ix.ix_data ≡ 33 = omega (arith, ap length h.call_data, h.whole) in
    record {
      tag = 0;
      program = rw h.program (bytes_eq_self program_id);
      count = eq-== _ 4 count;
      house = house;
      player = player;
      vault = vault;
      bet = bet;
      long = eq-== _ 33 long;
      tag_of = ap (λ d. get_elem? d 0) h.call_data;
      discriminator = refl;
      cut = ap (λ d. slice d 1 33) h.call_data ∙ entropy_at entropy h.whole;
      size = eq-== _ 32 h.whole;
    }

-- The check accepts exactly the instruction of the same program with the keys of house, player,
-- vault and bet in this order, and the data of a zero and 32 bytes; it returns those 32 bytes,
-- whatever they are.
pub verify_entropy_commit-IsCommit :
    (program_id : Pubkey) (k : Table) (bet_key : Pubkey) (entropy : List ℕ) (ix : Instruction)
    → (verify_entropy_commit program_id (ok ix) k bet_key ≡ ok entropy)
      ↔ IsCommit program_id k bet_key entropy ix
verify_entropy_commit-IsCommit program_id k bet_key entropy ix = (
  λ e.
      Checked-IsCommit program_id k bet_key entropy ix
        (accepted-Checked program_id k bet_key entropy ix e),
  λ h.
      Checked-accepted program_id k bet_key entropy ix
        (IsCommit-Checked program_id k bet_key entropy ix h),
)
