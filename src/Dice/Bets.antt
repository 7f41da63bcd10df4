-- ===== src/Dice/Bets.antt =====
-- initialize.rs, place_bet.rs and refund_bet.rs of programs/dice_game/src/instructions. The lamport
-- ledger, the transfer of the system program and the clock are parameters.
pub mod Outcomes
use solana_instructions_intr.Prelude.{
  ℕ, Bool, true, ◌+◌, ◌-◌, ◌≤◌, ◌≡◌, ◌≢◌, List, [], ◌∷◌, Result, ok, ◌>>=◌, ◌>>◌, require, ok_or,
  leb, ltb, checked_sub,
}
use solana_instructions_intr.Solana.{Pubkey, custom}
use solana_instructions_intr.Dice.Types.{
  Bet, Rolled, called, min_bet_lamports, min_roll, max_roll, minimum_bet, minimum_roll,
  maximum_roll, math_error, timeout_not_reached,
}

-- The lamports and what moves them. A transfer of the system program is given the signer seeds, the
-- source, the target and the lamports; `signs` tells whether such seeds sign for an address.
-- `create_account` is what Anchor does for an account with `init`, at the cost of the payer that
-- is named first, and `close_account` what it does for one with `close`.
pub record SystemOps : Type 1 where
  pub Lamports : Type 0
  pub balance : Lamports → Pubkey → ℕ
  pub signs : List (List ℕ) → Pubkey → Bool
  pub transfer : List (List ℕ) → Pubkey → Pubkey → ℕ → Lamports → Result ℕ Lamports
  pub create_account : Pubkey → Pubkey → Lamports → Result ℕ Lamports
  pub close_account : Pubkey → Pubkey → Lamports → Lamports

-- `n` lamports went from one account to another, and no other balance changed.
abbrev pub Shifts : (t : SystemOps) → Pubkey → Pubkey → ℕ → t.Lamports → t.Lamports → Type 0
Shifts t from to n l l' =
    (n ≤ t.balance l from)
    × (t.balance l' from ≡ t.balance l from - n)
    × (t.balance l' to ≡ t.balance l to + n)
    × ((k : Pubkey) → k ≢ from → k ≢ to → t.balance l' k ≡ t.balance l k)

-- What is documented of these: a transfer moves its lamports, and goes through where it is signed
-- and covered; a new account is paid for by its payer; a closed one gives all that it holds.
pub record IsSystemProgram (t : SystemOps) : Type 0 where
  pub moves :
      (seeds : List (List ℕ)) (from to : Pubkey) (n : ℕ) (l l' : t.Lamports)
      → from ≢ to
      → t.transfer seeds from to n l ≡ ok l'
      → Shifts t from to n l l'
  pub covers :
      (seeds : List (List ℕ)) (from to : Pubkey) (n : ℕ) (l : t.Lamports)
      → t.signs seeds from ≡ true
      → n ≤ t.balance l from
      → (l' : t.Lamports) × (t.transfer seeds from to n l ≡ ok l')
  pub creates :
      (payer new : Pubkey) (l l' : t.Lamports)
      → payer ≢ new
      → t.create_account payer new l ≡ ok l'
      → (n : ℕ) × Shifts t payer new n l l'
  pub closes :
      (old to : Pubkey) (l : t.Lamports)
      → old ≢ to
      → Shifts t old to (t.balance l old) l (t.close_account old to l)

-- The keys that the instructions share, and the bump of the vault.
pub record Table : Type 0 where
  pub player : Pubkey
  pub house : Pubkey
  pub vault : Pubkey
  pub vault_bump : ℕ

abbrev pub vault_signer : Table → List (List ℕ)
vault_signer k = (b'v' ∷ b'a' ∷ b'u' ∷ b'l' ∷ b't' ∷ []) ∷ k.house ∷ (k.vault_bump ∷ []) ∷ []

unfoldable pub create_bet : Table → ℕ → ℕ → ℕ → ℕ → ℕ → Rolled Bet
create_bet k slot bump seed roll amount = do
  require (leb min_bet_lamports amount) (custom minimum_bet)
  require (leb min_roll roll) (custom minimum_roll)
  require (leb roll max_roll) (custom maximum_roll)
  ok (record {
    player = k.player;
    seed = seed;
    slot = slot;
    amount = amount;
    roll = roll;
    bump = bump;
  })

module _ (t : SystemOps) where
  open t use {Lamports}

  -- `Initialize::init`: the house funds the vault.
  unfoldable pub init : Table → ℕ → Lamports → Rolled Lamports
  init k amount l = called (t.transfer [] k.house k.vault amount l)

  unfoldable pub deposit : Table → ℕ → Lamports → Rolled Lamports
  deposit k amount l = called (t.transfer [] k.player k.vault amount l)

  -- The entry point: the bet account and the ledger.
  unfoldable pub place_bet : Table → ℕ → ℕ → ℕ → ℕ → ℕ → Lamports → Rolled (Bet × Lamports)
  place_bet k slot bump seed amount roll l = do
    bet ← create_bet k slot bump seed roll amount
    l' ← deposit k amount l
    ok (bet, l')

  unfoldable pub refund_bet : Table → ℕ → Bet → Lamports → Rolled Lamports
  refund_bet k slot bet l = do
    elapsed_slots ← ok_or (checked_sub slot bet.slot) (custom math_error)
    require (ltb 1000 elapsed_slots) (custom timeout_not_reached)
    called (t.transfer (vault_signer k) k.vault k.player bet.amount l)
