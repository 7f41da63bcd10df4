-- ===== src/Solana/Token.antt =====
-- The SPL token program, as far as the AMM calls it.
use solana_instructions_intr.Prelude.{IsU64, List, ℕ, ◌+◌, ◌-◌, ◌≤◌, ◌≡◌, ◌≢◌, Result, ok}
use solana_instructions_intr.Solana.{Pubkey, CpiContext}

pub record Transfer : Type 0 where
  pub from : Pubkey
  pub to : Pubkey
  pub authority : Pubkey

pub record MintTo : Type 0 where
  pub mint : Pubkey
  pub to : Pubkey
  pub authority : Pubkey

pub record Burn : Type 0 where
  pub mint : Pubkey
  pub from : Pubkey
  pub authority : Pubkey

-- A mint that Anchor creates for `init`, and an associated token account for `init` or
-- `init_if_needed`.
pub record NewMint : Type 0 where
  pub payer : Pubkey
  pub address : Pubkey
  pub authority : Pubkey
  pub decimals : ℕ

pub record NewAccount : Type 0 where
  pub payer : Pubkey
  pub address : Pubkey
  pub mint : Pubkey
  pub authority : Pubkey

-- The ledger of all token accounts and mints, the three instructions, and the creation of mints and
-- accounts. A call either fails with an error code or returns the new ledger.
pub record TokenOps : Type 1 where
  pub Ledger : Type 0
  pub balance : Ledger → Pubkey → ℕ
  pub supply : Ledger → Pubkey → ℕ
  pub transfer : CpiContext Transfer → ℕ → Ledger → Result ℕ Ledger
  pub mint_to : CpiContext MintTo → ℕ → Ledger → Result ℕ Ledger
  pub burn : CpiContext Burn → ℕ → Ledger → Result ℕ Ledger
  pub init_mint : NewMint → Ledger → Result ℕ Ledger
  pub init_account : NewAccount → Ledger → Result ℕ Ledger
  pub init_if_needed : NewAccount → Ledger → Result ℕ Ledger

module _ (t : TokenOps) where
  open t use {Ledger, balance, supply}

  -- `n` tokens went from one account to another, and nothing else changed.
  pub record Moved (from to : Pubkey) (n : ℕ) (l l' : Ledger) : Type 0 where
    pub covered : n ≤ balance l from
    pub debited : balance l' from ≡ balance l from - n
    pub credited : balance l' to ≡ balance l to + n
    pub others : (k : Pubkey) → k ≢ from → k ≢ to → balance l' k ≡ balance l k
    pub supplies : (m : Pubkey) → supply l' m ≡ supply l m

  -- `n` tokens were created in an account.
  pub record Minted (mint to : Pubkey) (n : ℕ) (l l' : Ledger) : Type 0 where
    pub credited : balance l' to ≡ balance l to + n
    pub others : (k : Pubkey) → k ≢ to → balance l' k ≡ balance l k
    pub raised : supply l' mint ≡ supply l mint + n
    pub other_supplies : (m : Pubkey) → m ≢ mint → supply l' m ≡ supply l m

  -- `n` tokens of an account were destroyed.
  pub record Burned (mint from : Pubkey) (n : ℕ) (l l' : Ledger) : Type 0 where
    pub covered : n ≤ balance l from
    pub debited : balance l' from ≡ balance l from - n
    pub others : (k : Pubkey) → k ≢ from → balance l' k ≡ balance l k
    pub within : n ≤ supply l mint
    pub lowered : supply l' mint ≡ supply l mint - n
    pub other_supplies : (m : Pubkey) → m ≢ mint → supply l' m ≡ supply l m

  -- No balance and no supply changed.
  pub record Unmoved (l l' : Ledger) : Type 0 where
    pub balances : (k : Pubkey) → balance l' k ≡ balance l k
    pub supplies : (m : Pubkey) → supply l' m ≡ supply l m

  -- What the token program documents of its instructions. A new mint has no supply; a new account is
  -- empty, and nothing was there before.
  pub record IsTokenProgram : Type 0 where
    pub transfer_moves :
        (c : CpiContext Transfer) (n : ℕ) (l l' : Ledger)
        → c.accounts.from ≢ c.accounts.to
        → t.transfer c n l ≡ ok l'
        → Moved c.accounts.from c.accounts.to n l l'
    pub mint_to_mints :
        (c : CpiContext MintTo) (n : ℕ) (l l' : Ledger)
        → t.mint_to c n l ≡ ok l'
        → Minted c.accounts.mint c.accounts.to n l l'
    pub burn_burns :
        (c : CpiContext Burn) (n : ℕ) (l l' : Ledger)
        → t.burn c n l ≡ ok l'
        → Burned c.accounts.mint c.accounts.from n l l'
    pub init_mint_empty :
        (m : NewMint) (l l' : Ledger)
        → t.init_mint m l ≡ ok l'
        → ((k : Pubkey) → balance l' k ≡ balance l k)
          × (supply l' m.address ≡ 0)
          × ((n : Pubkey) → n ≢ m.address → supply l' n ≡ supply l n)
    pub init_account_empty :
        (c : NewAccount) (l l' : Ledger)
        → t.init_account c l ≡ ok l'
        → (balance l' c.address ≡ 0) × Unmoved l l'
    pub init_if_needed_keeps :
        (c : NewAccount) (l l' : Ledger) → t.init_if_needed c l ≡ ok l' → Unmoved l l'

  -- What the token program documents of success, where `may k w seeds` says that the wallet `w`,
  -- with these seeds to sign for it, may spend from the account `k`: a transfer runs if the amount is
  -- there and the receiver's balance stays a u64, and a burn if account and mint hold the amount.
  pub record IsServing (may : Pubkey → Pubkey → List (List ℕ) → Type 0) : Type 0 where
    pub transfer_runs :
        (c : CpiContext Transfer) (n : ℕ) (l : Ledger)
        → may c.accounts.from c.accounts.authority c.signer_seeds
        → n ≤ balance l c.accounts.from
        → IsU64 (balance l c.accounts.to + n)
        → (l' : Ledger) × (t.transfer c n l ≡ ok l')
    pub burn_runs :
        (c : CpiContext Burn) (n : ℕ) (l : Ledger)
        → may c.accounts.from c.accounts.authority c.signer_seeds
        → n ≤ balance l c.accounts.from
        → n ≤ supply l c.accounts.mint
        → (l' : Ledger) × (t.burn c n l ≡ ok l')
