-- ===== src/Amm/AddressTests.antt =====
-- The theorem on the account constraints, at a scheme of addresses.
use solana_instructions_intr.Prelude.{
  ℕ, List, [], if◌then◌else◌, ◌∷◌, ◌++◌, ◌≡◌, refl, true, length, append_inj, bytes_eq,
}
use solana_instructions_intr.Solana.{Pubkey, Derivation, IsCollisionFree}
use solana_instructions_intr.Amm.Types.{config_seed}
use solana_instructions_intr.Amm.Accounts.{
  LpAccounts, lp_constraints, swap_constraints, AreLpDistinct,
}
use solana_instructions_intr.Amm.Accounts.Distinct.{lp_constraints-AreLpDistinct}
use solana_instructions_intr.Amm.Samples.{key, config}

-- An address for each wallet and mint: both, behind the length of the wallet.
abbrev pub ata : Pubkey → Pubkey → Pubkey
ata v m = length v ∷ (v ++ m)

-- The addresses of the config and of the LP mint, and of the LP mint of another pool.
abbrev pub program_address : List (List ℕ) → Pubkey
program_address [] = key 5
program_address (s ∷ []) = key 5
program_address (s ∷ owner ∷ seeds) =
    if bytes_eq s config_seed then key 4 else if bytes_eq owner (key 7) then key 6 else key 5

abbrev pub addresses : Derivation
addresses = record {
  find_program_address = program_address;
  create_program_address = program_address;
  associated_token = ata;
}

ata_inj : (v w m n : Pubkey) → ata v m ≡ ata w n → (v ≡ w) × (m ≡ n)
ata_inj v w m n e = append_inj v m w n (cc e) (cc e)

pub addresses-IsCollisionFree : IsCollisionFree addresses
addresses-IsCollisionFree = record {
  wallets = λ v w m n e. (ata_inj v w m n e).0;
  mints = λ v w m n e. (ata_inj v w m n e).1;
}

abbrev pub listed : LpAccounts
listed = record {
  trade = record {
    user = key 1;
    mint_x = key 2;
    mint_y = key 3;
    config_key = key 4;
    config = config;
    mint_lp = key 5;
    vault_x = ata (key 4) (key 2);
    vault_y = ata (key 4) (key 3);
    user_x = ata (key 1) (key 2);
    user_y = ata (key 1) (key 3);
    token_program = key 10;
    system_program = key 11;
    associated_token_program = key 12;
  };
  user_lp = ata (key 1) (key 5);
}

listed_passes : lp_constraints addresses listed ≡ true
unfolding lp_constraints swap_constraints bytes_eq
listed_passes = refl

lp_constraints-AreLpDistinct_example : AreLpDistinct listed
lp_constraints-AreLpDistinct_example =
    lp_constraints-AreLpDistinct addresses listed addresses-IsCollisionFree listed_passes (λ p. cc)
      (λ p. cc) (λ p. cc) (λ p. cc)
