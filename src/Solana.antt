-- ===== src/Solana.antt =====
-- What the two programs use of Solana and Anchor and do not implement: keys and address
-- derivation, instructions, and the token and system programs that they call. All of it is a
-- parameter: an interface with the documented behaviour that the theorems rely on.
pub mod Token
pub mod TokenModel
use solana_instructions_intr.Prelude.{
  suc, refl, ap, length, ℕ, ◌≡◌, List, [], ◌∷◌, Bool, Result, ok, err, panic, bytes_eq,
}

-- The 32 bytes of an address.
abbrev pub Pubkey : Type 0
Pubkey = List ℕ

abbrev pub key_eq : Pubkey → Pubkey → Bool
key_eq = bytes_eq

-- How an instruction of a program fails: by an error of its own, by an account constraint that
-- Anchor checks before the handler, or by an error code that a called program returned.
pub data Failure (E : Type 0) : Type 0 where
  custom : E → Failure E
  constraint : Failure E
  program_error : ℕ → Failure E

-- A call of another program: its accounts, and the seeds that sign for an address of the caller.
pub record CpiContext (A : Type 0) : Type 0 where
  pub accounts : A
  pub signer_seeds : List (List ℕ)

pub record AccountMeta : Type 0 where
  pub pubkey : Pubkey
  pub is_signer : Bool
  pub is_writable : Bool

abbrev pub keys_of : List AccountMeta → List Pubkey
keys_of [] = []
keys_of (m ∷ ms) = m.pubkey ∷ keys_of ms

pub length-keys_of : (ms : List AccountMeta) → length (keys_of ms) ≡ length ms
length-keys_of [] = refl
length-keys_of (m ∷ ms) = ap suc (length-keys_of ms)

pub record Instruction : Type 0 where
  pub program_id : Pubkey
  pub accounts : List AccountMeta
  pub ix_data : List ℕ

-- `Pubkey::find_program_address` and `create_program_address` under the id of the program, and the
-- address of the associated token account of a wallet and a mint.
pub record Derivation : Type 0 where
  pub find_program_address : List (List ℕ) → Pubkey
  pub create_program_address : List (List ℕ) → Pubkey
  pub associated_token : Pubkey → Pubkey → Pubkey

-- Token accounts of two wallets, or for two mints, have different addresses.
pub record IsCollisionFree (d : Derivation) : Type 0 where
  pub wallets : (v w m n : Pubkey) → d.associated_token v m ≡ d.associated_token w n → v ≡ w
  pub mints : (v w m n : Pubkey) → d.associated_token v m ≡ d.associated_token w n → m ≡ n
