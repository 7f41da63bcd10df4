-- ===== src/Amm/Admin/History.antt =====
-- What any sequence of updates (programs/amm/src/instructions/update_config.rs) leaves of a config.
use solana_instructions_intr.Prelude.{
  ℕ, Bool, ◌<◌, ◌≡◌, refl, ◌∙◌, arith, true, ap, ◌↔◌, Option, none, some, ok, require, ltb, ◌>>◌,
  bytes_eq→eq, bytes_eq_self,
}
use solana_instructions_intr.Solana.{Pubkey, custom}
use solana_instructions_intr.Cpmm.Types.{bps}
use solana_instructions_intr.Amm.Types.{Config, invalid_fee_amount, unauthorized}
use solana_instructions_intr.Amm.Accounts.{UpdateConfig}
use solana_instructions_intr.Amm.Admin.{is_authority, update}

-- Successful updates by any users, in sequence.
pub data History (c : Config) : Config → Type 0 where
  created : History c c
  updated :
      {m c' : Config} (user key : Pubkey) (fee : ℕ) (authority : Option Pubkey) (locked : Bool)
      → History c m
      → update (record { user = user; config_key = key; config = m }) fee authority locked ≡ ok c'
      → History c c'

-- The config still belongs to the same pool, its fee is in range if it was, and it is the same
-- config if it had no authority.
pub record Kept (c c' : Config) : Type 0 where
  pub seed_kept : c'.seed ≡ c.seed
  pub mint_x_kept : c'.mint_x ≡ c.mint_x
  pub mint_y_kept : c'.mint_y ≡ c.mint_y
  pub config_bump_kept : c'.config_bump ≡ c.config_bump
  pub lp_bump_kept : c'.lp_bump ≡ c.lp_bump
  pub fee_kept : c.fee < bps → c'.fee < bps
  pub frozen : c.authority ≡ none → c' ≡ c

-- What one update has checked and done.
pub record Updated (a : UpdateConfig) (fee : ℕ) (authority : Option Pubkey) (locked : Bool)
    (c' : Config) : Type 0 where
  pub fee_lt : fee < bps
  pub allowed : a.config.authority ≡ some a.user
  pub result : c' ≡ record a.config { fee = fee; authority = authority; locked = locked }

is_authority-eq : (o : Option Pubkey) (k : Pubkey) → is_authority o k ≡ true → o ≡ some k
is_authority-eq none k e = cc
is_authority-eq (some j) k e = ap some (bytes_eq→eq j k e)

-- The guards in the order of the code, and the new config behind them.
guarded :
    (small known : Bool) (r c' : Config)
    → (do require small (custom invalid_fee_amount); require known (custom unauthorized); ok r)
      ≡ ok c'
    → (small ≡ true) × (known ≡ true) × (c' ≡ r)
guarded small known r c' e = ground arith

update_sound :
    (a : UpdateConfig) (fee : ℕ) (authority : Option Pubkey) (locked : Bool) (c' : Config)
    → update a fee authority locked ≡ ok c'
    → Updated a fee authority locked c'
unfolding update
update_sound a fee authority locked c' e =
    let (small, known, r) =
      guarded (ltb fee bps) (is_authority a.config.authority a.user)
        (record a.config { fee = fee; authority = authority; locked = locked }) c' e in
    record {
      fee_lt = ground (arith, small);
      allowed = is_authority-eq a.config.authority a.user known;
      result = r;
    }

update_complete :
    (a : UpdateConfig) (fee : ℕ) (authority : Option Pubkey) (locked : Bool) (c' : Config)
    → Updated a fee authority locked c'
    → update a fee authority locked ≡ ok c'
unfolding update
update_complete a fee authority locked c' u =
    let small : ltb fee bps ≡ true = ground (arith, u.fee_lt) in
    rw (small, u.allowed, bytes_eq_self a.user, u.result) refl

-- An update succeeds exactly if the fee is below the basis points and the signer is the authority,
-- and then it sets the fee, the authority and the lock and nothing else.
pub update-Updated :
    (a : UpdateConfig) (fee : ℕ) (authority : Option Pubkey) (locked : Bool) (c' : Config)
    → (update a fee authority locked ≡ ok c') ↔ Updated a fee authority locked c'
update-Updated a fee authority locked c' =
    (update_sound a fee authority locked c', update_complete a fee authority locked c')

-- After any sequence of successful updates by any users the config has the seed, the mints and the
-- bumps it began with, a fee below the basis points if it began with one, and is unchanged
-- altogether if it began without an authority.
pub History-Kept : {c c' : Config} → History c c' → Kept c c'
History-Kept created = record {
  seed_kept = refl;
  mint_x_kept = refl;
  mint_y_kept = refl;
  config_bump_kept = refl;
  lp_bump_kept = refl;
  fee_kept = λ h. h;
  frozen = λ h. refl;
}
History-Kept (updated {m} {c'} user key fee authority locked h e) =
    let k = History-Kept h in
    let u =
      update_sound (record { user = user; config_key = key; config = m }) fee authority locked c'
        e in
    record {
      seed_kept = ap (λ c. c.seed) u.result ∙ k.seed_kept;
      mint_x_kept = ap (λ c. c.mint_x) u.result ∙ k.mint_x_kept;
      mint_y_kept = ap (λ c. c.mint_y) u.result ∙ k.mint_y_kept;
      config_bump_kept = ap (λ c. c.config_bump) u.result ∙ k.config_bump_kept;
      lp_bump_kept = ap (λ c. c.lp_bump) u.result ∙ k.lp_bump_kept;
      fee_kept = λ _. omega (arith, ap (λ c. c.fee) u.result, u.fee_lt);
      frozen = λ n. cc (k.frozen n, n, u.allowed);
    }
