-- ===== src/Amm/Accounts/Distinct.antt =====
-- The account constraints of programs/amm/src/instructions keep the token accounts apart.
use solana_instructions_intr.Prelude.{true, ◌≡◌, ◌≢◌, sym, arith, bytes_eq→eq}
use solana_instructions_intr.Solana.{Derivation, IsCollisionFree}
use solana_instructions_intr.Amm.Accounts.{
  Swap, LpAccounts, swap_constraints, lp_constraints, AreDistinct, AreLpDistinct,
}

-- The addresses of the four token accounts.
pub record AreAssociated (d : Derivation) (a : Swap) : Type 0 where
  pub vault_x_at : a.vault_x ≡ d.associated_token a.config_key a.mint_x
  pub vault_y_at : a.vault_y ≡ d.associated_token a.config_key a.mint_y
  pub user_x_at : a.user_x ≡ d.associated_token a.user a.mint_x
  pub user_y_at : a.user_y ≡ d.associated_token a.user a.mint_y

pub constraints-AreAssociated :
    (d : Derivation) (a : Swap) → swap_constraints d a ≡ true → AreAssociated d a
unfolding swap_constraints
constraints-AreAssociated d a h = ground (
  arith,
  bytes_eq→eq a.vault_x (d.associated_token a.config_key a.mint_x),
  bytes_eq→eq a.vault_y (d.associated_token a.config_key a.mint_y),
  bytes_eq→eq a.user_x (d.associated_token a.user a.mint_x),
  bytes_eq→eq a.user_y (d.associated_token a.user a.mint_y),
)

pub constraints-AreDistinct :
    (d : Derivation) (a : Swap)
    → IsCollisionFree d
    → swap_constraints d a ≡ true
    → a.user ≢ a.config_key
    → a.mint_x ≢ a.mint_y
    → AreDistinct a
constraints-AreDistinct d a free h user mints =
    let at = constraints-AreAssociated d a h in
    let c = a.config_key in
    let u = a.user in
    let mx = a.mint_x in
    let my = a.mint_y in
    record {
      x_sides = λ p. user (sym (free.wallets c u mx mx (cc (at.vault_x_at, at.user_x_at))));
      y_sides = λ p. user (sym (free.wallets c u my my (cc (at.vault_y_at, at.user_y_at))));
      vaults = λ p. mints (free.mints c c mx my (cc (at.vault_x_at, at.vault_y_at)));
      users = λ p. mints (free.mints u u mx my (cc (at.user_x_at, at.user_y_at)));
      x_vault_y_user = λ p. mints (free.mints c u mx my (cc (at.vault_x_at, at.user_y_at)));
      y_vault_x_user = λ p. mints (sym (free.mints c u my mx (cc (at.vault_y_at, at.user_x_at))));
    }

pub lp_constraints-parts :
    (d : Derivation) (a : LpAccounts)
    → lp_constraints d a ≡ true
    → (swap_constraints d a.trade ≡ true) × (a.user_lp ≡ d.associated_token a.user a.mint_lp)
unfolding lp_constraints
lp_constraints-parts d a h =
    ground (arith, bytes_eq→eq a.user_lp (d.associated_token a.user a.mint_lp))

-- If associated token accounts have an address of their own for each wallet and mint, an account
-- list that meets the constraints of `Deposit` and `Withdraw`, with three different mints and a
-- user other than the config account, has five different token accounts.
pub lp_constraints-AreLpDistinct :
    (d : Derivation) (a : LpAccounts)
    → IsCollisionFree d
    → lp_constraints d a ≡ true
    → a.user ≢ a.config_key
    → a.mint_x ≢ a.mint_y
    → a.mint_lp ≢ a.mint_x
    → a.mint_lp ≢ a.mint_y
    → AreLpDistinct a
lp_constraints-AreLpDistinct d a free h user mints lp_x lp_y =
    let (trade, lp) = lp_constraints-parts d a h in
    let at = constraints-AreAssociated d a.trade trade in
    let c = a.config_key in
    let u = a.user in
    let ml = a.mint_lp in
    record {
      trading = constraints-AreDistinct d a.trade free trade user mints;
      lp_vault_x = λ p. lp_x (free.mints u c ml a.mint_x (cc (at.vault_x_at, lp, p)));
      lp_user_x = λ p. lp_x (free.mints u u ml a.mint_x (cc (at.user_x_at, lp, p)));
      lp_vault_y = λ p. lp_y (free.mints u c ml a.mint_y (cc (at.vault_y_at, lp, p)));
      lp_user_y = λ p. lp_y (free.mints u u ml a.mint_y (cc (at.user_y_at, lp, p)));
    }
