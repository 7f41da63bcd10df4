-- ===== src/Amm/Transfers/Flow.antt =====
-- What the token calls shared by programs/amm/src/instructions do to the ledger.
use solana_instructions_intr.Prelude.{
  ℕ, ◌+◌, ◌≡◌, ◌≢◌, refl, sym, ◌∙◌, arith, ok, Bool, true, false, ◌==◌, subst, Bool-cases, ◌⊎◌, inl,
  inr, Result, map_err-eq-ok, if◌then◌else◌,
}
use solana_instructions_intr.Solana.{Pubkey, program_error}
use solana_instructions_intr.Solana.Token.{TokenOps, IsTokenProgram, Moved}
use solana_instructions_intr.Amm.Types.{Handled, called}
use solana_instructions_intr.Amm.Accounts.{Swap, AreDistinct}
use solana_instructions_intr.Amm.Transfers.{
  vault_of, account_of, user_pays, vault_pays, transfer_user_to_vault, transfer_vault_to_user,
}

module _ (t : TokenOps) where
  open t use {Ledger, balance, supply}

  -- The vaults gained `x_in` and `y_in` from the user and paid `x_out` and `y_out` to the user;
  -- no other account and no supply changed.
  pub record Flow (a : Swap) (x_in x_out y_in y_out : ℕ) (l l' : Ledger) : Type 0 where
    pub vault_x : balance l' a.vault_x + x_out ≡ balance l a.vault_x + x_in
    pub user_x : balance l' a.user_x + x_in ≡ balance l a.user_x + x_out
    pub vault_y : balance l' a.vault_y + y_out ≡ balance l a.vault_y + y_in
    pub user_y : balance l' a.user_y + y_in ≡ balance l a.user_y + y_out
    pub others :
        (k : Pubkey)
        → k ≢ a.vault_x
        → k ≢ a.user_x
        → k ≢ a.vault_y
        → k ≢ a.user_y
        → balance l' k ≡ balance l k
    pub supplies : (m : Pubkey) → supply l' m ≡ supply l m

  pub still : (a : Swap) (l : Ledger) → Flow a 0 0 0 0 l l
  still a l = record {
    vault_x = refl;
    user_x = refl;
    vault_y = refl;
    user_y = refl;
    others = λ k _ _ _ _. refl;
    supplies = λ m. refl;
  }

  pub in_sequence :
      (a : Swap) {xi xo yi yo xi' xo' yi' yo' : ℕ} (l m l' : Ledger)
      → Flow a xi xo yi yo l m
      → Flow a xi' xo' yi' yo' m l'
      → Flow a (xi + xi') (xo + xo') (yi + yi') (yo + yo') l l'
  in_sequence a l m l' f g = record {
    vault_x = omega (arith, f.vault_x, g.vault_x);
    user_x = omega (arith, f.user_x, g.user_x);
    vault_y = omega (arith, f.vault_y, g.vault_y);
    user_y = omega (arith, f.user_y, g.user_y);
    others = λ k h1 h2 h3 h4. g.others k h1 h2 h3 h4 ∙ f.others k h1 h2 h3 h4;
    supplies = λ k. g.supplies k ∙ f.supplies k;
  }

  abbrev pub InFlow : (a : Swap) (is_x : Bool) (n : ℕ) (l l' : Ledger) → Type 0
  InFlow a true n l l' = Flow a n 0 0 0 l l'
  InFlow a false n l l' = Flow a 0 0 n 0 l l'

  abbrev pub OutFlow : (a : Swap) (is_x : Bool) (n : ℕ) (l l' : Ledger) → Type 0
  OutFlow a true n l l' = Flow a 0 n 0 0 l l'
  OutFlow a false n l l' = Flow a 0 0 0 n l l'

  Moved-InFlow :
      (a : Swap) (is_x : Bool) (n : ℕ) (l l' : Ledger)
      → AreDistinct a
      → Moved t (account_of a is_x) (vault_of a is_x) n l l'
      → InFlow a is_x n l l'
  Moved-InFlow a true n l l' d m = record {
    vault_x = omega (arith, m.credited);
    user_x = omega (arith, m.debited, m.covered);
    vault_y = omega (arith, m.others a.vault_y d.y_vault_x_user (λ p. d.vaults (sym p)));
    user_y =
        omega (arith, m.others a.user_y (λ p. d.users (sym p)) (λ p. d.x_vault_y_user (sym p)));
    others = λ k h1 h2 h3 h4. m.others k h2 h1;
    supplies = m.supplies;
  }
  Moved-InFlow a false n l l' d m = record {
    vault_x = omega (arith, m.others a.vault_x d.x_vault_y_user d.vaults);
    user_x = omega (arith, m.others a.user_x d.users (λ p. d.y_vault_x_user (sym p)));
    vault_y = omega (arith, m.credited);
    user_y = omega (arith, m.debited, m.covered);
    others = λ k h1 h2 h3 h4. m.others k h4 h3;
    supplies = m.supplies;
  }

  Moved-OutFlow :
      (a : Swap) (is_x : Bool) (n : ℕ) (l l' : Ledger)
      → AreDistinct a
      → Moved t (vault_of a is_x) (account_of a is_x) n l l'
      → OutFlow a is_x n l l'
  Moved-OutFlow a true n l l' d m = record {
    vault_x = omega (arith, m.debited, m.covered);
    user_x = omega (arith, m.credited);
    vault_y = omega (arith, m.others a.vault_y (λ p. d.vaults (sym p)) d.y_vault_x_user);
    user_y =
        omega (arith, m.others a.user_y (λ p. d.x_vault_y_user (sym p)) (λ p. d.users (sym p)));
    others = λ k h1 h2 h3 h4. m.others k h1 h2;
    supplies = m.supplies;
  }
  Moved-OutFlow a false n l l' d m = record {
    vault_x = omega (arith, m.others a.vault_x d.vaults d.x_vault_y_user);
    user_x = omega (arith, m.others a.user_x (λ p. d.y_vault_x_user (sym p)) d.users);
    vault_y = omega (arith, m.debited, m.covered);
    user_y = omega (arith, m.credited);
    others = λ k h1 h2 h3 h4. m.others k h3 h4;
    supplies = m.supplies;
  }

  apart : (a : Swap) (is_x : Bool) → AreDistinct a → vault_of a is_x ≢ account_of a is_x
  apart a true d = d.x_sides
  apart a false d = d.y_sides

  -- A transfer that is left out when its amount is zero.
  pub skipped :
      (n : ℕ) (r : Result ℕ Ledger) (l l' : Ledger)
      → ◌≡◌ {A = Handled Ledger} (if n == 0 then ok l else called r) (ok l')
      → ((n ≡ 0) × (l ≡ l')) ⊎ (r ≡ ok l')
  skipped n r l l' e = elim (Bool-cases (n == 0)) [
    | inl z ↦ inl (ground (arith, z), ground (arith, rw z at e))
    | inr z ↦ inr (map_err-eq-ok program_error r (rw z at e))
  ]

  no_flow :
      (a : Swap) (is_x : Bool) (n : ℕ) (l l' : Ledger)
      → n ≡ 0
      → l ≡ l'
      → InFlow a is_x n l l' × OutFlow a is_x n l l'
  no_flow a true n l l' z e =
      subst (λ k. InFlow a true n l k × OutFlow a true n l k) e (rw z (still a l, still a l))
  no_flow a false n l l' z e =
      subst (λ k. InFlow a false n l k × OutFlow a false n l k) e (rw z (still a l, still a l))

  module _ (law : IsTokenProgram t) where
    pub user_to_vault :
        (a : Swap) (is_x : Bool) (n : ℕ) (l l' : Ledger)
        → AreDistinct a
        → transfer_user_to_vault t a is_x n l ≡ ok l'
        → InFlow a is_x n l l'
    unfolding transfer_user_to_vault
    user_to_vault a is_x n l l' d e =
        elim (skipped n (t.transfer (user_pays t a is_x) n l) l l' e) [
          | inl z ↦ (no_flow a is_x n l l' z.0 z.1).0
          | inr s ↦
              Moved-InFlow a is_x n l l' d
                (law.transfer_moves (user_pays t a is_x) n l l' (λ p. apart a is_x d (sym p)) s)
        ]

    pub vault_to_user :
        (a : Swap) (is_x : Bool) (n : ℕ) (l l' : Ledger)
        → AreDistinct a
        → transfer_vault_to_user t a is_x n l ≡ ok l'
        → OutFlow a is_x n l l'
    unfolding transfer_vault_to_user
    vault_to_user a is_x n l l' d e =
        elim (skipped n (t.transfer (vault_pays t a is_x) n l) l l' e) [
          | inl z ↦ (no_flow a is_x n l l' z.0 z.1).1
          | inr s ↦
              Moved-OutFlow a is_x n l l' d
                (law.transfer_moves (vault_pays t a is_x) n l l' (apart a is_x d) s)
        ]

  -- Amounts that went both ways cancel.
  pub cancel :
      (a : Swap) {xi xo yi yo xi' xo' yi' yo' : ℕ} (l l' : Ledger)
      → xi + xo' ≡ xi' + xo
      → yi + yo' ≡ yi' + yo
      → Flow a xi xo yi yo l l'
      → Flow a xi' xo' yi' yo' l l'
  cancel a l l' hx hy f = record {
    vault_x = omega (arith, f.vault_x);
    user_x = omega (arith, f.user_x);
    vault_y = omega (arith, f.vault_y);
    user_y = omega (arith, f.user_y);
    others = f.others;
    supplies = f.supplies;
  }
