-- ===== src/Amm/Program/Pause.antt =====
-- The lock that `update_config` sets, and the instructions that read it
-- (programs/amm/src/instructions).
use solana_instructions_intr.Prelude.{
  sym, ◌≢◌, Result, ◌>>=◌, panic, ℕ, Bool, true, false, ◌≡◌, refl, ap, ◌∙◌, Option, some, ok, err,
  ◌>>◌, require,
}
use solana_instructions_intr.Solana.{Pubkey, constraint, custom, Derivation}
use solana_instructions_intr.Solana.Token.{TokenOps}
use solana_instructions_intr.Amm.Types.{called, Config, Handled, pool_locked}
use solana_instructions_intr.Amm.Accounts.{
  LpAccounts, swap_constraints, lp_constraints, burn_constraints,
}
use solana_instructions_intr.Amm.Admin.History.{update-Updated}
use solana_instructions_intr.Amm.Program.Steps.{Trades, update_step, put_config_self}
use solana_instructions_intr.Amm.Swap as Amm_swap
use solana_instructions_intr.Amm.Deposit as Amm_deposit
use solana_instructions_intr.Amm.Withdraw as Amm_withdraw
use solana_instructions_intr.Amm.Introspection as Amm_introspection
use solana_instructions_intr.Amm.Introspection.{Introspected}
use solana_instructions_intr.Amm.Program.{
  user_lp_account, Call, initialize, deposit, withdraw_w_introspection, withdraw, swap,
  update_config, burn_lp_tokens, with_config, burner_of, updater_of, put_config, Amm, process,
  moved,
}

-- The account constraints of a trading call.
abbrev pub constraints_of : Derivation → Introspected → LpAccounts → Call → Bool
constraints_of d s a (swap amount side min_out) = swap_constraints d a.trade
constraints_of d s a (deposit token_x token_y side min_lp) = lp_constraints d a
constraints_of d s a (withdraw lp_amount side min_x min_y) = lp_constraints d a
constraints_of d s a (withdraw_w_introspection lp_amount side min_x min_y) =
    Amm_introspection.introspection_constraints d s a
constraints_of d s a (burn_lp_tokens amount) = burn_constraints d (burner_of a)
constraints_of d s a (initialize config_bump lp_bump seed fee authority) = false
constraints_of d s a (update_config seed fee authority locked) = false

module _ (t : TokenOps) where
  -- The LP account that every trading call but a swap creates where it is missing.
  abbrev pub lp_account_created : LpAccounts → Call → t.Ledger → Handled t.Ledger
  lp_account_created a (swap amount side min_out) l = ok l
  lp_account_created a (deposit token_x token_y side min_lp) l =
      called (t.init_if_needed (user_lp_account a) l)
  lp_account_created a (withdraw lp_amount side min_x min_y) l =
      called (t.init_if_needed (user_lp_account a) l)
  lp_account_created a (withdraw_w_introspection lp_amount side min_x min_y) l =
      called (t.init_if_needed (user_lp_account a) l)
  lp_account_created a (burn_lp_tokens amount) l = called (t.init_if_needed (user_lp_account a) l)
  lp_account_created a (initialize config_bump lp_bump seed fee authority) l = ok l
  lp_account_created a (update_config seed fee authority locked) l = ok l

  -- What a locked pool answers: the error of the constraints or of the creation of the LP account,
  -- or else `PoolLocked`.
  abbrev pub locked_answer : Derivation → Introspected → LpAccounts → Call → Amm t → Handled (Amm t)
  locked_answer d s a c g = do
    require (constraints_of d s a c) constraint
    l ← lp_account_created a c g.ledger
    err (custom pool_locked)

module _ (t : TokenOps) (d : Derivation) (s : Introspected) where
  -- A handler that is refused before any transfer.
  after_init :
      (b : Bool) (r : Result ℕ t.Ledger) (run : t.Ledger → Handled t.Ledger) (g : Amm t)
      → ((l : t.Ledger) → run l ≡ err (custom pool_locked))
      → (do require b constraint; moved t d s g (called r >>= run))
        ≡ (do require b constraint; l ← called r; err (custom pool_locked))
  after_init false r run g h = refl
  after_init true (ok l) run g h = rw (h l) refl
  after_init true (err n) run g h = refl
  after_init true panic run g h = refl

  after_check :
      (b : Bool) (r : Handled t.Ledger) (g : Amm t)
      → r ≡ err (custom pool_locked)
      → (do require b constraint; moved t d s g r)
        ≡ (do require b constraint; l ← ok g.ledger; err (custom pool_locked))
  after_check false r g h = refl
  after_check true r g h = rw h refl

  locked_answers :
      (a : LpAccounts) (c : Call) (g : Amm t) (k : Config)
      → g.configs a.config_key ≡ some k
      → k.locked ≡ true
      → Trades c
      → process t d s a c g ≡ locked_answer t d s (with_config a k) c g
  unfolding process Amm_swap.swap Amm_deposit.deposit Amm_withdraw.withdraw Amm_withdraw.burn_lp
      Amm_introspection.withdraw_w_introspection
  locked_answers a (deposit token_x token_y side min_lp) g k found locked tr = rw found (
      after_init (lp_constraints d (with_config a k))
        (t.init_if_needed (user_lp_account a) g.ledger) _ g (λ l. rw locked refl))
  locked_answers a (withdraw_w_introspection lp_amount side min_x min_y) g k found locked tr =
      rw found (
        after_init (Amm_introspection.introspection_constraints d s (with_config a k))
          (t.init_if_needed (user_lp_account a) g.ledger) _ g (λ l. rw locked refl))
  locked_answers a (withdraw lp_amount side min_x min_y) g k found locked tr = rw found (
      after_init (lp_constraints d (with_config a k))
        (t.init_if_needed (user_lp_account a) g.ledger) _ g (λ l. rw locked refl))
  locked_answers a (swap amount side min_out) g k found locked tr =
      rw found (after_check (swap_constraints d (with_config a k).trade) _ g (rw locked refl))
  locked_answers a (burn_lp_tokens amount) g k found locked tr = rw found (
      after_init (burn_constraints d (burner_of (with_config a k)))
        (t.init_if_needed (user_lp_account a) g.ledger) _ g (λ l. rw locked refl))
  locked_answers a (initialize config_bump lp_bump seed fee authority) g k found locked tr =
      absurd tr
  locked_answers a (update_config seed fee authority lock) g k found locked tr = absurd tr

  no_success :
      (b : Bool) (r : Handled t.Ledger) (g : Amm t)
      → (do require b constraint; l ← r; err (custom pool_locked)) ≢ ok g
  no_success false r g e = cc
  no_success true (ok l) g e = cc
  no_success true (err n) g e = cc
  no_success true panic g e = cc

  pub pause_stops :
      (a : LpAccounts) (seed fee : ℕ) (authority : Option Pubkey) (g g' : Amm t) (b : LpAccounts)
      (c : Call)
      → process t d s a (update_config seed fee authority true) g ≡ ok g'
      → b.config_key ≡ a.config_key
      → Trades c
      → (k : Config) × (g'.configs b.config_key ≡ some k)
        × (k.locked ≡ true)
        × (process t d s b c g' ≡ locked_answer t d s (with_config b k) c g')
        × ((h : Amm t) → process t d s b c g' ≢ ok h)
  pause_stops a seed fee authority g g' b c e same tr =
      let (k, k', found, changed, stored) = update_step t d s a seed fee authority true g g' e in
      let u = (update-Updated (updater_of (with_config a k)) fee authority true k').0 changed in
      let here : g'.configs b.config_key ≡ some k' =
        ap (λ (f : Pubkey → Option Config). f b.config_key) stored
        ∙ ap (put_config g.configs a.config_key k') same
        ∙ put_config_self g.configs a.config_key k' in
      let locked = ap (λ (x : Config). x.locked) u.result in
      let answer = locked_answers b c g' k' here locked tr in
      (
        k',
        here,
        locked,
        answer,
        λ h p.
            no_success (constraints_of d s (with_config b k') c)
              (lp_account_created t (with_config b k') c g'.ledger) h (sym answer ∙ p),
      )
