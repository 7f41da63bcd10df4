-- ===== src/Amm/Program/Steps.antt =====
-- What the calls of programs/amm/src/lib.rs do to the stored configs.
use solana_instructions_intr.Prelude.{
  ℕ, Bool, true, false, ◌≡◌, refl, sym, ap, ◌∙◌, Option, none, some, ok, ◌>>=◌, ◌>>◌, require,
  ok_or, bytes_eq, bytes_eq_self, >>=-eq-ok, require-eq-ok, map_err-eq-ok,
}
use solana_instructions_intr.Solana.{Pubkey, constraint, program_error, Derivation}
use solana_instructions_intr.Solana.Token.{TokenOps}
use solana_instructions_intr.Amm.Types.{Config, OperationSide, Handled, called}
use solana_instructions_intr.Amm.Accounts.{
  LpAccounts, swap_constraints, lp_constraints, burn_constraints,
}
use solana_instructions_intr.Amm.Swap as Amm_swap
use solana_instructions_intr.Amm.Deposit as Amm_deposit
use solana_instructions_intr.Amm.Withdraw as Amm_withdraw
use solana_instructions_intr.Amm.Introspection as Amm_introspection
use solana_instructions_intr.Amm.Admin
use solana_instructions_intr.Amm.Introspection.{Introspected}
use solana_instructions_intr.Amm.Program.{
  Call, initialize, deposit, withdraw_w_introspection, withdraw, swap, update_config,
  burn_lp_tokens, with_config, burner_of, updater_of, update_constraints, init_constraints,
  put_config, Amm, load, moved, process, with_user_lp, user_lp_account, lp_mint_of, vault_account,
}

-- The calls that move, mint or burn tokens.
abbrev pub Trades : Call → Type 0
Trades (initialize config_bump lp_bump seed fee authority) = ⊥
Trades (deposit token_x token_y side min_lp) = Unit
Trades (withdraw_w_introspection lp_amount side min_x min_y) = Unit
Trades (withdraw lp_amount side min_x min_y) = Unit
Trades (swap amount side min_out) = Unit
Trades (update_config seed fee authority locked) = ⊥
Trades (burn_lp_tokens amount) = Unit

pub put_config_self :
    (configs : Pubkey → Option Config) (key : Pubkey) (c : Config)
    → put_config configs key c key ≡ some c
put_config_self configs key c = rw (bytes_eq_self key) refl

pub put_config_ne :
    (configs : Pubkey → Option Config) (key : Pubkey) (c : Config) (j : Pubkey)
    → bytes_eq key j ≡ false
    → put_config configs key c j ≡ configs j
put_config_ne configs key c j h = rw h refl

loaded :
    {A : Type 0} (a : LpAccounts) (o : Option Config) (rest : LpAccounts → Handled A) {z : A}
    → ((ok_or o constraint >>= λ c. ok (with_config a c)) >>= rest) ≡ ok z
    → (k : Config) × (o ≡ some k) × (rest (with_config a k) ≡ ok z)
loaded a none rest e = cc
loaded a (some k) rest e = (k, refl, e)

module _ (t : TokenOps) (d : Derivation) (s : Introspected) where
  -- What a call that trades has checked and done: `run` is its handler.
  traded :
      (a : LpAccounts) (g : Amm t) (guard : LpAccounts → Bool) (run : LpAccounts → Handled t.Ledger)
      (g' : Amm t)
      → (do b ← load t d s a g; require (guard b) constraint; moved t d s g (run b)) ≡ ok g'
      → (k : Config) × (g.configs a.config_key ≡ some k)
        × (guard (with_config a k) ≡ true)
        × (run (with_config a k) ≡ ok g'.ledger)
        × (g'.configs ≡ g.configs)
  traded a g guard run g' e =
      let (k, found, e1) =
        loaded a (g.configs a.config_key)
          (λ b. require (guard b) constraint >> moved t d s g (run b)) e in
      let b = with_config a k in
      let (_, met, e2) = >>=-eq-ok (require (guard b) constraint) _ e1 in
      let (l, ran, e3) = >>=-eq-ok (run b) _ e2 in
      let left : record g { ledger = l } ≡ g' = cc e3 in
      (
        k,
        found,
        require-eq-ok (guard b) constraint met,
        ran ∙ ap (λ (h : Amm t). ok h.ledger) left,
        ap (λ (h : Amm t). h.configs) (sym left),
      )

  pub swap_step :
      (a : LpAccounts) (amount : ℕ) (side : OperationSide) (min_out : ℕ) (g g' : Amm t)
      → process t d s a (swap amount side min_out) g ≡ ok g'
      → (k : Config) × (g.configs a.config_key ≡ some k)
        × (swap_constraints d (with_config a k).trade ≡ true)
        × (Amm_swap.swap t (with_config a k).trade amount side min_out g.ledger ≡ ok g'.ledger)
        × (g'.configs ≡ g.configs)
  unfolding process
  swap_step a amount side min_out g g' e =
      traded a g (λ b. swap_constraints d b.trade)
        (λ b. Amm_swap.swap t b.trade amount side min_out g.ledger) g' e

  -- What a call with the LP account of the user has checked and done.
  lp_step :
      (a : LpAccounts) (g : Amm t) (guard : LpAccounts → Bool)
      (run : LpAccounts → t.Ledger → Handled t.Ledger) (g' : Amm t)
      → (do
        b ← load t d s a g
        require (guard b) constraint
        moved t d s g (with_user_lp t d s b g (run b)))
        ≡ ok g'
      → (k : Config) × (g.configs a.config_key ≡ some k)
        × (guard (with_config a k) ≡ true)
        × ((m : t.Ledger) × (t.init_if_needed (user_lp_account a) g.ledger ≡ ok m)
            × (run (with_config a k) m ≡ ok g'.ledger))
        × (g'.configs ≡ g.configs)
  lp_step a g guard run g' e =
      let (k, found, met, ran, same) =
        traded a g guard (λ b. with_user_lp t d s b g (run b)) g' e in
      let (m, created, done) =
        >>=-eq-ok (called (t.init_if_needed (user_lp_account (with_config a k)) g.ledger)) _ ran in
      (k, found, met, (m, map_err-eq-ok program_error _ created, done), same)

  pub withdraw_step :
      (a : LpAccounts) (dl : ℕ) (side : OperationSide) (min_x min_y : ℕ) (g g' : Amm t)
      → process t d s a (withdraw dl side min_x min_y) g ≡ ok g'
      → (k : Config) × (g.configs a.config_key ≡ some k)
        × (lp_constraints d (with_config a k) ≡ true)
        × ((m : t.Ledger) × (t.init_if_needed (user_lp_account a) g.ledger ≡ ok m)
            × (Amm_withdraw.withdraw t (with_config a k) dl side min_x min_y m ≡ ok g'.ledger))
        × (g'.configs ≡ g.configs)
  unfolding process
  withdraw_step a dl side min_x min_y g g' e =
      lp_step a g (lp_constraints d) (λ b. Amm_withdraw.withdraw t b dl side min_x min_y) g' e

  pub introspected_step :
      (a : LpAccounts) (dl : ℕ) (side : OperationSide) (min_x min_y : ℕ) (g g' : Amm t)
      → process t d s a (withdraw_w_introspection dl side min_x min_y) g ≡ ok g'
      → (k : Config) × (g.configs a.config_key ≡ some k)
        × (Amm_introspection.introspection_constraints d s (with_config a k) ≡ true)
        × ((m : t.Ledger) × (t.init_if_needed (user_lp_account a) g.ledger ≡ ok m)
            × (Amm_introspection.withdraw_w_introspection t s
                  (with_config a k)
                  dl
                  side
                  min_x
                  min_y
                  m
                ≡ ok g'.ledger))
        × (g'.configs ≡ g.configs)
  unfolding process
  introspected_step a dl side min_x min_y g g' e =
      lp_step a g (Amm_introspection.introspection_constraints d s)
        (λ b. Amm_introspection.withdraw_w_introspection t s b dl side min_x min_y) g' e

  pub deposit_step :
      (a : LpAccounts) (x y : Option ℕ) (side : OperationSide) (min_lp : ℕ) (g g' : Amm t)
      → process t d s a (deposit x y side min_lp) g ≡ ok g'
      → (k : Config) × (g.configs a.config_key ≡ some k)
        × (lp_constraints d (with_config a k) ≡ true)
        × ((m : t.Ledger) × (t.init_if_needed (user_lp_account a) g.ledger ≡ ok m)
            × (Amm_deposit.deposit t (with_config a k) x y side min_lp m ≡ ok g'.ledger))
        × (g'.configs ≡ g.configs)
  unfolding process
  deposit_step a x y side min_lp g g' e =
      lp_step a g (lp_constraints d) (λ b. Amm_deposit.deposit t b x y side min_lp) g' e

  pub burn_step :
      (a : LpAccounts) (dl : ℕ) (g g' : Amm t)
      → process t d s a (burn_lp_tokens dl) g ≡ ok g'
      → (k : Config) × (g.configs a.config_key ≡ some k)
        × (burn_constraints d (burner_of (with_config a k)) ≡ true)
        × ((m : t.Ledger) × (t.init_if_needed (user_lp_account a) g.ledger ≡ ok m)
            × (Amm_withdraw.burn_lp t (burner_of (with_config a k)) dl m ≡ ok g'.ledger))
        × (g'.configs ≡ g.configs)
  unfolding process
  burn_step a dl g g' e =
      lp_step a g (λ b. burn_constraints d (burner_of b))
        (λ b. Amm_withdraw.burn_lp t (burner_of b) dl) g' e

  pub trade-configs :
      (a : LpAccounts) (c : Call) (g g' : Amm t)
      → Trades c
      → process t d s a c g ≡ ok g'
      → g'.configs ≡ g.configs
  trade-configs a (swap amount side min_out) g g' tr e = (swap_step a amount side min_out g g' e).4
  trade-configs a (withdraw dl side min_x min_y) g g' tr e =
      (withdraw_step a dl side min_x min_y g g' e).4
  trade-configs a (burn_lp_tokens dl) g g' tr e = (burn_step a dl g g' e).4
  trade-configs a (deposit x y side min_lp) g g' tr e = (deposit_step a x y side min_lp g g' e).4
  trade-configs a (withdraw_w_introspection dl side min_x min_y) g g' tr e =
      (introspected_step a dl side min_x min_y g g' e).4
  trade-configs a (initialize config_bump lp_bump seed fee authority) g g' tr e = absurd tr
  trade-configs a (update_config seed fee authority locked) g g' tr e = absurd tr

  pub update_step :
      (a : LpAccounts) (seed fee : ℕ) (authority : Option Pubkey) (lock : Bool) (g g' : Amm t)
      → process t d s a (update_config seed fee authority lock) g ≡ ok g'
      → (k c : Config) × (g.configs a.config_key ≡ some k)
        × (Admin.update (updater_of (with_config a k)) fee authority lock ≡ ok c)
        × (g'.configs ≡ put_config g.configs a.config_key c)
  unfolding process
  update_step a seed fee authority lock g g' e =
      let (k, found, e1) = loaded a (g.configs a.config_key) _ e in
      let b = updater_of (with_config a k) in
      let (_, _, e2) = >>=-eq-ok (require (update_constraints d b seed) constraint) _ e1 in
      let (c, changed, e3) = >>=-eq-ok (Admin.update b fee authority lock) _ e2 in
      let left : record g { configs = put_config g.configs a.config_key c } ≡ g' = cc e3 in
      (k, c, found, changed, ap (λ (h : Amm t). h.configs) (sym left))

  init_vacant :
      (a : LpAccounts) (seed : ℕ) (o : Option Config)
      → init_constraints d a seed o ≡ true
      → o ≡ none
  unfolding init_constraints
  init_vacant a seed none e = refl
  init_vacant a seed (some k) e = cc

  -- What `initialize` has checked and done.
  pub record Initialized (a : LpAccounts) (config_bump lp_bump seed fee : ℕ)
      (authority : Option Pubkey) (g g' : Amm t) : Type 0 where
    pub made : Config
    pub with_mint : t.Ledger
    pub with_x : t.Ledger
    pub vacant : g.configs a.config_key ≡ none
    pub met : init_constraints d a seed none ≡ true
    pub mint_created : t.init_mint (lp_mint_of a) g.ledger ≡ ok with_mint
    pub x_created : t.init_account (vault_account a a.vault_x a.mint_x) with_mint ≡ ok with_x
    pub y_created : t.init_account (vault_account a a.vault_y a.mint_y) with_x ≡ ok g'.ledger
    pub config_of :
        Admin.init
          (record {
            mint_x = a.mint_x;
            mint_y = a.mint_y;
            bump_config = config_bump;
            bump_mint_lp = lp_bump;
          })
          seed
          fee
          authority
        ≡ ok made
    pub stored : g'.configs ≡ put_config g.configs a.config_key made

  pub init_step :
      (a : LpAccounts) (config_bump lp_bump seed fee : ℕ) (authority : Option Pubkey) (g g' : Amm t)
      → process t d s a (initialize config_bump lp_bump seed fee authority) g ≡ ok g'
      → Initialized a config_bump lp_bump seed fee authority g g'
  unfolding process
  init_step a config_bump lp_bump seed fee authority g g' e =
      let o = g.configs a.config_key in
      let (_, vacant, e1) = >>=-eq-ok (require (init_constraints d a seed o) constraint) _ e in
      let (l0, c0, e2) = >>=-eq-ok (called (t.init_mint (lp_mint_of a) g.ledger)) _ e1 in
      let (l1, c1, e3) =
        >>=-eq-ok (called (t.init_account (vault_account a a.vault_x a.mint_x) l0)) _ e2 in
      let (l2, c2, e4) =
        >>=-eq-ok (called (t.init_account (vault_account a a.vault_y a.mint_y) l1)) _ e3 in
      let (c, made, e5) = >>=-eq-ok (Admin.init _ seed fee authority) _ e4 in
      let left : record { configs = put_config g.configs a.config_key c; ledger = l2 } ≡ g' =
        cc e5 in
      let met = require-eq-ok (init_constraints d a seed o) constraint vacant in
      let free = init_vacant a seed o met in
      record {
        made = c;
        with_mint = l0;
        with_x = l1;
        vacant = free;
        met = rw free at met;
        mint_created = map_err-eq-ok program_error _ c0;
        x_created = map_err-eq-ok program_error _ c1;
        y_created = map_err-eq-ok program_error _ c2 ∙ ap (λ (h : Amm t). ok h.ledger) left;
        config_of = made;
        stored = ap (λ (h : Amm t). h.configs) (sym left);
      }
