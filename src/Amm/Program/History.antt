-- ===== src/Amm/Program/History.antt =====
-- What any sequence of calls (programs/amm/src/lib.rs) leaves of the config of a pool.
use solana_instructions_intr.Prelude.{
  ℕ, Bool, false, ◌≡◌, refl, ap, ◌∙◌, Option, some, ok, bytes_eq, bytes_eq→eq, Bool-cases, inl, inr,
}
use solana_instructions_intr.Solana.{Pubkey, Derivation}
use solana_instructions_intr.Solana.Token.{TokenOps}
use solana_instructions_intr.Amm.Types.{Config}
use solana_instructions_intr.Amm.Accounts.{LpAccounts}
use solana_instructions_intr.Amm.Admin.History as Admin_history
use solana_instructions_intr.Amm.Admin.History.{Kept, History-Kept}
use solana_instructions_intr.Amm.Introspection.{Introspected}
use solana_instructions_intr.Amm.Program.{
  Call, initialize, deposit, withdraw_w_introspection, withdraw, swap, update_config,
  burn_lp_tokens, put_config, Amm, process,
}
use solana_instructions_intr.Amm.Program.Steps.{
  trade-configs, update_step, init_step, put_config_ne,
}

module _ (t : TokenOps) (d : Derivation) where
  -- Successful calls by anyone, and whatever other programs do to the tokens between them.
  pub data History (g : Amm t) : Amm t → Type 0 where
    begun : History g g
    called :
        {m g' : Amm t} (s : Introspected) (a : LpAccounts) (c : Call)
        → History g m
        → process t d s a c m ≡ ok g'
        → History g g'
    elsewhere : {m g' : Amm t} → History g m → g'.configs ≡ m.configs → History g g'

  -- The config that is stored at the key came from `k` by updates.
  abbrev Reached : Amm t → Pubkey → Config → Type 0
  Reached g key k = (k' : Config) × (g.configs key ≡ some k') × Admin_history.History k k'

  same_configs :
      (m g' : Amm t) (key : Pubkey) (k : Config)
      → g'.configs ≡ m.configs
      → Reached m key k
      → Reached g' key k
  same_configs m g' key k e (k', found, h) =
      (k', ap (λ (f : Pubkey → Option Config). f key) e ∙ found, h)

  other_config :
      (m g' : Amm t) (at key : Pubkey) (c k : Config)
      → g'.configs ≡ put_config m.configs at c
      → bytes_eq at key ≡ false
      → Reached m key k
      → Reached g' key k
  other_config m g' at key c k e ne (k', found, h) = (
    k',
    ap (λ (f : Pubkey → Option Config). f key) e ∙ put_config_ne m.configs at c key ne ∙ found,
    h,
  )

  after_update :
      (s : Introspected) (a : LpAccounts) (seed fee : ℕ) (authority : Option Pubkey) (lock : Bool)
      (m g' : Amm t) (key : Pubkey) (k : Config)
      → process t d s a (update_config seed fee authority lock) m ≡ ok g'
      → Reached m key k
      → Reached g' key k
  after_update s a seed fee authority lock m g' key k e (k1, found, h) =
      let (k2, c, loaded, changed, stored) = update_step t d s a seed fee authority lock m g' e in
      elim (Bool-cases (bytes_eq a.config_key key)) [
        | inl same ↦
            let here : k2 ≡ k1 =
              cc (loaded, found, ap m.configs (bytes_eq→eq a.config_key key same)) in
            (
              c,
              ap (λ (f : Pubkey → Option Config). f key) stored ∙ rw same refl,
              Admin_history.updated a.user a.config_key fee authority lock h (rw here at changed),
            )
        | inr ne ↦ other_config m g' a.config_key key c k stored ne (k1, found, h)
      ]

  after_init :
      (s : Introspected) (a : LpAccounts) (config_bump lp_bump seed fee : ℕ)
      (authority : Option Pubkey) (m g' : Amm t) (key : Pubkey) (k : Config)
      → process t d s a (initialize config_bump lp_bump seed fee authority) m ≡ ok g'
      → Reached m key k
      → Reached g' key k
  after_init s a config_bump lp_bump seed fee authority m g' key k e (k1, found, h) =
      let i = init_step t d s a config_bump lp_bump seed fee authority m g' e in
      elim (Bool-cases (bytes_eq a.config_key key)) [
        | inl same ↦ cc (i.vacant, found, ap m.configs (bytes_eq→eq a.config_key key same))
        | inr ne ↦ other_config m g' a.config_key key i.made k i.stored ne (k1, found, h)
      ]

  after_call :
      (s : Introspected) (a : LpAccounts) (c : Call) (m g' : Amm t) (key : Pubkey) (k : Config)
      → process t d s a c m ≡ ok g'
      → Reached m key k
      → Reached g' key k
  after_call s a (initialize config_bump lp_bump seed fee authority) m g' key k e r =
      after_init s a config_bump lp_bump seed fee authority m g' key k e r
  after_call s a (update_config seed fee authority lock) m g' key k e r =
      after_update s a seed fee authority lock m g' key k e r
  after_call s a (deposit x y side min_lp) m g' key k e r =
      same_configs m g' key k (trade-configs t d s a (deposit x y side min_lp) m g' tt e) r
  after_call s a (withdraw_w_introspection dl side min_x min_y) m g' key k e r =
      same_configs m g' key k
        (trade-configs t d s a (withdraw_w_introspection dl side min_x min_y) m g' tt e) r
  after_call s a (withdraw dl side min_x min_y) m g' key k e r =
      same_configs m g' key k (trade-configs t d s a (withdraw dl side min_x min_y) m g' tt e) r
  after_call s a (swap amount side min_out) m g' key k e r =
      same_configs m g' key k (trade-configs t d s a (swap amount side min_out) m g' tt e) r
  after_call s a (burn_lp_tokens dl) m g' key k e r =
      same_configs m g' key k (trade-configs t d s a (burn_lp_tokens dl) m g' tt e) r

  History-Reached :
      {g g' : Amm t} (key : Pubkey) (k : Config)
      → g.configs key ≡ some k
      → History g g'
      → Reached g' key k
  History-Reached key k e begun = (k, e, Admin_history.created)
  History-Reached key k e (called {m} {g'} s a c h run) =
      after_call s a c m g' key k run (History-Reached key k e h)
  History-Reached key k e (elsewhere {m} {g'} h same) =
      same_configs m g' key k same (History-Reached key k e h)

  -- Once a pool has a config, no sequence of successful calls by anyone, with any changes of the
  -- tokens by other programs in between, removes it: it keeps its seed, its mints and its bumps,
  -- its fee stays below the basis points if it was, and without an authority it never changes.
  pub process-Kept :
      (g g' : Amm t) (key : Pubkey) (k : Config)
      → g.configs key ≡ some k
      → History g g'
      → (k' : Config) × (g'.configs key ≡ some k') × Kept k k'
  process-Kept g g' key k e h =
      let (k', found, updates) = History-Reached key k e h in (k', found, History-Kept updates)
