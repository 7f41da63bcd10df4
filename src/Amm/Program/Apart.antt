-- ===== src/Amm/Program/Apart.antt =====
-- The entry points of programs/amm/src/lib.rs and the configs of other pools.
use solana_instructions_intr.Prelude.{
  ◌≡◌, ◌≢◌, ap, ◌∙◌, Option, ok, bytes_eq, bytes_eq→eq, Bool-cases, inl, inr,
}
use solana_instructions_intr.Solana.{Pubkey, Derivation}
use solana_instructions_intr.Solana.Token.{TokenOps}
use solana_instructions_intr.Amm.Types.{Config}
use solana_instructions_intr.Amm.Accounts.{LpAccounts}
use solana_instructions_intr.Amm.Introspection.{Introspected}
use solana_instructions_intr.Amm.Program.{
  Call, initialize, deposit, withdraw_w_introspection, withdraw, swap, update_config,
  burn_lp_tokens, put_config, Amm, process,
}
use solana_instructions_intr.Amm.Program.Steps.{
  put_config_ne, update_step, init_step, trade-configs,
}

module _ (t : TokenOps) (d : Derivation) (s : Introspected) (a : LpAccounts) (key : Pubkey)
    (apart : a.config_key ≢ key) (m g' : Amm t) where
  changed_apart :
      (c : Config)
      → g'.configs ≡ put_config m.configs a.config_key c
      → g'.configs key ≡ m.configs key
  changed_apart c e = elim (Bool-cases (bytes_eq a.config_key key)) [
    | inl same ↦ absurd (apart (bytes_eq→eq a.config_key key same))
    | inr ne ↦
        ap (λ (f : Pubkey → Option Config). f key) e ∙ put_config_ne m.configs a.config_key c key ne
  ]

  same_apart : g'.configs ≡ m.configs → g'.configs key ≡ m.configs key
  same_apart e = ap (λ (f : Pubkey → Option Config). f key) e

  -- A successful call leaves the configs alone that are not at its config account.
  pub process_apart : (c : Call) → process t d s a c m ≡ ok g' → g'.configs key ≡ m.configs key
  process_apart (initialize config_bump lp_bump seed fee authority) e =
      let i = init_step t d s a config_bump lp_bump seed fee authority m g' e in
      changed_apart i.made i.stored
  process_apart (update_config seed fee authority lock) e =
      let (k, c, loaded, changed, stored) = update_step t d s a seed fee authority lock m g' e in
      changed_apart c stored
  process_apart (deposit x y side min_lp) e =
      same_apart (trade-configs t d s a (deposit x y side min_lp) m g' tt e)
  process_apart (withdraw_w_introspection dl side min_x min_y) e =
      same_apart (trade-configs t d s a (withdraw_w_introspection dl side min_x min_y) m g' tt e)
  process_apart (withdraw dl side min_x min_y) e =
      same_apart (trade-configs t d s a (withdraw dl side min_x min_y) m g' tt e)
  process_apart (swap amount side min_out) e =
      same_apart (trade-configs t d s a (swap amount side min_out) m g' tt e)
  process_apart (burn_lp_tokens n) e =
      same_apart (trade-configs t d s a (burn_lp_tokens n) m g' tt e)
