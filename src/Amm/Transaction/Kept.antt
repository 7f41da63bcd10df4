-- ===== src/Amm/Transaction/Kept.antt =====
-- What is known of a pool between the instructions of a transaction, and how calls keep it.
use solana_instructions_intr.Prelude.{
  ℕ, ◌≡◌, ◌≢◌, sym, ap, subst, ◌∙◌, Option, some, Result, ok, IsU64, AreBytes,
}
use solana_instructions_intr.Solana.{Pubkey, Derivation, IsCollisionFree, Instruction}
use solana_instructions_intr.Solana.Token.{TokenOps, IsTokenProgram}
use solana_instructions_intr.Cpmm.Types.{IsWellTyped}
use solana_instructions_intr.Amm.Types.{Config, OperationSide}
use solana_instructions_intr.Amm.Accounts.{LpAccounts}
use solana_instructions_intr.Amm.Introspection.{Introspected, expected_accounts}
use solana_instructions_intr.Amm.Program.{
  Call, initialize, deposit, withdraw_w_introspection, withdraw, swap, update_config,
  burn_lp_tokens, with_config, Amm, process,
}
use solana_instructions_intr.Amm.Program.Pools.{HasMints}
use solana_instructions_intr.Amm.Program.Value.{Holds, Holds-chain}
use solana_instructions_intr.Amm.Program.Trading.{call-Holds}
use solana_instructions_intr.Amm.Program.Trading as Trading
use solana_instructions_intr.Amm.Transaction.{Wire, IsAnchor, given, Answers, Exchanges, pool}
use solana_instructions_intr.Amm.Transaction.Claims.{claim_found, claim-IsBurn, IsBurn-call}
use solana_instructions_intr.Amm.Transaction.Worth.{claim-Holds}

module _ (t : TokenOps) (law : IsTokenProgram t) (d : Derivation) (free : IsCollisionFree d)
    (w : Wire) (anchor : IsAnchor w) (key : Pubkey) (k : Config) (mints : HasMints d key k) where
  -- The state before the burn that was made last.
  pub record Burning (g : Amm t) (b : LpAccounts) (n : ℕ) (m : Amm t) : Type 0 where
    pub state : Amm t
    pub context : Introspected
    pub held : Holds (pool t d w key k g) (pool t d w key k state)
    pub typed : IsWellTyped (pool t d w key k state)
    pub burned : process t d context b (burn_lp_tokens n) state ≡ ok m

  -- What is known of the last instruction.
  pub record Last (g : Amm t) (ix : Instruction) (m : Amm t) : Type 0 where
    pub bytes : AreBytes ix.ix_data
    pub burning :
        (b : LpAccounts) (n : ℕ)
        → ix.program_id ≡ w.program_id
        → w.decode ix ≡ some (b, burn_lp_tokens n)
        → b.config_key ≡ key
        → Burning g b n m
    pub decodes :
        ix.program_id ≡ w.program_id → (b : LpAccounts) × (c : Call) × (w.decode ix ≡ some (b, c))

  pub record Kept (g : Amm t) (last : Option Instruction) (m : Amm t) : Type 0 where
    pub held : Holds (pool t d w key k g) (pool t d w key k m)
    pub stored : m.configs key ≡ some k
    pub latest : (ix : Instruction) → last ≡ some ix → Last g ix m

  from_here :
      (a : LpAccounts) (m g' : Amm t)
      → a.config_key ≡ key
      → Holds (pool t d w a.config_key k m) (pool t d w a.config_key k g')
      → Holds (pool t d w key k m) (pool t d w key k g')
  from_here a m g' here h = subst (λ x. Holds (pool t d w x k m) (pool t d w x k g')) here h

  typed_here :
      (a : LpAccounts) (m : Amm t)
      → a.config_key ≡ key
      → IsWellTyped (pool t d w key k m)
      → IsWellTyped (pool t d w a.config_key k m)
  typed_here a m here h = subst (λ x. IsWellTyped (pool t d w x k m)) (sym here) h

  mints_here : (a : LpAccounts) → a.config_key ≡ key → HasMints d a.config_key k
  mints_here a here = subst (λ x. HasMints d x k) (sym here) mints

  -- A call other than a withdrawal with introspection.
  plain :
      (g m g' : Amm t) (s : Introspected) (last : Option Instruction) (a : LpAccounts) (c : Call)
      → Kept g last m
      → a.config_key ≡ key
      → a.user ≢ key
      → Trading.Exchanges c
      → IsWellTyped (pool t d w key k m)
      → process t d s a c m ≡ ok g'
      → Holds (pool t d w key k g) (pool t d w key k g') × (g'.configs ≡ m.configs)
  plain g m g' s last a c h here user ex typed e =
      let (step, same) =
        call-Holds t law d free s a c k m g' (ap m.configs here ∙ h.stored) (mints_here a here)
          (λ p. user (p ∙ here)) ex (typed_here a m here typed) e in
      (
        Holds-chain (pool t d w key k g) (pool t d w key k m) (pool t d w key k g') h.held
            (from_here a m g' here step),
        same,
      )

  same_key :
      (a b : LpAccounts) → expected_accounts b ≡ expected_accounts a → b.config_key ≡ a.config_key
  same_key a b e = cc

  -- A withdrawal with introspection, together with the burn that it has found.
  claim :
      (g m g' : Amm t) (sysvar id : Pubkey) (prior : Result ℕ Instruction)
      (last : Option Instruction) (a : LpAccounts) (n : ℕ) (side : OperationSide) (min_x min_y : ℕ)
      → Kept g last m
      → Answers last prior
      → a.config_key ≡ key
      → a.user ≢ key
      → IsU64 n
      → process t d (given w sysvar id prior) a (withdraw_w_introspection n side min_x min_y) m
        ≡ ok g'
      → Holds (pool t d w key k g) (pool t d w key k g') × (g'.configs ≡ m.configs)
  claim g m g' sysvar id prior last a n side min_x min_y h answers here user small e =
      let (ix, is_last, found, (c, sure)) =
        claim_found t d w anchor sysvar id prior a n side min_x min_y m g' last answers e in
      let l = h.latest ix is_last in
      let burn =
        claim-IsBurn t d w anchor sysvar id prior (with_config a c) n ix found l.bytes small sure in
      let (b, call, read) = l.decodes burn.program in
      let (it, accounts) =
        IsBurn-call w anchor sysvar id prior (with_config a c) b n ix call small burn read in
      let o =
        l.burning b n burn.program (read ∙ ap (λ (x : Call). some (b, x)) it)
          (same_key a b accounts ∙ here) in
      let (step, same) =
        claim-Holds t law d free w anchor (given w sysvar id prior) o.context a b n side min_x min_y
          k o.state m g' (ap m.configs here ∙ h.stored) (mints_here a here) (λ p. user (p ∙ here))
          (typed_here a o.state here o.typed) accounts o.burned e in
      (
        Holds-chain (pool t d w key k g) (pool t d w key k o.state) (pool t d w key k g') o.held
            (from_here a o.state g' here step),
        same,
      )

  pub next :
      (g m g' : Amm t) (last : Option Instruction) (sysvar id : Pubkey)
      (prior : Result ℕ Instruction) (a : LpAccounts) (c : Call)
      → Kept g last m
      → Answers last prior
      → a.config_key ≡ key
      → a.user ≢ key
      → Exchanges c
      → IsWellTyped (pool t d w key k m)
      → process t d (given w sysvar id prior) a c m ≡ ok g'
      → Holds (pool t d w key k g) (pool t d w key k g') × (g'.configs ≡ m.configs)
  next g m g' last sysvar id prior a (swap amount side min_out) h answers here user ex typed e =
      plain g m g' (given w sysvar id prior) last a (swap amount side min_out) h here user ex typed
        e
  next g m g' last sysvar id prior a (withdraw dl side min_x min_y) h answers here user ex typed e =
      plain g m g' (given w sysvar id prior) last a (withdraw dl side min_x min_y) h here user ex
        typed e
  next g m g' last sysvar id prior a (burn_lp_tokens dl) h answers here user ex typed e =
      plain g m g' (given w sysvar id prior) last a (burn_lp_tokens dl) h here user ex typed e
  next g m g' last sysvar id prior a (withdraw_w_introspection dl side min_x min_y) h answers here
        user ex typed e =
      claim g m g' sysvar id prior last a dl side min_x min_y h answers here user ex e
  next g m g' last sysvar id prior a (initialize config_bump lp_bump seed fee authority) h answers
        here user ex typed e =
      absurd ex
  next g m g' last sysvar id prior a (deposit x y side min_lp) h answers here user ex typed e =
      absurd ex
  next g m g' last sysvar id prior a (update_config seed fee authority lock) h answers here user ex
        typed e =
      absurd ex
