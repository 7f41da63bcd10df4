-- ===== src/Amm/Transaction/Claims.antt =====
-- The burn that a withdrawal with introspection has found, in
-- programs/amm/src/instructions/withdraw_with_introspection.rs.
use solana_instructions_intr.Prelude.{
  take, ℕ, ◌≡◌, refl, sym, ap, ◌∙◌, List, Option, some, Result, ok, IsU64, AreBytes, >>=-eq-ok,
  map_err, map_err-eq-ok,
}
use solana_instructions_intr.Solana.{Pubkey, Derivation, Instruction, custom}
use solana_instructions_intr.Solana.Token.{TokenOps}
use solana_instructions_intr.Amm.Types.{Config, OperationSide, missing_prior_instruction}
use solana_instructions_intr.Amm.Accounts.{LpAccounts}
use solana_instructions_intr.Amm.Introspection.{Introspected, expected_accounts, confirm_burn}
use solana_instructions_intr.Amm.Introspection.Burn.{IsBurn, confirm_burn-IsBurn}
use solana_instructions_intr.Amm.Introspection.Settlement.{introspected-confirmed}
use solana_instructions_intr.Amm.Program.{
  Call, withdraw_w_introspection, burn_lp_tokens, with_config, Amm, process,
}
use solana_instructions_intr.Amm.Program.Steps.{introspected_step}
use solana_instructions_intr.Amm.Transaction.{
  Wire, IsAnchor, given, Answers, Trace, started, calls, foreign,
}

-- The check needs an answer of the sysvar.
confirm_burn-answered :
    (s : Introspected) (a : LpAccounts) (n : ℕ)
    → confirm_burn s a n ≡ ok tt
    → (ix : Instruction) × (s.prior ≡ ok ix)
unfolding confirm_burn
confirm_burn-answered s a n e =
    let (ix, e1, _) = >>=-eq-ok (map_err (λ _. custom missing_prior_instruction) s.prior) _ e in
    (ix, map_err-eq-ok _ s.prior e1)

-- An instruction that the check takes for a burn is one, with the same accounts.
pub IsBurn-call :
    (w : Wire) (anchor : IsAnchor w) (sysvar id : Pubkey) (prior : Result ℕ Instruction)
    (a b : LpAccounts) (n : ℕ) (ix : Instruction) (c : Call)
    → IsU64 n
    → IsBurn (given w sysvar id prior) a n ix
    → w.decode ix ≡ some (b, c)
    → (c ≡ burn_lp_tokens n) × (expected_accounts b ≡ expected_accounts a)
IsBurn-call w anchor sysvar id prior a b n ix c small burn e =
    let it = anchor.dispatches ix b c n small e burn.call_data in
    let (others, keys) = anchor.in_order ix b n (e ∙ ap (λ (x : Call). some (b, x)) it) in
    (it, ap (take 9) (sym keys ∙ burn.keys))

module _ (t : TokenOps) (d : Derivation) (w : Wire) (anchor : IsAnchor w) where
  -- What a successful withdrawal with introspection has found before it.
  pub claim_found :
      (sysvar id : Pubkey) (prior : Result ℕ Instruction) (a : LpAccounts) (n : ℕ)
      (side : OperationSide) (min_x min_y : ℕ) (m g' : Amm t) (last : Option Instruction)
      → Answers last prior
      → process t d (given w sysvar id prior) a (withdraw_w_introspection n side min_x min_y) m
        ≡ ok g'
      → (ix : Instruction) × (last ≡ some ix)
        × (prior ≡ ok ix)
        × ((k : Config) × (confirm_burn (given w sysvar id prior) (with_config a k) n ≡ ok tt))
  claim_found sysvar id prior a n side min_x min_y m g' last answers e =
      let s = given w sysvar id prior in
      let (k, _, _, (l, _, ran), _) = introspected_step t d s a n side min_x min_y m g' e in
      let sure = introspected-confirmed t s (with_config a k) n side min_x min_y l g'.ledger ran in
      let (ix, found) = confirm_burn-answered s (with_config a k) n sure in
      (ix, answers ix found, found, (k, sure))

  pub claim-IsBurn :
      (sysvar id : Pubkey) (prior : Result ℕ Instruction) (a : LpAccounts) (n : ℕ)
      (ix : Instruction)
      → prior ≡ ok ix
      → AreBytes ix.ix_data
      → IsU64 n
      → confirm_burn (given w sysvar id prior) a n ≡ ok tt
      → IsBurn (given w sysvar id prior) a n ix
  claim-IsBurn sysvar id prior a n ix found bytes small sure =
      (confirm_burn-IsBurn (given w sysvar id prior) a n ix found bytes anchor.eight small).0 sure

  -- A burn of `n` LP tokens with the accounts `keys`, the last instruction before the state `m`.
  pub record JustBurned (g : Amm t) (last : Option Instruction) (keys : List Pubkey) (n : ℕ)
      (m : Amm t) : Type 0 where
    pub ix : Instruction
    pub last_of : last ≡ some ix
    pub before : Option Instruction
    pub state : Amm t
    pub trace : Trace t d w g before state
    pub context : Introspected
    pub burner : LpAccounts
    pub read : w.decode ix ≡ some (burner, burn_lp_tokens n)
    pub same_accounts : expected_accounts burner ≡ keys
    pub burned : process t d context burner (burn_lp_tokens n) state ≡ ok m

  just_burned :
      (g m : Amm t) (last : Option Instruction) (a : LpAccounts) (n : ℕ) (sysvar id : Pubkey)
      (prior : Result ℕ Instruction) (ix0 : Instruction)
      → IsU64 n
      → last ≡ some ix0
      → prior ≡ ok ix0
      → confirm_burn (given w sysvar id prior) a n ≡ ok tt
      → Trace t d w g last m
      → JustBurned g last (expected_accounts a) n m
  just_burned g m last a n sysvar id prior ix0 small is_last found sure started = cc
  just_burned g m last a n sysvar id prior ix0 small is_last found sure
        (calls {last = before} {m = state} ix sysvar' id' prior' b c h bytes e answers run) =
      let same : ix ≡ ix0 = cc is_last in
      let burn = claim-IsBurn sysvar id prior a n ix (rw same found) bytes small sure in
      let (it, accounts) = IsBurn-call w anchor sysvar id prior a b n ix c small burn e in
      record {
        ix = ix;
        last_of = refl;
        before = before;
        state = state;
        trace = h;
        context = given w sysvar' id' prior';
        burner = b;
        read = cc (e, it);
        same_accounts = accounts;
        burned = rw it at run;
      }
  just_burned g m last a n sysvar id prior ix0 small is_last found sure (foreign ix h bytes apart) =
      let same : ix ≡ ix0 = cc is_last in
      let burn = claim-IsBurn sysvar id prior a n ix (rw same found) bytes small sure in
      absurd (apart burn.program)

  -- With Anchor's reading of instructions, in a transaction of successful calls of the program of any
  -- kind, in any pools, and of instructions of other programs that may leave any state, where the
  -- sysvar answers the instruction right before the present one or nothing: a successful withdrawal
  -- with introspection of a u64 amount comes right after a call of `burn_lp_tokens` of the same
  -- amount with the same user, mints, config and LP account, which succeeded and left the state that
  -- the withdrawal found.
  pub claim-JustBurned :
      (g m g' : Amm t) (last : Option Instruction) (sysvar id : Pubkey)
      (prior : Result ℕ Instruction) (a : LpAccounts) (n : ℕ) (side : OperationSide)
      (min_x min_y : ℕ)
      → Trace t d w g last m
      → Answers last prior
      → IsU64 n
      → process t d (given w sysvar id prior) a (withdraw_w_introspection n side min_x min_y) m
        ≡ ok g'
      → JustBurned g last (expected_accounts a) n m
  claim-JustBurned g m g' last sysvar id prior a n side min_x min_y h answers small e =
      let (ix, is_last, found, (c, sure)) =
        claim_found sysvar id prior a n side min_x min_y m g' last answers e in
      just_burned g m last (with_config a c) n sysvar id prior ix small is_last found sure h
