-- ===== src/Amm/Transaction/Runs.antt =====
-- The worth of an LP token over the instructions of a transaction.
use solana_instructions_intr.Amm.Program.Isolation.{process_isolated}
use solana_instructions_intr.Prelude.{
  ℕ, ◌≤◌, ◌≡◌, ◌≢◌, sym, ap, subst, ◌∙◌, arith, Option, some, ok, AreBytes,
}
use solana_instructions_intr.Solana.{Pubkey, Derivation, IsCollisionFree, Instruction}
use solana_instructions_intr.Solana.Token.{TokenOps, IsTokenProgram}
use solana_instructions_intr.Cpmm.Types.{IsWellTyped}
use solana_instructions_intr.Cpmm.Withdraw.Value.{KeepsValue}
use solana_instructions_intr.Amm.Types.{Config}
use solana_instructions_intr.Amm.Accounts.{LpAccounts}
use solana_instructions_intr.Amm.Introspection.{Introspected}
use solana_instructions_intr.Amm.Program.{Call, burn_lp_tokens, Amm, process}
use solana_instructions_intr.Amm.Program.Pools.{HasMints}
use solana_instructions_intr.Amm.Program.Value.{Holds, Holds-chain}
use solana_instructions_intr.Amm.Transaction.{
  Wire, IsAnchor, given, pool, Run, begun, called, nearby, elsewhere,
}
use solana_instructions_intr.Amm.Transaction.Kept.{Burning, Last, Kept, next}

module _ (t : TokenOps) (law : IsTokenProgram t) (d : Derivation) (free : IsCollisionFree d)
    (w : Wire) (anchor : IsAnchor w) (key : Pubkey) (k : Config) (mints : HasMints d key k) where
  -- Two readings of one instruction are the same call.
  rewritten :
      (m g' : Amm t) (s : Introspected) (a b : LpAccounts) (c : Call) (n : ℕ)
      → ◌≡◌ {A = Option (LpAccounts × Call)} (some (a, c)) (some (b, burn_lp_tokens n))
      → process t d s a c m ≡ ok g'
      → process t d s b (burn_lp_tokens n) m ≡ ok g'
  rewritten m g' s a b c n p e =
      let first : a ≡ b = cc p in
      let second : c ≡ burn_lp_tokens n = cc p in
      subst (λ x. process t d s x (burn_lp_tokens n) m ≡ ok g') first
        (subst (λ x. process t d s a x m ≡ ok g') second e)

  called-Last :
      (g m g' : Amm t) (s : Introspected) (last : Option Instruction) (ix : Instruction)
      (a : LpAccounts) (c : Call)
      → Kept t law d free w anchor key k mints g last m
      → AreBytes ix.ix_data
      → w.decode ix ≡ some (a, c)
      → IsWellTyped (pool t d w key k m)
      → process t d s a c m ≡ ok g'
      → (i : Instruction) → some ix ≡ some i
      → Last t law d free w anchor key k mints g i g'
  called-Last g m g' s last ix a c h bytes read typed e i same =
      let it : ix ≡ i = cc same in
      subst (λ x. Last t law d free w anchor key k mints g x g') it
        (record {
          bytes = bytes;
          burning = λ b n _ is_burn at. burning_of b n (sym read ∙ is_burn);
          decodes = λ _. (a, c, read);
        })
    where
      burning_of :
          (b : LpAccounts) (n : ℕ)
          → ◌≡◌ {A = Option (LpAccounts × Call)} (some (a, c)) (some (b, burn_lp_tokens n))
          → Burning t law d free w anchor key k mints g b n g'
      burning_of b n p = record {
        state = m;
        context = s;
        held = h.held;
        typed = typed;
        burned = rewritten m g' s a b c n p e;
      }

  elsewhere-Last :
      (g g' : Amm t) (ix : Instruction)
      → AreBytes ix.ix_data
      → (ix.program_id ≡ w.program_id
          → (a : LpAccounts) × (c : Call) × (w.decode ix ≡ some (a, c)) × (a.config_key ≢ key))
      → (i : Instruction) → some ix ≡ some i
      → Last t law d free w anchor key k mints g i g'
  elsewhere-Last g g' ix bytes other i same =
      let it : ix ≡ i = cc same in
      subst (λ x. Last t law d free w anchor key k mints g x g') it
        (record {
          bytes = bytes;
          burning = λ b n here is_burn at. absurd (not_here b n here is_burn at);
          decodes = λ here. let (a, c, read, _) = other here in (a, c, read);
        })
    where
      not_here :
          (b : LpAccounts) (n : ℕ)
          → ix.program_id ≡ w.program_id
          → w.decode ix ≡ some (b, burn_lp_tokens n)
          → b.config_key ≡ key
          → ⊥
      not_here b n here is_burn at =
          let (a, c, read, apart) = other here in
          let same : ◌≡◌ {A = Option (LpAccounts × Call)} (some (a, c))
              (some (b, burn_lp_tokens n)) =
            sym read ∙ is_burn in
          let first : a ≡ b = cc same in apart (ap (λ (x : LpAccounts). x.config_key) first ∙ at)

  Run-Kept :
      (g : Amm t) {last : Option Instruction} {m : Amm t}
      → g.configs key ≡ some k
      → Run t d w key k g last m
      → Kept t law d free w anchor key k mints g last m
  Run-Kept g found begun = record {
    held = (omega arith, omega arith);
    stored = found;
    latest = λ ix p. cc p;
  }
  Run-Kept g found
        (called {last} {m} {g'} ix sysvar id prior a c h bytes read answers here user ex typed e) =
      let before = Run-Kept g found h in
      let (worth, same) =
        next t law d free w anchor key k mints g m g' last sysvar id prior a c before answers here
          user ex typed e in
      record {
        held = worth;
        stored = ap (λ (f : Pubkey → Option Config). f key) same ∙ before.stored;
        latest = called-Last g m g' (given w sysvar id prior) last ix a c before bytes read typed e;
      }
  Run-Kept g found (nearby {last} {m} {g'} ix s a c h bytes read apart lps user own e) =
      let before = Run-Kept g found h in
      let (same, config) = process_isolated t law d free s a key k apart user own lps c m g' e in
      record {
        held = subst (λ p. Holds (pool t d w key k g) p) (sym same) before.held;
        stored = config ∙ before.stored;
        latest = elsewhere-Last g g' ix bytes (λ _. (a, c, read, apart));
      }
  Run-Kept g found (elsewhere {last} {m} {g'} ix h bytes other config worth) =
      let before = Run-Kept g found h in
      record {
        held =
            Holds-chain (pool t d w key k g) (pool t d w key k m) (pool t d w key k g') before.held
              worth;
        stored = config ∙ before.stored;
        latest = elsewhere-Last g g' ix bytes (λ p. absurd (other p));
      }

  -- For a token program with its law, addresses that do not collide, Anchor's reading of
  -- instructions and a pool whose config names three different mints, take a run of a transaction's
  -- instructions of three kinds. First, in any order, successful swaps, withdrawals, burns and
  -- withdrawals with introspection of the pool, each by a user other than the pool itself, from a pool
  -- of u64 amounts, with a u64 amount in swaps and in withdrawals with introspection, and with the
  -- sysvar answering the instruction right before or nothing. Second, successful calls of the program
  -- of any kind with another config account and another LP mint, by users that are neither of the two
  -- config accounts. Third, instructions of other programs, of which it is assumed that they leave the
  -- pool's config as it is, do not raise the supply of its LP tokens and do not lower their worth. No
  -- deposit, `initialize` or `update_config` of this pool is in the run. Then over the whole run the worth of an LP token, the product of the reserves by the
  -- square of the LP supply (compared without division), does not fall, the LP supply does not rise
  -- and the stored config is the same.
  pub Run-KeepsValue :
      (g : Amm t) {last : Option Instruction} {m : Amm t}
      → g.configs key ≡ some k
      → Run t d w key k g last m
      → KeepsValue (pool t d w key k g) (pool t d w key k m)
        × ((pool t d w key k m).lp_supply ≤ (pool t d w key k g).lp_supply)
        × (m.configs key ≡ some k)
  Run-KeepsValue g found h =
      let it = Run-Kept g found h in let (value, fewer) = it.held in (value, fewer, it.stored)
