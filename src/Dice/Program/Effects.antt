-- ===== src/Dice/Program/Effects.antt =====
-- What a call of programs/dice_game/src/lib.rs does to the stored bets.
use solana_instructions_intr.Prelude.{
  ℕ, Bool, true, ◌≡◌, refl, sym, ap, subst, ◌∙◌, arith, List, Option, none, some, ok, require,
  bytes_eq, bytes_eq→eq, >>=-eq-ok, require-eq-ok, Bool-cases, inl, inr, ◌&&◌,
}
use solana_instructions_intr.Solana.{Pubkey, key_eq, constraint}
use solana_instructions_intr.Dice.Types
use solana_instructions_intr.Dice.Types.{Bet}
use solana_instructions_intr.Dice.Bets
use solana_instructions_intr.Dice.Bets.{SystemOps, Table, create_bet, deposit}
use solana_instructions_intr.Dice.Entropy.{commit_entropy}
use solana_instructions_intr.Dice.Program.{
  World, Context, Call, refund, resolve, resolve_entropy, initialize, place, commit, is_vault,
  bet_seeds, is_vacant, load_bet, put_bet, Game, process,
}
use solana_instructions_intr.Dice.Program.Settling.{settle-close}

-- Nothing, or one bet is closed, or one is created by the call that places it.
pub data Effect (w : World) (x : Context) (k : Table) (bet_key : Pubkey) (c : Call)
    (bets bets' : Pubkey → Option Bet) : Type 0 where
  kept : bets' ≡ bets → Effect w x k bet_key c bets bets'
  closed : bets' ≡ put_bet bets bet_key none → Effect w x k bet_key c bets bets'
  created :
      (bump seed amount roll : ℕ) (b : Bet)
      → is_vault w k ≡ true
      → c ≡ place bump seed amount roll
      → create_bet k x.slot bump seed roll amount ≡ ok b
      → key_eq bet_key (w.derivation.find_program_address (bet_seeds k seed)) ≡ true
      → bets' ≡ put_bet bets bet_key (some b)
      → Effect w x k bet_key c bets bets'

first_true : (a b : Bool) → (a && b) ≡ true → a ≡ true
first_true a b h = ground arith

-- A property of every open bet is kept, if the bets that are created have it.
module _ (w : World) (x : Context) (k : Table) (bet_key : Pubkey) (c : Call)
    (bets bets' : Pubkey → Option Bet) where
  pub Effect-All :
      (P : Pubkey → Bet → Type 0)
      → ((bump seed amount roll : ℕ) (b : Bet)
          → is_vault w k ≡ true
          → c ≡ place bump seed amount roll
          → create_bet k x.slot bump seed roll amount ≡ ok b
          → key_eq bet_key (w.derivation.find_program_address (bet_seeds k seed)) ≡ true
          → P bet_key b)
      → Effect w x k bet_key c bets bets'
      → ((j : Pubkey) (b : Bet) → bets j ≡ some b → P j b)
      → (j : Pubkey) (b : Bet) → bets' j ≡ some b
      → P j b
  Effect-All P new (kept e) h j b f = h j b (ap (λ (o : Pubkey → Option Bet). o j) (sym e) ∙ f)
  Effect-All P new (closed e) h j b f =
      let found : put_bet bets bet_key none j ≡ some b =
        ap (λ (o : Pubkey → Option Bet). o j) (sym e) ∙ f in
      elim (Bool-cases (bytes_eq bet_key j)) [
        | inl same ↦ cc (rw same at found)
        | inr other ↦ h j b (rw other at found)
      ]
  Effect-All P new (created bump seed amount roll made vault call e at stored) h j b f =
      let found : put_bet bets bet_key (some made) j ≡ some b =
        ap (λ (o : Pubkey → Option Bet). o j) (sym stored) ∙ f in
      elim (Bool-cases (bytes_eq bet_key j)) [
        | inl same ↦
            let it : made ≡ b = cc (rw same at found) in
            subst (λ i. P i b) (bytes_eq→eq bet_key j same)
              (subst (λ o. P bet_key o) it (new bump seed amount roll made vault call e at))
        | inr other ↦ h j b (rw other at found)
      ]

module _ (t : SystemOps) (w : World) where
  initialize-bets :
      (x : Context) (k : Table) (bet_key : Pubkey) (amount : ℕ) (g g' : Game t)
      → process t w x k bet_key (initialize amount) g ≡ ok g'
      → g'.bets ≡ g.bets
  unfolding process
  initialize-bets x k bet_key amount g g' e =
      let (_, _, k1) = >>=-eq-ok (require (is_vault w k) constraint) _ e in
      let (l, _, k2) = >>=-eq-ok (Bets.init t k amount g.lamports) _ k1 in cc k2

  commit-bets :
      (x : Context) (k : Table) (bet_key : Pubkey) (entropy : List ℕ) (g g' : Game t)
      → process t w x k bet_key (commit entropy) g ≡ ok g'
      → g'.bets ≡ g.bets
  unfolding process
  commit-bets x k bet_key entropy g g' e =
      let (b, _, k1) = >>=-eq-ok (load_bet w k bet_key (g.bets bet_key)) _ e in
      let (_, _, k2) = >>=-eq-ok (commit_entropy entropy) _ k1 in cc k2

  place-Effect :
      (x : Context) (k : Table) (bet_key : Pubkey) (bump seed amount roll : ℕ) (g g' : Game t)
      → process t w x k bet_key (place bump seed amount roll) g ≡ ok g'
      → Effect w x k bet_key (place bump seed amount roll) g.bets g'.bets
  unfolding process Bets.place_bet
  place-Effect x k bet_key bump seed amount roll g g' e =
      let address = key_eq bet_key (w.derivation.find_program_address (bet_seeds k seed)) in
      let (_, e1, k1) = >>=-eq-ok (require (is_vault w k) constraint) _ e in
      let (_, e2, k2) =
        >>=-eq-ok (require (address && is_vacant (g.bets bet_key)) constraint) _ k1 in
      let (l0, _, k0) =
        >>=-eq-ok (Types.called (t.create_account k.player bet_key g.lamports)) _ k2 in
      let (made, e3, k3) = >>=-eq-ok (Bets.place_bet t k x.slot bump seed amount roll l0) _ k0 in
      let (b, e4, k4) = >>=-eq-ok (create_bet k x.slot bump seed roll amount) _ e3 in
      let (l, e5, k5) = >>=-eq-ok (deposit t k amount l0) _ k4 in
      let same : b ≡ made.0 = cc k5 in
      let at = first_true address (is_vacant (g.bets bet_key)) (require-eq-ok _ _ e2) in
      created bump seed amount roll b (require-eq-ok _ _ e1) refl e4 at (cc (k3, same))

  pub process-Effect :
      (x : Context) (k : Table) (bet_key : Pubkey) (c : Call) (g g' : Game t)
      → process t w x k bet_key c g ≡ ok g'
      → Effect w x k bet_key c g.bets g'.bets
  process-Effect x k bet_key (initialize amount) g g' e =
      kept (initialize-bets x k bet_key amount g g' e)
  process-Effect x k bet_key (place bump seed amount roll) g g' e =
      place-Effect x k bet_key bump seed amount roll g g' e
  process-Effect x k bet_key refund g g' e =
      closed (settle-close t w x k bet_key refund g g' tt e).3
  process-Effect x k bet_key (commit entropy) g g' e = kept (commit-bets x k bet_key entropy g g' e)
  process-Effect x k bet_key (resolve sig) g g' e =
      closed (settle-close t w x k bet_key (resolve sig) g g' tt e).3
  process-Effect x k bet_key resolve_entropy g g' e =
      closed (settle-close t w x k bet_key resolve_entropy g g' tt e).3
