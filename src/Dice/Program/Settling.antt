-- ===== src/Dice/Program/Settling.antt =====
-- A bet account is settled once (programs/dice_game/src/lib.rs).
use solana_instructions_intr.Prelude.{
  true, ◌≡◌, ◌≢◌, refl, sym, ap, ◌∙◌, arith, Option, none, some, ok, err, require, bytes_eq,
  bytes_eq_self, bytes_eq→eq, >>=-eq-ok, require-eq-ok, Bool-cases, inl, inr,
}
use solana_instructions_intr.Solana.{Pubkey, key_eq, constraint}
use solana_instructions_intr.Dice.Types.{Bet}
use solana_instructions_intr.Dice.Bets
use solana_instructions_intr.Dice.Bets.{SystemOps, Table}
use solana_instructions_intr.Dice.Ed25519.{verify_ed25519_signature}
use solana_instructions_intr.Dice.Entropy.{verify_entropy_commit}
use solana_instructions_intr.Dice.Resolve
use solana_instructions_intr.Dice.Program.{
  World, Context, Call, refund, resolve, resolve_entropy, initialize, place, commit, is_bet_of,
  load_bet, put_bet, Game, process,
}

-- The calls that end a bet.
abbrev pub Settles : Call → Type 0
Settles refund = Unit
Settles (resolve sig) = Unit
Settles resolve_entropy = Unit
Settles (initialize amount) = ⊥
Settles (place bump seed amount roll) = ⊥
Settles (commit entropy) = ⊥

pub load_bet-eq-ok :
    (w : World) (k : Table) (bet_key : Pubkey) (o : Option Bet) {b : Bet}
    → load_bet w k bet_key o ≡ ok b
    → (o ≡ some b) × (is_bet_of w k bet_key b ≡ true)
unfolding load_bet
load_bet-eq-ok w k bet_key none e = cc
load_bet-eq-ok w k bet_key (some c) {b} e =
    let (_, e1, e2) = >>=-eq-ok (require (is_bet_of w k bet_key c) constraint) _ e in
    let same : c ≡ b = cc e2 in
    (ap some same, ap (is_bet_of w k bet_key) (sym same) ∙ require-eq-ok _ _ e1)

pub put_bet_self :
    (bets : Pubkey → Option Bet) (key : Pubkey) (o : Option Bet) → put_bet bets key o key ≡ o
put_bet_self bets key o = rw (bytes_eq_self key) refl

pub put_bet_ne :
    (bets : Pubkey → Option Bet) (key : Pubkey) (o : Option Bet) (j : Pubkey)
    → key ≢ j
    → put_bet bets key o j ≡ bets j
put_bet_ne bets key o j h = elim (Bool-cases (bytes_eq key j)) [
  | inl e ↦ absurd (h (bytes_eq→eq key j e))
  | inr e ↦ rw e refl
]

pub player_of :
    (w : World) (k : Table) (bet_key : Pubkey) (b : Bet)
    → is_bet_of w k bet_key b ≡ true
    → b.player ≡ k.player
player_of w k bet_key b h = ground (arith, bytes_eq→eq b.player k.player)

module _ (t : SystemOps) (w : World) where
  -- A settling call loads a bet and ends by closing its account.
  pub settle-close :
      (x : Context) (k : Table) (bet_key : Pubkey) (c : Call) (g g' : Game t)
      → Settles c
      → process t w x k bet_key c g ≡ ok g'
      → (b : Bet) × (g.bets bet_key ≡ some b)
        × (is_bet_of w k bet_key b ≡ true)
        × (g'.bets ≡ put_bet g.bets bet_key none)
  unfolding process
  settle-close x k bet_key refund g g' s e =
      let (b, e1, k1) = >>=-eq-ok (load_bet w k bet_key (g.bets bet_key)) _ e in
      let (l, e2, k2) = >>=-eq-ok (Bets.refund_bet t k x.slot b g.lamports) _ k1 in
      let (found, held) = load_bet-eq-ok w k bet_key (g.bets bet_key) e1 in (b, found, held, cc k2)
  settle-close x k bet_key (resolve sig) g g' s e =
      let (b, e1, k1) = >>=-eq-ok (load_bet w k bet_key (g.bets bet_key)) _ e in
      let (_, _, k0) =
        >>=-eq-ok (require (key_eq x.instruction_sysvar w.sysvar_id) constraint) _ k1 in
      let (_, e2, k2) =
        >>=-eq-ok (verify_ed25519_signature w.sizes w.ed25519_id x.prior k.house b sig) _ k0 in
      let (l, e3, k3) = >>=-eq-ok (Resolve.resolve_bet t w.sha256 k b sig g.lamports) _ k2 in
      let (found, held) = load_bet-eq-ok w k bet_key (g.bets bet_key) e1 in (b, found, held, cc k3)
  settle-close x k bet_key resolve_entropy g g' s e =
      let (b, e1, k1) = >>=-eq-ok (load_bet w k bet_key (g.bets bet_key)) _ e in
      let (_, _, k0) =
        >>=-eq-ok (require (key_eq x.instruction_sysvar w.sysvar_id) constraint) _ k1 in
      let (entropy, e2, k2) =
        >>=-eq-ok (verify_entropy_commit w.program_id x.prior k bet_key) _ k0 in
      let (l, e3, k3) =
        >>=-eq-ok (Resolve.resolve_from_entropy t w.sha256 k bet_key b entropy g.lamports) _ k2 in
      let (found, held) = load_bet-eq-ok w k bet_key (g.bets bet_key) e1 in (b, found, held, cc k3)
  settle-close x k bet_key (initialize amount) g g' s e = absurd s
  settle-close x k bet_key (place bump seed amount roll) g g' s e = absurd s
  settle-close x k bet_key (commit entropy) g g' s e = absurd s

  vacant_refused :
      (x : Context) (k : Table) (bet_key : Pubkey) (c : Call) (g : Game t)
      → Settles c
      → g.bets bet_key ≡ none
      → process t w x k bet_key c g ≡ err constraint
  unfolding process load_bet
  vacant_refused x k bet_key refund g s h = rw h refl
  vacant_refused x k bet_key (resolve sig) g s h = rw h refl
  vacant_refused x k bet_key resolve_entropy g s h = rw h refl
  vacant_refused x k bet_key (initialize amount) g s h = absurd s
  vacant_refused x k bet_key (place bump seed amount roll) g s h = absurd s
  vacant_refused x k bet_key (commit entropy) g s h = absurd s

  -- A successful refund or resolution closes the account of an open bet and touches no other bet;
  -- after it every refund and resolution of that account is refused, whoever calls it and with
  -- whatever accounts, clock and preceding instruction.
  pub settled_once :
      (x x' : Context) (k k' : Table) (bet_key j : Pubkey) (c c' : Call) (g g' : Game t)
      → Settles c
      → Settles c'
      → bet_key ≢ j
      → process t w x k bet_key c g ≡ ok g'
      → ((b : Bet) × (g.bets bet_key ≡ some b) × (b.player ≡ k.player))
        × (g'.bets j ≡ g.bets j)
        × (process t w x' k' bet_key c' g' ≡ err constraint)
  settled_once x x' k k' bet_key j c c' g g' s s' h e =
      let (b, found, held, closed) = settle-close x k bet_key c g g' s e in
      let none_left : g'.bets bet_key ≡ none =
        ap (λ (f : Pubkey → Option Bet). f bet_key) closed ∙ put_bet_self g.bets bet_key none in
      (
        (b, found, player_of w k bet_key b held),
        ap (λ (f : Pubkey → Option Bet). f j) closed ∙ put_bet_ne g.bets bet_key none j h,
        vacant_refused x' k' bet_key c' g' s' none_left,
      )
