-- ===== src/Dice/Program/Signed.antt =====
-- A bet resolved by a signature of the house, as a whole call (programs/dice_game/src/lib.rs).
use solana_instructions_intr.Prelude.{
  ℕ, true, ◌≡◌, sym, ap, ◌∙◌, List, Option, none, some, Result, ok, require, IsU64, >>=-eq-ok,
  require-eq-ok,
}
use solana_instructions_intr.Solana.{Pubkey, Instruction, key_eq, constraint}
use solana_instructions_intr.Dice.Types.{Bet, to_slice}
use solana_instructions_intr.Dice.Bets.{SystemOps, Table}
use solana_instructions_intr.Dice.Ed25519.{IsDocumented, verify_ed25519_signature}
use solana_instructions_intr.Dice.Ed25519.Signed.{verify-IsSigned}
use solana_instructions_intr.Dice.Ed25519.Precompile.{IsOneSignature, deserialize-IsOneSignature}
use solana_instructions_intr.Dice.Resolve.{resolve_bet}
use solana_instructions_intr.Dice.Resolve.Payout.{draw, bet_outcome, resolve_bet-bet_outcome}
use solana_instructions_intr.Dice.Program.{
  World, Context, resolve, is_bet_of, load_bet, Game, close, process,
}

-- What the signature program documents: an instruction of it with one signature, if it `ran`, has
-- verified that the key `signed` the message.
pub record IsVerifying (ed25519_id : Pubkey) (ran : Instruction → Type 0)
    (signed : Pubkey → List ℕ → List ℕ → Type 0) : Type 0 where
  pub verified :
      (ix : Instruction) (key sig message : List ℕ)
      → ran ix
      → ix.program_id ≡ ed25519_id
      → IsOneSignature ix.ix_data key sig message
      → signed key message sig

module _ (t : SystemOps) (w : World) (signed : Pubkey → List ℕ → List ℕ → Type 0) where
  -- The house signed the message of the open bet, the lamports are those of the draw from the
  -- signature, and the bet is closed.
  pub record Resolved (k : Table) (bet_key : Pubkey) (sig : List ℕ) (g g' : Game t) : Type 0 where
    pub bet : Bet
    pub lamports : t.Lamports
    pub found : g.bets bet_key ≡ some bet
    pub accounts : is_bet_of w k bet_key bet ≡ true
    pub signature : signed k.house (to_slice bet) sig
    pub drawn : bet_outcome t k bet (draw (w.sha256 sig)) g.lamports ≡ ok lamports
    pub closed : g' ≡ close t w k bet_key lamports g

  loaded :
      (k : Table) (bet_key : Pubkey) (o : Option Bet) (b : Bet)
      → load_bet w k bet_key o ≡ ok b
      → (o ≡ some b) × (is_bet_of w k bet_key b ≡ true)
  unfolding load_bet
  loaded k bet_key none b e = cc
  loaded k bet_key (some c) b e =
      let (_, met, kept) = >>=-eq-ok (require (is_bet_of w k bet_key c) constraint) _ e in
      let it : c ≡ b = cc kept in
      (
        cc it,
        ap (is_bet_of w k bet_key) (sym it)
            ∙ require-eq-ok (is_bet_of w k bet_key c) constraint met,
      )

  accepted :
      (prior : Result ℕ Instruction) (house : Pubkey) (b : Bet) (sig : List ℕ)
      (ran : Instruction → Type 0)
      → IsDocumented w.sizes
      → IsVerifying w.ed25519_id ran signed
      → ((ix : Instruction) → prior ≡ ok ix → ran ix)
      → verify_ed25519_signature w.sizes w.ed25519_id prior house b sig ≡ ok tt
      → signed house (to_slice b) sig
  accepted prior house b sig ran d law runs e =
      let s = verify-IsSigned w.sizes w.ed25519_id prior house b sig e in
      let it =
        law.verified s.ix s.found.public_key s.found.signature s.found.message
          (runs s.ix s.prior_of) s.program
          (deserialize-IsOneSignature w.sizes s.ix.ix_data s.found d s.parsed) in
      rw (s.key, s.signature, s.message) at it

  -- With the sizes that the crate documents, a signature program that verifies what it documents and
  -- a preceding instruction that ran, and an open bet with a stake of a u64: a successful resolution
  -- shows that the house signed the message of this very bet with this signature, and settles the bet
  -- just as the draw from the hash of the signature says; then the account of the bet is closed.
  pub resolve-Resolved :
      (x : Context) (k : Table) (bet_key : Pubkey) (sig : List ℕ) (g g' : Game t)
      (ran : Instruction → Type 0)
      → IsDocumented w.sizes
      → IsVerifying w.ed25519_id ran signed
      → ((ix : Instruction) → x.prior ≡ ok ix → ran ix)
      → ((b : Bet) → g.bets bet_key ≡ some b → IsU64 b.amount)
      → process t w x k bet_key (resolve sig) g ≡ ok g'
      → Resolved k bet_key sig g g'
  unfolding process
  resolve-Resolved x k bet_key sig g g' ran d law runs small e =
      let (b, e0, k0) = >>=-eq-ok (load_bet w k bet_key (g.bets bet_key)) _ e in
      let (_, e1, k1) =
        >>=-eq-ok (require (key_eq x.instruction_sysvar w.sysvar_id) constraint) _ k0 in
      let (_, e2, k2) =
        >>=-eq-ok (verify_ed25519_signature w.sizes w.ed25519_id x.prior k.house b sig) _ k1 in
      let (l, e3, k3) = >>=-eq-ok (resolve_bet t w.sha256 k b sig g.lamports) _ k2 in
      let (found, held) = loaded k bet_key (g.bets bet_key) b e0 in
      record {
        bet = b;
        lamports = l;
        found = found;
        accounts = held;
        signature = accepted x.prior k.house b sig ran d law runs e2;
        drawn = sym (resolve_bet-bet_outcome t w.sha256 k b sig g.lamports (small b found)).2 ∙ e3;
        closed = cc k3;
      }
