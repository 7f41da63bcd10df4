-- ===== src/Dice/Program/Refunds.antt =====
-- A placed bet can be taken back after the timeout (programs/dice_game/src/lib.rs).
use solana_instructions_intr.Prelude.{
  ℕ, Bool, true, ◌+◌, ◌-◌, ◌≤◌, ◌<◌, ◌≡◌, ◌↔◌, refl, sym, ap, ◌∙◌, arith, [], ◌∷◌, ◌++◌, Option,
  none, some, ok, ◌>>=◌, require, ltb, leb, bytes_eq_self, bytes_eq→eq, >>=-eq-ok, map_err-eq-ok,
  require-eq-ok, ◌&&◌,
}
use solana_instructions_intr.Solana.{Pubkey, key_eq, constraint, program_error}
use solana_instructions_intr.Dice.Types.{Bet, Rolled, called}
use solana_instructions_intr.Dice.Bets
use solana_instructions_intr.Dice.Bets.{
  SystemOps, IsSystemProgram, Table, vault_signer, create_bet, deposit,
}
use solana_instructions_intr.Dice.Bets.Outcomes.{create_bet-Placed}
use solana_instructions_intr.Dice.Program.{
  World, Context, refund, place, is_vault, bet_seeds, is_vacant, is_bet_of, load_bet, put_bet, Game,
  close, process,
}
use solana_instructions_intr.Dice.Program.Lamports.{AreApart}
use solana_instructions_intr.Dice.Program.Settling.{put_bet_self}

module _ (t : SystemOps) (w : World) (law : IsSystemProgram t) where
  open t use {balance}

  -- What a refund of the bet does, `slot` slots into the chain.
  refund_after :
      (x : Context) (k : Table) (bet_key : Pubkey) (b : Bet) (g : Game t)
      → g.bets bet_key ≡ some b
      → is_bet_of w k bet_key b ≡ true
      → b.slot + 1000 < x.slot
      → process t w x k bet_key refund g ≡ (do
        l ← called (t.transfer (vault_signer k) k.vault k.player b.amount g.lamports)
        ok (close t w k bet_key l g))
  unfolding process load_bet
  refund_after x k bet_key b g found held late =
      let early : leb b.slot x.slot ≡ true = ground arith in
      let waited : ltb 1000 (x.slot - b.slot) ≡ true = ground arith in
      let outcome : Bets.refund_bet t k x.slot b g.lamports
          ≡ called (t.transfer (vault_signer k) k.vault k.player b.amount g.lamports) =
        unfold Bets.refund_bet in rw (early, waited) refl in
      rw (found, held, outcome) refl

  -- The bet that a successful placement left, ready for its refund.
  record Open (x : Context) (k : Table) (bet_key : Pubkey) (amount : ℕ) (b : Bet) (g : Game t)
      : Type 0 where
    slot : b.slot ≡ x.slot
    stake : b.amount ≡ amount
    found : g.bets bet_key ≡ some b
    held : is_bet_of w k bet_key b ≡ true

  three_true : (a b c : Bool) → a ≡ true → b ≡ true → c ≡ true → (a && b && c) ≡ true
  three_true a b c h i j = ground arith

  and_first : (a b : Bool) → (a && b) ≡ true → a ≡ true
  and_first a b h = ground arith

  created-address :
      (k : Table) (bet_key : Pubkey) (bump seed : ℕ) (b : Bet)
      → (b.seed ≡ seed) × (b.bump ≡ bump)
      → bet_key ≡ w.derivation.create_program_address (bet_seeds k seed ++ ((bump ∷ []) ∷ []))
      → key_eq bet_key
          (w.derivation.create_program_address (bet_seeds k b.seed ++ ((b.bump ∷ []) ∷ [])))
        ≡ true
  created-address k bet_key bump seed b (s, p) at = rw (s, p, ← at) (bytes_eq_self bet_key)

  create_bet-seeds :
      (k : Table) (slot bump seed roll amount : ℕ) (b : Bet)
      → create_bet k slot bump seed roll amount ≡ ok b
      → (b.seed ≡ seed) × (b.bump ≡ bump)
  unfolding create_bet
  create_bet-seeds k slot bump seed roll amount b e = ground arith

  place-Open :
      (x : Context) (k : Table) (bet_key : Pubkey) (bump seed amount roll : ℕ) (g g' : Game t)
      → w.derivation.create_program_address (bet_seeds k seed ++ ((bump ∷ []) ∷ []))
        ≡ w.derivation.find_program_address (bet_seeds k seed)
      → process t w x k bet_key (place bump seed amount roll) g ≡ ok g'
      → (b : Bet) × Open x k bet_key amount b g'
  unfolding process Bets.place_bet
  place-Open x k bet_key bump seed amount roll g g' bumped e =
      let address = key_eq bet_key (w.derivation.find_program_address (bet_seeds k seed)) in
      let (_, e1, k1) = >>=-eq-ok (require (is_vault w k) constraint) _ e in
      let (_, e2, k2) =
        >>=-eq-ok (require (address && is_vacant (g.bets bet_key)) constraint) _ k1 in
      let (l0, _, k0) = >>=-eq-ok (called (t.create_account k.player bet_key g.lamports)) _ k2 in
      let (made, e3, k3) = >>=-eq-ok (Bets.place_bet t k x.slot bump seed amount roll l0) _ k0 in
      let (b, e4, k4) = >>=-eq-ok (create_bet k x.slot bump seed roll amount) _ e3 in
      let (l, e5, k5) = >>=-eq-ok (deposit t k amount l0) _ k4 in
      let p = create_bet-Placed k x.slot bump seed roll amount b e4 in
      let same : b ≡ made.0 = cc k5 in
      let bets : put_bet g.bets bet_key (some b) ≡ g'.bets = cc (k3, same) in
      let at =
        bytes_eq→eq bet_key _
          (and_first address (is_vacant (g.bets bet_key)) (require-eq-ok _ _ e2)) in
      (
        b,
        record {
          slot = p.slot_of;
          stake = p.amount_of;
          found =
              ap (λ (o : Pubkey → Option Bet). o bet_key) (sym bets)
              ∙ put_bet_self g.bets bet_key (some b);
          held =
              three_true (is_vault w k) (key_eq b.player k.player) _ (require-eq-ok _ _ e1)
                (rw p.player (bytes_eq_self k.player))
                (created-address k bet_key bump seed b
                  (create_bet-seeds k x.slot bump seed roll amount b e4) (at ∙ sym bumped));
        },
      )

  abbrev refund_of : Table → Pubkey → Bet → Game t → Rolled (Game t)
  refund_of k bet_key b g = do
    l ← called (t.transfer (vault_signer k) k.vault k.player b.amount g.lamports)
    ok (close t w k bet_key l g)

  refund_paid :
      (y : Context) (k : Table) (bet_key : Pubkey) (b : Bet) (amount : ℕ) (now : Game t)
      → AreApart k bet_key
      → t.signs (vault_signer k) k.vault ≡ true
      → b.amount ≡ amount
      → process t w y k bet_key refund now ≡ refund_of k bet_key b now
      → amount ≤ balance now.lamports k.vault
      → (after : Game t) × (process t w y k bet_key refund now ≡ ok after)
        × (balance after.lamports k.player
            ≡ balance now.lamports k.player + amount + balance now.lamports bet_key)
        × (after.bets bet_key ≡ none)
  refund_paid y k bet_key b amount now apart signed stake r enough =
      let (l, e) =
        law.covers (vault_signer k) k.vault k.player b.amount now.lamports signed
          (omega (arith, stake)) in
      let (_, _, more, others) =
        law.moves (vault_signer k) k.vault k.player b.amount now.lamports l
          (λ p. apart.player_vault (sym p)) e in
      let rent = others bet_key apart.bet_vault apart.bet_player in
      let (_, _, back, _) = law.closes bet_key k.player l apart.bet_player in
      let ran : refund_of k bet_key b now ≡ ok (close t w k bet_key l now) = rw e refl in
      (
        close t w k bet_key l now,
        r ∙ ran,
        omega (arith, more, stake, rent, back),
        put_bet_self now.bets bet_key none,
      )

  refund_covered :
      (y : Context) (k : Table) (bet_key : Pubkey) (b : Bet) (amount : ℕ) (now after : Game t)
      → AreApart k bet_key
      → b.amount ≡ amount
      → process t w y k bet_key refund now ≡ refund_of k bet_key b now
      → process t w y k bet_key refund now ≡ ok after
      → amount ≤ balance now.lamports k.vault
  refund_covered y k bet_key b amount now after apart stake r s =
      let (l, e, _) =
        >>=-eq-ok (called (t.transfer (vault_signer k) k.vault k.player b.amount now.lamports)) _
          (sym r ∙ s) in
      let (covered, _, _, _) =
        law.moves (vault_signer k) k.vault k.player b.amount now.lamports l
          (λ p. apart.player_vault (sym p)) (map_err-eq-ok program_error _ e) in
      omega (arith, covered, stake)

  -- For a system program that transfers, creates and closes as documented, vault seeds that sign for
  -- the vault, a bump that gives the bet's address, and different accounts of player, house, vault
  -- and bet: as long as a placed bet is open, and from 1001 slots after it on, the vault holds the
  -- stake exactly if the refund succeeds, gives the player the stake and the lamports of the bet
  -- account, and closes the bet.
  pub placed_bet_refunds :
      (x y : Context) (k : Table) (bet_key : Pubkey) (bump seed amount roll : ℕ)
      (g placed now : Game t)
      → AreApart k bet_key
      → t.signs (vault_signer k) k.vault ≡ true
      → w.derivation.create_program_address (bet_seeds k seed ++ ((bump ∷ []) ∷ []))
        ≡ w.derivation.find_program_address (bet_seeds k seed)
      → process t w x k bet_key (place bump seed amount roll) g ≡ ok placed
      → now.bets bet_key ≡ placed.bets bet_key
      → x.slot + 1000 < y.slot
      → (amount ≤ balance now.lamports k.vault) ↔ (
          (after : Game t) × (process t w y k bet_key refund now ≡ ok after)
          × (balance after.lamports k.player
              ≡ balance now.lamports k.player + amount + balance now.lamports bet_key)
          × (after.bets bet_key ≡ none))
  placed_bet_refunds x y k bet_key bump seed amount roll g placed now apart signed bumped e kept
        late =
      let (b, o) = place-Open x k bet_key bump seed amount roll g placed bumped e in
      let r = refund_after y k bet_key b now (kept ∙ o.found) o.held (omega (arith, o.slot)) in
      (
        λ enough. refund_paid y k bet_key b amount now apart signed o.stake r enough,
        λ h. refund_covered y k bet_key b amount now h.0 apart o.stake r h.1,
      )
