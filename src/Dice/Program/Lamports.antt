-- ===== src/Dice/Program/Lamports.antt =====
-- Which transfers an entry point of programs/dice_game/src/lib.rs makes.
use solana_instructions_intr.Prelude.{
  ℕ, ◌+◌, ◌≡◌, ◌≢◌, refl, sym, ap, ◌∙◌, arith, List, [], ok, require, ok_or, ltb, checked_sub,
  >>=-eq-ok, map_err-eq-ok, Bool-cases, inl, inr, ◌&&◌,
}
use solana_instructions_intr.Solana.{Pubkey, key_eq, constraint, custom, program_error}
use solana_instructions_intr.Dice.Types.{Bet, Rolled, called, math_error, timeout_not_reached}
use solana_instructions_intr.Dice.Bets
use solana_instructions_intr.Dice.Bets.{
  SystemOps, IsSystemProgram, Table, vault_signer, create_bet, deposit,
}
use solana_instructions_intr.Dice.Ed25519.{verify_ed25519_signature}
use solana_instructions_intr.Dice.Entropy.{verify_entropy_commit, commit_entropy}
use solana_instructions_intr.Dice.Resolve
use solana_instructions_intr.Dice.Resolve.{drawn_roll, win_payout, pay_win, settle_bet}
use solana_instructions_intr.Dice.Program.{
  World, Context, Call, refund, resolve, resolve_entropy, initialize, place, commit, is_vault,
  bet_seeds, is_vacant, load_bet, Game, close, process,
}

-- The accounts of a table and of the bet are four different ones.
pub record AreApart (k : Table) (bet_key : Pubkey) : Type 0 where
  pub player_vault : k.player ≢ k.vault
  pub house_vault : k.house ≢ k.vault
  pub house_player : k.house ≢ k.player
  pub bet_player : bet_key ≢ k.player
  pub bet_house : bet_key ≢ k.house
  pub bet_vault : bet_key ≢ k.vault

-- An account that is none of the four.
pub record IsOther (k : Table) (bet_key j : Pubkey) : Type 0 where
  pub player : j ≢ k.player
  pub house : j ≢ k.house
  pub vault : j ≢ k.vault
  pub bet : j ≢ bet_key

module _ (t : SystemOps) where
  -- The ledger is unchanged, or a transfer was made from the house or the player to the vault, or
  -- from the vault to the player, or the account of the bet was created or closed, or several of
  -- these in sequence.
  pub data Moves (k : Table) (bet_key : Pubkey) : t.Lamports → t.Lamports → Type 0 where
    still : {l l' : t.Lamports} → l' ≡ l → Moves k bet_key l l'
    funded :
        {l l' : t.Lamports} (n : ℕ)
        → t.transfer [] k.house k.vault n l ≡ ok l'
        → Moves k bet_key l l'
    staked :
        {l l' : t.Lamports} (n : ℕ)
        → t.transfer [] k.player k.vault n l ≡ ok l'
        → Moves k bet_key l l'
    paid :
        {l l' : t.Lamports} (n : ℕ)
        → t.transfer (vault_signer k) k.vault k.player n l ≡ ok l'
        → Moves k bet_key l l'
    opened :
        {l l' : t.Lamports} → t.create_account k.player bet_key l ≡ ok l' → Moves k bet_key l l'
    closed : {l l' : t.Lamports} → l' ≡ t.close_account bet_key k.player l → Moves k bet_key l l'
    both : {l m l' : t.Lamports} → Moves k bet_key l m → Moves k bet_key m l' → Moves k bet_key l l'

  refund-Moves :
      (k : Table) (bet_key : Pubkey) (slot : ℕ) (b : Bet) (l l' : t.Lamports)
      → Bets.refund_bet t k slot b l ≡ ok l'
      → Moves k bet_key l l'
  unfolding Bets.refund_bet
  refund-Moves k bet_key slot b l l' e =
      let (n, e1, k1) = >>=-eq-ok (ok_or (checked_sub slot b.slot) (custom math_error)) _ e in
      let (_, e2, k2) = >>=-eq-ok (require (ltb 1000 n) (custom timeout_not_reached)) _ k1 in
      paid b.amount (map_err-eq-ok program_error _ k2)

  ok_inj : (l l' : t.Lamports) → ◌≡◌ {A = Rolled t.Lamports} (ok l) (ok l') → l ≡ l'
  ok_inj l l' e = cc

  settle-Moves :
      (k : Table) (bet_key : Pubkey) (b : Bet) (hash : List ℕ) (l l' : t.Lamports)
      → settle_bet t k b hash l ≡ ok l'
      → Moves k bet_key l l'
  unfolding settle_bet pay_win
  settle-Moves k bet_key b hash l l' e =
      let (roll, e1, k1) = >>=-eq-ok (drawn_roll hash) _ e in
      elim (Bool-cases (ltb roll b.roll)) [
        | inl won ↦
            let (n, e2, k2) = >>=-eq-ok (win_payout b) _ (rw won at k1) in
            paid n (map_err-eq-ok program_error _ k2)
        | inr lost ↦ still (sym (ok_inj l l' (rw lost at k1)))
      ]

  module _ (w : World) where
    closing :
        (k : Table) (bet_key : Pubkey) (l : t.Lamports) (g g' : Game t)
        → ◌≡◌ {A = Rolled (Game t)} (ok (close t w k bet_key l g)) (ok g')
        → g'.lamports ≡ t.close_account bet_key k.player l
    closing k bet_key l g g' e =
        let same : close t w k bet_key l g ≡ g' = cc e in ap (λ (h : Game t). h.lamports) (sym same)

    pub process-Moves :
        (x : Context) (k : Table) (bet_key : Pubkey) (c : Call) (g g' : Game t)
        → process t w x k bet_key c g ≡ ok g'
        → Moves k bet_key g.lamports g'.lamports
    unfolding process Bets.init Bets.place_bet deposit Resolve.resolve_bet
        Resolve.resolve_from_entropy
    process-Moves x k bet_key (initialize amount) g g' e =
        let (_, _, k1) = >>=-eq-ok (require (is_vault w k) constraint) _ e in
        let (l, e2, k2) =
          >>=-eq-ok (called (t.transfer [] k.house k.vault amount g.lamports)) _ k1 in
        let same : l ≡ g'.lamports = cc k2 in
        funded amount (map_err-eq-ok program_error _ e2 ∙ ap ok same)
    process-Moves x k bet_key (place bump seed amount roll) g g' e =
        let (_, _, k1) = >>=-eq-ok (require (is_vault w k) constraint) _ e in
        let (_, _, k2) =
          >>=-eq-ok
            (require
              (key_eq bet_key (w.derivation.find_program_address (bet_seeds k seed))
                && is_vacant (g.bets bet_key))
              constraint)
            _ k1 in
        let (l0, e0, k0) = >>=-eq-ok (called (t.create_account k.player bet_key g.lamports)) _ k2 in
        let (made, e3, k3) = >>=-eq-ok (Bets.place_bet t k x.slot bump seed amount roll l0) _ k0 in
        let (b, e4, k4) = >>=-eq-ok (create_bet k x.slot bump seed roll amount) _ e3 in
        let (l, e5, k5) = >>=-eq-ok (called (t.transfer [] k.player k.vault amount l0)) _ k4 in
        let same : l ≡ g'.lamports = cc (k3, k5) in
        both (opened (map_err-eq-ok program_error _ e0))
          (staked amount (map_err-eq-ok program_error _ e5 ∙ ap ok same))
    process-Moves x k bet_key refund g g' e =
        let (b, _, k1) = >>=-eq-ok (load_bet w k bet_key (g.bets bet_key)) _ e in
        let (l, e2, k2) = >>=-eq-ok (Bets.refund_bet t k x.slot b g.lamports) _ k1 in
        both (refund-Moves k bet_key x.slot b g.lamports l e2)
          (closed (closing k bet_key l g g' k2))
    process-Moves x k bet_key (commit entropy) g g' e =
        let (b, _, k1) = >>=-eq-ok (load_bet w k bet_key (g.bets bet_key)) _ e in
        let (_, _, k2) = >>=-eq-ok (commit_entropy entropy) _ k1 in still (cc k2)
    process-Moves x k bet_key (resolve sig) g g' e =
        let (b, _, k1) = >>=-eq-ok (load_bet w k bet_key (g.bets bet_key)) _ e in
        let (_, _, k0) =
          >>=-eq-ok (require (key_eq x.instruction_sysvar w.sysvar_id) constraint) _ k1 in
        let (_, _, k2) =
          >>=-eq-ok (verify_ed25519_signature w.sizes w.ed25519_id x.prior k.house b sig) _ k0 in
        let (l, e3, k3) = >>=-eq-ok (Resolve.resolve_bet t w.sha256 k b sig g.lamports) _ k2 in
        both (settle-Moves k bet_key b (w.sha256 sig) g.lamports l e3)
          (closed (closing k bet_key l g g' k3))
    process-Moves x k bet_key resolve_entropy g g' e =
        let (b, _, k1) = >>=-eq-ok (load_bet w k bet_key (g.bets bet_key)) _ e in
        let (_, _, k0) =
          >>=-eq-ok (require (key_eq x.instruction_sysvar w.sysvar_id) constraint) _ k1 in
        let (entropy, _, k2) =
          >>=-eq-ok (verify_entropy_commit w.program_id x.prior k bet_key) _ k0 in
        let (l, e3, k3) =
          >>=-eq-ok (Resolve.resolve_from_entropy t w.sha256 k bet_key b entropy g.lamports) _ k2 in
        both (settle-Moves k bet_key b _ g.lamports l e3) (closed (closing k bet_key l g g' k3))

  open t use {balance}

  pub total : Table → Pubkey → t.Lamports → ℕ
  total k bet_key l = balance l k.player + balance l k.house + balance l k.vault + balance l bet_key

  module _ (law : IsSystemProgram t) where
    Moves-total :
        (k : Table) (bet_key j : Pubkey) {l l' : t.Lamports}
        → AreApart k bet_key
        → IsOther k bet_key j
        → Moves k bet_key l l'
        → (total k bet_key l' ≡ total k bet_key l) × (balance l' j ≡ balance l j)
    unfolding total
    Moves-total k bet_key j d o (still e) = (rw e refl, ap (λ (m : t.Lamports). balance m j) e)
    Moves-total k bet_key j d o (funded {l} {l'} n e) =
        let (enough, less, more, others) = law.moves [] k.house k.vault n l l' d.house_vault e in
        (
          omega (
            arith,
            others k.player (λ p. d.house_player (sym p)) d.player_vault,
            others bet_key d.bet_house d.bet_vault,
          ),
          others j o.house o.vault,
        )
    Moves-total k bet_key j d o (staked {l} {l'} n e) =
        let (enough, less, more, others) = law.moves [] k.player k.vault n l l' d.player_vault e in
        (
          omega (
            arith,
            others k.house d.house_player d.house_vault,
            others bet_key d.bet_player d.bet_vault,
          ),
          others j o.player o.vault,
        )
    Moves-total k bet_key j d o (paid {l} {l'} n e) =
        let (enough, less, more, others) =
          law.moves (vault_signer k) k.vault k.player n l l' (λ p. d.player_vault (sym p)) e in
        (
          omega (
            arith,
            others k.house d.house_vault d.house_player,
            others bet_key d.bet_vault d.bet_player,
          ),
          others j o.vault o.player,
        )
    Moves-total k bet_key j d o (opened {l} {l'} e) =
        let (n, (enough, less, more, others)) =
          law.creates k.player bet_key l l' (λ p. d.bet_player (sym p)) e in
        (
          omega (
            arith,
            others k.house d.house_player (λ p. d.bet_house (sym p)),
            others k.vault (λ p. d.player_vault (sym p)) (λ p. d.bet_vault (sym p)),
          ),
          others j o.player o.bet,
        )
    Moves-total k bet_key j d o (closed {l} {l'} e) =
        let (enough, less, more, others) = law.closes bet_key k.player l d.bet_player in
        (
          rw e (
              omega (
                arith,
                others k.house (λ p. d.bet_house (sym p)) d.house_player,
                others k.vault (λ p. d.bet_vault (sym p)) (λ p. d.player_vault (sym p)),
              )),
          ap (λ (m : t.Lamports). balance m j) e ∙ others j o.bet o.player,
        )
    Moves-total k bet_key j d o (both {l} {m} {l'} u v) =
        let (sum, same) = Moves-total k bet_key j d o u in
        let (sum', same') = Moves-total k bet_key j d o v in (sum' ∙ sum, same' ∙ same)

    -- For a system program that transfers, creates and closes as documented and four different
    -- accounts, every successful call keeps the lamports of player, house, vault and bet together,
    -- and touches the balance of no other account.
    pub process_conserves :
        (w : World) (x : Context) (k : Table) (bet_key j : Pubkey) (c : Call) (g g' : Game t)
        → AreApart k bet_key
        → IsOther k bet_key j
        → process t w x k bet_key c g ≡ ok g'
        → (total k bet_key g'.lamports ≡ total k bet_key g.lamports)
          × (balance g'.lamports j ≡ balance g.lamports j)
    process_conserves w x k bet_key j c g g' d o e =
        Moves-total k bet_key j d o (process-Moves w x k bet_key c g g' e)
