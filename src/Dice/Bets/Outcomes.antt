-- ===== src/Dice/Bets/Outcomes.antt =====
-- What placing a bet guarantees, and when it can be taken back.
use solana_instructions_intr.Prelude.{
  ℕ, ◌+◌, ◌≤◌, ◌≡◌, ap, ◌∙◌, arith, [], ok, err, Result, >>=-eq-ok, map_err-eq-ok, leb, ltb,
  if◌then◌else◌,
}
use solana_instructions_intr.Solana.{Failure, custom, program_error}
use solana_instructions_intr.Dice.Types.{
  Bet, DiceError, called, min_bet_lamports, min_roll, max_roll, math_error, timeout_not_reached,
}
use solana_instructions_intr.Dice.Bets.{
  SystemOps, Table, vault_signer, create_bet, deposit, place_bet, refund_bet,
}

-- The bet that the guards let through.
pub record Placed (k : Table) (slot amount roll : ℕ) (b : Bet) : Type 0 where
  pub player : b.player ≡ k.player
  pub slot_of : b.slot ≡ slot
  pub amount_of : b.amount ≡ amount
  pub roll_of : b.roll ≡ roll
  pub amount_enough : min_bet_lamports ≤ amount
  pub roll_low : min_roll ≤ roll
  pub roll_high : roll ≤ max_roll

pub create_bet-Placed :
    (k : Table) (slot bump seed roll amount : ℕ) (b : Bet)
    → create_bet k slot bump seed roll amount ≡ ok b
    → Placed k slot amount roll b
unfolding create_bet
create_bet-Placed k slot bump seed roll amount b e = ground arith

module _ (t : SystemOps) where
  open t use {Lamports}

  -- The outcome of a refund `wait` slots after the bet, and of one at a clock that went back.
  abbrev pub refund_outcome : Table → ℕ → ℕ → ℕ → Lamports → Result (Failure DiceError) Lamports
  refund_outcome k placed slot amount l =
      if ltb slot placed
      then err (custom math_error)
      else if leb slot (placed + 1000)
      then err (custom timeout_not_reached)
      else called (t.transfer (vault_signer k) k.vault k.player amount l)

  refund_bet-outcome :
      (k : Table) (now : ℕ) (b : Bet) (l : Lamports)
      → refund_bet t k now b l ≡ refund_outcome k b.slot now b.amount l
  unfolding refund_bet
  refund_bet-outcome k now b l = ground arith

  -- A placed bet names the player, the slot, a stake of at least the minimum and a pick from 1 to
  -- 99, and its stake went from the player to the vault. A later refund is refused up to 1000 slots
  -- after it, and for a clock that went back, and otherwise is the transfer of that stake from the
  -- vault to the player.
  pub place_bet-refund_bet :
      (k : Table) (slot bump seed amount roll now : ℕ) (b : Bet) (l m n : Lamports)
      → place_bet t k slot bump seed amount roll l ≡ ok (b, m)
      → Placed k slot amount roll b
        × (t.transfer [] k.player k.vault amount l ≡ ok m)
        × (refund_bet t k now b n ≡ refund_outcome k slot now amount n)
  unfolding place_bet deposit
  place_bet-refund_bet k slot bump seed amount roll now b l m n e =
      let (c, e1, k1) = >>=-eq-ok (create_bet k slot bump seed roll amount) _ e in
      let (l', e2, k2) = >>=-eq-ok (called (t.transfer [] k.player k.vault amount l)) _ k1 in
      let same : c ≡ b = cc k2 in
      let placed = create_bet-Placed k slot bump seed roll amount b (e1 ∙ ap ok same) in
      let refund = refund_bet-outcome k now b n in
      let stake = ap (λ a. refund_outcome k b.slot now a n) placed.amount_of in
      let since = ap (λ s. refund_outcome k s now amount n) placed.slot_of in
      (placed, map_err-eq-ok program_error _ e2 ∙ cc k2, refund ∙ stake ∙ since)
