-- ===== src/Dice/Types/Encoding.antt =====
-- The message that the house signs: `Bet::to_slice` of programs/dice_game/src/state/mod.rs.
use solana_instructions_intr.Prelude.{
  [], ◌∷◌, ◌++◌, arith, length-append, length, ℕ, ◌≡◌, sym, ◌∙◌, length, to_le_bytes,
  to_le_bytes_inj, length-to_le_bytes, append_inj,
}
use solana_instructions_intr.Dice.Types.{Bet, IsInRange, to_slice}

same_length : (w m n : ℕ) → length (to_le_bytes w m) ≡ length (to_le_bytes w n)
same_length w m n = length-to_le_bytes w m ∙ sym (length-to_le_bytes w n)

-- Two bets within the ranges of the Rust types with the same message are the same bet.
pub to_slice_inj : (b c : Bet) → IsInRange b → IsInRange c → to_slice b ≡ to_slice c → b ≡ c
unfolding to_slice
to_slice_inj b c hb hc e =
    let (player, e1) = append_inj b.player _ c.player _ (hb.player_bytes ∙ sym hc.player_bytes) e in
    let (seed, e2) =
      append_inj (to_le_bytes 16 b.seed) _ (to_le_bytes 16 c.seed) _ (same_length 16 b.seed c.seed)
        e1 in
    let (slot, e3) =
      append_inj (to_le_bytes 8 b.slot) _ (to_le_bytes 8 c.slot) _ (same_length 8 b.slot c.slot)
        e2 in
    let (amount, e4) =
      append_inj (to_le_bytes 8 b.amount) _ (to_le_bytes 8 c.amount) _
        (same_length 8 b.amount c.amount) e3 in
    cc (
      player,
      to_le_bytes_inj 16 b.seed c.seed hb.seed_u128 hc.seed_u128 seed,
      to_le_bytes_inj 8 b.slot c.slot hb.slot_u64 hc.slot_u64 slot,
      to_le_bytes_inj 8 b.amount c.amount hb.amount_u64 hc.amount_u64 amount,
      e4,
    )

-- The message has 66 bytes.
pub length-to_slice : (b : Bet) → length b.player ≡ 32 → length (to_slice b) ≡ 66
unfolding to_slice
length-to_slice b h =
    let tail = b.roll ∷ b.bump ∷ [] in
    let amount = to_le_bytes 8 b.amount in
    let slot = to_le_bytes 8 b.slot in
    let seed = to_le_bytes 16 b.seed in
    omega (
      arith,
      length-append b.player (seed ++ (slot ++ (amount ++ tail))),
      length-append seed (slot ++ (amount ++ tail)),
      length-append slot (amount ++ tail),
      length-append amount tail,
      length-to_le_bytes 16 b.seed,
      length-to_le_bytes 8 b.slot,
      length-to_le_bytes 8 b.amount,
    )
