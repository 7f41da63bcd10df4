-- ===== src/Dice/Resolve/Payout.antt =====
-- The outcome of a bet in plain arithmetic, and the edge of the house.
use native.Mathlib.Nat
use solana_instructions_intr.Prelude.{
  ℕ, ◌+◌, ◌-◌, ◌*◌, ◌/◌, ◌%◌, ◌≤◌, ◌<◌, ◌≡◌, arith, List, Bool, sym, ◌∙◌, ok, err, Result, IsU64,
  ltb, leb, if◌then◌else◌, take, drop, from_le_bytes, u64_mod, u128_mod,
}
use solana_instructions_intr.Prelude.Division.{div-mul-le, le-div_of_mul-le}
use solana_instructions_intr.Solana.{Failure, custom}
use solana_instructions_intr.Dice.Types.{Bet, DiceError, called, max_roll, math_error}
use solana_instructions_intr.Dice.Bets.{SystemOps, Table, vault_signer}
use solana_instructions_intr.Dice.Resolve.{drawn_roll, win_payout, pay_win, settle_bet, resolve_bet}

-- The roll that a hash draws.
abbrev pub draw : List ℕ → ℕ
draw hash =
    (from_le_bytes (take 16 hash) + from_le_bytes (take 16 (drop 16 hash))) % u128_mod % 100 + 1

-- What a win pays on `amount` with `ways` winning numbers.
abbrev pub prize : ℕ → ℕ → ℕ
prize amount ways = amount * 9_850 / ways / 100

drawn_roll_lem : (hash : List ℕ) → drawn_roll hash ≡ ok (draw hash)
unfolding drawn_roll
drawn_roll_lem hash = ground arith

win_payout_lem :
    (b : Bet)
    → 1 < b.roll
    → IsU64 b.amount
    → win_payout b ≡ (
        if ltb (prize b.amount (b.roll - 1)) u64_mod
        then ok (prize b.amount (b.roll - 1))
        else err (custom math_error))
unfolding win_payout
win_payout_lem b h w = ground arith

module _ (t : SystemOps) where
  open t use {Lamports}

  abbrev pub bet_outcome : Table → Bet → ℕ → Lamports → Result (Failure DiceError) Lamports
  bet_outcome k b drawn l =
      if leb b.roll drawn
      then ok l
      else if ltb (prize b.amount (b.roll - 1)) u64_mod
      then called (t.transfer (vault_signer k) k.vault k.player (prize b.amount (b.roll - 1)) l)
      else err (custom math_error)

  by_roll :
      (k : Table) (b : Bet) (drawn : ℕ) (l : Lamports)
      → 1 ≤ drawn
      → IsU64 b.amount
      → (if ltb drawn b.roll then pay_win t k b l else ok l) ≡ bet_outcome k b drawn l
  unfolding pay_win
  by_roll k b drawn l low w = grind (arith, win_payout_lem)

  -- For every hash function and every stake of a u64, the draw is a number from 1 to 100 and
  -- resolving ends without a panic or a division by zero: a pick of at most the draw changes
  -- nothing, and a pick above it pays the prize from the vault to the player, or is refused where
  -- the prize does not fit a u64.
  pub resolve_bet-bet_outcome :
      (sha256 : List ℕ → List ℕ) (k : Table) (b : Bet) (sig : List ℕ) (l : Lamports)
      → IsU64 b.amount
      → (1 ≤ draw (sha256 sig))
        × (draw (sha256 sig) ≤ 100)
        × (resolve_bet t sha256 k b sig l ≡ bet_outcome k b (draw (sha256 sig)) l)
  unfolding resolve_bet settle_bet
  resolve_bet-bet_outcome sha256 k b sig l w =
      let d = draw (sha256 sig) in
      let low : 1 ≤ d = omega arith in
      (low, omega arith, rw (drawn_roll_lem (sha256 sig)) (by_roll k b d l low w))

prize_bounds :
    (amount pick lower : ℕ)
    → 1 < lower
    → lower ≤ pick
    → pick ≤ max_roll
    → (amount ≤ prize amount (pick - 1))
      × ((pick - 1) * prize amount (pick - 1) * 100 ≤ amount * 9_850)
      × (prize amount (pick - 1) ≤ prize amount (lower - 1))
prize_bounds amount pick lower h1 h2 h3 =
    let n = pick - 1 in
    let m = lower - 1 in
    let shared = amount * 9_850 / n in
    let covered : amount * 100 * n ≤ amount * 9_850 =
      omega (arith, Nat.mul-le-mul_left {m = 100 * n} {n = 9_850} amount (omega arith)) in
    let enough : amount * 100 ≤ shared =
      le-div_of_mul-le (amount * 9_850) n (amount * 100) (omega arith) covered in
    let whole : shared * n ≤ amount * 9_850 = div-mul-le (amount * 9_850) n in
    let hundreds : n * (shared / 100 * 100) ≤ n * shared = Nat.mul-le-mul_left n (omega arith) in
    let fewer : shared * m ≤ shared * n = Nat.mul-le-mul_left shared (omega arith) in
    let more : shared ≤ amount * 9_850 / m =
      le-div_of_mul-le (amount * 9_850) m shared (omega arith) (omega arith) in
    (omega arith, omega arith, omega arith)

value_of_ok :
    (small : Bool) (x v : ℕ) (e : Failure DiceError)
    → ◌≡◌ {A = Result (Failure DiceError) ℕ} (if small then ok x else err e) (ok v)
    → v ≡ x
value_of_ok small x v e h = ground arith

payout_value :
    (b : Bet) (v : ℕ)
    → 1 < b.roll
    → IsU64 b.amount
    → win_payout b ≡ ok v
    → v ≡ prize b.amount (b.roll - 1)
payout_value b v h w e =
    let x = prize b.amount (b.roll - 1) in
    value_of_ok (ltb x u64_mod) x v (custom math_error) (sym (win_payout_lem b h w) ∙ e)

-- For picks from 2 to 99 that pay out, a win pays no less than the stake, the payouts of all
-- winning draws together are at most 98.5 percent of one hundred stakes, and on the same stake a
-- lower pick pays no less.
pub win_payout_bounds :
    (b c : Bet) (v w : ℕ)
    → IsU64 b.amount
    → b.amount ≡ c.amount
    → 1 < c.roll
    → c.roll ≤ b.roll
    → b.roll ≤ max_roll
    → win_payout b ≡ ok v
    → win_payout c ≡ ok w
    → (b.amount ≤ v) × ((b.roll - 1) * v * 100 ≤ b.amount * 9_850) × (v ≤ w)
win_payout_bounds b c v w small same low order high e1 e2 =
    let first = payout_value b v (omega arith) small e1 in
    let second = payout_value c w low (omega arith) e2 in
    rw (first, second, sym same) (prize_bounds b.amount b.roll c.roll low order high)
