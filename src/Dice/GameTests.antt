-- ===== src/Dice/GameTests.antt =====
-- The theorems on the entry points of the dice game, in a game with one bet.
use solana_instructions_intr.Prelude.{
  ℕ, Bool, true, false, ◌+◌, ◌-◌, ◌≤◌, ◌≡◌, ◌≢◌, ◌↔◌, refl, sym, ap, subst, ◌∙◌, arith, [], ◌∷◌,
  none, some, Result, ok, err, leb, ◌==◌, if◌then◌else◌, length, bytes_eq,
}
use solana_instructions_intr.Solana.{Pubkey, constraint}
use solana_instructions_intr.Solana.TokenModel.{set_at, set_at_self, set_at_ne}
use solana_instructions_intr.Dice.Types.{Bet, IsInRange}
use solana_instructions_intr.Dice.Bets.{
  Shifts, IsSystemProgram, create_bet, deposit, place_bet, refund_bet,
}
use solana_instructions_intr.Dice.Program.{
  resolve_entropy, World, Context, place, refund, put_bet, load_bet, Game, process,
}
use solana_instructions_intr.Dice.Program.Settling.{settled_once}
use solana_instructions_intr.Dice.Program.Lamports.{AreApart, IsOther, total, process_conserves}
use solana_instructions_intr.Dice.Program.History.{
  IsStanding, AreStanding, begun, called, History-AreStanding,
}
use solana_instructions_intr.Dice.Program.Refunds.{placed_bet_refunds}
use solana_instructions_intr.Dice.Tests.{sent, lamports, table, bet, before, repeat}

guarded :
    (b : Bool) (u v : Pubkey → ℕ)
    → ◌≡◌ {A = Result ℕ (Pubkey → ℕ)} (if b then ok u else err 1) (ok v)
    → (b ≡ true) × (u ≡ v)
guarded true u v e = (refl, cc)
guarded false u v e = cc

sent_moves :
    (from to : Pubkey) (n : ℕ) (l : Pubkey → ℕ)
    → from ≢ to
    → n ≤ l from
    → (n ≤ l from)
      × (sent from to n l from ≡ l from - n)
      × (sent from to n l to ≡ l to + n)
      × ((k : Pubkey) → k ≢ from → k ≢ to → sent from to n l k ≡ l k)
sent_moves from to n l apart enough =
    let less = set_at l from (l from - n) in
    (
      enough,
      set_at_ne less to (less to + n) from (λ p. apart (sym p)) ∙ set_at_self l from (l from - n),
      set_at_self less to (less to + n)
          ∙ ap (λ (m : ℕ). m + n) (set_at_ne l from (l from - n) to apart),
      λ k f u.
          set_at_ne less to (less to + n) k (λ p. u (sym p))
          ∙ set_at_ne l from (l from - n) k (λ p. f (sym p)),
    )

lamports-IsSystemProgram : IsSystemProgram lamports
lamports-IsSystemProgram = record {
  moves = λ seeds from to n l l' apart e.
      let (test, same) = guarded (leb n (l from)) (sent from to n l) l' e in
      subst
        (λ (m : Pubkey → ℕ).
          (n ≤ l from)
          × (m from ≡ l from - n)
          × (m to ≡ l to + n)
          × ((k : Pubkey) → k ≢ from → k ≢ to → m k ≡ l k))
        same (sent_moves from to n l apart (ground arith));
  covers = λ seeds from to n l signed enough.
      let test : leb n (l from) ≡ true = ground arith in (sent from to n l, rw test refl);
  creates = λ payer new l l' apart e.
      let (test, same) = guarded (leb 1_000_000 (l payer)) (sent payer new 1_000_000 l) l' e in
      (
        1_000_000,
        subst (λ (m : Pubkey → ℕ). Shifts lamports payer new 1_000_000 l m) same
            (sent_moves payer new 1_000_000 l apart (ground arith)),
      );
  closes = λ old to l apart. sent_moves old to (l old) l apart (omega arith);
}

abbrev pub bet_key : Pubkey
bet_key = 3 ∷ []

abbrev pub world : World
world = record {
  derivation = record {
    find_program_address = λ seeds. if length seeds == 2 then 2 ∷ [] else bet_key;
    create_program_address = λ seeds. bet_key;
    associated_token = λ v m. [];
  };
  sha256 = repeat;
  sizes = record {
    pubkey_serialized_size = 32;
    signature_serialized_size = 64;
    signature_offsets_serialized_size = 14;
    signature_offsets_start = 2;
  };
  ed25519_id = 4 ∷ [];
  program_id = 5 ∷ [];
  sysvar_id = 6 ∷ [];
}

abbrev at_slot : ℕ → Context
at_slot n = record { slot = n; instruction_sysvar = 6 ∷ []; prior = err 1 }

abbrev empty : Game lamports
empty = record { bets = λ k. none; lamports = before }

-- The player pays for the account of the bet, and the stake.
abbrev opened : Pubkey → ℕ
opened = sent table.player bet_key 1_000_000 before

abbrev staked : Pubkey → ℕ
staked = sent table.player table.vault 20_000_000 opened

abbrev placed : Game lamports
placed = record { bets = put_bet empty.bets bet_key (some bet); lamports = staked }

place_runs :
    process lamports world (at_slot 5000) table bet_key (place 254 77 20_000_000 50) empty
    ≡ ok placed
unfolding process place_bet create_bet deposit bytes_eq
place_runs = refl

abbrev repaid : Pubkey → ℕ
repaid = sent table.vault table.player 20_000_000 staked

abbrev refunded : Game lamports
refunded = record {
  bets = put_bet placed.bets bet_key none;
  lamports = sent bet_key table.player (repaid bet_key) repaid;
}

refund_runs : process lamports world (at_slot 6001) table bet_key refund placed ≡ ok refunded
unfolding process refund_bet load_bet bytes_eq
refund_runs = refl

settled_once_example :
    ((b : Bet) × (placed.bets bet_key ≡ some b) × (b.player ≡ table.player))
    × (refunded.bets (9 ∷ []) ≡ placed.bets (9 ∷ []))
    × (process lamports world (at_slot 9000) table bet_key resolve_entropy refunded
        ≡ err constraint)
settled_once_example =
    settled_once lamports world (at_slot 6001) (at_slot 9000) table table bet_key (9 ∷ []) refund
      resolve_entropy placed refunded tt tt (λ p. cc) refund_runs

table-AreApart : AreApart table bet_key
table-AreApart = record {
  player_vault = λ p. cc;
  house_vault = λ p. cc;
  house_player = λ p. cc;
  bet_player = λ p. cc;
  bet_house = λ p. cc;
  bet_vault = λ p. cc;
}

table-IsOther : IsOther table bet_key (9 ∷ [])
table-IsOther = record { player = λ p. cc; house = λ p. cc; vault = λ p. cc; bet = λ p. cc }

process_conserves_example :
    (total lamports table bet_key staked ≡ total lamports table bet_key before)
    × (staked (9 ∷ []) ≡ before (9 ∷ []))
process_conserves_example =
    process_conserves lamports lamports-IsSystemProgram world (at_slot 5000) table bet_key (9 ∷ [])
      (place 254 77 20_000_000 50) empty placed table-AreApart table-IsOther place_runs

placed_here : placed.bets bet_key ≡ some bet
unfolding bytes_eq
placed_here = refl

none_standing : AreStanding lamports world empty
none_standing j b e = cc e

History-AreStanding_example : IsStanding world bet_key bet
History-AreStanding_example =
    History-AreStanding lamports world bet_key bet
      (called (at_slot 5000) table bet_key (place 254 77 20_000_000 50) begun place_runs)
      none_standing placed_here

none_typed : (i : Pubkey) (o : Bet) → empty.bets i ≡ some o → IsInRange o
none_typed i o e = cc e

placed_bet_refunds_example : (20_000_000 ≤ staked table.vault) ↔ (
    (g : Game lamports) × (process lamports world (at_slot 6001) table bet_key refund placed ≡ ok g)
    × (g.lamports table.player ≡ staked table.player + 20_000_000 + staked bet_key)
    × (g.bets bet_key ≡ none))
placed_bet_refunds_example =
    placed_bet_refunds lamports world lamports-IsSystemProgram (at_slot 5000) (at_slot 6001) table
      bet_key 254 77 20_000_000 50 empty placed placed table-AreApart refl refl place_runs refl
      (omega arith)
