-- ===== src/Amm/Introspection/Keys.antt =====
-- The loop of `confrim_burn_accounts` over the expected keys, in
-- programs/amm/src/instructions/withdraw_with_introspection.rs.
use solana_instructions_intr.Prelude.{
  ℕ, zero, suc, ◌+◌, ◌≡◌, refl, sym, ap, subst, ◌∙◌, arith, List, [], ◌∷◌, some, ok, >>=-eq-ok,
  require-eq-ok, or_panic-eq-ok, or_panic, require, length, drop, get_elem?, bytes_eq→eq,
  bytes_eq_self,
}
use solana_instructions_intr.Solana.{Pubkey, key_eq, custom, AccountMeta, keys_of}
use solana_instructions_intr.Amm.Types.{invalid_key}
use solana_instructions_intr.Amm.Introspection.{check_keys}

-- The accounts from `i` on have the keys.
drop_at :
    (ms : List AccountMeta) (i : ℕ) {m : AccountMeta}
    → get_elem? ms i ≡ some m
    → drop i ms ≡ m ∷ drop (suc i) ms
drop_at [] i e = cc
drop_at (x ∷ xs) zero e = cc
drop_at (x ∷ xs) (suc i) e = drop_at xs i e

get_elem?_of_drop :
    (ms : List AccountMeta) (i : ℕ) {m : AccountMeta} {rest : List AccountMeta}
    → drop i ms ≡ m ∷ rest
    → (get_elem? ms i ≡ some m) × (drop (suc i) ms ≡ rest)
get_elem?_of_drop [] zero e = cc
get_elem?_of_drop [] (suc i) e = cc
get_elem?_of_drop (x ∷ xs) zero e = (cc, cc)
get_elem?_of_drop (x ∷ xs) (suc i) e = get_elem?_of_drop xs i e

next : (i : ℕ) → i + 1 ≡ suc i
next i = omega arith

no_keys : (ms : List AccountMeta) → length ms ≡ 0 → keys_of ms ≡ []
no_keys [] h = refl
no_keys (m ∷ ms) h = absurd (omega arith)

pub check_keys_sound :
    (ms : List AccountMeta) (i : ℕ) (keys : List Pubkey)
    → length (drop i ms) ≡ length keys
    → check_keys ms i keys ≡ ok tt
    → keys_of (drop i ms) ≡ keys
unfolding check_keys
check_keys_sound ms i [] l e = no_keys (drop i ms) l
check_keys_sound ms i (key ∷ keys) l e =
    let (m, found, e1) = >>=-eq-ok (or_panic (get_elem? ms i)) _ e in
    let (u, same, e2) = >>=-eq-ok (require (key_eq m.pubkey key) (custom invalid_key)) _ e1 in
    let at = drop_at ms i (or_panic-eq-ok (get_elem? ms i) found) in
    let tail : length (drop (suc i) ms) ≡ length keys = omega (arith, ap length at) in
    let e3 = subst (λ j. check_keys ms j keys ≡ ok tt) (next i) e2 in
    let rest = check_keys_sound ms (suc i) keys tail e3 in
    let head =
      bytes_eq→eq m.pubkey key (require-eq-ok (key_eq m.pubkey key) (custom invalid_key) same) in
    cc (ap keys_of at, rest, head)

first_key :
    (ms : List AccountMeta) {key : Pubkey} {keys : List Pubkey}
    → keys_of ms ≡ key ∷ keys
    → (m : AccountMeta) × (rest : List AccountMeta) × (ms ≡ m ∷ rest)
      × (m.pubkey ≡ key)
      × (keys_of rest ≡ keys)
first_key [] e = cc
first_key (m ∷ ms) e = (m, ms, refl, cc, cc)

pub check_keys_complete :
    (ms : List AccountMeta) (i : ℕ) (keys : List Pubkey)
    → keys_of (drop i ms) ≡ keys
    → check_keys ms i keys ≡ ok tt
unfolding check_keys
check_keys_complete ms i [] e = refl
check_keys_complete ms i (key ∷ keys) e =
    let (m, rest, at, same, others) = first_key (drop i ms) e in
    let (found, after) = get_elem?_of_drop ms i at in
    let e1 = check_keys_complete ms (suc i) keys (ap keys_of after ∙ others) in
    let e2 = subst (λ j. check_keys ms j keys ≡ ok tt) (sym (next i)) e1 in
    rw (found, same, bytes_eq_self key, e2)
