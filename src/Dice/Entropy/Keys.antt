-- ===== src/Dice/Entropy/Keys.antt =====
-- The keys that `verify_entropy_commit` (resolve_from_entropy.rs) compares one by one.
use solana_instructions_intr.Prelude.{
  ℕ, ◌≡◌, refl, sym, ap, ◌∙◌, arith, List, [], ◌∷◌, ok, some, length, get_elem?, bytes_eq→eq,
  bytes_eq_self, >>=-eq-ok, or_panic, require-eq-ok, or_panic-eq-ok,
}
use solana_instructions_intr.Solana.{Pubkey, AccountMeta, keys_of}
use solana_instructions_intr.Dice.Entropy.{require_key}

require_key-eq :
    (ms : List AccountMeta) (i : ℕ) (key : Pubkey) {m : AccountMeta}
    → get_elem? ms i ≡ some m
    → require_key ms i key ≡ ok tt
    → m.pubkey ≡ key
unfolding require_key
require_key-eq ms i key {m} at e =
    let (n, e1, e2) = >>=-eq-ok (or_panic (get_elem? ms i)) _ e in
    let same : n ≡ m = cc (or_panic-eq-ok (get_elem? ms i) e1, at) in
    sym (ap (λ (x : AccountMeta). x.pubkey) same) ∙ bytes_eq→eq n.pubkey key (require-eq-ok _ _ e2)

require_key_lem :
    (ms : List AccountMeta) (i : ℕ) (key : Pubkey) {m : AccountMeta}
    → get_elem? ms i ≡ some m
    → m.pubkey ≡ key
    → require_key ms i key ≡ ok tt
unfolding require_key
require_key_lem ms i key at e = rw (at, e, bytes_eq_self key) refl

-- The four keys of four accounts, both ways.
pub keys_checked :
    (ms : List AccountMeta) (h p v b : Pubkey)
    → length ms ≡ 4
    → require_key ms 0 h ≡ ok tt
    → require_key ms 1 p ≡ ok tt
    → require_key ms 2 v ≡ ok tt
    → require_key ms 3 b ≡ ok tt
    → keys_of ms ≡ h ∷ p ∷ v ∷ b ∷ []
keys_checked [] h p v b l e0 e1 e2 e3 = absurd (omega arith)
keys_checked (m ∷ []) h p v b l e0 e1 e2 e3 = absurd (omega arith)
keys_checked (m ∷ n ∷ []) h p v b l e0 e1 e2 e3 = absurd (omega arith)
keys_checked (m ∷ n ∷ o ∷ []) h p v b l e0 e1 e2 e3 = absurd (omega arith)
keys_checked (m ∷ n ∷ o ∷ q ∷ []) h p v b l e0 e1 e2 e3 =
    let ms = m ∷ n ∷ o ∷ q ∷ [] in
    cc (
      require_key-eq ms 0 h refl e0,
      require_key-eq ms 1 p refl e1,
      require_key-eq ms 2 v refl e2,
      require_key-eq ms 3 b refl e3,
    )
keys_checked (m ∷ n ∷ o ∷ q ∷ r ∷ ms) h p v b l e0 e1 e2 e3 = absurd (omega arith)

pub keys_pass :
    (ms : List AccountMeta) (h p v b : Pubkey)
    → keys_of ms ≡ h ∷ p ∷ v ∷ b ∷ []
    → (require_key ms 0 h ≡ ok tt)
      × (require_key ms 1 p ≡ ok tt)
      × (require_key ms 2 v ≡ ok tt)
      × (require_key ms 3 b ≡ ok tt)
keys_pass [] h p v b e = cc
keys_pass (m ∷ []) h p v b e = cc
keys_pass (m ∷ n ∷ []) h p v b e = cc
keys_pass (m ∷ n ∷ o ∷ []) h p v b e = cc
keys_pass (m ∷ n ∷ o ∷ q ∷ ms) h p v b e =
    let all = m ∷ n ∷ o ∷ q ∷ ms in
    (
      require_key_lem all 0 h refl (cc e),
      require_key_lem all 1 p refl (cc e),
      require_key_lem all 2 v refl (cc e),
      require_key_lem all 3 b refl (cc e),
    )
