-- ===== src/Solana/TokenModel.antt =====
-- A token program that meets the interface: balances and supplies as functions of the address.
use solana_instructions_intr.Prelude.{
  ℕ, ◌+◌, ◌-◌, ◌≤◌, ◌≡◌, ◌≢◌, refl, sym, ap, subst, ◌∙◌, arith, Result, ok, err, Bool, true, false,
  ◌&&◌, leb, ◌==◌, if◌then◌else◌, bytes_eq, bytes_eq→eq, bytes_eq_self, Bool-cases, inl, inr,
}
use solana_instructions_intr.Solana.{Pubkey}
use solana_instructions_intr.Solana.Token.{TokenOps, IsTokenProgram, Moved, Minted, Burned, Unmoved}

pub record Book : Type 0 where
  pub held : Pubkey → ℕ
  pub issued : Pubkey → ℕ

abbrev pub set_at : (Pubkey → ℕ) → Pubkey → ℕ → Pubkey → ℕ
set_at f k v j = if bytes_eq k j then v else f j

abbrev pub moved : Book → Pubkey → Pubkey → ℕ → Book
moved l from to n =
    let paid = set_at l.held from (l.held from - n) in
    record l { held = set_at paid to (paid to + n) }

abbrev pub minted : Book → Pubkey → Pubkey → ℕ → Book
minted l mint to n = record {
  held = set_at l.held to (l.held to + n);
  issued = set_at l.issued mint (l.issued mint + n);
}

abbrev pub burned : Book → Pubkey → Pubkey → ℕ → Book
burned l mint from n = record {
  held = set_at l.held from (l.held from - n);
  issued = set_at l.issued mint (l.issued mint - n);
}

abbrev pub book_ops : TokenOps
book_ops = record {
  Ledger = Book;
  balance = λ l k. l.held k;
  supply = λ l m. l.issued m;
  transfer = λ c n l.
      let a = c.accounts in if leb n (l.held a.from) then ok (moved l a.from a.to n) else err 1;
  mint_to = λ c n l. let a = c.accounts in ok (minted l a.mint a.to n);
  burn = λ c n l.
      let a = c.accounts in
      if leb n (l.held a.from) && leb n (l.issued a.mint)
      then ok (burned l a.mint a.from n)
      else err 1;
  init_mint = λ m l. if l.issued m.address == 0 then ok l else err 0;
  init_account = λ c l. if l.held c.address == 0 then ok l else err 0;
  init_if_needed = λ c l. ok l;
}

ne→not-bytes_eq : (j k : Pubkey) → j ≢ k → bytes_eq j k ≡ false
ne→not-bytes_eq j k h = elim (Bool-cases (bytes_eq j k)) [
  | inl e ↦ absurd (h (bytes_eq→eq j k e))
  | inr e ↦ e
]

pub set_at_self : (f : Pubkey → ℕ) (k : Pubkey) (v : ℕ) → set_at f k v k ≡ v
set_at_self f k v = rw (bytes_eq_self k)

pub set_at_ne : (f : Pubkey → ℕ) (k : Pubkey) (v : ℕ) (j : Pubkey) → k ≢ j → set_at f k v j ≡ f j
set_at_ne f k v j h = rw (ne→not-bytes_eq k j h)

-- A guarded success: the guard holds, and the result is the one behind it.
guarded :
    (b : Bool) (u v : Book)
    → ◌≡◌ {A = Result ℕ Book} (if b then ok u else err 1) (ok v)
    → (b ≡ true) × (u ≡ v)
guarded true u v e = (refl, cc)
guarded false u v e = cc

guarded_init :
    (n : ℕ) (u v : Book)
    → ◌≡◌ {A = Result ℕ Book} (if n == 0 then ok u else err 0) (ok v)
    → (n ≡ 0) × (u ≡ v)
guarded_init n u v e = ground arith

book_transfer :
    (from to : Pubkey) (n : ℕ) (l : Book)
    → from ≢ to
    → n ≤ l.held from
    → Moved book_ops from to n l (moved l from to n)
book_transfer from to n l h covered =
    let paid = set_at l.held from (l.held from - n) in
    record {
      covered = covered;
      debited =
          set_at_ne paid to (paid to + n) from (λ p. h (sym p))
          ∙ set_at_self l.held from (l.held from - n);
      credited =
          set_at_self paid to (paid to + n)
          ∙ ap (λ (t : ℕ). t + n) (set_at_ne l.held from (l.held from - n) to h);
      others = λ k hf ht.
          set_at_ne paid to (paid to + n) k (λ p. ht (sym p))
          ∙ set_at_ne l.held from (l.held from - n) k (λ p. hf (sym p));
      supplies = λ m. refl;
    }

pub book_ops-IsTokenProgram : IsTokenProgram book_ops
book_ops-IsTokenProgram = record {
  transfer_moves = λ c n l l' h e.
      let a = c.accounts in
      let (test, result) = guarded (leb n (l.held a.from)) (moved l a.from a.to n) l' e in
      subst (Moved book_ops a.from a.to n l) result
        (book_transfer a.from a.to n l h (ground arith));
  mint_to_mints = λ c n l l' e.
      let a = c.accounts in
      let (_, result) = guarded true (minted l a.mint a.to n) l' e in
      subst (Minted book_ops a.mint a.to n l) result (record {
        credited = set_at_self l.held a.to (l.held a.to + n);
        others = λ k h. set_at_ne l.held a.to (l.held a.to + n) k (λ p. h (sym p));
        raised = set_at_self l.issued a.mint (l.issued a.mint + n);
        other_supplies = λ m h. set_at_ne l.issued a.mint (l.issued a.mint + n) m (λ p. h (sym p));
      });
  burn_burns = λ c n l l' e.
      let a = c.accounts in
      let (test, result) =
        guarded (leb n (l.held a.from) && leb n (l.issued a.mint)) (burned l a.mint a.from n) l'
          e in
      subst (Burned book_ops a.mint a.from n l) result (record {
        covered = ground arith;
        debited = set_at_self l.held a.from (l.held a.from - n);
        others = λ k h. set_at_ne l.held a.from (l.held a.from - n) k (λ p. h (sym p));
        within = ground arith;
        lowered = set_at_self l.issued a.mint (l.issued a.mint - n);
        other_supplies = λ m h. set_at_ne l.issued a.mint (l.issued a.mint - n) m (λ p. h (sym p));
      });
  init_mint_empty = λ m l l' e.
      let (test, same) = guarded_init (l.issued m.address) l l' e in
      (
        λ k. ap (λ (b : Book). b.held k) (sym same),
        subst (λ (b : Book). b.issued m.address ≡ 0) same test,
        λ n h. ap (λ (b : Book). b.issued n) (sym same),
      );
  init_account_empty = λ c l l' e.
      let (test, same) = guarded_init (l.held c.address) l l' e in
      (
        subst (λ (b : Book). b.held c.address ≡ 0) same test,
        subst (Unmoved book_ops l) same (record { balances = λ k. refl; supplies = λ m. refl }),
      );
  init_if_needed_keeps = λ c l l' e.
      let same : l ≡ l' = cc e in
      subst (Unmoved book_ops l) same (record { balances = λ k. refl; supplies = λ m. refl });
}
