-- ===== src/Prelude/Slices.antt =====
-- Where the slices and the entries of a byte string lie.
use Prim.Native.Nat.{ℕ, zero, suc, ◌+◌, ◌-◌, ◌≤◌, ◌<◌}
use mathlib.Core.Path.{◌≡◌, refl, sym, ap, ◌∙◌}
use mathlib.Core.Option.{some}
use mathlib.Core.List.{List, [], ◌∷◌, ◌++◌}
use native.Mathlib.Omega.{arith}
use solana_instructions_intr.Prelude.Bytes.{
  AreBytes, length, take, drop, slice, get_elem?, length-append, take-append, drop-append, take_all,
}

pub length-drop : (n : ℕ) (bs : List ℕ) → length (drop n bs) ≡ length bs - n
length-drop zero bs = omega arith
length-drop (suc n) [] = omega arith
length-drop (suc n) (b ∷ bs) = omega (arith, length-drop n bs)

pub drop-AreBytes : (n : ℕ) (bs : List ℕ) → AreBytes bs → AreBytes (drop n bs)
drop-AreBytes zero bs h = h
drop-AreBytes (suc n) [] h = h
drop-AreBytes (suc n) (b ∷ bs) h = drop-AreBytes n bs h.1

pub slice-eq-some :
    (bs : List ℕ) (i j : ℕ) {x : List ℕ} → slice bs i j ≡ some x → x ≡ take (j - i) (drop i bs)
slice-eq-some bs i j e = ground arith

pub length-take : (n : ℕ) (bs : List ℕ) → n ≤ length bs → length (take n bs) ≡ n
length-take zero bs h = refl
length-take (suc n) [] h = absurd (omega arith)
length-take (suc n) (b ∷ bs) h = omega (arith, length-take n bs (omega arith))

slice_bounds :
    (bs : List ℕ) (i j : ℕ) {x : List ℕ} → slice bs i j ≡ some x → (i ≤ j) × (j ≤ length bs)
slice_bounds bs i j e = ground arith

pub length-slice : (bs : List ℕ) (i j : ℕ) {x : List ℕ} → slice bs i j ≡ some x → length x ≡ j - i
length-slice bs i j e =
    let (ij, jn) = slice_bounds bs i j e in
    ap length (slice-eq-some bs i j e)
    ∙ length-take (j - i) (drop i bs) (omega (arith, length-drop i bs))

pub slice_from :
    (bs : List ℕ) (i j : ℕ) → i ≤ j → j ≤ length bs → slice bs i j ≡ some (take (j - i) (drop i bs))
slice_from bs i j h k = ground arith

-- The part between two others.
pub slice_middle :
    (xs ys zs : List ℕ) (i j : ℕ)
    → length xs ≡ i
    → length xs + length ys ≡ j
    → slice (xs ++ (ys ++ zs)) i j ≡ some ys
slice_middle xs ys zs i j hi hj =
    let total : j ≤ length (xs ++ (ys ++ zs)) =
      omega (arith, length-append xs (ys ++ zs), length-append ys zs) in
    let from : drop i (xs ++ (ys ++ zs)) ≡ ys ++ zs = rw hi at (drop-append xs (ys ++ zs)) in
    let width : length ys ≡ j - i = omega arith in
    let part : take (j - i) (ys ++ zs) ≡ ys = rw width at (take-append ys zs) in
    slice_from (xs ++ (ys ++ zs)) i j (omega arith) total ∙ ap some (ap (take (j - i)) from ∙ part)

pub in_bounds : (bs : List ℕ) (i : ℕ) → i < length bs → (b : ℕ) × (get_elem? bs i ≡ some b)
in_bounds [] i h = absurd (omega arith)
in_bounds (b ∷ bs) zero h = (b, refl)
in_bounds (b ∷ bs) (suc i) h = in_bounds bs i (omega arith)

-- Two parts of eight bytes are the two slices of the whole.
pub halves :
    (u v : List ℕ)
    → length u ≡ 8
    → length v ≡ 8
    → (slice (u ++ v) 0 8 ≡ some u) × (slice (u ++ v) 8 16 ≡ some v) × (length (u ++ v) ≡ 16)
halves u v hu hv =
    let sum : length (u ++ v) ≡ 16 = omega (arith, length-append u v) in
    let first : take 8 (u ++ v) ≡ u = rw hu at (take-append u v) in
    let second : drop 8 (u ++ v) ≡ v = rw hu at (drop-append u v) in
    let whole : take 8 v ≡ v = rw hv at (take_all v) in
    (rw (sum, first) refl, rw (sum, second, whole) refl, sum)

get_elem?-take :
    (n i : ℕ) (bs : List ℕ) {v : ℕ} → get_elem? (take n bs) i ≡ some v → get_elem? bs i ≡ some v
get_elem?-take zero i bs e = cc
get_elem?-take (suc n) i [] e = cc
get_elem?-take (suc n) zero (b ∷ bs) e = e
get_elem?-take (suc n) (suc i) (b ∷ bs) e = get_elem?-take n i bs e

get_elem?-drop : (n i : ℕ) (bs : List ℕ) → get_elem? (drop n bs) i ≡ get_elem? bs (n + i)
get_elem?-drop zero i bs = ap (get_elem? bs) (omega arith)
get_elem?-drop (suc n) i [] = refl
get_elem?-drop (suc n) i (b ∷ bs) =
    let next : suc n + i ≡ suc (n + i) = omega arith in
    get_elem?-drop n i bs ∙ ap (get_elem? (b ∷ bs)) (sym next)

-- An entry of a slice is one of the whole.
pub get_elem?-slice :
    (bs : List ℕ) (i j n : ℕ) {x : List ℕ} {v : ℕ}
    → slice bs i j ≡ some x
    → get_elem? x n ≡ some v
    → get_elem? bs (i + n) ≡ some v
get_elem?-slice bs i j n e h =
    sym (get_elem?-drop i n bs)
    ∙ get_elem?-take (j - i) n (drop i bs)
        (ap (λ y. get_elem? y n) (sym (slice-eq-some bs i j e)) ∙ h)
