-- ===== src/Prelude/Results.antt =====
-- Outcomes of Rust code: a value, an `Err`, or a panic (which aborts the transaction).
use mathlib.Core.Path.{◌≡◌, refl, ap, ◌∙◌}
use mathlib.Core.Logic.{◌≢◌}
use mathlib.Core.Bool.{Bool, true, false}
use mathlib.Core.Option.{Option, none, some}

pub data Result {ℓ κ} (E : Type ℓ) (A : Type κ) : Type (ℓ ⊔ κ) where
  ok : A → Result E A
  err : E → Result E A
  panic : Result E A

-- The `?` operator.
infixl 5 ◌>>=◌ ◌>>◌
abbrev pub ◌>>=◌ {ℓ κ μ} :
    {E : Type ℓ} {A : Type κ} {B : Type μ} → Result E A → (A → Result E B) → Result E B
panic >>= rest = panic
err e >>= rest = err e
ok v >>= rest = rest v

abbrev pub ◌>>◌ {ℓ μ} : {E : Type ℓ} {B : Type μ} → Result E (Unit {0}) → Result E B → Result E B
first >> second = first >>= λ _. second

-- `require!(cond, err)` and its relatives: an early return of `Err(err)`.
abbrev pub require {ℓ} : {E : Type ℓ} → Bool → E → Result E (Unit {0})
require false e = err e
require true e = ok tt

-- `Option::ok_or`
abbrev pub ok_or {ℓ κ} : {E : Type ℓ} {A : Type κ} → Option A → E → Result E A
ok_or none e = err e
ok_or (some a) e = ok a

-- A checked operation written with a plain operator: the overflow checks of the build panic.
abbrev pub or_panic {ℓ κ} : {E : Type ℓ} {A : Type κ} → Option A → Result E A
or_panic none = panic
or_panic (some a) = ok a

-- `Result::map_err`
abbrev pub map_err {ℓ κ μ} :
    {E : Type ℓ} {F : Type κ} {A : Type μ} → (E → F) → Result E A → Result F A
map_err f (ok a) = ok a
map_err f (err e) = err (f e)
map_err f panic = panic

-- `Option::and_then`
abbrev pub and_then {ℓ κ} : {A : Type ℓ} {B : Type κ} → Option A → (A → Option B) → Option B
and_then none f = none
and_then (some a) f = f a

-- A chain that succeeds has a first part that succeeds, and goes on with its value.
module _ {ℓ κ μ} {E : Type ℓ} {A : Type κ} {B : Type μ} where
  pub >>=-eq-ok :
      (r : Result E A) (rest : A → Result E B) {z : B}
      → (r >>= rest) ≡ ok z
      → (v : A) × (r ≡ ok v) × (rest v ≡ ok z)
  >>=-eq-ok panic rest p = cc
  >>=-eq-ok (err e) rest p = cc
  >>=-eq-ok (ok v) rest p = (v, refl, p)

pub map_err-eq-ok {ℓ κ μ} :
    {E : Type ℓ} {F : Type κ} {A : Type μ} (f : E → F) (r : Result E A) {a : A}
    → map_err f r ≡ ok a
    → r ≡ ok a
map_err-eq-ok f (ok b) h = cc
map_err-eq-ok f (err e) h = cc
map_err-eq-ok f panic h = cc

pub require-eq-ok {ℓ} :
    {E : Type ℓ} (b : Bool) (e : E) {u : Unit {0}} → require b e ≡ ok u → b ≡ true
require-eq-ok true e h = refl
require-eq-ok false e h = cc

pub or_panic-eq-ok {ℓ κ} :
    {E : Type ℓ} {A : Type κ} (o : Option A) {a : A}
    → ◌≡◌ {A = Result E A} (or_panic o) (ok a)
    → o ≡ some a
or_panic-eq-ok none h = cc
or_panic-eq-ok (some b) h = cc

pub ok_or-eq-ok {ℓ κ} :
    {E : Type ℓ} {A : Type κ} (o : Option A) (e : E) {a : A}
    → ◌≡◌ {A = Result E A} (ok_or o e) (ok a)
    → o ≡ some a
ok_or-eq-ok none e h = cc
ok_or-eq-ok (some b) e h = cc

-- A chain panics only where a part of it does.
pub >>=-ne-panic {ℓ κ μ} :
    {E : Type ℓ} {A : Type κ} {B : Type μ} (r : Result E A) (rest : A → Result E B)
    → r ≢ panic
    → ((v : A) → r ≡ ok v → rest v ≢ panic)
    → (r >>= rest) ≢ panic
>>=-ne-panic (ok v) rest h k = k v refl
>>=-ne-panic (err e) rest h k = λ p. cc p
>>=-ne-panic panic rest h k = absurd (h refl)

pub require-ne-panic {ℓ} : {E : Type ℓ} (b : Bool) (e : E) → require b e ≢ panic
require-ne-panic true e = λ p. cc p
require-ne-panic false e = λ p. cc p

pub ok_or-ne-panic {ℓ κ} :
    {E : Type ℓ} {A : Type κ} (o : Option A) (e : E) → ◌≢◌ {A = Result E A} (ok_or o e) panic
ok_or-ne-panic none e = λ p. cc p
ok_or-ne-panic (some a) e = λ p. cc p

pub map_err-ne-panic {ℓ κ μ} :
    {E : Type ℓ} {F : Type κ} {A : Type μ} (f : E → F) (r : Result E A)
    → r ≢ panic
    → ◌≢◌ {A = Result F A} (map_err f r) panic
map_err-ne-panic f (ok a) h = λ p. cc p
map_err-ne-panic f (err e) h = λ p. cc p
map_err-ne-panic f panic h = absurd (h refl)

-- Chains that go on alike with each value.
pub >>=-cong {ℓ κ μ} :
    {E : Type ℓ} {A : Type κ} {B : Type μ} (r : Result E A) (f g : A → Result E B)
    → ((v : A) → r ≡ ok v → f v ≡ g v)
    → (r >>= f) ≡ (r >>= g)
>>=-cong (ok v) f g h = h v refl
>>=-cong (err e) f g h = refl
>>=-cong panic f g h = refl

-- A chain whose first part succeeds and goes on to a success.
pub >>=-ok {ℓ κ μ} :
    {E : Type ℓ} {A : Type κ} {B : Type μ} (r : Result E A) (rest : A → Result E B) (v : A) {z : B}
    → r ≡ ok v
    → rest v ≡ ok z
    → (r >>= rest) ≡ ok z
>>=-ok r rest v e h = ap (λ s. s >>= rest) e ∙ h
