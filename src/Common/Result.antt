-- ===== src/Common/Result.antt =====
-- `Result<A, E>` of Rust, with `?` as the bind of a `do` block.
use mathlib.Core.Path.{◌≡◌, refl, ap, ◌∙◌}
use mathlib.Core.Logic.{◌⊎◌, inl, inr}
use mathlib.Core.Bool.{Bool, true, false}
use mathlib.Core.Option.{Option, none, some}
use native.Mathlib.Omega.{arith}

pub data Result {ℓ κ} (E : Type ℓ) (A : Type κ) : Type (ℓ ⊔ κ) where
  ok : A → Result E A
  err : E → Result E A

infixl 5 ◌>>=◌ ◌>>◌
abbrev pub ◌>>=◌ {ℓ κ μ} :
    {E : Type ℓ} {A : Type κ} {B : Type μ} → Result E A → (A → Result E B) → Result E B
ok a >>= f = f a
err e >>= f = err e

abbrev pub ◌>>◌ {ℓ μ} : {E : Type ℓ} {B : Type μ} → Result E (Unit {0}) → Result E B → Result E B
m >> k = m >>= λ _. k

-- To split on a computed result and keep the equation.
pub Result-cases {ℓ κ} :
    {E : Type ℓ} {A : Type κ} (m : Result E A) → ((a : A) × (m ≡ ok a)) ⊎ ((e : E) × (m ≡ err e))
Result-cases (ok a) = inl (a, refl)
Result-cases (err e) = inr (e, refl)

-- A sequence that succeeds has succeeded at every step.
pub bind-ok {ℓ κ μ} :
    {E : Type ℓ} {A : Type κ} {B : Type μ} (m : Result E A) (f : A → Result E B) (b : B)
    → (m >>= f) ≡ ok b
    → (a : A) × (m ≡ ok a) × (f a ≡ ok b)
bind-ok (ok a) f b e = (a, refl, e)
bind-ok (err x) f b e = absurd (ground (arith, e))

pub bind_intro {ℓ κ μ} :
    {E : Type ℓ} {A : Type κ} {B : Type μ} (m : Result E A) (f : A → Result E B) (a : A) (b : B)
    → m ≡ ok a
    → f a ≡ ok b
    → (m >>= f) ≡ ok b
bind_intro m f a b e k = ap (λ x. x >>= f) e ∙ k

-- A test and a value that must be there, each with the error of its absence, and `map_err`.
abbrev pub require {ℓ} : {E : Type ℓ} → Bool → E → Result E (Unit {0})
require true e = ok tt
require false e = err e

abbrev pub demand {ℓ κ} : {E : Type ℓ} {A : Type κ} → Option A → E → Result E A
demand none e = err e
demand (some a) e = ok a

abbrev pub map_err {ℓ κ μ} :
    {E : Type ℓ} {F : Type κ} {A : Type μ} → (E → F) → Result E A → Result F A
map_err f (ok a) = ok a
map_err f (err e) = err (f e)

module _ {ℓ} {E : Type ℓ} where
  pub demand-ok : {A : Type 0} {o : Option A} (e : E) {a : A} → demand o e ≡ ok a → o ≡ some a
  demand-ok {o = none} e p = absurd (ground (arith, p))
  demand-ok {o = some x} e p = ground (arith, p)

  pub require-ok : {b : Bool} (e : E) {u : Unit {0}} → require b e ≡ ok u → b ≡ true
  require-ok {b = true} e p = refl
  require-ok {b = false} e p = absurd (ground (arith, p))

  pub require-true : {b : Bool} (e : E) → b ≡ true → require b e ≡ ok tt
  require-true e p = rw p refl

  pub demand-some : {A : Type 0} {o : Option A} (e : E) {a : A} → o ≡ some a → demand o e ≡ ok a
  demand-some e p = rw p refl

  pub map_err-ok :
      {F A : Type 0} (f : F → E) {r : Result F A} {a : A} → map_err f r ≡ ok a → r ≡ ok a
  map_err-ok f {r = ok x} p = ground (arith, p)
  map_err-ok f {r = err x} p = absurd (ground (arith, p))
