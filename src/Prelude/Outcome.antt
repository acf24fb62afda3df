-- ===== src/Prelude/Outcome.antt =====
-- What a Rust function that returns `Result` does: it returns a value, returns an error, or panics.
use mathlib.Core.Path.{◌≡◌, refl}
use mathlib.Core.Logic.{◌⊎◌, inl, inr}
use mathlib.Core.Option.{Option, none, some}
use mathlib.Core.Bool.{Bool, true, false}
use native.Mathlib.Omega.{arith}

pub data Outcome {ℓ κ} (E : Type ℓ) (A : Type κ) : Type (ℓ ⊔ κ) where
  ok : A → Outcome E A
  err : E → Outcome E A
  panic : Outcome E A

infixl 5 ◌>>=◌ ◌>>◌
abbrev pub ◌>>=◌ {ℓ κ η} :
    {E : Type ℓ} {A : Type κ} {B : Type η} → Outcome E A → (A → Outcome E B) → Outcome E B
panic >>= rest = panic
err failure >>= rest = err failure
ok value >>= rest = rest value

abbrev pub ◌>>◌ {ℓ κ η} :
    {E : Type ℓ} {A : Type κ} {B : Type η} → Outcome E A → Outcome E B → Outcome E B
step >> rest = step >>= λ _. rest

module _ {ℓ κ} {E : Type ℓ} {A : Type κ} where
  -- `.context(error)?` on an `Option`
  abbrev pub context : E → Option A → Outcome E A
  context e none = err e
  context e (some a) = ok a

  -- an index or an assertion that panics
  abbrev pub or_panic : Option A → Outcome E A
  or_panic none = panic
  or_panic (some a) = ok a

  -- Where a chain succeeds, its first step has a value and the rest succeeds from it.
  pub >>=-eq-ok {η} :
      {B : Type η} (step : Outcome E A) (rest : A → Outcome E B) {result : B}
      → (step >>= rest) ≡ ok result
      → (value : A) × (step ≡ ok value) × (rest value ≡ ok result)
  >>=-eq-ok panic rest e = cc
  >>=-eq-ok (err _) rest e = cc
  >>=-eq-ok (ok value) rest e = (value, refl, e)

  -- To split on a computed outcome and keep the equation.
  pub Outcome-cases :
      (o : Outcome E A) → ((a : A) × (o ≡ ok a)) ⊎ ((e : E) × (o ≡ err e)) ⊎ (o ≡ panic)
  Outcome-cases (ok a) = inl (a, refl)
  Outcome-cases (err e) = inr (inl (e, refl))
  Outcome-cases panic = inr (inr refl)

  pub context-eq-ok : (e : E) (o : Option A) (a : A) → context e o ≡ ok a → o ≡ some a
  context-eq-ok e o a h = ground arith

-- `ensure!`
abbrev pub ensure {ℓ} : {E : Type ℓ} → Bool → E → Outcome E (Unit {0})
ensure true e = ok tt
ensure false e = err e
