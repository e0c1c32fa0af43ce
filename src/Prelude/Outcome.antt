-- ===== src/Prelude/Outcome.antt =====
-- What code with undefined behaviour comes to.
use mathlib.Core.Path.{◌≡◌}

-- Undefined behaviour, here an index out of range, a division by zero or a copy outside the pool, is `fault`;
-- a value after normal execution is `ok`.
pub data Run {ℓ} (Value : Type ℓ) : Type ℓ where
  fault : Run Value
  ok : Value → Run Value

infixl 5 ◌>>=◌
abbrev pub ◌>>=◌ {ℓ κ} :
    {Value : Type ℓ} {Next : Type κ} → Run Value → (Value → Run Next) → Run Next
fault >>= then_do = fault
ok value >>= then_do = then_do value

-- Normal execution, ending in a value that `Post` holds of.
abbrev pub Returns {ℓ κ} :
    {Value : Type ℓ} (outcome : Run Value) (Post : Value → Type κ) → Type (ℓ ⊔ κ)
Returns {Value} outcome Post = (value : Value) × (outcome ≡ ok value) × Post value
