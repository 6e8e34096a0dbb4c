-- ===== src/Prelude/Outcome.antt =====
-- How a call of a kernel function ends.
use mathlib.Core.Path.{◌≡◌}
use mathlib.Core.Bool.{Bool, true, false}

-- A call of `panic`, undefined behaviour (an index outside an array, a null pointer that is
-- followed, a signed overflow), or the end of the fuel of a modelled loop.
pub data Stop : Type 0 where
  panic fault out_of_fuel : Stop

pub data Run {ℓ} (A : Type ℓ) : Type ℓ where
  ok : A → Run A
  stop : Stop → Run A

infixl 5 ◌>>=◌ ◌>>◌
abbrev pub ◌>>=◌ {ℓ κ} : {A : Type ℓ} {B : Type κ} → Run A → (A → Run B) → Run B
ok a >>= f = f a
stop e >>= f = stop e

abbrev pub ◌>>◌ {ℓ κ} : {A : Type ℓ} {B : Type κ} → Run A → Run B → Run B
m >> k = m >>= λ _. k

-- `if (bad) panic(...)`, which goes on where the test fails
abbrev pub panic_if : Bool → Run (Unit {0})
panic_if true = stop panic
panic_if false = ok tt

-- The call returns, with a value that satisfies `P`.
abbrev pub Returns {ℓ κ} : {A : Type ℓ} → (A → Type κ) → Run A → Type (ℓ ⊔ κ)
Returns {A} P r = (a : A) × (r ≡ ok a) × P a
