-- ===== src/Run.antt =====
-- How a C function of the machine ends: with a value, in `PANIC`, or in undefined behaviour.
use animula.Prelude.{Bool, true, false}

-- `panic` is `panic ()` of inc/debug.h, which exits or loops for ever. `fault` is what C leaves
-- undefined: a null or dangling pointer, a division by zero, a signed overflow.
pub data Run {ℓ} (A : Type ℓ) : Type ℓ where
  ok : A → Run A
  panic : Run A
  fault : Run A

infixl 5 ◌>>=◌
abbrev pub ◌>>=◌ {ℓ κ} : {A : Type ℓ} {B : Type κ} → Run A → (A → Run B) → Run B
ok value >>= continue = continue value
panic >>= continue = panic
fault >>= continue = fault

infixl 5 ◌>>◌
abbrev pub ◌>>◌ {ℓ} : {B : Type ℓ} → Run (Unit {0}) → Run B → Run B
checked >> rest = checked >>= λ _. rest

-- `if (!test) PANIC (...)`.
abbrev pub require : Bool → Run (Unit {0})
require true = ok tt
require false = panic
