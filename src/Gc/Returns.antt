-- ===== src/Gc/Returns.antt =====
-- What a run of the collector returns, whether or not it ends in `PANIC` or in undefined behaviour.
use mathlib.Core.Path.{subst}
use animula.Prelude.{◌≡◌, refl, Bool, true, false, if◌then◌else◌}
use animula.Run.{Run, ok, panic, fault, ◌>>=◌}

-- What holds of the value of a run, if it returns one.
pub data Returns {ℓ} {A : Type ℓ} (P : A → Type 0) : Run A → Type ℓ where
  returns : {a : A} → P a → Returns P (ok a)
  panics : Returns P panic
  faults : Returns P fault

module _ {ℓ} {A : Type ℓ} where
  pub map-Returns :
      {P Q : A → Type 0} {r : Run A} → Returns P r → ((a : A) → P a → Q a) → Returns Q r
  map-Returns (returns {a} h) k = returns (k a h)
  map-Returns panics k = panics
  map-Returns faults k = faults

  pub branch-Returns :
      {P : A → Type 0} (b : Bool) (x y : Run A)
      → (b ≡ true → Returns P x)
      → (b ≡ false → Returns P y)
      → Returns P (if b then x else y)
  branch-Returns true x y h k = h refl
  branch-Returns false x y h k = k refl

  pub any-Returns : (r : Run A) → Returns (λ a. Unit {0}) r
  any-Returns (ok a) = returns tt
  any-Returns panic = panics
  any-Returns fault = faults

  of_ok : {P : A → Type 0} {a : A} → Returns P (ok a) → P a
  of_ok (returns h) = h

  pub ok-Returns : (P : A → Type 0) (r : Run A) (a : A) → r ≡ ok a → Returns P r → P a
  ok-Returns P r a e h = of_ok (subst (Returns P) e h)

  pub bind-Returns {κ} :
      {B : Type κ} {P : A → Type 0} {Q : B → Type 0} {r : Run A} (f : A → Run B)
      → Returns P r
      → ((a : A) → P a → Returns Q (f a))
      → Returns Q (r >>= f)
  bind-Returns f (returns {a} h) k = k a h
  bind-Returns f panics k = panics
  bind-Returns f faults k = faults
