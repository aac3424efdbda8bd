-- ===== src/Number/Float.antt =====
-- The C compiler's single precision numbers, by their bit patterns, and the calls of libm.
use animula.Prelude.{ℕ, Bool}
use animula.Prelude.Int.{ℤ}

-- `of_int` is the conversion `(float) n`, `to_int` the conversion `(imm_int_t) f`, and `eq` and
-- `gt` are `==` and `>`. The bit pattern of 0.0 is 0.
pub record FloatOps : Type 0 where
  pub of_int : ℤ → ℕ
  pub to_int : ℕ → ℤ
  pub add : ℕ → ℕ → ℕ
  pub mul : ℕ → ℕ → ℕ
  pub div : ℕ → ℕ → ℕ
  pub neg : ℕ → ℕ
  pub eq : ℕ → ℕ → Bool
  pub gt : ℕ → ℕ → Bool
  pub floor : ℕ → ℕ
  pub ceil : ℕ → ℕ
  pub round : ℕ → ℕ
