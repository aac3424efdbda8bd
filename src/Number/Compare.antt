-- ===== src/Number/Compare.antt =====
-- primitives.c: `_int_eq`, `_int_gt`, `_int_lt`, `_int_le`, `_int_ge`.
pub mod Laws
use animula.Prelude.{ℕ, ◌+◌, ◌*◌, ◌^◌, Bool, true, false, not, ◌||◌, ◌&&◌, ◌==◌, if◌then◌else◌}
use animula.Prelude.Int.{ltb_ℤ, signed}
use animula.Run.{Run, ok, panic, ◌>>=◌, ◌>>◌, require}
use animula.Object.{OType, Object, same, s32, is_rational}
use animula.Number.Float.{FloatOps}
use animula.Number.Cast.{
  numerator, denominator, cast_imm_int_to_rational, cast_int_or_fractal_to_float,
}

-- `VALIDATE_NUMBER`.
unfoldable pub validate_number : Object → Run (Unit {0})
validate_number x = require (
    same x.type OType.imm_int
    || same x.type OType.real
    || is_rational x.type
    || same x.type OType.complex_exact
    || same x.type OType.complex_inexact)

-- The sign and the halves of a rational on the two sides of `_int_gt`.
unfoldable pub gt_rational : Object → Object → Bool
gt_rational x y =
    ltb_ℤ (signed (not (same y.type OType.rational_pos)) (numerator y.value * denominator x.value))
      (signed (not (same x.type OType.rational_pos)) (numerator x.value * denominator y.value))

module _ (f : FloatOps) where
  unfoldable pub eq_real : Object → Object → Run Bool
  eq_real x y = do
    a ←
        if is_rational x.type || same x.type OType.imm_int
        then cast_int_or_fractal_to_float f x
        else ok x
    b ←
        if is_rational y.type || same y.type OType.imm_int
        then cast_int_or_fractal_to_float f y
        else ok y
    ok (f.eq a.value b.value)

  -- Two rationals of one type and value, and two of different types, end in `PANIC`.
  unfoldable pub eq_rational : Object → Object → Run Bool
  eq_rational x y = do
    b ← if is_rational x.type then cast_imm_int_to_rational y else ok y
    a ← if is_rational b.type then cast_imm_int_to_rational x else ok x
    if same b.type a.type then (if a.value == b.value then panic else ok false) else panic

  unfoldable pub int_eq : Object → Object → Run Bool
  unfolding eq_real eq_rational
  int_eq x y =
      if same x.type OType.complex_inexact || same y.type OType.complex_inexact
      then panic
      else if same x.type OType.complex_exact || same y.type OType.complex_exact
      then panic
      else if same x.type OType.real || same y.type OType.real
      then eq_real x y
      else if is_rational x.type || is_rational y.type
      then eq_rational x y
      else if same x.type OType.imm_int && same y.type OType.imm_int
      then ok (x.value == y.value)
      else panic

  -- `_int_gt` casts its operands in place: the result comes with what they are afterwards.
  unfoldable pub int_gt : Object → Object → Run (Bool × Object × Object)
  unfolding validate_number gt_rational
  int_gt x y = do
    validate_number x
    validate_number y
    if same x.type OType.complex_inexact || same y.type OType.complex_inexact
        then panic
        else if same x.type OType.complex_exact || same y.type OType.complex_exact
        then panic
        else if same x.type OType.real || same y.type OType.real
        then (do
          a ← cast_int_or_fractal_to_float f x
          b ← cast_int_or_fractal_to_float f y
          ok (f.gt a.value b.value, a, b))
        else if is_rational x.type || is_rational y.type
        then (do
          a ← cast_imm_int_to_rational x
          b ← cast_imm_int_to_rational y
          ok (gt_rational a b, a, b))
        else if same x.type OType.imm_int && same y.type OType.imm_int
        then ok (ltb_ℤ (s32 y.value) (s32 x.value), x, y)
        else panic

  -- The answer of `_int_lt`, `_int_le` and `_int_ge`, with what `_int_gt` has left of the operands.
  unfoldable pub int_lt : Object → Object → Run (Bool × Object × Object)
  int_lt x y = do
    e ← int_eq x y
    if e then ok (false, x, y) else (do (g, x', y') ← int_gt x y; ok (not g, x', y'))

  unfoldable pub int_le : Object → Object → Run (Bool × Object × Object)
  int_le x y = do
    require (same x.type OType.imm_int)
    require (same y.type OType.imm_int)
    (g, x', y') ← int_gt x y
    ok (not g, x', y')

  unfoldable pub int_ge : Object → Object → Run (Bool × Object × Object)
  int_ge x y = do
    require (same x.type OType.imm_int)
    require (same y.type OType.imm_int)
    e ← int_eq x y
    if e then ok (true, x, y) else int_gt x y
