-- ===== src/Number/Rounding.antt =====
-- number.c: the procedures that round, and the tests on numbers. `ret` is the object that the
-- caller gives for the result.
pub mod Laws
use animula.Prelude.{
  ℕ, ◌+◌, ◌*◌, ◌/◌, ◌%◌, ◌^◌, Bool, true, false, not, ◌||◌, ◌&&◌, ◌==◌, if◌then◌else◌,
}
use animula.Prelude.Int.{ℤ, pos, ltb_ℤ}
use animula.Run.{Run, ok, panic, ◌>>=◌, ◌>>◌, require}
use animula.Object.{OType, Object, same, s32, word, imm, is_rational, bool_const}
use animula.Number.Float.{FloatOps}
use animula.Number.Cast.{numerator, cast_int_or_fractal_to_float}
use animula.Number.Compare.{validate_number, int_eq, int_gt, int_lt}

pub is_complex : OType → Bool
is_complex t = same t OType.complex_inexact || same t OType.complex_exact

-- The lowest bit of a 32-bit number.
abbrev pub is_odd_word : ℕ → Bool
is_odd_word w = w % 2 == 1

module _ (f : FloatOps) where
  -- The body that `_floor`, `_ceiling` and `_round` share, with the function of libm.
  pub rounded : (ℕ → ℕ) → Object → Object → Run Object
  unfolding is_complex
  rounded op ret x = do
    validate_number x
    if is_complex x.type
        then panic
        else if same x.type OType.real
        then ok (record ret { type = OType.real; value = op x.value })
        else if is_rational x.type
        then (do
          c ← cast_int_or_fractal_to_float f x
          ok (record ret { type = OType.imm_int; value = word (f.to_int (op c.value)) }))
        else if same x.type OType.imm_int
        then ok x
        else panic

  unfoldable pub floor : Object → Object → Run Object
  unfolding rounded
  floor ret x = rounded f.floor ret x

  unfoldable pub ceiling : Object → Object → Run Object
  unfolding rounded
  ceiling ret x = rounded f.ceil ret x

  unfoldable pub round : Object → Object → Run Object
  unfolding rounded
  round ret x = rounded f.round ret x

  -- `_int_gt` may have cast `xx`.
  unfoldable pub truncate : Object → Object → Run Object
  truncate ret x = do
    validate_number x
    (g, x', _) ← int_gt f x (imm (pos 0))
    if g then floor ret x' else ceiling ret x'

  unfoldable pub is_zero : Object → Run Object
  unfolding is_complex
  is_zero x = do
    validate_number x
    if is_complex x.type
        then panic
        else if same x.type OType.real
        then (do e ← int_eq f (imm (pos 0)) x; ok (bool_const e))
        else if is_rational x.type
        then ok (bool_const (numerator x.value == 0))
        else if same x.type OType.imm_int
        then (do e ← int_eq f (imm (pos 0)) x; ok (bool_const e))
        else panic

  unfoldable pub is_positive : Object → Run Object
  is_positive x = do validate_number x; (g, _, _) ← int_gt f x (imm (pos 0)); ok (bool_const g)

  unfoldable pub is_negative : Object → Run Object
  is_negative x = do validate_number x; (l, _, _) ← int_lt f x (imm (pos 0)); ok (bool_const l)

  -- The shared body of `_is_odd` and `_is_even`, which answer the constant for this parity.
  pub parity : Bool → Object → Object → Run Object
  unfolding is_complex
  parity odd ret x = do
    validate_number x
    if is_complex x.type
        then panic
        else if same x.type OType.real
        then (do
          r ← round ret x
          e ← int_eq f x r
          if e
              then ok (bool_const (if is_odd_word (word (f.to_int x.value)) then odd else not odd))
              else panic)
        else if is_rational x.type
        then panic
        else if same x.type OType.imm_int
        then ok (bool_const (if is_odd_word x.value then odd else not odd))
        else panic

  unfoldable pub is_odd : Object → Object → Run Object
  unfolding parity
  is_odd ret x = parity true ret x

  unfoldable pub is_even : Object → Object → Run Object
  unfolding parity
  is_even ret x = parity false ret x
