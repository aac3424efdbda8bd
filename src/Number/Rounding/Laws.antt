-- ===== src/Number/Rounding/Laws.antt =====
-- The rounding procedures and the tests of number.c.
use animula.Prelude.{◌^◌, ◌≡◌, ◌<◌, refl, true, not, ◌&&◌, ◌==◌, arith}
use animula.Prelude.Int.{pos, ltb_ℤ, eq_ℤ}
use animula.Run.{ok, panic, ◌>>=◌}
use animula.Object.{OType, Object, same, s32, is_rational, bool_const}
use animula.Number.Float.{FloatOps}
use animula.Number.Cast.{numerator, cast_imm_int_to_rational}
use animula.Number.Compare.{validate_number, gt_rational, eq_rational, int_eq, int_gt, int_lt}
use animula.Number.Rounding.{
  is_complex, rounded, floor, ceiling, round, truncate, is_zero, is_positive, is_negative, parity,
  is_odd, is_even,
}

-- The answer of the other parity.
abbrev pub negated : Object → Object
negated o = bool_const (o.value == 0)

module _ (f : FloatOps) where
  -- `_is_even` answers the opposite of `_is_odd`, on every number, and stops where that stops.
  pub is_even-is_odd : (ret x : Object) → is_even f ret x ≡ (is_odd f ret x >>= λ o. ok (negated o))
  unfolding is_even is_odd parity
  is_even-is_odd ret x = ground arith

  -- An integer is its own floor, ceiling, truncation and rounding.
  pub rounding-int :
      (ret x : Object)
      → x.type ≡ OType.imm_int
      → (floor f ret x ≡ ok x)
        × (ceiling f ret x ≡ ok x)
        × (truncate f ret x ≡ ok x)
        × (round f ret x ≡ ok x)
  unfolding floor ceiling truncate round rounded int_gt validate_number is_complex
  rounding-int ret x t = (rw t refl, rw t refl, rw t (ground arith), rw t refl)

  -- The three tests of an integer, whose value is a word of 32 bits, say which of zero, positive
  -- and negative it is.
  pub signs-int :
      (x : Object)
      → x.type ≡ OType.imm_int
      → x.value < 2 ^ 32
      → (is_zero f x ≡ ok (bool_const (eq_ℤ (s32 x.value) (pos 0))))
        × (is_positive f x ≡ ok (bool_const (ltb_ℤ (pos 0) (s32 x.value))))
        × (is_negative f x ≡ ok (bool_const (ltb_ℤ (s32 x.value) (pos 0))))
  unfolding is_zero is_positive is_negative int_lt int_eq int_gt validate_number is_complex
  signs-int x t h = (rw t (ground arith), rw t (ground arith), rw t (ground arith))

  -- On a rational `_is_positive` answers whether it has the positive type and a numerator that is
  -- not 0.
  pub is_positive-rational :
      (x : Object)
      → is_rational x.type ≡ true
      → is_positive f x
        ≡ ok (bool_const (same x.type OType.rational_pos && not (numerator x.value == 0)))
  unfolding is_positive int_gt validate_number gt_rational cast_imm_int_to_rational
  is_positive-rational x r = ground (arith, r)

  -- `_is_negative` of a positive rational ends in `PANIC`: `_int_eq` refuses 0, which it casts to a
  -- negative rational.
  pub is_negative-panics : (x : Object) → x.type ≡ OType.rational_pos → is_negative f x ≡ panic
  unfolding is_negative int_lt int_eq eq_rational validate_number cast_imm_int_to_rational
  is_negative-panics x t = rw t (ground arith)
