-- ===== src/Number/Cast.antt =====
-- type_cast.c and inc/type_cast.h: the casts between the kinds of numbers.
use animula.Prelude.{ℕ, ◌+◌, ◌*◌, ◌/◌, ◌%◌, ◌^◌, Bool, true, not, ltb, ◌==◌, if◌then◌else◌}
use animula.Prelude.Int.{ℤ, pos, negsuc, ltb_ℤ, signed, abs}
use animula.Run.{Run, ok, panic, ◌>>◌, require}
use animula.Object.{OType, Object, same, s32, word, is_rational}
use animula.Number.Float.{FloatOps}

-- The two halves of a rational's value, and the value of two halves: `|` joins disjoint bits.
abbrev pub numerator : ℕ → ℕ
numerator v = v / 2 ^ 16 % 2 ^ 16

abbrev pub denominator : ℕ → ℕ
denominator v = v % 2 ^ 16

abbrev pub pack : ℕ → ℕ → ℕ
pack n d = (n * 2 ^ 16 + d) % 2 ^ 32

-- The 48 upper bits are all 0 or all 1.
abbrev pub only_16_bit_signed : ℤ → Bool
only_16_bit_signed (pos n) = ltb n (2 ^ 16)
only_16_bit_signed (negsuc n) = ltb n (2 ^ 16)

-- `VALIDATE_NUMERATOR`.
validate_numerator : ℤ → Run (Unit {0})
validate_numerator n = require (not (ltb 65535 (abs n)))

unfoldable pub cast_imm_int_to_rational : Object → Run Object
unfolding validate_numerator
cast_imm_int_to_rational v = if is_rational v.type then ok v else do
  require (same v.type OType.imm_int)
  let n = s32 v.value
  validate_numerator n
  ok (
      if ltb_ℤ (pos 0) n
      then record v { type = OType.rational_pos; value = pack (abs n) 1 }
      else record v { type = OType.rational_neg; value = pack (abs n) 1 })

unfoldable pub cast_rational_to_imm_int_if_denominator_is_1 : Object → Run Object
cast_rational_to_imm_int_if_denominator_is_1 v =
    if denominator v.value == 1
    then if same v.type OType.rational_pos
      then ok (record v { type = OType.imm_int; value = word (pos (numerator v.value)) })
      else if same v.type OType.rational_neg
      then ok (record v { type = OType.imm_int; value = word (signed true (numerator v.value)) })
      else panic
    else ok v

module _ (f : FloatOps) where
  unfoldable pub cast_rational_to_float : Object → Run Object
  cast_rational_to_float v = do
    require (is_rational v.type)
    let c = f.of_int (signed (not (same v.type OType.rational_pos)) (numerator v.value))
    let d = f.of_int (pos (denominator v.value))
    ok (record v { type = OType.real; value = f.div c d })

  unfoldable pub cast_int_or_fractal_to_float : Object → Run Object
  unfolding cast_rational_to_float
  cast_int_or_fractal_to_float v =
      if same v.type OType.real
      then ok v
      else if is_rational v.type
      then cast_rational_to_float v
      else if same v.type OType.imm_int
      then ok (record v { type = OType.real; value = f.of_int (s32 v.value) })
      else panic
