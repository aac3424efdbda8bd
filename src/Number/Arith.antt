-- ===== src/Number/Arith.antt =====
-- primitives.c: `_int_add`, `_int_sub`, `_int_mul`, `_int_div`, `_int_modulo`, `_int_remainder`.
-- A function takes the object that it fills, `ret`, and its operands, which it copies.
pub mod Reduce
pub mod Exact
pub mod Ints
pub mod Div
use animula.Prelude.{
  ℕ, ◌+◌, ◌-◌, ◌*◌, ◌/◌, ◌%◌, ◌^◌, Bool, true, false, not, ◌||◌, ◌&&◌, ltb, ◌==◌, if◌then◌else◌,
  Option, none, some,
}
use animula.Prelude.Int.{ℤ, pos, negsuc, ltb_ℤ, leb_ℤ, eq_ℤ, signed, abs, ◌+ℤ◌}
use mathlib.Core.Bool.{xor}
use animula.Run.{Run, ok, panic, fault, ◌>>=◌, ◌>>◌, require}
use animula.Object.{OType, Object, same, s32, word, is_rational}
use animula.Number.Float.{FloatOps}
use animula.Number.Gcd.{gcd, gcd64}
use animula.Number.Cast.{
  numerator, denominator, pack, only_16_bit_signed, cast_int_or_fractal_to_float,
  cast_rational_to_imm_int_if_denominator_is_1,
}

-- `xn`, `xd` and `x_sign` of `_int_add` and `_int_mul`; `neg` is a sign of -1.
pub record Fraction : Type 0 where
  pub neg : Bool
  pub num : ℕ
  pub den : ℕ

abbrev pub rational_parts : Object → Fraction
rational_parts x = record {
  neg = not (same x.type OType.rational_pos);
  num = numerator x.value;
  den = denominator x.value;
}

unfoldable pub operand : Object → Run Fraction
operand x =
    if is_rational x.type
    then ok (rational_parts x)
    else if same x.type OType.imm_int
    then ok (record { neg = not (ltb_ℤ (pos 0) (s32 x.value)); num = abs (s32 x.value); den = 1 })
    else panic

-- A product of 32-bit variables that is undefined when it leaves their range.
abbrev mul_s32 : ℕ → ℕ → Run ℕ
mul_s32 a b = if ltb (a * b) (2 ^ 31) then ok (a * b) else fault

-- The quotient by the common divisor, as a rational or an integer if its halves fit 16 bits.
pub store_fraction : Object → (neg : Bool) → (num den : ℕ) → Run Object
store_fraction ret neg num den = cast_rational_to_imm_int_if_denominator_is_1 (record ret {
  type = if neg then OType.rational_neg else OType.rational_pos;
  value = pack num den;
})

pub reduce : Object → Run ℕ → (neg : Bool) → (num den : ℕ) → (float_case : Run Object) → Run Object
reduce ret divisor neg num den float_case = do
  g ← divisor
  if only_16_bit_signed (pos (num / g)) && only_16_bit_signed (pos (den / g))
      then store_fraction ret neg (num / g) (den / g)
      else float_case

-- A sum or product of two integers, computed in 64 bits, is a float if 32 bits do not hold it.
unfoldable pub store_int : Object → ℤ → (float_case : Run Object) → Run Object
store_int ret result float_case =
    if eq_ℤ (s32 (word result)) result
    then ok (record ret { type = OType.imm_int; value = word result })
    else float_case

-- An operand of `_int_div`; nothing stands for the jump to the floats at the least integer.
unfoldable pub div_operand : Object → Run (Option Fraction)
div_operand x =
    if is_rational x.type
    then ok (some (rational_parts x))
    else if same x.type OType.imm_int
    then if eq_ℤ (s32 x.value) (negsuc (2 ^ 31 - 1))
      then ok none
      else ok
          (some (record { neg = ltb_ℤ (s32 x.value) (pos 0); num = abs (s32 x.value); den = 1 }))
    else panic

div_reduced : Object → (neg : Bool) → (nn dd : ℕ) → (float_case : Run Object) → Run Object
div_reduced ret neg nn dd float_case =
    if ltb 65535 nn || ltb 65535 dd then float_case else store_fraction ret neg nn dd

pub div_fractions : Object → Fraction → Fraction → (float_case : Run Object) → Run Object
unfolding div_reduced
div_fractions ret a b float_case = do
  nn ← mul_s32 a.num b.den
  dd ← mul_s32 a.den b.num
  g ← gcd64 (pos nn) (pos dd)
  require (not (dd / g == 0))
  div_reduced ret (xor a.neg b.neg) (nn / g) (dd / g) float_case

module _ (f : FloatOps) where
  -- The code behind the labels `_int_add_float_add_float` and the like.
  pub float_op : (ℕ → ℕ → ℕ) → Object → Object → Object → Run Object
  float_op op ret x y = do
    a ← cast_int_or_fractal_to_float f x
    b ← cast_int_or_fractal_to_float f y
    ok (record ret { type = OType.real; value = op a.value b.value })

  add_rational : Object → Object → Object → Run Object
  unfolding operand ◌+ℤ◌
  add_rational ret x y = do
    a ← operand x
    b ← operand y
    let den = a.den * b.den
    let sum = signed a.neg (a.num * b.den) +ℤ signed b.neg (b.num * a.den)
    reduce ret (gcd (pos den) (pos (abs sum))) (not (ltb_ℤ (pos 0) sum)) (abs sum) den
        (float_op f.add ret x y)

  unfoldable pub int_add : Object → Object → Object → Run Object
  unfolding float_op store_fraction reduce add_rational store_int
  int_add ret x y =
      if same x.type OType.complex_inexact || same y.type OType.complex_inexact
      then panic
      else if same x.type OType.complex_exact || same y.type OType.complex_exact
      then panic
      else if same x.type OType.real || same y.type OType.real
      then float_op f.add ret x y
      else if is_rational x.type || is_rational y.type
      then add_rational ret x y
      else if same x.type OType.imm_int && same y.type OType.imm_int
      then store_int ret (s32 x.value +ℤ s32 y.value) (float_op f.add ret x y)
      else panic

  -- `_int_sub` adds the opposite of its second operand.
  unfoldable pub opposite : Object → Run Object
  opposite y =
      if same y.type OType.real
      then ok (record y { value = f.neg y.value })
      else if same y.type OType.rational_pos
      then ok (record y { type = OType.rational_neg })
      else if same y.type OType.rational_neg
      then ok (record y { type = OType.rational_pos })
      else if same y.type OType.imm_int
      then if eq_ℤ (s32 y.value) (negsuc (2 ^ 31 - 1))
        then (do z ← cast_int_or_fractal_to_float f y; ok (record z { value = f.neg z.value }))
        else ok
            (record y { value = word (signed (ltb_ℤ (pos 0) (s32 y.value)) (abs (s32 y.value))) })
      else panic

  unfoldable pub int_sub : Object → Object → Object → Run Object
  int_sub ret x y =
      if same x.type OType.complex_inexact || same y.type OType.complex_inexact
      then panic
      else if same x.type OType.complex_exact || same y.type OType.complex_exact
      then panic
      else do z ← opposite y; int_add ret x z

  -- The operands of a product of which one is a float; the casts of the two sides differ.
  mul_left : Object → Run ℕ
  mul_left x =
      if same x.type OType.real
      then ok x.value
      else if is_rational x.type
      then (let a = rational_parts x in
          ok (f.div (f.of_int (signed a.neg a.num)) (f.of_int (pos a.den))))
      else if same x.type OType.imm_int
      then ok (f.of_int (s32 x.value))
      else panic

  mul_right : Object → Run ℕ
  mul_right y =
      if same y.type OType.real
      then ok y.value
      else if is_rational y.type
      then (let b = rational_parts y in
          ok (
            f.div (f.mul (f.of_int (signed b.neg 1)) (f.of_int (pos b.num)))
              (f.of_int (pos b.den))))
      else if same y.type OType.imm_int
      then ok (f.of_int (s32 y.value))
      else panic

  mul_real : Object → Object → Object → Run Object
  unfolding mul_left mul_right
  mul_real ret x y = do
    a ← mul_left x
    b ← mul_right y
    ok (record ret { type = OType.real; value = f.mul a b })

  mul_rational : Object → Object → Object → Run Object
  unfolding operand
  mul_rational ret x y = do
    a ← operand x
    b ← operand y
    let den = a.den * b.den
    let num = a.num * b.num
    reduce ret (gcd64 (pos den) (pos num)) (xor a.neg b.neg) num den (float_op f.mul ret x y)

  unfoldable pub int_mul : Object → Object → Object → Run Object
  unfolding float_op mul_real mul_rational store_int reduce store_fraction
  int_mul ret x y =
      if same x.type OType.complex_inexact || same y.type OType.complex_inexact
      then panic
      else if same x.type OType.complex_exact || same y.type OType.complex_exact
      then panic
      else if same x.type OType.real || same y.type OType.real
      then mul_real ret x y
      else if is_rational x.type || is_rational y.type
      then mul_rational ret x y
      else if same x.type OType.imm_int && same y.type OType.imm_int
      then store_int ret
          (signed (xor (ltb_ℤ (s32 x.value) (pos 0)) (ltb_ℤ (s32 y.value) (pos 0)))
            (abs (s32 x.value) * abs (s32 y.value)))
          (float_op f.mul ret x y)
      else panic

  -- `_int_div_float_div_float`.
  pub div_float : Object → Object → Object → Run Object
  div_float ret x y = do
    a ← cast_int_or_fractal_to_float f x
    b ← cast_int_or_fractal_to_float f y
    require (not (f.eq b.value 0))
    ok (record ret { type = OType.real; value = f.div a.value b.value })

  div_rational : Object → Object → Object → Run Object
  unfolding div_operand div_fractions
  div_rational ret x y = do
    a ← div_operand x
    elim a [
      | none ↦ div_float ret x y
      | some a' ↦ do
        b ← div_operand y
        elim b [ none ↦ div_float ret x y | some b' ↦ div_fractions ret a' b' (div_float ret x y) ]
    ]

  pub div_ints : Object → Object → Object → Run Object
  unfolding div_reduced
  div_ints ret x y =
      let n = s32 x.value in
      let d = s32 y.value in
      if eq_ℤ n (negsuc (2 ^ 31 - 1)) || eq_ℤ d (negsuc (2 ^ 31 - 1)) then div_float ret x y else do
        require (not (abs d == 0))
        g ← gcd (pos (abs n)) (pos (abs d))
        div_reduced ret (xor (ltb_ℤ n (pos 0)) (ltb_ℤ d (pos 0))) (abs n / g) (abs d / g)
            (div_float ret x y)

  unfoldable pub int_div : Object → Object → Object → Run Object
  unfolding div_float store_fraction div_rational div_ints
  int_div ret x y =
      if same x.type OType.complex_inexact || same y.type OType.complex_inexact
      then panic
      else if same x.type OType.complex_exact || same y.type OType.complex_exact
      then panic
      else if same x.type OType.real || same y.type OType.real
      then div_float ret x y
      else if is_rational x.type || is_rational y.type
      then div_rational ret x y
      else if same x.type OType.imm_int && same y.type OType.imm_int
      then div_ints ret x y
      else panic

-- C's `x % y`: the sign is that of `x`. It is undefined at 0, and where the quotient overflows.
unfoldable pub int_remainder : ℤ → ℤ → Run ℤ
int_remainder x y =
    if eq_ℤ y (pos 0) || eq_ℤ x (negsuc (2 ^ 31 - 1)) && eq_ℤ y (negsuc 0)
    then fault
    else ok (signed (ltb_ℤ x (pos 0)) (abs x % abs y))

unfoldable pub int_modulo : ℤ → ℤ → Run ℤ
unfolding int_remainder ◌+ℤ◌
int_modulo x y = do
  m ← int_remainder x y
  ok (
      if ltb_ℤ y (pos 0)
      then if leb_ℤ m (pos 0) then m else m +ℤ y
      else if leb_ℤ (pos 0) m
      then m
      else m +ℤ y)
