-- ===== src/Number/Tests.antt =====
-- The theorems on numbers at concrete numbers.
use animula.Prelude.{
  ℕ, ◌+◌, ◌-◌, ◌*◌, ◌/◌, ◌%◌, ◌^◌, ◌≡◌, refl, inl, Bool, true, false, arith, ◌==◌, ltb,
}
use animula.Prelude.Int.{◌-ℤ◌, ℤ, pos, negsuc, ◌+ℤ◌}
use animula.Run.{ok, fault}
use animula.Object.{OType, Object, s32, word, imm}
use animula.Number.Float.{FloatOps}
use animula.Number.Cast.{pack}
use animula.Number.Gcd.{gcd_loop}
use animula.Number.Gcd.Laws.{IsGcd, gcd_loop-IsGcd}
use animula.Number.Arith.{
  Fraction, operand, div_operand, float_op, div_float, int_add, int_sub, int_mul, int_div,
  int_modulo,
}
use animula.Number.Arith.Reduce.{Reduces}
use animula.Number.Arith.Exact.{IsExact, int_add-Reduces, int_add-fault, int_mul-Reduces}
use animula.Number.Arith.Ints.{
  Stores, float_result, int_add-Stores, int_mul-Stores, int_sub-Stores, IsModulo,
  int_modulo-IsModulo,
}
use animula.Number.Arith.Div.{int_div-Reduces, int_div-ints}
use animula.Number.Compare.{int_gt}
use animula.Number.Compare.Laws.{Orders, compare-Orders, int_gt-exact}
use mathlib.Core.Bool.{xor}

-- Operations on words that stand for those on floats.
abbrev float_ops : FloatOps
float_ops = record {
  of_int = word;
  to_int = s32;
  add = λ a b. (a + b) % 2 ^ 32;
  mul = λ a b. a * b % 2 ^ 32;
  div = λ a b. a / b;
  neg = λ a. (2 ^ 32 - a) % 2 ^ 32;
  eq = λ a b. a == b;
  gt = λ a b. ltb b a;
  floor = λ a. a;
  ceil = λ a. a;
  round = λ a. a;
}

abbrev ret : Object
ret = record { type = OType.none; gc = 0; value = 0 }

abbrev rational : Bool → ℕ → ℕ → Object
rational true n d = record { type = OType.rational_neg; gc = 0; value = pack n d }
rational false n d = record { type = OType.rational_pos; gc = 0; value = pack n d }

abbrev half : Object
half = rational false 1 2

abbrev minus_half : Object
minus_half = rational true 1 2

abbrev third : Object
third = rational false 1 3

abbrev fraction : Bool → ℕ → ℕ → Fraction
fraction s n d = record { neg = s; num = n; den = d }

half-IsExact : IsExact half (fraction false 1 2)
unfolding operand
half-IsExact = record { reads = refl; den_pos = omega arith }

third-IsExact : IsExact third (fraction false 1 3)
unfolding operand
third-IsExact = record { reads = refl; den_pos = omega arith }

gcd_loop-IsGcd_example : IsGcd 12 18 (gcd_loop 19 12 18)
gcd_loop-IsGcd_example = gcd_loop-IsGcd 19 12 18 (omega arith) (omega arith)

int_add-Reduces_example :
    Reduces false 5 6
      (float_op float_ops float_ops.add ret half third)
      (int_add float_ops ret half third)
unfolding ◌+ℤ◌
int_add-Reduces_example =
    int_add-Reduces float_ops ret half third half-IsExact third-IsExact refl (omega arith)
      (omega arith) (omega arith)

int_add-fault_example : int_add float_ops ret half minus_half ≡ fault
unfolding operand ◌+ℤ◌
int_add-fault_example =
    int_add-fault float_ops ret half minus_half {a = fraction false 1 2} {b = fraction true 1 2}
      half-IsExact (record { reads = refl; den_pos = omega arith }) refl refl (omega arith)

int_mul-Reduces_example :
    Reduces false 1 6
      (float_op float_ops float_ops.mul ret half third)
      (int_mul float_ops ret half third)
unfolding xor
int_mul-Reduces_example =
    int_mul-Reduces float_ops ret half third half-IsExact third-IsExact refl (omega arith)

int_div-Reduces_example :
    Reduces false 3 2 (div_float float_ops ret half third) (int_div float_ops ret half third)
unfolding div_operand xor
int_div-Reduces_example =
    int_div-Reduces float_ops ret half third {a = fraction false 1 2} {b = fraction false 1 3}
      (record { reads = refl; den_pos = omega arith })
      (record { reads = refl; den_pos = omega arith }) refl (omega arith) (omega arith)
      (omega arith) (omega arith)

int_div-ints_example :
    Reduces true 6 4
      (div_float float_ops ret (imm (negsuc 5)) (imm (pos 4)))
      (int_div float_ops ret (imm (negsuc 5)) (imm (pos 4)))
unfolding xor
int_div-ints_example =
    int_div-ints float_ops ret (imm (negsuc 5)) (imm (pos 4)) refl refl (ground arith)
      (ground arith) (omega arith) (omega arith)

int_add-Stores_example :
    Stores ret
      (pos 5)
      (float_result float_ops float_ops.add ret (pos 2) (pos 3))
      (int_add float_ops ret (imm (pos 2)) (imm (pos 3)))
unfolding ◌+ℤ◌
int_add-Stores_example = int_add-Stores float_ops ret (imm (pos 2)) (imm (pos 3)) refl refl

int_mul-Stores_example :
    Stores ret
      (negsuc 5)
      (float_result float_ops float_ops.mul ret (negsuc 1) (pos 3))
      (int_mul float_ops ret (imm (negsuc 1)) (imm (pos 3)))
unfolding xor
int_mul-Stores_example = int_mul-Stores float_ops ret (imm (negsuc 1)) (imm (pos 3)) refl refl

int_modulo-IsModulo_example :
    (m : ℤ) × (int_modulo (negsuc 6) (pos 3) ≡ ok m) × IsModulo (negsuc 6) (pos 3) m
int_modulo-IsModulo_example =
    int_modulo-IsModulo (negsuc 6) (pos 3) (ground arith) (inl (ground arith))

int_sub-Stores_example :
    Stores ret
      (negsuc 0)
      (float_result float_ops float_ops.add ret (pos 2) (negsuc 2))
      (int_sub float_ops ret (imm (pos 2)) (imm (pos 3)))
unfolding ◌-ℤ◌
int_sub-Stores_example =
    int_sub-Stores float_ops ret (imm (pos 2)) (imm (pos 3)) refl refl (ground arith)

compare-Orders_example : Orders float_ops (imm (negsuc 0)) (imm (pos 1))
compare-Orders_example =
    compare-Orders float_ops (imm (negsuc 0)) (imm (pos 1)) refl refl (omega arith) (omega arith)

int_gt-exact_example :
    (x' y' : Object) × (int_gt float_ops half third ≡ ok (true, x', y'))
    × (operand x' ≡ ok (fraction false 1 2))
    × (operand y' ≡ ok (fraction false 1 3))
int_gt-exact_example =
    int_gt-exact float_ops half third half-IsExact third-IsExact refl (omega arith) (omega arith)
