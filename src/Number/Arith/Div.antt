-- ===== src/Number/Arith/Div.antt =====
-- `_int_div` (primitives.c).
use mathlib.Core.Bool.{xor}
use native.Mathlib.Nat
use animula.Prelude.{
  ℕ, ◌*◌, ◌/◌, ◌<◌, ◌^◌, ◌≡◌, ◌≢◌, Bool, true, false, arith, ◌||◌, some, ◌==◌, lt→ltb, ◌-◌,
}
use animula.Prelude.Int.{pos, negsuc, abs, ltb_ℤ}
use animula.Run.{Run, ok, fault}
use animula.Object.{Object, is_rational, s32}
use animula.Number.Float.{FloatOps}
use animula.Number.Gcd.{gcd64}
use animula.Number.Gcd.Laws.{IsGcd, gcd-IsGcd, gcd64-IsGcd, gcd_loop-zero, IsGcd-comm}
use animula.Number.Arith.{
  Fraction, reduce, div_operand, div_reduced, div_fractions, div_float, div_rational, div_ints,
  int_div,
}
use animula.Number.Arith.Ints.{IsInt, FitsS32, s32-FitsS32, abs-lt, ne_of_eq_ℤ}
use animula.Number.Arith.Exact.{HasExactCode}
use animula.Number.Arith.Reduce.{Reduces, reduce-Reduces, pos_quotient}

-- `x` is a rational with a denominator, or an integer other than the least one.
pub record IsOperand (x : Object) (a : Fraction) : Type 0 where
  pub reads : div_operand x ≡ ok (some a)
  pub den_pos : 0 < a.den

operand_code : (x : Object) (a : Fraction) → div_operand x ≡ ok (some a) → HasExactCode x
unfolding div_operand
operand_code x a h = ground arith

div_reduced-reduce :
    (ret : Object) (g : ℕ) (neg : Bool) (n d : ℕ) (float_case : Run Object)
    → div_reduced ret neg (n / g) (d / g) float_case ≡ reduce ret (ok g) neg n d float_case
unfolding div_reduced reduce
div_reduced-reduce ret g neg n d float_case = ground arith

-- The common end of `div_fractions` and `div_ints` is that of sums and products.
module _ {num den : ℕ} {divisor : Run ℕ} (i : IsGcd num den divisor) where
  den-not_zero : 0 < den → (den / i.g == 0) ≡ false
  den-not_zero p =
      let q : 0 < den / i.g =
        pos_quotient i.g (den / i.g) den (Nat.mul-div_cancel' i.g i.right) p in
      ground arith

  div_reduced-Reduces :
      (ret : Object) (neg : Bool) (float_case : Run Object)
      → 0 < num
      → Reduces neg num den float_case (div_reduced ret neg (num / i.g) (den / i.g) float_case)
  div_reduced-Reduces ret neg float_case p =
      rw (div_reduced-reduce, ← i.returns)
        (reduce-Reduces ret divisor neg num den float_case p (IsGcd-comm i))

-- The quotient of a fraction by another, neither of them 0, if 31 bits hold the cross products.
div_fractions-Reduces :
    (ret : Object) (a b : Fraction) (float_case : Run Object)
    → 0 < a.num * b.den
    → 0 < a.den * b.num
    → a.num * b.den < 2 ^ 31
    → a.den * b.num < 2 ^ 31
    → Reduces
        (xor a.neg b.neg)
        (a.num * b.den)
        (a.den * b.num)
        float_case
        (div_fractions ret a b float_case)
unfolding div_fractions
div_fractions-Reduces ret a b float_case pn pd hn hd =
    let i = gcd64-IsGcd (a.num * b.den) (a.den * b.num) pd in
    rw (lt→ltb _ _ hn, lt→ltb _ _ hd, i.returns, den-not_zero i pd)
      (div_reduced-Reduces i ret (xor a.neg b.neg) float_case pn)

module _ (f : FloatOps) (ret x y : Object) where
  int_div-dispatch :
      HasExactCode x
      → HasExactCode y
      → (is_rational x.type || is_rational y.type) ≡ true
      → int_div f ret x y ≡ div_rational f ret x y
  unfolding int_div
  int_div-dispatch p q r = ground arith

  div_rational-fractions :
      (a b : Fraction)
      → div_operand x ≡ ok (some a)
      → div_operand y ≡ ok (some b)
      → div_rational f ret x y ≡ div_fractions ret a b (div_float f ret x y)
  unfolding div_rational
  div_rational-fractions a b p q = rw (p, q)

  -- The quotient of two exact numbers, one of them a rational and neither of them 0, is the
  -- quotient in lowest terms, or that of their floats where a half of the reduced quotient does not
  -- fit 16 bits. The cross products fit 31 bits.
  pub int_div-Reduces :
      {a b : Fraction}
      → IsOperand x a
      → IsOperand y b
      → (is_rational x.type || is_rational y.type) ≡ true
      → 0 < a.num * b.den
      → 0 < a.den * b.num
      → a.num * b.den < 2 ^ 31
      → a.den * b.num < 2 ^ 31
      → Reduces
          (xor a.neg b.neg)
          (a.num * b.den)
          (a.den * b.num)
          (div_float f ret x y)
          (int_div f ret x y)
  int_div-Reduces {a} {b} p q r pn pd hn hd =
      rw
        (
          int_div-dispatch (operand_code x a p.reads) (operand_code y b q.reads) r,
          div_rational-fractions a b p.reads q.reads,
        )
        (div_fractions-Reduces ret a b (div_float f ret x y) pn pd hn hd)

  -- A quotient of which one side is a rational and the divisor is 0 is a division by 0 in `gcd64`,
  -- and never reaches the test for 0 behind it. The cross product that is the numerator fits 31
  -- bits.
  pub int_div-fault :
      {a b : Fraction}
      → IsOperand x a
      → IsOperand y b
      → (is_rational x.type || is_rational y.type) ≡ true
      → a.num * b.den < 2 ^ 31
      → b.num ≡ 0
      → int_div f ret x y ≡ fault
  unfolding div_fractions gcd64
  int_div-fault {a} {b} p q r hn zero = rw (
    int_div-dispatch (operand_code x a p.reads) (operand_code y b q.reads) r,
    div_rational-fractions a b p.reads q.reads,
    lt→ltb _ _ hn,
    zero,
    Nat.mul-zero,
    gcd_loop-zero,
  )

  int_div-dispatch_ints : IsInt x → IsInt y → int_div f ret x y ≡ div_ints f ret x y
  unfolding int_div
  int_div-dispatch_ints p q = simp (p, q)

  div_ints-Reduces :
      FitsS32 (s32 x.value)
      → FitsS32 (s32 y.value)
      → s32 x.value ≢ negsuc (2 ^ 31 - 1)
      → s32 y.value ≢ negsuc (2 ^ 31 - 1)
      → 0 < abs (s32 x.value)
      → 0 < abs (s32 y.value)
      → Reduces
          (xor (ltb_ℤ (s32 x.value) (pos 0)) (ltb_ℤ (s32 y.value) (pos 0)))
          (abs (s32 x.value))
          (abs (s32 y.value))
          (div_float f ret x y)
          (div_ints f ret x y)
  unfolding div_ints
  div_ints-Reduces fx fy hx hy px py =
      let i =
        gcd-IsGcd (abs (s32 x.value)) (abs (s32 y.value)) (abs-lt _ fx hx) py (abs-lt _ fy hy) in
      let nonzero : (abs (s32 y.value) == 0) ≡ false = ground arith in
      rw (ne_of_eq_ℤ _ _ hx, ne_of_eq_ℤ _ _ hy, nonzero, i.returns)
        (div_reduced-Reduces i ret _ (div_float f ret x y) px)

  -- The quotient of two integers, neither of them 0 or the least one, is their quotient in lowest
  -- terms, or that of their floats where a half of the reduced quotient does not fit 16 bits.
  pub int_div-ints :
      IsInt x
      → IsInt y
      → s32 x.value ≢ negsuc (2 ^ 31 - 1)
      → s32 y.value ≢ negsuc (2 ^ 31 - 1)
      → 0 < abs (s32 x.value)
      → 0 < abs (s32 y.value)
      → Reduces
          (xor (ltb_ℤ (s32 x.value) (pos 0)) (ltb_ℤ (s32 y.value) (pos 0)))
          (abs (s32 x.value))
          (abs (s32 y.value))
          (div_float f ret x y)
          (int_div f ret x y)
  int_div-ints p q hx hy px py =
      rw (int_div-dispatch_ints p q)
        (div_ints-Reduces (s32-FitsS32 x.value) (s32-FitsS32 y.value) hx hy px py)
