-- ===== src/Number/Arith/Exact.antt =====
-- `_int_add`, `_int_mul` and `_int_div` (primitives.c) on exact numbers.
use mathlib.Core.Bool.{xor}
use animula.Prelude.{◌*◌, ◌<◌, ◌^◌, ◌≡◌, ◌⊎◌, true, not, arith, ◌||◌}
use animula.Prelude.Int.{ℤ, pos, signed, abs, ltb_ℤ, ◌+ℤ◌}
use animula.Run.{ok, fault}
use animula.Object.{Object, code, is_rational}
use animula.Number.Float.{FloatOps}
use animula.Number.Gcd.{gcd, gcd64}
use animula.Number.Gcd.Laws.{gcd-IsGcd, gcd64-IsGcd, gcd-narrow, gcd_loop-zero}
use animula.Number.Arith.{
  Fraction, operand, reduce, float_op, add_rational, mul_rational, int_add, int_mul,
}
use animula.Number.Arith.Reduce.{Reduces, reduce-Reduces}

-- `x` is an integer or a rational with a denominator, and `a` is what it reads as.
pub record IsExact (x : Object) (a : Fraction) : Type 0 where
  pub reads : operand x ≡ ok a
  pub den_pos : 0 < a.den

abbrev pub HasExactCode : Object → Type 0
HasExactCode x = (code x.type ≡ 0) ⊎ (code x.type ≡ 14) ⊎ (code x.type ≡ 15)

pub exact_code : (x : Object) (a : Fraction) → operand x ≡ ok a → HasExactCode x
unfolding operand
exact_code x a h = ground arith

-- The numerator of a sum over the product of the denominators.
abbrev pub sum_of : Fraction → Fraction → ℤ
sum_of a b = signed a.neg (a.num * b.den) +ℤ signed b.neg (b.num * a.den)

module _ (f : FloatOps) (ret x y : Object) where
  int_add-dispatch :
      HasExactCode x
      → HasExactCode y
      → (is_rational x.type || is_rational y.type) ≡ true
      → int_add f ret x y ≡ add_rational f ret x y
  unfolding int_add
  int_add-dispatch p q r = ground arith

  int_mul-dispatch :
      HasExactCode x
      → HasExactCode y
      → (is_rational x.type || is_rational y.type) ≡ true
      → int_mul f ret x y ≡ mul_rational f ret x y
  unfolding int_mul
  int_mul-dispatch p q r = ground arith

  -- The sum of two exact numbers, one of them a rational, is their sum in lowest terms, or the sum
  -- of their floats where a half of the reduced sum does not fit 16 bits. The sum is not 0, and its
  -- numerator and denominator before the reduction fit the 31 bits of the parameters of `gcd`.
  pub int_add-Reduces :
      {a b : Fraction}
      → IsExact x a
      → IsExact y b
      → (is_rational x.type || is_rational y.type) ≡ true
      → 0 < abs (sum_of a b)
      → abs (sum_of a b) < 2 ^ 31
      → a.den * b.den < 2 ^ 31
      → Reduces
          (not (ltb_ℤ (pos 0) (sum_of a b)))
          (abs (sum_of a b))
          (a.den * b.den)
          (float_op f f.add ret x y)
          (int_add f ret x y)
  unfolding add_rational
  int_add-Reduces {a} {b} p q r nonzero hn hd =
      rw (int_add-dispatch (exact_code x a p.reads) (exact_code y b q.reads) r, p.reads, q.reads)
        (reduce-Reduces ret (gcd (pos (a.den * b.den)) (pos (abs (sum_of a b)))) _ _ _ _ nonzero
          (gcd-IsGcd (a.den * b.den) (abs (sum_of a b)) hd nonzero hn))

  -- Where a rational is added to its opposite, `_int_add` divides by 0 in `gcd`. The product of
  -- their denominators fits 31 bits.
  pub int_add-fault :
      {a b : Fraction}
      → IsExact x a
      → IsExact y b
      → (is_rational x.type || is_rational y.type) ≡ true
      → abs (sum_of a b) ≡ 0
      → a.den * b.den < 2 ^ 31
      → int_add f ret x y ≡ fault
  unfolding add_rational reduce
  int_add-fault {a} {b} p q r zero_sum hd =
      let divides : gcd (pos (a.den * b.den)) (pos (abs (sum_of a b))) ≡ fault =
        rw (zero_sum, gcd-narrow (a.den * b.den) 0 hd (omega arith))
          (gcd_loop-zero (a.den * b.den)) in
      rw (
        int_add-dispatch (exact_code x a p.reads) (exact_code y b q.reads) r,
        p.reads,
        q.reads,
        divides,
      )

  -- The product of two exact numbers, one of them a rational and neither of them 0, is their
  -- product in lowest terms, or the product of their floats where a half of the reduced product
  -- does not fit 16 bits.
  pub int_mul-Reduces :
      {a b : Fraction}
      → IsExact x a
      → IsExact y b
      → (is_rational x.type || is_rational y.type) ≡ true
      → 0 < a.num * b.num
      → Reduces
          (xor a.neg b.neg)
          (a.num * b.num)
          (a.den * b.den)
          (float_op f f.mul ret x y)
          (int_mul f ret x y)
  unfolding mul_rational
  int_mul-Reduces {a} {b} p q r nonzero =
      rw (int_mul-dispatch (exact_code x a p.reads) (exact_code y b q.reads) r, p.reads, q.reads)
        (reduce-Reduces ret (gcd64 (pos (a.den * b.den)) (pos (a.num * b.num))) _ _ _ _ nonzero
          (gcd64-IsGcd (a.den * b.den) (a.num * b.num) nonzero))

  -- Where a rational meets a factor of 0, `_int_mul` divides by 0 in `gcd64`.
  pub int_mul-fault :
      {a b : Fraction}
      → IsExact x a
      → IsExact y b
      → (is_rational x.type || is_rational y.type) ≡ true
      → a.num * b.num ≡ 0
      → int_mul f ret x y ≡ fault
  unfolding mul_rational reduce gcd64
  int_mul-fault {a} {b} p q r zero_product = rw (
    int_mul-dispatch (exact_code x a p.reads) (exact_code y b q.reads) r,
    p.reads,
    q.reads,
    zero_product,
    gcd_loop-zero,
  )
