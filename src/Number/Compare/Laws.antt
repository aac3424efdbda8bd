-- ===== src/Number/Compare/Laws.antt =====
-- The comparisons of primitives.c on integers and on exact numbers.
use animula.Prelude.{
  ℕ, ◌*◌, ◌<◌, ◌≤◌, ◌^◌, ◌≡◌, ◌≢◌, refl, inl, inr, Bool, true, false, not, arith, ◌||◌, ◌==◌,
  Bool-cases, ap, ◌∙◌, if◌then◌else◌,
}
use animula.Prelude.Int.{ℤ, pos, signed, abs, ltb_ℤ, leb_ℤ, eq_ℤ}
use animula.Run.{Run, ok, panic}
use animula.Object.{OType, Object, same, s32, is_rational}
use animula.Number.Float.{FloatOps}
use animula.Number.Cast.{pack, cast_imm_int_to_rational}
use animula.Number.Arith.{Fraction, operand, rational_parts}
use animula.Number.Arith.Ints.{IsInt}
use animula.Number.Arith.Exact.{IsExact, HasExactCode, exact_code}
use animula.Number.Compare.{gt_rational, eq_rational, int_eq, int_gt, int_lt, int_le, int_ge}

s32_eq : (v w : ℕ) → v < 2 ^ 32 → w < 2 ^ 32 → (v == w) ≡ eq_ℤ (s32 v) (s32 w)
s32_eq v w hv hw = ground arith

le_of_not_gt : (a b : ℤ) → not (ltb_ℤ b a) ≡ leb_ℤ a b
le_of_not_gt a b = ground arith

lt_of_eq_gt :
    (a b : ℤ) (x y : Object)
    → if◌then◌else◌ {A = Run (Bool × Object × Object)}
        (eq_ℤ a b)
        (ok (false, x, y))
        (ok (not (ltb_ℤ b a), x, y))
      ≡ ok (ltb_ℤ a b, x, y)
lt_of_eq_gt a b x y = ground arith

ge_of_eq_gt :
    (a b : ℤ) (x y : Object)
    → if◌then◌else◌ {A = Run (Bool × Object × Object)}
        (eq_ℤ a b)
        (ok (true, x, y))
        (ok (ltb_ℤ b a, x, y))
      ≡ ok (leb_ℤ b a, x, y)
ge_of_eq_gt a b x y = ground arith

module _ (f : FloatOps) (x y : Object) (p : IsInt x) (q : IsInt y) where
  int_gt-ints : int_gt f x y ≡ ok (ltb_ℤ (s32 y.value) (s32 x.value), x, y)
  unfolding int_gt
  int_gt-ints = simp (p, q)

  int_eq-ints : int_eq f x y ≡ ok (x.value == y.value)
  unfolding int_eq
  int_eq-ints = simp (p, q)

-- What the five comparisons answer on two integers.
pub record Orders (f : FloatOps) (x y : Object) : Type 0 where
  pub eq : int_eq f x y ≡ ok (eq_ℤ (s32 x.value) (s32 y.value))
  pub lt : int_lt f x y ≡ ok (ltb_ℤ (s32 x.value) (s32 y.value), x, y)
  pub gt : int_gt f x y ≡ ok (ltb_ℤ (s32 y.value) (s32 x.value), x, y)
  pub le : int_le f x y ≡ ok (leb_ℤ (s32 x.value) (s32 y.value), x, y)
  pub ge : int_ge f x y ≡ ok (leb_ℤ (s32 y.value) (s32 x.value), x, y)

-- On integers, whose values are words of 32 bits, the five comparisons return the order of the
-- integers, and the four of them that call `_int_gt`, which may cast in place, leave both operands
-- as they are.
pub compare-Orders :
    (f : FloatOps) (x y : Object)
    → IsInt x
    → IsInt y
    → x.value < 2 ^ 32
    → y.value < 2 ^ 32
    → Orders f x y
unfolding int_lt int_le int_ge
compare-Orders f x y p q hx hy =
    let e = int_eq-ints f x y p q in
    let g = int_gt-ints f x y p q in
    let v = s32_eq x.value y.value hx hy in
    let px : same x.type OType.imm_int ≡ true = rw p refl in
    let py : same y.type OType.imm_int ≡ true = rw q refl in
    record {
      eq = rw (e, v);
      lt = rw (e, v, g) (lt_of_eq_gt (s32 x.value) (s32 y.value) x y);
      gt = g;
      le = rw (px, py, g) (ap (λ c. ok (c, x, y)) (le_of_not_gt (s32 x.value) (s32 y.value)));
      ge = rw (px, py, e, v, g) (ge_of_eq_gt (s32 x.value) (s32 y.value) x y);
    }

-- On two rationals `_int_eq` answers only where they have one sign and differ, and it answers
-- false; where they are equal, and where their signs differ, it ends in `PANIC`.
pub int_eq-rationals :
    (f : FloatOps) (x y : Object)
    → is_rational x.type ≡ true
    → is_rational y.type ≡ true
    → int_eq f x y
      ≡ (if same x.type y.type then if x.value == y.value then panic else ok false else panic)
unfolding int_eq eq_rational cast_imm_int_to_rational
int_eq-rationals f x y p q = ground arith

HasExactCode-eq-ne-true :
    (f : FloatOps) (x y : Object)
    → HasExactCode x
    → HasExactCode y
    → (is_rational x.type || is_rational y.type) ≡ true
    → int_eq f x y ≢ ok true
unfolding int_eq eq_rational
HasExactCode-eq-ne-true f x y p q r = ground arith

-- A number is never found equal to a rational: of two exact numbers, one of them a rational,
-- `_int_eq` does not answer true.
pub int_eq-ne-true :
    (f : FloatOps) (x y : Object) {a b : Fraction}
    → IsExact x a
    → IsExact y b
    → (is_rational x.type || is_rational y.type) ≡ true
    → int_eq f x y ≢ ok true
int_eq-ne-true f x y {a} {b} p q =
    HasExactCode-eq-ne-true f x y (exact_code x a p.reads) (exact_code y b q.reads)

-- A cast to a rational keeps the number, if its numerator fits 16 bits.
cast-keeps :
    (x : Object) (a : Fraction)
    → operand x ≡ ok a
    → a.num ≤ 65535
    → (z : Object) × (cast_imm_int_to_rational x ≡ ok z)
      × (is_rational z.type ≡ true)
      × (operand z ≡ ok a)
unfolding cast_imm_int_to_rational operand
cast-keeps x a p h = elim (Bool-cases (is_rational x.type)) [
  | inl rational ↦ (x, ground arith, rational, p)
  | inr int ↦ elim (Bool-cases (ltb_ℤ (pos 0) (s32 x.value))) [
    | inl above ↦ (
      record x { type = OType.rational_pos; value = pack (abs (s32 x.value)) 1 },
      ground arith,
      refl,
      ground arith,
    )
    | inr below ↦ (
      record x { type = OType.rational_neg; value = pack (abs (s32 x.value)) 1 },
      ground arith,
      refl,
      ground arith,
    )
  ]
]

gt_through :
    (f : FloatOps) (x y u v : Object)
    → HasExactCode x
    → HasExactCode y
    → (is_rational x.type || is_rational y.type) ≡ true
    → cast_imm_int_to_rational x ≡ ok u
    → cast_imm_int_to_rational y ≡ ok v
    → int_gt f x y ≡ ok (gt_rational u v, u, v)
unfolding int_gt
gt_through f x y u v p q r cu cv = ground arith

rational_operand : (u : Object) → is_rational u.type ≡ true → operand u ≡ ok (rational_parts u)
unfolding operand
rational_operand u r = rw r

gt_rational-parts :
    (u v : Object) (a b : Fraction)
    → is_rational u.type ≡ true
    → is_rational v.type ≡ true
    → operand u ≡ ok a
    → operand v ≡ ok b
    → gt_rational u v ≡ ltb_ℤ (signed b.neg (b.num * a.den)) (signed a.neg (a.num * b.den))
unfolding gt_rational
gt_rational-parts u v a b ru rv ou ov =
    let ea : rational_parts u ≡ a = cc (rational_operand u ru) in
    let eb : rational_parts v ≡ b = cc (rational_operand v rv) in rw (← ea, ← eb)

-- Two exact numbers, one of them a rational, are compared by their cross products, if their
-- numerators fit 16 bits; the operands are left as rationals of the same value.
pub int_gt-exact :
    (f : FloatOps) (x y : Object) {a b : Fraction}
    → IsExact x a
    → IsExact y b
    → (is_rational x.type || is_rational y.type) ≡ true
    → a.num ≤ 65535
    → b.num ≤ 65535
    → (x' y' : Object) × (int_gt f x y
        ≡ ok (ltb_ℤ (signed b.neg (b.num * a.den)) (signed a.neg (a.num * b.den)), x', y'))
      × (operand x' ≡ ok a)
      × (operand y' ≡ ok b)
int_gt-exact f x y {a} {b} p q r ha hb =
    let (u, cu, ru, ou) = cast-keeps x a p.reads ha in
    let (v, cv, rv, ov) = cast-keeps y b q.reads hb in
    (
      u,
      v,
      gt_through f x y u v (exact_code x a p.reads) (exact_code y b q.reads) r cu cv
          ∙ ap (λ t. ok (t, u, v)) (gt_rational-parts u v a b ru rv ou ov),
      ou,
      ov,
    )
