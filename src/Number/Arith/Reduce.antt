-- ===== src/Number/Arith/Reduce.antt =====
-- The common end of `_int_add` and `_int_mul` on rationals (primitives.c).
use native.Mathlib.Nat
use mathlib.Core.Path.{subst}
use animula.Prelude.{
  ℕ, zero, suc, ◌*◌, ◌/◌, ◌<◌, ◌^◌, ◌∣◌, ◌≡◌, refl, ◌⊎◌, inl, inr, Bool, true, false, arith, ltb,
  ◌==◌, Bool-cases, ◌&&◌,
}
use animula.Prelude.Int.{pos, signed}
use animula.Run.{Run, ok}
use animula.Object.{Object, OType, word}
use animula.Number.Cast.{pack, cast_rational_to_imm_int_if_denominator_is_1}
use animula.Number.Gcd.Laws.{IsGcd}
use animula.Number.Arith.{Fraction, operand, store_fraction, reduce}

-- `o` is the number (-1) ^ neg * num / den, in lowest terms.
pub record Denotes (o : Object) (neg : Bool) (num den : ℕ) : Type 0 where
  pub parts : Fraction
  pub reads : operand o ≡ ok parts
  pub sign : parts.neg ≡ neg
  pub value : parts.num * den ≡ num * parts.den
  pub lowest : (k : ℕ) → k ∣ parts.num → k ∣ parts.den → k ≡ 1

store_fraction-operand :
    (ret : Object) (neg : Bool) (num den : ℕ)
    → 0 < num
    → num < 2 ^ 16
    → den < 2 ^ 16
    → (o : Object) × (store_fraction ret neg num den ≡ ok o)
      × (operand o ≡ ok (record { neg = neg; num = num; den = den }))
unfolding store_fraction operand cast_rational_to_imm_int_if_denominator_is_1
store_fraction-operand ret true num den p hn hd = elim (Bool-cases (den == 1)) [
  | inl whole ↦ (
    record ret { type = OType.imm_int; value = word (signed true num) },
    ground arith,
    ground arith,
  )
  | inr rest ↦
      (record ret { type = OType.rational_neg; value = pack num den }, ground arith, ground arith)
]
store_fraction-operand ret false num den p hn hd = elim (Bool-cases (den == 1)) [
  | inl whole ↦
      (record ret { type = OType.imm_int; value = word (pos num) }, ground arith, ground arith)
  | inr rest ↦
      (record ret { type = OType.rational_pos; value = pack num den }, ground arith, ground arith)
]

lowest_terms :
    (g n d k : ℕ) → 0 < g → ((m : ℕ) → m ∣ g * n → m ∣ g * d → m ∣ g) → k ∣ n → k ∣ d → k ≡ 1
lowest_terms g n d k p greatest a b = Nat.eq-one_of_dvd-one (
    Nat.dvd_of_mul-dvd-mul_left {k = g} k p (
      rw (Nat.mul-one)
        (greatest (g * k) (Nat.mul-dvd-mul_left k g a) (Nat.mul-dvd-mul_left k g b))))

-- `g` is the greatest common divisor of the two numbers.
pub record IsGreatest (num den g : ℕ) : Type 0 where
  pub of_num : g ∣ num
  pub of_den : g ∣ den
  pub greatest : (m : ℕ) → m ∣ num → m ∣ den → m ∣ g

-- How `reduce` ends for `num / den`: with that number in lowest terms, or, where a half of that
-- reduced number does not fit 16 bits, with the floats.
abbrev pub Reduces : (neg : Bool) → (num den : ℕ) → (float_case : Run Object) → Run Object → Type 0
Reduces neg num den float_case r =
    ((o : Object) × (r ≡ ok o) × Denotes o neg num den)
    ⊎ ((r ≡ float_case)
        × ((g : ℕ) × IsGreatest num den g × ((65535 < num / g) ⊎ (65535 < den / g))))

pub pos_quotient : (g q n : ℕ) → g * q ≡ n → 0 < n → 0 < q
pos_quotient g zero n e p = absurd (omega arith)
pos_quotient g (suc q) n e p = omega arith

cross : (g q r n d : ℕ) → g * q ≡ n → g * r ≡ d → q * d ≡ n * r
cross g q r n d e h = rw (← e, ← h) (omega arith)

-- `reduce` divides by the greatest common divisor that the loop returned.
pub reduce-Reduces :
    (ret : Object) (divisor : Run ℕ) (neg : Bool) (num den : ℕ) (float_case : Run Object)
    → 0 < num
    → IsGcd den num divisor
    → Reduces neg num den float_case (reduce ret divisor neg num den float_case)
unfolding reduce
reduce-Reduces ret divisor neg num den float_case p i =
    let en : i.g * (num / i.g) ≡ num = Nat.mul-div_cancel' i.g i.right in
    let ed : i.g * (den / i.g) ≡ den = Nat.mul-div_cancel' i.g i.left in
    elim (Bool-cases (ltb (num / i.g) (2 ^ 16) && ltb (den / i.g) (2 ^ 16))) [
      | inl fits ↦
          let stored =
            store_fraction-operand ret neg (num / i.g) (den / i.g)
              (pos_quotient i.g (num / i.g) num en p) (ground arith) (ground arith) in
          inl (
            stored.0,
            (rw (i.returns, fits) stored.1),
            record {
              parts = record { neg = neg; num = num / i.g; den = den / i.g };
              reads = stored.2;
              sign = refl;
              value = cross i.g (num / i.g) (den / i.g) num den en ed;
              lowest = λ k a b.
                  lowest_terms i.g (num / i.g) (den / i.g) k i.positive
                    (λ m u v. i.greatest m (subst (◌∣◌ m) ed v) (subst (◌∣◌ m) en u)) a b;
            },
          )
      | inr wide ↦ inr (
        rw (i.returns, wide) refl,
        (
          i.g,
          record { of_num = i.right; of_den = i.left; greatest = λ m u v. i.greatest m v u },
          ground arith,
        ),
      )
    ]
