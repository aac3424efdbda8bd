-- ===== src/Number/Gcd/Laws.antt =====
-- The loop of `gcd` and `gcd64` (inc/lib.h).
use native.Mathlib.Nat
use animula.Prelude.{
  ℕ, zero, suc, ◌+◌, ◌%◌, ◌^◌, ◌<◌, ◌∣◌, ◌≡◌, refl, inl, inr, arith, ◌==◌, Bool-cases,
}
use animula.Run.{Run, ok, fault}
use animula.Prelude.Int.{pos}
use animula.Number.Gcd.{gcd_loop, gcd64, gcd}

pub record IsGcd (u v : ℕ) (r : Run ℕ) : Type 0 where
  pub g : ℕ
  pub returns : r ≡ ok g
  pub positive : 0 < g
  pub left : g ∣ u
  pub right : g ∣ v
  pub greatest : (k : ℕ) → k ∣ u → k ∣ v → k ∣ g

-- The divisors of `u` and `v` are those of `u % v` and `v`.
IsGcd-mod : {u v : ℕ} {r : Run ℕ} → IsGcd (u % v) (v % (u % v)) r → IsGcd u v r
IsGcd-mod {u} {v} i =
    let right : i.g ∣ v = (Nat.dvd-mod_iff _ i.left).0 i.right in
    record {
      g = i.g;
      returns = i.returns;
      positive = i.positive;
      left = (Nat.dvd-mod_iff _ right).0 i.left;
      right = right;
      greatest =
          λ k a b. let m = (Nat.dvd-mod_iff k b).1 a in i.greatest k m ((Nat.dvd-mod_iff k m).1 b);
    }

-- With fuel above its second argument, which is not 0, the loop returns the greatest common
-- divisor of its arguments, and does not run out of fuel.
pub gcd_loop-IsGcd : (fuel u v : ℕ) → 0 < v → v < fuel → IsGcd u v (gcd_loop fuel u v)
unfolding gcd_loop
gcd_loop-IsGcd zero u v p h = absurd (omega arith)
gcd_loop-IsGcd (suc fuel) u v p h = elim (Bool-cases (u % v == 0)) [
  | inl done ↦ record {
    g = v;
    returns = ground arith;
    positive = p;
    left = Nat.dvd_of_mod-eq-zero v (ground arith);
    right = Nat.dvd_refl v;
    greatest = λ k a b. b;
  }
  | inr more ↦ elim (Bool-cases (v % (u % v) == 0)) [
    | inl done ↦ record {
      g = u % v;
      returns = ground arith;
      positive = ground arith;
      left = (Nat.dvd-mod_iff _ (Nat.dvd_of_mod-eq-zero (u % v) (ground arith))).0 (Nat.dvd_refl _);
      right = Nat.dvd_of_mod-eq-zero (u % v) (ground arith);
      greatest = λ k a b. (Nat.dvd-mod_iff k b).1 a;
    }
    | inr again ↦
        let step : gcd_loop (suc fuel) u v ≡ gcd_loop fuel (u % v) (v % (u % v)) = ground arith in
        rw step
          (IsGcd-mod (gcd_loop-IsGcd fuel (u % v) (v % (u % v)) (ground arith) (ground arith)))
  ]
]

-- The two functions on arguments that are not negative.
pub gcd64-IsGcd : (u v : ℕ) → 0 < v → IsGcd u v (gcd64 (pos u) (pos v))
unfolding gcd64
gcd64-IsGcd u v p = gcd_loop-IsGcd (v + 1) u v p (omega arith)

pub gcd-narrow : (u v : ℕ) → u < 2 ^ 31 → v < 2 ^ 31 → gcd (pos u) (pos v) ≡ gcd_loop (v + 1) u v
unfolding gcd
gcd-narrow u v hu hv = ground arith

pub gcd-IsGcd : (u v : ℕ) → u < 2 ^ 31 → 0 < v → v < 2 ^ 31 → IsGcd u v (gcd (pos u) (pos v))
gcd-IsGcd u v hu p hv = rw (gcd-narrow u v hu hv) (gcd_loop-IsGcd (v + 1) u v p (omega arith))

-- A second argument of 0 is a division by 0.
pub gcd_loop-zero : (u : ℕ) → gcd_loop 1 u 0 ≡ fault
unfolding gcd_loop
gcd_loop-zero u = refl

pub IsGcd-comm : {u v : ℕ} {r : Run ℕ} → IsGcd u v r → IsGcd v u r
IsGcd-comm i = record {
  g = i.g;
  returns = i.returns;
  positive = i.positive;
  left = i.right;
  right = i.left;
  greatest = λ k a b. i.greatest k b a;
}
