-- ===== src/Number/Arith/Ints.antt =====
-- Arithmetic on immediate integers (primitives.c).
use mathlib.Core.Bool.{xor, and-false}
use animula.Prelude.{
  ℕ, zero, suc, ◌+◌, ◌*◌, ◌/◌, ◌-◌, if◌then◌else◌, ◌==◌, ◌%◌, ◌<◌, ◌≤◌, ◌^◌, ◌∣◌, ◌≡◌, ◌≢◌, refl,
  ◌⊎◌, inl, inr, true, false, arith, ◌&&◌, Bool-cases,
}
use animula.Prelude.Int.{
  ℤ, pos, negsuc, signed, abs, ltb_ℤ, eq_ℤ, ◌+ℤ◌, ◌-ℤ◌, pos_part, neg_part, eq_of_parts, int_laws,
}
use animula.Run.{Run, ok, ◌>>=◌}
use animula.Object.{OType, Object, s32, word}
use native.Mathlib.Nat
use animula.Number.Float.{FloatOps}
use animula.Number.Cast.{cast_int_or_fractal_to_float}
use animula.Number.Arith.{store_int, float_op, opposite, int_add, int_sub, int_mul, int_modulo}

-- The integers of 32 bits.
abbrev pub FitsS32 : ℤ → Type 0
FitsS32 z = (pos_part z < 2 ^ 31) × (neg_part z ≤ 2 ^ 31)

abbrev pub IsInt : Object → Type 0
IsInt x = x.type ≡ OType.imm_int

-- The outcome of an operation on integers: the integer `z` if 32 bits hold it, or else the floats.
abbrev pub Stores : Object → ℤ → (float_case : Run Object) → Run Object → Type 0
Stores ret z float_case r =
    (FitsS32 z × ((o : Object) × (r ≡ ok o) × IsInt o × (s32 o.value ≡ z)))
    ⊎ (¬ FitsS32 z × (r ≡ float_case))

s32-word : (z : ℤ) → FitsS32 z → s32 (word z) ≡ z
s32-word (pos n) h = ground arith
s32-word (negsuc n) h = ground arith

kept_below : (z : ℤ) → eq_ℤ (s32 (word z)) z ≡ true → pos_part z < 2 ^ 31
kept_below (pos n) h = ground arith
kept_below (negsuc n) h = omega arith

kept_above : (z : ℤ) → eq_ℤ (s32 (word z)) z ≡ true → neg_part z ≤ 2 ^ 31
kept_above (pos n) h = omega arith
kept_above (negsuc n) h = ground arith

kept_of_fits : (z : ℤ) → FitsS32 z → eq_ℤ (s32 (word z)) z ≡ true
kept_of_fits (pos n) h = ground arith
kept_of_fits (negsuc n) h = ground arith

store_int-Stores :
    (ret : Object) (z : ℤ) (float_case : Run Object)
    → Stores ret z float_case (store_int ret z float_case)
unfolding store_int
store_int-Stores ret z float_case = elim (Bool-cases (eq_ℤ (s32 (word z)) z)) [
  | inl kept ↦
      let fits : FitsS32 z = (kept_below z kept, kept_above z kept) in
      inl (
        fits,
        (
          record ret { type = OType.imm_int; value = word z },
          (rw kept refl),
          refl,
          s32-word z fits,
        ),
      )
  | inr lost ↦ inr ((λ fits. cc (kept_of_fits z fits)), (rw lost refl))
]

-- The product of two integers.
abbrev pub product : ℤ → ℤ → ℤ
product x y = signed (xor (ltb_ℤ x (pos 0)) (ltb_ℤ y (pos 0))) (abs x * abs y)

-- The float that `op` makes of two integers.
abbrev pub float_result : FloatOps → (ℕ → ℕ → ℕ) → Object → ℤ → ℤ → Run Object
float_result f op ret x y =
    ok (record ret { type = OType.real; value = op (f.of_int x) (f.of_int y) })

module _ (f : FloatOps) (ret x y : Object) (p : IsInt x) (q : IsInt y) where
  float_op_ints :
      (op : ℕ → ℕ → ℕ) → float_op f op ret x y ≡ float_result f op ret (s32 x.value) (s32 y.value)
  unfolding float_op cast_int_or_fractal_to_float
  float_op_ints op = simp (p, q)

  int_add-dispatch :
      int_add f ret x y ≡ store_int ret (s32 x.value +ℤ s32 y.value) (float_op f f.add ret x y)
  unfolding int_add
  int_add-dispatch = simp (p, q)

  int_mul-dispatch :
      int_mul f ret x y
      ≡ store_int ret (product (s32 x.value) (s32 y.value)) (float_op f f.mul ret x y)
  unfolding int_mul
  int_mul-dispatch = simp (p, q)

  -- The sum of two integers is the integer if 32 bits hold it, and else the sum of their floats.
  pub int_add-Stores :
      Stores ret
        (s32 x.value +ℤ s32 y.value)
        (float_result f f.add ret (s32 x.value) (s32 y.value))
        (int_add f ret x y)
  int_add-Stores = rw (int_add-dispatch, float_op_ints f.add) (store_int-Stores ret _ _)

  -- The product of two integers is the integer if 32 bits hold it, and else the product of their
  -- floats.
  pub int_mul-Stores :
      Stores ret
        (product (s32 x.value) (s32 y.value))
        (float_result f f.mul ret (s32 x.value) (s32 y.value))
        (int_mul f ret x y)
  int_mul-Stores = rw (int_mul-dispatch, float_op_ints f.mul) (store_int-Stores ret _ _)

pub s32-FitsS32 : (w : ℕ) → FitsS32 (s32 w)
s32-FitsS32 w = (ground arith, ground arith)

pub ne_of_eq_ℤ : (a b : ℤ) → a ≢ b → eq_ℤ a b ≡ false
ne_of_eq_ℤ a b h = ground (arith, eq_of_parts a b)

s32-word-neg :
    (z : ℤ)
    → FitsS32 z
    → z ≢ negsuc (2 ^ 31 - 1)
    → s32 (word (signed (ltb_ℤ (pos 0) z) (abs z))) ≡ pos 0 -ℤ z
unfolding ◌-ℤ◌
s32-word-neg (pos n) h ne = ground arith
s32-word-neg (negsuc n) h ne = ground arith

-- The opposite of an integer other than the least one.
opposite-IsInt :
    (f : FloatOps) (y : Object)
    → IsInt y
    → s32 y.value ≢ negsuc (2 ^ 31 - 1)
    → (z : Object) × (opposite f y ≡ ok z) × IsInt z × (s32 z.value ≡ pos 0 -ℤ s32 y.value)
unfolding opposite
opposite-IsInt f y p h = (
  record y { value = word (signed (ltb_ℤ (pos 0) (s32 y.value)) (abs (s32 y.value))) },
  simp (p, ne_of_eq_ℤ (s32 y.value) (negsuc (2 ^ 31 - 1)) h),
  p,
  s32-word-neg (s32 y.value) (s32-FitsS32 y.value) h,
)

+ℤ-neg : (a b : ℤ) → a +ℤ (pos 0 -ℤ b) ≡ a -ℤ b
+ℤ-neg a b = omega int_laws

sub_dispatch :
    (f : FloatOps) (ret x y : Object)
    → IsInt x
    → IsInt y
    → int_sub f ret x y ≡ (opposite f y >>= λ z. int_add f ret x z)
unfolding int_sub
sub_dispatch f ret x y p q = simp (p, q)

-- The difference of two integers is the integer if 32 bits hold it, and else the sum of the floats
-- of `x` and of the opposite of `y`. `y` is not the least integer.
pub int_sub-Stores :
    (f : FloatOps) (ret x y : Object)
    → IsInt x
    → IsInt y
    → s32 y.value ≢ negsuc (2 ^ 31 - 1)
    → Stores ret
        (s32 x.value -ℤ s32 y.value)
        (float_result f f.add ret (s32 x.value) (pos 0 -ℤ s32 y.value))
        (int_sub f ret x y)
int_sub-Stores f ret x y p q h =
    let (z, e, r, v) = opposite-IsInt f y q h in
    rw (sub_dispatch f ret x y p q, e, ← +ℤ-neg, ← v) (int_add-Stores f ret x z p r)

dvd_sub_mod : (n d : ℕ) → d ∣ n - n % d
dvd_sub_mod n d =
    let e : n - n % d ≡ d * (n / d) = omega (arith, Nat.div-add-mod n d) in
    rw e (Nat.dvd-mul_right d (n / d))

dvd_sub_mod_add : (n d : ℕ) → d ∣ n - n % d + d
dvd_sub_mod_add n d = Nat.dvd-add d (dvd_sub_mod n d) (Nat.dvd_refl d)

-- `m` is `x` modulo `y`: it differs from `x` by a multiple of `y`, is nearer to 0 than `y`, and
-- has the sign of `y` or is 0.
pub record IsModulo (x y m : ℤ) : Type 0 where
  pub below : abs m < abs y
  pub congruent : abs y ∣ abs (x -ℤ m)
  pub not_above : (pos_part m ≡ 0) ⊎ (neg_part y ≡ 0)
  pub not_below : (neg_part m ≡ 0) ⊎ (pos_part y ≡ 0)

IsModulo-of :
    (n d : ℕ) (x y m : ℤ)
    → (abs (x -ℤ m) ≡ n - n % d) ⊎ (abs (x -ℤ m) ≡ n - n % d + d)
    → abs y ≡ d
    → abs m < abs y
    → (pos_part m ≡ 0) ⊎ (neg_part y ≡ 0)
    → (neg_part m ≡ 0) ⊎ (pos_part y ≡ 0)
    → IsModulo x y m
IsModulo-of n d x y m (inl e) ey b u v = record {
  below = b;
  congruent = rw (e, ey) (dvd_sub_mod n d);
  not_above = u;
  not_below = v;
}
IsModulo-of n d x y m (inr e) ey b u v = record {
  below = b;
  congruent = rw (e, ey) (dvd_sub_mod_add n d);
  not_above = u;
  not_below = v;
}

-- What `_int_modulo` returns where C defines its remainder.
modulo_value : ℤ → ℤ → ℤ
modulo_value (pos n) (pos d) = pos (n % d)
modulo_value (pos n) (negsuc d) = if n % suc d == 0 then pos 0 else negsuc (suc d - n % suc d - 1)
modulo_value (negsuc n) (pos d) = if suc n % d == 0 then pos 0 else pos (d - suc n % d)
modulo_value (negsuc n) (negsuc d) = signed true (suc n % suc d)

modulo_value-IsModulo : (x y : ℤ) → y ≢ pos 0 → IsModulo x y (modulo_value x y)
unfolding modulo_value ◌-ℤ◌
modulo_value-IsModulo (pos n) (pos zero) h = absurd (h refl)
modulo_value-IsModulo (pos n) (pos (suc d)) h =
    IsModulo-of n (suc d) _ _ _ (ground arith) refl (ground arith) (ground arith) (ground arith)
modulo_value-IsModulo (pos n) (negsuc d) h =
    IsModulo-of n (suc d) _ _ _ (ground arith) refl (ground arith) (ground arith) (ground arith)
modulo_value-IsModulo (negsuc n) (pos zero) h = absurd (h refl)
modulo_value-IsModulo (negsuc n) (pos (suc d)) h =
    IsModulo-of (suc n) (suc d) _ _ _ (ground arith) refl (ground arith) (ground arith)
      (ground arith)
modulo_value-IsModulo (negsuc n) (negsuc d) h =
    IsModulo-of (suc n) (suc d) _ _ _ (ground arith) refl (ground arith) (ground arith)
      (ground arith)

defined_test :
    (x y : ℤ)
    → (x ≢ negsuc (2 ^ 31 - 1)) ⊎ (y ≢ negsuc 0)
    → (eq_ℤ x (negsuc (2 ^ 31 - 1)) && eq_ℤ y (negsuc 0)) ≡ false
defined_test x y (inl h) = rw (ne_of_eq_ℤ x (negsuc (2 ^ 31 - 1)) h)
defined_test x y (inr h) = rw (ne_of_eq_ℤ y (negsuc 0) h, and-false)

int_modulo-ok :
    (x y : ℤ)
    → eq_ℤ y (pos 0) ≡ false
    → (eq_ℤ x (negsuc (2 ^ 31 - 1)) && eq_ℤ y (negsuc 0)) ≡ false
    → int_modulo x y ≡ ok (modulo_value x y)
unfolding int_modulo modulo_value
int_modulo-ok (pos n) (pos d) h k = rw (h, k) (ground arith)
int_modulo-ok (pos n) (negsuc d) h k = rw (h, k) (ground arith)
int_modulo-ok (negsuc n) (pos d) h k = rw (h, k) (ground arith)
int_modulo-ok (negsuc n) (negsuc d) h k = rw (h, k) (ground arith)

-- `_int_modulo` returns the modulus wherever C defines the remainder.
pub int_modulo-IsModulo :
    (x y : ℤ)
    → y ≢ pos 0
    → (x ≢ negsuc (2 ^ 31 - 1)) ⊎ (y ≢ negsuc 0)
    → (m : ℤ) × (int_modulo x y ≡ ok m) × IsModulo x y m
int_modulo-IsModulo x y nonzero defined = (
  modulo_value x y,
  int_modulo-ok x y (ne_of_eq_ℤ y (pos 0) nonzero) (defined_test x y defined),
  modulo_value-IsModulo x y nonzero,
)

pub abs-lt : (z : ℤ) → FitsS32 z → z ≢ negsuc (2 ^ 31 - 1) → abs z < 2 ^ 31
abs-lt (pos n) h ne = ground arith
abs-lt (negsuc n) h ne = ground arith
