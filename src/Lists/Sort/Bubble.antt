-- ===== src/Lists/Sort/Bubble.antt =====
-- The passes of a bubble sort on lists of numbers: what they keep, and how many it takes.
use mathlib.Core.List.{Perm}
use mathlib.Core.List.Perm
use animula.Prelude.{
  ℕ, ◌+◌, ◌*◌, ◌≤◌, ◌≡◌, refl, Bool, false, ◌||◌, ltb, if◌then◌else◌, List, [], ◌∷◌, length,
  Bool-cases, inl, inr, ap, arith,
}

-- `x` moves along the list to the first element that is not below it, which then goes on.
abbrev pub bubble : ℕ → List ℕ → List ℕ
bubble x [] = x ∷ []
bubble x (y ∷ ys) = if ltb y x then y ∷ bubble x ys else x ∷ bubble y ys

abbrev pub swaps : ℕ → List ℕ → Bool
swaps x [] = false
swaps x (y ∷ ys) = ltb y x || (if ltb y x then swaps x ys else swaps y ys)

abbrev pub Ascending : List ℕ → Type 0
Ascending [] = Unit
Ascending (x ∷ []) = Unit
Ascending (x ∷ y ∷ ys) = (x ≤ y) × Ascending (y ∷ ys)

-- The number of elements below `x`, and of pairs out of order.
abbrev pub less : ℕ → List ℕ → ℕ
less x [] = 0
less x (y ∷ ys) = (if ltb y x then 1 else 0) + less x ys

abbrev pub inversions : List ℕ → ℕ
inversions [] = 0
inversions (x ∷ xs) = less x xs + inversions xs

less-bubble : (c x : ℕ) (ys : List ℕ) → less c (bubble x ys) ≡ less c (x ∷ ys)
less-bubble c x [] = refl
less-bubble c x (y ∷ ys) = elim (Bool-cases (ltb y x)) [
  | inl e ↦ rw (e, less-bubble c x ys) (omega arith)
  | inr e ↦ rw (e, less-bubble c y ys) refl
]

-- A pass that swaps leaves fewer pairs out of order.
pub inversions-bubble :
    (x : ℕ) (ys : List ℕ)
    → inversions (bubble x ys) + (if swaps x ys then 1 else 0) ≤ inversions (x ∷ ys)
inversions-bubble x [] = omega arith
inversions-bubble x (y ∷ ys) = elim (Bool-cases (ltb y x)) [
  | inl e ↦ rw (e, less-bubble y x ys) (ground (arith, e, inversions-bubble x ys))
  | inr e ↦ rw (e, less-bubble x y ys) (ground (arith, e, inversions-bubble y ys))
]

pub bubble-id : (x : ℕ) (ys : List ℕ) → swaps x ys ≡ false → bubble x ys ≡ x ∷ ys
bubble-id x [] h = refl
bubble-id x (y ∷ ys) h = elim (Bool-cases (ltb y x)) [
  | inl e ↦ absurd (ground (arith, e, h))
  | inr e ↦ rw e (ap (◌∷◌ x) (bubble-id y ys (ground (arith, e, h))))
]

pub bubble-Ascending : (x : ℕ) (ys : List ℕ) → swaps x ys ≡ false → Ascending (x ∷ ys)
bubble-Ascending x [] h = tt
bubble-Ascending x (y ∷ ys) h = (ground (arith, h), bubble-Ascending y ys (ground (arith, h)))

pub bubble-Perm : (x : ℕ) (ys : List ℕ) → Perm (bubble x ys) (x ∷ ys)
bubble-Perm x [] = Perm.refl (x ∷ [])
bubble-Perm x (y ∷ ys) = elim (Bool-cases (ltb y x)) [
  | inl e ↦ rw e (Perm.trans (Perm.cons y (bubble-Perm x ys)) (Perm.swap x y ys))
  | inr e ↦ rw e (Perm.cons x (bubble-Perm y ys))
]

less-length : (x : ℕ) (ys : List ℕ) → less x ys ≤ length ys
less-length x [] = omega arith
less-length x (y ∷ ys) = ground (arith, less-length x ys)

pub inversions-length : (xs : List ℕ) → inversions xs ≤ length xs * length xs
inversions-length [] = omega arith
inversions-length (x ∷ xs) = omega (arith, less-length x xs, inversions-length xs)
