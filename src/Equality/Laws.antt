-- ===== src/Equality/Laws.antt =====
-- primitives.c: `_equal` on lists of integers, and `_eq` beside `_eqv`.
use animula.Prelude.{
  ℕ, zero, suc, ◌<◌, ◌≡◌, ◌≢◌, refl, Bool, true, false, ◌==◌, if◌then◌else◌, none, some, List, [],
  ◌∷◌, length, Bool-cases, inl, inr, arith,
}
use animula.Run.{Run, ok, fault}
use animula.Object.{OType, Object}
use animula.Number.Float.{FloatOps}
use animula.Number.Compare.{int_eq}
use animula.Store.{Store, fetch-some, fetch-none, not_null}
use animula.Lists.Chain.{Cells, start, start-null, Chain, cons, Holds}
use animula.Lists.Laws.{list_object}
use animula.Equality.{eq, eqv, equal_nodes, equal}

-- The object at the address is the integer with the word `v`.
abbrev pub Integer : Store → (o v : ℕ) → Type 0
Integer s o v =
    (gc : ℕ) × (s.objects o ≡ some (record { type = OType.imm_int; gc = gc; value = v }))

abbrev pub Integers : Store → Cells → List ℕ → Type 0
Integers s [] [] = Unit
Integers s [] (v ∷ vs) = ⊥
Integers s (x ∷ xs) [] = ⊥
Integers s ((a, o) ∷ xs) (v ∷ vs) = Integer s o v × Integers s xs vs

-- Whether the second list begins with the first one; `ret` is the answer for an empty first list. A
-- second list that ends before it has differed is read behind its end.
abbrev pub begins : (ret : Bool) → List ℕ → List ℕ → Run Bool
begins ret [] ws = ok ret
begins ret (v ∷ vs) [] = fault
begins ret (v ∷ vs) (w ∷ ws) = if v == w then begins true vs ws else ok false

abbrev pub lists_equal : List ℕ → List ℕ → Run Bool
lists_equal [] [] = ok true
lists_equal [] (w ∷ ws) = ok false
lists_equal (v ∷ vs) ws = begins false (v ∷ vs) ws

module _ (f : FloatOps) (s : Store) (null : s.nodes 0 ≡ none) where
  equal-ints :
      (fuel a b v w : ℕ) → Integer s a v → Integer s b w → equal f (suc fuel) s a b ≡ ok (v == w)
  unfolding equal eqv int_eq
  equal-ints fuel a b v w (gc, here) (gc', there) =
      rw (fetch-some s.objects a _ here, fetch-some s.objects b _ there) refl

  equal_nodes-begins :
      (fuel k : ℕ) (ret : Bool) (xs ys : Cells) (vs ws : List ℕ)
      → Chain s.nodes 0 xs
      → Chain s.nodes 0 ys
      → Integers s xs vs
      → Integers s ys ws
      → length xs < k
      → equal_nodes f (equal f (suc fuel) s) k s (start xs 0) (start ys 0) ret ≡ begins ret vs ws
  unfolding equal_nodes
  equal_nodes-begins fuel zero ret xs ys vs ws c d is is' h = absurd (omega (arith, h))
  equal_nodes-begins fuel (suc k) ret [] ys [] ws c d is is' h = refl
  equal_nodes-begins fuel (suc k) ret [] ys (v ∷ vs) ws c d is is' h = elim is [ ]
  equal_nodes-begins fuel (suc k) ret (x ∷ xs) ys [] ws c d is is' h = elim is [ ]
  equal_nodes-begins fuel (suc k) ret (x ∷ xs) [] (v ∷ vs) (w ∷ ws) c d is is' h = elim is' [ ]
  equal_nodes-begins fuel (suc k) ret (x ∷ xs) (y ∷ ys) (v ∷ vs) [] c d is is' h = elim is' [ ]
  equal_nodes-begins fuel (suc k) ret ((a, o) ∷ xs) [] (v ∷ vs) [] (cons ne at c) d is is' h =
      rw (not_null a ne, fetch-some s.nodes a _ at, fetch-none s.nodes 0 null) refl
  equal_nodes-begins fuel (suc k) ret ((a, o) ∷ xs) ((b, q) ∷ ys) (v ∷ vs) (w ∷ ws) (cons ne at c)
        (cons ne' at' d) (here, is) (there, is') h =
      rw
        (
          not_null a ne,
          fetch-some s.nodes a _ at,
          fetch-some s.nodes b _ at',
          equal-ints fuel o q v w here there,
        )
        (elim (Bool-cases (v == w)) [
          | inl e ↦ rw e (equal_nodes-begins fuel k true xs ys vs ws c d is is' (omega arith))
          | inr e ↦ rw e refl
        ])

-- `_equal` of two lists of integers answers true for two empty lists and false for an empty first list
-- with a second one that is not. Of a first list that is not empty it answers whether the second one
-- begins with it, and where the second list ends before a difference it reads the null node behind
-- it. The heap has no node at the null pointer, and the fuel is more than the length of the first
-- list.
pub equal-lists :
    (f : FloatOps) (fuel : ℕ) (s : Store) (a b gc₁ gc₂ p₁ p₂ : ℕ) (xs ys : Cells) (vs ws : List ℕ)
    → s.nodes 0 ≡ none
    → s.objects a ≡ some (list_object gc₁ p₁)
    → s.objects b ≡ some (list_object gc₂ p₂)
    → Holds s p₁ xs
    → Holds s p₂ ys
    → Integers s xs vs
    → Integers s ys ws
    → length xs < fuel
    → equal f (suc fuel) s a b ≡ lists_equal vs ws
unfolding equal
equal-lists f zero s a b g₁ g₂ p₁ p₂ xs ys vs ws null here there l₁ l₂ is is' h =
    absurd (omega (arith, h))
equal-lists f (suc fuel) s a b g₁ g₂ p₁ p₂ [] [] [] [] null here there l₁ l₂ is is' h =
    rw
      (
        fetch-some s.objects a _ here,
        fetch-some s.objects b _ there,
        fetch-some s.lists p₁ _ l₁.at,
        fetch-some s.lists p₂ _ l₂.at,
        l₁.first,
        l₂.first,
      )
      refl
equal-lists f (suc fuel) s a b g₁ g₂ p₁ p₂ [] ((y, q) ∷ ys) [] (w ∷ ws) null here there l₁ l₂ is is'
      h =
    rw
      (
        fetch-some s.objects a _ here,
        fetch-some s.objects b _ there,
        fetch-some s.lists p₁ _ l₁.at,
        fetch-some s.lists p₂ _ l₂.at,
        l₁.first,
        l₂.first,
        not_null y (start-null l₂.chain),
      )
      (equal_nodes-begins f s null fuel (suc fuel) false [] ((y, q) ∷ ys) [] (w ∷ ws) l₁.chain
        l₂.chain is is' h)
equal-lists f (suc fuel) s a b g₁ g₂ p₁ p₂ ((x, o) ∷ xs) ys (v ∷ vs) ws null here there l₁ l₂ is is'
      h =
    rw
      (
        fetch-some s.objects a _ here,
        fetch-some s.objects b _ there,
        fetch-some s.lists p₁ _ l₁.at,
        fetch-some s.lists p₂ _ l₂.at,
        l₁.first,
        l₂.first,
        not_null x (start-null l₁.chain),
      )
      (equal_nodes-begins f s null fuel (suc fuel) false ((x, o) ∷ xs) ys (v ∷ vs) ws l₁.chain
        l₂.chain is is' h)
equal-lists f (suc fuel) s a b g₁ g₂ p₁ p₂ [] ys (v ∷ vs) ws null here there l₁ l₂ is is' h =
    elim is [ ]
equal-lists f (suc fuel) s a b g₁ g₂ p₁ p₂ (x ∷ xs) ys [] ws null here there l₁ l₂ is is' h =
    elim is [ ]
equal-lists f (suc fuel) s a b g₁ g₂ p₁ p₂ [] [] [] (w ∷ ws) null here there l₁ l₂ is is' h =
    elim is' [ ]
equal-lists f (suc fuel) s a b g₁ g₂ p₁ p₂ [] (y ∷ ys) [] [] null here there l₁ l₂ is is' h =
    elim is' [ ]

-- Two booleans with one value at different addresses are the same for `_eq`, and not for `_eqv`.
pub eq-eqv-boolean :
    (f : FloatOps) (s : Store) (a b : ℕ) (x y : Object)
    → s.objects a ≡ some x
    → s.objects b ≡ some y
    → x.type ≡ OType.boolean
    → y.type ≡ OType.boolean
    → x.value ≡ y.value
    → a ≢ b
    → (eq s x y ≡ ok true) × (eqv f s a b ≡ ok false)
unfolding eq eqv
eq-eqv-boolean f s a b x y here there t t' e ne =
    let same_value : (y.value == y.value) ≡ true = ground arith in
    let other : (a == b) ≡ false = ground (arith, ne) in
    (
      rw (t, t', e, same_value) refl,
      rw (fetch-some s.objects a _ here, fetch-some s.objects b _ there, t, t', other) refl,
    )
