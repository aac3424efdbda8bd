-- ===== src/Vm/Alloc/Insert.antt =====
-- The heap that a list is made in: the cells of the list, and an insertion in front of it.
use animula.Prelude.{
  ℕ, ◌+◌, ◌<◌, ◌≤◌, ◌≡◌, ◌≢◌, refl, sym, ap, ◌∙◌, false, ◌==◌, Option, some, List, [], ◌∷◌,
  Bool-cases, inl, inr, arith,
}
use animula.Run.{ok}
use animula.Object.{Object}
use animula.Store.{ListNode, ListHead, Store, put, fetch-some, put_same, put_other}
use animula.Lists.Chain.{Cells, start, has, Chain, Holds, Chain-put}
use animula.Vm.Cells.{empty_list, insert_object}

-- The cells of a list show these objects.
pub Shows : Store → Cells → List Object → Type 0
Shows s [] [] = Unit
Shows s [] (o ∷ os) = ⊥
Shows s (x ∷ xs) [] = ⊥
Shows s ((a, c) ∷ xs) (o ∷ os) = (s.objects c ≡ some o) × Shows s xs os

-- The heap has no block behind its next address.
pub record IsHeap (s : Store) : Type 0 where
  pub not_zero : s.next ≢ 0
  pub nodes_below : (q : ℕ) (n : ListNode) → s.nodes q ≡ some n → q < s.next
  pub lists_below : (q : ℕ) (l : ListHead) → s.lists q ≡ some l → q < s.next
  pub objects_below : (q : ℕ) (o : Object) → s.objects q ≡ some o → q < s.next

-- The list at `p` has these objects, in order.
pub ListOf : Store → (p : ℕ) → List Object → Type 0
unfolding Shows
ListOf s p os = (xs : Cells) × Holds s p xs × Shows s xs os

-- The store behind the insertion in front of a list with this head.
abbrev pub inserted : (l : ℕ) → ListHead → Object → Store → Store
inserted l head o s =
    let k = s.next + 1 in
    record s {
      next = s.next + 1 + 1;
      objects = put s.objects s.next o;
      nodes =
          put
            (put (put s.nodes k (record { next = 0; obj = 0 })) k
              (record { next = head.first; obj = 0 }))
            k (record { next = head.first; obj = s.next });
      lists = put s.lists l (record head { first = k });
    }

pub insert_object-ok :
    (l : ℕ) (head : ListHead) (o : Object) (s : Store)
    → s.lists l ≡ some head
    → insert_object l o s ≡ ok (s.next, inserted l head o s)
insert_object-ok l head o s at =
    let k = s.next + 1 in
    let n₀ : ListNode = record { next = 0; obj = 0 } in
    let n₁ : ListNode = record { next = head.first; obj = 0 } in
    rw
      (
        fetch-some s.lists l head at,
        fetch-some (put s.nodes k n₀) k n₀ (put_same s.nodes k n₀),
        fetch-some (put (put s.nodes k n₀) k n₁) k n₁ (put_same (put s.nodes k n₀) k n₁),
      )
      refl

put_below {ℓ} :
    {A : Type ℓ} (m : ℕ → Option A) (p n q : ℕ) (a b : A)
    → ((q : ℕ) (c : A) → m q ≡ some c → q < n)
    → p < n
    → put m p a q ≡ some b
    → q < n
put_below m p n q a b below h e = elim (Bool-cases (q == p)) [
  | inl same ↦ ground (arith, same, h)
  | inr other ↦ below q b (sym (put_other m p q a (λ z. ground (arith, z, other))) ∙ e)
]

below_more {ℓ} :
    {A : Type ℓ} (m : ℕ → Option A) (n k : ℕ)
    → ((q : ℕ) (c : A) → m q ≡ some c → q < n)
    → n ≤ k
    → (q : ℕ) (c : A) → m q ≡ some c
    → q < k
below_more m n k below h q c e = omega (arith, below q c e, h)

pub inserted-IsHeap :
    (l : ℕ) (head : ListHead) (o : Object) (s : Store)
    → IsHeap s
    → s.lists l ≡ some head
    → IsHeap (inserted l head o s)
inserted-IsHeap l head o s is at =
    let k = s.next + 1 in
    let e : k < k + 1 = omega arith in
    let f : s.next < k + 1 = omega arith in
    let nodes = below_more s.nodes s.next (k + 1) is.nodes_below (omega arith) in
    let objects = below_more s.objects s.next (k + 1) is.objects_below (omega arith) in
    let n₀ : ListNode = record { next = 0; obj = 0 } in
    let n₁ : ListNode = record { next = head.first; obj = 0 } in
    record {
      not_zero = λ z. omega (arith, z);
      nodes_below = λ q n.
          put_below (put (put s.nodes k n₀) k n₁) k (k + 1) q _ n
            (λ q₁ c₁.
              put_below (put s.nodes k n₀) k (k + 1) q₁ n₁ c₁
                (λ q₂ c₂. put_below s.nodes k (k + 1) q₂ n₀ c₂ nodes e) e)
            e;
      lists_below = λ q c.
          put_below s.lists l (k + 1) q _ c
            (below_more s.lists s.next (k + 1) is.lists_below (omega arith))
            (omega (arith, is.lists_below l head at));
      objects_below = λ q c. put_below s.objects s.next (k + 1) q o c objects f;
    }

outside :
    (m : ℕ → Option ListNode) (k : ℕ) {xs : Cells}
    → ((q : ℕ) (n : ListNode) → m q ≡ some n → q < k)
    → Chain m 0 xs
    → has k xs ≡ false
outside m k below Chain.nil = refl
outside m k below (Chain.cons {a} ne at c) = ground (arith, below a _ at, outside m k below c)

Shows-kept :
    (s s' : Store) (xs : Cells) (os : List Object)
    → ((q : ℕ) (o : Object) → s.objects q ≡ some o → s'.objects q ≡ some o)
    → Shows s xs os
    → Shows s' xs os
unfolding Shows
Shows-kept s s' [] [] kept h = tt
Shows-kept s s' [] (o ∷ os) kept h = h
Shows-kept s s' (x ∷ xs) [] kept h = h
Shows-kept s s' ((a, c) ∷ xs) (o ∷ os) kept (at, rest) =
    (kept c o at, Shows-kept s s' xs os kept rest)

-- An object in front of a list.
pub inserted-ListOf :
    (l : ℕ) (o : Object) (os : List Object) (s : Store)
    → IsHeap s
    → ListOf s l os
    → (s' : Store) × (insert_object l o s ≡ ok (s.next, s')) × IsHeap s' × ListOf s' l (o ∷ os)
unfolding ListOf Shows
inserted-ListOf l o os s is (xs, hold, shows) =
    let k = s.next + 1 in
    let head = hold.head in
    let n₀ : ListNode = record { next = 0; obj = 0 } in
    let n₁ : ListNode = record { next = head.first; obj = 0 } in
    let n₂ : ListNode = record { next = head.first; obj = s.next } in
    let m₁ = put s.nodes k n₀ in
    let m₂ = put m₁ k n₁ in
    let out =
      outside s.nodes k (below_more s.nodes s.next k is.nodes_below (omega arith)) hold.chain in
    let new : put m₂ k n₂ k ≡ some (record { next = start xs 0; obj = s.next }) =
      put_same m₂ k n₂ ∙ ap (λ f. some (record { next = f; obj = s.next })) hold.first in
    let kept : (q : ℕ) (p : Object) → s.objects q ≡ some p → put s.objects s.next o q ≡ some p =
      λ q p e. put_other s.objects s.next q o (λ z. omega (arith, z, is.objects_below q p e)) ∙ e in
    (
      inserted l head o s,
      insert_object-ok l head o s hold.at,
      inserted-IsHeap l head o s is hold.at,
      (
        (k, s.next) ∷ xs,
        record {
          head = record head { first = k };
          at = put_same s.lists l (record head { first = k });
          first = refl;
          chain =
              Chain.cons (λ z. omega (arith, z)) new
                (Chain-put k n₂ (Chain-put k n₁ (Chain-put k n₀ hold.chain out) out) out);
        },
        (put_same s.objects s.next o, Shows-kept s (inserted l head o s) xs os kept shows),
      ),
    )

pub empty-IsHeap : (gc : ℕ) (s : Store) → IsHeap s → IsHeap ((empty_list gc s).1)
empty-IsHeap gc s is =
    let k : ListHead = record { gc = gc; non_shared = 0; first = 0 } in
    let e : s.next < s.next + 1 = omega arith in
    record {
      not_zero = λ z. omega (arith, z);
      nodes_below = below_more s.nodes s.next (s.next + 1) is.nodes_below (omega arith);
      lists_below = λ q c.
          put_below s.lists s.next (s.next + 1) q k c
            (below_more s.lists s.next (s.next + 1) is.lists_below (omega arith)) e;
      objects_below = below_more s.objects s.next (s.next + 1) is.objects_below (omega arith);
    }

pub empty-ListOf : (gc : ℕ) (s : Store) → ListOf ((empty_list gc s).1) s.next []
unfolding ListOf Shows
empty-ListOf gc s = (
  [],
  record {
    head = record { gc = gc; non_shared = 0; first = 0 };
    at = put_same s.lists s.next (record { gc = gc; non_shared = 0; first = 0 });
    first = refl;
    chain = Chain.nil;
  },
  tt,
)
