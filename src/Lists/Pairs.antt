-- ===== src/Lists/Pairs.antt =====
-- list.c: `_car`, `_cdr` and `_cons`.
use animula.Prelude.{
  ℕ, ◌+◌, ◌<◌, ◌≤◌, ◌≡◌, ◌≢◌, refl, ◌∙◌, Bool, true, false, ◌==◌, none, some, ◌∷◌, Bool-cases, inl,
  inr, arith,
}
use animula.Run.{Run, ok, fault}
use animula.Object.{OType, Object, same}
use animula.Store.{
  ListHead, ListNode, Pair, Store, not_null, fetch-some, fetch-none, put, put_same, put_other,
  new_pair,
}
use animula.Lists.{off_stack, cons, car, cdr, generation}
use animula.Lists.Chain.{Cells, start, Chain, Holds}
use animula.Lists.Laws.{list_object}

-- The objects of the heap lie below the next address.
abbrev pub ObjectsBelow : Store → Type 0
ObjectsBelow s = (q : ℕ) (o : Object) → s.objects q ≡ some o → q < s.next

record OffStack (s : Store) (o : Object) (run : Run (ℕ × Store)) : Type 0 where
  address : ℕ
  store : Store
  returns : run ≡ ok (address, store)
  at : store.objects address ≡ some o
  below : address < store.next
  above : s.next ≤ store.next
  frame : (q : ℕ) → q < s.next → store.objects q ≡ s.objects q
  pairs : store.pairs ≡ s.pairs

off_stack-OffStack :
    (s : Store) (p : ℕ) (o : Object)
    → p < s.next
    → s.objects p ≡ some o
    → OffStack s o (off_stack s p)
unfolding off_stack
off_stack-OffStack s p o below at = elim (Bool-cases (o.gc == 0)) [
  | inl e ↦ record {
    address = p;
    store = s;
    returns = rw (fetch-some s.objects p o at, e) refl;
    at = at;
    below = below;
    above = omega arith;
    frame = λ q lt. refl;
    pairs = refl;
  }
  | inr e ↦ record {
    address = s.next;
    store = record s { next = s.next + 1; objects = put s.objects s.next o };
    returns = rw (fetch-some s.objects p o at, e) refl;
    at = put_same s.objects s.next o;
    below = omega arith;
    above = omega arith;
    frame = λ q lt. put_other s.objects s.next q o (λ z. omega (arith, z));
    pairs = refl;
  }
]

-- `_cons` before an object that is not the empty list makes a pair, of which `_car` and `_cdr` return
-- the two objects, in a heap whose objects lie below the next address.
pub cons-car-cdr :
    (init_globals : Bool) (s : Store) (ret : Object) (a b : ℕ) (x y : Object)
    → ObjectsBelow s
    → s.objects a ≡ some x
    → s.objects b ≡ some y
    → same y.type OType.null_obj ≡ false
    → (p : Object) × (s' : Store) × (cons s ret a b ≡ ok (p, s'))
      × (car s' p ≡ ok x)
      × (cdr init_globals s' p ≡ ok (y, s'))
unfolding cons car cdr
cons-car-cdr init s ret a b x y below at at' some_type =
    let first = off_stack-OffStack (new_pair s) a x (omega (arith, below a x at)) at in
    let s₁ = first.store in
    let b_low : b < s.next = below b y at' in
    let second =
      off_stack-OffStack s₁ b y (omega (arith, b_low, first.above))
        (first.frame b (omega arith) ∙ at') in
    let s₂ = second.store in
    let pair : Pair = record { car = first.address; cdr = second.address } in
    let s' : Store = record s₂ { pairs = put s₂.pairs s.next pair } in
    let there = put_same s₂.pairs s.next pair in
    (
      record ret { type = OType.pair; value = s.next },
      s',
      rw (fetch-some s.objects b y at', some_type, first.returns, second.returns) refl,
      rw
          (
            fetch-some (put s₂.pairs s.next pair) s.next pair there,
            fetch-some s₂.objects first.address x
                (second.frame first.address first.below ∙ first.at),
          )
          refl,
      rw
          (
            fetch-some (put s₂.pairs s.next pair) s.next pair there,
            fetch-some s₂.objects second.address y second.at,
          )
          refl,
    )

-- `_cons` before the empty-list constant makes a list of one node that has no object: `_car` of the list
-- reads the null pointer, at which the heap has nothing.
pub cons-car_fault :
    (s : Store) (ret : Object) (a b : ℕ) (y : Object)
    → s.objects b ≡ some y
    → s.objects 0 ≡ none
    → same y.type OType.null_obj ≡ true
    → (l : Object) × (s' : Store) × (cons s ret a b ≡ ok (l, s')) × (car s' l ≡ fault)
unfolding cons car
cons-car_fault s ret a b y at null empty =
    let l₀ : ListHead = record { gc = 0; non_shared = 0; first = 0 } in
    let l₁ : ListHead = record { gc = 0; non_shared = 0; first = s.next + 1 } in
    let n : ListNode = record { next = 0; obj = 0 } in
    let lists₀ = put s.lists s.next l₀ in
    let nodes₀ = put s.nodes (s.next + 1) n in
    (
      record ret { type = OType.list; value = s.next },
      record s {
        next = s.next + 1 + 1;
        lists = put lists₀ s.next l₁;
        nodes = put nodes₀ (s.next + 1) n;
      },
      rw
          (
            fetch-some s.objects b y at,
            empty,
            fetch-some lists₀ s.next l₀ (put_same s.lists s.next l₀),
            fetch-some nodes₀ (s.next + 1) n (put_same s.nodes (s.next + 1) n),
          )
          refl,
      rw
          (
            fetch-some (put lists₀ s.next l₁) s.next l₁ (put_same lists₀ s.next l₁),
            fetch-some (put nodes₀ (s.next + 1) n) (s.next + 1) n (put_same nodes₀ (s.next + 1) n),
            fetch-none s.objects 0 null,
          )
          refl,
    )

-- Of a list with two nodes or more `_car` returns the object of the first one, and `_cdr` a new list
-- that shares the other nodes.
pub cdr-Holds :
    (init_globals : Bool) (s : Store) (gc p a o : ℕ) (x : Object) (xs : Cells)
    → Holds s p ((a, o) ∷ xs)
    → s.objects o ≡ some x
    → start xs 0 ≢ 0
    → (car s (list_object gc p) ≡ ok x)
      × (s' : Store) × (cdr init_globals s (list_object gc p) ≡ ok (list_object 0 s.next, s'))
      × Holds s' s.next xs
unfolding car cdr
cdr-Holds init s gc p a o x xs hold at more = elim hold.chain [
  | Chain.cons ne there c ↦ (
    rw
        (
          fetch-some s.lists p _ hold.at,
          hold.first,
          fetch-some s.nodes a _ there,
          fetch-some s.objects o x at,
        )
        refl,
    record s {
      next = s.next + 1;
      lists =
          put s.lists s.next (record { gc = generation init; non_shared = 0; first = start xs 0 });
    },
    rw
        (
          fetch-some s.lists p _ hold.at,
          hold.first,
          fetch-some s.nodes a _ there,
          not_null (start xs 0) more,
        )
        refl,
    record { head = _; at = put_same s.lists s.next _; first = refl; chain = c },
  )
]
