-- ===== src/Lists/Append/Laws.antt =====
-- list.c: `_list_append` as concatenation.
use animula.Prelude.{
  ℕ, zero, suc, ◌+◌, ◌<◌, ◌≡◌, ◌≢◌, refl, sym, ◌∙◌, ap, ◌==◌, if◌then◌else◌, Bool, ltb, Option,
  none, some, List, [], ◌∷◌, ◌++◌, length, Bool-cases, Option-cases, ltb→lt, ap₂, inl, inr, arith,
}
use animula.Run.{ok}
use animula.Object.{OType, Object}
use animula.Store.{
  ListNode, ListHead, Store, not_null, fetch-some, put, put_same, put_other, new_list,
}
use animula.Lists.{append_loop, list_append, generation}
use animula.Lists.Chain.{Cells, start, objs, Chain, Chain-frame, Chain-append, nil, cons, Holds}
use animula.Lists.Laws.{list_object}
use animula.Lists.Append.{copies, Below, Copies, append_loop-Copies, has-above}

-- What the heap has lies below the next address, and nothing at the null pointer.
pub record IsStore (s : Store) : Type 0 where
  pub not_zero : s.next ≢ 0
  pub nodes_below : (q : ℕ) (n : ListNode) → s.nodes q ≡ some n → q < s.next
  pub lists_below : (q : ℕ) (l : ListHead) → s.lists q ≡ some l → q < s.next

Chain-Below : {s : Store} {xs : Cells} → IsStore s → Chain s.nodes 0 xs → Below s.next xs
Chain-Below is nil a i = absurd cc
Chain-Below is (cons {a = b} ne at c) a i = elim (Bool-cases (a == b)) [
  | inl e ↦ let eb : a ≡ b = ground (arith, e) in omega (arith, is.nodes_below b _ at, eb)
  | inr e ↦ Chain-Below is c a (ground (arith, e, i))
]

-- The store in which the list at the fresh address has its first node, behind which the loop goes on.
abbrev begun : Store → (o : ℕ) → Store
begun s o = record s {
  next = s.next + 1 + 1;
  lists =
      put (put s.lists s.next (record { gc = 3; non_shared = 0; first = 0 })) s.next
        (record { gc = 3; non_shared = 0; first = s.next + 1 });
  nodes =
      put (put s.nodes (s.next + 1) (record { next = 0; obj = o })) (s.next + 1)
        (record { next = 0; obj = o });
}

abbrev with_list : Store → Store
with_list s = record (new_list s) {
  lists = put s.lists s.next (record { gc = 3; non_shared = 0; first = 0 });
}

pub append_loop_first :
    (fuel : ℕ) (s : Store) (a o : ℕ) (xs : Cells)
    → IsStore s
    → Chain s.nodes 0 ((a, o) ∷ xs)
    → length xs < fuel
    → Copies (begun s o) (s.next + 1) o xs (append_loop (suc fuel) (with_list s) s.next a 0)
unfolding append_loop
append_loop_first fuel s a o xs is (cons ne at c) h =
    let t = begun s o in
    let low = Chain-Below is (cons ne at c) in
    let new : t.nodes (s.next + 1) ≡ some (record { next = 0; obj = o }) = ground arith in
    let rest =
      append_loop-Copies fuel t s.next (s.next + 1) o xs
        (Chain-frame c λ b i. ground (arith, low b (ground (arith, i))))
        (λ b i. omega (arith, low b (ground (arith, i)))) new (λ e. omega (arith, e)) (omega arith)
        (has-above (s.next + 1) xs λ b i. omega (arith, low b (ground (arith, i)))) h in
    let there : t.nodes a ≡ some (record { next = start xs 0; obj = o }) =
      ground (arith, at, low a (ground arith)) in
    record {
      store = rest.store;
      last = rest.last;
      obj = rest.obj;
      returns =
          rw
            (
              not_null a ne,
              fetch-some s.nodes a _ at,
              fetch-some _ s.next _ (put_same s.lists s.next _),
              fetch-some (put s.nodes (s.next + 1) _) (s.next + 1) _
                  (put_same s.nodes (s.next + 1) _),
              fetch-some t.nodes a _ there,
            )
            rest.returns;
      at = rest.at;
      not_zero = rest.not_zero;
      place = rest.place;
      chain = rest.chain;
      frame = rest.frame;
      lists = rest.lists;
      objects = rest.objects;
      pairs = rest.pairs;
      strings = rest.strings;
    }

objs-append : (xs ys : Cells) → objs (xs ++ ys) ≡ objs xs ++ objs ys
objs-append [] ys = refl
objs-append ((_, o) ∷ xs) ys = ap (◌∷◌ o) (objs-append xs ys)

objs-copies : (n : ℕ) (xs : Cells) → objs (copies n xs) ≡ objs xs
objs-copies n [] = refl
objs-copies n ((_, o) ∷ xs) = ap (◌∷◌ o) (objs-copies (n + 1) xs)

length-objs : (xs : Cells) → length (objs xs) ≡ length xs
length-objs [] = refl
length-objs (x ∷ xs) = ap suc (length-objs xs)

-- The abstract view of a list: the addresses of its elements, in order.
abbrev pub Elements : Store → (p : ℕ) → List ℕ → Type 0
Elements s p os = (xs : Cells) × Holds s p xs × (objs xs ≡ os)

abbrev before {ℓ} : {A : Type ℓ} → (n : ℕ) → (ℕ → Option A) → ℕ → Option A
before n m q = if ltb q n then m q else none

before-same {ℓ} :
    {A : Type ℓ} (n : ℕ) (m m' : ℕ → Option A) (q : ℕ)
    → ((a : A) → m q ≡ some a → q < n)
    → (q < n → m' q ≡ m q)
    → before n m' q ≡ m q
before-same n m m' q below same = elim (Bool-cases (ltb q n)) [
  | inl lt ↦ rw lt (same (ltb→lt q n lt))
  | inr ge ↦ rw ge (elim (Option-cases (m q)) [
    | inl e ↦ sym e
    | inr (a, e) ↦ absurd (ground (arith, ge, below a e))
  ])
]

-- The objects, pairs and strings are as they were, and below the next address of `s` so are the lists
-- and their nodes.
abbrev pub Extends : (s s' : Store) → Type 0
Extends s s' =
    (s'.objects ≡ s.objects)
    × (s'.pairs ≡ s.pairs)
    × (s'.strings ≡ s.strings)
    × ((q : ℕ) → (before s.next s'.nodes q ≡ s.nodes q) × (before s.next s'.lists q ≡ s.lists q))

-- `_list_append` refines the concatenation: of two lists of a heap in order, the first of them not
-- empty, it returns a new list at the next address, with the elements of the first and then those of
-- the second. What the heap had is left as it was. The fuel is more than the length of the first list.
pub list_append-refines :
    (fuel : ℕ) (init_globals : Bool) (s : Store) (ret : Object) (gc₁ gc₂ p₁ p₂ : ℕ)
    (os₁ os₂ : List ℕ)
    → IsStore s
    → Elements s p₁ os₁
    → Elements s p₂ os₂
    → 0 < length os₁
    → length os₁ < fuel
    → (s' : Store) × (list_append fuel init_globals s ret (list_object gc₁ p₁) (list_object gc₂ p₂)
        ≡ ok (record ret { type = OType.list; value = s.next }, s'))
      × Elements s' s.next (os₁ ++ os₂)
      × Extends s s'
unfolding list_append
list_append-refines zero b s ret gc₁ gc₂ p₁ p₂ os₁ os₂ is l₁ l₂ some_node h =
    absurd (omega (arith, h))
list_append-refines (suc fuel) b s ret gc₁ gc₂ p₁ p₂ os₁ os₂ is ([], hold₁, e₁) l₂ some_node h =
    absurd (omega (arith, some_node, ap length e₁))
list_append-refines (suc fuel) b s ret gc₁ gc₂ p₁ p₂ os₁ os₂ is ((a, o) ∷ xs, hold₁, e₁)
      (ys, hold₂, e₂) some_node h =
    let size : suc (length xs) ≡ length os₁ = ap suc (sym (length-objs xs)) ∙ ap length e₁ in
    let rest = append_loop_first fuel s a o xs is hold₁.chain (omega (arith, size, h)) in
    let copy = rest.store in
    let list_at : copy.lists s.next ≡ some (record { gc = 3; non_shared = 0; first = s.next + 1 }) =
      ap (λ m. m s.next) rest.lists ∙ ground arith in
    let s' : Store = record copy {
      nodes = put copy.nodes rest.last (record { next = start ys 0; obj = rest.obj });
      lists =
          put copy.lists s.next (record { gc = generation b; non_shared = 0; first = s.next + 1 });
    } in
    let last_new : s.next < rest.last = elim rest.place [
      | inl e ↦ omega (arith, e)
      | inr le ↦ omega (arith, le)
    ] in
    let kept : (q : ℕ) → q < s.next → s'.nodes q ≡ s.nodes q = λ q lt.
      put_other copy.nodes rest.last q _ (λ e. omega (arith, e))
      ∙ rest.frame q (omega arith) (λ e. omega (arith, e))
      ∙ ground (arith, lt) in
    let kept_list : (q : ℕ) → q < s.next → s'.lists q ≡ s.lists q = λ q lt.
      put_other copy.lists s.next q _ (λ e. omega (arith, e))
      ∙ ap (λ m. m q) rest.lists
      ∙ ground (arith, lt) in
    let back = Chain-frame hold₂.chain λ q i. kept q (Chain-Below is hold₂.chain q i) in
    (
      s',
      rw
          (
            fetch-some s.lists p₁ _ hold₁.at,
            fetch-some s.lists p₂ _ hold₂.at,
            hold₁.first,
            hold₂.first,
            rest.returns,
            not_null rest.last rest.not_zero,
            fetch-some copy.nodes rest.last _ rest.at,
            fetch-some copy.lists s.next _ list_at,
          )
          refl,
      (
        copies (s.next + 1) ((a, o) ∷ xs) ++ ys,
        record {
          head = record { gc = generation b; non_shared = 0; first = s.next + 1 };
          at = put_same copy.lists s.next _;
          first = refl;
          chain = Chain-append (rest.chain (start ys 0)) back;
        },
        objs-append (copies (s.next + 1) ((a, o) ∷ xs)) ys
            ∙ ap₂ ◌++◌ (objs-copies (s.next + 1) ((a, o) ∷ xs) ∙ e₁) e₂,
      ),
      (
        rest.objects,
        rest.pairs,
        rest.strings,
        λ q. (
          before-same s.next s.nodes s'.nodes q (is.nodes_below q) (kept q),
          before-same s.next s.lists s'.lists q (is.lists_below q) (kept_list q),
        ),
      ),
    )
