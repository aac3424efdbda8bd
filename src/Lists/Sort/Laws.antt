-- ===== src/Lists/Sort/Laws.antt =====
-- list.c: `_list_sort_obj_ascending` sorts the objects of a list.
use mathlib.Core.List.{Perm}
use mathlib.Core.List.Perm
use animula.Prelude.{
  ℕ, zero, suc, ◌*◌, ◌<◌, ◌≤◌, ◌≡◌, ◌≢◌, refl, sym, ◌∙◌, ap, Bool, true, false, ◌||◌, ltb,
  if◌then◌else◌, some, [], ◌∷◌, length, Bool-cases, inl, inr, arith,
}
use animula.Run.{Run, ok}
use animula.Store.{ListNode, Store, not_null, fetch-some, put}
use animula.Lists.Chain.{
  Cells, start, start-null, has, objs, Chain, Chain-put, cons, Distinct, Holds,
}
use animula.Lists.Sort.{pass_loop, sort_loop, list_sort_obj_ascending}
use animula.Lists.Sort.Bubble.{
  bubble, swaps, Ascending, inversions, inversions-bubble, bubble-id, bubble-Ascending, bubble-Perm,
  inversions-length,
}

-- The nodes behind a pass that starts at the node `a` with the object `o`.
abbrev bubbled : (a o : ℕ) → Cells → Cells
bubbled a o [] = (a, o) ∷ []
bubbled a o ((b, w) ∷ xs) = if ltb w o then (a, w) ∷ bubbled b o xs else (a, o) ∷ bubbled b w xs

record Passes (s : Store) (swapped : Bool) (a o : ℕ) (xs : Cells) (run : Run (Bool × Store))
    : Type 0 where
  store : Store
  returns : run ≡ ok (swapped || swaps o (objs xs), store)
  chain : Chain store.nodes 0 (bubbled a o xs)
  frame : (q : ℕ) → has q ((a, o) ∷ xs) ≡ false → store.nodes q ≡ s.nodes q
  lists : store.lists ≡ s.lists
  objects : store.objects ≡ s.objects

start-bubbled : (a o : ℕ) (xs : Cells) (stop : ℕ) → start (bubbled a o xs) stop ≡ a
start-bubbled a o [] stop = refl
start-bubbled a o ((b, w) ∷ xs) stop = ground arith

objs-bubbled : (a o : ℕ) (xs : Cells) → objs (bubbled a o xs) ≡ bubble o (objs xs)
objs-bubbled a o [] = refl
objs-bubbled a o ((b, w) ∷ xs) = elim (Bool-cases (ltb w o)) [
  | inl e ↦ rw (e, objs-bubbled b o xs) refl
  | inr e ↦ rw (e, objs-bubbled b w xs) refl
]

has-bubbled : (q a o : ℕ) (xs : Cells) → has q (bubbled a o xs) ≡ has q ((a, o) ∷ xs)
has-bubbled q a o [] = refl
has-bubbled q a o ((b, w) ∷ xs) = elim (Bool-cases (ltb w o)) [
  | inl e ↦ rw (e, has-bubbled q b o xs) refl
  | inr e ↦ rw (e, has-bubbled q b w xs) refl
]

Distinct-bubbled : (a o : ℕ) (xs : Cells) → Distinct ((a, o) ∷ xs) → Distinct (bubbled a o xs)
Distinct-bubbled a o [] d = d
Distinct-bubbled a o ((b, w) ∷ xs) (out, d) = elim (Bool-cases (ltb w o)) [
  | inl e ↦ rw (e, has-bubbled a b o xs) (out, Distinct-bubbled b o xs d)
  | inr e ↦ rw (e, has-bubbled a b w xs) (out, Distinct-bubbled b w xs d)
]

length-bubbled : (a o : ℕ) (xs : Cells) → length (bubbled a o xs) ≡ suc (length xs)
length-bubbled a o [] = refl
length-bubbled a o ((b, w) ∷ xs) = elim (Bool-cases (ltb w o)) [
  | inl e ↦ rw e (ap suc (length-bubbled b o xs))
  | inr e ↦ rw e (ap suc (length-bubbled b w xs))
]

or_assoc : (a b c : Bool) → ((a || b) || c) ≡ (a || (b || c))
or_assoc true b c = refl
or_assoc false b c = refl

-- The store behind a swap of the objects of two neighbours.
abbrev swapped_at : Store → (a o b w next : ℕ) → Store
swapped_at s a o b w next = record s {
  nodes = put (put s.nodes a (record { next = b; obj = w })) b (record { next = next; obj = o });
}

module _ (s : Store) (sw : Bool) (fuel a o b w next : ℕ)
    (at : s.nodes a ≡ some (record { next = b; obj = o }))
    (at' : s.nodes b ≡ some (record { next = next; obj = w })) (ne : b ≢ 0) where
  pass_loop-swap :
      ltb w o ≡ true
      → pass_loop (suc fuel) s a b sw
        ≡ pass_loop fuel (swapped_at s a o b w next) b next (sw || true)
  unfolding pass_loop
  pass_loop-swap e =
      rw
        (
          not_null b ne,
          fetch-some s.nodes a _ at,
          fetch-some s.nodes b _ at',
          e,
          fetch-some (swapped_at s a o b w next).nodes b (record { next = next; obj = o })
              (ground arith),
        )
        refl

  pass_loop-keep :
      ltb w o ≡ false → pass_loop (suc fuel) s a b sw ≡ pass_loop fuel s b next (sw || false)
  unfolding pass_loop
  pass_loop-keep e =
      rw
        (
          not_null b ne,
          fetch-some s.nodes a _ at,
          fetch-some s.nodes b _ at',
          e,
          fetch-some s.nodes b _ at',
        )
        refl

pass_loop_end :
    (fuel : ℕ) (s : Store) (a : ℕ) (sw : Bool) → pass_loop (suc fuel) s a 0 sw ≡ ok (sw || false, s)
unfolding pass_loop
pass_loop_end fuel s a true = refl
pass_loop_end fuel s a false = refl

pass_loop-Passes :
    (fuel : ℕ) (s : Store) (swapped : Bool) (a o : ℕ) (xs : Cells)
    → Chain s.nodes 0 ((a, o) ∷ xs)
    → Distinct ((a, o) ∷ xs)
    → length xs < fuel
    → Passes s swapped a o xs (pass_loop fuel s a (start xs 0) swapped)
pass_loop-Passes zero s sw a o xs c d h = absurd (omega (arith, h))
pass_loop-Passes (suc fuel) s sw a o [] c d h = record {
  store = s;
  returns = pass_loop_end fuel s a sw;
  chain = c;
  frame = λ q e. refl;
  lists = refl;
  objects = refl;
}
pass_loop-Passes (suc fuel) s sw a o ((b, w) ∷ xs) (cons ne at (cons ne' at' c)) (out, (out', d))
      h =
    elim (Bool-cases (ltb w o)) [
      | inl e ↦
          let s' = swapped_at s a o b w (start xs 0) in
          let kept = Chain-put b _ (Chain-put a _ c (ground (arith, out))) out' in
          let rest =
            pass_loop-Passes fuel s' (sw || true) b o xs (cons ne' (ground arith) kept) (out', d)
              (omega arith) in
          record {
            store = rest.store;
            returns =
                pass_loop-swap s sw fuel a o b w (start xs 0) at at' ne' e
                ∙ rest.returns
                ∙ ap (λ z. ok (z, rest.store)) (rw e (or_assoc sw true (swaps o (objs xs))));
            chain = rw e (
                cons ne (rw (start-bubbled b o xs 0) (rest.frame a out ∙ ground (arith, out)))
                  rest.chain);
            frame = λ q i. rest.frame q (ground (arith, i)) ∙ ground (arith, i);
            lists = rest.lists;
            objects = rest.objects;
          }
      | inr e ↦
          let rest =
            pass_loop-Passes fuel s (sw || false) b w xs (cons ne' at' c) (out', d) (omega arith) in
          record {
            store = rest.store;
            returns =
                pass_loop-keep s sw fuel a o b w (start xs 0) at at' ne' e
                ∙ rest.returns
                ∙ ap (λ z. ok (z, rest.store)) (rw e (or_assoc sw false (swaps w (objs xs))));
            chain = rw e (cons ne (rw (start-bubbled b w xs 0) (rest.frame a out ∙ at)) rest.chain);
            frame = λ q i. rest.frame q (ground (arith, i));
            lists = rest.lists;
            objects = rest.objects;
          }
    ]

record Sorts (s : Store) (cs : Cells) (run : Run Store) : Type 0 where
  store : Store
  after : Cells
  returns : run ≡ ok store
  chain : Chain store.nodes 0 after
  same_start : start after 0 ≡ start cs 0
  ascending : Ascending (objs after)
  perm : Perm (objs after) (objs cs)
  lists : store.lists ≡ s.lists

sort_loop-round :
    (rounds fuel : ℕ) (s : Store) (a : ℕ) (n : ListNode) (swapped : Bool) (s' : Store)
    → s.nodes a ≡ some n
    → pass_loop fuel s a n.next false ≡ ok (swapped, s')
    → sort_loop (suc rounds) fuel s a ≡ (if swapped then sort_loop rounds fuel s' a else ok s')
unfolding sort_loop
sort_loop-round rounds fuel s a n swapped s' at returns =
    rw (fetch-some s.nodes a n at, returns) refl

sort_loop-Sorts :
    (rounds fuel : ℕ) (s : Store) (cs : Cells)
    → Chain s.nodes 0 cs
    → Distinct cs
    → 0 < length cs
    → length cs ≤ fuel
    → inversions (objs cs) < rounds
    → Sorts s cs (sort_loop rounds fuel s (start cs 0))
sort_loop-Sorts zero fuel s cs c d some_node h enough = absurd (omega (arith, enough))
sort_loop-Sorts (suc rounds) fuel s [] c d some_node h enough = absurd (omega (arith, some_node))
sort_loop-Sorts (suc rounds) fuel s ((a, o) ∷ xs) (cons ne at c) d some_node h enough =
    let pass = pass_loop-Passes fuel s false a o xs (cons ne at c) d (omega arith) in
    elim (Bool-cases (swaps o (objs xs))) [
      | inl e ↦
          let fewer : suc (inversions (objs (bubbled a o xs))) ≤ inversions (objs ((a, o) ∷ xs)) =
            rw (objs-bubbled a o xs) (ground (arith, e, inversions-bubble o (objs xs))) in
          let rest =
            sort_loop-Sorts rounds fuel pass.store (bubbled a o xs) pass.chain
              (Distinct-bubbled a o xs d) (omega (arith, length-bubbled a o xs))
              (omega (arith, length-bubbled a o xs)) (omega (arith, fewer, enough)) in
          record {
            store = rest.store;
            after = rest.after;
            returns =
                sort_loop-round rounds fuel s a _ _ pass.store at pass.returns
                ∙ ap (λ z. if z then sort_loop rounds fuel pass.store a else ok pass.store) e
                ∙ ap (sort_loop rounds fuel pass.store) (sym (start-bubbled a o xs 0))
                ∙ rest.returns;
            chain = rest.chain;
            same_start = rest.same_start ∙ start-bubbled a o xs 0;
            ascending = rest.ascending;
            perm = Perm.trans rest.perm (rw (objs-bubbled a o xs) (bubble-Perm o (objs xs)));
            lists = rest.lists ∙ pass.lists;
          }
      | inr e ↦
          let settled : objs (bubbled a o xs) ≡ o ∷ objs xs =
            objs-bubbled a o xs ∙ bubble-id o (objs xs) e in
          record {
            store = pass.store;
            after = bubbled a o xs;
            returns =
                sort_loop-round rounds fuel s a _ _ pass.store at pass.returns
                ∙ ap (λ z. if z then sort_loop rounds fuel pass.store a else ok pass.store) e;
            chain = pass.chain;
            same_start = start-bubbled a o xs 0;
            ascending = rw settled (bubble-Ascending o (objs xs) e);
            perm = rw settled (Perm.refl (o ∷ objs xs));
            lists = pass.lists;
          }
    ]

length-objs : (xs : Cells) → length (objs xs) ≡ length xs
length-objs [] = refl
length-objs (x ∷ xs) = ap suc (length-objs xs)

inversions-objs : (xs : Cells) → inversions (objs xs) ≤ length xs * length xs
inversions-objs xs = rw (sym (length-objs xs)) (inversions-length (objs xs))

-- `_list_sort_obj_ascending` terminates on a list of distinct nodes: with fuel for its length in
-- each round, and for more rounds than the square of it, it returns. The list then has the same
-- objects, in the order of their addresses.
pub list_sort-Ascending :
    (rounds fuel : ℕ) (s : Store) (head : ℕ) (xs : Cells)
    → Holds s head xs
    → Distinct xs
    → length xs ≤ fuel
    → length xs * length xs < rounds
    → (s' : Store) × (ys : Cells) × (list_sort_obj_ascending rounds fuel s head ≡ ok s')
      × Holds s' head ys
      × Ascending (objs ys)
      × Perm (objs ys) (objs xs)
unfolding list_sort_obj_ascending
list_sort-Ascending rounds fuel s head [] hold d h enough =
    (s, [], rw (fetch-some s.lists head _ hold.at, hold.first) refl, hold, tt, Perm.refl [])
list_sort-Ascending rounds fuel s head ((a, o) ∷ xs) hold d h enough =
    let few : inversions (objs ((a, o) ∷ xs)) < rounds =
      omega (arith, inversions-objs ((a, o) ∷ xs), enough) in
    let done = sort_loop-Sorts rounds fuel s ((a, o) ∷ xs) hold.chain d (omega arith) h few in
    (
      done.store,
      done.after,
      rw (fetch-some s.lists head _ hold.at, hold.first, not_null a (start-null hold.chain))
          done.returns,
      record {
        head = hold.head;
        at = ap (λ m. m head) done.lists ∙ hold.at;
        first = hold.first ∙ sym done.same_start;
        chain = done.chain;
      },
      done.ascending,
      done.perm,
    )
