-- ===== src/Lists/Append.antt =====
-- list.c: the loop of `_list_append` and what it copies.
pub mod Laws
use animula.Prelude.{
  ℕ, zero, suc, ◌+◌, ◌<◌, ◌≤◌, ◌≡◌, ◌≢◌, refl, sym, ◌∙◌, ap, true, false, ◌==◌, if◌then◌else◌, ◌⊎◌,
  inl, inr, Bool-cases, Option, none, some, List, [], ◌∷◌, ◌++◌, length, arith,
}
use animula.Run.{Run, ok, fault, ◌>>=◌}
use animula.Store.{
  ListNode, ListHead, Store, not_null, fetch, fetch-some, put, put_same, put_other, new_list_node,
}
use animula.Lists.{append_loop, insert_after}
use animula.Lists.Chain.{Cells, start, has, Chain, Chain-frame, nil, cons}

-- New nodes from the address `n` on, with the objects of `xs`.
abbrev pub copies : (n : ℕ) → Cells → Cells
copies n [] = []
copies n ((_, o) ∷ xs) = (n, o) ∷ copies (n + 1) xs

-- The nodes of a chain have addresses below `n`.
abbrev pub Below : (n : ℕ) → Cells → Type 0
Below n xs = (a : ℕ) → has a xs ≡ true → a < n

-- What the loop does from `s` on, where `prev` is the last node so far and `xs` is left to copy.
pub record Copies (s : Store) (prev po : ℕ) (xs : Cells) (run : Run (ℕ × Store)) : Type 0 where
  pub store : Store
  pub last : ℕ
  pub obj : ℕ
  pub returns : run ≡ ok (last, store)
  pub at : store.nodes last ≡ some (record { next = 0; obj = obj })
  pub not_zero : last ≢ 0
  pub place : (last ≡ prev) ⊎ (s.next ≤ last)
  pub chain :
      (q : ℕ)
      → Chain
          (put store.nodes last (record { next = q; obj = obj }))
          q
          ((prev, po) ∷ copies s.next xs)
  pub frame : (q : ℕ) → q < s.next → q ≢ prev → store.nodes q ≡ s.nodes q
  pub lists : store.lists ≡ s.lists
  pub objects : store.objects ≡ s.objects
  pub pairs : store.pairs ≡ s.pairs
  pub strings : store.strings ≡ s.strings

-- `SLIST_INSERT_AFTER` of a new node with the object `o`.
abbrev grown : Store → (prev po o : ℕ) → Store
grown s prev po o = record s {
  next = s.next + 1;
  nodes =
      put
        (put (put s.nodes s.next (record { next = 0; obj = o })) s.next
          (record { next = 0; obj = o }))
        prev (record { next = s.next; obj = po });
}

insert_after-grown :
    (s : Store) (prev po o : ℕ)
    → s.nodes prev ≡ some (record { next = 0; obj = po })
    → prev < s.next
    → insert_after
        (record (new_list_node s) { nodes = put s.nodes s.next (record { next = 0; obj = o }) })
        prev
        s.next
      ≡ ok (grown s prev po o)
insert_after-grown s prev po o at below =
    rw
      (
        fetch-some _ prev _ (put_other s.nodes s.next prev _ (λ e. omega (arith, e)) ∙ at),
        fetch-some _ s.next _ (put_same s.nodes s.next _),
      )
      refl

grown-other :
    (s : Store) (prev po o q : ℕ) → q < s.next → q ≢ prev → (grown s prev po o).nodes q ≡ s.nodes q
grown-other s prev po o q below ne = ground (arith, below, ne)

grown-new :
    (s : Store) (prev po o : ℕ)
    → prev < s.next
    → (grown s prev po o).nodes s.next ≡ some (record { next = 0; obj = o })
grown-new s prev po o below = ground (arith, below)

grown-prev :
    (s : Store) (prev po o : ℕ)
    → (grown s prev po o).nodes prev ≡ some (record { next = s.next; obj = po })
grown-prev s prev po o = ground arith

pub has-above : (n : ℕ) (xs : Cells) → Below n xs → has n xs ≡ false
has-above n xs low = elim (Bool-cases (has n xs)) [
  | inl e ↦ absurd (omega (arith, low n e))
  | inr e ↦ e
]

pub append_loop-Copies :
    (fuel : ℕ) (s : Store) (l prev po : ℕ) (xs : Cells)
    → Chain s.nodes 0 xs
    → Below s.next xs
    → s.nodes prev ≡ some (record { next = 0; obj = po })
    → prev ≢ 0
    → prev < s.next
    → has prev xs ≡ false
    → length xs < fuel
    → Copies s prev po xs (append_loop fuel s l (start xs 0) prev)
unfolding append_loop
append_loop-Copies zero s l prev po xs c low at ne lt out h = absurd (omega (arith, h))
append_loop-Copies (suc fuel) s l prev po [] nil low at ne lt out h = record {
  store = s;
  last = prev;
  obj = po;
  returns = refl;
  at = at;
  not_zero = ne;
  place = inl refl;
  chain = λ q. cons ne (put_same s.nodes prev _) nil;
  frame = λ q lt other. refl;
  lists = refl;
  objects = refl;
  pairs = refl;
  strings = refl;
}
append_loop-Copies (suc fuel) s l prev po ((a, o) ∷ xs) (cons ne' at' c) low at ne lt out h =
    let t = grown s prev po o in
    let a_low : a < s.next = low a (ground arith) in
    let a_other : a ≢ prev = λ e. ground (arith, e, out) in
    let same_rest = Chain-frame c λ b i.
      grown-other s prev po o b (low b (ground (arith, i))) (λ e. ground (arith, e, out, i)) in
    let rest =
      append_loop-Copies fuel t l s.next o xs same_rest
        (λ b i. omega (arith, low b (ground (arith, i)))) (grown-new s prev po o lt)
        (λ e. omega (arith, e)) (omega arith) (has-above s.next xs λ b i. low b (ground (arith, i)))
        (omega arith) in
    let later : s.next ≤ rest.last = elim rest.place [
      | inl e ↦ omega (arith, e)
      | inr le ↦ omega (arith, le)
    ] in
    record {
      store = rest.store;
      last = rest.last;
      obj = rest.obj;
      returns =
          rw
            (
              not_null a ne',
              fetch-some s.nodes a _ at',
              not_null prev ne,
              insert_after-grown s prev po o at lt,
              fetch-some t.nodes a _ (grown-other s prev po o a a_low a_other ∙ at'),
            )
            rest.returns;
      at = rest.at;
      not_zero = rest.not_zero;
      place = inr later;
      chain = λ q.
          cons ne
            (put_other rest.store.nodes rest.last prev _ (λ e. omega (arith, e))
              ∙ rest.frame prev (omega arith) (λ e. omega (arith, e))
              ∙ grown-prev s prev po o)
            (rest.chain q);
      frame = λ q below other.
          rest.frame q (omega arith) (λ e. omega (arith, e))
          ∙ grown-other s prev po o q below other;
      lists = rest.lists;
      objects = rest.objects;
      pairs = rest.pairs;
      strings = rest.strings;
    }
