-- ===== src/Gc/Collect/Drain.antt =====
-- gc.c: `sweep (true)` gives the nodes of all pools back, which `object_list_node_clean` wants.
use animula.Prelude.{
  ℕ, ◌+◌, ◌-◌, ◌≤◌, ◌≡◌, ◌≢◌, refl, ap, ◌∙◌, Bool, true, false, ◌==◌, ◌||◌, none, some, List, [],
  ◌∷◌, ◌++◌, length, set, arith,
}
use animula.Run.{Run, ok, ◌>>=◌}
use animula.Gc.{Block, Blocks, Pool, Slots, Gc, with_block, block_at}
use animula.Gc.Collect.{release_all_free_objects, sweep}
use animula.Gc.Collect.Balance.{IsBalanced, booked}

-- The objects of the nodes of a pool.
abbrev pub objects_of : Pool → List ℕ
objects_of [] = []
objects_of ((node, p) ∷ pool) = p ∷ objects_of pool

-- No object of the list is the one at `p`.
abbrev pub Avoids : (p : ℕ) → List ℕ → Type 0
Avoids p [] = Unit {0}
Avoids p (q ∷ qs) = (q ≢ p) × Avoids p qs

-- Each of the objects is a block of the heap, and none of them stands twice in the list.
abbrev pub Allocated : Blocks → List ℕ → Type 0
Allocated m [] = Unit {0}
Allocated m (p ∷ ps) = ((b : Block) × (m p ≡ some b)) × (Avoids p ps × Allocated m ps)

free-Allocated :
    (m : Blocks) (p : ℕ) (qs : List ℕ)
    → Avoids p qs
    → Allocated m qs
    → Allocated (with_block p none m) qs
free-Allocated m p [] h a = tt
free-Allocated m p (q ∷ qs) (ne, h) ((b, e), (d, a)) =
    ((b, other m p q ne ∙ e), (d, free-Allocated m p qs h a))
  where
    other : (m : Blocks) (p q : ℕ) → q ≢ p → with_block p none m q ≡ m q
    other m p q ne = ground (arith, ne)

-- What releasing the whole pool leaves, with `qs` the objects of the pools behind it.
abbrev Drained : Pool → List ℕ → Blocks → Slots → Type 0
Drained pool qs m s =
    (m' : Blocks) × (s' : Slots) × (release_all_free_objects true pool m s ≡ ok ([], (m', s')))
    × ((s'.index + length pool ≡ s.index) × Allocated m' qs)

block_at-some : (m : Blocks) (p : ℕ) (b : Block) → m p ≡ some b → block_at p m ≡ ok b
block_at-some m p b e = ground (arith, e)

or_true : (b : Bool) → (b || true) ≡ true
or_true true = refl
or_true false = refl

not_first : (n : ℕ) → 1 ≤ n → (n == 0) ≡ false
not_first n h = ground (arith, h)

release-Drained :
    (pool : Pool) (qs : List ℕ) (m : Blocks) (s : Slots)
    → Allocated m (objects_of pool ++ qs)
    → length pool ≤ s.index
    → Drained pool qs m s
unfolding release_all_free_objects
release-Drained [] qs m s a h = (m, s, refl, (omega arith, a))
release-Drained ((node, p) ∷ pool) qs m s ((b, e), (d, a)) h =
    let (m', s', r, (i, rest)) =
      release-Drained pool qs (with_block p none m)
        (record { oln = set s.oln (s.index - 1) node; index = s.index - 1 })
        (free-Allocated m p (objects_of pool ++ qs) d a) (omega (arith, h)) in
    (
      m',
      s',
      rw (block_at-some m p b e, or_true (b.gc == 0), not_first s.index (omega (arith, h))) r,
      (omega (arith, h, i), rest),
    )

-- The objects of the seven pools, in the order of `sweep`.
abbrev pub pool_objects : Gc → List ℕ
pool_objects g =
    objects_of g.pair_pool
    ++ (objects_of g.vector_pool
        ++ (objects_of g.list_pool
            ++ (objects_of g.closure_pool
                ++ (objects_of g.bytevector_pool
                    ++ (objects_of g.mut_bytevector_pool ++ (objects_of g.obj_pool ++ []))))))

-- A run that goes on behind a pool returns what `Q` states, if it does so behind the empty pool.
drain_then :
    {B : Type 0} (Q : B → Type 0) (pool : Pool) (qs : List ℕ) (m : Blocks) (s : Slots)
    (f : Pool × (Blocks × Slots) → Run B)
    → Allocated m (objects_of pool ++ qs)
    → length pool ≤ s.index
    → ((m' : Blocks) (s' : Slots)
        → s'.index + length pool ≡ s.index
        → Allocated m' qs
        → (b : B) × ((f ([], (m', s')) ≡ ok b) × Q b))
    → (b : B) × ((release_all_free_objects true pool m s >>= f ≡ ok b) × Q b)
drain_then Q pool qs m s f a h rest =
    let (m', s', r, (i, a')) = release-Drained pool qs m s a h in
    let (b, (e, q)) = rest m' s' i a' in (b, (ap (λ x. x >>= f) r ∙ e, q))

-- All seven pools are empty, and no node of `_oln` is given away.
abbrev pub IsDrained : Gc → Type 0
IsDrained g = (booked g ≡ 0) × (g.slots.index ≡ 0)

-- Where the nodes in the pools are as many as `_oln` has given away, and the objects of the pools are
-- distinct blocks of the heap, `sweep (true)` returns, with all seven pools empty and no node given away.
pub sweep-drains :
    (g : Gc)
    → IsBalanced g
    → Allocated g.heap (pool_objects g)
    → (g' : Gc) × ((sweep true g ≡ ok g') × IsDrained g')
unfolding sweep
sweep-drains g balanced a =
    drain_then IsDrained g.pair_pool _ g.heap g.slots _ a (omega (arith, balanced)) λ m1 s1 i1 a1.
      drain_then IsDrained g.vector_pool _ m1 s1 _ a1 (omega (arith, balanced, i1)) λ m2 s2 i2 a2.
        drain_then IsDrained g.list_pool _ m2 s2 _ a2 (omega (arith, balanced, i1, i2))
          λ m3 s3 i3 a3.
            drain_then IsDrained g.closure_pool _ m3 s3 _ a3 (omega (arith, balanced, i1, i2, i3))
              λ m4 s4 i4 a4.
                drain_then IsDrained g.bytevector_pool _ m4 s4 _ a4
                  (omega (arith, balanced, i1, i2, i3, i4))
                  λ m5 s5 i5 a5.
                    drain_then IsDrained g.mut_bytevector_pool _ m5 s5 _ a5
                      (omega (arith, balanced, i1, i2, i3, i4, i5))
                      λ m6 s6 i6 a6.
                        drain_then IsDrained g.obj_pool [] m6 s6 _ a6
                          (omega (arith, balanced, i1, i2, i3, i4, i5, i6))
                          λ m7 s7 i7 a7.
                            (_, (refl, (refl, omega (arith, balanced, i1, i2, i3, i4, i5, i6, i7))))
