-- ===== src/Gc/Collect/Balance.antt =====
-- gc.c: the nodes of the pools are those that `_oln` has given away.
use animula.Prelude.{
  ℕ, ◌+◌, ◌-◌, ◌≡◌, refl, Bool, true, false, ◌==◌, ◌||◌, Option, none, some, get_elem?, [], ◌∷◌,
  length, get_elem?, ◌⊎◌, inl, inr, arith,
}
use animula.Run.{Run, ok, panic, ◌>>=◌}
use animula.Object.{OType}
use animula.Gc.{
  Blocks, Pool, Slots, Gc, block_at, os_free, object_list_node_available, take_node,
  object_list_node_alloc, object_list_node_recycle, gc_obj_book, insert_pool, gc_inner_obj_book,
}
use animula.Gc.Roots.{Info, build_active_root}
use animula.Gc.Returns.{
  Returns, returns, panics, faults, map-Returns, branch-Returns, any-Returns, bind-Returns,
}
use animula.Gc.Collect.{
  release_all_free_objects, sweep, collect_pools, collect_all, gc, gc_clean_cache, simple_collect,
  gc_try_to_recycle, get_free_obj_node, pool_of, gc_pool_malloc,
}

-- The number of nodes in the pools.
abbrev pub booked : Gc → ℕ
booked g =
    length g.obj_pool
    + length g.list_pool
    + length g.vector_pool
    + length g.pair_pool
    + length g.closure_pool
    + length g.bytevector_pool
    + length g.mut_bytevector_pool

abbrev pub IsBalanced : Gc → Type 0
IsBalanced g = g.slots.index ≡ booked g

-- What `release_all_free_objects` has taken off a pool has gone back to `_oln`.
abbrev Released : Pool → Slots → Pool × (Blocks × Slots) → Type 0
Released pool s (kept, (m, s')) = length kept + s.index ≡ length pool + s'.index

is_not_zero : (n : ℕ) → (n == 0) ≡ false → n ≡ (n - 1) + 1
is_not_zero n e = ground (arith, e)

not_zero : (n : ℕ) → n ≡ 0 → (n == 0) ≡ false → ⊥
not_zero n z e = ground (arith, z, e)

recycle-index :
    (node : ℕ) (s : Slots)
    → Returns (λ s'. s.index ≡ s'.index + 1) (object_list_node_recycle node s)
recycle-index node s =
    branch-Returns (s.index == 0) _ _ (λ e. faults) (λ e. returns (is_not_zero s.index e))

release-Returns :
    (force : Bool) (pool : Pool) (m : Blocks) (s : Slots)
    → Returns (Released pool s) (release_all_free_objects force pool m s)
unfolding release_all_free_objects
release-Returns force [] m s = returns refl
release-Returns force ((node, p) ∷ pool) m s = bind-Returns _ (any-Returns (block_at p m)) λ b _.
    branch-Returns ((b.gc == 0) || force) _ _
      (λ _. bind-Returns _ (any-Returns (os_free p m)) λ m' _.
        bind-Returns _ (recycle-index node s) λ s' i.
          map-Returns (release-Returns force pool m' s') λ (kept, (m1, s1)) r. omega (arith, i, r))
      (λ _.
        bind-Returns _ (release-Returns force pool m s)
          λ (kept, (m1, s1)) r. returns (omega (arith, r)))

-- The pools have as many more or fewer nodes as `_oln` has given away more or fewer.
abbrev pub Conserved : Gc → Gc → Type 0
Conserved g g' = booked g' + g.slots.index ≡ booked g + g'.slots.index

pub sweep-Conserved : (force : Bool) (g : Gc) → Returns (Conserved g) (sweep force g)
unfolding sweep
sweep-Conserved force g =
    bind-Returns _ (release-Returns force g.pair_pool g.heap g.slots) λ (k1, (m1, s1)) r1.
      bind-Returns _ (release-Returns force g.vector_pool m1 s1) λ (k2, (m2, s2)) r2.
        bind-Returns _ (release-Returns force g.list_pool m2 s2) λ (k3, (m3, s3)) r3.
          bind-Returns _ (release-Returns force g.closure_pool m3 s3) λ (k4, (m4, s4)) r4.
            bind-Returns _ (release-Returns force g.bytevector_pool m4 s4) λ (k5, (m5, s5)) r5.
              bind-Returns _ (release-Returns force g.mut_bytevector_pool m5 s5)
                λ (k6, (m6, s6)) r6.
                  bind-Returns _ (release-Returns force g.obj_pool m6 s6)
                    λ (k7, (m7, s7)) r7. returns (omega (arith, r1, r2, r3, r4, r5, r6, r7))

pub Conserved-IsBalanced : (g g' : Gc) → IsBalanced g → Conserved g g' → IsBalanced g'
Conserved-IsBalanced g g' h s = omega (arith, h, s)

pub gc-Conserved : (fuel : ℕ) (info : Info) (g : Gc) → Returns (Conserved g) (gc fuel info g)
unfolding gc
gc-Conserved fuel info g =
    bind-Returns _ (any-Returns (build_active_root fuel info g.heap g.roots)) λ roots _.
      bind-Returns _ (any-Returns (collect_all fuel info.hurt (record g { roots = roots })))
        λ m _. bind-Returns _ (sweep-Conserved false (record g { heap = m })) λ g' h. returns h

pub gc_clean_cache-Conserved : (fuel : ℕ) (g : Gc) → Returns (Conserved g) (gc_clean_cache fuel g)
unfolding gc_clean_cache
gc_clean_cache-Conserved fuel g =
    bind-Returns _ (any-Returns (collect_pools fuel false true 0 g))
      λ (c, m) _. sweep-Conserved true (record g { heap = m })

pub gc_try_to_recycle-Conserved : (g : Gc) → Returns (Conserved g) (gc_try_to_recycle g)
unfolding gc_try_to_recycle
gc_try_to_recycle-Conserved g =
    bind-Returns _ (any-Returns (simple_collect g.obj_pool g.heap)) λ m1 _.
      bind-Returns _ (any-Returns (simple_collect g.list_pool m1)) λ m2 _.
        bind-Returns _ (any-Returns (simple_collect g.vector_pool m2)) λ m3 _.
          bind-Returns _ (any-Returns (simple_collect g.pair_pool m3)) λ m4 _.
            bind-Returns _ (release-Returns true g.closure_pool m4 g.slots)
              λ (k, (m5, s5)) r. returns (omega (arith, r))

-- Either no node is there, or the next slot is taken.
abbrev Taken : Slots → ℕ × Slots → Type 0
Taken s (node, s') = (node ≡ 0) ⊎ (s'.index ≡ s.index + 1)

take_node-Taken : (next : Option ℕ) (s : Slots) → Returns (Taken s) (take_node next s)
take_node-Taken none s = faults
take_node-Taken (some node) s =
    branch-Returns (node == 0) _ _ (λ _. panics) (λ _. returns (inr refl))

alloc-Taken : (s : Slots) → Returns (Taken s) (object_list_node_alloc s)
alloc-Taken s =
    branch-Returns (object_list_node_available s == 0) _ _ (λ _. returns (inl refl))
      (λ _. take_node-Taken (get_elem? s.oln s.index) s)

insert_pool-Conserved :
    (t : OType) (node obj : ℕ) (g : Gc) (s : Slots)
    → s.index ≡ g.slots.index + 1
    → Returns (Conserved g) (insert_pool t node obj (record g { slots = s }))
insert_pool-Conserved OType.pair node obj g s h = returns (omega (arith, h))
insert_pool-Conserved OType.vector node obj g s h = returns (omega (arith, h))
insert_pool-Conserved OType.list node obj g s h = returns (omega (arith, h))
insert_pool-Conserved OType.closure_on_heap node obj g s h = returns (omega (arith, h))
insert_pool-Conserved OType.closure_on_stack node obj g s h = returns (omega (arith, h))
insert_pool-Conserved OType.bytevector node obj g s h = returns (omega (arith, h))
insert_pool-Conserved OType.mut_bytevector node obj g s h = returns (omega (arith, h))
insert_pool-Conserved _ node obj g s h = panics

pub gc_obj_book-Conserved : (obj : ℕ) (g : Gc) → Returns (Conserved g) (gc_obj_book obj g)
unfolding gc_obj_book
gc_obj_book-Conserved obj g = bind-Returns _ (alloc-Taken g.slots) λ (node, s) taken.
    branch-Returns (node == 0) _ _ (λ _. panics)
      (λ e. returns (elim taken [ inl z ↦ absurd (not_zero node z e) | inr h ↦ omega (arith, h) ]))

pub gc_inner_obj_book-Conserved :
    (t : OType) (obj : ℕ) (g : Gc) → Returns (Conserved g) (gc_inner_obj_book t obj g)
unfolding gc_inner_obj_book
gc_inner_obj_book-Conserved t obj g = bind-Returns _ (alloc-Taken g.slots) λ (node, s) taken.
    branch-Returns (node == 0) _ _ (λ _. panics)
      (λ e. elim taken [
        | inl z ↦ absurd (not_zero node z e)
        | inr h ↦ insert_pool-Conserved t node obj g s h
      ])

pool_malloc-Conserved :
    (pool : Option Pool) (g : Gc)
    → Returns
        (λ (r : ℕ × Gc). Conserved g r.1)
        (elim pool as (λ _. Run (ℕ × Gc)) [
          | none ↦ panic
          | some nodes ↦ do (p, m) ← get_free_obj_node nodes g.heap; ok (p, record g { heap = m })
        ])
pool_malloc-Conserved none g = panics
pool_malloc-Conserved (some nodes) g =
    bind-Returns _ (any-Returns (get_free_obj_node nodes g.heap)) λ (p, m) _. returns refl

pub gc_pool_malloc-Conserved :
    (t : OType) (g : Gc) → Returns (λ (r : ℕ × Gc). Conserved g r.1) (gc_pool_malloc t g)
unfolding gc_pool_malloc
gc_pool_malloc-Conserved t g = pool_malloc-Conserved (pool_of t g) g
