-- ===== src/Gc/Collect.antt =====
-- gc.c: the collection of the pools, the sweep, and the calls of the machine.
pub mod Balance
pub mod Steps
pub mod Drain
use animula.Prelude.{
  ℕ, zero, suc, ◌+◌, Bool, true, false, ◌==◌, ◌||◌, ◌&&◌, if◌then◌else◌, Option, none, some, List,
  [], ◌∷◌,
}
use animula.Run.{Run, ok, panic, fault, ◌>>=◌}
use animula.Object.{OType}
use animula.Gc.{
  Blocks, Pool, Slots, Gc, permanent, block_at, os_free, write_gc, object_list_node_recycle,
}
use animula.Gc.Roots.{exist, Info, build_active_root}
use animula.Gc.Free.{free_object, free_inner_object, get_gc_from_node, set_gc_to_node}

-- The generation of an object that is not permanent after a collection.
abbrev pub next_gc : (alive hurt : Bool) → (gc : ℕ) → ℕ
next_gc false hurt gc = 0
next_gc true hurt gc = if gc == 1 then 2 else if (gc == 2) && hurt then 0 else gc

module _ (fuel : ℕ) (roots : List ℕ) (hurt force : Bool) where
  -- The round of `collect` for the object at `p`.
  abbrev pub collect_object : (p count : ℕ) → Blocks → Run (ℕ × Blocks)
  collect_object p count m = do
    b ← block_at p m
    if (b.gc == permanent) && (if force then false else true) then ok (count, m) else do
      m1 ← write_gc p (if force then 0 else next_gc (exist p roots) hurt b.gc) m
      b1 ← block_at p m1
      if b1.gc == 0 then (do m2 ← free_object fuel p m1; ok (count + 1, m2)) else ok (count, m1)

  -- `collect`.
  unfoldable pub collect : Pool → (count : ℕ) → Blocks → Run (ℕ × Blocks)
  collect [] count m = ok (count, m)
  collect ((node, p) ∷ pool) count m = do
    (count', m') ← collect_object p count m
    collect pool count' m'

  -- The round of `collect_inner` for the inner object at `p`.
  abbrev pub collect_node : OType → (p count : ℕ) → Blocks → Run (ℕ × Blocks)
  collect_node t p count m = do
    gc ← if force then ok 0 else get_gc_from_node t p m
    if gc == permanent
        then ok (count, m)
        else if next_gc (exist p roots) hurt gc == 0
        then (do m' ← free_inner_object fuel t p m; ok (count + 1, m'))
        else do m' ← set_gc_to_node t p (next_gc (exist p roots) hurt gc) m; ok (count, m')

  -- `collect_inner`.
  unfoldable pub collect_inner : Pool → OType → (count : ℕ) → Blocks → Run (ℕ × Blocks)
  collect_inner [] t count m = ok (count, m)
  collect_inner ((node, p) ∷ pool) t count m = do
    (count', m') ← collect_node t p count m
    collect_inner pool t count' m'

-- `release_all_free_objects` of a pool: the nodes that stay, and what the heap and `_oln` are after it.
unfoldable pub release_all_free_objects :
    (force : Bool) → Pool → Blocks → Slots → Run (Pool × (Blocks × Slots))
release_all_free_objects force [] m s = ok ([], (m, s))
release_all_free_objects force ((node, p) ∷ pool) m s = do
  b ← block_at p m
  if (b.gc == 0) || force
      then (do
        m' ← os_free p m
        s' ← object_list_node_recycle node s
        release_all_free_objects force pool m' s')
      else (do
        (kept, (m', s')) ← release_all_free_objects force pool m s
        ok ((node, p) ∷ kept, (m', s')))

-- `sweep`.
unfoldable pub sweep : (force : Bool) → Gc → Run Gc
sweep force g = do
  (pairs, (m1, s1)) ← release_all_free_objects force g.pair_pool g.heap g.slots
  (vectors, (m2, s2)) ← release_all_free_objects force g.vector_pool m1 s1
  (lists, (m3, s3)) ← release_all_free_objects force g.list_pool m2 s2
  (closures, (m4, s4)) ← release_all_free_objects force g.closure_pool m3 s3
  (bytevectors, (m5, s5)) ← release_all_free_objects force g.bytevector_pool m4 s4
  (muts, (m6, s6)) ← release_all_free_objects force g.mut_bytevector_pool m5 s5
  (objs, (m7, s7)) ← release_all_free_objects force g.obj_pool m6 s6
  ok (record g {
    heap = m7;
    slots = s7;
    pair_pool = pairs;
    vector_pool = vectors;
    list_pool = lists;
    closure_pool = closures;
    bytevector_pool = bytevectors;
    mut_bytevector_pool = muts;
    obj_pool = objs;
  })

-- The six calls of `collect_inner` of `gc` and of `gc_clean_cache`.
unfoldable pub collect_pools :
    (fuel : ℕ) → (hurt force : Bool) → (count : ℕ) → Gc → Run (ℕ × Blocks)
collect_pools fuel hurt force count g = do
  (c1, m1) ← collect_inner fuel g.roots hurt force g.pair_pool OType.pair count g.heap
  (c2, m2) ← collect_inner fuel g.roots hurt force g.vector_pool OType.vector c1 m1
  (c3, m3) ← collect_inner fuel g.roots hurt force g.list_pool OType.list c2 m2
  (c4, m4) ← collect_inner fuel g.roots hurt force g.closure_pool OType.closure_on_heap c3 m3
  (c5, m5) ← collect_inner fuel g.roots hurt force g.bytevector_pool OType.bytevector c4 m4
  collect_inner fuel g.roots hurt force g.mut_bytevector_pool OType.mut_bytevector c5 m5

-- The collecting calls of `gc`: a second round, where the first has freed nothing and `hurt` is set.
unfoldable pub collect_all : (fuel : ℕ) → (hurt : Bool) → Gc → Run Blocks
collect_all fuel hurt g = do
  (c1, m1) ← collect_pools fuel false false 0 g
  (c2, m2) ← collect fuel g.roots false false g.obj_pool c1 m1
  if (c2 == 0) && hurt
      then (do
        (c3, m3) ← collect_pools fuel true false c2 (record g { heap = m2 })
        (c4, m4) ← collect fuel g.roots false false g.obj_pool c3 m3
        ok m4)
      else ok m2

-- `gc`: the active roots are built, the pools collected and swept, and the roots forgotten.
unfoldable pub gc : (fuel : ℕ) → Info → Gc → Run Gc
gc fuel info g = do
  roots ← build_active_root fuel info g.heap g.roots
  m ← collect_all fuel info.hurt (record g { roots = roots })
  g' ← sweep false (record g { heap = m })
  ok (record g' { roots = [] })

-- `gc_clean_cache`.
unfoldable pub gc_clean_cache : (fuel : ℕ) → Gc → Run Gc
gc_clean_cache fuel g = do
  (count, m) ← collect_pools fuel false true 0 g
  sweep true (record g { heap = m })

-- `simple_collect`.
unfoldable pub simple_collect : Pool → Blocks → Run Blocks
simple_collect [] m = ok m
simple_collect ((node, p) ∷ pool) m = do
  b ← block_at p m
  m' ← if b.gc == permanent then ok m else write_gc p 0 m
  simple_collect pool m'

-- `gc_try_to_recycle`.
unfoldable pub gc_try_to_recycle : Gc → Run Gc
gc_try_to_recycle g = do
  m1 ← simple_collect g.obj_pool g.heap
  m2 ← simple_collect g.list_pool m1
  m3 ← simple_collect g.vector_pool m2
  m4 ← simple_collect g.pair_pool m3
  (closures, (m5, s5)) ← release_all_free_objects true g.closure_pool m4 g.slots
  ok (record g { heap = m5; slots = s5; closure_pool = closures })

-- `get_free_obj_node`: the first free object of the pool, now of the first generation, or `NULL`.
unfoldable pub get_free_obj_node : Pool → Blocks → Run (ℕ × Blocks)
get_free_obj_node [] m = ok (0, m)
get_free_obj_node ((node, p) ∷ pool) m = do
  b ← block_at p m
  if b.gc == 0 then (do m' ← write_gc p 1 m; ok (p, m')) else get_free_obj_node pool m

-- The pool that `gc_pool_malloc` takes for a type; it ends in `PANIC` for the others.
abbrev pub pool_of : OType → Gc → Option Pool
pool_of OType.imm_int g = some g.obj_pool
pool_of OType.character g = some g.obj_pool
pool_of OType.real g = some g.obj_pool
pool_of OType.rational_pos g = some g.obj_pool
pool_of OType.rational_neg g = some g.obj_pool
pool_of OType.boolean g = some g.obj_pool
pool_of OType.null_obj g = some g.obj_pool
pool_of OType.none g = some g.obj_pool
pool_of OType.string g = some g.obj_pool
pool_of OType.symbol g = some g.obj_pool
pool_of OType.primitive g = some g.obj_pool
pool_of OType.procedure g = some g.obj_pool
pool_of OType.list g = some g.list_pool
pool_of OType.pair g = some g.pair_pool
pool_of OType.vector g = some g.vector_pool
pool_of OType.bytevector g = some g.bytevector_pool
pool_of OType.mut_bytevector g = some g.mut_bytevector_pool
pool_of _ g = none

-- `gc_pool_malloc`.
unfoldable pub gc_pool_malloc : OType → Gc → Run (ℕ × Gc)
gc_pool_malloc t g = elim (pool_of t g) [
  | none ↦ panic
  | some pool ↦ do (p, m) ← get_free_obj_node pool g.heap; ok (p, record g { heap = m })
]
