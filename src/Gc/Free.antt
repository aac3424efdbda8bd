-- ===== src/Gc/Free.antt =====
-- gc.c: the release of an object and of what it refers to.
use animula.Prelude.{ℕ, zero, suc, ◌+◌, ◌%◌, ◌^◌, ◌==◌, if◌then◌else◌, some, [], ◌∷◌}
use animula.Run.{Run, ok, panic, fault, ◌>>=◌}
use animula.Object.{OType}
use animula.Gc.{
  object, pair_of, list_of, bytes, Block, Blocks, permanent, block_at, with_block, os_free,
  write_gc,
}

abbrev pub car_of : Block → Run ℕ
car_of b = elim b.body [ pair_of car cdr ↦ ok car | _ ↦ fault ]

abbrev pub cdr_of : Block → Run ℕ
cdr_of b = elim b.body [ pair_of car cdr ↦ ok cdr | _ ↦ fault ]

-- The two calls of `free_object` for the pair at `p`; the pair is read for each.
unfoldable pub free_pair : (ℕ → Blocks → Run Blocks) → (p : ℕ) → Blocks → Run Blocks
free_pair free p m = do
  b ← block_at p m
  car ← car_of b
  m' ← free car m
  b' ← block_at p m'
  cdr ← cdr_of b'
  free cdr m'

-- The loop over the nodes of the list at `p`, which stops at the shared part.
unfoldable pub free_nodes :
    (free : ℕ → Blocks → Run Blocks) → (fuel p cnt : ℕ) → Blocks → Run Blocks
free_nodes free zero p cnt m = fault
free_nodes free (suc fuel) p cnt m = do
  b ← block_at p m
  elim b.body [
    | list_of [] non_shared ↦ ok m
    | list_of (obj ∷ objs) non_shared ↦ if cnt == non_shared then ok m else do
      m' ← free obj m
      free_nodes free fuel p ((cnt + 1) % 2 ^ 16)
          (with_block p (some (record b { body = list_of objs non_shared })) m')
    | _ ↦ fault
  ]

-- `os_free (((mut_bytevector_t) value)->vec)`.
abbrev pub free_vec : (p : ℕ) → Blocks → Run Blocks
free_vec p m = do b ← block_at p m; elim b.body [ bytes vec ↦ os_free vec m | _ ↦ fault ]

-- What becomes of the value of an object that is freed.
pub data Release : Type 0 where
  nothing pair_value list_value block_value vec_value invalid : Release

-- The cases of `free_object`.
abbrev pub release_of : OType → Release
release_of OType.imm_int = nothing
release_of OType.character = nothing
release_of OType.real = nothing
release_of OType.rational_pos = nothing
release_of OType.rational_neg = nothing
release_of OType.boolean = nothing
release_of OType.null_obj = nothing
release_of OType.none = nothing
release_of OType.string = nothing
release_of OType.symbol = nothing
release_of OType.primitive = nothing
release_of OType.procedure = nothing
release_of OType.pair = pair_value
release_of OType.list = list_value
release_of OType.continuation = block_value
release_of OType.mut_string = block_value
release_of OType.closure_on_heap = block_value
release_of OType.closure_on_stack = block_value
release_of OType.bytevector = block_value
release_of OType.mut_bytevector = vec_value
release_of _ = invalid

-- `free_object`, on fuel for the depth of the object and for the loop over a list.
unfoldable pub free_object : (fuel p : ℕ) → Blocks → Run Blocks
free_object zero p m = fault
free_object (suc fuel) p m = if p == 0xdeadbeef then ok m else if p == 0 then panic else do
  b ← block_at p m
  if b.gc == permanent then ok m else elim b.body [
    | object t value ↦ do
      m' ← elim (release_of t) [
        | nothing ↦ ok m
        | pair_value ↦ free_pair (free_object fuel) value m
        | list_value ↦ free_nodes (free_object fuel) fuel value 0 m
        | block_value ↦ os_free value m
        | vec_value ↦ do m1 ← free_vec value m; os_free value m1
        | invalid ↦ panic
      ]
      write_gc p 0 m'
    | _ ↦ fault
  ]

-- `get_gc_from_node`.
unfoldable pub get_gc_from_node : OType → (p : ℕ) → Blocks → Run ℕ
get_gc_from_node OType.pair p m = do b ← block_at p m; ok b.gc
get_gc_from_node OType.vector p m = do b ← block_at p m; ok b.gc
get_gc_from_node OType.list p m = do b ← block_at p m; ok b.gc
get_gc_from_node OType.closure_on_heap p m = do b ← block_at p m; ok b.gc
get_gc_from_node OType.closure_on_stack p m = do b ← block_at p m; ok b.gc
get_gc_from_node OType.bytevector p m = do b ← block_at p m; ok b.gc
get_gc_from_node OType.mut_bytevector p m = do b ← block_at p m; ok b.gc
get_gc_from_node _ p m = panic

-- `set_gc_to_node`, which has no case for bytevectors.
unfoldable pub set_gc_to_node : OType → (p gc : ℕ) → Blocks → Run Blocks
set_gc_to_node OType.pair p gc m = write_gc p gc m
set_gc_to_node OType.vector p gc m = write_gc p gc m
set_gc_to_node OType.list p gc m = write_gc p gc m
set_gc_to_node OType.closure_on_heap p gc m = write_gc p gc m
set_gc_to_node OType.closure_on_stack p gc m = write_gc p gc m
set_gc_to_node _ p gc m = panic

-- The cases of `free_inner_object`.
abbrev pub free_inner_value : OType → (fuel p : ℕ) → Blocks → Run Blocks
free_inner_value OType.pair fuel p m = do m' ← free_pair (free_object fuel) p m; write_gc p 0 m'
free_inner_value OType.list fuel p m = do
  m' ← free_nodes (free_object fuel) fuel p 0 m
  write_gc p 0 m'
free_inner_value OType.closure_on_heap fuel p m = write_gc p 0 m
free_inner_value OType.closure_on_stack fuel p m = write_gc p 0 m
free_inner_value OType.bytevector fuel p m = write_gc p 0 m
free_inner_value OType.mut_bytevector fuel p m = do m' ← write_gc p 0 m; free_vec p m'
free_inner_value _ fuel p m = panic

-- `free_inner_object`.
unfoldable pub free_inner_object : (fuel : ℕ) → OType → (p : ℕ) → Blocks → Run Blocks
free_inner_object fuel t p m = if p == 0 then panic else do
  gc ← get_gc_from_node t p m
  if gc == permanent then ok m else free_inner_value t fuel p m
