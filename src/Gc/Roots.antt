-- ===== src/Gc/Roots.antt =====
-- gc.c: the active roots, which are the objects that the frames of the stack refer to.
use animula.Prelude.{
  ℕ, zero, suc, ◌+◌, ◌-◌, ◌/◌, ◌%◌, ◌^◌, Bool, false, ◌==◌, ◌||◌, if◌then◌else◌, Option, none, some,
  List, [], ◌∷◌, length,
}
use animula.Run.{Run, ok, panic, fault, ◌>>=◌}
use animula.Object.{OType, Object}
use animula.Vm.Memory.{Memory, read, number, object_of}
use animula.Vm.State.{Closure}
use animula.Vm.Stack.{no_prev_fp, object_size, fps}
use animula.Gc.{Blocks, object, pair_of, list_of, block_at}

-- `PRE_ARN`.
abbrev pub pre_arn : ℕ
pre_arn = 100

-- `exist`: whether the tree of the active roots has the value.
abbrev pub exist : (p : ℕ) → (roots : List ℕ) → Bool
exist p [] = false
exist p (q ∷ roots) = (p == q) || exist p roots

-- `insert_value` with `arn_alloc`: the values of the nodes of `_arn` that are used. The tree does not
-- take a value twice, but its node is used.
unfoldable pub insert_value : (p : ℕ) → List ℕ → Run (List ℕ)
insert_value p roots = if length roots == pre_arn then panic else ok (p ∷ roots)

-- The loop over the nodes of a list.
unfoldable pub insert_all :
    (insert : ℕ → List ℕ → Run (List ℕ)) → (objs roots : List ℕ) → Run (List ℕ)
insert_all insert [] roots = ok roots
insert_all insert (obj ∷ objs) roots = do roots' ← insert obj roots; insert_all insert objs roots'

-- The inner object at `p` of a pair, and the pair itself.
unfoldable pub insert_pair :
    (insert : ℕ → List ℕ → Run (List ℕ)) → (p : ℕ) → Blocks → List ℕ → Run (List ℕ)
insert_pair insert p m roots = do
  b ← block_at p m
  elim b.body [
    | pair_of car cdr ↦ do
      roots1 ← insert car roots
      roots2 ← insert cdr roots1
      insert_value p roots2
    | _ ↦ fault
  ]

-- The inner object at `p` of a list, and the list itself.
unfoldable pub insert_list :
    (insert : ℕ → List ℕ → Run (List ℕ)) → (p : ℕ) → Blocks → List ℕ → Run (List ℕ)
insert_list insert p m roots = do
  b ← block_at p m
  elim b.body [
    | list_of objs non_shared ↦ do roots' ← insert_all insert objs roots; insert_value p roots'
    | _ ↦ fault
  ]

-- The `switch` of `active_root_insert`.
abbrev pub insert_children :
    OType → (insert : ℕ → List ℕ → Run (List ℕ)) → (value : ℕ) → Blocks → List ℕ → Run (List ℕ)
insert_children OType.pair insert value m roots = insert_pair insert value m roots
insert_children OType.list insert value m roots = insert_list insert value m roots
insert_children OType.vector insert value m roots = panic
insert_children _ insert value m roots = ok roots

-- `active_root_insert`, on fuel for the depth of the object.
unfoldable pub active_root_insert : (fuel : ℕ) → Blocks → (p : ℕ) → List ℕ → Run (List ℕ)
active_root_insert zero m p roots = fault
active_root_insert (suc fuel) m p roots =
    if p == 0xdeadbeef
    then ok roots
    else if p == 0
    then panic
    else if exist p roots
    then ok roots
    else do
      b ← block_at p m
      elim b.body [
        | object t value ↦ do
          roots' ← insert_children t (active_root_insert fuel m) value m roots
          insert_value p roots'
        | _ ↦ fault
      ]

-- The `switch` of `active_root_inner_insert`.
abbrev pub insert_inner : OType → (fuel : ℕ) → Blocks → (value : ℕ) → List ℕ → Run (List ℕ)
insert_inner OType.imm_int fuel m value roots = ok roots
insert_inner OType.character fuel m value roots = ok roots
insert_inner OType.real fuel m value roots = ok roots
insert_inner OType.rational_pos fuel m value roots = ok roots
insert_inner OType.rational_neg fuel m value roots = ok roots
insert_inner OType.boolean fuel m value roots = ok roots
insert_inner OType.null_obj fuel m value roots = ok roots
insert_inner OType.none fuel m value roots = ok roots
insert_inner OType.string fuel m value roots = ok roots
insert_inner OType.symbol fuel m value roots = ok roots
insert_inner OType.primitive fuel m value roots = ok roots
insert_inner OType.procedure fuel m value roots = ok roots
insert_inner OType.pair fuel m value roots = insert_pair (active_root_insert fuel m) value m roots
insert_inner OType.list fuel m value roots = insert_list (active_root_insert fuel m) value m roots
insert_inner _ fuel m value roots = panic

-- `active_root_inner_insert`.
unfoldable pub active_root_inner_insert :
    (fuel : ℕ) → Blocks → OType → (value : ℕ) → List ℕ → Run (List ℕ)
active_root_inner_insert fuel m t value roots =
    if (value == 0) || exist value roots then ok roots else insert_inner t fuel m value roots

module _ (fuel : ℕ) (closures : ℕ → Option Closure) (stack : Memory) (m : Blocks) where
  -- `active_root_insert_frame`: `cnt` objects of the stack from `local` on.
  unfoldable pub active_root_insert_frame : (cnt local : ℕ) → List ℕ → Run (List ℕ)
  active_root_insert_frame zero local roots = ok roots
  active_root_insert_frame (suc cnt) local roots = do
    let o : Object = object_of (read stack local object_size)
    roots' ← active_root_inner_insert fuel m o.type o.value roots
    active_root_insert_frame cnt (local + object_size) roots'

  -- The objects that the closure of a frame has captured; 0 is no closure.
  unfoldable pub insert_captured : (closure : ℕ) → List ℕ → Run (List ℕ)
  insert_captured closure roots = if closure == 0 then ok roots else elim (closures closure) [
    | none ↦ fault
    | some c ↦ active_root_insert_frame c.frame_size c.local roots
  ]

  -- `obj_cnt`, in 8 bits.
  abbrev pub object_count : (sp local : ℕ) → ℕ
  object_count sp local = (sp + 2 ^ 32 - local) % 2 ^ 32 / object_size % 2 ^ 8

  -- The loop of `build_active_root`, on fuel for the frames.
  unfoldable pub frame_loop : (frames fp sp : ℕ) → List ℕ → Run (List ℕ)
  frame_loop zero fp sp roots = if (fp == 0) || (fp == no_prev_fp) then ok roots else fault
  frame_loop (suc frames) fp sp roots = if (fp == 0) || (fp == no_prev_fp) then ok roots else do
    let local : ℕ = (fp + fps) % 2 ^ 16
    roots1 ← active_root_insert_frame (object_count sp local) local roots
    roots2 ← insert_captured (number (read stack (local - 4) 4)) roots1
    frame_loop frames (number (read stack (fp + 2) 2)) fp roots2

-- `GCInfo`, with the closures of the heap.
pub record Info : Type 0 where
  pub fp : ℕ
  pub sp : ℕ
  pub stack : Memory
  pub hurt : Bool
  pub closures : ℕ → Option Closure

-- `build_active_root`.
unfoldable pub build_active_root : (fuel : ℕ) → Info → Blocks → List ℕ → Run (List ℕ)
build_active_root fuel info m roots =
    frame_loop fuel info.closures info.stack m fuel info.fp info.sp roots
