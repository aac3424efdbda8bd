-- ===== src/Vm/Apply.antt =====
-- vm.c: `apply_proc`, the cases of `call_prim` that run code (map, for-each, apply,
-- with-exception-handler), and the interpreter with all of them.
mod Steps
pub mod Fixed
use animula.Prelude.{
  ℕ, zero, suc, ◌+◌, ◌-◌, ◌*◌, ◌/◌, ◌%◌, ◌^◌, Bool, true, false, ◌||◌, ◌&&◌, ◌==◌, if◌then◌else◌,
}
use animula.Run.{Run, ok, panic, fault}
use animula.Object.{OType, Object, same, none_const}
use animula.Store.{Store, put, fetch}
use animula.Lists.{list_first, generation}
use animula.Equality.{proc_entry}
use animula.Vm.State.{Vm, VmState, M, pure, and_then, ◌>>=◌, ◌>>◌, get, lift}
use animula.Vm.State
use animula.Vm.Stack.{fps, reg, push_obj, pop_obj, push_reg, pop_reg, push, push_closure}
use animula.Vm.Frame.{restore, save_env_simple, restore_simple, fix_pc}
use animula.Vm.Decode.{is_run, is_init_globals, fetch_next_bytecode, bc_type, bc_data}
use animula.Vm.Interp.{Services, make_object, call_closure_on_heap, dispatch}
use animula.Vm.Cells.{empty_list, set_list_gc, append_object, node_object, next_node}
use animula.Vm.Alloc
use animula.Vm.Alloc.{on_heap, read_heap, set_cell, make_list, make_block, block_gc}
use animula.Vm.Prims.{Board, ret_obj, call_function}

-- `IS_PROC_END`: the byte code of the primitive `restore`.
abbrev pub is_proc_end : ℕ → Bool
is_proc_end b = bc_type b == 12 && bc_data b == 14

-- `GEN_PRIM (ret)` and `GEN_PRIM (restore)`.
abbrev pub prim_ret : Object
prim_ret = make_object OType.primitive 0 0

abbrev pub prim_restore : Object
prim_restore = make_object OType.primitive 0 14

abbrev pub set_state : VmState → M (Unit {0})
set_state state = do vm ← get; State.put (record vm { state = state })

-- `vm->sp = vm->local`.
abbrev pub drop_frame : M (Unit {0})
drop_frame = do vm ← get; State.put (record vm { sp = vm.local })

abbrev pub is_excpt : VmState → Bool
is_excpt VmState.excpt = true
is_excpt _ = false

abbrev pub is_excpt_cont : VmState → Bool
is_excpt_cont VmState.excpt_cont = true
is_excpt_cont _ = false

-- The node of a new cell behind `prev`, and the cell.
unfoldable pub append_cell : (l prev : ℕ) → M (ℕ × ℕ)
append_cell l prev = on_heap (append_object l prev ret_obj)

unfoldable pub set_gc : (l gc : ℕ) → M (Unit {0})
set_gc l gc = on_heap (set_list_gc l gc)

unfoldable pub load_node : (node : ℕ) → M Object
load_node node = read_heap (node_object node)

unfoldable pub load_next : (node : ℕ) → M ℕ
load_next node = read_heap (next_node node)

unfoldable pub load_first : Object → M ℕ
load_first lst = read_heap (λ h. list_first h lst)

-- `s` is what the byte codes call, one nesting of `call_prim` deeper; `fuel` bounds each loop.
module _ (s : Services) where
  unfoldable pub apply_loop : ℕ → M (Unit {0})
  apply_loop zero vm = if is_run vm.state then fault else ok (tt, vm)
  apply_loop (suc n) vm =
      if is_run vm.state
      then and_then (fetch_next_bytecode vm)
          (λ b. if is_proc_end b then pure tt else dispatch s b >> apply_loop n)
      else ok (tt, vm)

  -- `apply_proc`; `wanted` says that `ret` is no null pointer.
  unfoldable pub apply_proc : (fuel : ℕ) → (wanted : Bool) → Object → M Object
  unfolding apply_loop
  apply_proc fuel wanted proc = do
    vm ← get
    State.put (record vm { pc = proc_entry proc })
    apply_loop fuel
    o ← pop_obj
    vm₁ ← get
    if wanted && is_excpt_cont vm₁.state
        then (do push_reg vm₁.pc; vm₂ ← get; push_reg vm₂.sp)
        else pure tt
    pure (record o { gc = 1 })

  -- The result of one call of `map`, behind which the frame is dropped.
  unfoldable pub map_call : (fuel : ℕ) → (proc : Object) → (cell : ℕ) → M (Unit {0})
  unfolding apply_proc
  map_call fuel proc cell =
      if same proc.type OType.procedure
      then (do o ← apply_proc fuel true proc; set_cell cell o)
      else if same proc.type OType.primitive
      then (do s.call_prim proc.value; o ← pop_obj; set_cell cell o)
      else pure tt

  unfoldable pub map_loop :
      (fuel : ℕ) → (calls : ℕ) → (proc : Object) → (l node prev : ℕ) → M (Unit {0})
  unfolding map_call
  map_loop zero calls proc l node prev = if node == 0 then pure tt else lift fault
  map_loop (suc fuel) calls proc l node prev = if node == 0 then pure tt else do
    (new_node, cell) ← append_cell l prev
    drop_frame
    push_obj prim_ret
    o ← load_node node
    push_obj o
    map_call calls proc cell
    drop_frame
    next ← load_next node
    map_loop fuel calls proc l next new_node

  unfoldable pub map : (fuel : ℕ) → M (Unit {0})
  unfolding map_loop
  map fuel = do
    lst ← pop_obj
    proc ← pop_obj
    l ← make_list 0
    save_env_simple
    first ← load_first lst
    map_loop fuel fuel proc l first 0
    vm ← get
    set_gc l (block_gc vm)
    push_obj (make_object OType.list 3 l)
    restore_simple

  unfoldable pub foreach_loop :
      (fuel : ℕ) → (calls : ℕ) → (proc : Object) → (node : ℕ) → M (Unit {0})
  unfolding apply_proc
  foreach_loop zero calls proc node = if node == 0 then pure tt else lift fault
  foreach_loop (suc fuel) calls proc node = if node == 0 then pure tt else do
    drop_frame
    push_obj prim_ret
    o ← load_node node
    push_obj o
    if same proc.type OType.procedure
        then (do r ← apply_proc calls false proc; pure tt)
        else if same proc.type OType.primitive
        then s.call_prim proc.value
        else pure tt
    drop_frame
    next ← load_next node
    foreach_loop fuel calls proc next

  -- The prelude pushes no `local`, which `RESTORE` pops.
  unfoldable pub foreach : (fuel : ℕ) → M (Unit {0})
  unfolding foreach_loop
  foreach fuel = do
    lst ← pop_obj
    proc ← pop_obj
    vm ← get
    push_reg vm.pc
    push_reg vm.fp
    push vm.attr
    push_closure vm.closure
    vm₁ ← get
    let fp = reg (vm₁.sp + 2 ^ 16 - fps)
    State.put (record vm₁ { fp = fp; local = reg (fp + fps) })
    first ← load_first lst
    foreach_loop fuel fuel proc first
    restore
    push_obj none_const

  unfoldable pub push_nodes : (fuel : ℕ) → (node : ℕ) → M (Unit {0})
  push_nodes zero node = if node == 0 then pure tt else lift fault
  push_nodes (suc fuel) node =
      if node == 0
      then pure tt
      else do o ← load_node node; push_obj o; next ← load_next node; push_nodes fuel next

  unfoldable pub apply : (fuel : ℕ) → M (Unit {0})
  unfolding push_nodes apply_proc
  apply fuel = do
    args ← pop_obj
    proc ← pop_obj
    first ← load_first args
    push_nodes fuel first
    fix_pc
    if same proc.type OType.procedure
        then (do o ← apply_proc fuel true proc; push_obj o)
        else if same proc.type OType.primitive
        then s.call_prim proc.value
        else if same proc.type OType.closure_on_heap
        then call_closure_on_heap proc
        else lift panic

  -- From `extent:` on, with the thunk and its result.
  unfoldable pub extent :
      (fuel : ℕ)
      → (calls : ℕ) → (handler : Object) → (local : ℕ) → (thunk result : Object) → M Object
  unfolding apply_proc
  extent zero calls handler local thunk result = lift fault
  extent (suc fuel) calls handler local thunk result = do
    vm ← get
    if is_excpt_cont vm.state
        then (do
          sp ← pop_reg
          pc ← pop_reg
          save_env_simple
          push_obj prim_restore
          push_obj result
          set_state VmState.run
          answer ← apply_proc calls true handler
          push_obj answer
          restore_simple
          vm₁ ← get
          State.put (record vm₁ { sp = sp; local = local })
          push_obj answer
          let next : Object = record thunk { value = thunk.value % 2 ^ 16 + pc * 2 ^ 16 }
          result₁ ← apply_proc calls true next
          extent fuel calls handler local next result₁)
        else if is_excpt vm.state
        then (do
          save_env_simple
          push_obj prim_restore
          push_obj result
          set_state VmState.run
          o ← apply_proc calls false handler
          restore_simple
          set_state VmState.stop
          pure result)
        else pure result

  unfoldable pub with_exception_handler : (fuel : ℕ) → M (Unit {0})
  unfolding extent apply_proc
  with_exception_handler fuel = do
    thunk ← pop_obj
    handler ← pop_obj
    save_env_simple
    vm ← get
    push_obj prim_restore
    result ← apply_proc fuel true thunk
    final ← extent fuel fuel handler vm.local thunk result
    push_obj final
    restore_simple

  -- Behind the cases that run code or change the state, the functions of the table.
  unfoldable pub call_prim : Board → (fuel : ℕ) → ℕ → M (Unit {0})
  call_prim board fuel pn =
      if pn == 0
      then pure tt
      else if pn == 14
      then restore
      else if pn == 6
      then (do obj ← pop_obj; push_obj none_const)
      else if pn == 1
      then (do vm ← get; if vm.sp == 0 then pure tt else do o ← pop_obj; pure tt)
      else if pn == 19
      then map fuel
      else if pn == 18
      then foreach fuel
      else if pn == 7
      then apply fuel
      else if pn == 46
      then set_state VmState.excpt
      else if pn == 47
      then set_state VmState.excpt_cont
      else if pn == 45
      then with_exception_handler fuel
      else call_function board fuel pn

-- Where the symbols of the image begin.
pub record Addresses : Type 0 where
  pub symbols_at : ℕ

-- `call_prim` nests at most `fuel` deep, and a loop in it runs at most `fuel` rounds.
unfoldable pub services : Board → Addresses → (fuel : ℕ) → Services
services board addresses zero = record {
  call_prim = λ pn. lift fault;
  handle_optional_args = Alloc.handle_optional_args;
  allocate = Alloc.allocate;
  symbol_at = λ offset. pure (addresses.symbols_at + offset);
  malloc = make_block;
}
services board addresses (suc fuel) = record {
  call_prim = call_prim (services board addresses fuel) board fuel;
  handle_optional_args = Alloc.handle_optional_args;
  allocate = Alloc.allocate;
  symbol_at = λ offset. pure (addresses.symbols_at + offset);
  malloc = make_block;
}
