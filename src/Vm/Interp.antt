-- ===== src/Vm/Interp.antt =====
-- vm.c: the functions of the classes of byte codes, `dispatch` and `vm_run`.
pub mod Reach
pub mod Fixed
pub mod Variables
use animula.Prelude.{
  ℕ, zero, suc, ◌+◌, ◌-◌, ◌*◌, ◌/◌, ◌%◌, ◌^◌, Bool, true, false, not, ◌&&◌, ◌||◌, ltb, ◌==◌,
  if◌then◌else◌, Option, none, some, List, [], ◌∷◌, ◌++◌, length, get_elem?, set,
}
use Prim.Native.Nat.{bit_or}
use animula.Run.{Run, ok, panic, fault}
use animula.Object.{OType, Object, code, same, true_const, false_const, none_const}
use animula.Vm.Memory.{type_of}
use animula.Vm.State.{
  Vm, VmState, Closure, M, pure, and_then, ◌>>=◌, ◌>>◌, get, put, lift, shadow_of,
}
use animula.Vm.Stack.{object_size, fps, reg, push_obj, pop_obj, load_bytes, store_bytes}
use animula.Vm.Frame.{
  save_env, fix_pc, proc_call, is_shadow_frame, Ref, closure_at, local_ref, free_ref, deref, assign,
}
use animula.Vm.Decode.{
  is_run, is_init_globals, fetch_next_bytecode, vm_get_uintptr, vm_get_u16, bc_type, bc_data,
  Encode, decode,
}

-- What the interpreter calls, which `services` of Vm/Apply fills: `call_prim`,
-- `handle_optional_args`, the objects of `generate_object` that allocate or point into the code,
-- and `GET_SYMBOL` with `make_symbol`. `malloc` is the address of the next block of `GC_MALLOC`.
pub record Services : Type 0 where
  pub call_prim : ℕ → M (Unit {0})
  pub handle_optional_args : Object → M (Unit {0})
  pub allocate : Object → M Object
  pub symbol_at : ℕ → M ℕ
  pub malloc : M ℕ

-- A `u8_t`.
abbrev pub u8 : ℕ → ℕ
u8 n = n % 256

abbrev pub make_object : OType → (gc value : ℕ) → Object
make_object t gc value = record { type = t; gc = gc; value = value }

-- The place and the depth of a free variable, of the byte code and the byte behind it.
abbrev pub free_up : ℕ → ℕ
free_up frame = frame % 64

abbrev pub free_offset : (b frame : ℕ) → ℕ
free_offset b frame = u8 (bc_data b * 4 + frame / 64 % 4)

-- `GLOBAL` and `GLOBAL_ASSIGN`, which makes the object permanent.
unfoldable pub global_ref : ℕ → M Object
global_ref index = do
  vm ← get
  elim (get_elem? vm.globals index) [ none ↦ lift fault | some o ↦ pure o ]

unfoldable pub global_assign : ℕ → Object → M (Unit {0})
global_assign index var = do
  vm ← get
  if ltb index (length vm.globals)
      then put (record vm { globals = set vm.globals index (record var { gc = 3 }) })
      else lift fault

-- `create_closure`: the objects on top of the stack become the environment.
unfoldable pub pop_env : ℕ → List Object → M (List Object)
pop_env zero env = pure env
pop_env (suc i) env = do o ← pop_obj; pop_env i (o ∷ env)

-- `make_closure` gives a block of its own, at the address `p`.
unfoldable pub create_closure : (p arity frame_size entry : ℕ) → M (Unit {0})
create_closure p arity frame_size entry = do
  env ← pop_env frame_size []
  vm ← get
  let c : Closure = record {
    arity = arity;
    frame_size = frame_size;
    entry = entry;
    local = 0;
    env = env;
  }
  put (record vm { closures = λ q. if q == p then some c else vm.closures q })

unfoldable pub call_closure_on_heap : Object → M (Unit {0})
call_closure_on_heap obj = do
  c ← closure_at obj.value
  vm ← get
  let size = object_size * shadow_of vm.attr
  if is_shadow_frame vm
      then (if ltb vm.sp size || ltb (vm.sp - size) (vm.local + size) then lift fault else do
        bs ← load_bytes (vm.sp - size) size
        store_bytes vm.local bs
        vm' ← get
        put (record vm' { sp = reg (vm.sp - size) }))
      else put (record vm { local = reg (vm.sp + 2 ^ 16 - c.arity * object_size) })
  vm' ← get
  put (record vm' {
    closures =
        λ q. if q == obj.value then some (record c { local = vm'.local }) else vm'.closures q;
    closure = obj.value;
    pc = reg c.entry;
  })

-- `NEED_VARGS`: the arity and the count of the plain arguments are the lower bytes of the word.
abbrev pub need_vargs : Object → Bool
need_vargs p = same p.type OType.procedure && not (u8 p.value == u8 (p.value / 256))

-- `is_false`.
abbrev pub is_false : Object → Bool
is_false obj = same obj.type OType.boolean && obj.value == 0

-- `.gc` of the objects that the byte codes make.
abbrev pub constant_gc : Vm → ℕ
constant_gc vm = if is_init_globals vm.state then 3 else 0

module _ (s : Services) where
  -- `CALL` of the object behind a pointer, which is read before and after `FIX_PC`.
  unfoldable pub call : M Object → M (Unit {0})
  call obj = do
    p ← obj
    if need_vargs p then s.handle_optional_args p else pure tt
    fix_pc
    o ← obj
    if same o.type OType.procedure
        then proc_call (o.value / 2 ^ 16 % 2 ^ 16)
        else if same o.type OType.primitive
        then s.call_prim o.value
        else if same o.type OType.closure_on_heap
        then call_closure_on_heap o
        else lift panic

  unfoldable pub interp_single_encode : ℕ → M (Unit {0})
  interp_single_encode b =
      if bc_type b == 0
      then (do r ← local_ref (bc_data b); o ← deref r; push_obj o)
      else if bc_type b == 1
      then (do r ← local_ref (bc_data b + 16); o ← deref r; push_obj o)
      else if bc_type b == 2
      then (do
        frame ← fetch_next_bytecode
        r ← free_ref (free_up frame) (free_offset b frame)
        o ← deref r
        push_obj o)
      else if bc_type b == 3
      then (do
        frame ← fetch_next_bytecode
        r ← free_ref (free_up frame) (free_offset b frame)
        call (deref r))
      else if bc_type b == 4
      then (do r ← local_ref (bc_data b); call (deref r))
      else if bc_type b == 5
      then (do r ← local_ref (bc_data b + 16); call (deref r))
      else if bc_type b == 6
      then (do
        frame ← fetch_next_bytecode
        r ← free_ref (free_up frame) (free_offset b frame)
        o ← pop_obj
        assign r o)
      else if bc_type b == 7
      then (do
        offset_0 ← fetch_next_bytecode
        r ← local_ref (u8 (bc_data b * 256 + offset_0))
        o ← pop_obj
        assign r o)
      else lift panic

  -- In the longer classes `bc.type` is the lower half of the first byte.
  unfoldable pub interp_double_encode : (b b₂ : ℕ) → M (Unit {0})
  interp_double_encode b b₂ =
      if bc_data b == 0
      then save_env b₂
      else if bc_data b == 1
      then (do r ← local_ref (u8 (b₂ + 32)); o ← deref r; push_obj o)
      else if bc_data b == 2
      then (do r ← local_ref (u8 (b₂ + 32)); call (deref r))
      else if bc_data b == 3
      then (do var ← pop_obj; global_assign b₂ var; push_obj none_const)
      else if bc_data b == 4
      then (do o ← global_ref b₂; push_obj o)
      else if bc_data b == 5
      then call (global_ref b₂)
      else lift panic

  -- The byte codes for further globals fetch another byte behind their operands.
  unfoldable pub interp_triple_encode : (b b₂ b₃ : ℕ) → M (Unit {0})
  interp_triple_encode b b₂ b₃ =
      let offset = b₂ * 256 + b₃ in
      if bc_data b == 0
      then (do fix_pc; proc_call offset)
      else if bc_data b == 1
      then (do
        obj ← pop_obj
        vm ← get
        if is_false obj then put (record vm { pc = reg offset }) else pure tt)
      else if bc_data b == 2
      then (do vm ← get; put (record vm { pc = reg offset }))
      else if bc_data b == 4
      then (do
        index ← fetch_next_bytecode
        var ← pop_obj
        global_assign (index + 256) var
        push_obj none_const)
      else if bc_data b == 5
      then (do index ← fetch_next_bytecode; o ← global_ref (index + 256); push_obj o)
      else if bc_data b == 6
      then (do index ← fetch_next_bytecode; call (global_ref (index + 256)))
      else lift panic

  unfoldable pub interp_quadruple_encode : (b b₂ b₃ b₄ : ℕ) → M (Unit {0})
  interp_quadruple_encode b b₂ b₃ b₄ =
      if bc_data b == 1
      then (do
        heap ← s.malloc
        create_closure heap (b₂ / 16 % 16) (b₂ % 16) (b₃ * 256 + b₄)
        push_obj (make_object OType.closure_on_heap 0 heap))
      else if bc_data b == 2
      then (do
        vm ← get
        let env = reg (vm.sp + object_size)
        let size = b₂ % 256
        let entry = b₃ * 256 + b₄
        push_obj (
            make_object OType.closure_on_stack 0
              (bit_or (bit_or env (size * 2 ^ 10)) (entry * 2 ^ 16))))
      else lift panic

  -- `generate_object`, with `gc` and the type in front.
  unfoldable pub generate_object : M Object
  generate_object = do
    t ← fetch_next_bytecode
    vm ← get
    let gc = constant_gc vm
    let type = type_of (t % 64)
    if same type OType.imm_int || same type OType.real || same type OType.primitive
        then (do v ← vm_get_uintptr; pure (make_object type gc v))
        else if same type OType.procedure
        then (do
          offset ← vm_get_u16
          arity ← fetch_next_bytecode
          opt ← fetch_next_bytecode
          pure (make_object type gc (arity + 256 * opt + 2 ^ 16 * offset)))
        else if same type OType.rational_pos || same type OType.rational_neg
        then (do n ← vm_get_u16; d ← vm_get_u16; pure (make_object type gc (n * 2 ^ 16 + d)))
        else s.allocate (make_object type gc 0)

  unfoldable pub interp_special : ℕ → M (Unit {0})
  interp_special b =
      if bc_type b == 12
      then s.call_prim (bc_data b)
      else if bc_type b == 13
      then (do low ← fetch_next_bytecode; s.call_prim (bc_data b * 256 + low + 16))
      else if bc_type b == 14
      then (if bc_data b == 0
          then push_obj false_const
          else if bc_data b == 1
          then push_obj true_const
          else if bc_data b == 2
          then (do o ← generate_object; push_obj o)
          else if bc_data b == 3
          then (do
            vm ← get
            ch ← fetch_next_bytecode
            push_obj (make_object OType.character (constant_gc vm) ch))
          else if bc_data b == 6
          then (do
            vm ← get
            offset ← vm_get_u16
            str_buf ← s.symbol_at offset
            push_obj (make_object OType.symbol (constant_gc vm) str_buf))
          else pure tt)
      else if bc_type b == 15
      then (if bc_data b == 15
          then (do vm ← get; put (record vm { state = VmState.stop }))
          else pure tt)
      else lift panic

  -- The function of a class, on the byte code and its operands.
  unfoldable pub interp : Encode → ℕ → List ℕ → M (Unit {0})
  interp Encode.single b bs = interp_single_encode b
  interp Encode.double b bs = elim bs [ [] ↦ lift fault | b₂ ∷ _ ↦ interp_double_encode b b₂ ]
  interp Encode.triple b (b₂ ∷ b₃ ∷ _) = interp_triple_encode b b₂ b₃
  interp Encode.triple b _ = lift fault
  interp Encode.quadruple b (b₂ ∷ b₃ ∷ b₄ ∷ _) = interp_quadruple_encode b b₂ b₃ b₄
  interp Encode.quadruple b _ = lift fault
  interp Encode.special b bs = interp_special b

  unfoldable pub dispatch : ℕ → M (Unit {0})
  dispatch b = do (e, bs) ← decode b; interp e b bs

  -- A round of `vm_run`: `dispatch (vm, FETCH_NEXT_BYTECODE ())`. The attempt to recycle memory while
  -- the stack is empty is a hook of the collector.
  unfoldable pub round : M (Unit {0})
  round = do b ← fetch_next_bytecode; dispatch b

  -- `VM_RUN == vm->state || VM_INIT_GLOBALS == vm->state`.
  abbrev pub is_running : Vm → Bool
  is_running vm = is_run vm.state || is_init_globals vm.state

  -- On fuel; a program that does not end has none that is enough.
  unfoldable pub vm_run : ℕ → M (Unit {0})
  vm_run zero vm = if is_running vm then fault else ok (tt, vm)
  vm_run (suc fuel) vm =
      if is_running vm then and_then (round vm) (λ _ vm'. vm_run fuel vm') else ok (tt, vm)
