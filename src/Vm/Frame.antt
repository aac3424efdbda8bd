-- ===== src/Vm/Frame.antt =====
-- Frames: `SAVE_ENV`, `FIX_PC`, `PROC_CALL`, `RESTORE`, the shadow frames, and the references to
-- locals and free variables (inc/vm.h). `gc_recycle_current_frame` is empty in the build with
-- tinygc (inc/gc.h), and is empty in gc.c unless GC_RECYCLE_CURRENT_FRAME is 1.
pub mod Laws
pub mod Call
pub mod Tail
pub mod Simple
use animula.Prelude.{
  ℕ, zero, suc, ◌+◌, ◌-◌, ◌*◌, ◌/◌, ◌%◌, ◌^◌, List, length, Bool, true, false, not, ◌&&◌, ◌||◌, leb,
  ltb, ◌==◌, if◌then◌else◌, Option, none, some, get_elem?, set,
}
use animula.Run.{ok, panic, fault}
use animula.Object.{Object, null_const}
use animula.Vm.Memory.{bytes, number, object_bytes, object_of}
use animula.Vm.State.{
  Vm, Closure, M, pure, and_then, ◌>>=◌, ◌>>◌, get, put, lift, shadow_of, with_shadow, with_mode,
}
use animula.Vm.Stack.{
  object_size, fps, no_prev_fp, normal_jump, reg, vm_stack_check, push_obj, pop_obj, push_reg,
  pop_reg, push_closure, pop_closure, push, pop, load_bytes, store_bytes,
}

-- `PROC_ARITY` and `PROC_MODE`, of the second byte of a prelude.
abbrev pub proc_arity : ℕ → ℕ
proc_arity b = b / 4 % 64

abbrev pub proc_mode : ℕ → ℕ
proc_mode b = b % 4

-- What `SAVE_ENV` stores as the last frame: a frame at 0 is told from none.
abbrev pub saved_fp : (sp fp : ℕ) → ℕ
saved_fp sp fp = if sp == 0 then fp else if fp == 0 then no_prev_fp else fp

unfoldable pub save_normal : M (Unit {0})
save_normal = do
  vm ← get
  push_reg normal_jump
  push_reg vm.local
  push_reg (saved_fp vm.sp vm.fp)
  push vm.attr
  push_closure vm.closure
  vm' ← get
  put (record vm' { fp = reg (vm'.sp + 2 ^ 16 - fps); attr = with_mode (with_shadow vm'.attr 0) 2 })

-- `SAVE_ENV`.
unfoldable pub save_env : ℕ → M (Unit {0})
save_env b = do
  vm ← get
  if proc_mode b == 0
      then put (record vm { attr = with_mode vm.attr 0 })
      else if proc_mode b == 1
      then put (record vm {
        sp = reg (vm.local + proc_arity b * object_size);
        attr = with_mode (with_shadow vm.attr (proc_arity b)) 1;
      })
      else save_normal
  vm_stack_check

-- `SAVE_ENV_SIMPLE` and `RESTORE_SIMPLE`.
unfoldable pub save_env_simple : M (Unit {0})
save_env_simple = do
  vm ← get
  push_reg vm.pc
  push_reg vm.local
  push_reg vm.fp
  push vm.attr
  push_closure vm.closure
  vm' ← get
  put (record vm' { fp = reg (vm'.sp + 2 ^ 16 - fps); local = vm'.sp })

unfoldable pub restore_simple : M (Unit {0})
restore_simple = do
  ret_obj ← pop_obj
  vm ← get
  put (record vm { sp = reg (vm.fp + fps) })
  closure ← pop_closure
  attr ← pop
  fp ← pop_reg
  local ← pop_reg
  pc ← pop_reg
  vm' ← get
  put (record vm' { closure = closure; attr = attr; fp = fp; local = local; pc = pc })
  push_obj ret_obj

-- `RESTORE`.
unfoldable pub restore : M (Unit {0})
restore = do
  ret_obj ← pop_obj
  vm ← get
  put (record vm { sp = reg (vm.fp + fps) })
  closure ← pop_closure
  attr ← pop
  fp ← pop_reg
  local ← pop_reg
  pc ← pop_reg
  vm' ← get
  put (record vm' {
    closure = closure;
    attr = attr;
    fp = if fp == no_prev_fp then 0 else fp;
    local = local;
    pc = pc;
  })
  push_obj ret_obj

-- `FIX_PC`.
unfoldable pub fix_pc : M (Unit {0})
fix_pc = do
  vm ← get
  bs ← load_bytes vm.fp 2
  if number bs == normal_jump then store_bytes vm.fp (bytes 2 vm.pc) else pure tt

-- `IS_SHADOW_FRAME` and `COPY_SHADOW_FRAME`; `memcpy` is undefined where its regions overlap.
abbrev pub is_shadow_frame : Vm → Bool
is_shadow_frame vm = not (shadow_of vm.attr == 0) && not (vm.sp == vm.local)

unfoldable pub copy_shadow_frame : M (Unit {0})
copy_shadow_frame = do
  vm ← get
  let size = object_size * shadow_of vm.attr
  if ltb vm.sp size || ltb (vm.sp - size) (vm.local + size) then lift fault else do
    bs ← load_bytes (vm.sp - size) size
    store_bytes vm.local bs
    vm' ← get
    put (record vm' { sp = reg (vm.local + size) })

-- `PROC_CALL`.
unfoldable pub proc_call : ℕ → M (Unit {0})
proc_call offset = do
  vm ← get
  if is_shadow_frame vm then copy_shadow_frame else pure tt
  vm' ← get
  put (record vm' { closure = 0; local = reg (vm'.fp + fps); pc = reg offset })

-- Where a variable lives: at an address of the stack, or in the environment of a closure.
pub data Ref : Type 0 where
  on_stack : ℕ → Ref
  in_env : (closure index : ℕ) → Ref

unfoldable pub closure_at : ℕ → M Closure
closure_at p vm = elim (vm.closures p) [ none ↦ fault | some c ↦ ok (c, vm) ]

-- `LOCAL`.
unfoldable pub local_ref : ℕ → M Ref
unfolding closure_at
local_ref offset = do
  vm ← get
  if vm.closure == 0 then pure (on_stack (vm.local + offset * object_size)) else do
    c ← closure_at vm.closure
    pure (
        if leb c.frame_size offset
        then on_stack (vm.local + (offset - c.frame_size) * object_size)
        else in_env vm.closure offset)

-- The loop of `FREE_VAR`, which reads a register behind the first one of each frame.
unfoldable pub walk_frames : ℕ → ℕ → M ℕ
walk_frames zero fp = pure fp
walk_frames (suc n) fp = do bs ← load_bytes (fp + 2) 2; walk_frames n (number bs)

-- `FREE_VAR`.
unfoldable pub free_ref : (up offset : ℕ) → M Ref
unfolding closure_at
free_ref up offset = if up == 0 then local_ref offset else do
  vm ← get
  fp ← walk_frames (up + 1) vm.fp
  bs ← load_bytes (fp + fps - 4) 4
  if number bs == 0
      then pure (on_stack ((if fp == no_prev_fp then 0 else fp + fps) + offset * object_size))
      else do
        c ← closure_at (number bs)
        pure (
            if c.frame_size == 0
            then on_stack ((if fp == no_prev_fp then 0 else fp + fps) + offset * object_size)
            else if leb c.frame_size offset
            then on_stack (c.local + (offset - c.frame_size) * object_size)
            else in_env (number bs) offset)

-- `*obj` read and written through such a reference.
unfoldable pub deref : Ref → M Object
unfolding closure_at
deref (on_stack a) = do bs ← load_bytes a object_size; pure (object_of bs)
deref (in_env p i) = do
  c ← closure_at p
  elim (get_elem? c.env i) [ none ↦ lift fault | some o ↦ pure o ]

unfoldable pub assign : Ref → Object → M (Unit {0})
unfolding closure_at
assign (on_stack a) o = store_bytes a (object_bytes o)
assign (in_env p i) o = do
  c ← closure_at p
  vm ← get
  if ltb i (length c.env)
      then put (record vm {
        closures = λ q. if q == p then some (record c { env = set c.env i o }) else vm.closures q;
      })
      else lift fault
