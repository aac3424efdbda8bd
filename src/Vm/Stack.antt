-- ===== src/Vm/Stack.antt =====
-- `PUSHx`, `POPx` and the macros made of them (inc/vm.h).
pub mod Laws
use animula.Prelude.{
  ℕ, ◌+◌, ◌-◌, ◌%◌, ◌^◌, List, [], ◌∷◌, length, Bool, leb, ltb, if◌then◌else◌, Option, none, some,
}
use animula.Run.{ok, panic, fault}
use animula.Object.{Object}
use animula.Vm.Memory.{write, read, bytes, number, object_bytes, object_of}
use animula.Vm.State.{Vm, M, pure, ◌>>=◌, ◌>>◌}

-- sizeof (Object), sizeof (closure_t) on 32 bits, sizeof (reg_t), and FPS.
abbrev pub object_size : ℕ
object_size = 5

abbrev pub fps : ℕ
fps = 11

abbrev pub no_prev_fp : ℕ
no_prev_fp = 0xffff

abbrev pub normal_jump : ℕ
normal_jump = 0xffff

-- A `reg_t`.
abbrev pub reg : ℕ → ℕ
reg n = n % 2 ^ 16

-- `vm_stack_check`.
unfoldable pub vm_stack_check : M (Unit {0})
vm_stack_check vm = if leb vm.stkseg_size vm.sp then panic else ok (tt, vm)

-- `PUSHx` of a value with these bytes. A write behind the segment is a fault.
unfoldable pub push_bytes : List ℕ → M (Unit {0})
unfolding vm_stack_check
push_bytes bs vm =
    if ltb vm.stkseg_size (vm.sp + length bs)
    then fault
    else vm_stack_check
        (record vm { stack = write vm.stack vm.sp bs; sp = reg (vm.sp + length bs) })

-- `POPx`: `sp -= size`, in 16 bits, and a read there.
unfoldable pub pop_bytes : ℕ → M (List ℕ)
pop_bytes size vm =
    let sp' = reg (vm.sp + 2 ^ 16 - size) in
    if ltb vm.stkseg_size (sp' + size)
    then fault
    else ok (read vm.stack sp' size, record vm { sp = sp' })

unfoldable pub push_obj : Object → M (Unit {0})
push_obj o = push_bytes (object_bytes o)

unfoldable pub pop_obj : M Object
pop_obj = do bs ← pop_bytes object_size; pure (object_of bs)

unfoldable pub push_reg : ℕ → M (Unit {0})
push_reg r = push_bytes (bytes 2 r)

unfoldable pub pop_reg : M ℕ
pop_reg = do bs ← pop_bytes 2; pure (number bs)

unfoldable pub push_closure : ℕ → M (Unit {0})
push_closure c = push_bytes (bytes 4 c)

unfoldable pub pop_closure : M ℕ
pop_closure = do bs ← pop_bytes 4; pure (number bs)

unfoldable pub push : ℕ → M (Unit {0})
push b = push_bytes (bytes 1 b)

unfoldable pub pop : M ℕ
pop = do bs ← pop_bytes 1; pure (number bs)

-- `*((t *) (vm->stack + a))` read and written.
unfoldable pub load_bytes : ℕ → ℕ → M (List ℕ)
load_bytes a size vm =
    if ltb vm.stkseg_size (a + size) then fault else ok (read vm.stack a size, vm)

unfoldable pub store_bytes : ℕ → List ℕ → M (Unit {0})
store_bytes a bs vm =
    if ltb vm.stkseg_size (a + length bs)
    then fault
    else ok (tt, record vm { stack = write vm.stack a bs })
