-- ===== src/Vm/Load.antt =====
-- vm.c: `vm_init_globals` and `vm_load_lef`, which put a loaded image into the machine.
use animula.Prelude.{ℕ, zero, suc, ◌+◌, ◌/◌, ◌≡◌, refl, false, List, none, [], ◌∷◌, drop}
use animula.Run.{ok}
use animula.Object.{Object}
use animula.Vm.Memory.{Memory, read, object_of}
use animula.Vm.State.{Vm, VmState, M, and_then}
use animula.Vm.Stack.{object_size, reg}
use animula.Vm.Decode.{vm_init_environment}
use animula.Vm.Interp.{Services, is_running, vm_run}
use animula.Vm.Interp.Reach.{Reaches, vm_run-Reaches}
use animula.Lef.{Lef, lef_prog}

-- The first `n` objects of the stack, which `os_memcpy` takes to the globals.
abbrev pub stack_objects : Memory → (n a : ℕ) → List Object
stack_objects m zero a = []
stack_objects m (suc n) a = object_of (read m a object_size) ∷ stack_objects m n (a + object_size)

-- `LEF_GLOBAL`.
abbrev pub lef_global : Lef → List ℕ
lef_global lef = drop lef.msize lef.body

-- The machine in front of the code that makes the globals.
abbrev pub globals_machine : (body_at : ℕ) → Lef → Vm → Vm
globals_machine body_at lef vm = record vm {
  code = lef_global lef;
  code_at = body_at + lef.msize;
  pc = 0;
  state = VmState.init_globals;
}

-- The globals are the objects of the stack, and the code of `vm` is restored. The literals that the
-- globals have are no part of it.
abbrev pub globals_taken : (vm done : Vm) → Vm
globals_taken vm done = vm_init_environment (record done {
  globals = stack_objects done.stack (done.sp / object_size) 0;
  code = vm.code;
  code_at = vm.code_at;
  views = λ q. none;
})

-- The body of the image has the address `body_at`.
unfoldable pub vm_init_globals : Services → (fuel body_at : ℕ) → Lef → M (Unit {0})
vm_init_globals s fuel body_at lef vm =
    and_then (vm_run s fuel (globals_machine body_at lef vm))
      λ _ done. ok (tt, globals_taken vm done)

-- The sizes of the segments, of the header of the image.
abbrev pub with_sizes : Lef → Vm → Vm
with_sizes lef vm = record vm { codeseg_size = lef.psize; globalseg_size = lef.gsize }

-- Without `create_symbol_table`, whose table is no part of the machine.
unfoldable pub vm_load_lef : Services → (fuel body_at : ℕ) → Lef → M (Unit {0})
vm_load_lef s fuel body_at lef vm =
    and_then (vm_init_globals s fuel body_at lef (with_sizes lef vm)) λ _ done. ok (
      tt,
      record done {
        code = lef_prog lef;
        code_at = body_at + lef.msize + lef.gsize;
        pc = reg lef.entry;
      },
    )

-- If the code of the globals leads the machine to `last`, which runs no longer, then with enough fuel
-- an image is loaded, and the machine is at the entry of its program, of which the register has the
-- lower 16 bits, with an empty stack and the objects of the stack of `last` as its globals.
pub vm_load_lef-enters :
    (s : Services) (body_at : ℕ) (lef : Lef) (vm last : Vm)
    → Reaches s last (globals_machine body_at lef (with_sizes lef vm))
    → is_running s last ≡ false
    → (fuel : ℕ) × (vm' : Vm) × (vm_load_lef s fuel body_at lef vm ≡ ok (tt, vm'))
      × (vm'.code ≡ lef_prog lef)
      × (vm'.pc ≡ reg lef.entry)
      × (vm'.state ≡ VmState.run)
      × (vm'.sp ≡ 0)
      × (vm'.globals ≡ stack_objects last.stack (last.sp / object_size) 0)
unfolding vm_load_lef vm_init_globals vm_init_environment
vm_load_lef-enters s body_at lef vm last reach stopped =
    let (to, from) = vm_run-Reaches s (globals_machine body_at lef (with_sizes lef vm)) last in
    let (fuel, run) = from (reach, stopped) in
    (
      fuel,
      record (globals_taken (with_sizes lef vm) last) {
        code = lef_prog lef;
        code_at = body_at + lef.msize + lef.gsize;
        pc = reg lef.entry;
      },
      rw run refl,
      refl,
      refl,
      refl,
      refl,
      refl,
    )
