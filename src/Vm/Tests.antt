-- ===== src/Vm/Tests.antt =====
-- The theorems on the machine at a concrete machine.
mod Prims
use animula.Prelude.{
  ℕ, zero, suc, ◌+◌, some, get_elem?, ◌≡◌, refl, none, [], ◌∷◌, arith, inl, ◌↔◌, ap, false, ◌*◌,
  ◌∙◌,
}
use mathlib.Core.Path.{subst}
use animula.Run.{ok}
use animula.Object.{Object, imm}
use animula.Prelude.Int.{pos}
use animula.Vm.Memory.{write, read, object_bytes}
use animula.Vm.Memory.Laws.{IsObject, read-write_same, read-write_apart}
use animula.Vm.State.{Vm, VmState, ◌>>◌}
use animula.Vm.Stack.{push_obj, pop_obj}
use animula.Vm.Stack.Laws.{pushed, pop_obj-push_obj}
use animula.Vm.Decode.{Encode, decode}
use animula.Vm.Decode.Laws.{Next, decode-class_of}
use animula.Vm.Frame.{save_normal, fix_pc, proc_call, restore}
use animula.Vm.Stack.{object_size}
use animula.Vm.Decode.{fetch_next_bytecode, pre_fetch, operands}
use animula.Vm.Frame.{Ref, deref, assign}
use animula.Vm.Interp.{
  Services, is_running, vm_run, round, dispatch, interp, interp_special, create_closure,
}
use animula.Vm.Interp.Reach.{Reaches, vm_run-Reaches}
use animula.Vm.Interp.Fixed.{Fixed}
use animula.Vm.Interp.Fixed.Codes.{IsFixing, Reaches-Fixed}
use animula.Vm.Interp.Variables.{OnStack, or_else, deref-assign, create_closure-captures}
use animula.Lef.{Lef}
use animula.Vm.Load.{globals_machine, with_sizes, stack_objects, vm_load_lef, vm_load_lef-enters}
use animula.Vm.Frame.Tail.{replaced, tail_args, tail_call}
use animula.Vm.Frame.Laws.{framed}
use animula.Vm.Frame.Call.{Registers, Evaluated, Finished, called, call-enters, call-returns}

-- A machine with a stack of 64 bytes and one object on it.
abbrev machine : Vm
machine = record {
  pc = 9;
  sp = 5;
  fp = 0;
  local = 0;
  state = VmState.run;
  code = [];
  code_at = 4096;
  views = λ _. none;
  stack = λ _. 0;
  globals = [];
  closure = 0;
  attr = 64;
  stkseg_size = 64;
  codeseg_size = 0;
  globalseg_size = 0;
  last_bc = 0;
  closures = λ _. none;
  heap = record {
    next = 1;
    objects = λ _. none;
    nodes = λ _. none;
    lists = λ _. none;
    pairs = λ _. none;
    strings = λ _. none;
  };
  bytevectors = record { next = 1; at = λ _. none };
  vectors = λ _. none;
}

abbrev seven : Object
seven = imm (pos 7)

seven-IsObject : IsObject seven
seven-IsObject = record {
  type_known = refl;
  type_fits = omega arith;
  gc_fits = omega arith;
  value_fits = omega arith;
}

-- A call of the code at 100 with one argument, at 20 of the code, which returns it.
abbrev evaluated : Vm
evaluated = record (pushed (object_bytes seven) (framed machine)) { pc = 20 }

abbrev finished : Vm
finished = pushed (object_bytes seven) (called 100 evaluated)

machine-Registers : Registers machine
machine-Registers = record {
  local_fits = omega arith;
  fp_fits = omega arith;
  attr_fits = omega arith;
  closure_fits = omega arith;
}

evaluated-Evaluated : Evaluated machine evaluated
evaluated-Evaluated = record {
  in_frame = refl;
  frame_kept = λ a n h. read-write_apart (framed machine).stack 16 (object_bytes seven) a n (inl h);
  above_frame = omega arith;
  in_segment = omega arith;
  no_shadow = refl;
  pc_fits = omega arith;
}

finished-Finished : Finished 100 seven evaluated finished
finished-Finished = record {
  same_frame = refl;
  caller_kept = λ a n h.
      read-write_apart (called 100 evaluated).stack 21 (object_bytes seven) a n (inl (omega arith));
  stack_pointer = record { sp_fits = omega arith; below_end = omega arith; segment = omega arith };
  not_full = omega arith;
  result_above = omega arith;
  result = read-write_same (called 100 evaluated).stack 21 (object_bytes seven);
  is_object = seven-IsObject;
}

call-enters_example :
    (save_normal machine ≡ ok (tt, framed machine))
    × ((fix_pc >> proc_call 100) evaluated ≡ ok (tt, called 100 evaluated))
call-enters_example =
    call-enters 100 machine evaluated (omega arith, omega arith) evaluated-Evaluated

call-returns_example :
    (restore finished
      ≡ ok (
        tt,
        record finished {
          pc = 20;
          sp = 10;
          fp = 0;
          local = 0;
          closure = 0;
          attr = 64;
          stack = write finished.stack 5 (object_bytes seven);
        },
      ))
    × (read (write finished.stack 5 (object_bytes seven)) 0 5 ≡ read machine.stack 0 5)
call-returns_example =
    call-returns 100 seven machine evaluated finished 0 5 machine-Registers evaluated-Evaluated
      finished-Finished (omega arith)

-- A machine in front of a jump to 0x0102.
abbrev jumping : Vm
jumping = record machine { pc = 0; code = 0xb2 ∷ 1 ∷ 2 ∷ []; codeseg_size = 3 }

jumping-Next : Next (1 ∷ 2 ∷ []) (record jumping { pc = 1 })
jumping-Next = record { running = refl; inside = omega arith; fits = omega arith; codes = codes_at }
  where
    codes_at :
        (i b : ℕ) → get_elem? (1 ∷ 2 ∷ []) i ≡ some b → get_elem? jumping.code (1 + i) ≡ some b
    codes_at zero b e = e
    codes_at (suc zero) b e = e
    codes_at (suc (suc i)) b e = ground (arith, e)

decode-class_of_example :
    decode 0xb2 (record jumping { pc = 1 })
    ≡ ok ((Encode.triple, 1 ∷ 2 ∷ []), record jumping { pc = 3; last_bc = 2 })
decode-class_of_example =
    decode-class_of 0xb2 (1 ∷ 2 ∷ []) (record jumping { pc = 1 }) refl jumping-Next

-- A machine with one local and its new value on the top of the stack.
abbrev looping : Vm
looping = record machine {
  sp = 21;
  local = 11;
  attr = 33;
  stack = write (λ _. 0) 16 (object_bytes seven);
}

tail_call_example :
    (proc_call 9 looping ≡ ok (tt, replaced 9 looping))
    × (read (replaced 9 looping).stack 11 5 ≡ tail_args looping)
    × (read (replaced 9 looping).stack 0 11 ≡ read looping.stack 0 11)
tail_call_example =
    tail_call 9 looping 0 11
      (record {
        some_args = ground arith;
        above = omega arith;
        in_stack = omega arith;
        segment = omega arith;
      })
      (omega arith)

-- Services that change nothing, and a machine whose code is one HALT.
abbrev services : Services
services = record {
  call_prim = λ n vm. ok (tt, vm);
  handle_optional_args = λ o vm. ok (tt, vm);
  allocate = λ o vm. ok (o, vm);
  symbol_at = λ n vm. ok (n, vm);
  malloc = λ vm. ok (1, vm);
}

services-IsFixing : IsFixing services
services-IsFixing = record {
  call_prim = λ n vm. refl;
  handle_optional_args = λ o vm. refl;
  allocate = λ o vm. refl;
  symbol_at = λ n vm. refl;
  malloc = λ vm. refl;
}

abbrev halting : Vm
halting = record machine { pc = 0; code = 255 ∷ []; codeseg_size = 1 }

abbrev halted : Vm
halted = record halting { pc = 1; last_bc = 255; state = VmState.stop }

halting-halted : round services halting ≡ ok (tt, halted)
unfolding round dispatch decode interp interp_special fetch_next_bytecode pre_fetch operands
halting-halted = refl

halting-Reaches : Reaches services halted halting
halting-Reaches = Reaches.step refl halting-halted Reaches.here

Reaches-Fixed_example : Fixed halting halted
Reaches-Fixed_example = Reaches-Fixed services halted halting services-IsFixing halting-Reaches

-- A machine with one object on its stack, for a closure to capture.
abbrev capturing : Vm
capturing = record machine { stack = write (λ _. 0) 0 (object_bytes seven) }

seven-OnStack : OnStack capturing.stack 0 (seven ∷ [])
seven-OnStack = record { bytes_at = bytes_at'; objects = objects' }
  where
    bytes_at' :
        (i : ℕ) (o : Object)
        → get_elem? (seven ∷ []) i ≡ some o
        → read capturing.stack (0 + i * object_size) object_size ≡ object_bytes o
    bytes_at' zero o e =
        read-write_same (λ _. 0) 0 (object_bytes seven) ∙ ap object_bytes (ap (or_else o) e)
    bytes_at' (suc i) o e = absurd cc

    objects' : (i : ℕ) (o : Object) → get_elem? (seven ∷ []) i ≡ some o → IsObject o
    objects' zero o e = subst IsObject (ap (or_else o) e) seven-IsObject
    objects' (suc i) o e = absurd cc

create_closure-captures_example :
    (vm' : Vm) × (create_closure 1 2 1 100 capturing ≡ ok (tt, vm'))
    × (vm'.sp ≡ 0)
    × (vm'.closures 1
        ≡ some (record { arity = 2; frame_size = 1; entry = 100; local = 0; env = seven ∷ [] }))
create_closure-captures_example =
    create_closure-captures 1 2 100 0 (seven ∷ []) capturing seven-OnStack (omega arith)
      (record { sp_fits = omega arith; below_end = omega arith; segment = omega arith })

-- An image whose globals and whose program are one HALT each.
abbrev tiny : Lef
tiny = record {
  sig = 76 ∷ 69 ∷ 70 ∷ [];
  ver = 0 ∷ 4 ∷ 0 ∷ [];
  msize = 0;
  gsize = 1;
  psize = 1;
  csize = 0;
  entry = 0;
  body = 255 ∷ 255 ∷ [];
  symtab_cnt = 0;
  symtab_entry = 4;
}

abbrev in_globals : Vm
in_globals = globals_machine 4096 tiny (with_sizes tiny machine)

abbrev after_globals : Vm
after_globals = record in_globals { pc = 1; last_bc = 255; state = VmState.stop }

globals-halted : round services in_globals ≡ ok (tt, after_globals)
unfolding round dispatch decode interp interp_special fetch_next_bytecode pre_fetch operands
globals-halted = refl

vm_load_lef-enters_example :
    (fuel : ℕ) × (vm' : Vm) × (vm_load_lef services fuel 4096 tiny machine ≡ ok (tt, vm'))
    × (vm'.code ≡ 255 ∷ [])
    × (vm'.pc ≡ 0)
    × (vm'.state ≡ VmState.run)
    × (vm'.sp ≡ 0)
    × (vm'.globals ≡ stack_objects machine.stack 1 0)
vm_load_lef-enters_example =
    vm_load_lef-enters services 4096 tiny machine after_globals
      (Reaches.step refl globals-halted Reaches.here) refl
