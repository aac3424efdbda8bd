-- ===== src/Vm/Tests/Prims.antt =====
-- The theorems on the primitives at concrete machines.
use animula.Prelude.{
  ℕ, zero, suc, ◌+◌, ◌*◌, ◌≡◌, refl, ap, ◌∙◌, true, false, none, some, Option, List, if◌then◌else◌,
  ◌==◌, [], ◌∷◌, get_elem?, arith, inl,
}
use mathlib.Core.Path.{subst}
use animula.Prelude.Int.{pos, ◌+ℤ◌}
use animula.Run.{Run, ok, panic, fault}
use animula.Object.{OType, Object, imm, s32, true_const}
use animula.Number.Arith.{int_add, store_int}
use animula.Number.Arith.Ints.{IsInt}
use animula.Store.{Store}
use animula.Lists.{car, cons}
use animula.Bytevector.{ByteVector}
use animula.Vm.Memory.{write, read, object_bytes}
use animula.Vm.Memory.Laws.{IsObject, read-write_same, read-write_apart}
use animula.Vm.State.{Vm}
use animula.Vm.Stack.{object_size}
use animula.Vm.Stack.Laws.{pushed}
use animula.Vm.Decode.Laws.{Next, fetched}
use animula.Vm.Frame.{save_env_simple, restore_simple}
use animula.Vm.Frame.Simple.{saved, Over, restore_simple-save_env_simple}
use animula.Vm.Interp.{round}
use animula.Vm.Interp.Fixed.{Fixed}
use animula.Vm.Interp.Variables.{OnStack, or_else}
use animula.Vm.Cells.{in_locals}
use animula.Vm.Alloc.{generate_list, write_back}
use animula.Vm.Alloc.Insert.{ListOf, IsHeap}
use animula.Vm.Alloc.Lists.{generate_list-ListOf}
use animula.Vm.Prims.{Board, none_ret, ret_obj, arith_prim}
use animula.Vm.Prims.Laws.{Operands, round-sum, round-arith}
use animula.Vm.Prims.Cons.{cons-dangles}
use animula.Vm.Apply.{Addresses, services}
use animula.Vm.Tests.{machine, seven, seven-IsObject}

abbrev addresses : Addresses
addresses = record { symbols_at = 8192 }

-- Floats that are all 0, and devices that answer #t.
abbrev board : Board
board = record {
  floats = record {
    of_int = λ z. 0;
    to_int = λ x. pos 0;
    add = λ x y. 0;
    mul = λ x y. 0;
    div = λ x y. 0;
    neg = λ x. 0;
    eq = λ x y. true;
    gt = λ x y. false;
    floor = λ x. 0;
    ceil = λ x. 0;
    round = λ x. 0;
  };
  device = λ pn args vm. ok (true_const, vm);
}

-- A machine with two objects on its stack, in front of `+`.
abbrev two_sevens : Vm
two_sevens = record machine {
  pc = 0;
  sp = 10;
  code = 194 ∷ [];
  codeseg_size = 1;
  stack = write (write (λ _. 0) 0 (object_bytes seven)) 5 (object_bytes seven);
}

two_sevens-Operands : Operands two_sevens 0 seven seven
two_sevens-Operands = record {
  stack_pointer = record { sp_fits = omega arith; below_end = omega arith; segment = omega arith };
  top = refl;
  first =
      read-write_apart (write (λ _. 0) 0 (object_bytes seven)) 5 (object_bytes seven) 0 5
        (inl (omega arith))
      ∙ read-write_same (λ _. 0) 0 (object_bytes seven);
  second = read-write_same (write (λ _. 0) 0 (object_bytes seven)) 5 (object_bytes seven);
  first_is = seven-IsObject;
  second_is = seven-IsObject;
}

codes_at : (i b : ℕ) → get_elem? (194 ∷ []) i ≡ some b → get_elem? two_sevens.code (0 + i) ≡ some b
codes_at zero b e = e
codes_at (suc i) b e = absurd cc

two_sevens-Next : Next (194 ∷ []) two_sevens
two_sevens-Next = record {
  running = refl;
  inside = omega arith;
  fits = omega arith;
  codes = codes_at;
}

round-sum_example :
    (r : Object) × IsInt r
    × (s32 r.value ≡ pos 14)
    × (round (services board addresses 1) two_sevens
        ≡ ok (tt, pushed (object_bytes r) (record (fetched 194 two_sevens) { sp = 0 })))
unfolding ◌+ℤ◌
round-sum_example =
    round-sum board addresses 0 0 seven seven two_sevens refl refl (omega arith, omega arith)
      two_sevens-Next two_sevens-Operands

sum_of_sevens : arith_prim board 0 2 none_ret seven seven ≡ ok (imm (pos 14))
unfolding arith_prim int_add store_int
sum_of_sevens = refl

round-arith_example :
    round (services board addresses 1) two_sevens
    ≡ ok (tt, pushed (object_bytes (imm (pos 14))) (record (fetched 194 two_sevens) { sp = 0 }))
round-arith_example =
    round-arith board addresses 0 2 0 seven seven (imm (pos 14)) two_sevens refl two_sevens-Next
      two_sevens-Operands sum_of_sevens

abbrev added : Vm
added = pushed (object_bytes (imm (pos 14))) (record (fetched 194 two_sevens) { sp = 0 })

cons-dangles_example :
    (l : Object) × (s' : Store) × (in_locals seven seven (λ h p q. cons h ret_obj p q) machine.heap
      ≡ ok (l, s'))
    × (car s' l ≡ fault)
cons-dangles_example = cons-dangles machine.heap seven seven refl refl refl

-- A machine behind the byte code of a list of two, and its heap.
abbrev listing : Vm
listing = record two_sevens { code = 0 ∷ 2 ∷ []; codeseg_size = 2 }

two_sevens-OnStack : OnStack listing.stack 0 (seven ∷ seven ∷ [])
two_sevens-OnStack = record { bytes_at = bytes_at'; objects = objects' }
  where
    bytes_at' :
        (i : ℕ) (o : Object)
        → get_elem? (seven ∷ seven ∷ []) i ≡ some o
        → read listing.stack (0 + i * object_size) object_size ≡ object_bytes o
    bytes_at' zero o e = two_sevens-Operands.first ∙ ap object_bytes (ap (or_else o) e)
    bytes_at' (suc zero) o e = two_sevens-Operands.second ∙ ap object_bytes (ap (or_else o) e)
    bytes_at' (suc (suc i)) o e = absurd cc

    objects' : (i : ℕ) (o : Object) → get_elem? (seven ∷ seven ∷ []) i ≡ some o → IsObject o
    objects' zero o e = subst IsObject (ap (or_else o) e) seven-IsObject
    objects' (suc zero) o e = subst IsObject (ap (or_else o) e) seven-IsObject
    objects' (suc (suc i)) o e = absurd cc

list_codes : (i b : ℕ) → get_elem? (0 ∷ 2 ∷ []) i ≡ some b → get_elem? listing.code (0 + i) ≡ some b
list_codes zero b e = e
list_codes (suc zero) b e = e
list_codes (suc (suc i)) b e = absurd cc

machine-IsHeap : IsHeap machine.heap
machine-IsHeap = record {
  not_zero = λ e. omega (arith, e);
  nodes_below = λ q n e. absurd cc;
  lists_below = λ q n e. absurd cc;
  objects_below = λ q n e. absurd cc;
}

generate_list-ListOf_example :
    (vm' : Vm) × (generate_list (record { type = OType.list; gc = 0; value = 0 }) listing
      ≡ ok (record { type = OType.list; gc = 0; value = 1 }, vm'))
    × (vm'.sp ≡ 0)
    × ListOf vm'.heap 1 (record seven { gc = 1 } ∷ record seven { gc = 1 } ∷ [])
generate_list-ListOf_example =
    generate_list-ListOf 0 0 2 (seven ∷ seven ∷ [])
      (record { type = OType.list; gc = 0; value = 0 }) listing
      (record { running = refl; inside = omega arith; fits = omega arith; codes = list_codes }) refl
      two_sevens-OnStack refl (omega arith, omega arith) machine-IsHeap

-- A frame of a primitive with an object over it.
abbrev over : Vm
over = pushed (object_bytes seven) (saved machine)

over-Over : Over seven machine over
over-Over = record {
  same_frame = refl;
  frame_kept = λ a n h. read-write_apart (saved machine).stack 16 (object_bytes seven) a n (inl h);
  stack_pointer = record { sp_fits = omega arith; below_end = omega arith; segment = omega arith };
  not_full = omega arith;
  result_above = omega arith;
  result = read-write_same (saved machine).stack 16 (object_bytes seven);
  is_object = seven-IsObject;
}

restore_simple-save_env_simple_example :
    (save_env_simple machine ≡ ok (tt, saved machine))
    × (restore_simple over
        ≡ ok (
          tt,
          record over {
            pc = 9;
            sp = 10;
            fp = 0;
            local = 0;
            closure = 0;
            attr = 64;
            stack = write over.stack 5 (object_bytes seven);
          },
        ))
restore_simple-save_env_simple_example =
    restore_simple-save_env_simple seven machine over (omega arith, omega arith)
      (record {
        ret_fits = omega arith;
        local_fits = omega arith;
        last_fits = omega arith;
        attr_fits = omega arith;
        closure_fits = omega arith;
      })
      over-Over

-- The string "hi" at 4097, a literal of the code, of which the first byte has been written, and a view
-- of the code behind it.
abbrev literals : Vm
literals = record machine {
  code = 2 ∷ 104 ∷ 105 ∷ 0 ∷ [];
  heap = record machine.heap {
    strings = λ q. if q == 4097 then some (72 ∷ 105 ∷ 0 ∷ []) else none;
  };
  bytevectors = record { next = 8; at = λ q. some (record { size = 2; vec = 104 ∷ 105 ∷ [] }) };
  views = λ q. if q == 7 then some 1 else none;
}

abbrev after_write : Run (Unit {0} × Vm) → Run (List ℕ × Option ByteVector)
after_write (ok (u, vm)) = ok (vm.code, vm.bytevectors.at 7)
after_write panic = panic
after_write fault = fault

literal_written :
    after_write (write_back (record { type = OType.string; gc = 0; value = 4097 }) literals)
    ≡ ok (2 ∷ 72 ∷ 105 ∷ 0 ∷ [], some (record { size = 2; vec = 72 ∷ 105 ∷ [] }))
unfolding write_back
literal_written = refl
