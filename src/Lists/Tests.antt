-- ===== src/Lists/Tests.antt =====
-- The theorems on lists at a concrete heap.
use mathlib.Core.List.{Perm}
use animula.Prelude.{ℕ, ◌≡◌, refl, false, none, some, ◌==◌, if◌then◌else◌, [], ◌∷◌, arith}
use animula.Prelude.Int.{pos}
use animula.Run.{ok, fault}
use animula.Object.{OType, Object, imm, none_const, null_const}
use animula.Store.{Store}
use animula.Lists.{list_ref, list_set, list_append, cons, car, cdr}
use animula.Lists.Chain.{Cells, Chain, Holds, objs}
use animula.Lists.Laws.{list_object, list_ref-element}
use animula.Lists.Update.{mut_list_object, list_set-set, list_set-fault}
use animula.Lists.Pairs.{cons-car-cdr}
use animula.Lists.Append.Laws.{IsStore, Elements, Extends, list_append-refines}
use animula.Lists.Sort.{list_sort_obj_ascending}
use animula.Lists.Sort.Bubble.{Ascending}
use animula.Lists.Sort.Laws.{list_sort-Ascending}

abbrev integer : ℕ → Object
integer v = record { type = OType.imm_int; gc = 0; value = v }

-- Two lists, at 4 the one of the objects at 11 and 10, at 5 the one of the object at 12.
abbrev heap : Store
heap = record {
  next = 20;
  objects = λ p.
      if p == 10
      then some (integer 7)
      else if p == 11
      then some (integer 8)
      else if p == 12
      then some (integer 9)
      else if p == 13
      then some null_const
      else none;
  nodes = λ p.
      if p == 1
      then some (record { next = 2; obj = 11 })
      else if p == 2
      then some (record { next = 0; obj = 10 })
      else if p == 3
      then some (record { next = 0; obj = 12 })
      else none;
  lists = λ p.
      if p == 4
      then some (record { gc = 1; non_shared = 0; first = 1 })
      else if p == 5
      then some (record { gc = 1; non_shared = 0; first = 3 })
      else none;
  pairs = λ p. none;
  strings = λ p. none;
}

abbrev cells : Cells
cells = (1, 11) ∷ (2, 10) ∷ []

abbrev ret : Object
ret = none_const

heap-Holds : Holds heap 4 cells
heap-Holds = record {
  head = record { gc = 1; non_shared = 0; first = 1 };
  at = refl;
  first = refl;
  chain =
      Chain.cons (λ e. omega (arith, e)) refl (Chain.cons (λ e. omega (arith, e)) refl Chain.nil);
}

other-Holds : Holds heap 5 ((3, 12) ∷ [])
other-Holds = record {
  head = record { gc = 1; non_shared = 0; first = 3 };
  at = refl;
  first = refl;
  chain = Chain.cons (λ e. omega (arith, e)) refl Chain.nil;
}

heap-IsStore : IsStore heap
heap-IsStore = record {
  not_zero = λ e. omega (arith, e);
  nodes_below = λ q n e. ground (arith, e);
  lists_below = λ q l e. ground (arith, e);
}

list_ref-element_example : list_ref 3 heap (list_object 1 4) (imm (pos 1)) ≡ ok (integer 7)
list_ref-element_example =
    list_ref-element 3 heap 1 4 (imm (pos 1)) cells heap-Holds refl (omega arith)

abbrev updated : Store
updated = record heap {
  nodes = λ p. if p == 2 then some (record { next = 0; obj = 12 }) else heap.nodes p;
}

list_set-set_example :
    (list_set 3 heap (mut_list_object 1 4) (imm (pos 1)) 12 ≡ ok (none_const, updated))
    × Holds updated 4 ((1, 11) ∷ (2, 12) ∷ [])
list_set-set_example =
    list_set-set 3 heap 1 4 (imm (pos 1)) 12 cells 2 10 heap-Holds (refl, (refl, tt)) refl
      (omega arith) (omega arith) refl

list_set-fault_example : list_set 3 heap (mut_list_object 1 4) (imm (pos 2)) 12 ≡ fault
list_set-fault_example =
    list_set-fault 3 heap 1 4 (imm (pos 2)) 12 cells heap-Holds refl (omega arith) (omega arith)
      (omega arith)

list_append-refines_example :
    (s' : Store) × (list_append 3 false heap ret (list_object 1 4) (list_object 1 5)
      ≡ ok (record ret { type = OType.list; value = 20 }, s'))
    × Elements s' 20 (11 ∷ 10 ∷ 12 ∷ [])
    × Extends heap s'
list_append-refines_example =
    list_append-refines 3 false heap ret 1 1 4 5 (11 ∷ 10 ∷ []) (12 ∷ []) heap-IsStore
      (cells, heap-Holds, refl) ((3, 12) ∷ [], other-Holds, refl) (omega arith) (omega arith)

list_sort-Ascending_example :
    (s' : Store) × (ys : Cells) × (list_sort_obj_ascending 5 2 heap 4 ≡ ok s')
    × Holds s' 4 ys
    × Ascending (objs ys)
    × Perm (objs ys) (11 ∷ 10 ∷ [])
list_sort-Ascending_example =
    list_sort-Ascending 5 2 heap 4 cells heap-Holds (refl, (refl, tt)) (omega arith) (omega arith)

cons-car-cdr_example :
    (p : Object) × (s' : Store) × (cons heap ret 10 11 ≡ ok (p, s'))
    × (car s' p ≡ ok (integer 7))
    × (cdr false s' p ≡ ok (integer 8, s'))
cons-car-cdr_example =
    cons-car-cdr false heap ret 10 11 (integer 7) (integer 8) (λ q o e. ground (arith, e)) refl refl
      refl
