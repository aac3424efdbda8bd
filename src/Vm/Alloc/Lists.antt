-- ===== src/Vm/Alloc/Lists.antt =====
-- The lists that the byte codes make of the objects on the stack.
use animula.Vm.Alloc.Insert.{IsHeap, ListOf, inserted-ListOf, empty-IsHeap, empty-ListOf}
use animula.Prelude.{
  ℕ, zero, suc, ◌+◌, ◌-◌, ◌*◌, ◌<◌, ◌≤◌, ◌≡◌, refl, sym, ap, ◌∙◌, false, ltb, some, List, [], ◌∷◌,
  ◌++◌, append_nil, get_elem?, length, take-length, take, Option-cases, inl, inr, get_elem?-none,
  arith,
}
use animula.Run.{ok}
use animula.Object.{Object}
use animula.Store.{Store}
use mathlib.Core.Path.{subst}
use animula.Vm.Memory.{read, object_bytes}
use animula.Vm.Memory.Laws.{IsObject, object_of-object_bytes, read-write_apart}
use animula.Vm.State.{Vm}
use animula.Vm.Stack.{object_size, reg, load_bytes, push_obj}
use animula.Vm.Interp.Variables.{OnStack, or_else, take-suc}
use animula.Vm.Stack.Laws.{HasRoom, pushed, push_bytes-ok}
use animula.Vm.Decode.Laws.{Next, fetched, fetch-ok, Next-fetched}
use animula.Vm.Cells.{empty_list}
use animula.Vm.Alloc.{
  block_gc, insert_cell, pop_obj_from, list_loop, make_list, generate_list, get_size,
}

-- The objects of a list that is made while the machine is in this generation.
abbrev pub marked : (gc : ℕ) → List Object → List Object
marked gc [] = []
marked gc (o ∷ os) = record o { gc = gc } ∷ marked gc os

length-marked : (gc : ℕ) (os : List Object) → length (marked gc os) ≡ length os
length-marked gc [] = refl
length-marked gc (o ∷ os) = ap suc (length-marked gc os)

get_elem?-marked :
    (gc : ℕ) (os : List Object) (i : ℕ) (o : Object)
    → get_elem? os i ≡ some o
    → get_elem? (marked gc os) i ≡ some (record o { gc = gc })
get_elem?-marked gc [] i o e = absurd cc
get_elem?-marked gc (p ∷ os) zero o e =
    ap {A = Object} (λ q. some (record q { gc = gc })) (ap (or_else o) e)
get_elem?-marked gc (p ∷ os) (suc i) o e = get_elem?-marked gc os i o e

pop_obj_from-ok :
    (b : ℕ) (o : Object) (vm : Vm)
    → b + object_size ≤ vm.stkseg_size
    → IsObject o
    → read vm.stack b object_size ≡ object_bytes o
    → pop_obj_from (b + object_size) vm ≡ ok ((o, b), vm)
unfolding pop_obj_from load_bytes
pop_obj_from-ok b o vm h is at =
    let back : b + object_size - object_size ≡ b = omega arith in
    let some_room : ltb (b + object_size) object_size ≡ false = ground arith in
    let inside : ltb vm.stkseg_size (b + object_size) ≡ false = ground (arith, h) in
    rw (some_room, back, inside, at, object_of-object_bytes o is) refl

list_loop-take :
    (n a l : ℕ) (os acc : List Object) (vm : Vm)
    → OnStack vm.stack a os
    → n ≤ length os
    → a + n * object_size ≤ vm.stkseg_size
    → IsHeap vm.heap
    → ListOf vm.heap l acc
    → (h : Store) × (list_loop n l (a + n * object_size) vm ≡ ok (a, record vm { heap = h }))
      × IsHeap h
      × ListOf h l (take n (marked (block_gc vm) os) ++ acc)
unfolding list_loop insert_cell
list_loop-take zero a l os acc vm on h room is shows =
    (vm.heap, ap (λ b. ok (b, vm)) (omega arith), is, shows)
list_loop-take (suc n) a l os acc vm on h room is shows = elim (Option-cases (get_elem? os n)) [
  | inl none_left ↦ absurd (omega (arith, get_elem?-none os n none_left, h))
  | inr (o, here) ↦
      let b = a + n * object_size in
      let gc = block_gc vm in
      let (h₁, step, is₁, shows₁) = inserted-ListOf l (record o { gc = gc }) acc vm.heap is shows in
      let vm₁ : Vm = record vm { heap = h₁ } in
      let (h₂, rest, is₂, shows₂) =
        list_loop-take n a l os (record o { gc = gc } ∷ acc) vm₁ on (omega (arith, h))
          (omega (arith, room)) is₁ shows₁ in
      let next : a + suc n * object_size ≡ b + object_size = omega arith in
      (
        h₂,
        rw
            (
              next,
              pop_obj_from-ok b o vm (omega (arith, room)) (on.objects n o here)
                  (on.bytes_at n o here),
              step,
            )
            rest,
        is₂,
        subst (ListOf h₂ l)
            (take-suc n (marked gc os) acc (record o { gc = gc }) (get_elem?-marked gc os n o here))
            shows₂,
      )
]

-- The objects below the stack pointer are there behind a push too.
pushed-OnStack :
    (a : ℕ) (os : List Object) (bs : List ℕ) (vm : Vm)
    → OnStack vm.stack a os
    → vm.sp ≡ a + length os * object_size
    → OnStack (pushed bs vm).stack a os
pushed-OnStack a os bs vm on top = record {
  bytes_at = λ i o e.
      let inside : i < length os = within os i o e in
      read-write_apart vm.stack vm.sp bs (a + i * object_size) object_size
        (inl (omega (arith, top, inside)))
      ∙ on.bytes_at i o e;
  objects = on.objects;
}
  where
    within : (os : List Object) (i : ℕ) (o : Object) → get_elem? os i ≡ some o → i < length os
    within [] i o e = absurd cc
    within (p ∷ os) zero o e = omega arith
    within (p ∷ os) (suc i) o e = omega (arith, within os i o e)

-- `generate_list` with the size of `os` behind it in the code takes the objects `os` off the stack, with
-- room for one more above them, and returns a new list of them in the order of the stack.
pub generate_list-ListOf :
    (a hi lo : ℕ) (os : List Object) (obj : Object) (vm : Vm)
    → Next (hi ∷ lo ∷ []) vm
    → hi * 256 + lo ≡ length os
    → OnStack vm.stack a os
    → vm.sp ≡ a + length os * object_size
    → HasRoom object_size vm
    → IsHeap vm.heap
    → (vm' : Vm) × (generate_list obj vm ≡ ok (record obj { value = vm.heap.next }, vm'))
      × (vm'.sp ≡ a)
      × ListOf vm'.heap vm.heap.next (marked (block_gc vm) os)
unfolding generate_list get_size make_list push_obj
generate_list-ListOf a hi lo os obj vm next size on top room is =
    let l = vm.heap.next in
    let gc = block_gc vm in
    let h₀ : Store = (empty_list gc vm.heap).1 in
    let o : Object = record obj { value = l } in
    let vm₁ : Vm = record (fetched lo (fetched hi vm)) { heap = h₀ } in
    let vm₂ : Vm = pushed (object_bytes o) vm₁ in
    let room₁ : HasRoom object_size vm₁ = room in
    let (h, run, is', shows) =
      list_loop-take (length os) a l os [] vm₂
        (pushed-OnStack a os (object_bytes o) vm₁
          (record { bytes_at = on.bytes_at; objects = on.objects }) top)
        (omega arith) (omega (arith, top, room)) (empty-IsHeap gc vm.heap is)
        (empty-ListOf gc vm.heap) in
    let below : vm.sp + object_size - object_size ≡ a + length os * object_size =
      omega (arith, top) in
    let back : reg a ≡ a = omega (arith, top, room) in
    let all : take (length os) (marked gc os) ++ [] ≡ marked gc os =
      append_nil _
      ∙ ap (λ n. take n (marked gc os)) (sym (length-marked gc os))
      ∙ take-length (marked gc os) in
    (
      record vm₂ { heap = h; sp = a },
      rw
          (
            fetch-ok hi (lo ∷ []) vm next,
            fetch-ok lo [] (fetched hi vm) (Next-fetched hi (lo ∷ []) vm next),
            size,
            push_bytes-ok (object_bytes o) vm₁ room₁,
            below,
            run,
            back,
          )
          refl,
      refl,
      subst (ListOf h l) all shows,
    )
