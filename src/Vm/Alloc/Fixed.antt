-- ===== src/Vm/Alloc/Fixed.antt =====
-- The objects that the machine makes keep the place of the code, the segments and the number of globals.
use animula.Prelude.{
  ℕ, Bool, true, false, zero, suc, ◌+◌, ◌-◌, ◌/◌, ◌||◌, ◌^◌, ◌≡◌, ◌∙◌, ap, refl, ltb, if◌then◌else◌,
  Option, none, some, [], ◌∷◌, length, set, length-set, List, take, drop, replicate,
}
use animula.Run.{Run, ok, panic, fault}
use animula.Object.{OType, Object, same}
use animula.Store.{Store}
use animula.Bytevector.{ByteVector, Heap}
use animula.Vm.State.{Vm}
use animula.Vm.Stack.{object_size, pop_obj}
use animula.Vm.Decode.{fetch_next_bytecode}
use animula.Vm.Interp.{u8}
use animula.Vm.Interp.Fixed.{
  Keeps, KeepsRun, run_branch-Keeps, pure-Keeps, lift-Keeps, branch-Keeps, and_then-Keeps,
  bind-Keeps, load_bytes-Keeps, fetch-Keeps, push_obj-Keeps, pop_obj-Keeps, get_u16-Keeps,
}
use animula.Vm.Cells.{insert_object, string_block}
use animula.Vm.Alloc.{
  make_cell, set_cell, make_block, make_pair, fill_pair, make_list, insert_cell, put_string,
  put_bytevector, heap_run, on_heap, read_heap, bytes_run, on_bytevectors, block_gc, pop_obj_from,
  get_size, generate_pair, list_loop, generate_list, vector_loop, generate_vector,
  generate_bytevector, generate_string, overlay, viewed, point_to_code, write_back, on_string,
  allocate, optional_loop, count_args, handle_optional_args,
}

module _ {A : Type 0} where
  heap_run-Keeps : (vm : Vm) (r : Run (A × Store)) → KeepsRun vm (heap_run vm r)
  heap_run-Keeps vm (ok (a, h)) = refl
  heap_run-Keeps vm panic = tt
  heap_run-Keeps vm fault = tt

  pub on_heap-Keeps : (g : Store → Run (A × Store)) → Keeps (on_heap g)
  on_heap-Keeps g vm = heap_run-Keeps vm (g vm.heap)

  pub read_heap-Keeps : (g : Store → Run A) → Keeps (read_heap g)
  read_heap-Keeps g vm = lift-Keeps (g vm.heap) vm

  bytes_run-Keeps : (vm : Vm) (r : Run (A × Heap)) → KeepsRun vm (bytes_run vm r)
  bytes_run-Keeps vm (ok (a, h)) = refl
  bytes_run-Keeps vm panic = tt
  bytes_run-Keeps vm fault = tt

  pub on_bytevectors-Keeps : (g : Heap → Run (A × Heap)) → Keeps (on_bytevectors g)
  on_bytevectors-Keeps g vm = bytes_run-Keeps vm (g vm.bytevectors)

pub make_cell-Keeps : (o : Object) → Keeps (make_cell o)
unfolding make_cell
make_cell-Keeps o vm = refl

pub set_cell-Keeps : (cell : ℕ) (o : Object) → Keeps (set_cell cell o)
unfolding set_cell
set_cell-Keeps cell o vm = refl

pub make_block-Keeps : Keeps make_block
unfolding make_block
make_block-Keeps vm = refl

make_pair-Keeps : Keeps make_pair
unfolding make_pair
make_pair-Keeps vm = refl

fill_pair-Keeps : (p a d : ℕ) → Keeps (fill_pair p a d)
unfolding fill_pair
fill_pair-Keeps p a d vm = refl

pub make_list-Keeps : (gc : ℕ) → Keeps (make_list gc)
unfolding make_list
make_list-Keeps gc vm = refl

insert_cell-Keeps : (l : ℕ) (o : Object) → Keeps (insert_cell l o)
unfolding insert_cell
insert_cell-Keeps l o = on_heap-Keeps (insert_object l o)

put_string-Keeps : (a : ℕ) (block : List ℕ) → Keeps (put_string a block)
unfolding put_string
put_string-Keeps a block vm = refl

put_bytevector-Keeps : (bv : ByteVector) → Keeps (put_bytevector bv)
unfolding put_bytevector
put_bytevector-Keeps bv vm = refl

pop_obj_from-Keeps : (sp : ℕ) → Keeps (pop_obj_from sp)
unfolding pop_obj_from
pop_obj_from-Keeps sp =
    branch-Keeps (ltb sp object_size) _ _ (λ vm. tt)
      (bind-Keeps _ _ (load_bytes-Keeps (sp - object_size) object_size) λ bs vm. refl)

get_size-Keeps : Keeps get_size
unfolding get_size
get_size-Keeps =
    bind-Keeps fetch_next_bytecode _ fetch-Keeps
      λ s. bind-Keeps fetch_next_bytecode _ fetch-Keeps λ b vm. refl

generate_pair-Keeps : (obj : Object) → Keeps (generate_pair obj)
unfolding generate_pair
generate_pair-Keeps obj vm = and_then-Keeps vm _ _ (make_pair-Keeps vm) λ p.
    bind-Keeps _ _ (push_obj-Keeps (record obj { value = p })) λ _ vm₁.
      and_then-Keeps vm₁ _ _ (pop_obj_from-Keeps (vm₁.sp - object_size) vm₁) λ (cdr, sp₁).
        bind-Keeps _ _ (make_cell-Keeps (record cdr { gc = 1 })) λ d.
          bind-Keeps _ _ (pop_obj_from-Keeps sp₁) λ (car, sp₂).
            bind-Keeps _ _ (make_cell-Keeps (record car { gc = 1 }))
              λ a. bind-Keeps _ _ (fill_pair-Keeps p a d) λ _ vm₂. refl

list_loop-Keeps : (n l sp : ℕ) → Keeps (list_loop n l sp)
unfolding list_loop
list_loop-Keeps zero l sp = pure-Keeps sp
list_loop-Keeps (suc n) l sp = bind-Keeps _ _ (pop_obj_from-Keeps sp) λ (o, sp₁) vm.
    and_then-Keeps vm _ _ (insert_cell-Keeps l (record o { gc = block_gc vm }) vm)
      λ cell. list_loop-Keeps n l sp₁

generate_list-Keeps : (obj : Object) → Keeps (generate_list obj)
unfolding generate_list
generate_list-Keeps obj = bind-Keeps get_size _ get_size-Keeps λ size vm.
    and_then-Keeps vm _ _ (make_list-Keeps (block_gc vm) vm) λ l.
      bind-Keeps _ _ (push_obj-Keeps (record obj { value = l })) λ _ vm₁.
        and_then-Keeps vm₁ _ _ (list_loop-Keeps size l (vm₁.sp - object_size) vm₁) λ sp vm₂. refl

vector_loop-Keeps : (n sp : ℕ) → Keeps (vector_loop n sp)
unfolding vector_loop
vector_loop-Keeps zero sp = λ vm. refl
vector_loop-Keeps (suc n) sp = bind-Keeps _ _ (pop_obj_from-Keeps sp) λ (o, sp₁).
    bind-Keeps _ _ (make_cell-Keeps (record o { gc = 1 }))
      λ cell. bind-Keeps _ _ (vector_loop-Keeps n sp₁) λ (cells, sp₂) vm. refl

generate_vector-Keeps : (obj : Object) → Keeps (generate_vector obj)
unfolding generate_vector
generate_vector-Keeps obj = bind-Keeps get_size _ get_size-Keeps λ size.
    bind-Keeps _ _ make_block-Keeps λ v.
      bind-Keeps _ _ (push_obj-Keeps (record obj { value = v })) λ _ vm₁.
        and_then-Keeps vm₁ _ _ (vector_loop-Keeps size (vm₁.sp - object_size) vm₁)
          λ (cells, sp) vm₂. refl

point_to_code-Keeps : (v offset : ℕ) → Keeps (point_to_code v offset)
unfolding point_to_code
point_to_code-Keeps v offset vm = refl

generate_bytevector-Keeps :
    (obj : Object) (view : Bool) (block : Vm → (size : ℕ) → List ℕ)
    → Keeps (generate_bytevector obj view block)
unfolding generate_bytevector
generate_bytevector-Keeps obj view block = bind-Keeps get_size _ get_size-Keeps λ size vm.
    and_then-Keeps vm _ _ (put_bytevector-Keeps (record { size = size; vec = block vm size }) vm)
      λ v.
        bind-Keeps _ _ (branch-Keeps view _ _ (point_to_code-Keeps v vm.pc) (pure-Keeps tt))
          λ _ vm₁. refl

generate_string-Keeps : (obj : Object) → Keeps (generate_string obj)
unfolding generate_string
generate_string-Keeps obj vm =
    and_then-Keeps vm _ _ (lift-Keeps (string_block vm.code vm.pc) vm)
      λ block. bind-Keeps _ _ (put_string-Keeps (vm.code_at + vm.pc) block) λ _ vm₁. refl

length-overlay :
    (code : List ℕ) (offset : ℕ) (block : List ℕ) → length (overlay code offset block) ≡ length code
length-overlay code offset [] = refl
length-overlay code offset (b ∷ bs) =
    length-overlay (set code offset b) (offset + 1) bs ∙ length-set code offset b

write_back-Keeps : (str : Object) → Keeps (write_back str)
unfolding write_back
write_back-Keeps str vm = written_block vm (vm.heap.strings str.value)
  where
    written_block :
        (vm : Vm) (block : Option (List ℕ))
        → KeepsRun vm (elim block as (λ _. Run (Unit {0} × Vm)) [
          | none ↦ ok (tt, vm)
          | some bs ↦
              if ltb str.value vm.code_at
              then ok (tt, vm)
              else (let code = overlay vm.code (str.value - vm.code_at) bs in
                  ok (
                    tt,
                    record vm { code = code; bytevectors = viewed code vm.views vm.bytevectors },
                  ))
        ])
    written_block vm none = refl
    written_block vm (some bs) = run_branch-Keeps vm (ltb str.value vm.code_at) _ _ refl (
        ap
          (λ n.
            (n, vm.code_at, vm.stkseg_size, vm.codeseg_size, vm.globalseg_size, length vm.globals))
          (length-overlay vm.code (str.value - vm.code_at) bs))

pub on_string-Keeps : (str : Object) (g : Store → Run (Object × Store)) → Keeps (on_string str g)
unfolding on_string
on_string-Keeps str g =
    bind-Keeps _ _ (on_heap-Keeps g) λ r. bind-Keeps _ _ (write_back-Keeps str) λ _ vm. refl

pub allocate-Keeps : (obj : Object) → Keeps (allocate obj)
unfolding allocate
allocate-Keeps obj =
    let t = same obj.type in
    branch-Keeps (t OType.string || t OType.keyword) _ _ (generate_string-Keeps obj) (
      branch-Keeps (t OType.pair) _ _ (generate_pair-Keeps obj) (
        branch-Keeps (t OType.list) _ _ (generate_list-Keeps obj) (
          branch-Keeps (t OType.vector) _ _ (generate_vector-Keeps obj) (
            branch-Keeps (t OType.complex_exact) _ _
              (bind-Keeps _ _ get_u16-Keeps λ r. bind-Keeps _ _ get_u16-Keeps λ i vm. refl)
              (branch-Keeps (t OType.complex_inexact) _ _ (λ vm. refl)
                (branch-Keeps (t OType.mut_bytevector) _ _
                  (generate_bytevector-Keeps obj false (λ vm size. replicate size 0))
                  (branch-Keeps (t OType.bytevector) _ _
                    (generate_bytevector-Keeps obj true (λ vm size. take size (drop vm.pc vm.code)))
                    (λ vm. refl))))))))

optional_loop-Keeps : (cnt l : ℕ) → Keeps (optional_loop cnt l)
unfolding optional_loop
optional_loop-Keeps zero l = λ vm. refl
optional_loop-Keeps (suc cnt) l = bind-Keeps pop_obj _ pop_obj-Keeps λ o.
    bind-Keeps _ _ (insert_cell-Keeps l (record o { gc = 1 })) λ cell. optional_loop-Keeps cnt l

pub handle_optional_args-Keeps : (proc : Object) → Keeps (handle_optional_args proc)
unfolding handle_optional_args
handle_optional_args-Keeps proc vm = and_then-Keeps vm _ _ (make_list-Keeps 0 vm) λ l.
    bind-Keeps _ _ (optional_loop-Keeps (u8 (count_args vm + 2 ^ 32 - u8 (proc.value / 256))) l)
      λ _. push_obj-Keeps (record { type = OType.list; gc = 0; value = l })
