-- ===== src/Vm/Alloc.antt =====
-- The machine on the heap: the objects that `generate_object` and `handle_optional_args` of vm.c
-- make.
pub mod Fixed
pub mod Insert
pub mod Lists
use animula.Prelude.{
  ℕ, zero, suc, ◌+◌, ◌-◌, ◌*◌, ◌/◌, ◌%◌, ◌^◌, Bool, true, false, ◌||◌, ltb, ◌==◌, if◌then◌else◌,
  Option, none, some, List, [], ◌∷◌, ◌++◌, length, set, take, drop, replicate,
}
use Prim.Native.Nat.{bit_or}
use animula.Run.{Run, ok, panic, fault}
use animula.Object.{OType, Object, same}
use animula.Store.{Store, Pair, put, new_pair}
use animula.Lists.{generation}
use animula.Bytevector.{ByteVector, Heap}
use animula.Vm.Memory.{object_of}
use animula.Vm.State.{Vm, VmState, M, pure, and_then, ◌>>=◌, ◌>>◌, get, lift}
use animula.Vm.State
use animula.Vm.Stack.{object_size, fps, reg, push_obj, pop_obj, load_bytes}
use animula.Vm.Decode.{is_init_globals, fetch_next_bytecode, vm_get_u16}
use animula.Vm.Interp.{u8}
use animula.Vm.Cells.{new_cell, empty_list, insert_object, string_block}

-- A function on the heap, as a step of the machine.
abbrev pub heap_run : {A : Type 0} → Vm → Run (A × Store) → Run (A × Vm)
heap_run vm (ok (a, h)) = ok (a, record vm { heap = h })
heap_run vm panic = panic
heap_run vm fault = fault

abbrev pub on_heap : {A : Type 0} → (Store → Run (A × Store)) → M A
on_heap g vm = heap_run vm (g vm.heap)

abbrev pub read_heap : {A : Type 0} → (Store → Run A) → M A
read_heap g = do vm ← get; lift (g vm.heap)

abbrev pub bytes_run : {A : Type 0} → Vm → Run (A × Heap) → Run (A × Vm)
bytes_run vm (ok (a, h)) = ok (a, record vm { bytevectors = h })
bytes_run vm panic = panic
bytes_run vm fault = fault

abbrev pub on_bytevectors : {A : Type 0} → (Heap → Run (A × Heap)) → M A
on_bytevectors g vm = bytes_run vm (g vm.bytevectors)

-- The blocks that these functions make and fill.
unfoldable pub make_cell : Object → M ℕ
make_cell o = on_heap (λ h. ok (new_cell o h))

unfoldable pub set_cell : (cell : ℕ) → Object → M (Unit {0})
set_cell cell o = on_heap (λ h. ok (tt, record h { objects = put h.objects cell o }))

unfoldable pub make_block : M ℕ
make_block = on_heap (λ h. ok (h.next, record h { next = h.next + 1 }))

unfoldable pub make_pair : M ℕ
make_pair = on_heap (λ h. ok (h.next, new_pair h))

unfoldable pub fill_pair : (p car cdr : ℕ) → M (Unit {0})
fill_pair p car cdr =
    on_heap (λ h. ok (tt, record h { pairs = put h.pairs p (record { car = car; cdr = cdr }) }))

unfoldable pub make_list : (gc : ℕ) → M ℕ
make_list gc = on_heap (λ h. ok (empty_list gc h))

unfoldable pub insert_cell : (l : ℕ) → Object → M ℕ
insert_cell l o = on_heap (insert_object l o)

unfoldable pub put_string : (a : ℕ) → List ℕ → M (Unit {0})
put_string a block = on_heap (λ h. ok (tt, record h { strings = put h.strings a block }))

unfoldable pub put_bytevector : ByteVector → M ℕ
put_bytevector bv = on_bytevectors (λ h.
    ok (h.next, record h { next = h.next + 1; at = λ q. if q == h.next then some bv else h.at q }))

-- `GEN_1_OBJ`, and `PERMANENT_OBJ` while the globals are initialised.
abbrev pub block_gc : Vm → ℕ
block_gc vm = generation (is_init_globals vm.state)

-- `POP_OBJ_FROM`: the object below `sp`, and the new `sp`.
unfoldable pub pop_obj_from : ℕ → M (Object × ℕ)
pop_obj_from sp =
    if ltb sp object_size
    then lift fault
    else do bs ← load_bytes (sp - object_size) object_size; pure (object_of bs, sp - object_size)

-- The word of 16 bits behind the byte code, its upper byte first.
unfoldable pub get_size : M ℕ
get_size = do s ← fetch_next_bytecode; b ← fetch_next_bytecode; pure (s * 256 + b)

abbrev pub set_sp : ℕ → M (Unit {0})
set_sp sp = do vm ← get; State.put (record vm { sp = reg sp })

abbrev pub skip : ℕ → M (Unit {0})
skip n = do vm ← get; State.put (record vm { pc = reg (vm.pc + n) })

unfoldable pub generate_pair : Object → M Object
unfolding pop_obj_from
generate_pair obj = do
  vm ← get
  p ← make_pair
  let o : Object = record obj { value = p }
  push_obj o
  vm₁ ← get
  (cdr, sp₁) ← pop_obj_from (vm₁.sp - object_size)
  d ← make_cell (record cdr { gc = 1 })
  (car, sp₂) ← pop_obj_from sp₁
  a ← make_cell (record car { gc = 1 })
  fill_pair p a d
  set_sp sp₂
  pure o

-- The objects of the stack, from the top, each in front of the others.
unfoldable pub list_loop : (n l sp : ℕ) → M ℕ
unfolding pop_obj_from
list_loop zero l sp = pure sp
list_loop (suc n) l sp = do
  (o, sp₁) ← pop_obj_from sp
  vm ← get
  cell ← insert_cell l (record o { gc = block_gc vm })
  list_loop n l sp₁

unfoldable pub generate_list : Object → M Object
unfolding list_loop get_size
generate_list obj = do
  size ← get_size
  vm ← get
  l ← make_list (block_gc vm)
  let o : Object = record obj { value = l }
  push_obj o
  vm₁ ← get
  sp ← list_loop size l (vm₁.sp - object_size)
  set_sp sp
  pure o

-- The addresses of new cells for the objects of the stack, from the top.
unfoldable pub vector_loop : (n sp : ℕ) → M (List ℕ × ℕ)
unfolding pop_obj_from
vector_loop zero sp = pure ([], sp)
vector_loop (suc n) sp = do
  (o, sp₁) ← pop_obj_from sp
  cell ← make_cell (record o { gc = 1 })
  (cells, sp₂) ← vector_loop n sp₁
  pure (cell ∷ cells, sp₂)

unfoldable pub generate_vector : Object → M Object
unfolding vector_loop get_size
generate_vector obj = do
  size ← get_size
  v ← make_block
  let o : Object = record obj { value = v }
  push_obj o
  vm₁ ← get
  (cells, sp) ← vector_loop size (vm₁.sp - object_size)
  vm₂ ← get
  State.put (record vm₂ { vectors = λ q. if q == v then some cells else vm₂.vectors q })
  set_sp sp
  pure o

-- `vec` of the bytevector at `v` points to the code from `offset` on.
unfoldable pub point_to_code : (v offset : ℕ) → M (Unit {0})
point_to_code v offset = do
  vm ← get
  State.put (record vm { views = λ q. if q == v then some offset else vm.views q })

-- A literal of a mutable bytevector gets a zeroed block: its bytes are skipped. An immutable one is a
-- view of the code: its bytes are those of the code, also where `write_back` changes that.
unfoldable pub generate_bytevector :
    Object → (view : Bool) → (block : Vm → (size : ℕ) → List ℕ) → M Object
unfolding get_size
generate_bytevector obj view block = do
  size ← get_size
  vm ← get
  v ← put_bytevector (record { size = size; vec = block vm size })
  marked ← if view then point_to_code v vm.pc else pure tt
  skip size
  pure (record obj { gc = block_gc vm; value = v })

-- A string literal is an address in the code. The heap has what the code has there: `write_back` keeps
-- the two the same where a string is written.
unfoldable pub generate_string : Object → M Object
generate_string obj = do
  vm ← get
  block ← lift (string_block vm.code vm.pc)
  put_string (vm.code_at + vm.pc) block
  skip (length block)
  pure (record obj { value = vm.code_at + vm.pc })

-- `code` with the bytes of `block` from `offset` on.
abbrev pub overlay : (code : List ℕ) → (offset : ℕ) → (block : List ℕ) → List ℕ
overlay code offset [] = code
overlay code offset (b ∷ bs) = overlay (set code offset b) (offset + 1) bs

-- The bytevectors of the heap, of which the views show the code.
abbrev pub viewed : (code : List ℕ) → (views : ℕ → Option ℕ) → Heap → Heap
viewed code views h = record h {
  at = λ q. elim (views q) [
    | none ↦ h.at q
    | some offset ↦ elim (h.at q) [
      | none ↦ none
      | some bv ↦ some (record bv { vec = take bv.size (drop offset code) })
    ]
  ];
}

-- A string in the code segment that has been written has changed the code.
unfoldable pub write_back : Object → M (Unit {0})
write_back str vm = elim (vm.heap.strings str.value) [
  | none ↦ ok (tt, vm)
  | some block ↦
      if ltb str.value vm.code_at
      then ok (tt, vm)
      else (let code = overlay vm.code (str.value - vm.code_at) block in
          ok (tt, record vm { code = code; bytevectors = viewed code vm.views vm.bytevectors }))
]

-- A function that writes to the string `str`.
unfoldable pub on_string : Object → (Store → Run (Object × Store)) → M Object
on_string str g = do r ← on_heap g; write_back str; pure r

-- A half of 16 bits with its sign, as a word of 32 bits.
abbrev pub s16_word : ℕ → ℕ
s16_word n = if ltb n (2 ^ 15) then n else n + 2 ^ 32 - 2 ^ 16

-- The other types of `generate_object`. `VM_PANIC` in the default case only stops the machine.
unfoldable pub allocate : Object → M Object
allocate obj =
    if same obj.type OType.string || same obj.type OType.keyword
    then generate_string obj
    else if same obj.type OType.pair
    then generate_pair obj
    else if same obj.type OType.list
    then generate_list obj
    else if same obj.type OType.vector
    then generate_vector obj
    else if same obj.type OType.complex_exact
    then (do
      r ← vm_get_u16
      i ← vm_get_u16
      pure (record obj { value = bit_or (s16_word r * 2 ^ 15 % 2 ^ 32) (s16_word i) }))
    else if same obj.type OType.complex_inexact
    then (do vm ← get; skip 8; pure (record obj { value = vm.code_at + vm.pc }))
    else if same obj.type OType.mut_bytevector
    then generate_bytevector obj false (λ vm size. replicate size 0)
    else if same obj.type OType.bytevector
    then generate_bytevector obj true (λ vm size. take size (drop vm.pc vm.code))
    else (do vm ← get; State.put (record vm { state = VmState.stop }); pure obj)

-- `handle_optional_args`: the loop, and `COUNT_ARGS` in front of it.
unfoldable pub optional_loop : (cnt l : ℕ) → M (Unit {0})
optional_loop zero l = pure tt
optional_loop (suc cnt) l = do
  o ← pop_obj
  cell ← insert_cell l (record o { gc = 1 })
  optional_loop cnt l

-- `sp - fp + FPS` is an `int` that the division makes unsigned.
abbrev pub count_args : Vm → ℕ
count_args vm = (vm.sp + fps + 2 ^ 32 - vm.fp) % 2 ^ 32 / object_size

unfoldable pub handle_optional_args : Object → M (Unit {0})
handle_optional_args proc = do
  vm ← get
  let cnt = u8 (count_args vm + 2 ^ 32 - u8 (proc.value / 256))
  l ← make_list 0
  optional_loop cnt l
  push_obj (record { type = OType.list; gc = 0; value = l })
