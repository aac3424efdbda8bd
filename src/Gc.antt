-- ===== src/Gc.antt =====
-- gc.c and inc/obg_gc.h, the collector of the builds without tinygc: its state, and the nodes that it
-- allocates in advance.
pub mod Returns
pub mod Free
pub mod Roots
pub mod Collect
mod Tests
use animula.Prelude.{
  ℕ, ◌+◌, ◌-◌, ◌==◌, if◌then◌else◌, Option, none, some, List, [], ◌∷◌, length, get_elem?, set,
}
use animula.Run.{Run, ok, panic, fault, ◌>>=◌}
use animula.Object.{OType}

-- What stands at an address: an object with the word `value`, the inner object of a pair, a list, or a
-- mutable bytevector, or a block that refers to no other. A list has the objects of its nodes, in order;
-- a node is freed with its place in the list.
pub data Body : Type 0 where
  object : OType → (value : ℕ) → Body
  pair_of : (car cdr : ℕ) → Body
  list_of : List ℕ → (non_shared : ℕ) → Body
  bytes : (vec : ℕ) → Body
  plain : Body

-- `gc` is the field `attr.gc`, the first of every object and inner object.
pub record Block : Type 0 where
  pub gc : ℕ
  pub body : Body

abbrev pub Blocks : Type 0
Blocks = ℕ → Option Block

-- A pool is the sequence of its nodes, each with the address of its object.
abbrev pub Pool : Type 0
Pool = List (ℕ × ℕ)

-- `_oln`.
pub record Slots : Type 0 where
  pub oln : List ℕ
  pub index : ℕ

-- `roots` are the values in the tree of the active roots.
pub record Gc : Type 0 where
  pub heap : Blocks
  pub slots : Slots
  pub roots : List ℕ
  pub obj_pool : Pool
  pub list_pool : Pool
  pub vector_pool : Pool
  pub pair_pool : Pool
  pub closure_pool : Pool
  pub bytevector_pool : Pool
  pub mut_bytevector_pool : Pool

-- `PERMANENT_OBJ`.
abbrev pub permanent : ℕ
permanent = 3

-- What `object_list_node_alloc` leaves in a slot whose node is in use.
abbrev pub dead : ℕ
dead = 0xdead0001

abbrev pub block_at : (p : ℕ) → Blocks → Run Block
block_at p m = elim (m p) [ none ↦ fault | some b ↦ ok b ]

abbrev pub with_block : (p : ℕ) → Option Block → Blocks → Blocks
with_block p b m = λ q. if q == p then b else m q

-- `os_free` of a block.
abbrev pub os_free : (p : ℕ) → Blocks → Run Blocks
os_free p m = do b ← block_at p m; ok (with_block p none m)

abbrev pub write_gc : (p gc : ℕ) → Blocks → Run Blocks
write_gc p gc m = do b ← block_at p m; ok (with_block p (some (record b { gc = gc })) m)

-- `object_list_node_available`: the slots of `_oln` from `index` on.
abbrev pub object_list_node_available : Slots → ℕ
object_list_node_available s = length s.oln - s.index

-- `object_list_node_alloc` with what the next slot holds; `NULL` there is a `PANIC`.
abbrev pub take_node : Option ℕ → Slots → Run (ℕ × Slots)
take_node none s = fault
take_node (some node) s =
    if node == 0
    then panic
    else ok (node, record { oln = set s.oln s.index dead; index = s.index + 1 })

-- `object_list_node_alloc`; 0 is `NULL`.
abbrev pub object_list_node_alloc : Slots → Run (ℕ × Slots)
object_list_node_alloc s =
    if object_list_node_available s == 0 then ok (0, s) else take_node (get_elem? s.oln s.index) s

-- `object_list_node_recycle`; in front of the first slot it writes out of the array.
abbrev pub object_list_node_recycle : (node : ℕ) → Slots → Run Slots
object_list_node_recycle node s =
    if s.index == 0
    then fault
    else ok (record { oln = set s.oln (s.index - 1) node; index = s.index - 1 })

-- `gc_init`, with the nodes that `object_list_node_pre_allocate` has got.
abbrev pub gc_init : (nodes : List ℕ) → Blocks → Gc
gc_init nodes m = record {
  heap = m;
  slots = record { oln = nodes; index = 0 };
  roots = [];
  obj_pool = [];
  list_pool = [];
  vector_pool = [];
  pair_pool = [];
  closure_pool = [];
  bytevector_pool = [];
  mut_bytevector_pool = [];
}

-- `gc_obj_book`.
unfoldable pub gc_obj_book : (obj : ℕ) → Gc → Run Gc
gc_obj_book obj g = do
  (node, s) ← object_list_node_alloc g.slots
  if node == 0 then panic else ok (record g { slots = s; obj_pool = (node, obj) ∷ g.obj_pool })

-- The `switch` of `gc_inner_obj_book`.
abbrev pub insert_pool : OType → (node obj : ℕ) → Gc → Run Gc
insert_pool OType.pair n o g = ok (record g { pair_pool = (n, o) ∷ g.pair_pool })
insert_pool OType.vector n o g = ok (record g { vector_pool = (n, o) ∷ g.vector_pool })
insert_pool OType.list n o g = ok (record g { list_pool = (n, o) ∷ g.list_pool })
insert_pool OType.closure_on_heap n o g = ok (record g { closure_pool = (n, o) ∷ g.closure_pool })
insert_pool OType.closure_on_stack n o g = ok (record g { closure_pool = (n, o) ∷ g.closure_pool })
insert_pool OType.bytevector n o g = ok (record g { bytevector_pool = (n, o) ∷ g.bytevector_pool })
insert_pool OType.mut_bytevector n o g =
    ok (record g { mut_bytevector_pool = (n, o) ∷ g.mut_bytevector_pool })
insert_pool _ n o g = panic

-- `gc_inner_obj_book`.
unfoldable pub gc_inner_obj_book : OType → (obj : ℕ) → Gc → Run Gc
gc_inner_obj_book t obj g = do
  (node, s) ← object_list_node_alloc g.slots
  if node == 0 then panic else insert_pool t node obj (record g { slots = s })
