-- ===== src/Lists.antt =====
-- list.c: lists, pairs and their primitives.
pub mod Sort
pub mod Chain
pub mod Laws
pub mod Update
pub mod Pairs
mod Tests
pub mod Append
use animula.Prelude.{
  ℕ, zero, suc, ◌+◌, ◌%◌, ◌^◌, Bool, true, false, not, ◌||◌, ◌&&◌, ltb, ◌==◌, if◌then◌else◌,
}
use animula.Prelude.Int.{ℤ, pos, negsuc, pos_part, ltb_ℤ}
use animula.Run.{Run, ok, panic, fault, ◌>>=◌, ◌>>◌}
use animula.Object.{OType, Object, same, s32, bool_const, null_const, none_const, validate}
use animula.Store.{
  ListNode, ListHead, Pair, Store, put, fetch, new_list_node, new_list, new_pair, new_object,
}

-- `LIST_OBJECT_HEAD` and `SLIST_FIRST`.
abbrev pub list_first : Store → Object → Run ℕ
list_first s o = do l ← fetch s.lists o.value; ok l.first

-- `GEN_1_OBJ`, and `PERMANENT_OBJ` while the globals are initialised.
abbrev pub generation : (init_globals : Bool) → ℕ
generation init_globals = if init_globals then 3 else 1

unfoldable pub car : Store → Object → Run Object
car s obj =
    if same obj.type OType.list
    then (do first ← list_first s obj; node ← fetch s.nodes first; fetch s.objects node.obj)
    else if same obj.type OType.pair
    then (do p ← fetch s.pairs obj.value; fetch s.objects p.car)
    else panic

unfoldable pub cdr : (init_globals : Bool) → Store → Object → Run (Object × Store)
cdr init_globals s obj =
    if same obj.type OType.list
    then (do
      first ← list_first s obj
      node ← fetch s.nodes first
      if node.next == 0
          then ok (null_const, s)
          else ok (
            record { type = OType.list; gc = 0; value = s.next },
            record (new_list s) {
              lists =
                  put s.lists s.next
                    (record { gc = generation init_globals; non_shared = 0; first = node.next });
            },
          ))
    else if same obj.type OType.pair
    then (do p ← fetch s.pairs obj.value; o ← fetch s.objects p.cdr; ok (o, s))
    else panic

-- `OBJ_IS_ON_STACK (o) ? NEW_OBJ (0) : o`, with the copy: the address that the pair keeps.
unfoldable pub off_stack : Store → ℕ → Run (ℕ × Store)
off_stack s p = do
  o ← fetch s.objects p
  if o.gc == 0
      then ok (p, s)
      else ok (s.next, record (new_object s) { objects = put s.objects s.next o })

-- `SLIST_INSERT_HEAD` and `SLIST_INSERT_AFTER`.
abbrev pub insert_head : Store → (l node : ℕ) → Run Store
insert_head s l node = do
  head ← fetch s.lists l
  n ← fetch s.nodes node
  ok (record s {
    nodes = put s.nodes node (record n { next = head.first });
    lists = put s.lists l (record head { first = node });
  })

abbrev pub insert_after : Store → (prev node : ℕ) → Run Store
insert_after s prev node = do
  p ← fetch s.nodes prev
  n ← fetch s.nodes node
  ok (record s {
    nodes = put (put s.nodes node (record n { next = p.next })) prev (record p { next = node });
  })

-- The node that `_cons` makes before an empty list gets no object.
unfoldable pub cons : Store → Object → (a b : ℕ) → Run (Object × Store)
unfolding off_stack
cons s ret a b = do
  tail ← fetch s.objects b
  if same tail.type OType.null_obj
      then (do
        s' ← insert_head (new_list_node (new_list s)) s.next (s.next + 1)
        ok (record ret { type = OType.list; value = s.next }, s'))
      else do
        (new_a, s₁) ← off_stack (new_pair s) a
        (new_b, s₂) ← off_stack s₁ b
        ok (
          record ret { type = OType.pair; value = s.next },
          record s₂ { pairs = put s₂.pairs s.next (record { car = new_a; cdr = new_b }) },
        )

-- The loops over the nodes of a list run on fuel. A cyclic list, on which C loops for ever, is the
-- one that no fuel is enough for: without fuel they end in `fault`.
unfoldable pub ref_loop : ℕ → Store → (node cnt : ℕ) → Run ℕ
ref_loop zero s node cnt = fault
ref_loop (suc fuel) s node zero = ok node
ref_loop (suc fuel) s node (suc cnt) =
    if node == 0 then ok node else do n ← fetch s.nodes node; ref_loop fuel s n.next cnt

-- Behind the loop `cnt` is not negative.
unfoldable pub list_ref : (fuel : ℕ) → Store → (lst idx : Object) → Run Object
list_ref fuel s lst idx = do
  validate lst OType.list
  validate idx OType.imm_int
  first ← list_first s lst
  if first == 0 || ltb_ℤ (s32 idx.value) (pos 0) then panic else do
    node ← ref_loop fuel s first (pos_part (s32 idx.value))
    if node == 0 then panic else do n ← fetch s.nodes node; fetch s.objects n.obj

-- The node at which the loop stops, and the store, where that node has the object.
unfoldable pub set_loop : ℕ → Store → (node : ℕ) → ℤ → (val : ℕ) → Run (ℕ × Store)
set_loop zero s node cnt val = fault
set_loop (suc fuel) s node (pos zero) val = if node == 0 then ok (node, s) else do
  n ← fetch s.nodes node
  ok (node, record s { nodes = put s.nodes node (record n { obj = val }) })
set_loop (suc fuel) s node (pos (suc cnt)) val =
    if node == 0
    then ok (node, s)
    else do n ← fetch s.nodes node; set_loop fuel s n.next (pos cnt) val
set_loop (suc fuel) s node (negsuc cnt) val =
    if node == 0
    then ok (node, s)
    else do n ← fetch s.nodes node; set_loop fuel s n.next (negsuc (suc cnt)) val

unfoldable pub list_set : (fuel : ℕ) → Store → (lst idx : Object) → (val : ℕ) → Run (Object × Store)
list_set fuel s lst idx val = do
  validate lst OType.mut_list
  validate idx OType.imm_int
  first ← list_first s lst
  if first == 0 then panic else do
    (node, s') ← set_loop fuel s first (s32 idx.value) val
    n ← if node == 0 then fault else fetch s'.nodes node
    if n.obj == val then ok (none_const, s') else panic

-- The last node of the copy, 0 for none, and the store.
unfoldable pub append_loop : ℕ → Store → (l node prev : ℕ) → Run (ℕ × Store)
append_loop zero s l node prev = fault
append_loop (suc fuel) s l node prev = if node == 0 then ok (prev, s) else do
  n ← fetch s.nodes node
  let s₁ : Store = record (new_list_node s) {
    nodes = put s.nodes s.next (record { next = 0; obj = n.obj });
  }
  s₂ ← if prev == 0 then insert_head s₁ l s.next else insert_after s₁ prev s.next
  n' ← fetch s₂.nodes node
  append_loop fuel s₂ l n'.next s.next

-- The counter of the copied elements stays 0. Behind `VALIDATE (l2, list)` the branch for other
-- types is dead.
unfoldable pub list_append :
    (fuel : ℕ) → (init_globals : Bool) → Store → (ret l1 l2 : Object) → Run (Object × Store)
list_append fuel init_globals s ret l1 l2 = do
  validate l1 OType.list
  validate l2 OType.list
  let r : Object = record ret { type = OType.list; value = s.next }
  h1 ← list_first s l1
  h2 ← list_first s l2
  let s₁ : Store = record (new_list s) {
    lists = put s.lists s.next (record { gc = 3; non_shared = 0; first = 0 });
  }
  (prev, s₂) ← append_loop fuel s₁ s.next h1 0
  p ← if prev == 0 then fault else fetch s₂.nodes prev
  head ← fetch s₂.lists s.next
  ok (
    r,
    record s₂ {
      nodes = put s₂.nodes prev (record p { next = h2 });
      lists = put s₂.lists s.next (record head { gc = generation init_globals; non_shared = 0 });
    },
  )

unfoldable pub length_loop : ℕ → Store → (node len : ℕ) → Run ℕ
length_loop zero s node len = fault
length_loop (suc fuel) s node len =
    if node == 0 then ok len else do n ← fetch s.nodes node; length_loop fuel s n.next (len + 1)

unfoldable pub list_length : (fuel : ℕ) → Store → (ret l1 : Object) → Run Object
list_length fuel s ret l1 = do
  validate l1 OType.list
  first ← list_first s l1
  len ← length_loop fuel s first 0
  ok (record ret { type = OType.imm_int; value = len % 2 ^ 32 })

unfoldable pub pair_p : Store → Object → Run Object
pair_p s obj =
    if same obj.type OType.list
    then (do first ← list_first s obj; ok (bool_const (not (first == 0))))
    else ok (bool_const (same obj.type OType.pair))

unfoldable pub null_p : Store → Object → Run Object
null_p s obj =
    if same obj.type OType.list
    then (do first ← list_first s obj; ok (bool_const (first == 0)))
    else ok (bool_const (same obj.type OType.null_obj))

unfoldable pub list_p : Object → Object
list_p obj = bool_const (same obj.type OType.list)
