-- ===== src/Vm/Cells.antt =====
-- What vm.c does with blocks of the heap: cells for objects, nodes in front of a list, and the
-- objects of a C function that it hands on by their addresses.
use animula.Prelude.{ℕ, ◌+◌, ◌||◌, ◌==◌, if◌then◌else◌, none, List, take, drop}
use animula.Run.{Run, ok, ◌>>=◌}
use animula.Object.{Object}
use animula.Store.{Store, put, fetch, new_list_node, new_list, new_object}
use animula.Lists.{insert_head, insert_after}
use animula.Strings.{max_str_len}
use animula.Strings.Bytes.{strnlen}

-- `NEW_OBJ (t)` and an assignment to it. For a composite type an inner object is made too, that
-- nothing points to behind the assignment.
abbrev pub new_cell : Object → Store → ℕ × Store
new_cell o s = (s.next, record (new_object s) { objects = put s.objects s.next o })

-- A list without nodes, with this `attr.gc`.
abbrev pub empty_list : (gc : ℕ) → Store → ℕ × Store
empty_list gc s = (
  s.next,
  record (new_list s) {
    lists = put s.lists s.next (record { gc = gc; non_shared = 0; first = 0 });
  },
)

-- A node with a new cell, in front of the list `l`.
abbrev pub insert_object : (l : ℕ) → Object → Store → Run (ℕ × Store)
insert_object l o s = do
  let (cell, s₁) = new_cell o s
  s₂ ← insert_head (new_list_node s₁) l s₁.next
  n ← fetch s₂.nodes s₁.next
  ok (cell, record s₂ { nodes = put s₂.nodes s₁.next (record n { obj = cell }) })

-- A node with a new cell, behind `prev` or, where that is 0, in front of `l`: the node and its cell.
abbrev pub append_object : (l prev : ℕ) → Object → Store → Run ((ℕ × ℕ) × Store)
append_object l prev o s = do
  let (cell, s₁) = new_cell o s
  let s₂ = new_list_node s₁
  s₃ ← if prev == 0 then insert_head s₂ l s₁.next else insert_after s₂ prev s₁.next
  n ← fetch s₃.nodes s₁.next
  ok ((s₁.next, cell), record s₃ { nodes = put s₃.nodes s₁.next (record n { obj = cell }) })

-- The object that a node keeps.
abbrev pub node_object : (node : ℕ) → Store → Run Object
node_object node s = do n ← fetch s.nodes node; fetch s.objects n.obj

abbrev pub next_node : (node : ℕ) → Store → Run ℕ
next_node node s = do n ← fetch s.nodes node; ok n.next

-- `o1` and `o2` are variables of a C function: `g` gets their addresses, and they end with it.
unfoldable pub in_locals :
    {A : Type 0}
    → (o1 o2 : Object) → (Store → (a b : ℕ) → Run (A × Store))
    → Store
    → Run (A × Store)
in_locals o1 o2 g s = do
  let p = s.next
  (r, s') ← g (record s { next = p + 2; objects = put (put s.objects p o1) (p + 1) o2 }) p (p + 1)
  ok (r, record s' { objects = λ q. if q == p || q == p + 1 then none else s'.objects q })

-- The string at `pc` in the code, with its zero.
abbrev pub string_block : (code : List ℕ) → (pc : ℕ) → Run (List ℕ)
string_block code pc = do n ← strnlen (drop pc code) max_str_len; ok (take (n + 1) (drop pc code))

abbrev pub set_list_gc : (l gc : ℕ) → Store → Run (Unit {0} × Store)
set_list_gc l gc s = do
  head ← fetch s.lists l
  ok (tt, record s { lists = put s.lists l (record head { gc = gc }) })
