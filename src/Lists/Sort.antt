-- ===== src/Lists/Sort.antt =====
-- list.c: `_list_sort_obj_ascending`.
pub mod Bubble
pub mod Laws
use animula.Prelude.{ℕ, zero, suc, Bool, true, false, ◌||◌, ltb, ◌==◌, if◌then◌else◌}
use animula.Run.{Run, ok, fault, ◌>>=◌}
use animula.Store.{ListNode, Store, put, fetch}

-- The swap of the objects of two neighbours, if they are out of order.
abbrev pub swap : Store → (node next_node : ℕ) → (n m : ListNode) → Store
swap s node next_node n m =
    if ltb m.obj n.obj
    then record s {
      nodes =
          put (put s.nodes node (record n { obj = m.obj })) next_node (record m { obj = n.obj });
    }
    else s

-- The inner loop: whether anything was swapped, and the store.
unfoldable pub pass_loop : ℕ → Store → (node next_node : ℕ) → Bool → Run (Bool × Store)
pass_loop zero s node next_node swapped = fault
pass_loop (suc fuel) s node next_node swapped = if next_node == 0 then ok (swapped, s) else do
  n ← fetch s.nodes node
  m ← fetch s.nodes next_node
  let s' = swap s node next_node n m
  m' ← fetch s'.nodes next_node
  pass_loop fuel s' next_node m'.next (swapped || ltb m.obj n.obj)

-- `while (1)`: `rounds` is the fuel of the outer loop, `fuel` that of each inner one.
unfoldable pub sort_loop : (rounds fuel : ℕ) → Store → (first : ℕ) → Run Store
unfolding pass_loop
sort_loop zero fuel s first = fault
sort_loop (suc rounds) fuel s first = do
  n ← fetch s.nodes first
  (swapped, s') ← pass_loop fuel s first n.next false
  if swapped then sort_loop rounds fuel s' first else ok s'

-- `head` is the address of the list.
unfoldable pub list_sort_obj_ascending : (rounds fuel : ℕ) → Store → (head : ℕ) → Run Store
unfolding sort_loop
list_sort_obj_ascending rounds fuel s head = do
  l ← fetch s.lists head
  if l.first == 0 then ok s else sort_loop rounds fuel s l.first
