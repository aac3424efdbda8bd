-- ===== src/Vm/Apply/Steps.antt =====
-- The single steps of `call_prim` keep the place of the code, the segments and the number of globals.
use animula.Prelude.{ℕ, refl}
use animula.Object.{Object}
use animula.Lists.{list_first}
use animula.Vm.State.{M, ◌>>=◌}
use animula.Vm.Stack.{pop_obj, push_reg, pop_reg, push, pop, push_closure, pop_closure, pop_bytes}
use animula.Vm.Frame.{restore, save_env_simple, restore_simple}
use animula.Vm.Interp.Fixed.{
  Keeps, and_then-Keeps, bind-Keeps, push_bytes-Keeps, pop_bytes-Keeps, push_obj-Keeps,
  pop_obj-Keeps, pop_reg-Keeps,
}
use animula.Vm.Cells.{append_object, set_list_gc, node_object, next_node}
use animula.Vm.Alloc.Fixed.{on_heap-Keeps, read_heap-Keeps}
use animula.Vm.Prims.{ret_obj}
use animula.Vm.Apply.{append_cell, set_gc, load_node, load_next, load_first}

pub push_reg-Keeps : (r : ℕ) → Keeps (push_reg r)
unfolding push_reg
push_reg-Keeps r = push_bytes-Keeps _

pub pop_byte-Keeps : Keeps pop
unfolding pop
pop_byte-Keeps = bind-Keeps (pop_bytes 1) _ (pop_bytes-Keeps 1) λ bs vm. refl

pub pop_closure-Keeps : Keeps pop_closure
unfolding pop_closure
pop_closure-Keeps = bind-Keeps (pop_bytes 4) _ (pop_bytes-Keeps 4) λ bs vm. refl

pub save_simple-Keeps : Keeps save_env_simple
unfolding save_env_simple push push_reg push_closure
save_simple-Keeps vm = and_then-Keeps vm _ _ (push_bytes-Keeps _ vm) λ _.
    bind-Keeps _ _ (push_bytes-Keeps _) λ _. bind-Keeps _ _ (push_bytes-Keeps _) λ _.
      bind-Keeps _ _ (push_bytes-Keeps _) λ _. bind-Keeps _ _ (push_bytes-Keeps _) λ _ vm'. refl

-- What `RESTORE` and `RESTORE_SIMPLE` do behind the change of the stack pointer.
pub restored-Keeps :
    (f : ℕ → ℕ → ℕ → ℕ → ℕ → M (Unit {0}))
    → ((c a fp l pc : ℕ) → Keeps (f c a fp l pc))
    → Keeps (
        pop_closure >>= λ c.
        pop >>= λ a. pop_reg >>= λ fp. pop_reg >>= λ l. pop_reg >>= λ pc. f c a fp l pc)
restored-Keeps f k = bind-Keeps pop_closure _ pop_closure-Keeps λ c.
    bind-Keeps pop _ pop_byte-Keeps λ a. bind-Keeps pop_reg _ pop_reg-Keeps λ fp.
      bind-Keeps pop_reg _ pop_reg-Keeps λ l. bind-Keeps pop_reg _ pop_reg-Keeps λ pc. k c a fp l pc

pub restore_simple-Keeps : Keeps restore_simple
unfolding restore_simple
restore_simple-Keeps =
    bind-Keeps pop_obj _ pop_obj-Keeps
      λ o vm. restored-Keeps _ (λ c a fp l pc vm'. push_obj-Keeps o _) _

pub restore-Keeps : Keeps restore
unfolding restore
restore-Keeps =
    bind-Keeps pop_obj _ pop_obj-Keeps
      λ o vm. restored-Keeps _ (λ c a fp l pc vm'. push_obj-Keeps o _) _

pub append_cell-Keeps : (l prev : ℕ) → Keeps (append_cell l prev)
unfolding append_cell
append_cell-Keeps l prev = on_heap-Keeps (append_object l prev ret_obj)

pub set_gc-Keeps : (l gc : ℕ) → Keeps (set_gc l gc)
unfolding set_gc
set_gc-Keeps l gc = on_heap-Keeps (set_list_gc l gc)

pub load_node-Keeps : (node : ℕ) → Keeps (load_node node)
unfolding load_node
load_node-Keeps node = read_heap-Keeps (node_object node)

pub load_next-Keeps : (node : ℕ) → Keeps (load_next node)
unfolding load_next
load_next-Keeps node = read_heap-Keeps (next_node node)

pub load_first-Keeps : (lst : Object) → Keeps (load_first lst)
unfolding load_first
load_first-Keeps lst = read_heap-Keeps (λ h. list_first h lst)
