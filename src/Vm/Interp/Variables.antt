-- ===== src/Vm/Interp/Variables.antt =====
-- Variables that are written and read again, and the environments that closures capture (vm.c).
use animula.Prelude.{
  ℕ, zero, suc, ◌+◌, ◌*◌, ◌<◌, ◌≤◌, ◌≡◌, refl, sym, ap, ◌∙◌, ◌==◌, if◌then◌else◌, Option, none,
  some, List, [], ◌∷◌, ◌++◌, length, get_elem?, set, take, take-length, append_nil,
  get_elem?-set_self, get_elem?-none, Option-cases, inl, inr, lt→ltb, arith,
}
use animula.Run.{ok, fault}
use animula.Object.{Object}
use animula.Vm.Memory.{Memory, read, write, object_bytes}
use animula.Vm.Memory.Laws.{IsObject, object_of-object_bytes, read-write_same}
use animula.Vm.State.{Vm, Closure, M, lift, pure}
use animula.Vm.Stack.{object_size, load_bytes, store_bytes}
use animula.Vm.Stack.Laws.{InStack, pop_obj_at}
use animula.Vm.Frame.{Ref, closure_at, deref, assign}
use animula.Vm.Interp.{global_ref, global_assign, pop_env, create_closure}

-- The variable lies in the stack segment or in the environment of a closure of the heap.
abbrev pub IsVariable : Vm → Ref → Type 0
IsVariable vm (Ref.on_stack a) = a + object_size ≤ vm.stkseg_size
IsVariable vm (Ref.in_env p i) = (c : Closure) × (vm.closures p ≡ some c) × (i < length c.env)

store_bytes-ok :
    (a : ℕ) (bs : List ℕ) (vm : Vm)
    → a + length bs ≤ vm.stkseg_size
    → store_bytes a bs vm ≡ ok (tt, record vm { stack = write vm.stack a bs })
unfolding store_bytes
store_bytes-ok a bs vm h = ground (arith, h)

load_bytes-ok :
    (a n : ℕ) (vm : Vm) → a + n ≤ vm.stkseg_size → load_bytes a n vm ≡ ok (read vm.stack a n, vm)
unfolding load_bytes
load_bytes-ok a n vm h = ground (arith, h)

closure_at-some :
    (p : ℕ) (c : Closure) (vm : Vm) → vm.closures p ≡ some c → closure_at p vm ≡ ok (c, vm)
unfolding closure_at
closure_at-some p c vm e = ground (arith, e)

abbrev pub or_else : Object → Option Object → Object
or_else d none = d
or_else d (some o) = o

get_elem?-ok :
    (xs : List Object) (i : ℕ) (o : Object) (vm : Vm)
    → get_elem? xs i ≡ some o
    → (elim (get_elem? xs i) as (λ _. M Object) [ none ↦ lift fault | some x ↦ pure x ]) vm
      ≡ ok (o, vm)
get_elem?-ok [] i o vm e = absurd cc
get_elem?-ok (x ∷ xs) zero o vm e = ap (λ y. ok (y, vm)) (ap (or_else o) e)
get_elem?-ok (x ∷ xs) (suc i) o vm e = get_elem?-ok xs i o vm e

-- An object whose fields fit, assigned to a variable on the stack or in a closure, is what the
-- variable then holds.
pub deref-assign :
    (r : Ref) (o : Object) (vm : Vm)
    → IsObject o
    → IsVariable vm r
    → (vm' : Vm) × (assign r o vm ≡ ok (tt, vm')) × (deref r vm' ≡ ok (o, vm'))
unfolding deref assign
deref-assign (Ref.on_stack a) o vm is h =
    let vm' : Vm = record vm { stack = write vm.stack a (object_bytes o) } in
    (
      vm',
      store_bytes-ok a (object_bytes o) vm h,
      rw
          (
            load_bytes-ok a object_size vm' h,
            read-write_same vm.stack a (object_bytes o),
            object_of-object_bytes o is,
          )
          refl,
    )
deref-assign (Ref.in_env p i) o vm is (c, at, inside) =
    let c' : Closure = record c { env = set c.env i o } in
    let vm' : Vm = record vm { closures = λ q. if q == p then some c' else vm.closures q } in
    let there : vm'.closures p ≡ some c' = ground arith in
    (
      vm',
      rw (closure_at-some p c vm at, lt→ltb i (length c.env) inside) refl,
      rw (closure_at-some p c' vm' there)
          (get_elem?-ok c'.env i o vm' (get_elem?-set_self c.env i o inside)),
    )

-- A global that is assigned holds the object, which is permanent then.
pub global_ref-global_assign :
    (i : ℕ) (o : Object) (vm : Vm)
    → i < length vm.globals
    → (vm' : Vm) × (global_assign i o vm ≡ ok (tt, vm'))
      × (global_ref i vm' ≡ ok (record o { gc = 3 }, vm'))
unfolding global_assign global_ref
global_ref-global_assign i o vm h = (
  record vm { globals = set vm.globals i (record o { gc = 3 }) },
  rw (lt→ltb i (length vm.globals) h) refl,
  get_elem?-ok (set vm.globals i (record o { gc = 3 })) i (record o { gc = 3 }) _
      (get_elem?-set_self vm.globals i (record o { gc = 3 }) h),
)

-- From the address `a` the stack holds the objects `os`.
pub record OnStack (m : Memory) (a : ℕ) (os : List Object) : Type 0 where
  pub bytes_at :
      (i : ℕ) (o : Object)
      → get_elem? os i ≡ some o
      → read m (a + i * object_size) object_size ≡ object_bytes o
  pub objects : (i : ℕ) (o : Object) → get_elem? os i ≡ some o → IsObject o

pub take-suc :
    (n : ℕ) (os acc : List Object) (o : Object)
    → get_elem? os n ≡ some o
    → take n os ++ (o ∷ acc) ≡ take (suc n) os ++ acc
take-suc n [] acc o e = absurd cc
take-suc zero (x ∷ os) acc o e = ap (λ y. y ∷ acc) (ap (or_else x) (sym e))
take-suc (suc n) (x ∷ os) acc o e = ap (◌∷◌ x) (take-suc n os acc o e)

pop_env-take :
    (n a : ℕ) (os acc : List Object) (vm : Vm)
    → OnStack vm.stack a os
    → n ≤ length os
    → vm.sp ≡ a + n * object_size
    → InStack vm
    → pop_env n acc vm ≡ ok (take n os ++ acc, record vm { sp = a })
unfolding pop_env
pop_env-take zero a os acc vm on h e is =
    ap (λ b. ok (acc, record vm { sp = b })) (omega (arith, e))
pop_env-take (suc n) a os acc vm on h e is = elim (Option-cases (get_elem? os n)) [
  | inl none_left ↦ absurd (omega (arith, get_elem?-none os n none_left))
  | inr (o, here) ↦
      let b = a + n * object_size in
      let is' : InStack (record vm { sp = b }) = record {
        sp_fits = omega (arith, e, is.sp_fits);
        below_end = omega (arith, e, is.below_end);
        segment = is.segment;
      } in
      rw (pop_obj_at b o vm (omega (arith, e)) is (on.objects n o here) (on.bytes_at n o here)) (
        pop_env-take n a os (o ∷ acc) (record vm { sp = b }) on (omega arith) refl is'
        ∙ ap (λ env. ok (env, record vm { sp = a })) (take-suc n os acc o here))
]

-- `create_closure` captures the objects on top of the stack, in the order of the stack, and pops them.
pub create_closure-captures :
    (p arity entry a : ℕ) (os : List Object) (vm : Vm)
    → OnStack vm.stack a os
    → vm.sp ≡ a + length os * object_size
    → InStack vm
    → (vm' : Vm) × (create_closure p arity (length os) entry vm ≡ ok (tt, vm'))
      × (vm'.sp ≡ a)
      × (vm'.closures p
          ≡ some (record {
            arity = arity;
            frame_size = length os;
            entry = entry;
            local = 0;
            env = os;
          }))
unfolding create_closure
create_closure-captures p arity entry a os vm on e is =
    let c : Closure = record {
      arity = arity;
      frame_size = length os;
      entry = entry;
      local = 0;
      env = os;
    } in
    (
      record vm { sp = a; closures = λ q. if q == p then some c else vm.closures q },
      rw (pop_env-take (length os) a os [] vm on (omega arith) e is, take-length os, append_nil os)
          refl,
      refl,
      ground arith,
    )
