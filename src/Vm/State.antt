-- ===== src/Vm/State.antt =====
-- `struct LambdaVM` (inc/types.h), the global variables of vm.c, and the closures on the heap.
use animula.Prelude.{ℕ, ◌+◌, ◌*◌, ◌/◌, ◌%◌, List, Option}
use animula.Run.{Run, ok, panic, fault}
use animula.Object.{Object}
use animula.Store.{Store}
use animula.Bytevector.{Heap}
use animula.Vm.Memory.{Memory}

pub data VmState : Type 0 where
  stop run pause gc init_globals excpt excpt_cont : VmState

-- `struct Closure`.
pub record Closure : Type 0 where
  pub arity : ℕ
  pub frame_size : ℕ
  pub entry : ℕ
  pub local : ℕ
  pub env : List Object

-- `code` is the code segment and `code_at` its address. `closure` is the address of a closure or 0 for `NULL`; `attr` is the byte of the union
-- `VM_Attr`. The last nine fields are the globals `VM_STKSEG_SIZE`, `VM_CODESEG_SIZE` and
-- `VM_GLOBALSEG_SIZE`, the static variable of `fetch_next_bytecode`, the closures of
-- the heap, its other blocks, its bytevectors, its vectors with the addresses of their objects, and
-- the places in the code of the bytes of immutable bytevectors.
pub record Vm : Type 0 where
  pub pc : ℕ
  pub sp : ℕ
  pub fp : ℕ
  pub local : ℕ
  pub state : VmState
  pub code : List ℕ
  pub code_at : ℕ
  pub stack : Memory
  pub globals : List Object
  pub closure : ℕ
  pub attr : ℕ
  pub stkseg_size : ℕ
  pub codeseg_size : ℕ
  pub globalseg_size : ℕ
  pub last_bc : ℕ
  pub closures : ℕ → Option Closure
  pub heap : Store
  pub bytevectors : Heap
  pub vectors : ℕ → Option (List ℕ)
  pub views : ℕ → Option ℕ

-- The bit fields of `VM_Attr`.
abbrev pub shadow_of : ℕ → ℕ
shadow_of attr = attr % 32

abbrev pub with_shadow : ℕ → ℕ → ℕ
with_shadow attr n = attr / 32 * 32 + n % 32

abbrev pub with_mode : ℕ → ℕ → ℕ
with_mode attr m = attr / 128 * 128 + m % 4 * 32 + attr % 32

-- A step of the machine: the state is threaded through.
abbrev pub M : Type 0 → Type 0
M A = Vm → Run (A × Vm)

abbrev pub pure : {A : Type 0} → A → M A
pure a vm = ok (a, vm)

abbrev pub and_then : {A B : Type 0} → Run (A × Vm) → (A → M B) → Run (B × Vm)
and_then (ok (a, vm)) f = f a vm
and_then panic f = panic
and_then fault f = fault

infixl 5 ◌>>=◌
abbrev pub ◌>>=◌ : {A B : Type 0} → M A → (A → M B) → M B
step >>= continue = λ vm. and_then (step vm) continue

infixl 5 ◌>>◌
abbrev pub ◌>>◌ : {B : Type 0} → M (Unit {0}) → M B → M B
step >> rest = step >>= λ _. rest

abbrev pub get : M Vm
get vm = ok (vm, vm)

abbrev pub put : Vm → M (Unit {0})
put vm' vm = ok (tt, vm')

-- A function of C that touches no machine.
abbrev pub lift : {A : Type 0} → Run A → M A
lift (ok a) vm = ok (a, vm)
lift panic vm = panic
lift fault vm = fault
