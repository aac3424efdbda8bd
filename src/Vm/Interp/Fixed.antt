-- ===== src/Vm/Interp/Fixed.antt =====
-- What no byte code changes: the address and length of the code, the sizes of the segments and the
-- number of globals. The
-- operations of the machine are built by the rules here.
pub mod Frames
pub mod Codes
use animula.Prelude.{
  ℕ, suc, ◌+◌, ◌≡◌, refl, sym, ◌∙◌, ap, Bool, true, false, if◌then◌else◌, Option, none, some, List,
  length, get_elem?, ltb, leb, ◌^◌, ◌-◌, ◌*◌, arith,
}
use animula.Run.{Run, ok, panic, fault}
use animula.Object.{Object}
use animula.Vm.Memory.{number, object_bytes, object_of}
use animula.Vm.State.{Vm, M, pure, and_then, ◌>>=◌, ◌>>◌, get, put, lift}
use animula.Vm.Stack.{
  object_size, reg, vm_stack_check, push_bytes, pop_bytes, push_obj, pop_obj, push_reg, pop_reg,
  push_closure, pop_closure, push, pop, load_bytes, store_bytes,
}
use animula.Vm.Decode.{has_bytecode, fetch_next_bytecode, vm_get_uintptr, vm_get_u16}

abbrev pub fixed : Vm → ℕ × ℕ × ℕ × ℕ × ℕ × ℕ
fixed vm = (
  length vm.code,
  vm.code_at,
  vm.stkseg_size,
  vm.codeseg_size,
  vm.globalseg_size,
  length vm.globals,
)

abbrev pub Fixed : (a b : Vm) → Type 0
Fixed a b = fixed b ≡ fixed a

-- Where a run from the machine `vm` returns, that is kept.
abbrev pub KeepsRun {ℓ} : {A : Type ℓ} → Vm → Run (A × Vm) → Type 0
KeepsRun vm (ok (a, vm')) = Fixed vm vm'
KeepsRun vm panic = Unit
KeepsRun vm fault = Unit

abbrev pub Keeps : {A : Type 0} → M A → Type 0
Keeps m = (vm : Vm) → KeepsRun vm (m vm)

module _ {A : Type 0} where
  trans-Keeps : (a b : Vm) (r : Run (A × Vm)) → Fixed a b → KeepsRun b r → KeepsRun a r
  trans-Keeps a b (ok (x, vm)) f k = k ∙ f
  trans-Keeps a b panic f k = tt
  trans-Keeps a b fault f k = tt

  pub pure-Keeps : (a : A) → Keeps (pure a)
  pure-Keeps a vm = refl

  pub lift-Keeps : (r : Run A) → Keeps (lift r)
  lift-Keeps (ok a) vm = refl
  lift-Keeps panic vm = tt
  lift-Keeps fault vm = tt

  pub run_branch-Keeps :
      (vm : Vm) (c : Bool) (r q : Run (A × Vm))
      → KeepsRun vm r
      → KeepsRun vm q
      → KeepsRun vm (if c then r else q)
  run_branch-Keeps vm true r q x y = x
  run_branch-Keeps vm false r q x y = y

  pub at_branch-Keeps :
      (vm : Vm) (c : Bool) (m n : M A)
      → KeepsRun vm (m vm)
      → KeepsRun vm (n vm)
      → KeepsRun vm ((if c then m else n) vm)
  at_branch-Keeps vm true m n x y = x
  at_branch-Keeps vm false m n x y = y

  pub branch-Keeps : (c : Bool) (m n : M A) → Keeps m → Keeps n → Keeps (if c then m else n)
  branch-Keeps true m n x y = x
  branch-Keeps false m n x y = y

  pub option-Keeps :
      {B : Type 0} (vm : Vm) (o : Option B) (g : B → Run (A × Vm))
      → ((b : B) → KeepsRun vm (g b))
      → KeepsRun vm (elim o [ none ↦ fault | some b ↦ g b ])
  option-Keeps vm none g h = tt
  option-Keeps vm (some b) g h = h b

  pub some-Keeps :
      {B : Type 0} (o : Option B) (g : B → M A)
      → ((b : B) → Keeps (g b))
      → Keeps {A = A} (elim o [ none ↦ lift fault | some b ↦ g b ])
  some-Keeps none g h = λ vm. tt
  some-Keeps (some b) g h = h b

module _ {A B : Type 0} where
  pub and_then-Keeps :
      (vm : Vm) (r : Run (A × Vm)) (f : A → M B)
      → KeepsRun vm r
      → ((a : A) → Keeps (f a))
      → KeepsRun vm (and_then r f)
  and_then-Keeps vm (ok (a, vm₁)) f k rest = trans-Keeps vm vm₁ (f a vm₁) k (rest a vm₁)
  and_then-Keeps vm panic f k rest = tt
  and_then-Keeps vm fault f k rest = tt

  pub bind-Keeps : (m : M A) (f : A → M B) → Keeps m → ((a : A) → Keeps (f a)) → Keeps (m >>= f)
  bind-Keeps m f first rest vm = and_then-Keeps vm (m vm) f (first vm) rest

-- The stack and the code.
pub stack_check-Keeps : Keeps vm_stack_check
unfolding vm_stack_check
stack_check-Keeps vm = run_branch-Keeps vm (leb vm.stkseg_size vm.sp) _ _ tt refl

pub push_bytes-Keeps : (bs : List ℕ) → Keeps (push_bytes bs)
unfolding push_bytes
push_bytes-Keeps bs vm =
    run_branch-Keeps vm (ltb vm.stkseg_size (vm.sp + length bs)) _ _ tt
      (run_branch-Keeps vm (leb vm.stkseg_size (reg (vm.sp + length bs))) _ _ tt refl)

pub pop_bytes-Keeps : (n : ℕ) → Keeps (pop_bytes n)
unfolding pop_bytes
pop_bytes-Keeps n vm =
    run_branch-Keeps vm (ltb vm.stkseg_size (reg (vm.sp + 2 ^ 16 - n) + n)) _ _ tt refl

pub load_bytes-Keeps : (a n : ℕ) → Keeps (load_bytes a n)
unfolding load_bytes
load_bytes-Keeps a n vm = run_branch-Keeps vm (ltb vm.stkseg_size (a + n)) _ _ tt refl

pub store_bytes-Keeps : (a : ℕ) (bs : List ℕ) → Keeps (store_bytes a bs)
unfolding store_bytes
store_bytes-Keeps a bs vm = run_branch-Keeps vm (ltb vm.stkseg_size (a + length bs)) _ _ tt refl

pub fetch-Keeps : Keeps fetch_next_bytecode
unfolding fetch_next_bytecode
fetch-Keeps vm =
    run_branch-Keeps vm (has_bytecode vm) _ _
      (option-Keeps vm (get_elem? vm.code vm.pc) _ λ b. refl) refl

pub push_obj-Keeps : (o : Object) → Keeps (push_obj o)
unfolding push_obj
push_obj-Keeps o = push_bytes-Keeps (object_bytes o)

pub pop_obj-Keeps : Keeps pop_obj
unfolding pop_obj
pop_obj-Keeps =
    bind-Keeps (pop_bytes object_size) _ (pop_bytes-Keeps object_size)
      λ bs. pure-Keeps (object_of bs)

pub pop_reg-Keeps : Keeps pop_reg
unfolding pop_reg
pop_reg-Keeps = bind-Keeps (pop_bytes 2) _ (pop_bytes-Keeps 2) λ bs. pure-Keeps (number bs)

pub get_u16-Keeps : Keeps vm_get_u16
unfolding vm_get_u16
get_u16-Keeps =
    bind-Keeps fetch_next_bytecode _ fetch-Keeps
      λ b₁. bind-Keeps fetch_next_bytecode _ fetch-Keeps λ b₀. pure-Keeps (b₀ + 256 * b₁)

pub get_uintptr-Keeps : Keeps vm_get_uintptr
unfolding vm_get_uintptr
get_uintptr-Keeps = bind-Keeps fetch_next_bytecode _ fetch-Keeps λ b₃.
    bind-Keeps fetch_next_bytecode _ fetch-Keeps λ b₂.
      bind-Keeps fetch_next_bytecode _ fetch-Keeps λ b₁.
        bind-Keeps fetch_next_bytecode _ fetch-Keeps
          λ b₀. pure-Keeps (b₀ + 256 * (b₁ + 256 * (b₂ + 256 * b₃)))
