-- ===== src/Vm/Decode.antt =====
-- vm.c: the fetch of byte codes and their operands, and the classes of byte codes (inc/bytecode.h).
pub mod Laws
use animula.Prelude.{
  ℕ, ◌+◌, ◌*◌, ◌/◌, ◌%◌, ◌^◌, Bool, true, false, not, ◌&&◌, ◌||◌, ltb, leb, ◌==◌, if◌then◌else◌,
  none, some, get_elem?, List, [], ◌∷◌,
}
use animula.Run.{Run, ok, panic, fault}
use animula.Vm.State.{
  Vm, VmState, M, pure, and_then, ◌>>=◌, ◌>>◌, get, put, lift, with_shadow, with_mode,
}
use animula.Vm.Stack.{reg}

abbrev pub is_run : VmState → Bool
is_run VmState.run = true
is_run _ = false

abbrev pub is_init_globals : VmState → Bool
is_init_globals VmState.init_globals = true
is_init_globals _ = false

-- There is a byte code at `pc`: of the program, or of the code that makes the global variables.
abbrev pub has_bytecode : Vm → Bool
has_bytecode vm =
    is_run vm.state && ltb vm.pc vm.codeseg_size
    || is_init_globals vm.state && ltb vm.pc vm.globalseg_size

-- `fetch_next_bytecode`. Behind the code it stops the machine and returns its static variable,
-- which holds the byte code that it fetched last.
unfoldable pub fetch_next_bytecode : M ℕ
fetch_next_bytecode vm =
    if has_bytecode vm
    then elim (get_elem? vm.code vm.pc) [
      | none ↦ fault
      | some b ↦ ok (b, record vm { pc = reg (vm.pc + 1); last_bc = b })
    ]
    else ok (vm.last_bc, record vm { state = VmState.stop })

-- `vm_get_uintptr` and `vm_get_u16`: the first byte is the most significant one.
unfoldable pub vm_get_uintptr : M ℕ
vm_get_uintptr = do
  b₃ ← fetch_next_bytecode
  b₂ ← fetch_next_bytecode
  b₁ ← fetch_next_bytecode
  b₀ ← fetch_next_bytecode
  pure (b₀ + 256 * (b₁ + 256 * (b₂ + 256 * b₃)))

unfoldable pub vm_get_u16 : M ℕ
vm_get_u16 = do b₁ ← fetch_next_bytecode; b₀ ← fetch_next_bytecode; pure (b₀ + 256 * b₁)

-- `bc.type` and `bc.data`.
abbrev pub bc_type : ℕ → ℕ
bc_type b = b / 16 % 16

abbrev pub bc_data : ℕ → ℕ
bc_data b = b % 16

pub data Encode : Type 0 where
  single double triple quadruple special : Encode

-- `pre_fetch`. `IS_SPECIAL` asks for one of the two upper bits of the type.
unfoldable pub pre_fetch : ℕ → Run Encode
pre_fetch b =
    if leb (bc_type b) 7
    then ok Encode.single
    else if bc_type b == 10
    then ok Encode.double
    else if bc_type b == 11
    then ok Encode.triple
    else if bc_type b == 8
    then ok Encode.quadruple
    else if not (bc_type b / 4 == 0)
    then ok Encode.special
    else panic

-- The operands that `dispatch` fetches for a class, before the function of the class runs. The
-- instructions of the classes `single` and `special` fetch theirs themselves.
unfoldable pub operands : Encode → M (List ℕ)
operands Encode.single = pure []
operands Encode.double = do b₂ ← fetch_next_bytecode; pure (b₂ ∷ [])
operands Encode.triple = do b₂ ← fetch_next_bytecode; b₃ ← fetch_next_bytecode; pure (b₂ ∷ b₃ ∷ [])
operands Encode.quadruple = do
  b₂ ← fetch_next_bytecode
  b₃ ← fetch_next_bytecode
  b₄ ← fetch_next_bytecode
  pure (b₂ ∷ b₃ ∷ b₄ ∷ [])
operands Encode.special = pure []

-- The part of `dispatch` in front of the function of the class: the byte code is fetched already.
unfoldable pub decode : ℕ → M (Encode × List ℕ)
decode b = do e ← lift (pre_fetch b); bs ← operands e; pure (e, bs)

-- `vm_init_environment`; the model has no field for `cc` and `fetch_next_bytecode`.
unfoldable pub vm_init_environment : Vm → Vm
vm_init_environment vm = record vm {
  state = VmState.run;
  sp = 0;
  fp = 0;
  local = 0;
  attr = with_mode (with_shadow vm.attr 0) 2;
  closure = 0;
}
