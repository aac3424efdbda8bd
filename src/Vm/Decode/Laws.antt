-- ===== src/Vm/Decode/Laws.antt =====
-- The fetch of byte codes and operands (vm.c).
use animula.Prelude.{
  ℕ, ◌+◌, ◌*◌, ◌^◌, ◌≡◌, ◌<◌, ◌≤◌, refl, true, none, some, List, [], ◌∷◌, get_elem?, length, arith,
  ◌∙◌, ap, suc,
}
use animula.Run.{ok}
use animula.Vm.State.{Vm, VmState}
use animula.Vm.Stack.{reg}
use animula.Vm.Decode.{
  has_bytecode, fetch_next_bytecode, vm_get_u16, bc_type, Encode, pre_fetch, operands, decode,
}

-- The machine runs a program whose next byte codes are `bs`, below the end of the code segment.
pub record Next (bs : List ℕ) (vm : Vm) : Type 0 where
  pub running : vm.state ≡ VmState.run
  pub inside : vm.pc + length bs ≤ vm.codeseg_size
  pub fits : vm.codeseg_size < 2 ^ 16
  pub codes : (i b : ℕ) → get_elem? bs i ≡ some b → get_elem? vm.code (vm.pc + i) ≡ some b

-- The machine behind the fetch of a byte code.
abbrev pub fetched : ℕ → Vm → Vm
fetched b vm = record vm { pc = vm.pc + 1; last_bc = b }

pub fetch-ok :
    (b : ℕ) (bs : List ℕ) (vm : Vm)
    → Next (b ∷ bs) vm
    → fetch_next_bytecode vm ≡ ok (b, fetched b vm)
unfolding fetch_next_bytecode
fetch-ok b bs vm n =
    let here : get_elem? vm.code vm.pc ≡ some b =
      ap (get_elem? vm.code) (omega arith) ∙ n.codes 0 b refl in
    let more : has_bytecode vm ≡ true = rw n.running (ground arith) in
    let next : reg (vm.pc + 1) ≡ vm.pc + 1 = omega arith in ground (arith, more, here, next)

pub Next-fetched : (b : ℕ) (bs : List ℕ) (vm : Vm) → Next (b ∷ bs) vm → Next bs (fetched b vm)
Next-fetched b bs vm n = record {
  running = n.running;
  inside = omega arith;
  fits = n.fits;
  codes = λ i c e. ap (get_elem? vm.code) (omega arith) ∙ n.codes (suc i) c e;
}

-- `vm_get_u16` of a running machine reads the next two bytes of the code segment, the upper one
-- first, and steps over them.
pub vm_get_u16-ok :
    (b₁ b₀ : ℕ) (vm : Vm)
    → Next (b₁ ∷ b₀ ∷ []) vm
    → vm_get_u16 vm ≡ ok (b₁ * 256 + b₀, record vm { pc = vm.pc + 2; last_bc = b₀ })
unfolding vm_get_u16
vm_get_u16-ok b₁ b₀ vm n =
    let n₁ = Next-fetched b₁ (b₀ ∷ []) vm n in
    let far : vm.pc + 1 + 1 ≡ vm.pc + 2 = omega arith in
    let value : b₀ + 256 * b₁ ≡ b₁ * 256 + b₀ = omega arith in
    rw (fetch-ok b₁ (b₀ ∷ []) vm n, fetch-ok b₀ [] (fetched b₁ vm) n₁, far, value)

-- The rows of the table of inc/bytecode.h, by the upper four bits: 0000 to 0111 are the single and the
-- special double encodings, 1001 is reserved, and 1100 to 1111 are the special and object encodings.
abbrev pub rows : List Encode
rows =
    Encode.single ∷ Encode.single ∷ Encode.single ∷ Encode.single ∷ Encode.single ∷ Encode.single
    ∷ Encode.single ∷ Encode.single ∷ Encode.quadruple ∷ Encode.special ∷ Encode.double
    ∷ Encode.triple ∷ Encode.special ∷ Encode.special ∷ Encode.special ∷ Encode.special ∷ []

abbrev pub class_of : ℕ → Encode
class_of b = elim (get_elem? rows (bc_type b)) [ none ↦ Encode.special | some e ↦ e ]

pre_fetch-class_of : (b : ℕ) → pre_fetch b ≡ ok (class_of b)
unfolding pre_fetch
pre_fetch-class_of b = ground arith

-- How many bytes `dispatch` reads behind a byte code of a class. The second byte of the special double
-- encodings, and those of the special ones, are left to the function of the class.
abbrev pub operand_count : Encode → ℕ
operand_count Encode.single = 0
operand_count Encode.double = 1
operand_count Encode.triple = 2
operand_count Encode.quadruple = 3
operand_count Encode.special = 0

-- The byte code fetched last.
abbrev pub last_of : ℕ → List ℕ → ℕ
last_of b [] = b
last_of b (c ∷ cs) = last_of c cs

operands-ok :
    (e : Encode) (bs : List ℕ) (vm : Vm)
    → length bs ≡ operand_count e
    → Next bs vm
    → operands e vm ≡ ok (bs, record vm { pc = vm.pc + length bs; last_bc = last_of vm.last_bc bs })
unfolding operands
operands-ok Encode.single [] vm l n = let z : vm.pc + 0 ≡ vm.pc = omega arith in rw z refl
operands-ok Encode.single (b ∷ bs) vm l n = absurd (omega (arith, l))
operands-ok Encode.double [] vm l n = absurd (omega (arith, l))
operands-ok Encode.double (b ∷ []) vm l n = rw (fetch-ok b [] vm n)
operands-ok Encode.double (b ∷ c ∷ bs) vm l n = absurd (omega (arith, l))
operands-ok Encode.triple [] vm l n = absurd (omega (arith, l))
operands-ok Encode.triple (b ∷ []) vm l n = absurd (omega (arith, l))
operands-ok Encode.triple (b ∷ c ∷ []) vm l n =
    let far : vm.pc + 1 + 1 ≡ vm.pc + 2 = omega arith in
    rw (fetch-ok b (c ∷ []) vm n, fetch-ok c [] (fetched b vm) (Next-fetched b (c ∷ []) vm n), far)
operands-ok Encode.triple (b ∷ c ∷ d ∷ bs) vm l n = absurd (omega (arith, l))
operands-ok Encode.quadruple [] vm l n = absurd (omega (arith, l))
operands-ok Encode.quadruple (b ∷ []) vm l n = absurd (omega (arith, l))
operands-ok Encode.quadruple (b ∷ c ∷ []) vm l n = absurd (omega (arith, l))
operands-ok Encode.quadruple (b ∷ c ∷ d ∷ []) vm l n =
    let n₁ = Next-fetched b (c ∷ d ∷ []) vm n in
    let n₂ = Next-fetched c (d ∷ []) (fetched b vm) n₁ in
    let far : vm.pc + 1 + 1 + 1 ≡ vm.pc + 3 = omega arith in
    rw (
      fetch-ok b (c ∷ d ∷ []) vm n,
      fetch-ok c (d ∷ []) (fetched b vm) n₁,
      fetch-ok d [] (fetched c (fetched b vm)) n₂,
      far,
    )
operands-ok Encode.quadruple (b ∷ c ∷ d ∷ e ∷ bs) vm l n = absurd (omega (arith, l))
operands-ok Encode.special [] vm l n = let z : vm.pc + 0 ≡ vm.pc = omega arith in rw z refl
operands-ok Encode.special (b ∷ bs) vm l n = absurd (omega (arith, l))

-- Every byte code has a class, by the rows of the table of inc/bytecode.h with the reserved row 1001
-- among the special ones: `dispatch` finds it without `PANIC`, reads one, two or three bytes behind a
-- double, triple or quadruple encoding and none behind the others, and `pc` is behind what it has
-- read. The bytes lie in the code segment of a running machine.
pub decode-class_of :
    (b : ℕ) (bs : List ℕ) (vm : Vm)
    → length bs ≡ operand_count (class_of b)
    → Next bs vm
    → decode b vm
      ≡ ok ((class_of b, bs), record vm { pc = vm.pc + length bs; last_bc = last_of vm.last_bc bs })
unfolding decode
decode-class_of b bs vm l n = rw (pre_fetch-class_of b, operands-ok (class_of b) bs vm l n)
