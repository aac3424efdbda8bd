-- ===== src/Vm/Memory.antt =====
-- Bytes at addresses, and the little-endian encodings of what the machine stores in its stack.
pub mod Laws
use animula.Prelude.{
  ℕ, zero, suc, ◌+◌, ◌*◌, ◌/◌, ◌%◌, Option, none, some, List, [], ◌∷◌, get_elem?, ◌==◌,
  if◌then◌else◌,
}
use animula.Object.{OType, Object, code}

abbrev pub Memory : Type 0
Memory = ℕ → ℕ

unfoldable pub store_byte : Memory → ℕ → ℕ → Memory
store_byte m a b c = if c == a then b else m c

-- `bs` at the addresses from `a`.
unfoldable pub write : Memory → ℕ → List ℕ → Memory
unfolding store_byte
write m a [] = m
write m a (b ∷ bs) = store_byte (write m (a + 1) bs) a b

-- The `n` bytes from `a`.
unfoldable pub read : Memory → ℕ → ℕ → List ℕ
read m a zero = []
read m a (suc n) = m a ∷ read m (a + 1) n

-- `n` bytes of a number, the least first, and back.
abbrev pub bytes : ℕ → ℕ → List ℕ
bytes zero v = []
bytes (suc n) v = (v % 256) ∷ bytes n (v / 256)

abbrev pub number : List ℕ → ℕ
number [] = 0
number (b ∷ bs) = b + 256 * number bs

abbrev named : List OType
named =
    OType.imm_int ∷ OType.arbi_int ∷ OType.keyword ∷ OType.pair ∷ OType.symbol ∷ OType.vector
    ∷ OType.continuation ∷ OType.list ∷ OType.string ∷ OType.procedure ∷ OType.primitive
    ∷ OType.closure_on_heap ∷ OType.closure_on_stack ∷ OType.real ∷ OType.rational_pos
    ∷ OType.rational_neg ∷ OType.complex_exact ∷ OType.complex_inexact ∷ OType.mut_string
    ∷ OType.mut_list ∷ OType.character ∷ OType.bytevector ∷ OType.mut_bytevector ∷ []

-- The type that a value of the 6-bit field stands for.
abbrev pub type_of : ℕ → OType
type_of n =
    if n == 61
    then OType.boolean
    else if n == 62
    then OType.null_obj
    else if n == 63
    then OType.none
    else elim (get_elem? named n) [ none ↦ OType.unknown n | some t ↦ t ]

-- A packed `Object`: the byte of attributes, the type in its lower 6 bits, and the word.
abbrev pub object_bytes : Object → List ℕ
object_bytes o = (code o.type + 64 * o.gc) ∷ bytes 4 o.value

abbrev pub object_of : List ℕ → Object
object_of [] = record { type = OType.unknown 0; gc = 0; value = 0 }
object_of (b ∷ bs) = record { type = type_of (b % 64); gc = b / 64; value = number bs }
