-- ===== src/Object.antt =====
-- inc/types.h, inc/object.h and object.c: object types, objects and the constants.
use animula.Prelude.{ℕ, ◌-◌, ◌%◌, ◌^◌, Bool, ◌||◌, ltb, ◌==◌, if◌then◌else◌}
use animula.Prelude.Int.{ℤ, pos, negsuc}
use animula.Run.{Run, require}

pub data OType : Type 0 where
  imm_int arbi_int keyword pair symbol vector continuation list string procedure primitive
        closure_on_heap closure_on_stack real rational_pos rational_neg complex_exact
        complex_inexact mut_string mut_list character bytevector mut_bytevector boolean null_obj
        none :
      OType
  -- A value of the 6-bit field `type` that the enumeration does not name.
  unknown : ℕ → OType

-- The numbers that `enum obj_type` gives its constants.
abbrev pub code : OType → ℕ
code OType.imm_int = 0
code OType.arbi_int = 1
code OType.keyword = 2
code OType.pair = 3
code OType.symbol = 4
code OType.vector = 5
code OType.continuation = 6
code OType.list = 7
code OType.string = 8
code OType.procedure = 9
code OType.primitive = 10
code OType.closure_on_heap = 11
code OType.closure_on_stack = 12
code OType.real = 13
code OType.rational_pos = 14
code OType.rational_neg = 15
code OType.complex_exact = 16
code OType.complex_inexact = 17
code OType.mut_string = 18
code OType.mut_list = 19
code OType.character = 20
code OType.bytevector = 21
code OType.mut_bytevector = 22
code OType.boolean = 61
code OType.null_obj = 62
code OType.none = 63
code (OType.unknown n) = n

-- `a == b` on types.
abbrev pub same : OType → OType → Bool
same a b = code a == code b

-- `value` is the 32-bit word of the union: a number, a pointer or the fields of a procedure.
pub record Object : Type 0 where
  pub type : OType
  pub gc : ℕ
  pub value : ℕ

abbrev pub true_const : Object
true_const = record { type = OType.boolean; gc = 0; value = 1 }

abbrev pub false_const : Object
false_const = record { type = OType.boolean; gc = 0; value = 0 }

abbrev pub null_const : Object
null_const = record { type = OType.null_obj; gc = 0; value = 0 }

abbrev pub none_const : Object
none_const = record { type = OType.none; gc = 0; value = 0 }

abbrev pub bool_const : Bool → Object
bool_const b = if b then true_const else false_const

-- `(imm_int_t) value`, a 32-bit two's complement number, and back.
abbrev pub s32 : ℕ → ℤ
s32 w = if ltb w (2 ^ 31) then pos w else negsuc (2 ^ 32 - 1 - w)

abbrev pub word : ℤ → ℕ
word (pos n) = n % 2 ^ 32
word (negsuc n) = 2 ^ 32 - 1 - n % 2 ^ 32

-- An immediate integer that a caller builds on its stack.
abbrev pub imm : ℤ → Object
imm z = record { type = OType.imm_int; gc = 0; value = word z }

abbrev pub is_rational : OType → Bool
is_rational t = same t OType.rational_pos || same t OType.rational_neg

-- `VALIDATE`.
abbrev pub validate : Object → OType → Run (Unit {0})
validate o t = require (same t o.type)
