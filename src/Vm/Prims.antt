-- ===== src/Vm/Prims.antt =====
-- vm.c: `call_prim` on the primitives, by their numbers in inc/primitives.h.
mod Groups
pub use Groups.*
pub mod Fixed
pub mod Laws
pub mod Cons
use animula.Prelude.{
  ℕ, zero, suc, ◌+◌, Bool, true, false, ◌||◌, ◌&&◌, leb, ◌==◌, if◌then◌else◌, List, [], ◌∷◌,
}
use animula.Prelude.Int.{ℤ}
use animula.Run.{Run, ok, panic, fault}
use animula.Object.{OType, Object, s32, word, same, bool_const, none_const, validate}
use animula.Store.{Store}
use animula.Number.Float.{FloatOps}
use animula.Number.Arith
use animula.Number.Compare
use animula.Number.Rounding
use animula.Equality
use animula.Lists
use animula.Strings
use animula.Bytevector.{Heap}
use animula.Bytevector
use animula.Vm.State.{Vm, VmState, M, pure, and_then, ◌>>=◌, ◌>>◌, get, lift}
use animula.Vm.State
use animula.Vm.Stack.{push_obj, pop_obj}
use animula.Vm.Decode.{is_init_globals}
use animula.Vm.Interp.{make_object}
use animula.Vm.Cells.{in_locals}
use animula.Vm.Alloc.{on_heap, on_string, read_heap, on_bytevectors}

-- `CREATE_RET_OBJ`.
abbrev pub ret_obj : Object
ret_obj = record { type = OType.imm_int; gc = 1; value = 0 }

-- The primitives that are not the machine's own: the floats, and the devices and the console, which
-- get the number of the primitive and its arguments.
pub record Board : Type 0 where
  pub floats : FloatOps
  pub device : ℕ → List Object → M Object

abbrev pub none_ret : Object
none_ret = record { type = OType.none; gc = 0; value = 0 }

-- A function that changes no block.
abbrev pub keep : {A : Type 0} → Store → Run A → Run (A × Store)
keep h (ok a) = ok (a, h)
keep h panic = panic
keep h fault = fault

module _ (b : Board) (fuel : ℕ) where
  -- The functions of `primitives_init`, by the number of their arguments.
  unfoldable pub arith_prim : ℕ → (ret o1 o2 : Object) → Run Object
  arith_prim pn ret o1 o2 =
      if pn == 2
      then Arith.int_add b.floats ret o1 o2
      else if pn == 3
      then Arith.int_sub b.floats ret o1 o2
      else if pn == 4
      then Arith.int_mul b.floats ret o1 o2
      else Arith.int_div b.floats ret o1 o2

  unfoldable pub modulo_prim : ℕ → ℤ → ℤ → Run ℤ
  modulo_prim pn x y = if pn == 16 then Arith.int_modulo x y else Arith.int_remainder x y

  -- The operands of the comparisons are variables of `call_prim`, whatever these cast them to.
  unfoldable pub number_test : ℕ → (x y : Object) → M Bool
  number_test pn x y =
      if pn == 9
      then lift (Compare.int_eq b.floats x y)
      else if pn == 10
      then (do (g, _, _) ← lift (Compare.int_lt b.floats x y); pure g)
      else if pn == 11
      then (do (g, _, _) ← lift (Compare.int_gt b.floats x y); pure g)
      else if pn == 12
      then (do (g, _, _) ← lift (Compare.int_le b.floats x y); pure g)
      else (do (g, _, _) ← lift (Compare.int_ge b.floats x y); pure g)

  unfoldable pub logic_prim : ℕ → (x y : Object) → M Bool
  logic_prim pn x y =
      if pn == 23
      then on_heap (in_locals x y λ h p q. keep h (Equality.eqv b.floats h p q))
      else if pn == 24
      then read_heap (λ h. Equality.eq h x y)
      else if pn == 25
      then on_heap (in_locals x y λ h p q. keep h (Equality.equal b.floats fuel h p q))
      else number_test pn x y

  unfoldable pub pred_prim : ℕ → Object → M Object
  pred_prim pn o =
      if pn == 40
      then read_heap (λ h. Lists.null_p h o)
      else if pn == 41
      then read_heap (λ h. Lists.pair_p h o)
      else if pn == 55
      then pure (Lists.list_p o)
      else if pn == 56
      then pure (Strings.string_p o)
      else if pn == 57
      then pure (Strings.char_p o)
      else if pn == 58
      then pure (Strings.keyword_p o)
      else if pn == 59
      then pure (bool_const (same o.type OType.symbol))
      else if pn == 60
      then pure (Equality.procedure_p o)
      else if pn == 61
      then pure (Equality.primitive_p o)
      else if pn == 62
      then pure (Equality.boolean_p o)
      else if pn == 63
      then pure (Equality.number_p o)
      else if pn == 64
      then pure (Equality.integer_p b.floats o)
      else if pn == 65
      then pure (Equality.real_p o)
      else if pn == 66
      then pure (Equality.rational_p o)
      else if pn == 67
      then pure (Equality.complex_p o)
      else pure (Equality.bytevector_p o)

  unfoldable pub prim_1 : ℕ → (o : Object) → M Object
  prim_1 pn o =
      if pn == 32
      then read_heap (λ h. Lists.car h o)
      else if pn == 33
      then (do vm ← get; on_heap (λ h. Lists.cdr (is_init_globals vm.state) h o))
      else if pn == 37
      then on_heap (λ h. Strings.list_to_string fuel h ret_obj o)
      else if pn == 73
      then (do vm ← get; lift (Bytevector.bytevector_length vm.bytevectors ret_obj o))
      else if pn == 80
      then lift (Rounding.floor b.floats ret_obj o)
      else if pn == 82
      then lift (Rounding.ceiling b.floats ret_obj o)
      else if pn == 83
      then lift (Rounding.truncate b.floats ret_obj o)
      else if pn == 84
      then lift (Rounding.round b.floats ret_obj o)
      else if pn == 97
      then lift (Rounding.is_zero b.floats o)
      else if pn == 98
      then lift (Rounding.is_positive b.floats o)
      else if pn == 99
      then lift (Rounding.is_negative b.floats o)
      else if pn == 100
      then lift (Rounding.is_odd b.floats ret_obj o)
      else if pn == 101
      then lift (Rounding.is_even b.floats ret_obj o)
      else if pn == 110
      then read_heap (λ h. Strings.string_length h ret_obj o)
      else if pn == 26 || pn == 27 || pn == 29 || pn == 106
      then b.device pn (o ∷ [])
      else lift panic

  unfoldable pub prim_2 : ℕ → (x y : Object) → M Object
  prim_2 pn x y =
      if pn == 20
      then read_heap (λ h. Lists.list_ref fuel h x y)
      else if pn == 22
      then (do
        vm ← get
        on_heap (λ h. Lists.list_append fuel (is_init_globals vm.state) h ret_obj x y))
      else if pn == 31
      then on_heap (in_locals x y λ h p q. Lists.cons h ret_obj p q)
      else if pn == 72
      then on_bytevectors (λ h. Bytevector.make_bytevector h ret_obj x y)
      else if pn == 74
      then (do vm ← get; lift (Bytevector.bytevector_u8_ref vm.bytevectors ret_obj x y))
      else if pn == 78
      then on_bytevectors (λ h. Bytevector.bytevector_append h x y)
      else if pn == 108
      then on_heap (λ h. Strings.make_string h ret_obj x y)
      else if pn == 111
      then read_heap (λ h. Strings.string_ref h ret_obj x y)
      else if pn == 113
      then read_heap (λ h. Strings.string_eq h x y)
      else if pn == 115
      then on_heap (λ h. Strings.string_append h ret_obj x y)
      else if pn == 28
      then b.device pn (x ∷ y ∷ [])
      else lift panic

  unfoldable pub prim_3 : ℕ → (x y z : Object) → M Object
  prim_3 pn x y z =
      if pn == 75
      then on_bytevectors (λ h. Bytevector.bytevector_u8_set h ret_obj x y z)
      else if pn == 76
      then on_bytevectors (λ h. Bytevector.bytevector_copy h ret_obj x y z)
      else if pn == 112
      then on_heap (λ h. Strings.string_set h ret_obj x y z)
      else if pn == 114
      then on_heap (λ h. Strings.substring h ret_obj x y z)
      else if pn == 116
      then on_heap (λ h. Strings.string_copy h ret_obj x y z)
      else b.device pn (x ∷ y ∷ z ∷ [])

  unfoldable pub prim_4 : ℕ → (x y z u : Object) → M Object
  prim_4 pn x y z u =
      if pn == 118
      then on_string x (λ h. Strings.string_fill h ret_obj x y z u)
      else b.device pn (x ∷ y ∷ z ∷ u ∷ [])

  unfoldable pub prim_5 : ℕ → (x y z u v : Object) → M Object
  prim_5 pn x y z u v =
      if pn == 77
      then on_bytevectors (λ h. Bytevector.bytevector_copy_overwrite h x y z u v)
      else on_string x (λ h. Strings.string_copy_side_effect h ret_obj x y z u v)

  abbrev pub push_bool : Bool → M (Unit {0})
  push_bool t = push_obj (bool_const t)

  -- The cases of `call_prim` that call a function of the table on popped objects.
  unfoldable pub call_function : ℕ → M (Unit {0})
  call_function pn =
      if is_arith pn
      then (do o2 ← pop_obj; o1 ← pop_obj; r ← lift (arith_prim pn none_ret o1 o2); push_obj r)
      else if is_modulo pn
      then (do
        xsor ← pop_obj
        xend ← pop_obj
        lift (validate xsor OType.imm_int)
        lift (validate xend OType.imm_int)
        r ← lift (modulo_prim pn (s32 xend.value) (s32 xsor.value))
        push_obj (make_object OType.imm_int 0 (word r)))
      else if is_logic pn
      then (do
        comparee ← pop_obj
        comparand ← pop_obj
        t ← logic_prim pn comparand comparee
        push_bool t)
      else if pn == 8
      then (do o ← pop_obj; push_bool (Equality.not_object o))
      else if has_five pn
      then (do
        o5 ← pop_obj
        o4 ← pop_obj
        o3 ← pop_obj
        o2 ← pop_obj
        o1 ← pop_obj
        r ← prim_5 pn o1 o2 o3 o4 o5
        push_obj r)
      else if has_four pn
      then (do
        o4 ← pop_obj
        o3 ← pop_obj
        o2 ← pop_obj
        o1 ← pop_obj
        r ← prim_4 pn o1 o2 o3 o4
        push_obj r)
      else if has_three pn
      then (do o3 ← pop_obj; o2 ← pop_obj; o1 ← pop_obj; r ← prim_3 pn o1 o2 o3; push_obj r)
      else if has_two pn
      then (do o2 ← pop_obj; o1 ← pop_obj; r ← prim_2 pn o1 o2; push_obj r)
      else if has_one pn
      then (do o ← pop_obj; r ← prim_1 pn o; push_obj r)
      else if has_none pn
      then (do r ← b.device pn []; push_obj r)
      else if is_pred pn
      then (do o ← pop_obj; r ← pred_prim pn o; push_obj r)
      else lift panic
