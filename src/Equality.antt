-- ===== src/Equality.antt =====
-- primitives.c: `_not`, `_eq`, `_eqv`, `_equal` and the tests of types.
pub mod Laws
mod Tests
use animula.Prelude.{
  ℕ, zero, suc, ◌/◌, ◌%◌, ◌^◌, Bool, true, false, not, ◌||◌, ◌&&◌, ◌==◌, if◌then◌else◌,
}
use animula.Run.{Run, ok, panic, fault, ◌>>=◌}
use animula.Object.{OType, Object, same, s32, bool_const, is_rational}
use animula.Number.Float.{FloatOps}
use animula.Number.Compare.{int_eq}
use animula.Store.{Store, fetch}
use animula.Lists.{list_first}
use animula.Strings.{str_eq}

-- `proc.entry`, the upper half of the word.
abbrev pub proc_entry : Object → ℕ
proc_entry o = o.value / 2 ^ 16 % 2 ^ 16

-- `_not`, which is `is_false`.
unfoldable pub not_object : Object → Bool
not_object obj = same obj.type OType.boolean && obj.value == 0

-- `LIST_IS_EMPTY (a) && LIST_IS_EMPTY (b)`.
abbrev pub both_empty : Store → (a b : Object) → Run Bool
both_empty s a b = do
  first ← list_first s a
  if first == 0 then (do second ← list_first s b; ok (second == 0)) else ok false

unfoldable pub eq : Store → (a b : Object) → Run Bool
eq s a b = if not (same a.type b.type) then ok false else do
  empty ← if same a.type OType.list then both_empty s a b else ok false
  if empty
      then ok true
      else if same a.type OType.procedure
      then ok (proc_entry a == proc_entry b)
      else ok (a.value == b.value)

module _ (f : FloatOps) where
  -- On the addresses of two objects: two booleans are compared by these.
  unfoldable pub eqv : Store → (a b : ℕ) → Run Bool
  eqv s a b = do
    x ← fetch s.objects a
    y ← fetch s.objects b
    if not (same x.type y.type)
        then ok false
        else if is_rational x.type || same x.type OType.imm_int
        then int_eq f x y
        else if same x.type OType.symbol
        then ok (x.value == y.value)
        else if same x.type OType.boolean
        then ok (a == b)
        else if same x.type OType.list
        then (do empty ← both_empty s x y; ok (empty || x.value == y.value))
        else if same x.type OType.pair || same x.type OType.string || same x.type OType.vector
        then ok (x.value == y.value)
        else if same x.type OType.procedure
        then ok (proc_entry x == proc_entry y)
        else panic

  -- The loop over the nodes of the first list, with `same_obj` for the call on two objects. It does
  -- not test the end of the second list.
  unfoldable pub equal_nodes : (ℕ → ℕ → Run Bool) → ℕ → Store → (n1 n2 : ℕ) → Bool → Run Bool
  equal_nodes same_obj zero s n1 n2 ret = fault
  equal_nodes same_obj (suc fuel) s n1 n2 ret = if n1 == 0 then ok ret else do
    n ← fetch s.nodes n1
    m ← fetch s.nodes n2
    r ← same_obj n.obj m.obj
    if r then equal_nodes same_obj fuel s n.next m.next true else ok false

  -- The fuel bounds the depth of the pairs and the length of the lists: only an object that contains
  -- itself has none that is enough.
  unfoldable pub equal : ℕ → Store → (a b : ℕ) → Run Bool
  equal zero s a b = fault
  equal (suc fuel) s a b = do
    x ← fetch s.objects a
    y ← fetch s.objects b
    if not (same x.type y.type)
        then ok false
        else if same x.type OType.pair
        then (do
          ap ← fetch s.pairs x.value
          bp ← fetch s.pairs y.value
          heads ← equal fuel s ap.car bp.car
          if heads then equal fuel s ap.cdr bp.cdr else ok false)
        else if same x.type OType.string
        then str_eq s x y
        else if same x.type OType.list
        then (do
          empty ← both_empty s x y
          h1 ← list_first s x
          h2 ← list_first s y
          if empty then ok true else equal_nodes (equal fuel s) fuel s h1 h2 false)
        else if same x.type OType.vector
        then panic
        else eqv s a b

unfoldable pub procedure_p : Object → Object
procedure_p obj = bool_const (same obj.type OType.procedure)

unfoldable pub primitive_p : Object → Object
primitive_p obj = bool_const (same obj.type OType.primitive)

unfoldable pub boolean_p : Object → Object
boolean_p obj = bool_const (same obj.type OType.boolean)

unfoldable pub number_p : Object → Object
number_p obj = bool_const (
    same obj.type OType.imm_int
    || same obj.type OType.real
    || is_rational obj.type
    || same obj.type OType.complex_exact
    || same obj.type OType.complex_inexact)

-- A real is compared with the number that its bits are as an integer.
unfoldable pub integer_p : FloatOps → Object → Object
integer_p f obj = bool_const (
    same obj.type OType.imm_int
    || same obj.type OType.real && f.eq (f.of_int (s32 obj.value)) obj.value)

unfoldable pub real_p : Object → Object
real_p obj = bool_const (same obj.type OType.real)

unfoldable pub rational_p : Object → Object
rational_p obj = bool_const (is_rational obj.type)

unfoldable pub complex_p : Object → Object
complex_p obj =
    bool_const (same obj.type OType.complex_exact || same obj.type OType.complex_inexact)

unfoldable pub bytevector_p : Object → Object
bytevector_p obj = bool_const (same obj.type OType.bytevector || same obj.type OType.mut_bytevector)
