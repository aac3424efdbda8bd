-- ===== src/Vm/Prims/Laws.antt =====
-- The byte codes of arithmetic, from the fetch to the result on the stack.
use animula.Prelude.{ℕ, suc, ◌+◌, ◌*◌, ◌<◌, ◌≡◌, refl, ◌∙◌, true, [], ◌∷◌, arith, inl, inr}
use animula.Run.{ok}
use animula.Object.{Object}
use animula.Prelude.Int.{◌+ℤ◌}
use animula.Object.{s32}
use animula.Number.Arith.Ints.{IsInt, FitsS32, int_add-Stores}
use animula.Vm.Memory.{read, object_bytes}
use animula.Vm.Memory.Laws.{IsObject}
use animula.Vm.State.{Vm}
use animula.Vm.Stack.{object_size, push_obj, pop_obj}
use animula.Vm.Stack.Laws.{HasRoom, InStack, pushed, push_bytes-ok, pop_obj_at}
use animula.Vm.Decode.{bc_type, bc_data, Encode, pre_fetch, operands, decode}
use animula.Vm.Decode.Laws.{Next, fetched, fetch-ok}
use animula.Vm.Interp.{Services, interp, interp_special, dispatch, round}
use animula.Vm.Prims.{Board, none_ret, is_arith, arith_prim, call_function}
use animula.Vm.Apply.{call_prim, Addresses, services}

-- The two topmost objects of the stack, at `a` and behind it.
pub record Operands (vm : Vm) (a : ℕ) (x y : Object) : Type 0 where
  pub stack_pointer : InStack vm
  pub top : vm.sp ≡ a + 2 * object_size
  pub first : read vm.stack a object_size ≡ object_bytes x
  pub second : read vm.stack (a + object_size) object_size ≡ object_bytes y
  pub first_is : IsObject x
  pub second_is : IsObject y

pub pop-second :
    (vm : Vm) (a : ℕ) (x y : Object)
    → Operands vm a x y
    → pop_obj vm ≡ ok (y, record vm { sp = a + object_size })
pop-second vm a x y os =
    pop_obj_at (a + object_size) y vm (omega (arith, os.top)) os.stack_pointer os.second_is
      os.second

pub pop-first :
    (vm : Vm) (a : ℕ) (x y : Object)
    → Operands vm a x y
    → pop_obj (record vm { sp = a + object_size }) ≡ ok (x, record vm { sp = a })
pop-first vm a x y os =
    let fits = os.stack_pointer.sp_fits in
    let below = os.stack_pointer.below_end in
    let is : InStack (record vm { sp = a + object_size }) = record {
      sp_fits = omega (arith, os.top, fits);
      below_end = omega (arith, os.top, below);
      segment = os.stack_pointer.segment;
    } in
    pop_obj_at a x (record vm { sp = a + object_size }) refl is os.first_is os.first

call_prim_arith :
    (s : Services) (board : Board) (fuel pn : ℕ) (vm : Vm)
    → is_arith pn ≡ true
    → call_prim s board fuel pn vm ≡ call_function board fuel pn vm
unfolding call_prim
call_prim_arith s board fuel pn vm e = ground (arith, e)

-- The primitives `+`, `-`, `*` and `/` replace their operands on the stack by the result, whose fields
-- fit.
pub call_prim-arith :
    (s : Services) (board : Board) (fuel pn a : ℕ) (x y r : Object) (vm : Vm)
    → is_arith pn ≡ true
    → Operands vm a x y
    → arith_prim board fuel pn none_ret x y ≡ ok r
    → call_prim s board fuel pn vm ≡ ok (tt, pushed (object_bytes r) (record vm { sp = a }))
unfolding call_function push_obj
call_prim-arith s board fuel pn a x y r vm is os e =
    let room : HasRoom object_size (record vm { sp = a }) =
      (omega (arith, os.top, os.stack_pointer.below_end), os.stack_pointer.segment) in
    call_prim_arith s board fuel pn vm is
    ∙ rw (is, pop-second vm a x y os, pop-first vm a x y os, e)
        (push_bytes-ok (object_bytes r) (record vm { sp = a }) room)

-- The byte code of a primitive of the short encoding.
decode-prim :
    (pn : ℕ) (vm : Vm) → pn < 16 → decode (12 * 16 + pn) vm ≡ ok ((Encode.special, []), vm)
unfolding decode pre_fetch operands
decode-prim pn vm h = ground (arith, h)

dispatch-prim :
    (s : Services) (pn : ℕ) (vm : Vm) → pn < 16 → dispatch s (12 * 16 + pn) vm ≡ s.call_prim pn vm
unfolding dispatch interp interp_special
dispatch-prim s pn vm h =
    let t : bc_type (12 * 16 + pn) ≡ 12 = omega (arith, h) in
    let d : bc_data (12 * 16 + pn) ≡ pn = omega (arith, h) in rw (decode-prim pn vm h, t, d) refl

-- The machine that fetches the byte code of `+`, `-`, `*` or `/` replaces the operands on the stack by
-- the result of the primitive, if it returns one.
pub round-arith :
    (board : Board) (addresses : Addresses) (fuel pn a : ℕ) (x y r : Object) (vm : Vm)
    → is_arith pn ≡ true
    → Next ((12 * 16 + pn) ∷ []) vm
    → Operands vm a x y
    → arith_prim board fuel pn none_ret x y ≡ ok r
    → round (services board addresses (suc fuel)) vm
      ≡ ok (tt, pushed (object_bytes r) (record (fetched (12 * 16 + pn) vm) { sp = a }))
unfolding round services
round-arith board addresses fuel pn a x y r vm is next os e =
    let short : pn < 16 = ground (arith, is) in
    let b = 12 * 16 + pn in
    let os' : Operands (fetched b vm) a x y = record {
      stack_pointer = record {
        sp_fits = os.stack_pointer.sp_fits;
        below_end = os.stack_pointer.below_end;
        segment = os.stack_pointer.segment;
      };
      top = os.top;
      first = os.first;
      second = os.second;
      first_is = os.first_is;
      second_is = os.second_is;
    } in
    rw
      (
        fetch-ok b [] vm next,
        dispatch-prim (services board addresses (suc fuel)) pn (fetched b vm) short,
      )
      (call_prim-arith (services board addresses fuel) board fuel pn a x y r (fetched b vm) is os'
        e)

-- The byte code of `+` on two integers whose sum fits into 32 bits leaves an integer with that sum in
-- their place.
pub round-sum :
    (board : Board) (addresses : Addresses) (fuel a : ℕ) (x y : Object) (vm : Vm)
    → IsInt x
    → IsInt y
    → FitsS32 (s32 x.value +ℤ s32 y.value)
    → Next (194 ∷ []) vm
    → Operands vm a x y
    → (r : Object) × IsInt r
      × (s32 r.value ≡ s32 x.value +ℤ s32 y.value)
      × (round (services board addresses (suc fuel)) vm
          ≡ ok (tt, pushed (object_bytes r) (record (fetched 194 vm) { sp = a })))
unfolding arith_prim
round-sum board addresses fuel a x y vm p q fits next os =
    elim (int_add-Stores board.floats none_ret x y p q) [
      | inl (_, (r, e, is, sum)) ↦
          (r, is, sum, round-arith board addresses fuel 2 a x y r vm refl next os e)
      | inr (lost, _) ↦ absurd (lost fits)
    ]
