-- ===== src/Vm/Stack/Laws.antt =====
-- Pushes and pops (inc/vm.h).
use animula.Prelude.{ℕ, ◌+◌, ◌-◌, ◌^◌, ◌≤◌, ◌<◌, ◌≡◌, ◌≢◌, List, length, false, arith, ltb}
use animula.Run.{ok}
use animula.Object.{Object}
use animula.Vm.Memory.{write, read, bytes, object_bytes}
use animula.Vm.Memory.Laws.{IsObject, read-write_same, object_of-object_bytes, number-bytes}
use animula.Vm.State.{Vm}
use animula.Vm.Stack.{
  push_bytes, pop_bytes, push_obj, pop_obj, pop_reg, pop_closure, pop, object_size, reg,
}

-- `n` more bytes fit the stack, whose addresses fit 16 bits, without its last byte.
abbrev pub HasRoom : ℕ → Vm → Type 0
HasRoom n vm = (vm.sp + n < vm.stkseg_size) × (vm.stkseg_size ≤ 2 ^ 16)

abbrev pub pushed : List ℕ → Vm → Vm
pushed bs vm = record vm { stack = write vm.stack vm.sp bs; sp = vm.sp + length bs }

pub push_bytes-ok :
    (bs : List ℕ) (vm : Vm) → HasRoom (length bs) vm → push_bytes bs vm ≡ ok (tt, pushed bs vm)
unfolding push_bytes
push_bytes-ok bs vm h = ground arith

-- The stack pointer lies in the stack.
pub record InStack (vm : Vm) : Type 0 where
  pub sp_fits : vm.sp < 2 ^ 16
  pub below_end : vm.sp ≤ vm.stkseg_size
  pub segment : vm.stkseg_size ≤ 2 ^ 16

pub pop_bytes-ok :
    (n : ℕ) (vm : Vm)
    → InStack vm
    → n ≤ vm.sp
    → pop_bytes n vm ≡ ok (read vm.stack (vm.sp - n) n, record vm { sp = vm.sp - n })
unfolding pop_bytes
pop_bytes-ok n vm i h =
    let e : reg (vm.sp + 2 ^ 16 - n) ≡ vm.sp - n = ground (arith, i.sp_fits) in
    let inside : ltb vm.stkseg_size (vm.sp - n + n) ≡ false = ground (arith, i.below_end) in
    rw (e, inside)

pushed-InStack : (bs : List ℕ) (vm : Vm) → HasRoom (length bs) vm → InStack (pushed bs vm)
pushed-InStack bs vm h = record {
  sp_fits = omega arith;
  below_end = omega arith;
  segment = omega arith;
}

pub pop_bytes-pushed :
    (bs : List ℕ) (vm : Vm)
    → HasRoom (length bs) vm
    → pop_bytes (length bs) (pushed bs vm) ≡ ok (bs, record (pushed bs vm) { sp = vm.sp })
pop_bytes-pushed bs vm h =
    let back : vm.sp + length bs - length bs ≡ vm.sp = omega arith in
    rw (
      pop_bytes-ok (length bs) (pushed bs vm) (pushed-InStack bs vm h) (omega arith),
      back,
      read-write_same,
    )

-- An object whose fields fit is pushed onto a stack with room for it, and is the one popped next,
-- and the pop gives the stack pointer back.
pub pop_obj-push_obj :
    (o : Object) (vm : Vm)
    → IsObject o
    → HasRoom object_size vm
    → (vm' : Vm) × (push_obj o vm ≡ ok (tt, vm'))
      × (pop_obj vm' ≡ ok (o, record vm' { sp = vm.sp }))
unfolding push_obj pop_obj
pop_obj-push_obj o vm h room = (
  pushed (object_bytes o) vm,
  push_bytes-ok (object_bytes o) vm room,
  rw (pop_bytes-pushed (object_bytes o) vm room, object_of-object_bytes o h),
)

-- A push without room for another byte behind it does not return, in a stack of less than 65536
-- bytes: it ends in `PANIC`, or writes behind the stack.
pub push_bytes-full :
    (bs : List ℕ) (vm : Vm) (r : Unit {0} × Vm)
    → vm.stkseg_size < 2 ^ 16
    → vm.stkseg_size ≤ vm.sp + length bs
    → push_bytes bs vm ≢ ok r
unfolding push_bytes
push_bytes-full bs vm r k h = ground arith

-- The bytes below the stack pointer are what a pop returns.
pub pop_bytes_at :
    (a n : ℕ) (bs : List ℕ) (vm : Vm)
    → vm.sp ≡ a + n
    → InStack vm
    → read vm.stack a n ≡ bs
    → pop_bytes n vm ≡ ok (bs, record vm { sp = a })
pop_bytes_at a n bs vm e i h =
    let back : vm.sp - n ≡ a = omega arith in rw (pop_bytes-ok n vm i (omega arith), back, h)

pub pop_obj_at :
    (a : ℕ) (o : Object) (vm : Vm)
    → vm.sp ≡ a + object_size
    → InStack vm
    → IsObject o
    → read vm.stack a object_size ≡ object_bytes o
    → pop_obj vm ≡ ok (o, record vm { sp = a })
unfolding pop_obj
pop_obj_at a o vm e i h top =
    rw (pop_bytes_at a object_size (object_bytes o) vm e i top, object_of-object_bytes o h)

pub pop_reg_at :
    (a r : ℕ) (vm : Vm)
    → vm.sp ≡ a + 2
    → InStack vm
    → r < 2 ^ 16
    → read vm.stack a 2 ≡ bytes 2 r
    → pop_reg vm ≡ ok (r, record vm { sp = a })
unfolding pop_reg
pop_reg_at a r vm e i h top = rw (pop_bytes_at a 2 (bytes 2 r) vm e i top, number-bytes 2 r h)

pub pop_closure_at :
    (a c : ℕ) (vm : Vm)
    → vm.sp ≡ a + 4
    → InStack vm
    → c < 2 ^ 32
    → read vm.stack a 4 ≡ bytes 4 c
    → pop_closure vm ≡ ok (c, record vm { sp = a })
unfolding pop_closure
pop_closure_at a c vm e i h top = rw (pop_bytes_at a 4 (bytes 4 c) vm e i top, number-bytes 4 c h)

pub pop_at :
    (a b : ℕ) (vm : Vm)
    → vm.sp ≡ a + 1
    → InStack vm
    → b < 2 ^ 8
    → read vm.stack a 1 ≡ bytes 1 b
    → pop vm ≡ ok (b, record vm { sp = a })
unfolding pop
pop_at a b vm e i h top = rw (pop_bytes_at a 1 (bytes 1 b) vm e i top, number-bytes 1 b h)
