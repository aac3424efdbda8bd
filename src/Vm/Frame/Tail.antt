-- ===== src/Vm/Frame/Tail.antt =====
-- A tail call through a shadow frame (inc/vm.h): `COPY_SHADOW_FRAME` in `PROC_CALL`.
use animula.Prelude.{
  ℕ, zero, suc, ◌+◌, ◌-◌, ◌*◌, ◌^◌, ◌≤◌, ◌<◌, ◌≡◌, ◌≢◌, refl, List, length, arith, ◌∙◌, ap, sym,
  true, false, ltb, ◌||◌, inl,
}
use animula.Run.{ok}
use animula.Vm.Memory.{Memory, write, read}
use animula.Vm.Memory.Laws.{read-write_same, read-write_apart}
use animula.Vm.State.{Vm, shadow_of}
use animula.Vm.Stack.{fps, object_size, reg, load_bytes, store_bytes}
use animula.Vm.Frame.{is_shadow_frame, copy_shadow_frame, proc_call}

length-read : (m : Memory) (a n : ℕ) → length (read m a n) ≡ n
unfolding read
length-read m a zero = refl
length-read m a (suc n) = ap suc (length-read m (a + 1) n)

-- The arguments of a tail call: as many objects as the shadow frame says, on the top of the stack
-- and above the place of the locals that they replace.
pub record HasTailArgs (vm : Vm) : Type 0 where
  pub some_args : shadow_of vm.attr ≢ 0
  pub above : vm.local + object_size * shadow_of vm.attr + object_size * shadow_of vm.attr ≤ vm.sp
  pub in_stack : vm.sp ≤ vm.stkseg_size
  pub segment : vm.stkseg_size < 2 ^ 16

-- The bytes of the arguments.
abbrev pub tail_args : Vm → List ℕ
tail_args vm =
    read vm.stack (vm.sp - object_size * shadow_of vm.attr) (object_size * shadow_of vm.attr)

-- The machine behind a tail call.
abbrev pub replaced : ℕ → Vm → Vm
replaced offset vm = record vm {
  stack = write vm.stack vm.local (tail_args vm);
  sp = vm.local + object_size * shadow_of vm.attr;
  closure = 0;
  local = reg (vm.fp + fps);
  pc = reg offset;
}

load_bytes-ok :
    (a n : ℕ) (vm : Vm) → a + n ≤ vm.stkseg_size → load_bytes a n vm ≡ ok (read vm.stack a n, vm)
unfolding load_bytes
load_bytes-ok a n vm h = ground arith

store_bytes-ok :
    (a : ℕ) (bs : List ℕ) (vm : Vm)
    → a + length bs ≤ vm.stkseg_size
    → store_bytes a bs vm ≡ ok (tt, record vm { stack = write vm.stack a bs })
unfolding store_bytes
store_bytes-ok a bs vm h = ground arith

copy_shadow_frame-ok :
    (vm : Vm)
    → HasTailArgs vm
    → copy_shadow_frame vm
      ≡ ok (
        tt,
        record vm {
          stack = write vm.stack vm.local (tail_args vm);
          sp = vm.local + object_size * shadow_of vm.attr;
        },
      )
unfolding copy_shadow_frame
copy_shadow_frame-ok vm h =
    let size = object_size * shadow_of vm.attr in
    let room : (ltb vm.sp size || ltb (vm.sp - size) (vm.local + size)) ≡ false = ground arith in
    let len : length (tail_args vm) ≡ size = length-read vm.stack (vm.sp - size) size in
    let fits : reg (vm.local + size) ≡ vm.local + size = omega arith in
    rw (
      room,
      load_bytes-ok (vm.sp - size) size vm (omega arith),
      store_bytes-ok vm.local (tail_args vm) vm (omega arith),
      fits,
    )

-- A tail call moves its arguments to the place of the locals, where they read the same, and the
-- stack ends behind them; what lies below the locals stays. The shadow frame has arguments, and
-- they lie on the top of the stack, clear of the place that they move to.
pub tail_call :
    (offset : ℕ) (vm : Vm) (a n : ℕ)
    → HasTailArgs vm
    → a + n ≤ vm.local
    → (proc_call offset vm ≡ ok (tt, replaced offset vm))
      × (read (replaced offset vm).stack vm.local (object_size * shadow_of vm.attr) ≡ tail_args vm)
      × (read (replaced offset vm).stack a n ≡ read vm.stack a n)
unfolding proc_call
tail_call offset vm a n h below =
    let size = object_size * shadow_of vm.attr in
    let len : length (tail_args vm) ≡ size = length-read vm.stack (vm.sp - size) size in
    let shadow : is_shadow_frame vm ≡ true = ground (arith, h.some_args) in
    (
      rw (shadow, copy_shadow_frame-ok vm h),
      ap (read (replaced offset vm).stack vm.local) (sym len)
          ∙ read-write_same vm.stack vm.local (tail_args vm),
      read-write_apart vm.stack vm.local (tail_args vm) a n (inl below),
    )
