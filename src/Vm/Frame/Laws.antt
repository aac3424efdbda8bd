-- ===== src/Vm/Frame/Laws.antt =====
-- The calling convention (inc/vm.h): what a prelude stores is what the return takes back.
use animula.Prelude.{ℕ, ◌+◌, ◌-◌, ◌^◌, ◌≤◌, ◌<◌, ◌≡◌, List, arith, ◌∙◌, ◌==◌, if◌then◌else◌, inl}
use animula.Run.{ok}
use animula.Object.{Object}
use animula.Vm.Memory.{Memory, write, read, bytes, object_bytes}
use animula.Vm.Memory.Laws.{IsObject, read-write_same, read-write_apart}
use animula.Vm.State.{Vm, with_shadow, with_mode}
use animula.Vm.Stack.{
  fps, no_prev_fp, normal_jump, object_size, reg, push_obj, push_reg, push_closure, push,
}
use animula.Vm.Stack.Laws.{
  HasRoom, InStack, pushed, push_bytes-ok, pop_obj_at, pop_closure_at, pop_at, pop_reg_at,
}
use animula.Vm.Frame.{saved_fp, save_normal, restore}

-- The frame at `fp`: return address, local, last frame, attributes and closure.
pub record HasFrame (m : Memory) (fp ret local last attr closure : ℕ) : Type 0 where
  pub at_ret : read m fp 2 ≡ bytes 2 ret
  pub at_local : read m (fp + 2) 2 ≡ bytes 2 local
  pub at_last : read m (fp + 4) 2 ≡ bytes 2 last
  pub at_attr : read m (fp + 6) 1 ≡ bytes 1 attr
  pub at_closure : read m (fp + 7) 4 ≡ bytes 4 closure

-- The stack after the five pushes of a prelude.
abbrev pub frame_at : Memory → (sp ret local last attr closure : ℕ) → Memory
frame_at m sp ret local last attr closure =
    write
      (write
        (write (write (write m sp (bytes 2 ret)) (sp + 2) (bytes 2 local)) (sp + 2 + 2)
          (bytes 2 last))
        (sp + 2 + 2 + 2) (bytes 1 attr))
      (sp + 2 + 2 + 2 + 1) (bytes 4 closure)

-- A read that ends where a write begins.
below :
    (m : Memory) (a : ℕ) (bs : List ℕ) (c n : ℕ) → c + n ≤ a → read (write m a bs) c n ≡ read m c n
below m a bs c n h = read-write_apart m a bs c n (inl h)

module _ (m : Memory) (sp ret local last attr closure : ℕ) where
  abbrev m₁ : Memory
  m₁ = write m sp (bytes 2 ret)

  abbrev m₂ : Memory
  m₂ = write m₁ (sp + 2) (bytes 2 local)

  abbrev m₃ : Memory
  m₃ = write m₂ (sp + 2 + 2) (bytes 2 last)

  abbrev m₄ : Memory
  m₄ = write m₃ (sp + 2 + 2 + 2) (bytes 1 attr)

  pub frame_at-HasFrame :
      HasFrame (frame_at m sp ret local last attr closure) sp ret local last attr closure
  frame_at-HasFrame =
      let e₄ : sp + 4 ≡ sp + 2 + 2 = omega arith in
      let e₆ : sp + 6 ≡ sp + 2 + 2 + 2 = omega arith in
      let e₇ : sp + 7 ≡ sp + 2 + 2 + 2 + 1 = omega arith in
      record {
        at_ret =
            below m₄ _ (bytes 4 closure) sp 2 (omega arith)
            ∙ below m₃ _ (bytes 1 attr) sp 2 (omega arith)
            ∙ below m₂ _ (bytes 2 last) sp 2 (omega arith)
            ∙ below m₁ _ (bytes 2 local) sp 2 (omega arith)
            ∙ read-write_same m sp (bytes 2 ret);
        at_local =
            below m₄ _ (bytes 4 closure) (sp + 2) 2 (omega arith)
            ∙ below m₃ _ (bytes 1 attr) (sp + 2) 2 (omega arith)
            ∙ below m₂ _ (bytes 2 last) (sp + 2) 2 (omega arith)
            ∙ read-write_same m₁ (sp + 2) (bytes 2 local);
        at_last = rw e₄ (
            below m₄ _ (bytes 4 closure) (sp + 2 + 2) 2 (omega arith)
            ∙ below m₃ _ (bytes 1 attr) (sp + 2 + 2) 2 (omega arith)
            ∙ read-write_same m₂ (sp + 2 + 2) (bytes 2 last));
        at_attr = rw e₆ (
            below m₄ _ (bytes 4 closure) (sp + 2 + 2 + 2) 1 (omega arith)
            ∙ read-write_same m₃ (sp + 2 + 2 + 2) (bytes 1 attr));
        at_closure = rw e₇ (read-write_same m₄ (sp + 2 + 2 + 2 + 1) (bytes 4 closure));
      }

  pub frame_at-below :
      (a n : ℕ) → a + n ≤ sp → read (frame_at m sp ret local last attr closure) a n ≡ read m a n
  frame_at-below a n h =
      below m₄ _ (bytes 4 closure) a n (omega arith)
      ∙ below m₃ _ (bytes 1 attr) a n (omega arith)
      ∙ below m₂ _ (bytes 2 last) a n (omega arith)
      ∙ below m₁ _ (bytes 2 local) a n (omega arith)
      ∙ below m sp (bytes 2 ret) a n (omega arith)

-- The machine behind a prelude of a normal call.
abbrev pub framed : Vm → Vm
framed vm = record vm {
  stack = frame_at vm.stack vm.sp normal_jump vm.local (saved_fp vm.sp vm.fp) vm.attr vm.closure;
  sp = vm.sp + fps;
  fp = vm.sp;
  attr = with_mode (with_shadow vm.attr 0) 2;
}

pub save_normal-ok : (vm : Vm) → HasRoom fps vm → save_normal vm ≡ ok (tt, framed vm)
unfolding save_normal push_reg push push_closure
save_normal-ok vm h =
    let v₁ = pushed (bytes 2 normal_jump) vm in
    let v₂ = pushed (bytes 2 vm.local) v₁ in
    let v₃ = pushed (bytes 2 (saved_fp vm.sp vm.fp)) v₂ in
    let v₄ = pushed (bytes 1 vm.attr) v₃ in
    let frame_start : reg (vm.sp + 2 + 2 + 2 + 1 + 4 + 2 ^ 16 - fps) ≡ vm.sp = omega arith in
    let frame_end : vm.sp + 2 + 2 + 2 + 1 + 4 ≡ vm.sp + fps = omega arith in
    rw (
      push_bytes-ok (bytes 2 normal_jump) vm (omega arith),
      push_bytes-ok (bytes 2 vm.local) v₁ (omega arith),
      push_bytes-ok (bytes 2 (saved_fp vm.sp vm.fp)) v₂ (omega arith),
      push_bytes-ok (bytes 1 vm.attr) v₃ (omega arith),
      push_bytes-ok (bytes 4 vm.closure) v₄ (omega arith),
      frame_start,
      frame_end,
    )

-- The machine behind a return with `o` to a frame.
abbrev pub returned : Object → (ret local last attr closure : ℕ) → Vm → Vm
returned o ret local last attr closure vm = pushed (object_bytes o) (record vm {
  pc = ret;
  sp = vm.fp;
  fp = if last == no_prev_fp then 0 else last;
  local = local;
  closure = closure;
  attr = attr;
})

-- The values of a frame fit their fields.
pub record FrameFits (ret local last attr closure : ℕ) : Type 0 where
  pub ret_fits : ret < 2 ^ 16
  pub local_fits : local < 2 ^ 16
  pub last_fits : last < 2 ^ 16
  pub attr_fits : attr < 2 ^ 8
  pub closure_fits : closure < 2 ^ 32

-- `RESTORE` in a machine with a frame at `fp` and a result on the top of its stack.
pub restore-ok :
    (o : Object) (ret local last attr closure : ℕ) (vm : Vm)
    → IsObject o
    → InStack vm
    → FrameFits ret local last attr closure
    → HasFrame vm.stack vm.fp ret local last attr closure
    → vm.fp + fps + object_size ≤ vm.sp
    → vm.sp < vm.stkseg_size
    → read vm.stack (vm.sp - object_size) object_size ≡ object_bytes o
    → restore vm ≡ ok (tt, returned o ret local last attr closure vm)
unfolding restore push_obj
restore-ok o ret local last attr closure vm h i fits fr room below_end top =
    let v₁ = record vm { sp = vm.fp + fps } in
    let inside : (a : ℕ) → a ≤ vm.fp + fps → InStack (record vm { sp = a }) =
      λ a le. record { sp_fits = omega arith; below_end = omega arith; segment = omega arith } in
    let start : reg (vm.fp + fps) ≡ vm.fp + fps = omega arith in
    rw
      (
        pop_obj_at (vm.sp - object_size) o vm (omega arith) i h top,
        start,
        pop_closure_at (vm.fp + 7) closure v₁ (omega arith) (inside _ (omega arith))
            fits.closure_fits fr.at_closure,
        pop_at (vm.fp + 6) attr (record v₁ { sp = vm.fp + 7 }) (omega arith)
            (inside _ (omega arith)) fits.attr_fits fr.at_attr,
        pop_reg_at (vm.fp + 4) last (record v₁ { sp = vm.fp + 6 }) (omega arith)
            (inside _ (omega arith)) fits.last_fits fr.at_last,
        pop_reg_at (vm.fp + 2) local (record v₁ { sp = vm.fp + 4 }) (omega arith)
            (inside _ (omega arith)) fits.local_fits fr.at_local,
        pop_reg_at vm.fp ret (record v₁ { sp = vm.fp + 2 }) (omega arith) (inside _ (omega arith))
            fits.ret_fits fr.at_ret,
      )
      (push_bytes-ok (object_bytes o) _ (omega arith, omega arith))
