-- ===== src/Vm/Frame/Simple.antt =====
-- The frames of the primitives that run code: `SAVE_ENV_SIMPLE` and `RESTORE_SIMPLE` (inc/vm.h).
use animula.Prelude.{ℕ, ◌+◌, ◌-◌, ◌^◌, ◌≤◌, ◌<◌, ◌≡◌, refl, arith, ◌∙◌}
use animula.Run.{ok}
use animula.Object.{Object}
use animula.Vm.Memory.{write, read, bytes, object_bytes}
use animula.Vm.Memory.Laws.{IsObject}
use animula.Vm.State.{Vm}
use animula.Vm.Stack.{fps, object_size, reg, push_obj, push_reg, push_closure, push}
use animula.Vm.Stack.Laws.{
  HasRoom, InStack, pushed, push_bytes-ok, pop_obj_at, pop_closure_at, pop_at, pop_reg_at,
}
use animula.Vm.Frame.{save_env_simple, restore_simple}
use animula.Vm.Frame.Laws.{HasFrame, frame_at, frame_at-HasFrame, FrameFits}
use animula.Vm.Frame.Call.{SameBelow, HasFrame-same}

-- The machine behind `SAVE_ENV_SIMPLE`.
abbrev pub saved : Vm → Vm
saved vm = record vm {
  stack = frame_at vm.stack vm.sp vm.pc vm.local vm.fp vm.attr vm.closure;
  sp = vm.sp + fps;
  fp = vm.sp;
  local = vm.sp + fps;
}

save_env_simple-ok : (vm : Vm) → HasRoom fps vm → save_env_simple vm ≡ ok (tt, saved vm)
unfolding save_env_simple push_reg push push_closure
save_env_simple-ok vm h =
    let v₁ = pushed (bytes 2 vm.pc) vm in
    let v₂ = pushed (bytes 2 vm.local) v₁ in
    let v₃ = pushed (bytes 2 vm.fp) v₂ in
    let v₄ = pushed (bytes 1 vm.attr) v₃ in
    let frame_start : reg (vm.sp + 2 + 2 + 2 + 1 + 4 + 2 ^ 16 - fps) ≡ vm.sp = omega arith in
    let frame_end : vm.sp + 2 + 2 + 2 + 1 + 4 ≡ vm.sp + fps = omega arith in
    rw (
      push_bytes-ok (bytes 2 vm.pc) vm (omega arith),
      push_bytes-ok (bytes 2 vm.local) v₁ (omega arith),
      push_bytes-ok (bytes 2 vm.fp) v₂ (omega arith),
      push_bytes-ok (bytes 1 vm.attr) v₃ (omega arith),
      push_bytes-ok (bytes 4 vm.closure) v₄ (omega arith),
      frame_start,
      frame_end,
    )

restore_simple-ok :
    (o : Object) (ret local last attr closure : ℕ) (vm : Vm)
    → IsObject o
    → InStack vm
    → FrameFits ret local last attr closure
    → HasFrame vm.stack vm.fp ret local last attr closure
    → vm.fp + fps + object_size ≤ vm.sp
    → vm.sp < vm.stkseg_size
    → read vm.stack (vm.sp - object_size) object_size ≡ object_bytes o
    → restore_simple vm
      ≡ ok (
        tt,
        pushed (object_bytes o) (record vm {
          pc = ret;
          sp = vm.fp;
          fp = last;
          local = local;
          closure = closure;
          attr = attr;
        }),
      )
unfolding restore_simple push_obj
restore_simple-ok o ret local last attr closure vm h i fits fr room below_end top =
    let v₁ = record vm { sp = vm.fp + fps } in
    let inside : (a : ℕ) → a ≤ vm.fp + fps → InStack (record vm { sp = a }) =
      λ a le. record { sp_fits = omega arith; below_end = omega arith; segment = omega arith } in
    let start : reg (vm.fp + fps) ≡ vm.fp + fps = omega arith in
    rw
      (
        pop_obj_at (vm.sp - object_size) o vm (omega arith) i h top,
        start,
        pop_closure_at (vm.fp + 7) closure v₁ (omega arith) (inside _ (omega arith))
            fits.closure_fits fr.at_closure,
        pop_at (vm.fp + 6) attr (record v₁ { sp = vm.fp + 7 }) (omega arith)
            (inside _ (omega arith)) fits.attr_fits fr.at_attr,
        pop_reg_at (vm.fp + 4) last (record v₁ { sp = vm.fp + 6 }) (omega arith)
            (inside _ (omega arith)) fits.last_fits fr.at_last,
        pop_reg_at (vm.fp + 2) local (record v₁ { sp = vm.fp + 4 }) (omega arith)
            (inside _ (omega arith)) fits.local_fits fr.at_local,
        pop_reg_at vm.fp ret (record v₁ { sp = vm.fp + 2 }) (omega arith) (inside _ (omega arith))
            fits.ret_fits fr.at_ret,
      )
      (push_bytes-ok (object_bytes o) _ (omega arith, omega arith))

-- Over the frame of `vm` the machine has come to `vm₂`, with `o` on the top of its stack.
pub record Over (o : Object) (vm vm₂ : Vm) : Type 0 where
  pub same_frame : vm₂.fp ≡ vm.sp
  pub frame_kept : SameBelow (vm.sp + fps) (saved vm).stack vm₂.stack
  pub stack_pointer : InStack vm₂
  pub not_full : vm₂.sp < vm₂.stkseg_size
  pub result_above : vm.sp + fps + object_size ≤ vm₂.sp
  pub result : read vm₂.stack (vm₂.sp - object_size) object_size ≡ object_bytes o
  pub is_object : IsObject o

-- `SAVE_ENV_SIMPLE` in a machine with room for a frame pushes one, and `RESTORE_SIMPLE`, in whatever
-- machine has that frame as its last one and the object `o` on top of the stack, gives back every
-- register that fits its field and leaves `o` in place of the frame.
pub restore_simple-save_env_simple :
    (o : Object) (vm vm₂ : Vm)
    → HasRoom fps vm
    → FrameFits vm.pc vm.local vm.fp vm.attr vm.closure
    → Over o vm vm₂
    → (save_env_simple vm ≡ ok (tt, saved vm))
      × (restore_simple vm₂
          ≡ ok (
            tt,
            record vm₂ {
              pc = vm.pc;
              sp = vm.sp + object_size;
              fp = vm.fp;
              local = vm.local;
              closure = vm.closure;
              attr = vm.attr;
              stack = write vm₂.stack vm.sp (object_bytes o);
            },
          ))
restore_simple-save_env_simple o vm vm₂ room fits over =
    let frame : HasFrame vm₂.stack vm.sp vm.pc vm.local vm.fp vm.attr vm.closure =
      HasFrame-same (saved vm).stack vm₂.stack vm.sp vm.pc vm.local vm.fp vm.attr vm.closure
        (frame_at-HasFrame vm.stack vm.sp vm.pc vm.local vm.fp vm.attr vm.closure)
        over.frame_kept in
    let base = over.same_frame in
    (
      save_env_simple-ok vm room,
      restore_simple-ok o vm.pc vm.local vm.fp vm.attr vm.closure vm₂ over.is_object
            over.stack_pointer fits (rw base frame) (rw base over.result_above) over.not_full
            over.result
          ∙ rw base refl,
    )
