-- ===== src/Vm/Frame/Call.antt =====
-- A call and its return (inc/vm.h): `SAVE_ENV`, then `FIX_PC` and `PROC_CALL`, then `RESTORE`.
use animula.Prelude.{
  ℕ, ◌+◌, ◌-◌, ◌^◌, ◌≤◌, ◌<◌, ◌≡◌, arith, ◌∙◌, ◌==◌, if◌then◌else◌, false, inl, inr,
}
use animula.Run.{ok}
use animula.Object.{Object}
use animula.Vm.Memory.{Memory, write, read, bytes, number, object_bytes}
use animula.Vm.Memory.Laws.{IsObject, read-write_same, read-write_apart, number-bytes}
use animula.Vm.State.{Vm, ◌>>◌}
use animula.Vm.Stack.{fps, no_prev_fp, normal_jump, object_size, reg, load_bytes, store_bytes}
use animula.Vm.Stack.Laws.{HasRoom, InStack}
use animula.Vm.Frame.{saved_fp, save_normal, fix_pc, is_shadow_frame, proc_call, restore}
use animula.Vm.Frame.Laws.{
  HasFrame, frame_at-HasFrame, frame_at-below, framed, save_normal-ok, FrameFits, restore-ok,
}

-- `m'` has the bytes of `m` up to `end`.
abbrev pub SameBelow : ℕ → Memory → Memory → Type 0
SameBelow end m m' = (a n : ℕ) → a + n ≤ end → read m' a n ≡ read m a n

pub HasFrame-same :
    (m m' : Memory) (fp ret local last attr closure : ℕ)
    → HasFrame m fp ret local last attr closure
    → SameBelow (fp + fps) m m'
    → HasFrame m' fp ret local last attr closure
HasFrame-same m m' fp ret local last attr closure fr same = record {
  at_ret = same fp 2 (omega arith) ∙ fr.at_ret;
  at_local = same (fp + 2) 2 (omega arith) ∙ fr.at_local;
  at_last = same (fp + 4) 2 (omega arith) ∙ fr.at_last;
  at_attr = same (fp + 6) 1 (omega arith) ∙ fr.at_attr;
  at_closure = same (fp + 7) 4 (omega arith) ∙ fr.at_closure;
}

-- `FIX_PC` fills in the return address.
HasFrame-fixed :
    (m : Memory) (fp ret pc local last attr closure : ℕ)
    → HasFrame m fp ret local last attr closure
    → HasFrame (write m fp (bytes 2 pc)) fp pc local last attr closure
HasFrame-fixed m fp ret pc local last attr closure fr = record {
  at_ret = read-write_same m fp (bytes 2 pc);
  at_local = read-write_apart m fp (bytes 2 pc) (fp + 2) 2 (inr (omega arith)) ∙ fr.at_local;
  at_last = read-write_apart m fp (bytes 2 pc) (fp + 4) 2 (inr (omega arith)) ∙ fr.at_last;
  at_attr = read-write_apart m fp (bytes 2 pc) (fp + 6) 1 (inr (omega arith)) ∙ fr.at_attr;
  at_closure = read-write_apart m fp (bytes 2 pc) (fp + 7) 4 (inr (omega arith)) ∙ fr.at_closure;
}

-- The machine behind `FIX_PC` and `PROC_CALL`.
abbrev pub called : ℕ → Vm → Vm
called offset vm = record vm {
  stack = write vm.stack vm.fp (bytes 2 vm.pc);
  closure = 0;
  local = reg (vm.fp + fps);
  pc = reg offset;
}

fix_pc-ok :
    (vm : Vm)
    → vm.fp + 2 ≤ vm.stkseg_size
    → read vm.stack vm.fp 2 ≡ bytes 2 normal_jump
    → fix_pc vm ≡ ok (tt, record vm { stack = write vm.stack vm.fp (bytes 2 vm.pc) })
unfolding fix_pc load_bytes store_bytes
fix_pc-ok vm h top =
    let e : number (bytes 2 normal_jump) ≡ normal_jump = number-bytes 2 normal_jump (omega arith) in
    ground (arith, top, e)

-- The registers that a prelude saves fit their fields.
pub record Registers (vm : Vm) : Type 0 where
  pub local_fits : vm.local < 2 ^ 16
  pub fp_fits : vm.fp < no_prev_fp
  pub attr_fits : vm.attr < 2 ^ 8
  pub closure_fits : vm.closure < 2 ^ 32

saved_fp-restored :
    (sp fp : ℕ)
    → fp < no_prev_fp
    → (if saved_fp sp fp == no_prev_fp then 0 else saved_fp sp fp) ≡ fp
saved_fp-restored sp fp h = ground arith

saved_fp-fits : (sp fp : ℕ) → fp < no_prev_fp → saved_fp sp fp < 2 ^ 16
saved_fp-fits sp fp h = ground arith

-- The arguments are evaluated over the frame of a prelude in `vm`: `vm₁` has the frame still.
pub record Evaluated (vm vm₁ : Vm) : Type 0 where
  pub in_frame : vm₁.fp ≡ vm.sp
  pub frame_kept : SameBelow (vm.sp + fps) (framed vm).stack vm₁.stack
  pub above_frame : vm.sp + fps ≤ vm₁.sp
  pub in_segment : vm₁.sp ≤ vm₁.stkseg_size
  pub no_shadow : is_shadow_frame vm₁ ≡ false
  pub pc_fits : vm₁.pc < 2 ^ 16

-- The body of a procedure entered in `vm₁` has ended in `vm₂` with `o` on the top of the stack.
pub record Finished (offset : ℕ) (o : Object) (vm₁ vm₂ : Vm) : Type 0 where
  pub same_frame : vm₂.fp ≡ vm₁.fp
  pub caller_kept : SameBelow (vm₁.fp + fps) (called offset vm₁).stack vm₂.stack
  pub stack_pointer : InStack vm₂
  pub not_full : vm₂.sp < vm₂.stkseg_size
  pub result_above : vm₁.fp + fps + object_size ≤ vm₂.sp
  pub result : read vm₂.stack (vm₂.sp - object_size) object_size ≡ object_bytes o
  pub is_object : IsObject o

-- The prelude of a normal call pushes a frame with the registers of the caller and makes it the
-- current one. `FIX_PC` and `PROC_CALL` after it and the evaluation of its arguments put the
-- return address into the frame and enter the procedure, with the locals right behind the frame.
-- The stack has room for the frame, and the arguments were evaluated over it, without a shadow
-- frame.
pub call-enters :
    (offset : ℕ) (vm vm₁ : Vm)
    → HasRoom fps vm
    → Evaluated vm vm₁
    → (save_normal vm ≡ ok (tt, framed vm))
      × ((fix_pc >> proc_call offset) vm₁ ≡ ok (tt, called offset vm₁))
unfolding proc_call
call-enters offset vm vm₁ room e =
    let saved =
      frame_at-HasFrame vm.stack vm.sp normal_jump vm.local (saved_fp vm.sp vm.fp) vm.attr
        vm.closure in
    let unfixed : read vm₁.stack vm₁.fp 2 ≡ bytes 2 normal_jump =
      rw e.in_frame (e.frame_kept vm.sp 2 (omega arith) ∙ saved.at_ret) in
    let plain : is_shadow_frame (record vm₁ { stack = write vm₁.stack vm₁.fp (bytes 2 vm₁.pc) })
        ≡ false =
      e.no_shadow in
    (save_normal-ok vm room, rw (fix_pc-ok vm₁ (omega arith) unfixed, plain))

fixed_frame :
    (offset : ℕ) (o : Object) (vm vm₁ vm₂ : Vm)
    → Evaluated vm vm₁
    → Finished offset o vm₁ vm₂
    → HasFrame vm₂.stack vm₂.fp vm₁.pc vm.local (saved_fp vm.sp vm.fp) vm.attr vm.closure
fixed_frame offset o vm vm₁ vm₂ e d =
    let last = saved_fp vm.sp vm.fp in
    let saved = frame_at-HasFrame vm.stack vm.sp normal_jump vm.local last vm.attr vm.closure in
    let kept : HasFrame vm₁.stack vm.sp normal_jump vm.local last vm.attr vm.closure =
      HasFrame-same (framed vm).stack vm₁.stack vm.sp normal_jump vm.local last vm.attr vm.closure
        saved e.frame_kept in
    let fixed =
      HasFrame-fixed vm₁.stack vm₁.fp normal_jump vm₁.pc vm.local last vm.attr vm.closure
        (rw e.in_frame kept) in
    rw d.same_frame (
      HasFrame-same (called offset vm₁).stack vm₂.stack vm₁.fp vm₁.pc vm.local last vm.attr
        vm.closure fixed d.caller_kept)

restore-returned :
    (offset : ℕ) (o : Object) (vm vm₁ vm₂ : Vm)
    → Registers vm
    → Evaluated vm vm₁
    → Finished offset o vm₁ vm₂
    → restore vm₂
      ≡ ok (
        tt,
        record vm₂ {
          pc = vm₁.pc;
          sp = vm.sp + object_size;
          fp = vm.fp;
          local = vm.local;
          closure = vm.closure;
          attr = vm.attr;
          stack = write vm₂.stack vm.sp (object_bytes o);
        },
      )
restore-returned offset o vm vm₁ vm₂ r e d =
    let fits : FrameFits vm₁.pc vm.local (saved_fp vm.sp vm.fp) vm.attr vm.closure = record {
      ret_fits = e.pc_fits;
      local_fits = r.local_fits;
      last_fits = saved_fp-fits vm.sp vm.fp r.fp_fits;
      attr_fits = r.attr_fits;
      closure_fits = r.closure_fits;
    } in
    let above : vm₂.fp + fps + object_size ≤ vm₂.sp = rw d.same_frame d.result_above in
    let base : vm₂.fp ≡ vm.sp = d.same_frame ∙ e.in_frame in
    restore-ok o vm₁.pc vm.local (saved_fp vm.sp vm.fp) vm.attr vm.closure vm₂ d.is_object
      d.stack_pointer fits (fixed_frame offset o vm vm₁ vm₂ e d) above d.not_full d.result
    ∙ rw (saved_fp-restored vm.sp vm.fp r.fp_fits, base)

stack_back :
    (offset : ℕ) (o : Object) (vm vm₁ vm₂ : Vm) (a n : ℕ)
    → Evaluated vm vm₁
    → Finished offset o vm₁ vm₂
    → a + n ≤ vm.sp
    → read (write vm₂.stack vm.sp (object_bytes o)) a n ≡ read vm.stack a n
stack_back offset o vm vm₁ vm₂ a n e d h =
    let base : vm₁.fp ≡ vm.sp = e.in_frame in
    read-write_apart vm₂.stack vm.sp (object_bytes o) a n (inl h)
    ∙ d.caller_kept a n (omega arith)
    ∙ read-write_apart vm₁.stack vm₁.fp (bytes 2 vm₁.pc) a n (inl (omega arith))
    ∙ e.frame_kept a n (omega arith)
    ∙ frame_at-below vm.stack vm.sp normal_jump vm.local (saved_fp vm.sp vm.fp) vm.attr vm.closure a
        n h

-- The return from a call brings back the registers of the caller as its prelude in `vm` saved
-- them and the program counter of the call, and leaves the result where the frame was, in place
-- of the frame, the arguments and the temporaries of the procedure. What the caller had on its
-- stack, at `a` and the `n - 1` addresses behind it, is there again. The registers of the caller
-- fit their fields, its arguments were evaluated over the frame, and the procedure has ended with
-- a result on top and has written to no byte below its arguments.
pub call-returns :
    (offset : ℕ) (o : Object) (vm vm₁ vm₂ : Vm) (a n : ℕ)
    → Registers vm
    → Evaluated vm vm₁
    → Finished offset o vm₁ vm₂
    → a + n ≤ vm.sp
    → (restore vm₂
        ≡ ok (
          tt,
          record vm₂ {
            pc = vm₁.pc;
            sp = vm.sp + object_size;
            fp = vm.fp;
            local = vm.local;
            closure = vm.closure;
            attr = vm.attr;
            stack = write vm₂.stack vm.sp (object_bytes o);
          },
        ))
      × (read (write vm₂.stack vm.sp (object_bytes o)) a n ≡ read vm.stack a n)
call-returns offset o vm vm₁ vm₂ a n r e d h =
    (restore-returned offset o vm vm₁ vm₂ r e d, stack_back offset o vm vm₁ vm₂ a n e d h)
