-- ===== src/Vm/Interp/Fixed/Frames.antt =====
-- The frames and the references to variables keep the place of the code, the segments and the number of globals.
use animula.Prelude.{ℕ, zero, suc, ◌+◌, ◌-◌, ◌*◌, refl, ◌||◌, ltb, ◌==◌, length, get_elem?}
use animula.Object.{Object}
use animula.Vm.Memory.{number, bytes, object_bytes, object_of}
use animula.Vm.State.{shadow_of}
use animula.Vm.Stack.{object_size, fps, push, push_reg, push_closure, normal_jump}
use animula.Vm.Frame.{
  proc_mode, save_normal, save_env, fix_pc, is_shadow_frame, copy_shadow_frame, proc_call, Ref,
  closure_at, local_ref, walk_frames, free_ref, deref, assign,
}
use animula.Vm.Interp.Fixed.{
  Keeps, pure-Keeps, at_branch-Keeps, branch-Keeps, option-Keeps, some-Keeps, and_then-Keeps,
  bind-Keeps, stack_check-Keeps, push_bytes-Keeps, load_bytes-Keeps, store_bytes-Keeps,
}

save_normal-Keeps : Keeps save_normal
unfolding save_normal push push_reg push_closure
save_normal-Keeps vm = and_then-Keeps vm _ _ (push_bytes-Keeps _ vm) λ _.
    bind-Keeps _ _ (push_bytes-Keeps _) λ _. bind-Keeps _ _ (push_bytes-Keeps _) λ _.
      bind-Keeps _ _ (push_bytes-Keeps _) λ _. bind-Keeps _ _ (push_bytes-Keeps _) λ _ vm'. refl

pub save_env-Keeps : (b : ℕ) → Keeps (save_env b)
unfolding save_env
save_env-Keeps b vm =
    and_then-Keeps vm _ _
      (at_branch-Keeps vm (proc_mode b == 0) _ _ refl
        (at_branch-Keeps vm (proc_mode b == 1) _ _ refl (save_normal-Keeps vm)))
      λ _. stack_check-Keeps

pub fix_pc-Keeps : Keeps fix_pc
unfolding fix_pc
fix_pc-Keeps vm = and_then-Keeps vm _ _ (load_bytes-Keeps vm.fp 2 vm) λ bs.
    branch-Keeps (number bs == normal_jump) _ _ (store_bytes-Keeps vm.fp (bytes 2 vm.pc))
      (pure-Keeps tt)

copy_shadow_frame-Keeps : Keeps copy_shadow_frame
unfolding copy_shadow_frame
copy_shadow_frame-Keeps vm =
    let size = object_size * shadow_of vm.attr in
    at_branch-Keeps vm (ltb vm.sp size || ltb (vm.sp - size) (vm.local + size)) _ _ tt (
      and_then-Keeps vm _ _ (load_bytes-Keeps (vm.sp - size) size vm)
        λ bs. bind-Keeps _ _ (store_bytes-Keeps vm.local bs) λ _ vm'. refl)

pub proc_call-Keeps : (offset : ℕ) → Keeps (proc_call offset)
unfolding proc_call
proc_call-Keeps offset vm =
    and_then-Keeps vm _ _
      (at_branch-Keeps vm (is_shadow_frame vm) _ _ (copy_shadow_frame-Keeps vm) refl) λ _ vm'. refl

pub closure_at-Keeps : (p : ℕ) → Keeps (closure_at p)
unfolding closure_at
closure_at-Keeps p vm = option-Keeps vm (vm.closures p) _ λ c. refl

pub local_ref-Keeps : (offset : ℕ) → Keeps (local_ref offset)
unfolding local_ref
local_ref-Keeps offset vm =
    at_branch-Keeps vm (vm.closure == 0) _ _ refl
      (and_then-Keeps vm _ _ (closure_at-Keeps vm.closure vm) λ c vm'. refl)

walk_frames-Keeps : (n fp : ℕ) → Keeps (walk_frames n fp)
unfolding walk_frames
walk_frames-Keeps zero fp = pure-Keeps fp
walk_frames-Keeps (suc n) fp =
    bind-Keeps _ _ (load_bytes-Keeps (fp + 2) 2) λ bs. walk_frames-Keeps n (number bs)

pub free_ref-Keeps : (up offset : ℕ) → Keeps (free_ref up offset)
unfolding free_ref
free_ref-Keeps up offset = branch-Keeps (up == 0) _ _ (local_ref-Keeps offset) λ vm.
    and_then-Keeps vm _ _ (walk_frames-Keeps (up + 1) vm.fp vm) λ fp.
      bind-Keeps _ _ (load_bytes-Keeps (fp + fps - 4) 4) λ bs.
        branch-Keeps (number bs == 0) _ _ (λ vm'. refl)
          (bind-Keeps _ _ (closure_at-Keeps (number bs)) λ c vm'. refl)

pub deref-Keeps : (r : Ref) → Keeps (deref r)
unfolding deref
deref-Keeps (Ref.on_stack a) =
    bind-Keeps _ _ (load_bytes-Keeps a object_size) λ bs. pure-Keeps (object_of bs)
deref-Keeps (Ref.in_env p i) =
    bind-Keeps _ _ (closure_at-Keeps p) λ c. some-Keeps (get_elem? c.env i) _ λ o vm. refl

pub assign-Keeps : (r : Ref) (o : Object) → Keeps (assign r o)
unfolding assign
assign-Keeps (Ref.on_stack a) o = store_bytes-Keeps a (object_bytes o)
assign-Keeps (Ref.in_env p i) o =
    bind-Keeps _ _ (closure_at-Keeps p)
      λ c vm. at_branch-Keeps vm (ltb i (length c.env)) _ _ refl tt
