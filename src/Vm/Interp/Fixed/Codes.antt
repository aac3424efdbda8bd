-- ===== src/Vm/Interp/Fixed/Codes.antt =====
-- The byte codes keep the place of the code, the segments and the number of globals.
use animula.Prelude.{
  ℕ, zero, suc, ◌+◌, ◌-◌, ◌*◌, ◌/◌, ◌%◌, ◌≡◌, refl, ◌∙◌, ◌||◌, ltb, ◌==◌, List, [], ◌∷◌, length,
  get_elem?, length-set, ap,
}
use mathlib.Core.Path.{subst}
use animula.Run.{ok, panic, fault}
use animula.Object.{OType, Object, same, none_const, true_const, false_const}
use animula.Vm.Memory.{type_of}
use animula.Vm.State.{Vm, M, ◌>>=◌, ◌>>◌, lift, shadow_of}
use animula.Vm.Stack.{object_size, push_obj, pop_obj}
use animula.Vm.Frame.{Ref, is_shadow_frame, closure_at, local_ref, deref, assign, fix_pc}
use animula.Vm.Decode.{
  fetch_next_bytecode, vm_get_u16, bc_type, bc_data, Encode, pre_fetch, operands, decode,
}
use animula.Vm.Interp.{
  Services, u8, free_up, free_offset, global_ref, global_assign, pop_env, create_closure,
  call_closure_on_heap, need_vargs, is_false, call, interp_single_encode, interp_double_encode,
  interp_triple_encode, interp_quadruple_encode, generate_object, interp_special, interp, dispatch,
  round,
}
use animula.Vm.Interp.Reach
use animula.Vm.Interp.Reach.{Reaches}
use animula.Vm.Interp.Fixed.{
  Fixed, Keeps, KeepsRun, pure-Keeps, lift-Keeps, at_branch-Keeps, branch-Keeps, some-Keeps,
  and_then-Keeps, bind-Keeps, load_bytes-Keeps, store_bytes-Keeps, fetch-Keeps, push_obj-Keeps,
  pop_obj-Keeps, get_u16-Keeps, get_uintptr-Keeps,
}
use animula.Vm.Interp.Fixed.Frames.{
  save_env-Keeps, fix_pc-Keeps, proc_call-Keeps, closure_at-Keeps, local_ref-Keeps, free_ref-Keeps,
  deref-Keeps, assign-Keeps,
}

panic-Keeps : Keeps {A = Unit {0}} (lift panic)
panic-Keeps vm = tt

fault-Keeps : Keeps {A = Unit {0}} (lift fault)
fault-Keeps vm = tt

global_ref-Keeps : (i : ℕ) → Keeps (global_ref i)
unfolding global_ref
global_ref-Keeps i vm = some-Keeps (get_elem? vm.globals i) _ (λ o vm'. refl) vm

global_assign-Keeps : (i : ℕ) (o : Object) → Keeps (global_assign i o)
unfolding global_assign
global_assign-Keeps i o vm =
    at_branch-Keeps vm (ltb i (length vm.globals)) _ _
      (ap (λ n. (length vm.code, vm.code_at, vm.stkseg_size, vm.codeseg_size, vm.globalseg_size, n))
        (length-set vm.globals i (record o { gc = 3 })))
      tt

pop_env-Keeps : (n : ℕ) (env : List Object) → Keeps (pop_env n env)
unfolding pop_env
pop_env-Keeps zero env = pure-Keeps env
pop_env-Keeps (suc n) env = bind-Keeps pop_obj _ pop_obj-Keeps λ o. pop_env-Keeps n (o ∷ env)

create_closure-Keeps : (p arity size entry : ℕ) → Keeps (create_closure p arity size entry)
unfolding create_closure
create_closure-Keeps p arity size entry =
    bind-Keeps (pop_env size []) _ (pop_env-Keeps size []) λ env vm. refl

pub call_closure-Keeps : (o : Object) → Keeps (call_closure_on_heap o)
unfolding call_closure_on_heap
call_closure-Keeps o = bind-Keeps (closure_at o.value) _ (closure_at-Keeps o.value) λ c vm.
    let size = object_size * shadow_of vm.attr in
    and_then-Keeps vm _ _
      (at_branch-Keeps vm (is_shadow_frame vm) _ _
        (at_branch-Keeps vm (ltb vm.sp size || ltb (vm.sp - size) (vm.local + size)) _ _ tt (
          and_then-Keeps vm _ _ (load_bytes-Keeps (vm.sp - size) size vm)
            λ bs. bind-Keeps _ _ (store_bytes-Keeps vm.local bs) λ _ vm'. refl))
        refl)
      λ _ vm'. refl

-- The services keep them too.
pub record IsFixing (s : Services) : Type 0 where
  pub call_prim : (n : ℕ) → Keeps (s.call_prim n)
  pub handle_optional_args : (o : Object) → Keeps (s.handle_optional_args o)
  pub allocate : (o : Object) → Keeps (s.allocate o)
  pub symbol_at : (n : ℕ) → Keeps (s.symbol_at n)
  pub malloc : Keeps s.malloc

module _ (s : Services) (is : IsFixing s) where
  call-Keeps : (m : M Object) → Keeps m → Keeps (call s m)
  unfolding call
  call-Keeps m k = bind-Keeps m _ k λ p.
      bind-Keeps _ _ (branch-Keeps (need_vargs p) _ _ (is.handle_optional_args p) (pure-Keeps tt))
        λ _. bind-Keeps fix_pc _ fix_pc-Keeps λ _. bind-Keeps m _ k λ o.
          branch-Keeps (same o.type OType.procedure) _ _ (proc_call-Keeps _) (
            branch-Keeps (same o.type OType.primitive) _ _ (is.call_prim o.value) (
              branch-Keeps (same o.type OType.closure_on_heap) _ _ (call_closure-Keeps o)
                panic-Keeps))

  push_local-Keeps : (i : ℕ) → Keeps (local_ref i >>= λ r. deref r >>= push_obj)
  push_local-Keeps i =
      bind-Keeps (local_ref i) _ (local_ref-Keeps i)
        λ r. bind-Keeps (deref r) _ (deref-Keeps r) push_obj-Keeps

  call_local-Keeps : (i : ℕ) → Keeps (local_ref i >>= λ r. call s (deref r))
  call_local-Keeps i =
      bind-Keeps (local_ref i) _ (local_ref-Keeps i) λ r. call-Keeps (deref r) (deref-Keeps r)

  pop_assign-Keeps : (r : Ref) → Keeps (pop_obj >>= λ o. assign r o)
  pop_assign-Keeps r = bind-Keeps pop_obj _ pop_obj-Keeps (assign-Keeps r)

  single-Keeps : (b : ℕ) → Keeps (interp_single_encode s b)
  unfolding interp_single_encode
  single-Keeps b = branch-Keeps (bc_type b == 0) _ _ (push_local-Keeps (bc_data b)) (
      branch-Keeps (bc_type b == 1) _ _ (push_local-Keeps (bc_data b + 16)) (
        branch-Keeps (bc_type b == 2) _ _
          (bind-Keeps fetch_next_bytecode _ fetch-Keeps λ frame.
            bind-Keeps _ _ (free_ref-Keeps (free_up frame) (free_offset b frame))
              λ r. bind-Keeps (deref r) _ (deref-Keeps r) push_obj-Keeps)
          (branch-Keeps (bc_type b == 3) _ _
            (bind-Keeps fetch_next_bytecode _ fetch-Keeps λ frame.
              bind-Keeps _ _ (free_ref-Keeps (free_up frame) (free_offset b frame))
                λ r. call-Keeps (deref r) (deref-Keeps r))
            (branch-Keeps (bc_type b == 4) _ _ (call_local-Keeps (bc_data b)) (
              branch-Keeps (bc_type b == 5) _ _ (call_local-Keeps (bc_data b + 16)) (
                branch-Keeps (bc_type b == 6) _ _
                  (bind-Keeps fetch_next_bytecode _ fetch-Keeps λ frame.
                    bind-Keeps _ _ (free_ref-Keeps (free_up frame) (free_offset b frame))
                      pop_assign-Keeps)
                  (branch-Keeps (bc_type b == 7) _ _
                    (bind-Keeps fetch_next_bytecode _ fetch-Keeps λ offset_0.
                      bind-Keeps _ _ (local_ref-Keeps (u8 (bc_data b * 256 + offset_0)))
                        pop_assign-Keeps)
                    panic-Keeps)))))))

  global_store-Keeps :
      (i : ℕ) → Keeps (pop_obj >>= λ var. global_assign i var >> push_obj none_const)
  global_store-Keeps i = bind-Keeps pop_obj _ pop_obj-Keeps λ var.
      bind-Keeps (global_assign i var) _ (global_assign-Keeps i var) λ _. push_obj-Keeps none_const

  double-Keeps : (b b₂ : ℕ) → Keeps (interp_double_encode s b b₂)
  unfolding interp_double_encode
  double-Keeps b b₂ = branch-Keeps (bc_data b == 0) _ _ (save_env-Keeps b₂) (
      branch-Keeps (bc_data b == 1) _ _ (push_local-Keeps (u8 (b₂ + 32))) (
        branch-Keeps (bc_data b == 2) _ _ (call_local-Keeps (u8 (b₂ + 32))) (
          branch-Keeps (bc_data b == 3) _ _ (global_store-Keeps b₂) (
            branch-Keeps (bc_data b == 4) _ _
              (bind-Keeps (global_ref b₂) _ (global_ref-Keeps b₂) push_obj-Keeps)
              (branch-Keeps (bc_data b == 5) _ _ (call-Keeps (global_ref b₂) (global_ref-Keeps b₂))
                panic-Keeps)))))

  triple-Keeps : (b b₂ b₃ : ℕ) → Keeps (interp_triple_encode s b b₂ b₃)
  unfolding interp_triple_encode
  triple-Keeps b b₂ b₃ =
      branch-Keeps (bc_data b == 0) _ _
        (bind-Keeps fix_pc _ fix_pc-Keeps λ _. proc_call-Keeps (b₂ * 256 + b₃))
        (branch-Keeps (bc_data b == 1) _ _
          (bind-Keeps pop_obj _ pop_obj-Keeps
            λ obj vm. at_branch-Keeps vm (is_false obj) _ _ refl refl)
          (branch-Keeps (bc_data b == 2) _ _ (λ vm. refl)
            (branch-Keeps (bc_data b == 4) _ _
              (bind-Keeps fetch_next_bytecode _ fetch-Keeps λ i. global_store-Keeps (i + 256))
              (branch-Keeps (bc_data b == 5) _ _
                (bind-Keeps fetch_next_bytecode _ fetch-Keeps λ i.
                  bind-Keeps (global_ref (i + 256)) _ (global_ref-Keeps (i + 256)) push_obj-Keeps)
                (branch-Keeps (bc_data b == 6) _ _
                  (bind-Keeps fetch_next_bytecode _ fetch-Keeps
                    λ i. call-Keeps (global_ref (i + 256)) (global_ref-Keeps (i + 256)))
                  panic-Keeps)))))

  quadruple-Keeps : (b b₂ b₃ b₄ : ℕ) → Keeps (interp_quadruple_encode s b b₂ b₃ b₄)
  unfolding interp_quadruple_encode
  quadruple-Keeps b b₂ b₃ b₄ =
      branch-Keeps (bc_data b == 1) _ _
        (bind-Keeps s.malloc _ is.malloc λ heap.
          bind-Keeps _ _ (create_closure-Keeps heap (b₂ / 16 % 16) (b₂ % 16) (b₃ * 256 + b₄))
            λ _. push_obj-Keeps _)
        (branch-Keeps (bc_data b == 2) _ _ (λ vm. push_obj-Keeps _ vm) panic-Keeps)

  generate-Keeps : Keeps (generate_object s)
  unfolding generate_object
  generate-Keeps = bind-Keeps fetch_next_bytecode _ fetch-Keeps λ t vm.
      let type = type_of (t % 64) in
      at_branch-Keeps vm
        (same type OType.imm_int || same type OType.real || same type OType.primitive) _ _
        (and_then-Keeps vm _ _ (get_uintptr-Keeps vm) λ v vm'. refl)
        (at_branch-Keeps vm (same type OType.procedure) _ _
          (and_then-Keeps vm _ _ (get_u16-Keeps vm) λ offset.
            bind-Keeps fetch_next_bytecode _ fetch-Keeps
              λ arity. bind-Keeps fetch_next_bytecode _ fetch-Keeps λ opt vm'. refl)
          (at_branch-Keeps vm (same type OType.rational_pos || same type OType.rational_neg) _ _
            (and_then-Keeps vm _ _ (get_u16-Keeps vm)
              λ n. bind-Keeps vm_get_u16 _ get_u16-Keeps λ d vm'. refl)
            (is.allocate _ vm)))

  special-Keeps : (b : ℕ) → Keeps (interp_special s b)
  unfolding interp_special
  special-Keeps b = branch-Keeps (bc_type b == 12) _ _ (is.call_prim (bc_data b)) (
      branch-Keeps (bc_type b == 13) _ _
        (bind-Keeps fetch_next_bytecode _ fetch-Keeps λ low. is.call_prim _)
        (branch-Keeps (bc_type b == 14) _ _
          (branch-Keeps (bc_data b == 0) _ _ (push_obj-Keeps false_const) (
            branch-Keeps (bc_data b == 1) _ _ (push_obj-Keeps true_const) (
              branch-Keeps (bc_data b == 2) _ _
                (bind-Keeps (generate_object s) _ generate-Keeps push_obj-Keeps)
                (branch-Keeps (bc_data b == 3) _ _
                  (λ vm. and_then-Keeps vm _ _ (fetch-Keeps vm) λ ch. push_obj-Keeps _)
                  (branch-Keeps (bc_data b == 6) _ _
                    (λ vm. and_then-Keeps vm _ _ (get_u16-Keeps vm) λ offset.
                      bind-Keeps (s.symbol_at offset) _ (is.symbol_at offset) λ p. push_obj-Keeps _)
                    (pure-Keeps tt))))))
          (branch-Keeps (bc_type b == 15) _ _
            (branch-Keeps (bc_data b == 15) _ _ (λ vm. refl) (pure-Keeps tt)) panic-Keeps)))

  interp-Keeps : (e : Encode) (b : ℕ) (bs : List ℕ) → Keeps (interp s e b bs)
  unfolding interp
  interp-Keeps Encode.single b bs = single-Keeps b
  interp-Keeps Encode.double b [] = fault-Keeps
  interp-Keeps Encode.double b (b₂ ∷ bs) = double-Keeps b b₂
  interp-Keeps Encode.triple b [] = fault-Keeps
  interp-Keeps Encode.triple b (b₂ ∷ []) = fault-Keeps
  interp-Keeps Encode.triple b (b₂ ∷ b₃ ∷ bs) = triple-Keeps b b₂ b₃
  interp-Keeps Encode.quadruple b [] = fault-Keeps
  interp-Keeps Encode.quadruple b (b₂ ∷ []) = fault-Keeps
  interp-Keeps Encode.quadruple b (b₂ ∷ b₃ ∷ []) = fault-Keeps
  interp-Keeps Encode.quadruple b (b₂ ∷ b₃ ∷ b₄ ∷ bs) = quadruple-Keeps b b₂ b₃ b₄
  interp-Keeps Encode.special b bs = special-Keeps b

  operands-Keeps : (e : Encode) → Keeps (operands e)
  unfolding operands
  operands-Keeps Encode.single = λ vm. refl
  operands-Keeps Encode.double = bind-Keeps fetch_next_bytecode _ fetch-Keeps λ b₂ vm. refl
  operands-Keeps Encode.triple =
      bind-Keeps fetch_next_bytecode _ fetch-Keeps
        λ b₂. bind-Keeps fetch_next_bytecode _ fetch-Keeps λ b₃ vm. refl
  operands-Keeps Encode.quadruple = bind-Keeps fetch_next_bytecode _ fetch-Keeps λ b₂.
      bind-Keeps fetch_next_bytecode _ fetch-Keeps
        λ b₃. bind-Keeps fetch_next_bytecode _ fetch-Keeps λ b₄ vm. refl
  operands-Keeps Encode.special = λ vm. refl

  pub dispatch-Keeps : (b : ℕ) → Keeps (dispatch s b)
  unfolding dispatch decode
  dispatch-Keeps b =
      bind-Keeps (decode b) _
        (bind-Keeps (lift (pre_fetch b)) _ (lift-Keeps (pre_fetch b))
          λ e. bind-Keeps (operands e) _ (operands-Keeps e) λ bs vm. refl)
        λ (e, bs). interp-Keeps e b bs

  round-Keeps : Keeps (round s)
  unfolding round
  round-Keeps = bind-Keeps fetch_next_bytecode _ fetch-Keeps dispatch-Keeps

  round-Fixed : (vm next : Vm) → round s vm ≡ ok (tt, next) → Fixed vm next
  round-Fixed vm next h = subst (λ r. KeepsRun vm r) h (round-Keeps vm)

-- If the services keep them, no run of the machine changes its code, the sizes of its segments or
-- the number of its globals.
pub Reaches-Fixed : (s : Services) (last vm : Vm) → IsFixing s → Reaches s last vm → Fixed vm last
Reaches-Fixed s last vm is Reach.here = refl
Reaches-Fixed s last vm is (Reach.step {next} running once rest) =
    Reaches-Fixed s last next is rest ∙ round-Fixed s is vm next once
