-- ===== src/Vm/Prims/Fixed.antt =====
-- The primitives keep the place of the code, the segments and the number of globals.
use animula.Prelude.{ℕ, ◌||◌, ◌==◌, refl, List, [], ◌∷◌}
use animula.Run.{panic}
use animula.Object.{OType, Object, s32, word, same, bool_const, validate}
use animula.Number.Compare
use animula.Number.Rounding
use animula.Equality
use animula.Lists
use animula.Strings
use animula.Bytevector
use animula.Vm.State.{M, ◌>>=◌, ◌>>◌, lift}
use animula.Vm.Stack.{push_obj, pop_obj}
use animula.Vm.Decode.{is_init_globals}
use animula.Vm.Interp.{make_object}
use animula.Vm.Interp.Fixed.{
  Keeps, pure-Keeps, lift-Keeps, branch-Keeps, bind-Keeps, push_obj-Keeps, pop_obj-Keeps,
}
use animula.Vm.Cells.{in_locals}
use animula.Vm.Alloc.Fixed.{on_heap-Keeps, on_string-Keeps, read_heap-Keeps, on_bytevectors-Keeps}
use animula.Vm.Prims.{
  Board, ret_obj, none_ret, keep, is_arith, is_modulo, is_logic, is_pred, has_five, has_four,
  has_three, has_two, has_one, has_none, arith_prim, modulo_prim, number_test, logic_prim,
  pred_prim, prim_1, prim_2, prim_3, prim_4, prim_5, call_function,
}

panic-Keeps : Keeps {A = Object} (lift panic)
panic-Keeps vm = tt

-- The functions of the board keep them too.
abbrev pub IsKeeping : Board → Type 0
IsKeeping b = (pn : ℕ) (args : List Object) → Keeps (b.device pn args)

module _ (b : Board) (fuel : ℕ) (dev : IsKeeping b) where
  number_test-Keeps : (pn : ℕ) (x y : Object) → Keeps (number_test b fuel pn x y)
  unfolding number_test
  number_test-Keeps pn x y =
      (branch-Keeps (pn == 9) _ _ (lift-Keeps (Compare.int_eq b.floats x y)) (
        branch-Keeps (pn == 10) _ _
          (bind-Keeps _ _ (lift-Keeps (Compare.int_lt b.floats x y)) λ (g, u, v) vm. refl)
          (branch-Keeps (pn == 11) _ _
            (bind-Keeps _ _ (lift-Keeps (Compare.int_gt b.floats x y)) λ (g, u, v) vm. refl)
            (branch-Keeps (pn == 12) _ _
              (bind-Keeps _ _ (lift-Keeps (Compare.int_le b.floats x y)) λ (g, u, v) vm. refl)
              (bind-Keeps _ _ (lift-Keeps (Compare.int_ge b.floats x y)) λ (g, u, v) vm. refl)))))

  logic_prim-Keeps : (pn : ℕ) (x y : Object) → Keeps (logic_prim b fuel pn x y)
  unfolding logic_prim
  logic_prim-Keeps pn x y =
      (branch-Keeps (pn == 23) _ _
        (on_heap-Keeps (in_locals x y λ h p q. keep h (Equality.eqv b.floats h p q)))
        (branch-Keeps (pn == 24) _ _ (read_heap-Keeps (λ h. Equality.eq h x y)) (
          branch-Keeps (pn == 25) _ _
            (on_heap-Keeps (in_locals x y λ h p q. keep h (Equality.equal b.floats fuel h p q)))
            (number_test-Keeps pn x y))))

  pred_prim-Keeps : (pn : ℕ) (o : Object) → Keeps (pred_prim b fuel pn o)
  unfolding pred_prim
  pred_prim-Keeps pn o =
      (branch-Keeps (pn == 40) _ _ (read_heap-Keeps (λ h. Lists.null_p h o)) (
        branch-Keeps (pn == 41) _ _ (read_heap-Keeps (λ h. Lists.pair_p h o)) (
          branch-Keeps (pn == 55) _ _ (pure-Keeps (Lists.list_p o)) (
            branch-Keeps (pn == 56) _ _ (pure-Keeps (Strings.string_p o)) (
              branch-Keeps (pn == 57) _ _ (pure-Keeps (Strings.char_p o)) (
                branch-Keeps (pn == 58) _ _ (pure-Keeps (Strings.keyword_p o)) (
                  branch-Keeps (pn == 59) _ _ (pure-Keeps (bool_const (same o.type OType.symbol))) (
                    branch-Keeps (pn == 60) _ _ (pure-Keeps (Equality.procedure_p o)) (
                      branch-Keeps (pn == 61) _ _ (pure-Keeps (Equality.primitive_p o)) (
                        branch-Keeps (pn == 62) _ _ (pure-Keeps (Equality.boolean_p o)) (
                          branch-Keeps (pn == 63) _ _ (pure-Keeps (Equality.number_p o)) (
                            branch-Keeps (pn == 64) _ _ (pure-Keeps (Equality.integer_p b.floats o))
                              (branch-Keeps (pn == 65) _ _ (pure-Keeps (Equality.real_p o)) (
                                branch-Keeps (pn == 66) _ _ (pure-Keeps (Equality.rational_p o)) (
                                  branch-Keeps (pn == 67) _ _ (pure-Keeps (Equality.complex_p o))
                                    (pure-Keeps (Equality.bytevector_p o)))))))))))))))))

  prim_1-Keeps : (pn : ℕ) (o : Object) → Keeps (prim_1 b fuel pn o)
  unfolding prim_1
  prim_1-Keeps pn o =
      (branch-Keeps (pn == 32) _ _ (read_heap-Keeps (λ h. Lists.car h o)) (
        branch-Keeps (pn == 33) _ _
          (λ vm. on_heap-Keeps (λ h. Lists.cdr (is_init_globals vm.state) h o) vm)
          (branch-Keeps (pn == 37) _ _
            (on_heap-Keeps (λ h. Strings.list_to_string fuel h ret_obj o))
            (branch-Keeps (pn == 73) _ _
              (λ vm. lift-Keeps (Bytevector.bytevector_length vm.bytevectors ret_obj o) vm)
              (branch-Keeps (pn == 80) _ _ (lift-Keeps (Rounding.floor b.floats ret_obj o)) (
                branch-Keeps (pn == 82) _ _ (lift-Keeps (Rounding.ceiling b.floats ret_obj o)) (
                  branch-Keeps (pn == 83) _ _ (lift-Keeps (Rounding.truncate b.floats ret_obj o)) (
                    branch-Keeps (pn == 84) _ _ (lift-Keeps (Rounding.round b.floats ret_obj o)) (
                      branch-Keeps (pn == 97) _ _ (lift-Keeps (Rounding.is_zero b.floats o)) (
                        branch-Keeps (pn == 98) _ _ (lift-Keeps (Rounding.is_positive b.floats o)) (
                          branch-Keeps (pn == 99) _ _ (lift-Keeps (Rounding.is_negative b.floats o))
                            (branch-Keeps (pn == 100) _ _
                              (lift-Keeps (Rounding.is_odd b.floats ret_obj o))
                              (branch-Keeps (pn == 101) _ _
                                (lift-Keeps (Rounding.is_even b.floats ret_obj o))
                                (branch-Keeps (pn == 110) _ _
                                  (read_heap-Keeps (λ h. Strings.string_length h ret_obj o))
                                  (branch-Keeps (pn == 26 || pn == 27 || pn == 29 || pn == 106) _ _
                                    (dev pn (o ∷ [])) panic-Keeps)))))))))))))))

  prim_2-Keeps : (pn : ℕ) (x y : Object) → Keeps (prim_2 b fuel pn x y)
  unfolding prim_2
  prim_2-Keeps pn x y =
      (branch-Keeps (pn == 20) _ _ (read_heap-Keeps (λ h. Lists.list_ref fuel h x y)) (
        branch-Keeps (pn == 22) _ _
          (λ vm.
            on_heap-Keeps (λ h. Lists.list_append fuel (is_init_globals vm.state) h ret_obj x y) vm)
          (branch-Keeps (pn == 31) _ _
            (on_heap-Keeps (in_locals x y λ h p q. Lists.cons h ret_obj p q))
            (branch-Keeps (pn == 72) _ _
              (on_bytevectors-Keeps (λ h. Bytevector.make_bytevector h ret_obj x y))
              (branch-Keeps (pn == 74) _ _
                (λ vm. lift-Keeps (Bytevector.bytevector_u8_ref vm.bytevectors ret_obj x y) vm)
                (branch-Keeps (pn == 78) _ _
                  (on_bytevectors-Keeps (λ h. Bytevector.bytevector_append h x y))
                  (branch-Keeps (pn == 108) _ _
                    (on_heap-Keeps (λ h. Strings.make_string h ret_obj x y))
                    (branch-Keeps (pn == 111) _ _
                      (read_heap-Keeps (λ h. Strings.string_ref h ret_obj x y))
                      (branch-Keeps (pn == 113) _ _ (read_heap-Keeps (λ h. Strings.string_eq h x y))
                        (branch-Keeps (pn == 115) _ _
                          (on_heap-Keeps (λ h. Strings.string_append h ret_obj x y))
                          (branch-Keeps (pn == 28) _ _ (dev pn (x ∷ y ∷ [])) panic-Keeps)))))))))))

  prim_3-Keeps : (pn : ℕ) (x y z : Object) → Keeps (prim_3 b fuel pn x y z)
  unfolding prim_3
  prim_3-Keeps pn x y z =
      (branch-Keeps (pn == 75) _ _
        (on_bytevectors-Keeps (λ h. Bytevector.bytevector_u8_set h ret_obj x y z))
        (branch-Keeps (pn == 76) _ _
          (on_bytevectors-Keeps (λ h. Bytevector.bytevector_copy h ret_obj x y z))
          (branch-Keeps (pn == 112) _ _ (on_heap-Keeps (λ h. Strings.string_set h ret_obj x y z)) (
            branch-Keeps (pn == 114) _ _ (on_heap-Keeps (λ h. Strings.substring h ret_obj x y z)) (
              branch-Keeps (pn == 116) _ _
                (on_heap-Keeps (λ h. Strings.string_copy h ret_obj x y z))
                (dev pn (x ∷ y ∷ z ∷ [])))))))

  prim_4-Keeps : (pn : ℕ) (x y z u : Object) → Keeps (prim_4 b fuel pn x y z u)
  unfolding prim_4
  prim_4-Keeps pn x y z u =
      (branch-Keeps (pn == 118) _ _ (on_string-Keeps x (λ h. Strings.string_fill h ret_obj x y z u))
        (dev pn (x ∷ y ∷ z ∷ u ∷ [])))

  prim_5-Keeps : (pn : ℕ) (x y z u v : Object) → Keeps (prim_5 b fuel pn x y z u v)
  unfolding prim_5
  prim_5-Keeps pn x y z u v =
      (branch-Keeps (pn == 77) _ _
        (on_bytevectors-Keeps (λ h. Bytevector.bytevector_copy_overwrite h x y z u v))
        (on_string-Keeps x (λ h. Strings.string_copy_side_effect h ret_obj x y z u v)))

  -- Two objects popped, and the rest.
  two-Keeps :
      (f : Object → Object → M (Unit {0}))
      → ((x y : Object) → Keeps (f x y))
      → Keeps (pop_obj >>= λ y. pop_obj >>= λ x. f x y)
  two-Keeps f k =
      bind-Keeps pop_obj _ pop_obj-Keeps λ y. bind-Keeps pop_obj _ pop_obj-Keeps λ x. k x y

  pushed-Keeps : (m : M Object) → Keeps m → Keeps (m >>= push_obj)
  pushed-Keeps m k = bind-Keeps m _ k push_obj-Keeps

  modulo_case-Keeps :
      (pn : ℕ) (x y : Object)
      → Keeps (
          lift (validate y OType.imm_int)
          >> (lift (validate x OType.imm_int)
              >> (lift (modulo_prim b fuel pn (s32 x.value) (s32 y.value)) >>= λ r.
                  push_obj (make_object OType.imm_int 0 (word r)))))
  modulo_case-Keeps pn x y = bind-Keeps _ _ (lift-Keeps (validate y OType.imm_int)) λ _.
      bind-Keeps _ _ (lift-Keeps (validate x OType.imm_int)) λ _.
        bind-Keeps _ _ (lift-Keeps (modulo_prim b fuel pn (s32 x.value) (s32 y.value)))
          λ r. push_obj-Keeps (make_object OType.imm_int 0 (word r))

  pub call_function-Keeps : (pn : ℕ) → Keeps (call_function b fuel pn)
  unfolding call_function
  call_function-Keeps pn =
      branch-Keeps (is_arith pn) _ _
        (two-Keeps _ λ x y. pushed-Keeps _ (lift-Keeps (arith_prim b fuel pn none_ret x y)))
        (branch-Keeps (is_modulo pn) _ _ (two-Keeps _ (modulo_case-Keeps pn)) (
          branch-Keeps (is_logic pn) _ _
            (two-Keeps _
              λ x y. bind-Keeps _ _ (logic_prim-Keeps pn x y) λ t. push_obj-Keeps (bool_const t))
            (branch-Keeps (pn == 8) _ _
              (bind-Keeps pop_obj _ pop_obj-Keeps
                λ o. push_obj-Keeps (bool_const (Equality.not_object o)))
              (branch-Keeps (has_five pn) _ _
                (two-Keeps _ λ u v. two-Keeps _ λ y z.
                  bind-Keeps pop_obj _ pop_obj-Keeps
                    λ x. pushed-Keeps _ (prim_5-Keeps pn x y z u v))
                (branch-Keeps (has_four pn) _ _
                  (two-Keeps _ λ z u. two-Keeps _ λ x y. pushed-Keeps _ (prim_4-Keeps pn x y z u))
                  (branch-Keeps (has_three pn) _ _
                    (two-Keeps _ λ y z.
                      bind-Keeps pop_obj _ pop_obj-Keeps
                        λ x. pushed-Keeps _ (prim_3-Keeps pn x y z))
                    (branch-Keeps (has_two pn) _ _
                      (two-Keeps _ λ x y. pushed-Keeps _ (prim_2-Keeps pn x y))
                      (branch-Keeps (has_one pn) _ _
                        (bind-Keeps pop_obj _ pop_obj-Keeps λ x. pushed-Keeps _ (prim_1-Keeps pn x))
                        (branch-Keeps (has_none pn) _ _ (pushed-Keeps _ (dev pn [])) (
                          branch-Keeps (is_pred pn) _ _
                            (bind-Keeps pop_obj _ pop_obj-Keeps
                              λ x. pushed-Keeps _ (pred_prim-Keeps pn x))
                            (λ vm. tt)))))))))))
