-- ===== src/Vm/Prims/Cons.antt =====
-- `_cons` as `call_prim` calls it, on two variables of its own.
use animula.Prelude.{
  ℕ, ◌+◌, ◌≡◌, refl, false, ◌==◌, ◌||◌, if◌then◌else◌, Option, none, some, arith, ◌∙◌,
}
use animula.Run.{ok, fault}
use animula.Object.{OType, Object, same}
use animula.Store.{Pair, Store, put, fetch-some, fetch-none, put_same, put_other}
use animula.Lists.{car, cons, off_stack}
use animula.Vm.Cells.{in_locals}
use animula.Vm.Prims.{ret_obj}

off_stack-kept :
    (s : Store) (p : ℕ) (o : Object) → s.objects p ≡ some o → o.gc ≡ 0 → off_stack s p ≡ ok (p, s)
unfolding off_stack
off_stack-kept s p o at e = rw (fetch-some s.objects p o at, e) refl

module _ (s : Store) (x y : Object) where
  -- The heap while the variables are there.
  abbrev during : ℕ → Option Object
  during = put (put s.objects s.next x) (s.next + 1) y

  during-first : during s.next ≡ some x
  during-first =
      put_other (put s.objects s.next x) (s.next + 1) s.next y (λ z. omega (arith, z))
      ∙ put_same s.objects s.next x

  during-second : during (s.next + 1) ≡ some y
  during-second = put_same (put s.objects s.next x) (s.next + 1) y

  -- Where the objects have the generation 0, as the results of arithmetic and the literals of a program
  -- have, and the second one is not the empty list, `cons` as a primitive makes a pair of the addresses
  -- of two variables of `call_prim`, which end with it: `car` of the pair reads what is no object.
  pub cons-dangles :
      x.gc ≡ 0
      → y.gc ≡ 0
      → same y.type OType.null_obj ≡ false
      → (l : Object) × (s' : Store) × (in_locals x y (λ h p q. cons h ret_obj p q) s ≡ ok (l, s'))
        × (car s' l ≡ fault)
  unfolding in_locals cons car
  cons-dangles gx gy pair =
      let p : Pair = record { car = s.next; cdr = s.next + 1 } in
      let pairs = put s.pairs (s.next + 2) (record { car = 0; cdr = 0 }) in
      let gone : ℕ → Option Object =
        λ q. if q == s.next || q == s.next + 1 then none else during q in
      let lost : gone s.next ≡ none = ground arith in
      (
        record { type = OType.pair; gc = 1; value = s.next + 2 },
        record s { next = s.next + 2 + 1; objects = gone; pairs = put pairs (s.next + 2) p },
        rw
            (
              fetch-some during (s.next + 1) y during-second,
              pair,
              off_stack-kept (record s { next = s.next + 2 + 1; objects = during; pairs = pairs })
                  s.next x during-first gx,
              off_stack-kept (record s { next = s.next + 2 + 1; objects = during; pairs = pairs })
                  (s.next + 1) y during-second gy,
            )
            refl,
        rw
            (
              fetch-some (put pairs (s.next + 2) p) (s.next + 2) p (put_same pairs (s.next + 2) p),
              fetch-none gone s.next lost,
            )
            refl,
      )
