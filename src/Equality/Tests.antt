-- ===== src/Equality/Tests.antt =====
-- The theorems on equality at a concrete heap.
use animula.Prelude.{
  ℕ, ◌≡◌, ◌≢◌, refl, true, false, Option, none, some, ◌==◌, if◌then◌else◌, List, [], ◌∷◌, arith,
}
use animula.Run.{ok}
use animula.Object.{OType, true_const}
use animula.Number.Float.{FloatOps}
use animula.Store.{Store}
use animula.Lists.Chain
use animula.Lists.Chain.{Holds}
use animula.Lists.Laws.{list_object}
use animula.Equality.{equal}
use animula.Equality.Laws.{equal-lists}

-- The comparisons below use no float.
abbrev ops : FloatOps
ops = record {
  of_int = λ n. 0;
  to_int = λ a. animula.Prelude.Int.pos a;
  add = λ a b. a;
  mul = λ a b. a;
  div = λ a b. a;
  neg = λ a. a;
  eq = λ a b. a == b;
  gt = λ a b. false;
  floor = λ a. a;
  ceil = λ a. a;
  round = λ a. a;
}

-- At 10 the list (7), at 11 the list (7 7), at 12 and 13 the true constant.
abbrev heap : Store
heap = record {
  next = 20;
  objects = λ p.
      if p == 10
      then some (list_object 0 4)
      else if p == 11
      then some (list_object 0 5)
      else if p == 12
      then some true_const
      else if p == 13
      then some true_const
      else if p == 14
      then some (record { type = OType.imm_int; gc = 0; value = 7 })
      else none;
  nodes = λ p.
      if p == 1
      then some (record { next = 0; obj = 14 })
      else if p == 2
      then some (record { next = 3; obj = 14 })
      else if p == 3
      then some (record { next = 0; obj = 14 })
      else none;
  lists = λ p.
      if p == 4
      then some (record { gc = 1; non_shared = 0; first = 1 })
      else if p == 5
      then some (record { gc = 1; non_shared = 0; first = 2 })
      else none;
  pairs = λ p. none;
  strings = λ p. none;
}

one-Holds : Holds heap 4 ((1, 14) ∷ [])
one-Holds = record {
  head = record { gc = 1; non_shared = 0; first = 1 };
  at = refl;
  first = refl;
  chain = Chain.cons (λ e. omega (arith, e)) refl Chain.nil;
}

two-Holds : Holds heap 5 ((2, 14) ∷ (3, 14) ∷ [])
two-Holds = record {
  head = record { gc = 1; non_shared = 0; first = 2 };
  at = refl;
  first = refl;
  chain =
      Chain.cons (λ e. omega (arith, e)) refl (Chain.cons (λ e. omega (arith, e)) refl Chain.nil);
}

-- `(equal? '(7) '(7 7))` is true.
equal-lists_example : equal ops 4 heap 10 11 ≡ ok true
equal-lists_example =
    equal-lists ops 3 heap 10 11 0 0 4 5 ((1, 14) ∷ []) ((2, 14) ∷ (3, 14) ∷ []) (7 ∷ [])
      (7 ∷ 7 ∷ []) refl refl refl one-Holds two-Holds ((0, refl), tt) ((0, refl), ((0, refl), tt))
      (omega arith)
