-- ===== src/Strings/Tests.antt =====
-- The theorems on strings at a concrete heap.
use animula.Prelude.{
  ℕ, ◌≡◌, ◌↔◌, refl, Bool, true, none, some, ◌==◌, if◌then◌else◌, List, [], ◌∷◌, arith,
}
use animula.Prelude.Int.{pos}
use animula.Run.{ok}
use animula.Object.{OType, Object, imm, bool_const, none_const}
use animula.Store.{Store}
use animula.Lists.Chain
use animula.Lists.Chain.{Holds}
use animula.Strings.{string_eq, string_append, string_copy_side_effect}
use animula.Strings.Laws.{Text, Makes, string_eq-decides, string_append-refines}
use animula.Strings.Update.{string_copy-splice}

-- The strings "abc" at 4 and "xyz" at 5, and at 6 the list of the character at 10.
abbrev heap : Store
heap = record {
  next = 20;
  objects =
      λ p. if p == 10 then some (record { type = OType.character; gc = 0; value = 97 }) else none;
  nodes = λ p. if p == 1 then some (record { next = 0; obj = 10 }) else none;
  lists = λ p. if p == 6 then some (record { gc = 1; non_shared = 0; first = 1 }) else none;
  pairs = λ p. none;
  strings = λ p.
      if p == 4
      then some (97 ∷ 98 ∷ 99 ∷ 0 ∷ [])
      else if p == 5
      then some (120 ∷ 121 ∷ 122 ∷ 0 ∷ [])
      else none;
}

abbrev string : ℕ → Object
string p = record { type = OType.mut_string; gc = 1; value = p }

abbrev char : ℕ → Object
char c = record { type = OType.character; gc = 0; value = c }

abbrev ret : Object
ret = none_const

abc-Text : Text heap 4 (97 ∷ 98 ∷ 99 ∷ [])
abc-Text = record {
  rest = [];
  at = refl;
  no_zero = (λ e. omega (arith, e), (λ e. omega (arith, e), (λ e. omega (arith, e), tt)));
  short = omega arith;
}

xyz-Text : Text heap 5 (120 ∷ 121 ∷ 122 ∷ [])
xyz-Text = record {
  rest = [];
  at = refl;
  no_zero = (λ e. omega (arith, e), (λ e. omega (arith, e), (λ e. omega (arith, e), tt)));
  short = omega arith;
}

string_eq-decides_example :
    (b : Bool) × (string_eq heap (string 4) (string 5) ≡ ok (bool_const b))
    × ((b ≡ true) ↔ (◌≡◌ {A = List ℕ} (97 ∷ 98 ∷ 99 ∷ []) (120 ∷ 121 ∷ 122 ∷ [])))
string_eq-decides_example =
    string_eq-decides heap (string 4) (string 5) (97 ∷ 98 ∷ 99 ∷ []) (120 ∷ 121 ∷ 122 ∷ []) refl
      refl abc-Text xyz-Text

string_append-refines_example :
    Makes heap (string_append heap ret (string 4) (string 5)) (97 ∷ 98 ∷ 99 ∷ 120 ∷ 121 ∷ 122 ∷ [])
string_append-refines_example =
    string_append-refines heap ret (string 4) (string 5) (97 ∷ 98 ∷ 99 ∷ []) (120 ∷ 121 ∷ 122 ∷ [])
      refl refl abc-Text xyz-Text (omega arith)

string_copy-splice_example :
    (r : Object) × (s' : Store) × (string_copy_side_effect heap ret
        (string 4)
        (imm (pos 0))
        (string 5)
        (imm (pos 1))
        (imm (pos 3))
      ≡ ok (r, s'))
    × Text s' 4 (121 ∷ 122 ∷ 99 ∷ [])
string_copy-splice_example =
    string_copy-splice heap ret (string 4) (imm (pos 0)) (string 5) (imm (pos 1)) (imm (pos 3))
      (97 ∷ 98 ∷ 99 ∷ []) (120 ∷ 121 ∷ 122 ∷ []) refl refl refl refl refl abc-Text xyz-Text
      (λ e. omega (arith, e)) (omega arith) (omega arith) (omega arith) (omega arith)

list-Holds : Holds heap 6 ((1, 10) ∷ [])
list-Holds = record {
  head = record { gc = 1; non_shared = 0; first = 1 };
  at = refl;
  first = refl;
  chain = Chain.cons (λ e. omega (arith, e)) refl Chain.nil;
}
