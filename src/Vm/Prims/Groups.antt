-- ===== src/Vm/Prims/Groups.antt =====
-- vm.c: which primitives the cases of `call_prim` take.
use animula.Prelude.{ℕ, Bool, ◌&&◌, ◌||◌, ◌==◌, leb}

-- The groups of the `switch` of `call_prim`.
abbrev pub is_arith : ℕ → Bool
is_arith pn = leb 2 pn && leb pn 5

abbrev pub is_modulo : ℕ → Bool
is_modulo pn = pn == 16 || pn == 17

abbrev pub is_logic : ℕ → Bool
is_logic pn = leb 9 pn && leb pn 13 || leb 23 pn && leb pn 25

abbrev pub is_pred : ℕ → Bool
is_pred pn = pn == 40 || pn == 41 || leb 55 pn && leb pn 67 || pn == 71

abbrev pub has_five : ℕ → Bool
has_five pn = pn == 77 || pn == 117

abbrev pub has_four : ℕ → Bool
has_four pn = pn == 39 || pn == 42 || pn == 118

abbrev pub has_three : ℕ → Bool
has_three pn =
    pn == 43
    || pn == 70
    || pn == 44
    || pn == 38
    || pn == 75
    || pn == 76
    || pn == 79
    || pn == 112
    || pn == 114
    || pn == 116

abbrev pub has_two : ℕ → Bool
has_two pn =
    pn == 22
    || pn == 20
    || pn == 31
    || pn == 28
    || pn == 72
    || pn == 74
    || pn == 78
    || pn == 81
    || leb 86 pn && leb pn 90
    || pn == 105
    || pn == 108
    || pn == 111
    || pn == 113
    || pn == 115

abbrev pub has_one : ℕ → Bool
has_one pn =
    pn == 26
    || pn == 27
    || pn == 29
    || pn == 106
    || pn == 37
    || pn == 32
    || pn == 33
    || pn == 73
    || pn == 80
    || leb 82 pn && leb pn 85
    || leb 91 pn && leb pn 104
    || pn == 110

abbrev pub has_none : ℕ → Bool
has_none pn = pn == 30 || pn == 34 || pn == 36 || pn == 107
