-- ===== src/Bytevector/Tests.antt =====
-- The theorems on bytevectors at a concrete heap.
use animula.Prelude.{
  ℕ, ◌≡◌, ◌<◌, ◌≤◌, ◌^◌, ◌⊎◌, refl, none, some, ◌==◌, if◌then◌else◌, List, [], ◌∷◌, length,
  replicate, arith, length-replicate,
}
use animula.Prelude.Int.{pos, ◌-ℤ◌}
use animula.Run.{ok, panic}
use animula.Object.{OType, Object, imm}
use animula.Bytevector.{
  ByteVector, Heap, store, bytevector_u8_set, bytevector_u8_ref, bytevector_append,
}
use animula.Bytevector.Laws.{IsWellFormed, store-IsWellFormed, u8_set-Stores}
use animula.Bytevector.Copy.{IsBytevector}
use animula.Bytevector.Append.{whole, append-concat, append-panic}

abbrev block : List ℕ → ByteVector
block xs = record { size = length xs; vec = xs }

abbrev empty : Heap
empty = record { next = 6; at = λ _. none }

-- Two bytevectors, at the addresses 4 and 5.
abbrev heap : Heap
heap = store (store empty 5 (block (7 ∷ 8 ∷ []))) 4 (block (1 ∷ 2 ∷ 3 ∷ []))

abbrev bv : ℕ → Object
bv p = record { type = OType.mut_bytevector; gc = 1; value = p }

abbrev ret : Object
ret = record { type = OType.none; gc = 0; value = 0 }

empty-IsWellFormed : IsWellFormed empty
empty-IsWellFormed p b at = ground arith

heap-IsWellFormed : IsWellFormed heap
heap-IsWellFormed =
    store-IsWellFormed _ 4 (block (1 ∷ 2 ∷ 3 ∷ []))
      (store-IsWellFormed empty 5 (block (7 ∷ 8 ∷ [])) empty-IsWellFormed (omega arith)
        (omega arith) (omega arith))
      (omega arith) (omega arith) (omega arith)

abbrev written : Heap
written = store heap 4 (block (1 ∷ 9 ∷ 3 ∷ []))

set_run :
    bytevector_u8_set heap ret (bv 4) (imm (pos 1)) (imm (pos 9))
    ≡ ok (record ret { type = OType.imm_int; gc = 1; value = 9 }, written)
unfolding bytevector_u8_set ◌-ℤ◌
set_run = refl

u8_set-Stores_example :
    ((1 < 3)
      × (9 < 2 ^ 8)
      × (bytevector_u8_set heap ret (bv 4) (imm (pos 1)) (imm (pos 9))
          ≡ ok (record ret { type = OType.imm_int; gc = 1; value = 9 }, written))
      × IsWellFormed written
      × (bytevector_u8_ref written ret (bv 4) (imm (pos 1))
          ≡ ok (record ret { type = OType.imm_int; gc = 1; value = 9 })))
    ⊎ (((3 ≤ 1) ⊎ (2 ^ 8 ≤ 9))
        × (bytevector_u8_set heap ret (bv 4) (imm (pos 1)) (imm (pos 9)) ≡ panic))
u8_set-Stores_example =
    u8_set-Stores heap ret (bv 4) (imm (pos 1)) (imm (pos 9)) (block (1 ∷ 2 ∷ 3 ∷ []))
      heap-IsWellFormed refl refl refl refl (omega arith) (omega arith)

append-concat_example :
    (h' : Heap) × (o : Object) × (bytevector_append heap (bv 4) (bv 5) ≡ ok (o, h'))
    × IsBytevector o
    × (heap.at o.value ≡ none)
    × ((p : ℕ)
        → h'.at p ≡ (if p == o.value then some (whole (1 ∷ 2 ∷ 3 ∷ 7 ∷ 8 ∷ [])) else heap.at p))
append-concat_example =
    append-concat heap (bv 4) (bv 5) (1 ∷ 2 ∷ 3 ∷ []) (7 ∷ 8 ∷ []) heap-IsWellFormed (refl, refl)
      (refl, refl) (omega arith)

-- Two bytevectors of 40000 bytes.
abbrev large_block : ByteVector
large_block = record { size = 40000; vec = replicate 40000 0 }

abbrev large : Heap
large = store empty 0 large_block

large-IsWellFormed : IsWellFormed large
large-IsWellFormed =
    store-IsWellFormed empty 0 large_block empty-IsWellFormed
      (omega (arith, length-replicate {A = ℕ} 40000 0)) (omega arith) (omega arith)

append-panic_example : bytevector_append large (bv 0) (bv 0) ≡ panic
append-panic_example =
    append-panic large (bv 0) (bv 0) large_block large_block large-IsWellFormed refl refl refl refl
      (omega arith)
