-- ===== src/Bytevector/Append.antt =====
-- `_bytevector_append` (bytevector.c).
use animula.Prelude.{
  ℕ, ◌+◌, ◌%◌, ◌^◌, ◌≤◌, ◌<◌, ◌≡◌, ◌≢◌, refl, sym, ap, ap₂, ◌∙◌, ◌==◌, Option-cases, Bool-cases,
  ==_iff, if◌then◌else◌, inl, inr, none, some, List, ◌++◌, length, take, drop, replicate, arith,
  take-length, take-append, drop_all, append_nil, length-replicate, length-append, length-drop,
}
use animula.Run.{ok, panic}
use animula.Object.{OType, Object}
use animula.Bytevector.{ByteVector, Heap, store, bytevector_append}
use animula.Bytevector.Laws.{IsWellFormed, store_at, store_apart}
use animula.Bytevector.Copy.{
  made, make_bytevector-ok, IsBytevector, load-some, copy_overwrite-ok, copy_overwrite-panic,
}

-- What the block of the new bytevector holds behind the second copy.
second_copy :
    (xs ys zs : List ℕ)
    → length zs ≤ length ys
    → take (length xs) (xs ++ zs)
        ++ (take (length ys) ys ++ drop (length xs + length ys) (xs ++ zs))
      ≡ xs ++ ys
second_copy xs ys zs h = ap₂ ◌++◌ (take-append xs zs) (
    ap₂ ◌++◌ (take-length ys)
      (drop_all (length xs + length ys) (xs ++ zs) (omega (arith, length-append xs zs)))
    ∙ append_nil ys)

-- The bytevector whose size is the number of its bytes.
abbrev pub whole : List ℕ → ByteVector
whole xs = record { size = length xs; vec = xs }

-- A heap that differs at one address.
only_at :
    (h h' : Heap) (a : ℕ) (bv : ByteVector)
    → h'.at a ≡ some bv
    → ((p : ℕ) → p ≢ a → h'.at p ≡ h.at p)
    → (p : ℕ) → h'.at p ≡ (if p == a then some bv else h.at p)
only_at h h' a bv here apart p = elim (Bool-cases (p == a)) [
  | inl e ↦ rw e (ap h'.at ((==_iff p a).0 e) ∙ here)
  | inr e ↦ rw e (apart p (ground (arith, e)))
]

-- A bytevector whose size is the number of its bytes.
abbrev pub Holds : Heap → Object → List ℕ → Type 0
Holds h o xs = (h.at o.value ≡ some (whole xs)) × IsBytevector o

fresh : (h : Heap) → IsWellFormed h → h.at h.next ≡ none
fresh h w = elim (Option-cases (h.at h.next)) [
  | inl n ↦ n
  | inr (bv, e) ↦ (let below : h.next < h.next = (w h.next bv e).2 in absurd (omega arith))
]

-- The heaps in the run of `_bytevector_append` on `xs` and `ys`, behind each of its two copies.
module _ (h : Heap) (xs ys : List ℕ) where
  abbrev new_bv : Object
  new_bv = record { type = OType.mut_bytevector; gc = 1; value = h.next }

  abbrev blank : ByteVector
  blank = record {
    size = (length xs + length ys) % 2 ^ 16;
    vec = replicate (length xs + length ys) 0;
  }

  abbrev blank_rest : List ℕ
  blank_rest = drop (0 + length xs) blank.vec

  abbrev half_full : ByteVector
  half_full = record blank { vec = take 0 blank.vec ++ (take (length xs) xs ++ blank_rest) }

  abbrev full : ByteVector
  full = record blank {
    vec =
        take (length xs) half_full.vec
        ++ (take (length ys) ys ++ drop (length xs + length ys) half_full.vec);
  }

  abbrev heap₁ : Heap
  heap₁ = made h (length xs + length ys) 0

  abbrev heap₂ : Heap
  heap₂ = store heap₁ h.next half_full

  abbrev heap₃ : Heap
  heap₃ = store heap₂ h.next full

  length-blank : length blank.vec ≡ length xs + length ys
  length-blank = length-replicate (length xs + length ys) 0

  length-half_full : length half_full.vec ≡ length xs + length ys
  length-half_full =
      length-append (take (length xs) xs) blank_rest
      ∙ omega
          (arith, length-blank, ap length (take-length xs), length-drop (0 + length xs) blank.vec)

  full-append : full.vec ≡ xs ++ ys
  full-append =
      ap
        (λ l.
          take (length xs) (l ++ blank_rest)
          ++ (take (length ys) ys ++ drop (length xs + length ys) (l ++ blank_rest)))
        (take-length xs)
      ∙ second_copy xs ys blank_rest
          (omega (arith, length-blank, length-drop (0 + length xs) blank.vec))

  heap₃-new : length xs + length ys < 2 ^ 16 → heap₃.at h.next ≡ some (whole (xs ++ ys))
  heap₃-new small =
      let size : (length xs + length ys) % 2 ^ 16 ≡ length (xs ++ ys) =
        omega (arith, length-append xs ys) in
      store_at heap₂ h.next full ∙ rw (size, full-append) refl

  heap₃-others : (p : ℕ) → p ≢ h.next → heap₃.at p ≡ h.at p
  heap₃-others p ne =
      store_apart heap₂ h.next p full ne
      ∙ store_apart heap₁ h.next p half_full ne
      ∙ store_apart h h.next p blank ne

  bytevector_append-ok :
      (bv0 bv1 : Object)
      → IsWellFormed h
      → Holds h bv0 xs
      → Holds h bv1 ys
      → length xs + length ys < 2 ^ 16
      → bytevector_append h bv0 bv1 ≡ ok (new_bv, heap₃)
  unfolding bytevector_append
  bytevector_append-ok bv0 bv1 w (l0, b0) (l1, b1) small =
      let in0 : bv0.value < h.next = (w bv0.value (whole xs) l0).2 in
      let in1 : bv1.value < h.next = (w bv1.value (whole ys) l1).2 in
      let ne0 : h.next ≢ bv0.value = λ e. omega (arith, e, in0) in
      let ne1 : h.next ≢ bv1.value = λ e. omega (arith, e, in1) in
      let len = length-blank in
      let filled = length-half_full in
      let l0₁ : heap₁.at bv0.value ≡ some (whole xs) =
        store_apart h h.next bv0.value blank (λ e. ne0 (sym e)) ∙ l0 in
      let l1₂ : heap₂.at bv1.value ≡ some (whole ys) =
        store_apart heap₁ h.next bv1.value half_full (λ e. ne1 (sym e))
        ∙ store_apart h h.next bv1.value blank (λ e. ne1 (sym e))
        ∙ l1 in
      let first =
        copy_overwrite-ok heap₁ new_bv bv0 blank (whole xs) 0 (length xs) refl b0
          (store_at h h.next blank) l0₁ ne0 (omega arith) (omega arith) (omega arith) (omega arith)
          (omega arith) in
      let second =
        copy_overwrite-ok heap₂ new_bv bv1 half_full (whole ys) (length xs) (length ys) refl b1
          (store_at heap₁ h.next half_full) l1₂ ne1 (omega arith) (omega arith) (omega arith)
          (omega arith) (omega arith) in
      rw
        (
          b0,
          b1,
          load-some h bv0.value (whole xs) l0,
          load-some h bv1.value (whole ys) l1,
          make_bytevector-ok h _ (length xs + length ys) 0 (omega arith) (omega arith),
          first,
          second,
        )
        refl

-- `_bytevector_append` of two bytevectors with less than 65536 bytes together gives a new one with
-- the bytes of the first and then those of the second, and changes no other bytevector of a
-- well-formed heap.
pub append-concat :
    (h : Heap) (bv0 bv1 : Object) (xs ys : List ℕ)
    → IsWellFormed h
    → Holds h bv0 xs
    → Holds h bv1 ys
    → length xs + length ys < 2 ^ 16
    → (h' : Heap) × (o : Object) × (bytevector_append h bv0 bv1 ≡ ok (o, h'))
      × IsBytevector o
      × (h.at o.value ≡ none)
      × ((p : ℕ) → h'.at p ≡ (if p == o.value then some (whole (xs ++ ys)) else h.at p))
append-concat h bv0 bv1 xs ys w l0 l1 small = (
  heap₃ h xs ys,
  new_bv h xs ys,
  bytevector_append-ok h xs ys bv0 bv1 w l0 l1 small,
  refl,
  fresh h w,
  only_at h (heap₃ h xs ys) h.next (whole (xs ++ ys)) (heap₃-new h xs ys small)
      (heap₃-others h xs ys),
)

-- `_bytevector_append` of two bytevectors of a well-formed heap with sizes of 65536 or more
-- together ends in `PANIC`.
pub append-panic :
    (h : Heap) (bv0 bv1 : Object) (v0 v1 : ByteVector)
    → IsWellFormed h
    → IsBytevector bv0
    → IsBytevector bv1
    → h.at bv0.value ≡ some v0
    → h.at bv1.value ≡ some v1
    → 2 ^ 16 ≤ v0.size + v1.size
    → bytevector_append h bv0 bv1 ≡ panic
unfolding bytevector_append
append-panic h bv0 bv1 v0 v1 w b0 b1 l0 l1 over =
    let n = v0.size + v1.size in
    let fits0 = w bv0.value v0 l0 in
    let fits1 = w bv1.value v1 l1 in
    let new : Object = record { type = OType.mut_bytevector; gc = 1; value = h.next } in
    let d₁ : ByteVector = record { size = n % 2 ^ 16; vec = replicate n 0 } in
    let l0₁ : (made h n 0).at bv0.value ≡ some v0 =
      store_apart h h.next bv0.value d₁ (λ e. omega (arith, e, fits0.2)) ∙ l0 in
    rw
      (
        b0,
        b1,
        load-some h bv0.value v0 l0,
        load-some h bv1.value v1 l1,
        make_bytevector-ok h _ n 0 (omega arith) (omega arith),
        copy_overwrite-panic (made h n 0) new bv0 d₁ v0 0 v0.size refl b0 (store_at h h.next d₁) l0₁
            (omega arith) (omega arith) (omega arith),
      )
      refl
