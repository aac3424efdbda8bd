-- ===== src/Bytevector/Laws.antt =====
-- The bytevector primitives of bytevector.c.
use animula.Prelude.{
  ℕ, ◌^◌, ◌≤◌, ◌<◌, ◌≡◌, ◌≢◌, ◌⊎◌, refl, sym, ap, ◌∙◌, true, ◌==◌, ◌&&◌, ltb, none, some, length,
  get_elem?, set, arith, inl, inr, Option-cases, get_elem?-none, get_elem?-set_self,
  get_elem?-set_ne, length-set, Bool-cases, ==_iff,
}
use animula.Prelude.Int.{◌-ℤ◌}
use animula.Run.{ok, fault, panic}
use animula.Object.{OType, Object, same}
use animula.Bytevector.{ByteVector, Heap, store, bytevector_u8_ref, bytevector_u8_set}

-- Every bytevector of the heap has at least as many bytes as its size says, and stands below the
-- next address.
abbrev pub IsWellFormed : Heap → Type 0
IsWellFormed h =
    (p : ℕ) (bv : ByteVector)
    → h.at p ≡ some bv
    → (bv.size ≤ length bv.vec) × (bv.size < 2 ^ 16) × (p < h.next)

-- The conditions under which `_bytevector_u8_set` of `datum` at `index` of `p` returns.
record IsStored (h h' : Heap) (bv index datum : Object) (p : ByteVector) : Type 0 where
  loaded : h.at bv.value ≡ some p
  is_bytevector : same OType.mut_bytevector bv.type ≡ true
  is_int : same OType.imm_int index.type ≡ true
  small : index.value < 2 ^ 31
  in_size : index.value < p.size
  in_vec : index.value < length p.vec
  is_byte : datum.value < 2 ^ 8
  stored : h' ≡ store h bv.value (record p { vec = set p.vec index.value datum.value })

u8_set-IsStored :
    (h h' : Heap) (ret bv index datum r : Object)
    → bytevector_u8_set h ret bv index datum ≡ ok (r, h')
    → (p : ByteVector) × IsStored h h' bv index datum p
unfolding bytevector_u8_set ◌-ℤ◌
u8_set-IsStored h h' ret bv index datum r e = elim (Option-cases (h.at bv.value)) [
  | inl n ↦ ground (arith, n, e)
  | inr (p, l) ↦ (
    p,
    record {
      loaded = l;
      is_bytevector = ground (arith, l, e);
      is_int = ground (arith, l, e);
      small = ground (arith, l, e);
      in_size = ground (arith, l, e);
      in_vec = ground (arith, l, e);
      is_byte = ground (arith, l, e);
      stored = ground (arith, l, e);
    },
  )
]

-- What a read of the bytes of `p` returns.
u8_ref-ok :
    (h : Heap) (ret bv index : Object) (p : ByteVector) (v : ℕ)
    → h.at bv.value ≡ some p
    → same OType.mut_bytevector bv.type ≡ true
    → same OType.imm_int index.type ≡ true
    → index.value < 2 ^ 31
    → index.value < p.size
    → get_elem? p.vec index.value ≡ some v
    → bytevector_u8_ref h ret bv index ≡ ok (record ret { type = OType.imm_int; gc = 1; value = v })
unfolding bytevector_u8_ref ◌-ℤ◌
u8_ref-ok h ret bv index p v l t i k s g = ground (arith, l, g)

pub store_at : (h : Heap) (p : ℕ) (bv : ByteVector) → (store h p bv).at p ≡ some bv
store_at h p bv = ground arith

pub store_apart : (h : Heap) (p q : ℕ) (bv : ByteVector) → q ≢ p → (store h p bv).at q ≡ h.at q
store_apart h p q bv ne = ground arith

pub store-IsWellFormed :
    (h : Heap) (p : ℕ) (bv : ByteVector)
    → IsWellFormed h
    → bv.size ≤ length bv.vec
    → bv.size < 2 ^ 16
    → p < h.next
    → IsWellFormed (store h p bv)
store-IsWellFormed h p bv w fits small below q b at = elim (Bool-cases (q == p)) [
  | inl here ↦
      (let same_bv : some bv ≡ some b = sym (rw here refl) ∙ at in
        let same_b : bv ≡ b = cc in rw⁻¹ same_b (fits, small, ground (arith, here)))
  | inr apart ↦ w q b (sym (rw apart refl) ∙ at)
]

-- Where `_bytevector_u8_set` returns, `_bytevector_u8_ref` reads there what it has stored.
pub u8_ref-u8_set :
    (h h' : Heap) (ret bv index datum r : Object)
    → bytevector_u8_set h ret bv index datum ≡ ok (r, h')
    → bytevector_u8_ref h' ret bv index
      ≡ ok (record ret { type = OType.imm_int; gc = 1; value = datum.value })
u8_ref-u8_set h h' ret bv index datum r e =
    let (p, d) = u8_set-IsStored h h' ret bv index datum r e in
    u8_ref-ok h' ret bv index (record p { vec = set p.vec index.value datum.value }) datum.value
      (ap (λ k. Heap.at k bv.value) d.stored ∙ store_at h bv.value _) d.is_bytevector d.is_int
      d.small d.in_size (get_elem?-set_self p.vec index.value datum.value d.in_vec)

-- Where `_bytevector_u8_set` returns, it has kept the sizes of all bytevectors, the bytes at the
-- other indices of its own, and all bytes of the others.
pub u8_set_elsewhere :
    (h h' : Heap) (ret bv index datum r : Object) (q : ℕ) (old : ByteVector) (i : ℕ)
    → bytevector_u8_set h ret bv index datum ≡ ok (r, h')
    → h.at q ≡ some old
    → (q ≡ bv.value → i ≢ index.value)
    → (new : ByteVector) × (h'.at q ≡ some new)
      × (new.size ≡ old.size)
      × (get_elem? new.vec i ≡ get_elem? old.vec i)
u8_set_elsewhere h h' ret bv index datum r q old i e l ne =
    let (p, d) = u8_set-IsStored h h' ret bv index datum r e in
    let new : ByteVector = record p { vec = set p.vec index.value datum.value } in
    rw d.stored (elim (Bool-cases (q == bv.value)) [
      | inl here ↦
          (let same_q : q ≡ bv.value = (==_iff q bv.value).0 here in
            let same_bv : some p ≡ some old = sym d.loaded ∙ ap h.at (sym same_q) ∙ l in
            let same_p : p ≡ old = cc in
            (
              new,
              rw here refl,
              ap ByteVector.size same_p,
              get_elem?-set_ne p.vec index.value i datum.value (λ x. ne same_q (sym x))
                  ∙ ap (λ k. get_elem? (ByteVector.vec k) i) same_p,
            ))
      | inr apart ↦ (old, rw apart l, refl, refl)
    ])

-- In a well-formed heap `_bytevector_u8_ref` of an object that points to a bytevector of the heap
-- reads no byte behind its block, and does nothing else that C leaves undefined.
pub u8_ref-no_fault :
    (h : Heap) (ret bv index : Object)
    → IsWellFormed h
    → h.at bv.value ≢ none
    → bytevector_u8_ref h ret bv index ≢ fault
unfolding bytevector_u8_ref ◌-ℤ◌
u8_ref-no_fault h ret bv index w l = elim (Option-cases (h.at bv.value)) [
  | inl n ↦ absurd (l n)
  | inr (p, m) ↦
      (let fits = w bv.value p m in
        elim (Option-cases (get_elem? p.vec index.value)) [
          | inl g ↦ (let out = get_elem?-none p.vec index.value g in ground (arith, m, g))
          | inr (v, g) ↦ ground (arith, m, g)
        ])
]

abbrev pub written : Heap → (bv index datum : Object) → ByteVector → Heap
written h bv index datum p = store h bv.value (record p { vec = set p.vec index.value datum.value })

u8_set-ok :
    (h : Heap) (ret bv index datum : Object) (p : ByteVector)
    → h.at bv.value ≡ some p
    → same OType.mut_bytevector bv.type ≡ true
    → same OType.imm_int index.type ≡ true
    → same OType.imm_int datum.type ≡ true
    → index.value < p.size
    → p.size < 2 ^ 16
    → p.size ≤ length p.vec
    → datum.value < 2 ^ 8
    → bytevector_u8_set h ret bv index datum
      ≡ ok (
        record ret { type = OType.imm_int; gc = 1; value = datum.value },
        written h bv index datum p,
      )
unfolding bytevector_u8_set ◌-ℤ◌
u8_set-ok h ret bv index datum p l b i d lt small fits byte = ground (arith, l)

u8_set-panics :
    (h : Heap) (ret bv index datum : Object) (p : ByteVector)
    → h.at bv.value ≡ some p
    → index.value < 2 ^ 32
    → datum.value < 2 ^ 32
    → p.size < 2 ^ 16
    → (p.size ≤ index.value) ⊎ (2 ^ 8 ≤ datum.value)
    → bytevector_u8_set h ret bv index datum ≡ panic
unfolding bytevector_u8_set ◌-ℤ◌
u8_set-panics h ret bv index datum p l hi hd small (inl out) = ground (arith, l)
u8_set-panics h ret bv index datum p l hi hd small (inr wide) = ground (arith, l)

written-IsWellFormed :
    (h : Heap) (bv index datum : Object) (p : ByteVector)
    → IsWellFormed h
    → h.at bv.value ≡ some p
    → IsWellFormed (written h bv index datum p)
written-IsWellFormed h bv index datum p w l =
    let length_kept = length-set p.vec index.value datum.value in
    let fits = w bv.value p l in store-IsWellFormed h bv.value _ w (omega arith) fits.1 fits.2

-- `_bytevector_u8_set` on a mutable bytevector of a well-formed heap, with integers whose values are
-- words of 32 bits. Where the index is below the size and the datum is a byte, it returns, with the
-- byte at the index as the only change of the heap, which stays well-formed, and
-- `_bytevector_u8_ref` reads the byte back; for every other index or datum, negative ones too, it
-- ends in `PANIC`.
pub u8_set-Stores :
    (h : Heap) (ret bv index datum : Object) (p : ByteVector)
    → IsWellFormed h
    → h.at bv.value ≡ some p
    → same OType.mut_bytevector bv.type ≡ true
    → same OType.imm_int index.type ≡ true
    → same OType.imm_int datum.type ≡ true
    → index.value < 2 ^ 32
    → datum.value < 2 ^ 32
    → ((index.value < p.size)
        × (datum.value < 2 ^ 8)
        × (bytevector_u8_set h ret bv index datum
            ≡ ok (
              record ret { type = OType.imm_int; gc = 1; value = datum.value },
              written h bv index datum p,
            ))
        × IsWellFormed (written h bv index datum p)
        × (bytevector_u8_ref (written h bv index datum p) ret bv index
            ≡ ok (record ret { type = OType.imm_int; gc = 1; value = datum.value })))
      ⊎ (((p.size ≤ index.value) ⊎ (2 ^ 8 ≤ datum.value))
          × (bytevector_u8_set h ret bv index datum ≡ panic))
u8_set-Stores h ret bv index datum p w l b i d hi hd =
    let fits = w bv.value p l in
    elim (Bool-cases (ltb index.value p.size && ltb datum.value (2 ^ 8))) [
      | inl e ↦
          let inside : index.value < p.size = ground (arith, e) in
          let byte : datum.value < 2 ^ 8 = ground (arith, e) in
          let returns = u8_set-ok h ret bv index datum p l b i d inside fits.1 fits.0 byte in
          inl (
            inside,
            byte,
            returns,
            written-IsWellFormed h bv index datum p w l,
            u8_ref-u8_set h _ ret bv index datum _ returns,
          )
      | inr e ↦
          let out : (p.size ≤ index.value) ⊎ (2 ^ 8 ≤ datum.value) = ground (arith, e) in
          inr (out, u8_set-panics h ret bv index datum p l hi hd fits.1 out)
    ]
