-- ===== src/Bytevector.antt =====
-- bytevector.c: the bytevectors and their primitives.
pub mod Laws
pub mod Copy
pub mod Append
mod Tests
use animula.Prelude.{
  ℕ, ◌+◌, ◌-◌, ◌%◌, ◌^◌, Bool, not, ◌||◌, ◌&&◌, ltb, leb, ◌==◌, if◌then◌else◌, Option, none, some,
  List, length, ◌++◌, get_elem?, set, take, drop, replicate,
}
use animula.Prelude.Int.{ℤ, pos, negsuc, pos_part, ltb_ℤ, ◌+ℤ◌, ◌-ℤ◌}
use animula.Run.{Run, ok, panic, fault, ◌>>=◌, ◌>>◌, require}
use animula.Object.{OType, Object, same, s32, word, imm, none_const, validate}

-- `struct ByteVector` and `struct MutByteVector`: `vec` is the block that its pointer points to.
pub record ByteVector : Type 0 where
  pub size : ℕ
  pub vec : List ℕ

-- The bytevectors on the heap by their addresses, and the address of the next one.
pub record Heap : Type 0 where
  pub next : ℕ
  pub at : ℕ → Option ByteVector

abbrev pub store : Heap → ℕ → ByteVector → Heap
store h p bv = record h { at = λ q. if q == p then some bv else h.at q }

abbrev pub load : Heap → ℕ → Run ByteVector
load h p = elim (h.at p) [ none ↦ fault | some bv ↦ ok bv ]

-- `VALIDATE_BYTEVECTOR`.
abbrev pub validate_bytevector : Object → Run (Unit {0})
validate_bytevector o = require (same o.type OType.bytevector || same o.type OType.mut_bytevector)

-- A negative count writes nothing, and gets no block that may be accessed.
unfoldable pub make_bytevector : Heap → Object → Object → Object → Run (Object × Heap)
make_bytevector h ret count datum = do
  validate count OType.imm_int
  validate datum OType.imm_int
  let bv : ByteVector = record {
    size = count.value % 2 ^ 16;
    vec = replicate (pos_part (s32 count.value)) (datum.value % 2 ^ 8);
  }
  ok (
    record ret { type = OType.mut_bytevector; gc = 1; value = h.next },
    record (store h h.next bv) { next = h.next + 1 },
  )

unfoldable pub bytevector_length : Heap → Object → Object → Run Object
bytevector_length h ret bv = do
  validate_bytevector bv
  p ← load h bv.value
  ok (record ret { type = OType.imm_int; gc = 1; value = p.size })

-- `idx < MIN_UINT16 || idx > p->size - 1`.
abbrev pub out_of_range : ℤ → ℕ → Bool
out_of_range idx size = ltb_ℤ idx (pos 0) || ltb_ℤ (pos size -ℤ pos 1) idx

unfoldable pub bytevector_u8_ref : Heap → Object → Object → Object → Run Object
bytevector_u8_ref h ret bv index = do
  validate_bytevector bv
  validate index OType.imm_int
  p ← load h bv.value
  if out_of_range (s32 index.value) p.size then panic else elim (get_elem? p.vec index.value) [
    | none ↦ fault
    | some v ↦ ok (record ret { type = OType.imm_int; gc = 1; value = v })
  ]

unfoldable pub bytevector_u8_set : Heap → Object → Object → Object → Object → Run (Object × Heap)
bytevector_u8_set h ret bv index datum = do
  validate bv OType.mut_bytevector
  validate index OType.imm_int
  validate datum OType.imm_int
  p ← load h bv.value
  if out_of_range (s32 index.value) p.size
      then panic
      else if ltb_ℤ (s32 datum.value) (pos 0) || ltb_ℤ (pos 255) (s32 datum.value)
      then panic
      else if not (ltb index.value (length p.vec))
      then fault
      else ok (
        record ret { type = OType.imm_int; gc = 1; value = datum.value },
        store h bv.value (record p { vec = set p.vec index.value datum.value }),
      )

-- `os_memcpy (dst + i, src + j, n)`: a copy out of bounds is a fault.
abbrev pub memcpy : List ℕ → ℕ → List ℕ → ℕ → ℕ → Run (List ℕ)
memcpy dst i src j n =
    if ltb (length dst) (i + n) || ltb (length src) (j + n)
    then fault
    else ok (take i dst ++ (take n (drop j src) ++ drop (i + n) dst))

unfoldable pub bytevector_copy : Heap → Object → Object → Object → Object → Run (Object × Heap)
bytevector_copy h ret bv start end = do
  validate_bytevector bv
  validate start OType.imm_int
  validate end OType.imm_int
  p ← load h bv.value
  let initial = s32 start.value
  let final = s32 end.value
  if ltb_ℤ final (pos 0) || ltb_ℤ (pos p.size) final || ltb_ℤ final initial || ltb_ℤ initial (pos 0)
      then panic
      else do
        let n = end.value - start.value
        (r, h') ← make_bytevector h ret (imm (final -ℤ initial)) (imm (pos 0))
        q ← load h' r.value
        b ← memcpy q.vec 0 p.vec start.value n
        ok (r, store h' r.value (record q { vec = b }))

-- A result of signed arithmetic that 32 bits do not hold.
abbrev pub overflows : ℤ → Bool
overflows z = ltb_ℤ z (negsuc (2 ^ 31 - 1)) || ltb_ℤ (pos (2 ^ 31 - 1)) z

-- The blocks of `memcpy` overlap: both are in one bytevector, and neither ends before the other.
abbrev pub overlap : (dst src i j n : ℕ) → Bool
overlap dst src i j n = dst == src && ltb i (j + n) && ltb j (i + n)

unfoldable pub bytevector_copy_overwrite :
    Heap → (dst index src src_start src_end : Object) → Run (Object × Heap)
bytevector_copy_overwrite h dst index src src_start src_end = do
  validate dst OType.mut_bytevector
  validate index OType.imm_int
  validate_bytevector src
  validate src_start OType.imm_int
  validate src_end OType.imm_int
  d ← load h dst.value
  s ← load h src.value
  let dst_idx = s32 index.value
  let initial = s32 src_start.value
  let final = s32 src_end.value
  let dst_last_idx = (dst_idx -ℤ initial) +ℤ final
  if overflows (dst_idx -ℤ initial) || overflows dst_last_idx
      then fault
      else if ltb_ℤ final initial
          || ltb_ℤ initial (pos 0)
          || ltb_ℤ (pos s.size) final
          || ltb_ℤ dst_idx (pos 0)
          || ltb_ℤ (pos d.size) dst_last_idx
      then panic
      else do
        let n = src_end.value - src_start.value
        if overlap dst.value src.value index.value src_start.value n then fault else do
          b ← memcpy d.vec index.value s.vec src_start.value n
          ok (none_const, store h dst.value (record d { vec = b }))

-- The object that `ret` pointed to is given the new bytevector in the end.
unfoldable pub bytevector_append : Heap → Object → Object → Run (Object × Heap)
bytevector_append h bv0 bv1 = do
  validate_bytevector bv0
  validate_bytevector bv1
  vec0 ← load h bv0.value
  vec1 ← load h bv1.value
  let tmp0 = imm (pos 0)
  let size0 = imm (pos vec0.size)
  let size1 = imm (pos vec1.size)
  let size_all = imm (pos (vec0.size + vec1.size))
  let new : Object = record { type = OType.imm_int; gc = 0; value = 0 }
  (new_bv, h₁) ← make_bytevector h new size_all tmp0
  (_, h₂) ← bytevector_copy_overwrite h₁ new_bv tmp0 bv0 tmp0 size0
  (_, h₃) ← bytevector_copy_overwrite h₂ new_bv size0 bv1 tmp0 size1
  ok (new_bv, h₃)
