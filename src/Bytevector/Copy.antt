-- ===== src/Bytevector/Copy.antt =====
-- `_make_bytevector` and `_bytevector_copy_overwrite` on the operands of `_bytevector_append`
-- (bytevector.c).
use animula.Prelude.{
  ℕ, ◌+◌, ◌%◌, ◌^◌, ◌≤◌, ◌<◌, ◌≡◌, ◌≢◌, true, false, ◌==◌, some, ◌++◌, length, take, drop,
  replicate, arith,
}
use animula.Prelude.Int.{pos, ◌-ℤ◌, ◌+ℤ◌}
use animula.Run.{ok, panic}
use animula.Object.{OType, Object, same, imm, s32, none_const}
use animula.Bytevector.{
  ByteVector, Heap, load, store, validate_bytevector, make_bytevector, bytevector_copy_overwrite,
}

abbrev pub made : Heap → (n d : ℕ) → Heap
made h n d = record (store h h.next (record { size = n % 2 ^ 16; vec = replicate n (d % 2 ^ 8) })) {
  next = h.next + 1;
}

pub make_bytevector-ok :
    (h : Heap) (ret : Object) (n d : ℕ)
    → n < 2 ^ 31
    → d < 2 ^ 31
    → make_bytevector h ret (imm (pos n)) (imm (pos d))
      ≡ ok (record ret { type = OType.mut_bytevector; gc = 1; value = h.next }, made h n d)
unfolding make_bytevector
make_bytevector-ok h ret n d hn hd =
    let en : n % 2 ^ 32 ≡ n = omega arith in
    let ed : d % 2 ^ 32 ≡ d = omega arith in rw (en, ed) (ground arith)

-- A bytevector object at an address of the heap.
abbrev pub IsBytevector : Object → Type 0
IsBytevector o = validate_bytevector o ≡ ok tt

pos_minus_zero : (n : ℕ) → pos n -ℤ pos 0 ≡ pos n
unfolding ◌-ℤ◌
pos_minus_zero n = ground arith

pos_plus : (m n : ℕ) → pos m +ℤ pos n ≡ pos (m + n)
unfolding ◌+ℤ◌
pos_plus m n = ground arith

pub load-some : (h : Heap) (p : ℕ) (bv : ByteVector) → h.at p ≡ some bv → load h p ≡ ok bv
load-some h p bv e = ground (arith, e)

s32_small : (n : ℕ) → n < 2 ^ 31 → s32 n ≡ pos n
s32_small n h = ground arith

pub copy_overwrite-ok :
    (h : Heap) (dst src : Object) (d s : ByteVector) (i n : ℕ)
    → same OType.mut_bytevector dst.type ≡ true
    → IsBytevector src
    → h.at dst.value ≡ some d
    → h.at src.value ≡ some s
    → dst.value ≢ src.value
    → d.size < 2 ^ 16
    → i + n ≤ d.size
    → i + n ≤ length d.vec
    → n ≤ s.size
    → n ≤ length s.vec
    → bytevector_copy_overwrite h dst (imm (pos i)) src (imm (pos 0)) (imm (pos n))
      ≡ ok (
        none_const,
        store h dst.value (record d { vec = take i d.vec ++ (take n s.vec ++ drop (i + n) d.vec) }),
      )
unfolding bytevector_copy_overwrite
copy_overwrite-ok h dst src d s i n t b ld ls ne small room len fits lens =
    let ei : i % 2 ^ 32 ≡ i = omega arith in
    let en : n % 2 ^ 32 ≡ n = omega arith in
    let si : s32 i ≡ pos i = s32_small i (omega arith) in
    let sn : s32 n ≡ pos n = s32_small n (omega arith) in
    let apart : dst.value == src.value ≡ false = ground arith in
    rw
      (
        b,
        t,
        load-some h dst.value d ld,
        load-some h src.value s ls,
        ei,
        en,
        si,
        sn,
        apart,
        pos_minus_zero i,
        pos_plus i n,
      )
      (ground arith)

pub copy_overwrite-panic :
    (h : Heap) (dst src : Object) (d s : ByteVector) (i n : ℕ)
    → same OType.mut_bytevector dst.type ≡ true
    → IsBytevector src
    → h.at dst.value ≡ some d
    → h.at src.value ≡ some s
    → i < 2 ^ 16
    → n < 2 ^ 16
    → d.size < i + n
    → bytevector_copy_overwrite h dst (imm (pos i)) src (imm (pos 0)) (imm (pos n)) ≡ panic
unfolding bytevector_copy_overwrite
copy_overwrite-panic h dst src d s i n t b ld ls hi hn over =
    let ei : i % 2 ^ 32 ≡ i = omega arith in
    let en : n % 2 ^ 32 ≡ n = omega arith in
    let si : s32 i ≡ pos i = s32_small i (omega arith) in
    let sn : s32 n ≡ pos n = s32_small n (omega arith) in
    rw
      (
        b,
        t,
        load-some h dst.value d ld,
        load-some h src.value s ls,
        ei,
        en,
        si,
        sn,
        pos_minus_zero i,
        pos_plus i n,
      )
      (ground arith)
