-- ===== src/Vm/Memory/Laws.antt =====
-- Reads after writes, and the round trips of the encodings.
use native.Mathlib.Nat.{pow-suc}
use animula.Prelude.{
  ℕ, zero, suc, ◌+◌, ◌*◌, ◌/◌, ◌%◌, ◌^◌, ◌≤◌, ◌<◌, ◌≡◌, refl, ap, ap₂, ◌∙◌, ◌⊎◌, List, [], ◌∷◌,
  length, arith,
}
use animula.Object.{Object, code}
use animula.Vm.Memory.{
  Memory, store_byte, write, read, bytes, number, type_of, object_bytes, object_of,
}

pub length-bytes : (n v : ℕ) → length (bytes n v) ≡ n
length-bytes zero v = refl
length-bytes (suc n) v = ap suc (length-bytes n (v / 256))

pub number-bytes : (n v : ℕ) → v < 256 ^ n → number (bytes n v) ≡ v
number-bytes zero v h = omega arith
number-bytes (suc n) v h = omega (arith, number-bytes n (v / 256) (omega (arith, pow-suc 256 n)))

write_outside :
    (m : Memory) (a : ℕ) (bs : List ℕ) (c : ℕ)
    → (c < a) ⊎ (a + length bs ≤ c)
    → write m a bs c ≡ m c
unfolding write
write_outside m a [] c h = refl
write_outside m a (b ∷ bs) c h = ground (arith, write_outside m (a + 1) bs c)

pub read_congr :
    (m m' : Memory) (c n : ℕ)
    → ((k : ℕ) → c ≤ k → k < c + n → m k ≡ m' k)
    → read m c n ≡ read m' c n
unfolding read
read_congr m m' c zero h = refl
read_congr m m' c (suc n) h =
    ap₂ ◌∷◌ (h c (omega arith) (omega arith))
      (read_congr m m' (c + 1) n λ k p q. h k (omega arith) (omega arith))

-- A write elsewhere is not seen.
pub read-write_apart :
    (m : Memory) (a : ℕ) (bs : List ℕ) (c n : ℕ)
    → (c + n ≤ a) ⊎ (a + length bs ≤ c)
    → read (write m a bs) c n ≡ read m c n
read-write_apart m a bs c n h =
    read_congr (write m a bs) m c n λ k p q. write_outside m a bs k (omega arith)

store_byte_outside : (m : Memory) (a b c n : ℕ) → a < c → read (store_byte m a b) c n ≡ read m c n
unfolding store_byte
store_byte_outside m a b c n h = read_congr (store_byte m a b) m c n λ k p q. ground arith

-- What is written is read back.
pub read-write_same : (m : Memory) (a : ℕ) (bs : List ℕ) → read (write m a bs) a (length bs) ≡ bs
unfolding read write
read-write_same m a [] = refl
read-write_same m a (b ∷ bs) = ap₂ ◌∷◌ (ground arith) (
    store_byte_outside (write m (a + 1) bs) a b (a + 1) (length bs) (omega arith)
    ∙ read-write_same m (a + 1) bs)

-- An object as the machine stores it.
pub record IsObject (o : Object) : Type 0 where
  pub type_known : type_of (code o.type) ≡ o.type
  pub type_fits : code o.type < 64
  pub gc_fits : o.gc < 4
  pub value_fits : o.value < 2 ^ 32

-- An object is what its bytes in the stack read as: its type is one that the 6 bits of the field
-- stand for, and its other fields fit theirs.
pub object_of-object_bytes : (o : Object) → IsObject o → object_of (object_bytes o) ≡ o
object_of-object_bytes o h =
    λ i. record { type = type_back i; gc = gc_back i; value = value_back i }
  where
    type_back : type_of ((code o.type + 64 * o.gc) % 64) ≡ o.type
    type_back =
        let e : (code o.type + 64 * o.gc) % 64 ≡ code o.type = omega arith in
        ap type_of e ∙ h.type_known

    gc_back : (code o.type + 64 * o.gc) / 64 ≡ o.gc
    gc_back = omega arith

    value_back : number (bytes 4 o.value) ≡ o.value
    value_back = number-bytes 4 o.value h.value_fits
