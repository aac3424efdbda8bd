-- ===== src/Strings/Bytes.antt =====
-- The functions of string.h that str.c uses, on blocks of bytes.
pub mod Laws
use animula.Prelude.{
  ℕ, zero, suc, ◌+◌, ◌<◌, ◌≤◌, ◌≡◌, ◌≢◌, refl, ap, Bool, true, false, ◌==◌, ◌&&◌, ltb,
  if◌then◌else◌, List, [], ◌∷◌, ◌++◌, length, take, drop, replicate, arith,
}
use animula.Run.{Run, ok, fault, ◌>>=◌}

-- A read behind the block is a fault.
unfoldable pub strnlen : List ℕ → (max : ℕ) → Run ℕ
strnlen block zero = ok 0
strnlen [] (suc max) = fault
strnlen (c ∷ block) (suc max) = if c == 0 then ok 0 else do n ← strnlen block max; ok (suc n)

-- `0 == strncmp (a, b, max)`.
unfoldable pub strncmp_zero : (a b : List ℕ) → (max : ℕ) → Run Bool
strncmp_zero a b zero = ok true
strncmp_zero [] b (suc max) = fault
strncmp_zero (c ∷ a) [] (suc max) = fault
strncmp_zero (c ∷ a) (d ∷ b) (suc max) =
    if c == d then (if c == 0 then ok true else strncmp_zero a b max) else ok false

-- The `n` bytes that `strncpy (_, src, n)` writes: zeros behind the end of the string.
unfoldable pub strncpy : (src : List ℕ) → (n : ℕ) → Run (List ℕ)
strncpy src zero = ok []
strncpy [] (suc n) = fault
strncpy (c ∷ src) (suc n) =
    if c == 0 then ok (replicate (suc n) 0) else do rest ← strncpy src n; ok (c ∷ rest)

-- The block with the bytes at `i`.
abbrev pub write : (block : List ℕ) → (i : ℕ) → (bytes : List ℕ) → Run (List ℕ)
write block i bytes =
    if ltb (length block) (i + length bytes)
    then fault
    else ok (take i block ++ (bytes ++ drop (i + length bytes) block))
