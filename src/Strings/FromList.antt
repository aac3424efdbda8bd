-- ===== src/Strings/FromList.antt =====
-- str.c: `_list_to_string` and the string that it makes.
use animula.Prelude.{
  ℕ, zero, suc, ◌+◌, ◌%◌, ◌^◌, ◌<◌, ◌≤◌, ◌≡◌, refl, ap, true, ltb, some, List, [], ◌∷◌, length,
  arith,
}
use animula.Run.{ok, fault}
use animula.Object.{OType, Object}
use animula.Store.{Store, fetch-some, put, put_same, not_null}
use animula.Lists.Chain.{Cells, start, Chain, cons, Holds}
use animula.Lists.Laws.{list_object}
use animula.Strings.{max_str_len, collect, list_to_string, string_length}
use animula.Strings.Bytes.{strnlen}
use animula.Strings.Bytes.Laws.{NonZero}

-- The objects of a chain hold the bytes `cs`.
abbrev pub Chars : Store → Cells → List ℕ → Type 0
Chars s [] [] = Unit
Chars s [] (c ∷ cs) = ⊥
Chars s (x ∷ xs) [] = ⊥
Chars s ((a, o) ∷ xs) (c ∷ cs) =
    ((x : Object) × (s.objects o ≡ some x) × (x.value % 2 ^ 8 ≡ c)) × Chars s xs cs

collect-bytes :
    (fuel : ℕ) (s : Store) (n : ℕ) (xs : Cells) (cs : List ℕ)
    → Chain s.nodes 0 xs
    → Chars s xs cs
    → length xs < fuel
    → n + length xs ≤ max_str_len
    → (collect fuel s (start xs 0) n ≡ ok cs) × (length cs ≡ length xs)
unfolding collect
collect-bytes zero s n xs cs c chars h fits = absurd (omega (arith, h))
collect-bytes (suc fuel) s n [] [] c chars h fits = (refl, refl)
collect-bytes (suc fuel) s n [] (v ∷ cs) c chars h fits = elim chars [ ]
collect-bytes (suc fuel) s n (x ∷ xs) [] c chars h fits = elim chars [ ]
collect-bytes (suc fuel) s n ((a, o) ∷ xs) (v ∷ cs) (cons ne at c) ((x, here, byte), chars) h fits =
    let room : ltb n max_str_len ≡ true = ground (arith, fits) in
    let (rest, size) =
      collect-bytes fuel s (n + 1) xs cs c chars (omega arith) (omega (arith, fits)) in
    (
      rw (not_null a ne, fetch-some s.nodes a _ at, fetch-some s.objects o x here, room, rest, byte)
          refl,
      ap suc size,
    )

strnlen-fault : (cs : List ℕ) (max : ℕ) → NonZero cs → length cs < max → strnlen cs max ≡ fault
unfolding strnlen
strnlen-fault cs zero ne h = absurd (omega (arith, h))
strnlen-fault [] (suc max) ne h = refl
strnlen-fault (c ∷ cs) (suc max) (ne, nes) h =
    rw (not_null c ne, strnlen-fault cs max nes (omega arith)) refl

-- `_list_to_string` of a list of less than `MAX_STR_LEN` characters, none of them zero, makes a
-- string of their bytes that no zero ends: `_string_length` of it reads behind its block.
pub list_to_string-fault :
    (fuel : ℕ) (s : Store) (ret : Object) (gc p : ℕ) (xs : Cells) (cs : List ℕ)
    → Holds s p xs
    → Chars s xs cs
    → NonZero cs
    → length xs < fuel
    → length xs < max_str_len
    → (r : Object) × (s' : Store) × (list_to_string fuel s ret (list_object gc p) ≡ ok (r, s'))
      × (s'.strings r.value ≡ some cs)
      × (string_length s' ret r ≡ fault)
unfolding list_to_string string_length
list_to_string-fault fuel s ret gc p xs cs hold chars ne h short =
    let (bytes, size) = collect-bytes fuel s 0 xs cs hold.chain chars h (omega arith) in
    let fits : ltb (length cs) max_str_len ≡ true = ground (arith, size, short) in
    (
      record ret { type = OType.mut_string; value = s.next },
      record s { next = s.next + 1; strings = put s.strings s.next cs },
      rw (fetch-some s.lists p _ hold.at, hold.first, bytes, fits) refl,
      put_same s.strings s.next cs,
      rw
          (
            fetch-some (put s.strings s.next cs) s.next cs (put_same s.strings s.next cs),
            strnlen-fault cs max_str_len ne (omega (arith, size)),
          )
          refl,
    )
